-- ===== src/Base/Bits.antt =====
-- `|` of a shifted word and a word that fits below it as a sum, `&` with a mask of low bits as a
-- remainder, and a check by evaluation of every value below a bound.
use Prim.Native.Nat.{
  ℕ, zero, suc, ◌+◌, ◌-◌, ◌*◌, ◌/◌, ◌%◌, ◌^◌, ◌≤◌, ◌<◌, max, min, bit_or, bit_and, digits, bitwise,
  bit_or-bitwise, bit_and-bitwise,
}
use mathlib.Core.Path.{◌≡◌, refl, sym, ap, ap₂, ◌∙◌}
use mathlib.Core.Logic.{◌⊎◌, inl, inr}
use mathlib.Core.Bool.{Bool, true, ◌&&◌}
use native.Mathlib.Nat.{pow-suc, one-le-pow}
use native.Mathlib.Omega.{arith}

le_split : (a n : ℕ) → a ≤ suc n → (a ≡ suc n) ⊎ (a ≤ n)
le_split a n h = grind arith

-- An operation on digits, in `n` rounds.
module _ (op : ℕ → ℕ → ℕ) (z : ℕ → ℕ) where
  one_more_round : (n a b : ℕ) → a ≤ n → digits z op (suc n) a b ≡ digits z op n a b
  one_more_round zero zero b h = refl
  one_more_round zero (suc a) b h = absurd (omega arith)
  one_more_round (suc n) zero b h = refl
  one_more_round (suc n) (suc a) b h =
      ap (λ (t : ℕ). t * 2 + op (suc a % 2) (b % 2))
        (one_more_round n (suc a / 2) (b / 2) (omega arith))

  -- Rounds beyond the first operand change nothing.
  rounds_enough : (n a b : ℕ) → a ≤ n → digits z op n a b ≡ bitwise z op a b
  rounds_enough zero zero b h = refl
  rounds_enough zero (suc a) b h = absurd (omega arith)
  rounds_enough (suc n) a b h = elim (le_split a n h) [
    | inl e ↦ ap (λ (t : ℕ). digits z op t a b) (sym e)
    | inr below ↦ one_more_round n a b below ∙ rounds_enough n a b below
  ]

  lowest_digit :
      (x y : ℕ)
      → bitwise z op (suc x) y ≡ bitwise z op (suc x / 2) (y / 2) * 2 + op (suc x % 2) (y % 2)
  lowest_digit x y =
      ap (λ (t : ℕ). t * 2 + op (suc x % 2) (y % 2))
        (rounds_enough x (suc x / 2) (y / 2) (omega arith))

bit_or_digit : (a b : ℕ) → bit_or a b ≡ bit_or (a / 2) (b / 2) * 2 + max (a % 2) (b % 2)
bit_or_digit zero b = omega (arith, bit_or-bitwise 0 b, bit_or-bitwise 0 (b / 2))
bit_or_digit (suc a) b = omega (
  arith,
  bit_or-bitwise (suc a) b,
  bit_or-bitwise (suc a / 2) (b / 2),
  lowest_digit max (λ y. y) a b,
)

bit_and_digit : (a b : ℕ) → bit_and a b ≡ bit_and (a / 2) (b / 2) * 2 + min (a % 2) (b % 2)
bit_and_digit zero b = omega (arith, bit_and-bitwise 0 b, bit_and-bitwise 0 (b / 2))
bit_and_digit (suc a) b = omega (
  arith,
  bit_and-bitwise (suc a) b,
  bit_and-bitwise (suc a / 2) (b / 2),
  lowest_digit min (λ y. 0) a b,
)

bit_or-zero_upto : (n a : ℕ) → a ≤ n → bit_or a 0 ≡ a
bit_or-zero_upto n zero h = refl
bit_or-zero_upto zero (suc a) h = absurd (omega arith)
bit_or-zero_upto (suc n) (suc a) h =
    let half = bit_or-zero_upto n (suc a / 2) (omega arith) in
    omega (arith, bit_or_digit (suc a) 0, half)

bit_and-zero_upto : (n a : ℕ) → a ≤ n → bit_and a 0 ≡ 0
bit_and-zero_upto n zero h = refl
bit_and-zero_upto zero (suc a) h = absurd (omega arith)
bit_and-zero_upto (suc n) (suc a) h =
    let half = bit_and-zero_upto n (suc a / 2) (omega arith) in
    omega (arith, bit_and_digit (suc a) 0, half)

-- `(q << k) | r` is a sum when `r` fits `k` bits.
pub bit_or-add : (k q r : ℕ) → r < 2 ^ k → bit_or (q * 2 ^ k) r ≡ q * 2 ^ k + r
bit_or-add zero q r fits =
    let e : r ≡ 0 = omega arith in
    omega (arith, ap (bit_or (q * 1)) e, bit_or-zero_upto (q * 1) (q * 1) (omega arith))
bit_or-add (suc k) q r fits =
    let double : q * 2 ^ suc k ≡ 2 * (q * 2 ^ k) =
      omega (arith, ap (λ (t : ℕ). q * t) (pow-suc 2 k)) in
    let lower = bit_or-add k q (r / 2) (omega (arith, pow-suc 2 k)) in
    ap (λ (t : ℕ). bit_or t r) double
    ∙ omega (
      arith,
      double,
      lower,
      bit_or_digit (2 * (q * 2 ^ k)) r,
      ap (λ (t : ℕ). bit_or t (r / 2)) (half_double (q * 2 ^ k)),
    )
  where
    half_double : (t : ℕ) → (2 * t) / 2 ≡ t
    half_double t = omega arith

low_part : (k q r : ℕ) → r < 2 ^ k → bit_and (q * 2 ^ k + r) (2 ^ k - 1) ≡ r
low_part zero q r fits = omega (arith, bit_and-zero_upto (q * 1 + r) (q * 1 + r) (omega arith))
low_part (suc k) q r fits =
    let two = pow-suc 2 k in
    let double : q * 2 ^ suc k ≡ 2 * (q * 2 ^ k) = omega (arith, ap (λ (t : ℕ). q * t) two) in
    let half_mask : (2 ^ suc k - 1) / 2 ≡ 2 ^ k - 1 = omega (arith, two, one-le-pow k 2) in
    let half : (q * 2 ^ suc k + r) / 2 ≡ q * 2 ^ k + r / 2 = omega (arith, double) in
    omega (
      arith,
      two,
      double,
      one-le-pow k 2,
      bit_and_digit (q * 2 ^ suc k + r) (2 ^ suc k - 1),
      ap₂ bit_and half half_mask,
      low_part k q (r / 2) (omega (arith, two)),
    )

-- `x & 0xffff` keeps the low 16 bits.
pub bit_and_ffff : (x : ℕ) → bit_and x 0xffff ≡ x % 65536
bit_and_ffff x =
    let parts : x ≡ x / 65536 * 2 ^ 16 + x % 65536 = omega arith in
    ap (λ (t : ℕ). bit_and t 0xffff) parts ∙ low_part 16 (x / 65536) (x % 65536) (omega arith)

-- Words of `k` bits have a disjunction of `k` bits.
pub bit_or-lt : (k a b : ℕ) → a < 2 ^ k → b < 2 ^ k → bit_or a b < 2 ^ k
bit_or-lt zero a b ha hb =
    let zero_a : a ≡ 0 = omega arith in
    let zero_b : b ≡ 0 = omega arith in omega (arith, ap₂ bit_or zero_a zero_b)
bit_or-lt (suc k) a b ha hb =
    let two = pow-suc 2 k in
    omega (
      arith,
      two,
      bit_or_digit a b,
      bit_or-lt k (a / 2) (b / 2) (omega (arith, two)) (omega (arith, two)),
    )

unfoldable pub holds_below : (ℕ → Bool) → ℕ → Bool
holds_below p zero = true
holds_below p (suc n) = p n && holds_below p n

-- Evaluation over a range answers for each value in it.
pub holds_below_at : (p : ℕ → Bool) (n : ℕ) → holds_below p n ≡ true → (x : ℕ) → x < n → p x ≡ true
unfolding holds_below
holds_below_at p zero all x below = elim below [ ]
holds_below_at p (suc n) all x below = ground (arith, holds_below_at p n (ground arith) x)
