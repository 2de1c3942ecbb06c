-- ===== src/Cipher/Loop.antt =====
-- The loop of the cipher against a description of its result byte by byte.
use simple_vpn.Base.{
  if◌then◌else◌, ℕ, suc, ◌+◌, ◌%◌, ◌<◌, ◌≡◌, ◌↔◌, ◌⊎◌, inl, inr, refl, ap, ap₂, sym, ◌∙◌, arith, [],
  ◌∷◌, ◌++◌, append_assoc, some, u8, length, get_or, length-append, bit_xor, holds_below,
  holds_below_at, ◌==◌, ◌&&◌, ltb, true, Bool,
}
use simple_vpn.Memory.{Bytes, IsBytes, load8, store8}
use simple_vpn.Memory.Laws.{store8_at, load8_at}
use simple_vpn.Cipher.{key, key_length, xor_loop}

-- The key byte for index `i`.
abbrev pub key_byte : ℕ → ℕ
key_byte i = get_or key (i % 4) 0

-- The bytes from index `i` on, each under its key byte.
abbrev pub mask : ℕ → Bytes → Bytes
mask i [] = []
mask i (x ∷ xs) = bit_xor x (key_byte i) ∷ mask (suc i) xs

abbrev is_byte_cipher : ℕ → ℕ → Bool
is_byte_cipher k x =
    ltb (bit_xor x k) 256
    && ((bit_xor (bit_xor x k) k == x)
        && (if x == k then bit_xor x k == 0 else ltb 0 (bit_xor x k)))

key_table :
    (holds_below (is_byte_cipher 0x12) 256 ≡ true)
    × (holds_below (is_byte_cipher 0x34) 256 ≡ true)
    × (holds_below (is_byte_cipher 0x56) 256 ≡ true)
    × (holds_below (is_byte_cipher 0x78) 256 ≡ true)
unfolding holds_below
key_table = (refl, refl, refl, refl)

-- The remainders by four.
mod_four : (i : ℕ) → (i % 4 ≡ 0) ⊎ (i % 4 ≡ 1) ⊎ (i % 4 ≡ 2) ⊎ (i % 4 ≡ 3)
mod_four i = grind arith

-- What holds of the four key bytes holds of every `key_byte`.
key_byte_elim {ℓ} : (P : ℕ → Type ℓ) → P 0x12 → P 0x34 → P 0x56 → P 0x78 → (i : ℕ) → P (key_byte i)
key_byte_elim P a b c d i = elim (mod_four i) [
  | inl e ↦ rw e a
  | inr (inl e) ↦ rw e b
  | inr (inr (inl e)) ↦ rw e c
  | inr (inr (inr e)) ↦ rw e d
]

byte_cipher : (i x : ℕ) → x < 256 → is_byte_cipher (key_byte i) x ≡ true
byte_cipher i x h =
    key_byte_elim (λ k. is_byte_cipher k x ≡ true)
      (holds_below_at (is_byte_cipher 0x12) 256 key_table.0 x h)
      (holds_below_at (is_byte_cipher 0x34) 256 key_table.1 x h)
      (holds_below_at (is_byte_cipher 0x56) 256 key_table.2 x h)
      (holds_below_at (is_byte_cipher 0x78) 256 key_table.3 x h) i

pub xor-lt : (i x : ℕ) → x < 256 → bit_xor x (key_byte i) < 256
xor-lt i x h = ground (arith, byte_cipher i x h)

pub xor_twice : (i x : ℕ) → x < 256 → bit_xor (bit_xor x (key_byte i)) (key_byte i) ≡ x
xor_twice i x h = ground (arith, byte_cipher i x h)

pub key_load : (i : ℕ) → load8 key (i % key_length) ≡ some (key_byte i)
key_load i = elim (mod_four i) [
  | inl e ↦ rw e
  | inr (inl e) ↦ rw e
  | inr (inr (inl e)) ↦ rw e
  | inr (inr (inr e)) ↦ rw e
]

pub xor_loop_round :
    (input : Bytes) (left i : ℕ) (output : Bytes) (x : ℕ) (output' : Bytes)
    → load8 input i ≡ some x
    → store8 output i (bit_xor x (key_byte i)) ≡ some output'
    → xor_loop input (suc left) i output ≡ xor_loop input left (i + 1) output'
unfolding xor_loop
xor_loop_round input left i output x output' hx ho = rw (hx, key_load i, ho)

-- From the end of `before` and `done` on, the loop masks `xs` into the output.
pub xor_loop-mask :
    (before xs after done old rest : Bytes)
    → length before ≡ length done
    → length xs ≡ length old
    → IsBytes xs
    → xor_loop (before ++ (xs ++ after)) (length xs) (length done) (done ++ (old ++ rest))
      ≡ some (done ++ (mask (length done) xs ++ rest))
xor_loop-mask before [] after done [] rest e f h = unfold xor_loop in refl
xor_loop-mask before [] after done (y ∷ old) rest e f h = absurd (omega arith)
xor_loop-mask before (x ∷ xs) after done [] rest e f h = absurd (omega arith)
xor_loop-mask before (x ∷ xs) after done (y ∷ old) rest e f h =
    xor_loop_round (before ++ x ∷ (xs ++ after)) (length xs) i (done ++ y ∷ (old ++ rest)) x
      (done ++ v ∷ (old ++ rest)) (rw (← e) (load8_at before x (xs ++ after)))
      (store8_at done y (old ++ rest) v ∙ ap (λ (w : ℕ). some (done ++ w ∷ (old ++ rest))) byte)
    ∙ ap₂ (λ (b : Bytes) (j : ℕ). xor_loop b (length xs) j (done ++ v ∷ (old ++ rest)))
        (sym (append_assoc before (x ∷ []) (xs ++ after))) one
    ∙ ap (xor_loop ((before ++ x ∷ []) ++ (xs ++ after)) (length xs) (length (done ++ v ∷ [])))
        (sym (append_assoc done (v ∷ []) (old ++ rest)))
    ∙ xor_loop-mask (before ++ x ∷ []) xs after (done ++ v ∷ []) old rest same (omega arith) h.1
    ∙ ap some (append_assoc done (v ∷ []) (mask (length (done ++ v ∷ [])) xs ++ rest))
    ∙ ap (λ (j : ℕ). some (done ++ v ∷ (mask j xs ++ rest))) (sym one ∙ omega arith)
  where
    i : ℕ
    i = length done

    v : ℕ
    v = bit_xor x (key_byte i)

    byte : u8 v ≡ v
    byte = omega (arith, xor-lt i x h.0)

    one : i + 1 ≡ length (done ++ v ∷ [])
    one = omega (arith, length-append done (v ∷ []))

    same : length (before ++ x ∷ []) ≡ length (done ++ v ∷ [])
    same = omega (arith, length-append done (v ∷ []), length-append before (x ∷ []))

-- A byte is hidden as NUL exactly when it is its key byte.
pub xor-zero_iff : (i x : ℕ) → x < 256 → (bit_xor x (key_byte i) ≡ 0) ↔ (x ≡ key_byte i)
xor-zero_iff i x h = ground (arith, byte_cipher i x h)
