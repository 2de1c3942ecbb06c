-- ===== src/Checksum/Value.antt =====
-- The value of the checksum: a ones' complement sum of 16-bit words, most significant byte first.
use simple_vpn.Base.{
  ℕ, suc, ◌+◌, ◌-◌, ◌*◌, ◌/◌, ◌%◌, ◌^◌, ◌≤◌, ◌<◌, ◌≡◌, ap, ◌∙◌, arith, [], ◌∷◌, ◌++◌, some, ◌==◌,
  if◌then◌else◌, ltb, u16, u32, not32, swap16, length, bit_or, bit_or-add, bit_and_ffff,
}
use simple_vpn.Memory.{Bytes, IsBytes}
use simple_vpn.Checksum.{sum_loop, fold_carries, fold_fuel, cksum}

abbrev pub word_sum : Bytes → ℕ
word_sum [] = 0
word_sum (a ∷ []) = a * 256
word_sum (a ∷ b ∷ xs) = (a * 256 + b) + word_sum xs

-- The sum with every carry brought back in: 0 only for 0, else from 1 to 65535.
abbrev pub ones_sum : ℕ → ℕ
ones_sum n = if n == 0 then 0 else (n - 1) % 65535 + 1

-- The complement of a sum, in the byte order of `cksum`, with 0xffff in place of 0.
unfoldable pub complement : ℕ → ℕ
complement n = let sum = swap16 (65535 - ones_sum n) in if sum == 0 then 65535 else sum

-- What `cksum` returns for a block of bytes.
abbrev pub checksum : Bytes → ℕ
checksum xs = complement (word_sum xs)

sum_loop-word_sum :
    (xs back : Bytes) (sum : ℕ)
    → IsBytes xs
    → sum + word_sum xs < 2 ^ 32
    → sum_loop (xs ++ back) (length xs) sum ≡ some (sum + word_sum xs)
unfolding sum_loop
sum_loop-word_sum [] back sum h fits = ap some (omega arith)
sum_loop-word_sum (a ∷ []) back sum h fits = ap some (omega arith)
sum_loop-word_sum (a ∷ b ∷ xs) back sum h fits =
    let pair : bit_or (a * 256) b ≡ a * 256 + b = bit_or-add 8 a b h.1.0 in
    let next : u32 (sum + bit_or (a * 256) b) ≡ sum + (a * 256 + b) = omega (arith, pair) in
    ap (sum_loop (xs ++ back) (length xs)) next
    ∙ sum_loop-word_sum xs back (sum + (a * 256 + b)) h.1.1 (omega arith)
    ∙ ap some (omega arith)

fold_step :
    (fuel sum : ℕ)
    → fold_carries (suc fuel) sum
      ≡ (if ltb 0xffff sum then fold_carries fuel (sum / 65536 + sum % 65536) else some sum)
unfolding fold_carries
fold_step fuel sum =
    ap (λ (t : ℕ). if ltb 0xffff sum then fold_carries fuel (sum / 65536 + t) else some sum)
      (bit_and_ffff sum)

-- The loop ends within its fuel on every `uint32_t`, at the ones' complement sum.
fold_carries-ones_sum : (sum : ℕ) → sum < 2 ^ 32 → fold_carries fold_fuel sum ≡ some (ones_sum sum)
fold_carries-ones_sum sum h = ground (
  arith,
  fold_step 2 sum,
  fold_step 1 (sum / 65536 + sum % 65536),
  fold_step 0 ((sum / 65536 + sum % 65536) / 65536 + (sum / 65536 + sum % 65536) % 65536),
)

-- 65536 pairs of bytes cannot exceed a `uint32_t`.
word_sum_bound : (xs : Bytes) → IsBytes xs → word_sum xs ≤ 65535 * length xs
word_sum_bound [] h = omega arith
word_sum_bound (a ∷ []) h = omega arith
word_sum_bound (a ∷ b ∷ xs) h = omega (arith, word_sum_bound xs h.1.1)

ones_sum-le : (n : ℕ) → ones_sum n ≤ 65535
ones_sum-le n = ground arith

-- On the first up to 65536 bytes of a block `cksum` returns the ones' complement checksum of their
-- 16-bit words, with its bytes swapped and 0xffff in place of 0; the 32-bit sum does not overflow
-- and the folding loop ends.
pub cksum-checksum :
    (xs back : Bytes)
    → IsBytes xs
    → length xs ≤ 65536
    → cksum (xs ++ back) (length xs) ≡ some (checksum xs)
unfolding cksum complement
cksum-checksum xs back h len =
    let bound = word_sum_bound xs h in
    let total : sum_loop (xs ++ back) (length xs) 0 ≡ some (word_sum xs) =
      sum_loop-word_sum xs back 0 h (omega (arith, bound)) ∙ ap some (omega arith) in
    let low : u16 (not32 (ones_sum (word_sum xs))) ≡ 65535 - ones_sum (word_sum xs) =
      omega (arith, ones_sum-le (word_sum xs)) in
    rw (total, fold_carries-ones_sum (word_sum xs) (omega (arith, bound)), low)
