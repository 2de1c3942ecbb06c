-- ===== src/Guide/RawPacket/Sum.antt =====
-- The checksum of the example and that of the VPN.
use simple_vpn.Base.{
  ℕ, ◌+◌, ◌-◌, ◌*◌, ◌/◌, ◌%◌, ◌^◌, ◌≤◌, ◌<◌, ◌≡◌, refl, ap, ◌∙◌, arith, [], ◌∷◌, ◌++◌, some, length,
  swap16, u16, ◌==◌, if◌then◌else◌, bit_and_ffff,
}
use simple_vpn.Memory.{Bytes, IsBytes, load16}
use simple_vpn.Checksum.{cksum}
use simple_vpn.Checksum.Value.{word_sum, ones_sum, complement, cksum-checksum}
use simple_vpn.Guide.RawPacket.{add_words, not64, calculate_checksum}

-- The words with their bytes in the other order, and the bytes at even places.
abbrev pub little_sum : Bytes → ℕ
little_sum [] = 0
little_sum (a ∷ []) = a
little_sum (a ∷ b ∷ xs) = (a + b * 256) + little_sum xs

abbrev even_sum : Bytes → ℕ
even_sum [] = 0
even_sum (a ∷ []) = a
even_sum (a ∷ b ∷ xs) = a + even_sum xs

-- Modulo 65535 the two sums differ by a factor of 256.
rotated : (xs : Bytes) → 256 * word_sum xs ≡ little_sum xs + 65535 * even_sum xs
rotated [] = omega arith
rotated (a ∷ []) = omega arith
rotated (a ∷ b ∷ xs) = omega (arith, rotated xs)

little_sum-le : (xs : Bytes) → IsBytes xs → little_sum xs ≤ 65535 * length xs
little_sum-le [] h = omega arith
little_sum-le (a ∷ []) h = omega arith
little_sum-le (a ∷ b ∷ xs) h = omega (arith, little_sum-le xs h.1.1)

add_words_lem :
    (xs back : Bytes) (sum : ℕ)
    → add_words (xs ++ back) (length xs) sum ≡ some (sum + little_sum xs)
unfolding add_words load16
add_words_lem [] back sum = ap some (omega arith)
add_words_lem (a ∷ []) back sum = refl
add_words_lem (a ∷ b ∷ xs) back sum =
    add_words_lem xs back (sum + (a + b * 256)) ∙ ap some (omega arith)

-- Two steps are enough for a sum below 2 ^ 32.
folded_twice :
    (n : ℕ)
    → n < 2 ^ 32
    → let sum = n / 65536 + n % 65536 in u16 (not64 (sum + sum / 65536)) ≡ 65535 - ones_sum n
folded_twice n h = ground arith

even_sum-le : (xs : Bytes) → even_sum xs ≤ little_sum xs
even_sum-le [] = omega arith
even_sum-le (a ∷ []) = omega arith
even_sum-le (a ∷ b ∷ xs) = omega (arith, even_sum-le xs)

ones_sum-rotated :
    (w l e : ℕ) → 256 * w ≡ l + 65535 * e → e ≤ l → swap16 (65535 - ones_sum w) ≡ 65535 - ones_sum l
unfolding swap16
ones_sum-rotated w l e h few = ground arith

-- The value of `calculate_checksum`.
pub calculate_checksum_lem :
    (xs back : Bytes)
    → IsBytes xs
    → length xs ≤ 65536
    → calculate_checksum (xs ++ back) (length xs) ≡ some (65535 - ones_sum (little_sum xs))
calculate_checksum_lem xs back bytes small =
    let l = little_sum xs in
    let zero_more : 0 + l ≡ l = omega arith in
    let below : l < 2 ^ 32 = omega (arith, little_sum-le xs bytes) in
    unfold calculate_checksum in
    rw (add_words_lem xs back 0 ∙ ap some zero_more, bit_and_ffff l)
      (ap some (folded_twice l below))

-- On the first up to 65536 bytes of a block `calculate_checksum` of the raw packet example and
-- `cksum` return the same value, but for 0, in whose place `cksum` returns 0xffff.
pub calculate_checksum-cksum :
    (xs back : Bytes)
    → IsBytes xs
    → length xs ≤ 65536
    → (sum : ℕ) × (calculate_checksum (xs ++ back) (length xs) ≡ some sum)
      × (cksum (xs ++ back) (length xs) ≡ some (if sum == 0 then 0xffff else sum))
calculate_checksum-cksum xs back bytes small =
    let w = word_sum xs in
    let l = little_sum xs in
    (
      65535 - ones_sum l,
      calculate_checksum_lem xs back bytes small,
      cksum-checksum xs back bytes small
          ∙ unfold complement in
            ap (λ (c : ℕ). some (if c == 0 then 0xffff else c))
              (ones_sum-rotated w l (even_sum xs) (rotated xs) (even_sum-le xs)),
    )
