-- ===== src/Checksum/Verify.antt =====
-- Whether a block that holds its own checksum sums to the value that a receiver expects.
use simple_vpn.Base.{
  ℕ, ◌+◌, ◌*◌, ◌/◌, ◌%◌, ◌≤◌, ◌<◌, ◌≡◌, ◌↔◌, ap, sym, ◌∙◌, arith, [], ◌∷◌, ◌++◌, some, swap16,
  swap16-lt, length, length-append, success, eq_of_some,
}
use simple_vpn.Memory.{Bytes, IsBytes}
use simple_vpn.Checksum.{cksum, verify_checksum}
use simple_vpn.Checksum.Value.{word_sum, ones_sum, complement, checksum, cksum-checksum}

-- The two bytes of `c`, lowest first, read as a word of the checksum.
abbrev as_word : ℕ → ℕ
as_word c = c % 256 * 256 + c / 256

complement-le : (n : ℕ) → complement n ≤ 65535
unfolding complement swap16
complement-le n = ground arith

stored_in_order : (n : ℕ) → complement (n + as_word (complement n)) ≡ 65535
unfolding complement swap16
stored_in_order n = ground arith

stored_swapped :
    (n : ℕ) → (complement (n + as_word (swap16 (complement n))) ≡ 65535) ↔ (ones_sum n % 257 ≡ 0)
unfolding complement swap16
stored_swapped n = ground arith

word_sum-append :
    (front rest : Bytes)
    → length front % 2 ≡ 0
    → word_sum (front ++ rest) ≡ word_sum front + word_sum rest
word_sum-append [] rest h = omega arith
word_sum-append (a ∷ []) rest h = absurd (omega arith)
word_sum-append (a ∷ b ∷ xs) rest h = omega (arith, word_sum-append xs rest (omega arith))

-- The sum of a block whose checksum field, zero before, holds the word `hi lo`.
word_sum_field :
    (front back : Bytes) (hi lo : ℕ)
    → length front % 2 ≡ 0
    → word_sum (front ++ hi ∷ lo ∷ back) ≡ word_sum (front ++ 0 ∷ 0 ∷ back) + (hi * 256 + lo)
word_sum_field front back hi lo even =
    omega (
      arith,
      word_sum-append front (hi ∷ lo ∷ back) even,
      word_sum-append front (0 ∷ 0 ∷ back) even,
    )

module _ (front back after : Bytes) (even : length front % 2 ≡ 0)
    (bytes : IsBytes (front ++ 0 ∷ 0 ∷ back)) (small : length (front ++ 0 ∷ 0 ∷ back) ≤ 65536) where
  -- `cksum` of a block with `hi` and `lo` in its checksum field.
  cksum_field :
      (hi lo : ℕ)
      → hi < 256
      → lo < 256
      → cksum ((front ++ hi ∷ lo ∷ back) ++ after) (length (front ++ 0 ∷ 0 ∷ back))
        ≡ some (complement (word_sum (front ++ 0 ∷ 0 ∷ back) + (hi * 256 + lo)))
  cksum_field hi lo h l =
      ap (cksum ((front ++ hi ∷ lo ∷ back) ++ after)) same
      ∙ cksum-checksum (front ++ hi ∷ lo ∷ back) after (set_field front bytes) (omega (arith, same))
      ∙ ap (λ (t : ℕ). some (complement t)) (word_sum_field front back hi lo even)
    where
      same : length (front ++ 0 ∷ 0 ∷ back) ≡ length (front ++ hi ∷ lo ∷ back)
      same = omega (arith, length-append front (0 ∷ 0 ∷ back), length-append front (hi ∷ lo ∷ back))

      set_field : (f : Bytes) → IsBytes (f ++ 0 ∷ 0 ∷ back) → IsBytes (f ++ hi ∷ lo ∷ back)
      set_field [] b = (h, (l, b.1.1))
      set_field (x ∷ f) b = (b.0, set_field f b.1)

  value_of :
      (sum : ℕ)
      → cksum ((front ++ 0 ∷ 0 ∷ back) ++ after) (length (front ++ 0 ∷ 0 ∷ back)) ≡ some sum
      → complement (word_sum (front ++ 0 ∷ 0 ∷ back)) ≡ sum
  value_of sum computed =
      eq_of_some (sym (cksum-checksum (front ++ 0 ∷ 0 ∷ back) after bytes small) ∙ computed)

  -- A block of up to 65536 bytes whose zero checksum field at an even offset is filled with the
  -- value of `cksum`, its low byte first, gives 0xffff under `cksum`.
  pub cksum_stored :
      (sum : ℕ)
      → cksum ((front ++ 0 ∷ 0 ∷ back) ++ after) (length (front ++ 0 ∷ 0 ∷ back)) ≡ some sum
      → cksum ((front ++ sum % 256 ∷ sum / 256 ∷ back) ++ after) (length (front ++ 0 ∷ 0 ∷ back))
        ≡ some 0xffff
  cksum_stored sum computed =
      let e = value_of sum computed in
      let total = word_sum (front ++ 0 ∷ 0 ∷ back) in
      cksum_field (sum % 256) (sum / 256) (omega arith) (omega (arith, e, complement-le total))
      ∙ ap some (ap (λ (c : ℕ). complement (total + as_word c)) (sym e) ∙ stored_in_order total)

  -- A block of up to 65536 bytes whose zero checksum field at an even offset is filled with
  -- `htons` of the value of `cksum`, its low byte first, gives 0xffff under `cksum` exactly when
  -- 257 divides the ones' complement sum of its words.
  pub cksum_stored_swapped_iff :
      (sum : ℕ)
      → cksum ((front ++ 0 ∷ 0 ∷ back) ++ after) (length (front ++ 0 ∷ 0 ∷ back)) ≡ some sum
      → (cksum
            ((front ++ swap16 sum % 256 ∷ swap16 sum / 256 ∷ back) ++ after)
            (length (front ++ 0 ∷ 0 ∷ back))
          ≡ some 0xffff)
        ↔ (ones_sum (word_sum (front ++ 0 ∷ 0 ∷ back)) % 257 ≡ 0)
  cksum_stored_swapped_iff sum computed =
      let e = value_of sum computed in
      let total = word_sum (front ++ 0 ∷ 0 ∷ back) in
      let filled =
        cksum_field (swap16 sum % 256) (swap16 sum / 256) (omega arith)
          (omega (arith, swap16-lt sum))
        ∙ ap (λ (c : ℕ). some (complement (total + as_word (swap16 c)))) (sym e) in
      (
        λ h. (stored_swapped total).0 (eq_of_some (sym filled ∙ h)),
        λ h. filled ∙ ap some ((stored_swapped total).1 h),
      )

-- On a block of up to 65536 bytes `verify_checksum` returns 0 exactly for the ones' complement
-- checksum of the block.
pub verify_checksum_iff :
    (xs back : Bytes) (old : ℕ)
    → IsBytes xs
    → length xs ≤ 65536
    → (verify_checksum (xs ++ back) (length xs) old ≡ some success) ↔ (checksum xs ≡ old)
unfolding verify_checksum
verify_checksum_iff xs back old bytes small = ground (arith, cksum-checksum xs back bytes small)
