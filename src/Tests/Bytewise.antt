-- ===== src/Tests/Bytewise.antt =====
-- The cipher and the checksum at concrete bytes.
use simple_vpn.Base.{
  ℕ, ◌%◌, ◌/◌, ◌≡◌, ◌↔◌, refl, [], ◌∷◌, ◌++◌, some, arith, take, drop, length, swap16, success,
}
use simple_vpn.Memory.{Bytes}
use simple_vpn.Cipher.{xor_encrypt_decrypt}
use simple_vpn.Cipher.Loop.{mask}
use simple_vpn.Cipher.Laws.{xor_encrypt_decrypt-mask, xor_encrypt_decrypt_twice}
use simple_vpn.Checksum.{sum_loop, fold_carries, cksum, verify_checksum}
use simple_vpn.Checksum.Value.{checksum, word_sum, ones_sum, cksum-checksum}
use simple_vpn.Checksum.Verify.{cksum_stored, cksum_stored_swapped_iff, verify_checksum_iff}

abbrev five_bytes : Bytes
five_bytes = 1 ∷ 2 ∷ 3 ∷ 4 ∷ 255 ∷ []

abbrev six_zeros : Bytes
six_zeros = 0 ∷ 0 ∷ 0 ∷ 0 ∷ 0 ∷ 0 ∷ []

xor_encrypt_decrypt-mask_example :
    xor_encrypt_decrypt five_bytes six_zeros 5
    ≡ some (mask 0 (take 5 five_bytes) ++ drop 5 six_zeros)
xor_encrypt_decrypt-mask_example =
    xor_encrypt_decrypt-mask five_bytes six_zeros 5 (omega arith) (omega arith) (omega arith)

xor_encrypt_decrypt_twice_example :
    (hidden : Bytes) × (xor_encrypt_decrypt five_bytes six_zeros 5 ≡ some hidden)
    × (xor_encrypt_decrypt hidden six_zeros 5 ≡ some (take 5 five_bytes ++ drop 5 six_zeros))
xor_encrypt_decrypt_twice_example =
    xor_encrypt_decrypt_twice five_bytes six_zeros six_zeros 5 (omega arith) (omega arith)
      (omega arith) (omega arith)

cksum-checksum_example :
    cksum (five_bytes ++ six_zeros) (length five_bytes) ≡ some (checksum five_bytes)
cksum-checksum_example = cksum-checksum five_bytes six_zeros (omega arith) (omega arith)

abbrev front : Bytes
front = 0x45 ∷ 0 ∷ 0xff ∷ 0xff ∷ []

abbrev back : Bytes
back = 10 ∷ 0 ∷ 0 ∷ 1 ∷ []

abbrev sum : ℕ
sum = 0xfeb0

computed : cksum ((front ++ 0 ∷ 0 ∷ back) ++ []) (length (front ++ 0 ∷ 0 ∷ back)) ≡ some sum
unfolding cksum sum_loop fold_carries swap16
computed = refl

cksum_stored_example :
    cksum ((front ++ sum % 256 ∷ sum / 256 ∷ back) ++ []) (length (front ++ 0 ∷ 0 ∷ back))
    ≡ some 0xffff
cksum_stored_example = cksum_stored front back [] refl (omega arith) (omega arith) sum computed

cksum_stored_swapped_iff_example :
    (cksum
        ((front ++ swap16 sum % 256 ∷ swap16 sum / 256 ∷ back) ++ [])
        (length (front ++ 0 ∷ 0 ∷ back))
      ≡ some 0xffff)
    ↔ (ones_sum (word_sum (front ++ 0 ∷ 0 ∷ back)) % 257 ≡ 0)
cksum_stored_swapped_iff_example =
    cksum_stored_swapped_iff front back [] refl (omega arith) (omega arith) sum computed

verify_checksum_iff_example :
    (verify_checksum (five_bytes ++ []) (length five_bytes) 0x0605 ≡ some success)
    ↔ (checksum five_bytes ≡ 0x0605)
verify_checksum_iff_example = verify_checksum_iff five_bytes [] 0x0605 (omega arith) (omega arith)
