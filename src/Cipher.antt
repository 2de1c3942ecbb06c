-- ===== src/Cipher.antt =====
-- src/encrypt.c: the XOR cipher with a repeating four-byte key. One function both encrypts and
-- decrypts. The output may be any block with room for `length` bytes.
pub mod Loop
pub mod Laws
use simple_vpn.Base.{ℕ, zero, suc, ◌+◌, ◌%◌, [], ◌∷◌, Option, none, some, ◌>>=◌, bit_xor}
use simple_vpn.Memory.{Bytes, load8, store8}

abbrev pub key : Bytes
key = 0x12 ∷ 0x34 ∷ 0x56 ∷ 0x78 ∷ []

abbrev pub key_length : ℕ
key_length = 4

-- The loop at index `i`, with `left` rounds to go.
pub xor_loop : Bytes → ℕ → ℕ → Bytes → Option Bytes
xor_loop input zero i output = some output
xor_loop input (suc left) i output = do
  x ← load8 input i
  k ← load8 key (i % key_length)
  output' ← store8 output i (bit_xor x k)
  xor_loop input left (i + 1) output'

-- The output block afterwards.
pub xor_encrypt_decrypt : Bytes → Bytes → ℕ → Option Bytes
unfolding xor_loop store8
xor_encrypt_decrypt input output length = xor_loop input length 0 output
