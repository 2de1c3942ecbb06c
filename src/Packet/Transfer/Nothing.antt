-- ===== src/Packet/Transfer/Nothing.antt =====
-- What a receiver of the tunnel makes of a connection that is closed: a packet of no bytes.
use simple_vpn.Base.{◌≡◌, refl, arith, [], ◌∷◌, ◌++◌, some}
use simple_vpn.Memory.{Bytes, calloc, write, store8, strlen}
use simple_vpn.Cipher.Loop.{mask}
use simple_vpn.Cipher.Laws.{xor_encrypt_decrypt-mask}
use simple_vpn.Packet.Transfer.{recv_into, serv_rec_from_cli}

-- The key over NUL, with the end of a text of no bytes.
abbrev pub noise : Bytes
noise = mask 0 (calloc 46) ++ 0 ∷ mask 47 (calloc 127)

pub noise_received : serv_rec_from_cli (some []) ≡ some (some noise)
unfolding serv_rec_from_cli recv_into write store8 strlen
noise_received =
    rw
      (xor_encrypt_decrypt-mask (calloc 174) (calloc 174) 174 (omega arith) (omega arith)
        (omega arith))
      refl
