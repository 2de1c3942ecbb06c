-- ===== src/Packet/Create/Encrypted.antt =====
-- The encrypted packet that `create_packets` makes.
use simple_vpn.Base.{
  ℕ, zero, suc, ◌+◌, ◌-◌, ◌≤◌, ◌≡◌, refl, ap, ap₂, sym, ◌∙◌, arith, [], ◌∷◌, ◌++◌, append-nil,
  append_assoc, some, length, length-append, length-take, take, drop, min, bit_xor,
}
use simple_vpn.Memory.{Bytes, IsBytes, IsText, store8, calloc}
use simple_vpn.Memory.Laws.{store8_at, IsText-IsBytes, IsBytes-append, IsBytes-zeros, IsBytes-take}
use simple_vpn.Cipher.{xor_encrypt_decrypt}
use simple_vpn.Cipher.Loop.{mask, key_byte}
use simple_vpn.Cipher.Laws.{xor_encrypt_decrypt-mask, mask-append, length-mask}
use simple_vpn.Protocol.{ip_bytes, tcp_bytes, ip_protocol_tcp}
use simple_vpn.Packet.Headers.Layout.{vpn_gre, packet_encapsulate_lem, set_ip_lem, set_tcp_lem}
use simple_vpn.Packet.Create.{create_packets, clamp_length}
use simple_vpn.Packet.Create.Shape.{
  no_gre, no_ip, no_tcp, vpn_ip, vpn_headers, payload_block, calloc_eq, length-calloc, take_all,
  copied, terminated,
}

pub vpn_headers-IsBytes :
    (ip_src ip_dest : Bytes) (flags : ℕ) → IsBytes (vpn_headers ip_src ip_dest flags)
vpn_headers-IsBytes ip_src ip_dest flags = omega arith

-- A whole block of `n` bytes encrypted into zeros.
pub xor_whole :
    (xs : Bytes) (n : ℕ)
    → length xs ≡ n
    → IsBytes xs
    → xor_encrypt_decrypt xs (calloc n) n ≡ some (mask 0 xs)
xor_whole xs n e bytes =
    xor_encrypt_decrypt-mask xs (calloc n) n (omega arith) (omega (arith, length-calloc n)) bytes
    ∙ ap₂ (λ (t r : Bytes). some (mask 0 t ++ r)) (take_all n xs (omega arith)) (drop_all n)
    ∙ ap some (append-nil (mask 0 xs))
  where
    drop_all : (m : ℕ) → drop m (calloc m) ≡ []
    drop_all = elim [ zero ↦ refl | suc (m → ih) ↦ ih ]

-- The parts of the packet: the headers under the key, the text under the key, a NUL in plain, and the
-- key itself up to the end.
abbrev pub encrypted_packet : Bytes → Bytes → Bytes
encrypted_packet headers t =
    mask 0 headers ++ (mask 46 t ++ 0 ∷ mask (suc (46 + length t)) (calloc (127 - length t)))

-- The final NUL of the encrypted text.
encrypted_end :
    (front t : Bytes)
    → length front ≡ 46
    → length t ≤ 127
    → store8 (mask 0 (front ++ (t ++ calloc (128 - length t)))) (46 + length t) 0
      ≡ some (encrypted_packet front t)
encrypted_end front t header fits =
    ap₂ (λ (b : Bytes) (i : ℕ). store8 b i 0) parts at_text
    ∙ store8_at (mask 0 front ++ mask 46 t) (bit_xor 0 (key_byte (46 + length t))) rest 0
    ∙ ap some (append_assoc (mask 0 front) (mask 46 t) (0 ∷ rest))
  where
    rest : Bytes
    rest = mask (suc (46 + length t)) (calloc (127 - length t))

    at_header : 0 + length front ≡ 46
    at_header = omega (arith, header)

    one_more : calloc (128 - length t) ≡ 0 ∷ calloc (127 - length t)
    one_more = calloc_eq (128 - length t) (suc (127 - length t)) (omega arith)

    parts :
        mask 0 (front ++ (t ++ calloc (128 - length t)))
        ≡ (mask 0 front ++ mask 46 t) ++ bit_xor 0 (key_byte (46 + length t)) ∷ rest
    parts =
        mask-append 0 front (t ++ calloc (128 - length t))
        ∙ ap₂ (λ (i : ℕ) (z : Bytes). mask 0 front ++ mask i (t ++ z)) at_header one_more
        ∙ ap (λ (m : Bytes). mask 0 front ++ m) (mask-append 46 t (0 ∷ calloc (127 - length t)))
        ∙ sym
            (append_assoc (mask 0 front) (mask 46 t) (bit_xor 0 (key_byte (46 + length t)) ∷ rest))

    at_text : 46 + length t ≡ length (mask 0 front ++ mask 46 t)
    at_text = omega (
      arith,
      header,
      length-append (mask 0 front) (mask 46 t),
      length-mask 0 front,
      length-mask 46 t,
    )

packet_size : (front s : Bytes) → length front ≡ 46 → length (front ++ payload_block s) ≡ 174
packet_size front s header = omega (
  arith,
  header,
  length-take 127 s,
  length-append front (payload_block s),
  length-append (take 127 s) (calloc (128 - length (take 127 s))),
  length-calloc (128 - length (take 127 s)),
)

clamp_min : (n m : ℕ) → m ≡ min 127 n → clamp_length n ≡ m
clamp_min n m e = ground arith

clamp-take : (s : Bytes) → clamp_length (length s) ≡ length (take 127 s)
clamp-take s = clamp_min (length s) (length (take 127 s)) (length-take 127 s)

-- For a text payload of up to 128 bytes, a TCP packet of `create_packets` is its headers and the
-- payload's first 127 bytes under the repeating key, one NUL in plain behind them, and the key
-- over NUL up to the end.
pub create_packets_shape :
    (ip_src ip_dest payload : Bytes) (flags : ℕ)
    → IsText payload
    → length payload ≤ 128
    → create_packets ip_src ip_dest ip_protocol_tcp payload flags
      ≡ some (encrypted_packet (vpn_headers ip_src ip_dest flags) (take 127 payload))
create_packets_shape ip_src ip_dest payload flags text room =
    let bytes = IsText-IsBytes payload text in
    let front = vpn_headers ip_src ip_dest flags in
    let t = take 127 payload in
    unfold create_packets in
    rw
      (
        packet_encapsulate_lem no_gre (ip_bytes no_ip ++ (tcp_bytes no_tcp ++ calloc 128)),
        set_ip_lem vpn_gre no_ip (tcp_bytes no_tcp ++ calloc 128) ip_dest ip_src 6 128
            (omega arith),
        set_tcp_lem vpn_gre (vpn_ip ip_src ip_dest) no_tcp (calloc 128) flags,
        copied front payload bytes refl room,
        terminated front payload bytes refl room,
        xor_whole (front ++ payload_block payload) 174 (packet_size front payload refl) (
            IsBytes-append front (payload_block payload) (vpn_headers-IsBytes ip_src ip_dest flags)
              (IsBytes-append t (calloc (128 - length t)) (IsBytes-take 127 payload bytes)
                (IsBytes-zeros (128 - length t)))),
        clamp-take payload,
      )
      (encrypted_end front t refl (omega (arith, length-take 127 payload)))
