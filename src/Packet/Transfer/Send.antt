-- ===== src/Packet/Transfer/Send.antt =====
-- What goes out on the wire, and what the other side makes of it.
use simple_vpn.Base.{
  ℕ, suc, ◌+◌, ◌-◌, ◌≤◌, ◌<◌, ◌≡◌, refl, ap, ap₂, sym, ◌∙◌, arith, ◌∷◌, ◌++◌, append_assoc, some,
  none, length, length-append, take, drop, inl, inr, replicate-add, Bool, true, success,
  Option-cases, ◌⊎◌,
}
use simple_vpn.Memory.{Bytes, IsBytes, IsText, store8, calloc, c_string, read}
use simple_vpn.Memory.Laws.{
  store8_at, store8_beyond, IsText-IsBytes, IsBytes-append, IsBytes-zeros, read-append,
  c_string-append,
}
use simple_vpn.Cipher.{xor_encrypt_decrypt}
use simple_vpn.Cipher.Loop.{mask}
use simple_vpn.Cipher.Laws.{
  mask-append, length-mask, IsBytes-mask, length-xor_encrypt_decrypt, xor_front,
}
use simple_vpn.Protocol.{ip_protocol_tcp}
use simple_vpn.Packet.Headers.{get_packet_size}
use simple_vpn.Packet.Create.{create_packets}
use simple_vpn.Packet.Create.Shape.{calloc_eq, length-calloc, take_all, vpn_headers}
use simple_vpn.Packet.Create.Encrypted.{create_packets_shape, encrypted_packet, vpn_headers-IsBytes}
use simple_vpn.Packet.Transfer.{
  recv_into, serv_rec_from_cli, Sending, sending, send_and_free_packet_vpn, serv_cli_encrypt_free,
}
use simple_vpn.Packet.Transfer.Receive.{
  clear_prefix, recv_into_zeros, clear_prefix-IsText, serv_rec_from_cli-arrived,
}

-- `get_packet_size` of a TCP packet is exact for a payload of up to 209 bytes, and wraps to 210
-- bytes less than the payload for 210 to 255 bytes.
pub get_packet_size-tcp :
    (n : ℕ)
    → n < 256
    → ((n ≤ 209) × (get_packet_size ip_protocol_tcp n ≡ n + 46))
      ⊎ ((209 < n) × (get_packet_size ip_protocol_tcp n + 210 ≡ n))
unfolding get_packet_size
get_packet_size-tcp n h = ground arith

size_exact : (n : ℕ) → n ≤ 209 → get_packet_size ip_protocol_tcp n ≡ n + 46
unfolding get_packet_size
size_exact n h = omega arith

size-le : (n : ℕ) → get_packet_size ip_protocol_tcp n ≤ n + 46
unfolding get_packet_size
size-le n = omega arith

read_exact : (xs back : Bytes) (n : ℕ) → length xs ≡ n → read (xs ++ back) n ≡ some xs
read_exact xs back n e = ap (read (xs ++ back)) (sym e) ∙ read-append xs back

-- Where the allocator gives a block no byte more than was asked for, `serv_cli_encrypt_free`
-- accesses memory outside a block for every TCP packet.
pub serv_cli_encrypt_free_overrun :
    (accepted : Bool) (packet : Bytes) (payload_size : ℕ)
    → serv_cli_encrypt_free 0 accepted packet ip_protocol_tcp payload_size ≡ none
serv_cli_encrypt_free_overrun accepted packet payload_size =
    let size = get_packet_size ip_protocol_tcp payload_size in
    elim (Option-cases (xor_encrypt_decrypt packet (calloc (size + 0)) size)) [
      | inl outside ↦ unfold serv_cli_encrypt_free in rw outside
      | inr (hidden, done) ↦
          let same = length-xor_encrypt_decrypt packet (calloc (size + 0)) size done in
          let beyond : store8 hidden (46 + payload_size) 0 ≡ none =
            store8_beyond hidden (46 + payload_size) 0
              (omega (arith, same, length-calloc (size + 0), size-le payload_size)) in
          unfold serv_cli_encrypt_free in rw (done, beyond)
    ]

-- The bytes of a hidden packet that go out: all up to the end of its text.
abbrev pub wire : Bytes → Bytes → Bytes
wire front t = mask 0 front ++ mask 46 t

length-wire : (front t : Bytes) → length front ≡ 46 → length (wire front t) ≡ 46 + length t
length-wire front t header =
    omega (
      arith,
      header,
      length-mask 0 front,
      length-mask 46 t,
      length-append (mask 0 front) (mask 46 t),
    )

-- What the receiver has after such bytes.
pub wire_received :
    (front t : Bytes)
    → length front ≡ 46
    → IsBytes front
    → IsText t
    → length t ≤ 127
    → (rest : Bytes) × (serv_rec_from_cli (some (wire front t))
        ≡ some (some (front ++ (clear_prefix 46 t ++ 0 ∷ rest))))
      × (length (clear_prefix 46 t) + length rest ≡ 127)
      × IsBytes rest
wire_received front t header front_bytes text fits =
    let z = calloc (127 - length t) in
    let sent = length-wire front t header in
    let bytes =
      IsBytes-append (mask 0 front) (mask 46 t) (IsBytes-mask 0 front front_bytes)
        (IsBytes-mask 46 t (IsText-IsBytes t text)) in
    let zeros : calloc (174 - length (wire front t)) ≡ 0 ∷ z =
      calloc_eq (174 - length (wire front t)) (suc (127 - length t)) (omega (arith, sent)) in
    let came : recv_into (calloc 174) 174 (wire front t)
        ≡ some (mask 0 front ++ (mask 46 t ++ 0 ∷ z)) =
      recv_into_zeros 174 (wire front t) (omega (arith, sent)) bytes
      ∙ ap (λ (y : Bytes). some (wire front t ++ y)) zeros
      ∙ ap some (append_assoc (mask 0 front) (mask 46 t) (0 ∷ z)) in
    serv_rec_from_cli-arrived front t z header front_bytes text (IsBytes-zeros (127 - length t))
      (omega (arith, length-calloc (127 - length t))) (wire front t) came

pub sent_wire :
    (accepted : Bool) (front t : Bytes)
    → length front ≡ 46
    → length t ≤ 127
    → send_and_free_packet_vpn accepted (encrypted_packet front t) ip_protocol_tcp (length t)
      ≡ some (sending accepted (wire front t))
sent_wire accepted front t header fits =
    let tail = mask (suc (46 + length t)) (calloc (127 - length t)) in
    let whole : read (encrypted_packet front t) (get_packet_size ip_protocol_tcp (length t))
        ≡ some (wire front t) =
      ap₂ read (sym (append_assoc (mask 0 front) (mask 46 t) (0 ∷ tail)))
        (size_exact (length t) (omega arith))
      ∙ read_exact (wire front t) (0 ∷ tail) (length t + 46)
          (omega (arith, length-wire front t header)) in
    unfold send_and_free_packet_vpn in rw whole

-- A text payload of up to 127 bytes makes a packet with `create_packets`;
-- `send_and_free_packet_vpn` sends it when `send` succeeds; from the bytes sent
-- `serv_rec_from_cli` restores the three headers, and a payload that is the text up to the first
-- byte equal to the key byte at its place.
pub tunnel_to_server :
    (ip_src ip_dest payload : Bytes) (flags : ℕ)
    → IsText payload
    → length payload ≤ 127
    → (packet : Bytes) × (sent : Sending) × (received : Bytes) × (create_packets ip_src ip_dest
          ip_protocol_tcp payload flags
        ≡ some packet)
      × (send_and_free_packet_vpn true packet ip_protocol_tcp (length payload) ≡ some sent)
      × (sent.status ≡ success)
      × (serv_rec_from_cli (some sent.bytes) ≡ some (some received))
      × (take 46 received ≡ vpn_headers ip_src ip_dest flags)
      × (c_string (drop 46 received) ≡ some (clear_prefix 46 payload))
tunnel_to_server ip_src ip_dest payload flags text fits =
    let front = vpn_headers ip_src ip_dest flags in
    let (rest, restored, _, _) =
      wire_received front payload refl (vpn_headers-IsBytes ip_src ip_dest flags) text fits in
    (
      encrypted_packet front payload,
      sending true (wire front payload),
      front ++ (clear_prefix 46 payload ++ 0 ∷ rest),
      create_packets_shape ip_src ip_dest payload flags text (omega arith)
          ∙ ap (λ (t : Bytes). some (encrypted_packet front t)) (take_all 127 payload fits),
      sent_wire true front payload refl fits,
      refl,
      restored,
      refl,
      c_string-append (clear_prefix 46 payload) rest (clear_prefix-IsText 46 payload text),
    )

plus_header : (n : ℕ) → n ≡ 46 → 0 + n ≡ 46
plus_header n e = omega arith

-- With room behind the block the NUL goes there, and is not sent.
pub answered :
    (accepted : Bool) (front t z : Bytes) (slack : ℕ)
    → length front ≡ 46
    → IsBytes front
    → IsText t
    → length t ≤ 127
    → serv_cli_encrypt_free (suc slack) accepted (front ++ (t ++ 0 ∷ z)) ip_protocol_tcp (length t)
      ≡ some (sending accepted (wire front t))
answered accepted front t z slack header front_bytes text fits =
    let n = length t + 46 in
    let size : get_packet_size ip_protocol_tcp (length t) ≡ n =
      size_exact (length t) (omega arith) in
    let masked : mask 0 (front ++ t) ≡ wire front t =
      mask-append 0 front t
      ∙ ap (λ (i : ℕ). mask 0 front ++ mask i t) (plus_header (length front) header) in
    let hidden : xor_encrypt_decrypt (front ++ (t ++ 0 ∷ z)) (calloc (n + suc slack)) n
        ≡ some (wire front t ++ 0 ∷ calloc slack) =
      ap₂ (λ (p c : Bytes). xor_encrypt_decrypt p c n) (sym (append_assoc front t (0 ∷ z)))
        (replicate-add n (suc slack) 0)
      ∙ xor_front (front ++ t) (0 ∷ z) (calloc n) (calloc (suc slack)) n
          (omega (arith, header, length-append front t)) (length-calloc n)
          (IsBytes-append front t front_bytes (IsText-IsBytes t text))
      ∙ ap (λ (m : Bytes). some (m ++ 0 ∷ calloc slack)) masked in
    let ended : store8 (wire front t ++ 0 ∷ calloc slack) (46 + length t) 0
        ≡ some (wire front t ++ 0 ∷ calloc slack) =
      ap (λ (i : ℕ). store8 (wire front t ++ 0 ∷ calloc slack) i 0)
        (sym (length-wire front t header))
      ∙ store8_at (wire front t) 0 (calloc slack) 0 in
    let out : read (wire front t ++ 0 ∷ calloc slack) n ≡ some (wire front t) =
      read_exact (wire front t) (0 ∷ calloc slack) n (omega (arith, length-wire front t header)) in
    unfold serv_cli_encrypt_free in rw (size, hidden, ended, out)

-- If the allocator gives at least one byte behind a block and `send` succeeds,
-- `serv_cli_encrypt_free` sends 46 bytes of headers and a text of up to 127 bytes under the key,
-- and from the bytes sent `serv_rec_from_cli` restores the headers, and the text up to the first
-- byte equal to the key byte at its place.
pub tunnel_to_client :
    (front t z : Bytes) (slack : ℕ)
    → length front ≡ 46
    → IsBytes front
    → IsText t
    → length t ≤ 127
    → (sent : Sending) × (rest : Bytes) × (serv_cli_encrypt_free
          (suc slack)
          true
          (front ++ (t ++ 0 ∷ z))
          ip_protocol_tcp
          (length t)
        ≡ some sent)
      × (sent.status ≡ success)
      × (serv_rec_from_cli (some sent.bytes)
          ≡ some (some (front ++ (clear_prefix 46 t ++ 0 ∷ rest))))
tunnel_to_client front t z slack header front_bytes text fits =
    let (rest, restored, _, _) = wire_received front t header front_bytes text fits in
    (
      sending true (wire front t),
      rest,
      answered true front t z slack header front_bytes text fits,
      refl,
      restored,
    )
