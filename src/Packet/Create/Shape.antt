-- ===== src/Packet/Create/Shape.antt =====
-- The packets that the two functions make, part by part.
use simple_vpn.Base.{
  ℕ, ◌+◌, ◌-◌, ◌≤◌, ◌<◌, ◌≡◌, refl, ap, ap₂, sym, ◌∙◌, arith, [], ◌∷◌, ◌++◌, append-nil,
  append_assoc, some, none, replicate-add, length-replicate, length, length-append, length-take,
  take, zero, suc, Bool-cases, ltb, ltb→lt, ltb→le, inl, inr,
}
use simple_vpn.Memory.{Bytes, IsBytes, IsText, store8, strncpy, write, calloc}
use simple_vpn.Memory.Laws.{IsText-IsBytes, write-append, padded-length, store8_at, write_beyond}
use simple_vpn.Protocol.{GreHdr, gre_bytes, IpHdr, ip_bytes, TcpHdr, tcp_bytes, ip_protocol_tcp}
use simple_vpn.Packet.Headers.Layout.{
  vpn_gre, filled_ip, filled_tcp, packet_encapsulate_lem, set_ip_lem, set_tcp_lem,
}
use simple_vpn.Packet.Create.{create_packets_des, clamp_length}

-- Headers of zeros, as calloc makes them.
abbrev pub no_gre : GreHdr
no_gre = record { c = 0; protocol = 0; gre_sum = 0 }

abbrev pub no_ip : IpHdr
no_ip = record {
  ip_hl = 0;
  ip_v = 0;
  ip_tos = 0;
  ip_len = 0;
  ip_id = 0;
  ip_off = 0;
  ip_ttl = 0;
  ip_p = 0;
  ip_sum = 0;
  ip_src = 0;
  ip_dst = 0;
}

abbrev pub no_tcp : TcpHdr
no_tcp = record {
  src_port = 0;
  dst_port = 0;
  seq_num = 0;
  ack_num = 0;
  data_offset = 0;
  flags = 0;
  window = 0;
  tcp_sum = 0;
  urgent_pointer = 0;
}

-- The headers of a packet that the program makes.
abbrev pub vpn_ip : Bytes → Bytes → IpHdr
vpn_ip ip_src ip_dest = filled_ip no_ip ip_dest ip_src ip_protocol_tcp 128

abbrev pub vpn_tcp : ℕ → TcpHdr
vpn_tcp flags = filled_tcp no_tcp flags

abbrev pub vpn_headers : Bytes → Bytes → ℕ → Bytes
vpn_headers ip_src ip_dest flags =
    gre_bytes vpn_gre ++ (ip_bytes (vpn_ip ip_src ip_dest) ++ tcp_bytes (vpn_tcp flags))

-- The first `n` bytes of a text, ended by NUL and filled up to 128 bytes with NUL.
abbrev pub payload_block : Bytes → Bytes
payload_block payload = take 127 payload ++ calloc (128 - length (take 127 payload))

pub take_all : (n : ℕ) (s : Bytes) → length s ≤ n → take n s ≡ s
take_all zero [] h = refl
take_all zero (c ∷ s) h = absurd (omega arith)
take_all (suc n) [] h = refl
take_all (suc n) (c ∷ s) h = ap (λ (t : Bytes). c ∷ t) (take_all n s (omega arith))

last_byte : (n : ℕ) (s : Bytes) → length s ≡ suc n → (x : ℕ) × (s ≡ take n s ++ x ∷ [])
last_byte n [] h = absurd (omega arith)
last_byte zero (x ∷ []) h = (x, refl)
last_byte zero (x ∷ y ∷ s) h = absurd (omega arith)
last_byte (suc n) (x ∷ s) h =
    let (y, e) = last_byte n s (omega arith) in (y, ap (λ (t : Bytes). x ∷ t) e)

pub calloc_eq : (m n : ℕ) → m ≡ n → calloc m ≡ calloc n
calloc_eq m n e = ap calloc e

pub length-calloc : (n : ℕ) → length (calloc n) ≡ n
length-calloc n = length-replicate n 0

strncpy_all : (s block : Bytes) → strncpy block 46 s (length s) ≡ write block 46 s
unfolding strncpy
strncpy_all s block = ap (write block 46) (padded-length s)

-- A text of more than 128 bytes runs over the end of the packet.
overrun :
    (front s : Bytes)
    → length front ≡ 46
    → 128 < length s
    → strncpy (front ++ calloc 128) 46 s (length s) ≡ none
overrun front s header long =
    strncpy_all s (front ++ calloc 128)
    ∙ write_beyond (front ++ calloc 128) 46 s (omega (arith, length-append front (calloc 128)))
        (omega (arith, header, length-append front (calloc 128), length-calloc 128))

-- A NUL stored over the byte behind a text that follows the headers.
pub terminate_at :
    (front t : Bytes) (x : ℕ) (rest : Bytes)
    → length front ≡ 46
    → store8 (front ++ (t ++ x ∷ rest)) (46 + length t) 0 ≡ some (front ++ (t ++ 0 ∷ rest))
terminate_at front t x rest header =
    ap₂ (λ (b : Bytes) (i : ℕ). store8 b i 0) (sym (append_assoc front t (x ∷ rest)))
      (omega (arith, header, length-append front t))
    ∙ store8_at (front ++ t) x rest 0
    ∙ ap some (append_assoc front t (0 ∷ rest))

module _ (front s : Bytes) (bytes : IsBytes s) (header : length front ≡ 46) where
  -- The text copied behind the headers, over zeros.
  pub copied :
      length s ≤ 128
      → strncpy (front ++ calloc 128) 46 s (length s)
        ≡ some (front ++ (s ++ calloc (128 - length s)))
  copied room =
      let zeros : calloc 128 ≡ calloc (length s) ++ calloc (128 - length s) =
        calloc_eq 128 (length s + (128 - length s)) (omega arith)
        ∙ replicate-add (length s) (128 - length s) 0 in
      strncpy_all s (front ++ calloc 128)
      ∙ ap (λ (z : Bytes). write (front ++ z) 46 s) zeros
      ∙ ap (λ (i : ℕ). write (front ++ (calloc (length s) ++ calloc (128 - length s))) i s)
          (sym header)
      ∙ write-append front (calloc (length s)) (calloc (128 - length s)) s
          (length-calloc (length s)) bytes

  -- The NUL behind the text, or over its last byte.
  pub terminated :
      length s ≤ 128
      → store8 (front ++ (s ++ calloc (128 - length s))) (46 + clamp_length (length s)) 0
        ≡ some (front ++ payload_block s)
  terminated room = elim (Bool-cases (ltb 127 (length s))) [
    | inr short ↦
        let fits : length s ≤ 127 = ltb→le _ _ short in
        let one_more : calloc (128 - length s) ≡ 0 ∷ calloc (127 - length s) =
          calloc_eq (128 - length s) (suc (127 - length s)) (omega arith) in
        ap₂ (λ (z : Bytes) (i : ℕ). store8 (front ++ (s ++ z)) i 0) one_more (ground arith)
        ∙ terminate_at front s 0 (calloc (127 - length s)) header
        ∙ ap (λ (z : Bytes). some (front ++ (s ++ z))) (sym one_more)
        ∙ ap (λ (t : Bytes). some (front ++ (t ++ calloc (128 - length t))))
            (sym (take_all 127 s fits))
    | inl full ↦
        let exact : length s ≡ 128 = omega (arith, ltb→lt _ _ full) in
        let (x, parts) = last_byte 127 s exact in
        let kept : length (take 127 s) ≡ 127 = omega (arith, length-take 127 s) in
        let whole : s ++ calloc (128 - length s) ≡ take 127 s ++ x ∷ [] =
          ap (λ (n : ℕ). s ++ calloc (128 - n)) exact ∙ append-nil s ∙ parts in
        ap₂ (λ (b : Bytes) (i : ℕ). store8 (front ++ b) i 0) whole (ground arith)
        ∙ terminate_at front (take 127 s) x [] header
        ∙ ap (λ (n : ℕ). some (front ++ (take 127 s ++ calloc (128 - n)))) (sym kept)
  ]

-- For a text payload of up to 128 bytes, a TCP packet of `create_packets_des` is the three
-- headers, the payload's first 127 bytes, and NUL up to the end.
pub create_packets_des_shape :
    (ip_src ip_dest payload : Bytes) (flags : ℕ)
    → IsText payload
    → length payload ≤ 128
    → create_packets_des ip_src ip_dest ip_protocol_tcp payload flags
      ≡ some (vpn_headers ip_src ip_dest flags ++ payload_block payload)
create_packets_des_shape ip_src ip_dest payload flags text room =
    let bytes = IsText-IsBytes payload text in
    let front = vpn_headers ip_src ip_dest flags in
    unfold create_packets_des in
    rw (
      packet_encapsulate_lem no_gre (ip_bytes no_ip ++ (tcp_bytes no_tcp ++ calloc 128)),
      set_ip_lem vpn_gre no_ip (tcp_bytes no_tcp ++ calloc 128) ip_dest ip_src 6 128 (omega arith),
      set_tcp_lem vpn_gre (vpn_ip ip_src ip_dest) no_tcp (calloc 128) flags,
      copied front payload bytes refl room,
      terminated front payload bytes refl room,
    )

-- A payload of more than 128 bytes makes `create_packets_des` write outside its packet.
pub create_packets_des_overrun :
    (ip_src ip_dest payload : Bytes) (flags : ℕ)
    → 128 < length payload
    → create_packets_des ip_src ip_dest ip_protocol_tcp payload flags ≡ none
create_packets_des_overrun ip_src ip_dest payload flags long =
    let front = vpn_headers ip_src ip_dest flags in
    unfold create_packets_des in
    rw (
      packet_encapsulate_lem no_gre (ip_bytes no_ip ++ (tcp_bytes no_tcp ++ calloc 128)),
      set_ip_lem vpn_gre no_ip (tcp_bytes no_tcp ++ calloc 128) ip_dest ip_src 6 128 (omega arith),
      set_tcp_lem vpn_gre (vpn_ip ip_src ip_dest) no_tcp (calloc 128) flags,
      overrun front payload refl long,
    )
