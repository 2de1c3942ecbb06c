-- ===== src/Guide/RawPacket/Arrival.antt =====
-- The packet of the sender, and the receiver when it arrives.
use simple_vpn.Base.{
  ℕ, ◌+◌, ◌-◌, ◌≤◌, ◌≡◌, refl, sym, ap, ap₂, ◌∙◌, arith, [], ◌∷◌, ◌++◌, some, length, length-append,
  length-take, take-append-drop, true, success, swap16, swap32, take, drop,
}
use simple_vpn.Memory.{Bytes, IsBytes, calloc, load16, load32, read}
use simple_vpn.Memory.Laws.{IsBytes-append, IsBytes-zeros, IsBytes-take, write_over, read-append}
use simple_vpn.Address.{address_text, dotted, decimal, decimal_loop}
use simple_vpn.Hosts.{chars}
use simple_vpn.Protocol.{ip_bytes, tcp_bytes}
use simple_vpn.Packet.Create.Shape.{length-calloc, take_all}
use simple_vpn.Packet.Print.{Lines, number, string}
use simple_vpn.Process.{returned, sent, closed, run}
use simple_vpn.Guide.RawPacket.{
  calculate_checksum, pseudo_header, raw_packet, RawOs, send_raw, print_raw, show_packets,
  raw_receiver,
}
use simple_vpn.Guide.RawPacket.Filled.{sent_ip, sent_tcp, raw_packet_lem, ip_verifies, tcp_verifies}

-- What the receiver shows of a packet of the sender.
abbrev pub raw_shown : Lines
raw_shown =
    string (chars "   Source IP: ") (chars "10.0.0.1")
    ∷ string (chars "   Destination IP: ") (chars "10.0.0.2")
    ∷ number (chars "   Source Port: ") 1234
    ∷ number (chars "   Destination Port: ") 5432
    ∷ []

shown :
    (n : ℕ) (payload back : Bytes)
    → print_raw (ip_bytes (sent_ip n) ++ (tcp_bytes (sent_tcp payload) ++ back)) ≡ some raw_shown
unfolding print_raw load32 load16 swap16 swap32 address_text dotted decimal decimal_loop
shown n payload back = refl

-- The first bytes of two parts.
take-front : (xs ys : Bytes) → take (length xs) (xs ++ ys) ≡ xs
take-front [] ys = refl
take-front (x ∷ xs) ys = ap (λ (b : Bytes). x ∷ b) (take-front xs ys)

module _ (payload : Bytes) (bytes : IsBytes payload) (fits : length payload ≤ 984) where
  abbrev n : ℕ
  n = length payload

  abbrev zeros : Bytes
  zeros = calloc (984 - n)

  abbrev packet : Bytes
  packet = ip_bytes (sent_ip n) ++ (tcp_bytes (sent_tcp payload) ++ (payload ++ zeros))

  abbrev segment : Bytes
  segment = tcp_bytes (sent_tcp payload) ++ payload

  packet_size : length packet ≡ 1024
  packet_size = omega (arith, fits, length-append payload zeros, length-calloc (984 - n))

  packet-IsBytes : IsBytes packet
  packet-IsBytes =
      let front = ip_bytes (sent_ip n) ++ tcp_bytes (sent_tcp payload) in
      let front_bytes : IsBytes front = omega arith in
      IsBytes-append front (payload ++ zeros) front_bytes
        (IsBytes-append payload zeros bytes (IsBytes-zeros (984 - n)))

  segment_read : take (20 + n) (drop 20 packet) ≡ segment
  segment_read =
      let size : 20 + n ≡ length segment =
        omega (arith, length-append (tcp_bytes (sent_tcp payload)) payload) in
      ap (λ (k : ℕ). take k (segment ++ zeros)) size ∙ take-front segment zeros

  -- The sender's calls, when they succeed.
  sending :
      (os : RawOs) (sockfd : ℕ)
      → os.socket ≡ some sockfd
      → os.setsockopt ≡ true
      → os.sendto ≡ true
      → send_raw os packet os.socket
        ≡ run (returned success) (sent sockfd (take 1023 packet) ∷ closed sockfd ∷ [])
  sending os sockfd opens sets sends =
      let whole : take 1023 packet ++ drop 1023 packet ≡ packet = take-append-drop 1023 packet in
      let size : length (take 1023 packet) ≡ 1023 =
        omega (arith, packet_size, length-take 1023 packet) in
      let bytes : read packet 1023 ≡ some (take 1023 packet) =
        ap₂ read (sym whole) (sym size) ∙ read-append (take 1023 packet) (drop 1023 packet) in
      unfold send_raw in rw (opens, bytes, sets, sends) refl

  -- The receiver's buffer after the packet came in.
  arrival_shown :
      (buffer : Bytes)
      → length buffer ≡ 65536
      → raw_receiver true (take 1023 packet ∷ []) buffer ≡ some (1, raw_shown ∷ [])
  arrival_shown buffer size =
      let came = take 1023 packet in
      let came_size : length came ≤ 65536 = omega (arith, length-take 1023 packet) in
      let shown_then : print_raw (came ++ drop (length came) buffer) ≡ some raw_shown =
        shown n payload (take 983 (payload ++ zeros) ++ drop (length came) buffer) in
      unfold raw_receiver show_packets in
      rw
        (
          take_all 65536 came came_size,
          write_over buffer came (omega (arith, came_size, size))
              (IsBytes-take 1023 packet packet-IsBytes),
          shown_then,
        )
        refl

  -- For a payload of up to 984 bytes the raw packet example makes a packet of 1024 bytes that
  -- holds the payload at 40, whose IP header gives 0 under `calculate_checksum`, and whose TCP
  -- header and payload give 0 with the pseudo header in front; when the calls succeed, its first
  -- 1023 bytes are sent and the socket is closed, and the receiver, when it gets these into its
  -- buffer of 65536 bytes and then `recvfrom` fails, shows the sender's two addresses and ports
  -- and returns 1.
  pub raw_packet_arrives :
      (os : RawOs) (sockfd : ℕ) (buffer : Bytes)
      → os.socket ≡ some sockfd
      → os.setsockopt ≡ true
      → os.sendto ≡ true
      → length buffer ≡ 65536
      → (packet : Bytes) × (raw_packet payload ≡ some packet)
        × (length packet ≡ 1024)
        × (calculate_checksum packet 20 ≡ some 0)
        × (calculate_checksum
              (pseudo_header (length payload) ++ take (20 + length payload) (drop 20 packet))
              (32 + length payload)
            ≡ some 0)
        × (take (length payload) (drop 40 packet) ≡ payload)
        × (send_raw os packet os.socket
            ≡ run (returned success) (sent sockfd (take 1023 packet) ∷ closed sockfd ∷ []))
        × (raw_receiver true (take 1023 packet ∷ []) buffer ≡ some (1, raw_shown ∷ []))
  raw_packet_arrives os sockfd buffer opens sets sends size = (
    packet,
    raw_packet_lem payload bytes fits,
    packet_size,
    ip_verifies n (tcp_bytes (sent_tcp payload) ++ (payload ++ zeros)),
    ap (λ (b : Bytes). calculate_checksum (pseudo_header n ++ b) (32 + n)) segment_read
        ∙ tcp_verifies payload bytes fits,
    take-front payload zeros,
    sending os sockfd opens sets sends,
    arrival_shown buffer size,
  )
