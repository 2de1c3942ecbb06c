-- ===== src/Server/Answer.antt =====
-- What the server does with the answer of the destination.
use simple_vpn.Base.{
  Bool, ℕ, suc, ◌+◌, ◌≤◌, ◌<◌, ◌^◌, ◌≡◌, refl, ap, arith, [], ◌∷◌, ◌++◌, append-nil, sym, ◌∙◌, true,
  some, length, length-append, u8,
}
use simple_vpn.Memory.{Bytes, IsBytes, IsText, calloc, memcpy, read}
use simple_vpn.Memory.Laws.{
  read-append, write-append, strlen-append, IsBytes-append, IsText-IsBytes,
}
use simple_vpn.Address.{parse_ip_addr, address_text}
use simple_vpn.Address.RoundTrip.{parse_ip_addr_to_str_lem, parse_ip_addr-address_text}
use simple_vpn.Protocol.{
  gre_bytes, IpHdr, ip_bytes, TcpHdr, tcp_bytes, IsIpHdr, IsTcpHdr, ip_protocol_tcp,
}
use simple_vpn.Packet.Headers.Layout.{vpn_gre, packet_encapsulate_lem}
use simple_vpn.Packet.Create.Shape.{no_gre}
use simple_vpn.Packet.Handle.Rewrite.{view_sum-lt, view_sum, serv_handle_pkt_dest_lem}
use simple_vpn.Packet.Transfer.{sending, serv_cli_encrypt_free}
use simple_vpn.Packet.Transfer.Send.{wire, answered}
use simple_vpn.Packet.Print.Fields.{
  gre_shown, ip_shown, tcp_shown, text_shown, print_packet_lem, address_string,
}
use simple_vpn.Packet.Print.Decapsulated.{vpn_gre-IsGreHdr}
use simple_vpn.Process.{went_out, Event, printed, sent, closed, shut_down}
use simple_vpn.Server.{ServerOs, return_answer}

-- The IP header of the answer as it leaves for the client.
abbrev pub for_client : IpHdr → ℕ → IpHdr
for_client h client_ip =
    let own = record h { ip_dst = client_ip } in record own { ip_sum = view_sum own }

pub for_client-IsIpHdr :
    (h : IpHdr) (client_ip : ℕ) → IsIpHdr h → client_ip < 2 ^ 32 → IsIpHdr (for_client h client_ip)
for_client-IsIpHdr h client_ip fits small = record {
  hl_fits = fits.hl_fits;
  v_fits = fits.v_fits;
  tos_fits = fits.tos_fits;
  len_fits = fits.len_fits;
  id_fits = fits.id_fits;
  off_fits = fits.off_fits;
  ttl_fits = fits.ttl_fits;
  p_fits = fits.p_fits;
  sum_fits = view_sum-lt (record h { ip_dst = client_ip });
  src_fits = fits.src_fits;
  dst_fits = small;
}

-- A packet of 168 bytes copied behind the GRE header.
pub copied_behind :
    (packet back : Bytes)
    → length packet ≡ 168
    → IsBytes packet
    → memcpy (gre_bytes vpn_gre ++ calloc 168) 6 (packet ++ back) 168
      ≡ some (gre_bytes vpn_gre ++ packet)
copied_behind packet back size bytes =
    let taken : read (packet ++ back) 168 ≡ some packet =
      ap (read (packet ++ back)) (sym size) ∙ read-append packet back in
    unfold memcpy in
    rw taken (
      write-append (gre_bytes vpn_gre) (calloc 168) [] packet (sym size) bytes
      ∙ ap (λ (p : Bytes). some (gre_bytes vpn_gre ++ p)) (append-nil packet))

module _ (os : ServerOs) (server_fd new_socket client_ip slack : ℕ) (h : IpHdr) (t : TcpHdr)
    (s z back : Bytes) (ip_fits : IsIpHdr h) (tcp_fits : IsTcpHdr t) (text : IsText s)
    (z_bytes : IsBytes z) (size : length s + length z ≡ 127) (client_fits : client_ip < 2 ^ 32)
    (room : os.slack ≡ suc slack) where
  abbrev pub answer : Bytes
  answer = ip_bytes h ++ (tcp_bytes t ++ (s ++ 0 ∷ z))

  abbrev pub headers : Bytes
  headers = gre_bytes vpn_gre ++ (ip_bytes (for_client h client_ip) ++ tcp_bytes t)

  length-answer : length answer ≡ 168
  length-answer = omega (arith, size, length-append s (0 ∷ z))

  answer-IsBytes : IsBytes answer
  answer-IsBytes =
      IsBytes-append (ip_bytes h ++ tcp_bytes t) (s ++ 0 ∷ z) (omega arith)
        (IsBytes-append s (0 ∷ z) (IsText-IsBytes s text) (omega arith, z_bytes))

  headers-IsBytes : IsBytes headers
  headers-IsBytes = omega arith

  small_text : length s ≤ 127
  small_text = omega (arith, size)

  same_length : u8 (length s) ≡ length s
  same_length = omega (arith, size)

  sent_back :
      serv_cli_encrypt_free os.slack os.send_client
        (headers ++ (s ++ 0 ∷ z))
        ip_protocol_tcp
        (u8 (length s))
      ≡ some (sending os.send_client (wire headers s))
  sent_back =
      ap
        (λ (n : ℕ).
          serv_cli_encrypt_free os.slack os.send_client (headers ++ (s ++ 0 ∷ z)) ip_protocol_tcp n)
        same_length
      ∙ ap
          (λ n.
            serv_cli_encrypt_free n os.send_client (headers ++ (s ++ 0 ∷ z)) ip_protocol_tcp
              (length s))
          room
      ∙ answered os.send_client headers s z slack refl headers-IsBytes text small_text

  readdressed :
      (record h { ip_dst = parse_ip_addr (address_text client_ip) })
      ≡ record h { ip_dst = client_ip }
  readdressed =
      ap (λ (ip : ℕ). record h { ip_dst = ip }) (parse_ip_addr-address_text client_ip client_fits)

  abbrev answer_shown : Event
  answer_shown =
      printed
        (gre_shown vpn_gre ++ (ip_shown (for_client h client_ip) ++ (tcp_shown t ++ text_shown s)))

  -- The events of the answer, whether `send` succeeds or not.
  pub answer_events :
      return_answer os server_fd new_socket client_ip (some (answer ++ back))
      ≡ some (
          answer_shown
          ∷ (went_out new_socket (sending os.send_client (wire headers s))
              ++ (closed new_socket ∷ shut_down server_fd ∷ [])))
  answer_events =
      unfold return_answer in
      rw (
        packet_encapsulate_lem no_gre (calloc 168),
        copied_behind answer back length-answer answer-IsBytes,
        parse_ip_addr_to_str_lem (calloc 16) client_ip (omega arith) client_fits,
        address_string client_ip client_fits,
        serv_handle_pkt_dest_lem vpn_gre h (tcp_bytes t ++ (s ++ 0 ∷ z)) (address_text client_ip)
            ip_fits,
        parse_ip_addr-address_text client_ip client_fits,
        print_packet_lem vpn_gre (for_client h client_ip) t s z vpn_gre-IsGreHdr
            (for_client-IsIpHdr h client_ip ip_fits client_fits) tcp_fits text,
        strlen-append s z text,
        sent_back,
      )

  -- From a block that begins with two well-formed headers and 128 bytes of payload that hold a
  -- text ended by NUL, if `send` succeeds and the allocator gives at least one byte behind a
  -- block, `return_answer` prints the answer with a GRE header, the client's address as the
  -- destination and a new checksum, sends these headers and the text under the key, closes the
  -- client's socket and shuts down its own.
  pub return_answer_lem :
      os.send_client ≡ true
      → return_answer os server_fd new_socket client_ip (some (answer ++ back))
        ≡ some (
            printed (
              gre_shown vpn_gre
              ++ (ip_shown (for_client h client_ip) ++ (tcp_shown t ++ text_shown s)))
            ∷ sent new_socket (wire headers s)
            ∷ closed new_socket
            ∷ shut_down server_fd
            ∷ [])
  return_answer_lem sends =
      answer_events
      ∙ ap
          (λ (accepts : Bool). some (
            answer_shown
            ∷ (went_out new_socket (sending accepts (wire headers s))
                ++ (closed new_socket ∷ shut_down server_fd ∷ []))))
          sends
