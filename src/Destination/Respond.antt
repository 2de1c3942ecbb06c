-- ===== src/Destination/Respond.antt =====
-- What the destination does with a packet that arrived.
use simple_vpn.Base.{
  false, Option, ◌∙◌, ℕ, ◌<◌, ◌^◌, ◌≡◌, refl, ap, arith, List, [], ◌∷◌, ◌++◌, true, Bool, some,
  length, success, failure, if◌then◌else◌, u8, drop,
}
use simple_vpn.Memory.{Bytes, IsText, calloc, load32, read}
use simple_vpn.Memory.Laws.{word32}
use simple_vpn.Address.{address_text}
use simple_vpn.Address.RoundTrip.{parse_ip_addr_to_str_lem}
use simple_vpn.Protocol.{
  IpHdr, ip_bytes, TcpHdr, tcp_bytes, IsIpHdr, IsTcpHdr, ip_protocol_tcp, tcp_flag_ack,
}
use simple_vpn.Packet.Headers.{get_packet_size}
use simple_vpn.Packet.Headers.Layout.{vpn_gre}
use simple_vpn.Packet.Create.Shape.{
  vpn_ip, vpn_tcp, vpn_headers, payload_block, create_packets_des_shape,
}
use simple_vpn.Packet.Print.Fields.{
  ip_shown, tcp_shown, text_shown, print_packet_unencap_lem, address_string,
}
use simple_vpn.Packet.Print.Decapsulated.{
  print_packet_unencap_behind, vpn_ip-IsIpHdr, vpn_tcp-IsTcpHdr,
}
use simple_vpn.Process.{Run, returned, Event, printed, sent, closed, run}
use simple_vpn.Process.Ends.{Ends}
use simple_vpn.Destination.{DestinationOs, response_msg, respond}

pub response_msg-IsText : IsText response_msg
response_msg-IsText = omega arith

-- The IP header of the destination's answer to a packet.
abbrev pub response_ip : Bytes → IpHdr → IpHdr
response_ip host_ip h = vpn_ip host_ip (address_text h.ip_src)

-- The answer as it leaves: headers, text and six NUL bytes, 72 bytes in all.
abbrev pub response : Bytes → IpHdr → Bytes
response host_ip h =
    ip_bytes (response_ip host_ip h)
    ++ (tcp_bytes (vpn_tcp tcp_flag_ack) ++ (response_msg ++ 0 ∷ calloc 5))

module _ (os : DestinationOs) (host_ip : Bytes) (dest_fd new_socket : ℕ) (h : IpHdr) (t : TcpHdr)
    (s rest : Bytes) where
  src_loaded :
      h.ip_src < 2 ^ 32 → load32 (ip_bytes h ++ (tcp_bytes t ++ (s ++ 0 ∷ rest))) 12 ≡ some h.ip_src
  unfolding load32
  src_loaded small = rw (word32 h.ip_src small)

  read-response :
      read
        (drop 6
          (vpn_headers host_ip (address_text h.ip_src) tcp_flag_ack ++ payload_block response_msg))
        (get_packet_size ip_protocol_tcp (u8 (length response_msg)))
      ≡ some (response host_ip h)
  unfolding get_packet_size read
  read-response = refl

  abbrev shown : List Event
  shown =
      printed (ip_shown h ++ (tcp_shown t ++ text_shown s))
      ∷ printed (
          ip_shown (response_ip host_ip h)
          ++ (tcp_shown (vpn_tcp tcp_flag_ack) ++ text_shown response_msg))
      ∷ []

  abbrev answered : List Event
  answered = sent new_socket (response host_ip h) ∷ closed new_socket ∷ closed dest_fd ∷ []

  abbrev outcome : Bool → Option Run
  outcome accepts =
      if accepts then run (returned success) (shown ++ answered) else run (returned failure) shown

  pub outcome-Ends : (accepts : Bool) → Ends (outcome accepts)
  outcome-Ends true = (_, refl)
  outcome-Ends false = (_, refl)

  -- The run, whether `send` succeeds or not.
  pub respond-outcome :
      IsIpHdr h
      → IsTcpHdr t
      → IsText s
      → respond os host_ip dest_fd new_socket (ip_bytes h ++ (tcp_bytes t ++ (s ++ 0 ∷ rest)))
        ≡ outcome os.send
  respond-outcome ip_fits tcp_fits text =
      let ip_src = address_text h.ip_src in
      unfold respond in
      rw (
        print_packet_unencap_lem h t s rest ip_fits tcp_fits text,
        src_loaded ip_fits.src_fits,
        parse_ip_addr_to_str_lem (calloc 16) h.ip_src (omega arith) ip_fits.src_fits,
        address_string h.ip_src ip_fits.src_fits,
        create_packets_des_shape host_ip ip_src response_msg tcp_flag_ack response_msg-IsText
            (omega arith),
        print_packet_unencap_behind vpn_gre (response_ip host_ip h) (vpn_tcp tcp_flag_ack)
            response_msg (calloc 101) (vpn_ip-IsIpHdr host_ip ip_src)
            (vpn_tcp-IsTcpHdr tcp_flag_ack (omega arith)) response_msg-IsText,
        read-response,
      )

  -- For a packet with two well-formed headers and a text ended by NUL, if `send` succeeds,
  -- `respond` prints the packet, prints its answer, sends the answer's 72 bytes (addressed to the
  -- packet's source, with the flags `tcp_flag_ack` and the text "Hello from the other side!"),
  -- closes both sockets and returns success.
  pub respond_lem :
      IsIpHdr h
      → IsTcpHdr t
      → IsText s
      → os.send ≡ true
      → respond os host_ip dest_fd new_socket (ip_bytes h ++ (tcp_bytes t ++ (s ++ 0 ∷ rest)))
        ≡ run (returned success) (
            printed (ip_shown h ++ (tcp_shown t ++ text_shown s))
            ∷ printed (
                ip_shown (response_ip host_ip h)
                ++ (tcp_shown (vpn_tcp tcp_flag_ack) ++ text_shown response_msg))
            ∷ sent new_socket (response host_ip h)
            ∷ closed new_socket
            ∷ closed dest_fd
            ∷ [])
  respond_lem ip_fits tcp_fits text sends = respond-outcome ip_fits tcp_fits text ∙ ap outcome sends
