-- ===== src/System/Agents/Relaying.antt =====
-- What the agent of the server does between two messages, when every call succeeds.
use simple_vpn.Base.{ℕ, ◌≡◌, refl, ap, arith, ◌∷◌, ◌++◌, some, length, success}
use simple_vpn.Memory.{Bytes, IsBytes, calloc, load32}
use simple_vpn.Memory.Laws.{word32}
use simple_vpn.Address.{address_text}
use simple_vpn.Address.RoundTrip.{parse_ip_addr_to_str_lem}
use simple_vpn.Protocol.{
  gre_bytes, IpHdr, TcpHdr, tcp_bytes, IsIpHdr, IsTcpHdr, tcp_flag_syn, tcp_flag_ack,
}
use simple_vpn.Packet.Headers.Layout.{vpn_gre}
use simple_vpn.Packet.Create.Shape.{vpn_tcp}
use simple_vpn.Packet.Create.Encrypted.{vpn_headers-IsBytes}
use simple_vpn.Packet.Handle.Rewrite.{serv_handle_pkt_lem, save_client_ip_lem}
use simple_vpn.Packet.Transfer.Send.{wire_received}
use simple_vpn.Packet.Print.Fields.{
  gre_shown, ip_shown, tcp_shown, text_shown, print_packet_lem, address_string,
}
use simple_vpn.Packet.Print.Decapsulated.{vpn_gre-IsGreHdr, vpn_ip-IsIpHdr, vpn_tcp-IsTcpHdr}
use simple_vpn.Process.{returned, printed}
use simple_vpn.Client.Exchange.{payload, payload-IsText}
use simple_vpn.Server.{ServerOs}
use simple_vpn.Server.Forward.{read_whole}
use simple_vpn.Server.Answer.{return_answer_lem}
use simple_vpn.Server.Relay.{IsServing, serv_rec_from_des_lem}
use simple_vpn.Destination.{response_msg}
use simple_vpn.Destination.Respond.{response_msg-IsText, response}
use simple_vpn.System.{
  request_ip, forwarded_ip, answer_ip, request_wire, answer_ip-IsIpHdr, src_small,
}
use simple_vpn.System.Network.{acts, takes, ends}
use simple_vpn.System.Network.Turns.{script}
use simple_vpn.System.Agents.{
  destination, answer_agent, forward_agent, connect_agent, serve_agent, request_agent,
}
use simple_vpn.System.Agents.Scripts.{forwarded, passes_on, passes_back, request_headers}

module _ (client_ip server_ip dest_ip : Bytes) (os : ServerOs)
    (server_fd new_socket client_fd slack : ℕ)
    (serving : IsServing os client_fd
      (address_text (request_ip client_ip server_ip dest_ip).ip_dst)
      slack) where
  pub server_passes_back :
      answer_agent os server_fd new_socket
        (request_ip client_ip server_ip dest_ip).ip_src
        (some (response dest_ip (forwarded_ip client_ip server_ip dest_ip)))
      ≡ script
          (passes_back client_ip server_ip dest_ip server_fd new_socket)
          (ends (returned success))
  unfolding answer_agent
  server_passes_back =
      let received = response dest_ip (forwarded_ip client_ip server_ip dest_ip) in
      let rest = calloc 101 in
      rw
        (
          serv_rec_from_des_lem received 96 refl (omega arith),
          return_answer_lem os server_fd new_socket (request_ip client_ip server_ip dest_ip).ip_src
              slack (answer_ip client_ip server_ip dest_ip) (vpn_tcp tcp_flag_ack) response_msg rest
              (calloc 6) (answer_ip-IsIpHdr client_ip server_ip dest_ip)
              (vpn_tcp-IsTcpHdr tcp_flag_ack (omega arith)) response_msg-IsText (omega arith)
              (omega arith) (src_small client_ip server_ip dest_ip) serving.room serving.sends_back,
        )
        refl

  abbrev ip : IpHdr
  ip = request_ip client_ip server_ip dest_ip

  abbrev tcp : TcpHdr
  tcp = vpn_tcp tcp_flag_syn

  ip_fits : IsIpHdr ip
  ip_fits = vpn_ip-IsIpHdr client_ip dest_ip

  tcp_fits : IsTcpHdr tcp
  tcp_fits = vpn_tcp-IsTcpHdr tcp_flag_syn (omega arith)

  -- From the socket for the destination on.
  connects :
      (rest : Bytes)
      → length rest ≡ 120
      → acts
          (printed (gre_shown vpn_gre ++ (ip_shown ip ++ (tcp_shown tcp ++ text_shown payload))))
          (connect_agent os server_fd new_socket client_fd 6
            (gre_bytes vpn_gre ++ forwarded client_ip server_ip dest_ip rest)
            ip.ip_src)
        ≡ script
            (passes_on client_ip server_ip dest_ip client_fd rest)
            (takes destination (answer_agent os server_fd new_socket ip.ip_src))
  connects rest size =
      ap
        (acts
          (printed (gre_shown vpn_gre ++ (ip_shown ip ++ (tcp_shown tcp ++ text_shown payload)))))
        (unfold connect_agent forward_agent load32 in
          rw
            (
              word32 ip.ip_dst ip_fits.dst_fits,
              parse_ip_addr_to_str_lem (calloc 16) ip.ip_dst (omega arith) ip_fits.dst_fits,
              address_string ip.ip_dst ip_fits.dst_fits,
              serving.connects,
              read_whole (forwarded client_ip server_ip dest_ip rest) 168 (omega (arith, size)),
              serving.sends_on,
            )
            refl)

  pub server_passes_on :
      (rest : Bytes) × (length rest ≡ 120)
      × IsBytes rest
      × (request_agent os server_ip server_fd new_socket
            (some (request_wire client_ip server_ip dest_ip))
          ≡ script (passes_on client_ip server_ip dest_ip client_fd rest) (
              takes destination (
                answer_agent os server_fd new_socket
                  (request_ip client_ip server_ip dest_ip).ip_src)))
  server_passes_on =
      let (rest, restored, size, bytes) =
        wire_received (request_headers client_ip server_ip dest_ip) payload refl
          (vpn_headers-IsBytes client_ip dest_ip tcp_flag_syn) payload-IsText (omega arith) in
      (
        rest,
        omega (arith, size),
        bytes,
        unfold request_agent serve_agent in
            rw
              (
                restored,
                print_packet_lem vpn_gre ip tcp payload rest vpn_gre-IsGreHdr ip_fits tcp_fits
                    payload-IsText,
                save_client_ip_lem vpn_gre ip (tcp_bytes tcp ++ (payload ++ 0 ∷ rest))
                    ip_fits.src_fits,
                serv_handle_pkt_lem vpn_gre ip (tcp_bytes tcp ++ (payload ++ 0 ∷ rest)) server_ip
                    ip_fits,
                serving.opened,
              )
              (connects rest (omega (arith, size))),
      )
