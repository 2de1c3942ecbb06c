-- ===== src/System/Agents/Refusal.antt =====
-- What the server does when it cannot reach the destination, and the client when the server ends.
use simple_vpn.Base.{
  ℕ, ◌≡◌, refl, sym, ap, ◌∙◌, arith, List, [], ◌∷◌, ◌++◌, drop, some, success, failure,
}
use simple_vpn.Memory.{Bytes, IsBytes, calloc, load32}
use simple_vpn.Memory.Laws.{word32}
use simple_vpn.Address.{address_text}
use simple_vpn.Address.RoundTrip.{parse_ip_addr_to_str_lem}
use simple_vpn.Protocol.{gre_bytes, IpHdr, TcpHdr, tcp_bytes, IsIpHdr, IsTcpHdr, tcp_flag_syn}
use simple_vpn.Protocol.Decode.{
  gre_at, ip_at, tcp_at, headers_at, gre_at-IsGreHdr, ip_at-IsIpHdr, tcp_at-IsTcpHdr,
}
use simple_vpn.Packet.Headers.Layout.{vpn_gre}
use simple_vpn.Packet.Create.Shape.{vpn_tcp, vpn_headers}
use simple_vpn.Packet.Create.Encrypted.{vpn_headers-IsBytes}
use simple_vpn.Packet.Handle.Rewrite.{serv_handle_pkt_lem, save_client_ip_lem}
use simple_vpn.Packet.Transfer.Send.{wire_received}
use simple_vpn.Packet.Transfer.Nothing.{noise, noise_received}
use simple_vpn.Packet.Print.{Lines, print_packet}
use simple_vpn.Packet.Print.Fields.{
  gre_shown, ip_shown, tcp_shown, text_shown, print_packet_lem, address_string,
}
use simple_vpn.Packet.Print.Decapsulated.{vpn_gre-IsGreHdr, vpn_ip-IsIpHdr, vpn_tcp-IsTcpHdr}
use simple_vpn.Process.{returned, printed, closed, create_client_socket, connect_to_server}
use simple_vpn.Client.Exchange.{payload, payload-IsText}
use simple_vpn.Server.{ServerOs}
use simple_vpn.System.{request_ip, request_wire}
use simple_vpn.System.Network.{acts, ends}
use simple_vpn.System.Network.Turns.{Item, does, script}
use simple_vpn.System.Agents.{reply_agent, connect_agent, serve_agent, request_agent}
use simple_vpn.System.Agents.Scripts.{forwarded}

-- What the client prints when the server closes the connection.
abbrev pub noise_shown : Lines
noise_shown =
    gre_shown (gre_at noise)
    ++ (ip_shown (ip_at noise) ++ (tcp_shown (tcp_at noise) ++ text_shown []))

noise-IsBytes : IsBytes noise
noise-IsBytes = omega arith

noise_printed : print_packet noise 0 ≡ some noise_shown
noise_printed =
    ap (λ (b : Bytes). print_packet b 0) (sym (headers_at noise noise-IsBytes (omega arith)))
    ∙ print_packet_lem (gre_at noise) (ip_at noise) (tcp_at noise) [] (drop 47 noise)
        (gre_at-IsGreHdr noise noise-IsBytes) (ip_at-IsIpHdr noise noise-IsBytes)
        (tcp_at-IsTcpHdr noise noise-IsBytes) tt

abbrev pub gives_up : ℕ → List Item
gives_up client_fd = does (printed noise_shown) ∷ does (closed client_fd) ∷ []

pub client_gives_up :
    (client_fd : ℕ)
    → reply_agent client_fd (some []) ≡ script (gives_up client_fd) (ends (returned success))
unfolding reply_agent
client_gives_up client_fd = rw (noise_received, noise_printed) refl

-- The server prints the packet, and its connection to the destination fails.
abbrev pub refuses : Bytes → Bytes → Bytes → ℕ → List Item
refuses client_ip server_ip dest_ip client_fd =
    does (
      printed (
        gre_shown vpn_gre
        ++ (ip_shown (request_ip client_ip server_ip dest_ip)
            ++ (tcp_shown (vpn_tcp tcp_flag_syn) ++ text_shown payload))))
    ∷ does (closed client_fd)
    ∷ []

module _ (client_ip server_ip dest_ip : Bytes) (os : ServerOs) (server_fd new_socket client_fd : ℕ)
    (opened : create_client_socket os.socket ≡ some client_fd)
    (refused : connect_to_server os.inet_pton os.connect
        (address_text (request_ip client_ip server_ip dest_ip).ip_dst)
      ≡ failure) where
  abbrev ip : IpHdr
  ip = request_ip client_ip server_ip dest_ip

  abbrev tcp : TcpHdr
  tcp = vpn_tcp tcp_flag_syn

  ip_fits : IsIpHdr ip
  ip_fits = vpn_ip-IsIpHdr client_ip dest_ip

  tcp_fits : IsTcpHdr tcp
  tcp_fits = vpn_tcp-IsTcpHdr tcp_flag_syn (omega arith)

  connect_fails :
      (rest : Bytes)
      → connect_agent os server_fd new_socket client_fd 6
          (gre_bytes vpn_gre ++ forwarded client_ip server_ip dest_ip rest)
          ip.ip_src
        ≡ acts (closed client_fd) (ends (returned failure))
  connect_fails rest =
      unfold connect_agent load32 in
      rw
        (
          word32 ip.ip_dst ip_fits.dst_fits,
          parse_ip_addr_to_str_lem (calloc 16) ip.ip_dst (omega arith) ip_fits.dst_fits,
          address_string ip.ip_dst ip_fits.dst_fits,
          refused,
        )
        refl

  pub server_refuses :
      request_agent os server_ip server_fd new_socket
        (some (request_wire client_ip server_ip dest_ip))
      ≡ script (refuses client_ip server_ip dest_ip client_fd) (ends (returned failure))
  server_refuses =
      let (rest, restored, size, bytes) =
        wire_received (vpn_headers client_ip dest_ip tcp_flag_syn) payload refl
          (vpn_headers-IsBytes client_ip dest_ip tcp_flag_syn) payload-IsText (omega arith) in
      unfold request_agent serve_agent in
      rw
        (
          restored,
          print_packet_lem vpn_gre ip tcp payload rest vpn_gre-IsGreHdr ip_fits tcp_fits
              payload-IsText,
          save_client_ip_lem vpn_gre ip (tcp_bytes tcp ++ (payload ++ 0 ∷ rest)) ip_fits.src_fits,
          serv_handle_pkt_lem vpn_gre ip (tcp_bytes tcp ++ (payload ++ 0 ∷ rest)) server_ip ip_fits,
          opened,
        )
        (ap
          (acts
            (printed (gre_shown vpn_gre ++ (ip_shown ip ++ (tcp_shown tcp ++ text_shown payload)))))
          (connect_fails rest))
