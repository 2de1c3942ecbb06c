-- ===== src/System.antt =====
-- The three programs together: what each one sends is what another one receives.
pub mod Agents
pub mod Network
pub mod Translation
use simple_vpn.Base.{
  ℕ, ◌-◌, ◌<◌, ◌^◌, ◌≡◌, refl, ap, ◌∙◌, arith, [], ◌∷◌, ◌++◌, append-nil, true, some, length,
  success,
}
use simple_vpn.Memory.{Bytes, IsBytes, calloc}
use simple_vpn.Memory.Laws.{IsBytes-append}
use simple_vpn.Address.{address_text}
use simple_vpn.Protocol.{gre_bytes, IpHdr, ip_bytes, tcp_bytes, IsIpHdr, tcp_flag_syn, tcp_flag_ack}
use simple_vpn.Packet.Headers.Layout.{vpn_gre}
use simple_vpn.Packet.Create.Shape.{vpn_ip, vpn_tcp, vpn_headers, calloc_eq}
use simple_vpn.Packet.Create.Encrypted.{vpn_headers-IsBytes}
use simple_vpn.Packet.Transfer.{serv_rec_from_cli, dest_rec_pkt}
use simple_vpn.Packet.Transfer.Receive.{recv_into_zeros}
use simple_vpn.Packet.Transfer.Send.{wire, wire_received}
use simple_vpn.Packet.Print.{Lines}
use simple_vpn.Packet.Print.Fields.{gre_shown, ip_shown, tcp_shown, text_shown}
use simple_vpn.Packet.Print.Decapsulated.{vpn_gre-IsGreHdr, vpn_ip-IsIpHdr, vpn_tcp-IsTcpHdr}
use simple_vpn.Process.{returned, printed, connected, sent, closed, shut_down, run}
use simple_vpn.Client.{ClientOs, exchange}
use simple_vpn.Client.Exchange.{payload, payload-IsText, request_shown, exchange_lem}
use simple_vpn.Server.{ServerOs, serve}
use simple_vpn.Server.Forward.{from_server, from_server-IsIpHdr}
use simple_vpn.Server.Answer.{for_client, for_client-IsIpHdr}
use simple_vpn.Server.Relay.{IsServing, serve_relays}
use simple_vpn.Destination.{DestinationOs, response_msg, respond}
use simple_vpn.Destination.Respond.{response_msg-IsText, response_ip, response, respond_lem}

-- A packet of 168 bytes comes whole to the destination.
pub dest_rec_pkt_lem :
    (received : Bytes)
    → length received ≡ 168
    → IsBytes received
    → dest_rec_pkt (some received) ≡ some (some received)
dest_rec_pkt_lem received size bytes =
    unfold dest_rec_pkt in
    rw (recv_into_zeros 168 received (omega (arith, size)) bytes) (
      ap (λ (z : Bytes). some (some (received ++ z)))
        (calloc_eq (168 - length received) 0 (omega (arith, size)))
      ∙ ap (λ (b : Bytes). some (some b)) (append-nil received))

module _ (client_ip server_ip dest_ip : Bytes) where
  -- The IP headers on the way: from the client, from the server, from the destination and back to the
  -- client.
  abbrev pub request_ip : IpHdr
  request_ip = vpn_ip client_ip dest_ip

  abbrev pub forwarded_ip : IpHdr
  forwarded_ip = from_server request_ip server_ip

  abbrev pub answer_ip : IpHdr
  answer_ip = response_ip dest_ip forwarded_ip

  abbrev pub reply_ip : IpHdr
  reply_ip = for_client answer_ip request_ip.ip_src

  -- The bytes of the client and of the server on the tunnel.
  abbrev pub request_wire : Bytes
  request_wire = wire (vpn_headers client_ip dest_ip tcp_flag_syn) payload

  abbrev pub reply_wire : Bytes
  reply_wire =
      wire (gre_bytes vpn_gre ++ (ip_bytes reply_ip ++ tcp_bytes (vpn_tcp tcp_flag_ack)))
        response_msg

  forwarded_ip-IsIpHdr : IsIpHdr forwarded_ip
  forwarded_ip-IsIpHdr = from_server-IsIpHdr request_ip server_ip (vpn_ip-IsIpHdr client_ip dest_ip)

  answer_ip-IsIpHdr : IsIpHdr answer_ip
  answer_ip-IsIpHdr = vpn_ip-IsIpHdr dest_ip (address_text forwarded_ip.ip_src)

  src_small : request_ip.ip_src < 2 ^ 32
  src_small = (vpn_ip-IsIpHdr client_ip dest_ip).src_fits

  reply_ip-IsIpHdr : IsIpHdr reply_ip
  reply_ip-IsIpHdr = for_client-IsIpHdr answer_ip request_ip.ip_src answer_ip-IsIpHdr src_small

module _ (client_os : ClientOs) (server_os : ServerOs) (destination_os : DestinationOs)
    (client_ip server_ip dest_ip : Bytes)
    (server_fd new_socket server_client_fd dest_fd dest_socket client_fd slack : ℕ) where
  -- When every call of the three programs succeeds, the allocator gives the server at least one
  -- byte behind a block, the client receives what the server sends on the tunnel and the server
  -- what the destination sends, then the three programs do exactly the given events: from the
  -- bytes that the client sends the server restores a packet with the text "payload", what the
  -- server sends on is received whole and printed by the destination, the destination's answer is
  -- the one that the server received, the server's reply is the one that the client received and
  -- prints with the destination's text, and all three return success.
  pub programs_together :
      client_os.send ≡ true
      → IsServing server_os server_client_fd
          (address_text (request_ip client_ip server_ip dest_ip).ip_dst)
          slack
      → destination_os.send ≡ true
      → client_os.recv ≡ some (reply_wire client_ip server_ip dest_ip)
      → server_os.recv_destination
        ≡ some (response dest_ip (forwarded_ip client_ip server_ip dest_ip))
      → (packet : Bytes) × (forwarded : Bytes) × (exchange client_os client_fd client_ip server_ip
            dest_ip
          ≡ run (returned success) (
              connected client_fd server_ip
              ∷ printed (request_shown client_ip dest_ip)
              ∷ sent client_fd (request_wire client_ip server_ip dest_ip)
              ∷ printed (
                  gre_shown vpn_gre
                  ++ (ip_shown (reply_ip client_ip server_ip dest_ip)
                      ++ (tcp_shown (vpn_tcp tcp_flag_ack) ++ text_shown response_msg)))
              ∷ closed client_fd
              ∷ []))
        × (serv_rec_from_cli (some (request_wire client_ip server_ip dest_ip)) ≡ some (some packet))
        × (serve server_os server_ip server_fd new_socket packet
            ≡ run (returned success) (
                printed (
                  gre_shown vpn_gre
                  ++ (ip_shown (request_ip client_ip server_ip dest_ip)
                      ++ (tcp_shown (vpn_tcp tcp_flag_syn) ++ text_shown payload)))
                ∷ connected server_client_fd
                    (address_text (request_ip client_ip server_ip dest_ip).ip_dst)
                ∷ sent server_client_fd forwarded
                ∷ printed (
                    gre_shown vpn_gre
                    ++ (ip_shown (reply_ip client_ip server_ip dest_ip)
                        ++ (tcp_shown (vpn_tcp tcp_flag_ack) ++ text_shown response_msg)))
                ∷ sent new_socket (reply_wire client_ip server_ip dest_ip)
                ∷ closed new_socket
                ∷ shut_down server_fd
                ∷ []))
        × (dest_rec_pkt (some forwarded) ≡ some (some forwarded))
        × (respond destination_os dest_ip dest_fd dest_socket forwarded
            ≡ run (returned success) (
                printed (
                  ip_shown (forwarded_ip client_ip server_ip dest_ip)
                  ++ (tcp_shown (vpn_tcp tcp_flag_syn) ++ text_shown payload))
                ∷ printed (
                    ip_shown (answer_ip client_ip server_ip dest_ip)
                    ++ (tcp_shown (vpn_tcp tcp_flag_ack) ++ text_shown response_msg))
                ∷ sent dest_socket (response dest_ip (forwarded_ip client_ip server_ip dest_ip))
                ∷ closed dest_socket
                ∷ closed dest_fd
                ∷ []))
  programs_together client_sends serving dest_sends reply_came answer_came =
      let front = vpn_headers client_ip dest_ip tcp_flag_syn in
      let syn = vpn_tcp tcp_flag_syn in
      let ack = vpn_tcp tcp_flag_ack in
      let syn_fits = vpn_tcp-IsTcpHdr tcp_flag_syn (omega arith) in
      let ack_fits = vpn_tcp-IsTcpHdr tcp_flag_ack (omega arith) in
      let (rest, arrives, size, bytes) =
        wire_received front payload refl (vpn_headers-IsBytes client_ip dest_ip tcp_flag_syn)
          payload-IsText (omega arith) in
      let forwarded =
        ip_bytes (forwarded_ip client_ip server_ip dest_ip)
        ++ (tcp_bytes syn ++ (payload ++ 0 ∷ rest)) in
      let exchanged =
        exchange_lem client_os client_fd client_ip server_ip dest_ip vpn_gre
          (reply_ip client_ip server_ip dest_ip) ack response_msg vpn_gre-IsGreHdr
          (reply_ip-IsIpHdr client_ip server_ip dest_ip) ack_fits response_msg-IsText (omega arith)
          client_sends reply_came in
      (
        front ++ (payload ++ 0 ∷ rest),
        forwarded,
        exchanged,
        arrives,
        serve_relays server_os server_ip server_fd new_socket server_client_fd slack vpn_gre
            (request_ip client_ip server_ip dest_ip) (answer_ip client_ip server_ip dest_ip) syn ack
            payload rest response_msg (calloc 5) vpn_gre-IsGreHdr (vpn_ip-IsIpHdr client_ip dest_ip)
            syn_fits payload-IsText (omega (arith, size))
            (answer_ip-IsIpHdr client_ip server_ip dest_ip) ack_fits response_msg-IsText
            (omega arith) (omega arith) serving answer_came,
        dest_rec_pkt_lem forwarded (omega (arith, size)) (
            IsBytes-append
              (ip_bytes (forwarded_ip client_ip server_ip dest_ip)
                ++ (tcp_bytes syn ++ (payload ++ 0 ∷ [])))
              rest (omega arith) bytes),
        respond_lem destination_os dest_ip dest_fd dest_socket
            (forwarded_ip client_ip server_ip dest_ip) syn payload rest
            (forwarded_ip-IsIpHdr client_ip server_ip dest_ip) syn_fits payload-IsText dest_sends,
      )
