-- ===== src/System/Agents/Scripts.antt =====
-- What the agents do between two messages, when every call succeeds.
use simple_vpn.Base.{
  ℕ, ◌≡◌, refl, ap, ◌∙◌, arith, List, [], ◌∷◌, ◌++◌, Bool, true, some, length, success,
}
use simple_vpn.Memory.{Bytes, IsBytes}
use simple_vpn.Memory.Laws.{IsBytes-append}
use simple_vpn.Address.{address_text}
use simple_vpn.Protocol.{
  gre_bytes, ip_bytes, tcp_bytes, ip_protocol_tcp, tcp_flag_syn, tcp_flag_ack,
}
use simple_vpn.Packet.Headers.Layout.{vpn_gre}
use simple_vpn.Packet.Create.Shape.{vpn_tcp, vpn_headers}
use simple_vpn.Packet.Create.Encrypted.{create_packets_shape}
use simple_vpn.Packet.Transfer.{sending, send_and_free_packet_vpn}
use simple_vpn.Packet.Transfer.Send.{wire, wire_received, sent_wire}
use simple_vpn.Packet.Print.Fields.{gre_shown, ip_shown, tcp_shown, text_shown, print_packet_lem}
use simple_vpn.Packet.Print.Decapsulated.{vpn_gre-IsGreHdr, vpn_tcp-IsTcpHdr}
use simple_vpn.Process.{returned, printed, connected, closed, shut_down}
use simple_vpn.Client.{ClientOs}
use simple_vpn.Client.Exchange.{payload, payload-IsText, packet, packet_printed, request_shown}
use simple_vpn.Destination.{DestinationOs, response_msg}
use simple_vpn.Destination.Respond.{response_msg-IsText, response, respond_lem}
use simple_vpn.System.{
  request_ip, forwarded_ip, answer_ip, reply_ip, request_wire, reply_wire, dest_rec_pkt_lem,
  reply_ip-IsIpHdr, forwarded_ip-IsIpHdr,
}
use simple_vpn.System.Network.{takes, ends}
use simple_vpn.System.Network.Turns.{Item, does, gives, script}
use simple_vpn.System.Agents.{
  client, server, destination, reply_agent, client_agent, respond_agent, packet_agent,
}

module _ (client_ip server_ip dest_ip : Bytes) where
  abbrev pub request_headers : Bytes
  request_headers = vpn_headers client_ip dest_ip tcp_flag_syn

  abbrev reply_headers : Bytes
  reply_headers =
      gre_bytes vpn_gre
      ++ (ip_bytes (reply_ip client_ip server_ip dest_ip) ++ tcp_bytes (vpn_tcp tcp_flag_ack))

  -- The client sends its packet, and prints the reply.
  abbrev pub asks : ℕ → List Item
  asks client_fd =
      does (connected client_fd server_ip)
      ∷ does (printed (request_shown client_ip dest_ip))
      ∷ gives server client_fd (request_wire client_ip server_ip dest_ip)
      ∷ []

  abbrev pub reads : ℕ → List Item
  reads client_fd =
      does (
        printed (
          gre_shown vpn_gre
          ++ (ip_shown (reply_ip client_ip server_ip dest_ip)
              ++ (tcp_shown (vpn_tcp tcp_flag_ack) ++ text_shown response_msg))))
      ∷ does (closed client_fd)
      ∷ []

  pub client_asks :
      (os : ClientOs) (client_fd : ℕ)
      → os.send ≡ true
      → client_agent os client_fd client_ip server_ip dest_ip
        ≡ script (asks client_fd) (takes server (reply_agent client_fd))
  unfolding client_agent
  client_asks os client_fd sends =
      let went : send_and_free_packet_vpn os.send (packet client_ip dest_ip) ip_protocol_tcp 7
          ≡ some (sending true (wire request_headers payload)) =
        ap (λ (b : Bool). send_and_free_packet_vpn b (packet client_ip dest_ip) ip_protocol_tcp 7)
          sends
        ∙ sent_wire true request_headers payload refl (omega arith) in
      rw
        (
          create_packets_shape client_ip dest_ip payload tcp_flag_syn payload-IsText (omega arith),
          packet_printed client_ip dest_ip,
          went,
        )
        refl

  pub client_reads :
      (client_fd : ℕ)
      → reply_agent client_fd (some (reply_wire client_ip server_ip dest_ip))
        ≡ script (reads client_fd) (ends (returned success))
  unfolding reply_agent
  client_reads client_fd =
      let (rest, restored, _, _) =
        wire_received reply_headers response_msg refl (omega arith) response_msg-IsText
          (omega arith) in
      rw
        (
          restored,
          print_packet_lem vpn_gre (reply_ip client_ip server_ip dest_ip) (vpn_tcp tcp_flag_ack)
              response_msg rest vpn_gre-IsGreHdr (reply_ip-IsIpHdr client_ip server_ip dest_ip)
              (vpn_tcp-IsTcpHdr tcp_flag_ack (omega arith)) response_msg-IsText,
        )
        refl

  -- The destination prints the packet that comes, and answers it.
  abbrev pub responds : ℕ → ℕ → List Item
  responds dest_fd new_socket =
      does (
        printed (
          ip_shown (forwarded_ip client_ip server_ip dest_ip)
          ++ (tcp_shown (vpn_tcp tcp_flag_syn) ++ text_shown payload)))
      ∷ does (
          printed (
            ip_shown (answer_ip client_ip server_ip dest_ip)
            ++ (tcp_shown (vpn_tcp tcp_flag_ack) ++ text_shown response_msg)))
      ∷ gives server new_socket (response dest_ip (forwarded_ip client_ip server_ip dest_ip))
      ∷ does (closed new_socket)
      ∷ does (closed dest_fd)
      ∷ []

  -- What comes to the destination.
  abbrev pub forwarded : Bytes → Bytes
  forwarded rest =
      ip_bytes (forwarded_ip client_ip server_ip dest_ip)
      ++ (tcp_bytes (vpn_tcp tcp_flag_syn) ++ (payload ++ 0 ∷ rest))

  pub destination_responds :
      (os : DestinationOs) (dest_fd new_socket : ℕ) (rest : Bytes)
      → os.send ≡ true
      → length rest ≡ 120
      → IsBytes rest
      → packet_agent os dest_ip dest_fd new_socket (some (forwarded rest))
        ≡ script (responds dest_fd new_socket) (ends (returned success))
  unfolding packet_agent respond_agent
  destination_responds os dest_fd new_socket rest sends size bytes =
      rw
        (
          dest_rec_pkt_lem (forwarded rest) (omega (arith, size)) (
              IsBytes-append
                (ip_bytes (forwarded_ip client_ip server_ip dest_ip)
                  ++ (tcp_bytes (vpn_tcp tcp_flag_syn) ++ (payload ++ 0 ∷ [])))
                rest (omega arith) bytes),
          respond_lem os dest_ip dest_fd new_socket (forwarded_ip client_ip server_ip dest_ip)
              (vpn_tcp tcp_flag_syn) payload rest (forwarded_ip-IsIpHdr client_ip server_ip dest_ip)
              (vpn_tcp-IsTcpHdr tcp_flag_syn (omega arith)) payload-IsText sends,
        )
        refl

  -- The server sends the packet on, and the answer back.
  abbrev pub passes_on : ℕ → Bytes → List Item
  passes_on client_fd rest =
      does (
        printed (
          gre_shown vpn_gre
          ++ (ip_shown (request_ip client_ip server_ip dest_ip)
              ++ (tcp_shown (vpn_tcp tcp_flag_syn) ++ text_shown payload))))
      ∷ does (connected client_fd (address_text (request_ip client_ip server_ip dest_ip).ip_dst))
      ∷ gives destination client_fd (forwarded rest)
      ∷ []

  abbrev pub passes_back : ℕ → ℕ → List Item
  passes_back server_fd new_socket =
      does (
        printed (
          gre_shown vpn_gre
          ++ (ip_shown (reply_ip client_ip server_ip dest_ip)
              ++ (tcp_shown (vpn_tcp tcp_flag_ack) ++ text_shown response_msg))))
      ∷ gives client new_socket (reply_wire client_ip server_ip dest_ip)
      ∷ does (closed new_socket)
      ∷ does (shut_down server_fd)
      ∷ []
