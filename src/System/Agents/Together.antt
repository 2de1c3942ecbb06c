-- ===== src/System/Agents/Together.antt =====
-- The network of the three programs, under any scheduler.
use simple_vpn.Base.{◌+◌, ℕ, ◌+◌, ◌≡◌, refl, List, [], ◌∷◌, ◌++◌, true, some, length, success}
use simple_vpn.Memory.{Bytes}
use simple_vpn.Address.{address_text}
use simple_vpn.Packet.Headers.Layout.{vpn_gre}
use simple_vpn.Packet.Create.Shape.{vpn_tcp}
use simple_vpn.Protocol.{tcp_flag_syn, tcp_flag_ack}
use simple_vpn.Packet.Print.Fields.{gre_shown, ip_shown, tcp_shown, text_shown}
use simple_vpn.Process.{returned, printed, connected, sent, closed, shut_down}
use simple_vpn.Client.{ClientOs}
use simple_vpn.Client.Exchange.{request_shown, payload}
use simple_vpn.Server.{ServerOs}
use simple_vpn.Server.Relay.{IsServing}
use simple_vpn.Destination.{DestinationOs, response_msg}
use simple_vpn.Destination.Respond.{response}
use simple_vpn.System.{request_ip, forwarded_ip, answer_ip, reply_ip, request_wire, reply_wire}
use simple_vpn.System.Network.{takes, Net, steps}
use simple_vpn.System.Network.Schedules.{IsFinal}
use simple_vpn.System.Agents.Rounds.{done, trio, any_schedule}
use simple_vpn.System.Agents.{
  client, server, destination, reply_agent, client_agent, answer_agent, request_agent, server_agent,
  packet_agent, destination_agent,
}
use simple_vpn.System.Agents.Relaying.{server_passes_on, server_passes_back}
use simple_vpn.System.Agents.Scripts.{client_asks, client_reads, forwarded, destination_responds}

module _ (client_os : ClientOs) (server_os : ServerOs) (destination_os : DestinationOs)
    (client_ip server_ip dest_ip : Bytes)
    (client_fd server_fd new_socket server_client_fd dest_fd dest_socket slack : ℕ) where
  -- The three programs, connected, with no message on the way.
  abbrev pub start : Net
  start =
      trio (returned success) (client_agent client_os client_fd client_ip server_ip dest_ip)
        (server_agent server_os server_ip server_fd new_socket)
        (destination_agent destination_os dest_ip dest_fd dest_socket)

  server_starts :
      server_agent server_os server_ip server_fd new_socket
      ≡ takes client (request_agent server_os server_ip server_fd new_socket)
  unfolding server_agent
  server_starts = refl

  destination_starts :
      destination_agent destination_os dest_ip dest_fd dest_socket
      ≡ takes server (packet_agent destination_os dest_ip dest_fd dest_socket)
  unfolding destination_agent
  destination_starts = refl

  -- The three programs are connected, their messages wait in queues, and a scheduler picks which
  -- program takes its next step. If the client's and the destination's `send` and all calls of the
  -- server succeed, and the allocator gives the server at least one byte behind a block, then
  -- after any steps that the scheduler picked it can go on, and after 21 steps in all no program
  -- can take a step: all three have returned success, and have done, each in its order, the events
  -- of the tunnel, whatever the schedule was.
  pub every_schedule :
      (picked : List ℕ) (t : Net)
      → client_os.send ≡ true
      → IsServing server_os server_client_fd
          (address_text (request_ip client_ip server_ip dest_ip).ip_dst)
          slack
      → destination_os.send ≡ true
      → steps picked start ≡ some t
      → (packet : Bytes) × (rest : List ℕ) × (end : Net) × (length picked + length rest ≡ 21)
        × (steps rest t ≡ some end)
        × IsFinal end
        × (end.nodes client
            ≡ done (returned success) (
                connected client_fd server_ip
                ∷ printed (request_shown client_ip dest_ip)
                ∷ sent client_fd (request_wire client_ip server_ip dest_ip)
                ∷ printed (
                    gre_shown vpn_gre
                    ++ (ip_shown (reply_ip client_ip server_ip dest_ip)
                        ++ (tcp_shown (vpn_tcp tcp_flag_ack) ++ text_shown response_msg)))
                ∷ closed client_fd
                ∷ []))
        × (end.nodes server
            ≡ done (returned success) (
                printed (
                  gre_shown vpn_gre
                  ++ (ip_shown (request_ip client_ip server_ip dest_ip)
                      ++ (tcp_shown (vpn_tcp tcp_flag_syn) ++ text_shown payload)))
                ∷ connected server_client_fd
                    (address_text (request_ip client_ip server_ip dest_ip).ip_dst)
                ∷ sent server_client_fd packet
                ∷ printed (
                    gre_shown vpn_gre
                    ++ (ip_shown (reply_ip client_ip server_ip dest_ip)
                        ++ (tcp_shown (vpn_tcp tcp_flag_ack) ++ text_shown response_msg)))
                ∷ sent new_socket (reply_wire client_ip server_ip dest_ip)
                ∷ closed new_socket
                ∷ shut_down server_fd
                ∷ []))
        × (end.nodes destination
            ≡ done (returned success) (
                printed (
                  ip_shown (forwarded_ip client_ip server_ip dest_ip)
                  ++ (tcp_shown (vpn_tcp tcp_flag_syn) ++ text_shown payload))
                ∷ printed (
                    ip_shown (answer_ip client_ip server_ip dest_ip)
                    ++ (tcp_shown (vpn_tcp tcp_flag_ack) ++ text_shown response_msg))
                ∷ sent dest_socket (response dest_ip (forwarded_ip client_ip server_ip dest_ip))
                ∷ closed dest_socket
                ∷ closed dest_fd
                ∷ []))
  every_schedule picked t client_sends serving dest_sends reached =
      let asking = client_asks client_ip server_ip dest_ip client_os client_fd client_sends in
      let (rest, size, bytes, passing) =
        server_passes_on client_ip server_ip dest_ip server_os server_fd new_socket server_client_fd
          slack serving in
      let (after, end, count, ends_there, final, client_did, server_did, destination_did) =
        any_schedule _ _ _ (reply_agent client_fd)
          (request_agent server_os server_ip server_fd new_socket)
          (answer_agent server_os server_fd new_socket
            (request_ip client_ip server_ip dest_ip).ip_src)
          (packet_agent destination_os dest_ip dest_fd dest_socket) (returned success) _ _ _ _ _ _ _
          _ _ _ _ _ _ _ _ _ _ _ _ _ _ asking server_starts destination_starts passing
          (destination_responds client_ip server_ip dest_ip destination_os dest_fd dest_socket rest
            dest_sends size bytes)
          (server_passes_back client_ip server_ip dest_ip server_os server_fd new_socket
            server_client_fd slack serving)
          (client_reads client_ip server_ip dest_ip client_fd) picked t reached in
      (
        forwarded client_ip server_ip dest_ip rest,
        after,
        end,
        count,
        ends_there,
        final,
        client_did,
        server_did,
        destination_did,
      )
