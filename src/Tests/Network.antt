-- ===== src/Tests/Network.antt =====
-- The network of the three programs at concrete hosts.
use simple_vpn.Base.{
  ℕ, ◌+◌, ◌≡◌, refl, ap, List, [], ◌∷◌, ◌++◌, some, length, success, failure, false,
}
use simple_vpn.Memory.{Bytes}
use simple_vpn.Address.{address_text}
use simple_vpn.Packet.Headers.Layout.{vpn_gre}
use simple_vpn.Packet.Create.Shape.{vpn_tcp}
use simple_vpn.Protocol.{tcp_flag_syn, tcp_flag_ack}
use simple_vpn.Packet.Print.Fields.{gre_shown, ip_shown, tcp_shown, text_shown}
use simple_vpn.Process.{
  returned, printed, connected, sent, closed, shut_down, create_client_socket, connect_to_server,
}
use simple_vpn.Client.Exchange.{request_shown, payload}
use simple_vpn.Server.{ServerOs}
use simple_vpn.Destination.{response_msg}
use simple_vpn.Destination.Respond.{response}
use simple_vpn.System.{request_ip, forwarded_ip, answer_ip, reply_ip, request_wire, reply_wire}
use simple_vpn.System.Network.{Agent, ends, Net, move, steps}
use simple_vpn.System.Network.Schedules.{IsFinal}
use simple_vpn.System.Agents.{client, server, destination, server_agent, destination_agent}
use simple_vpn.System.Agents.Rounds.{done, trio}
use simple_vpn.System.Agents.Scripts.{client_asks}
use simple_vpn.System.Agents.Refused.{start_refused, every_schedule_refused}
use simple_vpn.System.Agents.Refusal.{noise_shown}
use simple_vpn.System.Agents.Together.{start, every_schedule}
use simple_vpn.Tests.Programs.{
  h1, h2, h3, tunnel_client_os, tunnel_server_os, tunnel_destination_os, tunnel-IsServing,
}

abbrev first : Net
first = start tunnel_client_os tunnel_server_os tunnel_destination_os h1 h2 h3 3 3 4 5 6 7 1

-- The client connects, prints its packet and sends it.
abbrev picked : List ℕ
picked = client ∷ client ∷ client ∷ []

begun : (t : Net) × (steps picked first ≡ some t)
unfolding steps move
begun =
    let asking = client_asks h1 h2 h3 tunnel_client_os 3 refl in
    let behind : Agent → Net = λ c.
      trio (returned success) c (server_agent tunnel_server_os h2 3 4)
        (destination_agent tunnel_destination_os h3 6 7) in
    (_, ap (λ (c : Agent). steps picked (behind c)) asking)

every_schedule_example :
    (packet : Bytes) × (rest : List ℕ) × (end : Net) × (length picked + length rest ≡ 21)
    × (steps rest begun.0 ≡ some end)
    × IsFinal end
    × (end.nodes client
        ≡ done (returned success) (
            connected 3 h2
            ∷ printed (request_shown h1 h3)
            ∷ sent 3 (request_wire h1 h2 h3)
            ∷ printed (
                gre_shown vpn_gre
                ++ (ip_shown (reply_ip h1 h2 h3)
                    ++ (tcp_shown (vpn_tcp tcp_flag_ack) ++ text_shown response_msg)))
            ∷ closed 3
            ∷ []))
    × (end.nodes server
        ≡ done (returned success) (
            printed (
              gre_shown vpn_gre
              ++ (ip_shown (request_ip h1 h2 h3)
                  ++ (tcp_shown (vpn_tcp tcp_flag_syn) ++ text_shown payload)))
            ∷ connected 5 (address_text (request_ip h1 h2 h3).ip_dst)
            ∷ sent 5 packet
            ∷ printed (
                gre_shown vpn_gre
                ++ (ip_shown (reply_ip h1 h2 h3)
                    ++ (tcp_shown (vpn_tcp tcp_flag_ack) ++ text_shown response_msg)))
            ∷ sent 4 (reply_wire h1 h2 h3)
            ∷ closed 4
            ∷ shut_down 3
            ∷ []))
    × (end.nodes destination
        ≡ done (returned success) (
            printed (
              ip_shown (forwarded_ip h1 h2 h3)
              ++ (tcp_shown (vpn_tcp tcp_flag_syn) ++ text_shown payload))
            ∷ printed (
                ip_shown (answer_ip h1 h2 h3)
                ++ (tcp_shown (vpn_tcp tcp_flag_ack) ++ text_shown response_msg))
            ∷ sent 7 (response h3 (forwarded_ip h1 h2 h3))
            ∷ closed 7
            ∷ closed 6
            ∷ []))
every_schedule_example =
    every_schedule tunnel_client_os tunnel_server_os tunnel_destination_os h1 h2 h3 3 3 4 5 6 7 1
      picked begun.0 refl tunnel-IsServing refl begun.1

-- The destination does not answer the server.
abbrev refused_os : ServerOs
refused_os = record tunnel_server_os { connect = false }

socket_opened : create_client_socket refused_os.socket ≡ some 5
unfolding create_client_socket
socket_opened = refl

refused :
    connect_to_server refused_os.inet_pton refused_os.connect
      (address_text (request_ip h1 h2 h3).ip_dst)
    ≡ failure
unfolding connect_to_server
refused = refl

abbrev first_refused : Net
first_refused = start_refused tunnel_client_os refused_os h1 h2 h3 3 3 4 5

begun_refused : (t : Net) × (steps picked first_refused ≡ some t)
unfolding steps move
begun_refused =
    let asking = client_asks h1 h2 h3 tunnel_client_os 3 refl in
    let behind : Agent → Net =
      λ c. trio (returned success) c (server_agent refused_os h2 3 4) (ends (returned success)) in
    (_, ap (λ (c : Agent). steps picked (behind c)) asking)

every_schedule_refused_example :
    (rest : List ℕ) × (end : Net) × (length picked + length rest ≡ 9)
    × (steps rest begun_refused.0 ≡ some end)
    × IsFinal end
    × (end.nodes client
        ≡ done (returned success) (
            connected 3 h2
            ∷ printed (request_shown h1 h3)
            ∷ sent 3 (request_wire h1 h2 h3)
            ∷ printed noise_shown
            ∷ closed 3
            ∷ []))
    × (end.nodes server
        ≡ done (returned failure) (
            printed (
              gre_shown vpn_gre
              ++ (ip_shown (request_ip h1 h2 h3)
                  ++ (tcp_shown (vpn_tcp tcp_flag_syn) ++ text_shown payload)))
            ∷ closed 5
            ∷ []))
every_schedule_refused_example =
    every_schedule_refused tunnel_client_os refused_os h1 h2 h3 3 3 4 5 picked begun_refused.0 refl
      socket_opened refused begun_refused.1
