-- ===== src/Tests/Programs.antt =====
-- The client, and the three programs together, at concrete hosts.
use simple_vpn.Base.{◌≡◌, refl, arith, [], ◌∷◌, ◌++◌, true, none, some, inr, success}
use simple_vpn.Memory.{Bytes}
use simple_vpn.Address.{address_text}
use simple_vpn.Hosts.{chars}
use simple_vpn.Hosts.Lookup.{host_name, host_ip}
use simple_vpn.Protocol.{gre_bytes, ip_bytes, tcp_bytes, tcp_flag_syn, tcp_flag_ack}
use simple_vpn.Packet.Headers.Layout.{vpn_gre}
use simple_vpn.Packet.Create.Shape.{vpn_tcp, vpn_headers}
use simple_vpn.Packet.Transfer.{serv_rec_from_cli, dest_rec_pkt}
use simple_vpn.Packet.Transfer.Receive.{clear_prefix}
use simple_vpn.Packet.Transfer.Send.{wire}
use simple_vpn.Packet.Print.Fields.{gre_shown, ip_shown, tcp_shown, text_shown}
use simple_vpn.Process.{
  returned, printed, connected, sent, closed, shut_down, run, create_client_socket,
  connect_to_server,
}
use simple_vpn.Client.{ClientOs, exchange, client_main}
use simple_vpn.Client.Exchange.{request_shown, payload, exchange_lem}
use simple_vpn.Client.Arguments.{client_main_distinct, client_main_same}
use simple_vpn.Server.{ServerOs, serve}
use simple_vpn.Server.Relay.{IsServing}
use simple_vpn.Destination.{DestinationOs, response_msg, respond}
use simple_vpn.Destination.Respond.{response}
use simple_vpn.System.{
  request_ip, forwarded_ip, answer_ip, reply_ip, request_wire, reply_wire, programs_together,
}
use simple_vpn.Tests.Handlers.{gre, ip, tcp, gre-IsGreHdr, ip-IsIpHdr, tcp-IsTcpHdr}
use simple_vpn.Tests.System.{listening, server_os}

abbrev pub client_os : Bytes → ClientOs
client_os reply = record {
  stdin = chars "h3\n";
  socket = some 3;
  inet_pton = λ s. true;
  connect = true;
  send = true;
  recv = some reply;
}

abbrev fixed_reply : Bytes
fixed_reply = wire (gre_bytes gre ++ (ip_bytes ip ++ tcp_bytes tcp)) (chars "axb")

exchange_lem_example :
    (exchange (client_os fixed_reply) 3 (host_ip 1) (host_ip 2) (host_ip 3)
      ≡ run (returned success) (
          connected 3 (host_ip 2)
          ∷ printed (request_shown (host_ip 1) (host_ip 3))
          ∷ sent 3 (wire (vpn_headers (host_ip 1) (host_ip 3) tcp_flag_syn) payload)
          ∷ printed (
              gre_shown gre
              ++ (ip_shown ip ++ (tcp_shown tcp ++ text_shown (clear_prefix 46 (chars "axb")))))
          ∷ closed 3
          ∷ []))
exchange_lem_example =
    exchange_lem (client_os fixed_reply) 3 (host_ip 1) (host_ip 2) (host_ip 3) gre ip tcp
      (chars "axb") gre-IsGreHdr ip-IsIpHdr tcp-IsTcpHdr (omega arith) (omega arith) refl refl

opened : create_client_socket (client_os fixed_reply).socket ≡ some 3
unfolding create_client_socket
opened = refl

connects :
    connect_to_server (client_os fixed_reply).inet_pton (client_os fixed_reply).connect (host_ip 2)
    ≡ success
unfolding connect_to_server
connects = refl

client_main_distinct_example :
    client_main (client_os fixed_reply) (chars "vpn_client" ∷ host_name 1 ∷ host_name 2 ∷ [])
    ≡ exchange (client_os fixed_reply) 3 (host_ip 1) (host_ip 2) (host_ip 3)
client_main_distinct_example =
    client_main_distinct (client_os fixed_reply) (chars "vpn_client") [] 1 2 3 3 (omega arith)
      (omega arith) (omega arith) (omega arith) (omega arith) (omega arith) (omega arith)
      (omega arith) (omega arith) refl opened connects

client_main_same_example :
    client_main (client_os fixed_reply) (chars "vpn_client" ∷ host_name 1 ∷ host_name 3 ∷ [])
    ≡ run (returned success) []
client_main_same_example =
    client_main_same (client_os fixed_reply) (chars "vpn_client") [] 1 3 3 (omega arith)
      (omega arith) (omega arith) (omega arith) (omega arith) (omega arith) (inr (inr refl)) refl

-- The answers of the operating system when h1 sends to h3 through h2.
abbrev pub h1 : Bytes
h1 = host_ip 1

abbrev pub h2 : Bytes
h2 = host_ip 2

abbrev pub h3 : Bytes
h3 = host_ip 3

abbrev pub tunnel_client_os : ClientOs
tunnel_client_os = client_os (reply_wire h1 h2 h3)

abbrev pub tunnel_server_os : ServerOs
tunnel_server_os = record server_os {
  recv_destination = some (response h3 (forwarded_ip h1 h2 h3));
}

abbrev pub tunnel_destination_os : DestinationOs
tunnel_destination_os = record { listening = listening; recv = none; send = true }

pub tunnel-IsServing : IsServing tunnel_server_os 5 (address_text (request_ip h1 h2 h3).ip_dst) 1
unfolding create_client_socket connect_to_server
tunnel-IsServing = record {
  opened = refl;
  connects = refl;
  sends_on = refl;
  sends_back = refl;
  room = refl;
}

programs_together_example :
    (packet : Bytes) × (forwarded : Bytes) × (exchange tunnel_client_os 3 h1 h2 h3
      ≡ run (returned success) (
          connected 3 h2
          ∷ printed (request_shown (host_ip 1) (host_ip 3))
          ∷ sent 3 (request_wire h1 h2 h3)
          ∷ printed (
              gre_shown vpn_gre
              ++ (ip_shown (reply_ip h1 h2 h3)
                  ++ (tcp_shown (vpn_tcp tcp_flag_ack) ++ text_shown response_msg)))
          ∷ closed 3
          ∷ []))
    × (serv_rec_from_cli (some (request_wire h1 h2 h3)) ≡ some (some packet))
    × (serve tunnel_server_os h2 3 4 packet
        ≡ run (returned success) (
            printed (
              gre_shown vpn_gre
              ++ (ip_shown (request_ip h1 h2 h3)
                  ++ (tcp_shown (vpn_tcp tcp_flag_syn) ++ text_shown payload)))
            ∷ connected 5 (address_text (request_ip h1 h2 h3).ip_dst)
            ∷ sent 5 forwarded
            ∷ printed (
                gre_shown vpn_gre
                ++ (ip_shown (reply_ip h1 h2 h3)
                    ++ (tcp_shown (vpn_tcp tcp_flag_ack) ++ text_shown response_msg)))
            ∷ sent 4 (reply_wire h1 h2 h3)
            ∷ closed 4
            ∷ shut_down 3
            ∷ []))
    × (dest_rec_pkt (some forwarded) ≡ some (some forwarded))
    × (respond tunnel_destination_os h3 6 7 forwarded
        ≡ run (returned success) (
            printed (
              ip_shown (forwarded_ip h1 h2 h3)
              ++ (tcp_shown (vpn_tcp tcp_flag_syn) ++ text_shown payload))
            ∷ printed (
                ip_shown (answer_ip h1 h2 h3)
                ++ (tcp_shown (vpn_tcp tcp_flag_ack) ++ text_shown response_msg))
            ∷ sent 7 (response h3 (forwarded_ip h1 h2 h3))
            ∷ closed 7
            ∷ closed 6
            ∷ []))
programs_together_example =
    programs_together tunnel_client_os tunnel_server_os tunnel_destination_os h1 h2 h3 3 4 5 6 7 3 1
      refl tunnel-IsServing refl refl refl
