-- ===== src/Tests/System.antt =====
-- The server and the destination at concrete packets and answers of the operating system.
use simple_vpn.Base.{◌≡◌, ◌↔◌, refl, arith, [], ◌∷◌, ◌++◌, true, none, some, success}
use simple_vpn.Memory.{Bytes, calloc}
use simple_vpn.Address.{address_text}
use simple_vpn.Hosts.{chars}
use simple_vpn.Protocol.{gre_bytes, ip_bytes, tcp_bytes, tcp_flag_ack}
use simple_vpn.Packet.Headers.Layout.{vpn_gre}
use simple_vpn.Packet.Create.Shape.{vpn_tcp}
use simple_vpn.Packet.Transfer.Send.{wire}
use simple_vpn.Packet.Print.Fields.{gre_shown, ip_shown, tcp_shown, text_shown}
use simple_vpn.Process.{
  returned, printed, connected, sent, closed, shut_down, run, Listening, create_client_socket,
  connect_to_server,
}
use simple_vpn.Server.Lost.{IsLost}
use simple_vpn.Server.Undefined.{IsForwarded, serve_undefined_iff}
use simple_vpn.Server.{ServerOs, serve}
use simple_vpn.Server.Forward.{from_server}
use simple_vpn.Server.Answer.{for_client}
use simple_vpn.Server.Relay.{IsServing, serve_relays}
use simple_vpn.Destination.{DestinationOs, response_msg, respond}
use simple_vpn.Destination.Respond.{response_ip, response, respond_lem}
use simple_vpn.Tests.Handlers.{gre, ip, tcp, gre-IsGreHdr, ip-IsIpHdr, tcp-IsTcpHdr}

abbrev pub listening : Listening
listening = record {
  socket = some 3;
  setsockopt = true;
  bind = true;
  listen = true;
  accept = some 4;
}

abbrev text : Bytes
text = chars "ok"

-- The answer of the destination: "hi", and one NUL more than its end.
abbrev answer : Bytes
answer = ip_bytes ip ++ (tcp_bytes tcp ++ (chars "hi" ++ 0 ∷ 0 ∷ []))

abbrev pub server_os : ServerOs
server_os = record {
  listening = listening;
  recv_client = none;
  socket = some 5;
  inet_pton = λ s. true;
  connect = true;
  send_destination = true;
  recv_destination = some answer;
  send_client = true;
  slack = 2;
}

opened : create_client_socket server_os.socket ≡ some 5
unfolding create_client_socket
opened = refl

connects :
    connect_to_server server_os.inet_pton server_os.connect (address_text ip.ip_dst) ≡ success
unfolding connect_to_server
connects = refl

serving : IsServing server_os 5 (address_text ip.ip_dst) 1
serving = record {
  opened = opened;
  connects = connects;
  sends_on = refl;
  sends_back = refl;
  room = refl;
}

abbrev server_ip : Bytes
server_ip = chars "10.0.0.2"

abbrev packet_payload : Bytes
packet_payload = text ++ 0 ∷ calloc 125

serve_relays_example :
    serve server_os server_ip 3 4
      (gre_bytes gre ++ (ip_bytes ip ++ (tcp_bytes tcp ++ packet_payload)))
    ≡ run (returned success) (
        printed (gre_shown gre ++ (ip_shown ip ++ (tcp_shown tcp ++ text_shown text)))
        ∷ connected 5 (address_text ip.ip_dst)
        ∷ sent 5 (ip_bytes (from_server ip server_ip) ++ (tcp_bytes tcp ++ packet_payload))
        ∷ printed (
            gre_shown vpn_gre
            ++ (ip_shown (for_client ip ip.ip_src) ++ (tcp_shown tcp ++ text_shown (chars "hi"))))
        ∷ sent 4 (
            wire
              (gre_bytes vpn_gre ++ (ip_bytes (for_client ip ip.ip_src) ++ tcp_bytes tcp))
              (chars "hi"))
        ∷ closed 4
        ∷ shut_down 3
        ∷ [])
serve_relays_example =
    serve_relays server_os server_ip 3 4 5 1 gre ip ip tcp tcp text (calloc 125) (chars "hi")
      (0 ∷ []) gre-IsGreHdr ip-IsIpHdr tcp-IsTcpHdr (omega arith) refl ip-IsIpHdr tcp-IsTcpHdr
      (omega arith) (omega arith) (omega arith) serving refl

abbrev destination_os : DestinationOs
destination_os = record { listening = listening; recv = none; send = true }

respond_lem_example :
    respond destination_os (chars "10.0.0.3") 3 4 (ip_bytes ip ++ (tcp_bytes tcp ++ packet_payload))
    ≡ run (returned success) (
        printed (ip_shown ip ++ (tcp_shown tcp ++ text_shown text))
        ∷ printed (
            ip_shown (response_ip (chars "10.0.0.3") ip)
            ++ (tcp_shown (vpn_tcp tcp_flag_ack) ++ text_shown response_msg))
        ∷ sent 4 (response (chars "10.0.0.3") ip)
        ∷ closed 4
        ∷ closed 3
        ∷ [])
respond_lem_example =
    respond_lem destination_os (chars "10.0.0.3") 3 4 ip tcp text (calloc 125) ip-IsIpHdr
      tcp-IsTcpHdr (omega arith) refl

serve_undefined_iff_example :
    (serve server_os server_ip 3 4
        (gre_bytes gre ++ (ip_bytes ip ++ (tcp_bytes tcp ++ packet_payload)))
      ≡ none)
    ↔ (IsForwarded server_os server_ip 3 4 gre ip tcp text
          (calloc 125)
          gre-IsGreHdr
          ip-IsIpHdr
          tcp-IsTcpHdr
          (omega arith)
          refl
        × IsLost (some answer))
serve_undefined_iff_example =
    serve_undefined_iff server_os server_ip 3 4 gre ip tcp text (calloc 125) gre-IsGreHdr ip-IsIpHdr
      tcp-IsTcpHdr (omega arith) refl 1 refl (omega arith)
