-- ===== src/Tests/Safety.antt =====
-- The programs, the receiver and the checksums at concrete bytes from the network.
use simple_vpn.Base.{
  ◌↔◌, ◌≡◌, ◌⊎◌, ◌≤◌, refl, arith, [], ◌∷◌, ◌++◌, true, none, some, false, length, drop,
}
use simple_vpn.Memory.{Bytes, strlen}
use simple_vpn.Hosts.{chars}
use simple_vpn.Hosts.Lookup.{host_ip, host_name}
use simple_vpn.Protocol.{gre_bytes, ip_bytes, tcp_bytes}
use simple_vpn.Packet.Transfer.{serv_rec_from_cli}
use simple_vpn.Packet.Transfer.Safety.{
  IsPacket, IsDelivered, IsDelivered-short, serv_rec_from_cli_cases,
}
use simple_vpn.Packet.Transfer.Arrives.{arrives}
use simple_vpn.Process.{create_server_socket, accept_client_connection}
use simple_vpn.Process.Ends.{Ends}
use simple_vpn.Client.Undefined.{IsLost, exchange_undefined_iff}
use simple_vpn.Client.{exchange, ClientOs, client_main}
use simple_vpn.Client.Safety.{client_main-Ends}
use simple_vpn.Server.{ServerOs, server_main}
use simple_vpn.Server.Safety.{server_main-Ends}
use simple_vpn.Destination.{
  create_dest_socket, accept_dest_connection, DestinationOs, destination_main,
}
use simple_vpn.Destination.Safety.{destination_main-Ends}
use simple_vpn.Tests.Handlers.{gre, ip, tcp}
use simple_vpn.Tests.System.{listening, server_os}

-- Sockets that open, and a port that is taken.
listens :
    (create_server_socket listening ≡ some 3) × (accept_client_connection listening 3 ≡ some 4)
unfolding create_server_socket accept_client_connection
listens = (refl, refl)

dest_listens :
    (create_dest_socket listening ≡ some 3) × (accept_dest_connection listening 3 ≡ some 4)
unfolding create_dest_socket accept_dest_connection
dest_listens = (refl, refl)

taken : create_dest_socket (record listening { bind = false }) ≡ none
unfolding create_dest_socket
taken = refl

-- Headers, and a text of two bytes under the key.
abbrev from_tunnel : Bytes
from_tunnel = gre_bytes gre ++ (ip_bytes ip ++ (tcp_bytes tcp ++ 84 ∷ 19 ∷ []))

abbrev plain : Bytes
plain = ip_bytes ip ++ (tcp_bytes tcp ++ chars "hi")

tunnel-IsDelivered : IsDelivered 174 46 from_tunnel
tunnel-IsDelivered = IsDelivered-short 174 46 from_tunnel (omega arith) (omega arith) (omega arith)

plain-IsDelivered : IsDelivered 168 40 plain
plain-IsDelivered = IsDelivered-short 168 40 plain (omega arith) (omega arith) (omega arith)

abbrev serving_os : ServerOs
serving_os = record server_os { recv_client = some from_tunnel; recv_destination = some plain }

server_main-Ends_example : Ends (server_main serving_os (chars "vpn_server" ∷ host_name 2 ∷ []))
server_main-Ends_example =
    server_main-Ends serving_os 1 refl (chars "vpn_server" ∷ host_name 2 ∷ []) tunnel-IsDelivered
      plain-IsDelivered

abbrev asking_os : ClientOs
asking_os = record {
  stdin = chars "h3\n";
  socket = some 3;
  inet_pton = λ s. true;
  connect = true;
  send = true;
  recv = some from_tunnel;
}

client_main-Ends_example :
    Ends (client_main asking_os (chars "vpn_client" ∷ host_name 1 ∷ host_name 2 ∷ []))
client_main-Ends_example =
    client_main-Ends asking_os tunnel-IsDelivered
      (chars "vpn_client" ∷ host_name 1 ∷ host_name 2 ∷ []) tt

abbrev answering_os : DestinationOs
answering_os = record { listening = listening; recv = some plain; send = true }

destination_main-Ends_example :
    Ends (destination_main answering_os (chars "vpn_destination" ∷ host_name 3 ∷ []))
destination_main-Ends_example =
    destination_main-Ends answering_os (chars "vpn_destination" ∷ host_name 3 ∷ [])
      plain-IsDelivered

serv_rec_from_cli_cases_example :
    ((packet : Bytes) × (serv_rec_from_cli (some from_tunnel) ≡ some (some packet))
      × IsPacket packet)
    ⊎ ((174 ≤ length from_tunnel)
        × (strlen (drop 46 (arrives 174 from_tunnel)) ≡ none)
        × (serv_rec_from_cli (some from_tunnel) ≡ none))
serv_rec_from_cli_cases_example = serv_rec_from_cli_cases from_tunnel (omega arith)

exchange_undefined_iff_example :
    (exchange asking_os 3 (host_ip 1) (host_ip 2) (host_ip 3) ≡ none) ↔ IsLost (some from_tunnel)
exchange_undefined_iff_example =
    exchange_undefined_iff asking_os 3 (host_ip 1) (host_ip 2) (host_ip 3) (omega arith)
