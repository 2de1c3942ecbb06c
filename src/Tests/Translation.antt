-- ===== src/Tests/Translation.antt =====
-- The server's translation at a concrete packet and answer.
use simple_vpn.Base.{ℕ, ◌≡◌, refl, arith, List, [], ◌∷◌, ◌++◌, some, success, if◌then◌else◌, ◌==◌}
use simple_vpn.Memory.{Bytes, calloc, load32, c_string}
use simple_vpn.Address.{address_text, parse_ip_addr}
use simple_vpn.Hosts.{chars}
use simple_vpn.Hosts.Lookup.{host_ip}
use simple_vpn.Protocol.{gre_bytes, ip_bytes, tcp_bytes}
use simple_vpn.Packet.Transfer.{serv_rec_from_cli}
use simple_vpn.Packet.Transfer.Safety.{IsPacket, IsDelivered-short}
use simple_vpn.Packet.Transfer.Arrives.{arrives}
use simple_vpn.Process.{returned, Event, run, create_client_socket, connect_to_server}
use simple_vpn.Server.{ServerOs, serve}
use simple_vpn.Server.Relay.{IsServing}
use simple_vpn.System.Translation.{
  Message, plain_message, tunnel_message, outbound, inbound, tunnelled, sent_through, connections,
  serve_translates,
}
use simple_vpn.Guide.RawPacket.{calculate_checksum}
use simple_vpn.Guide.RawPacket.Sum.{calculate_checksum-cksum}
use simple_vpn.Checksum.{cksum}
use simple_vpn.Tests.Handlers.{gre, ip, tcp}
use simple_vpn.Tests.System.{server_os}

abbrev answer : Bytes
answer = ip_bytes ip ++ (tcp_bytes tcp ++ chars "hi")

abbrev translating_os : ServerOs
translating_os = record server_os { recv_destination = some answer }

abbrev packet : Bytes
packet = gre_bytes gre ++ (ip_bytes ip ++ (tcp_bytes tcp ++ (chars "ok" ++ 0 ∷ calloc 125)))

packet-IsPacket : IsPacket packet
packet-IsPacket = record {
  size = refl;
  bytes = omega arith;
  ended = (chars "ok", calloc 125, omega arith, refl);
}

abbrev asked : Message
asked = record { src = ip.ip_src; dst = ip.ip_dst; text = chars "ok" }

abbrev told : Message
told = record { src = ip.ip_src; dst = ip.ip_dst; text = chars "hi" }

asked_seen : tunnel_message packet ≡ some asked
unfolding tunnel_message plain_message load32 c_string
asked_seen = refl

told_seen : plain_message (arrives 168 answer) ≡ some told
unfolding plain_message load32 c_string
told_seen = refl

translating-IsServing : IsServing translating_os 5 (address_text ip.ip_dst) 1
unfolding create_client_socket connect_to_server
translating-IsServing = record {
  opened = refl;
  connects = refl;
  sends_on = refl;
  sends_back = refl;
  room = refl;
}

serve_translates_example :
    (events : List Event) × (forwarded : Bytes) × (reply : Bytes) × (restored : Bytes) × (serve
        translating_os
        (host_ip 2)
        3
        4
        packet
      ≡ run (returned success) events)
    × (connections events ≡ address_text ip.ip_dst ∷ [])
    × (sent_through 5 events ≡ forwarded ∷ [])
    × (plain_message forwarded ≡ some (outbound (parse_ip_addr (host_ip 2)) asked))
    × (sent_through 4 events ≡ reply ∷ [])
    × (serv_rec_from_cli (some reply) ≡ some (some restored))
    × (tunnel_message restored ≡ some (tunnelled (inbound asked.src told)))
serve_translates_example =
    serve_translates translating_os (host_ip 2) 3 4 5 1 (λ e. omega (arith, e)) packet answer asked
      told packet-IsPacket asked_seen translating-IsServing refl
      (IsDelivered-short 168 40 answer (omega arith) (omega arith) (omega arith)) told_seen

calculate_checksum-cksum_example :
    (sum : ℕ) × (calculate_checksum (ip_bytes ip ++ (0 ∷ [])) 20 ≡ some sum)
    × (cksum (ip_bytes ip ++ (0 ∷ [])) 20 ≡ some (if sum == 0 then 0xffff else sum))
calculate_checksum-cksum_example =
    calculate_checksum-cksum (ip_bytes ip) (0 ∷ []) (omega arith) (omega arith)
