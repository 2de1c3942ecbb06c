-- ===== src/Tests/Tunnel.antt =====
-- Packets made, sent and received, at concrete texts.
use simple_vpn.Base.{
  ◌+◌, ◌≤◌, ◌<◌, ◌≡◌, refl, arith, [], ◌∷◌, ◌++◌, true, none, some, ◌⊎◌, take, drop, length,
  replicate, success,
}
use simple_vpn.Memory.{Bytes, calloc, c_string}
use simple_vpn.Hosts.{chars}
use simple_vpn.Protocol.{ip_protocol_tcp}
use simple_vpn.Packet.Headers.{get_packet_size}
use simple_vpn.Packet.Create.{create_packets, create_packets_des}
use simple_vpn.Packet.Create.Shape.{
  vpn_headers, payload_block, create_packets_des_shape, create_packets_des_overrun,
}
use simple_vpn.Packet.Create.Encrypted.{encrypted_packet, create_packets_shape, vpn_headers-IsBytes}
use simple_vpn.Packet.Transfer.{
  Sending, send_and_free_packet_vpn, serv_cli_encrypt_free, serv_rec_from_cli,
}
use simple_vpn.Packet.Transfer.Receive.{clear_prefix}
use simple_vpn.Packet.Transfer.Send.{
  get_packet_size-tcp, serv_cli_encrypt_free_overrun, tunnel_to_server, tunnel_to_client,
}

abbrev client : Bytes
client = chars "10.0.0.1"

abbrev destination : Bytes
destination = chars "10.0.0.3"

-- At the third place of a payload the key byte is 0x12, at the second 'x'.
abbrev text : Bytes
text = chars "axb"

create_packets_des_shape_example :
    create_packets_des client destination ip_protocol_tcp text 2
    ≡ some (vpn_headers client destination 2 ++ payload_block text)
create_packets_des_shape_example =
    create_packets_des_shape client destination text 2 (omega arith) (omega arith)

create_packets_shape_example :
    create_packets client destination ip_protocol_tcp text 2
    ≡ some (encrypted_packet (vpn_headers client destination 2) (take 127 text))
create_packets_shape_example =
    create_packets_shape client destination text 2 (omega arith) (omega arith)

abbrev long_text : Bytes
long_text = replicate 129 b'a'

create_packets_des_overrun_example :
    create_packets_des client destination ip_protocol_tcp long_text 2 ≡ none
create_packets_des_overrun_example =
    create_packets_des_overrun client destination long_text 2 (omega arith)

get_packet_size-tcp_example :
    ((210 ≤ 209) × (get_packet_size ip_protocol_tcp 210 ≡ 210 + 46))
    ⊎ ((209 < 210) × (get_packet_size ip_protocol_tcp 210 + 210 ≡ 210))
get_packet_size-tcp_example = get_packet_size-tcp 210 (omega arith)

serv_cli_encrypt_free_overrun_example :
    serv_cli_encrypt_free 0 true (calloc 174) ip_protocol_tcp 3 ≡ none
serv_cli_encrypt_free_overrun_example = serv_cli_encrypt_free_overrun true (calloc 174) 3

tunnel_to_server_example :
    (packet : Bytes) × (sent : Sending) × (received : Bytes) × (create_packets client destination
        ip_protocol_tcp text 2
      ≡ some packet)
    × (send_and_free_packet_vpn true packet ip_protocol_tcp (length text) ≡ some sent)
    × (sent.status ≡ success)
    × (serv_rec_from_cli (some sent.bytes) ≡ some (some received))
    × (take 46 received ≡ vpn_headers client destination 2)
    × (c_string (drop 46 received) ≡ some (clear_prefix 46 text))
tunnel_to_server_example = tunnel_to_server client destination text 2 (omega arith) (omega arith)

abbrev front : Bytes
front = vpn_headers destination client 16

tunnel_to_client_example :
    (sent : Sending) × (rest : Bytes) × (serv_cli_encrypt_free 1 true
        (front ++ (text ++ 0 ∷ []))
        ip_protocol_tcp
        (length text)
      ≡ some sent)
    × (sent.status ≡ success)
    × (serv_rec_from_cli (some sent.bytes)
        ≡ some (some (front ++ (clear_prefix 46 text ++ 0 ∷ rest))))
tunnel_to_client_example =
    tunnel_to_client front text [] 0 refl (vpn_headers-IsBytes destination client 16) (omega arith)
      (omega arith)
