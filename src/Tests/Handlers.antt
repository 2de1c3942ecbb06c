-- ===== src/Tests/Handlers.antt =====
-- The handlers and the printing of packets, at concrete packets.
use simple_vpn.Base.{◌≡◌, arith, [], ◌∷◌, ◌++◌, some}
use simple_vpn.Memory.{Bytes}
use simple_vpn.Address.{parse_ip_addr}
use simple_vpn.Hosts.{chars}
use simple_vpn.Protocol.{
  GreHdr, gre_bytes, IpHdr, ip_bytes, TcpHdr, tcp_bytes, IsGreHdr, IsIpHdr, IsTcpHdr,
}
use simple_vpn.Packet.Handle.{serv_handle_pkt, serv_handle_pkt_dest}
use simple_vpn.Packet.Handle.Rewrite.{view_sum, serv_handle_pkt_lem, serv_handle_pkt_dest_lem}
use simple_vpn.Packet.Print.{print_packet_unencap, print_packet}
use simple_vpn.Packet.Print.Fields.{
  print_packet_unencap_lem, gre_shown, ip_shown, tcp_shown, text_shown, print_packet_lem,
}

abbrev pub gre : GreHdr
gre = record { c = 256; protocol = 8; gre_sum = 0xf7fe }

abbrev pub ip : IpHdr
ip = record {
  ip_hl = 0;
  ip_v = 4;
  ip_tos = 0;
  ip_len = 0x9400;
  ip_id = 0;
  ip_off = 0;
  ip_ttl = 0;
  ip_p = 6;
  ip_sum = 0x1234;
  ip_src = 0x0a000001;
  ip_dst = 0x0a000003;
}

abbrev pub tcp : TcpHdr
tcp = record {
  src_port = 0x901f;
  dst_port = 0x901f;
  seq_num = 1;
  ack_num = 0;
  data_offset = 0;
  flags = 2;
  window = 0;
  tcp_sum = 0xffff;
  urgent_pointer = 0;
}

pub gre-IsGreHdr : IsGreHdr gre
gre-IsGreHdr = record {
  c_fits = omega arith;
  protocol_fits = omega arith;
  gre_sum_fits = omega arith;
}

pub ip-IsIpHdr : IsIpHdr ip
ip-IsIpHdr = record {
  hl_fits = omega arith;
  v_fits = omega arith;
  tos_fits = omega arith;
  len_fits = omega arith;
  id_fits = omega arith;
  off_fits = omega arith;
  ttl_fits = omega arith;
  p_fits = omega arith;
  sum_fits = omega arith;
  src_fits = omega arith;
  dst_fits = omega arith;
}

pub tcp-IsTcpHdr : IsTcpHdr tcp
tcp-IsTcpHdr = record {
  src_port_fits = omega arith;
  dst_port_fits = omega arith;
  seq_num_fits = omega arith;
  ack_num_fits = omega arith;
  data_offset_fits = omega arith;
  flags_fits = omega arith;
  window_fits = omega arith;
  tcp_sum_fits = omega arith;
  urgent_pointer_fits = omega arith;
}

abbrev server : Bytes
server = chars "10.0.0.2"

serv_handle_pkt_lem_example :
    let own = record ip { ip_src = parse_ip_addr server } in
    serv_handle_pkt (gre_bytes gre ++ (ip_bytes ip ++ tcp_bytes tcp)) 0 server
    ≡ some (6, gre_bytes gre ++ (ip_bytes (record own { ip_sum = view_sum own }) ++ tcp_bytes tcp))
serv_handle_pkt_lem_example = serv_handle_pkt_lem gre ip (tcp_bytes tcp) server ip-IsIpHdr

serv_handle_pkt_dest_lem_example :
    let own = record ip { ip_dst = parse_ip_addr server } in
    serv_handle_pkt_dest (gre_bytes gre ++ (ip_bytes ip ++ tcp_bytes tcp)) 0 server
    ≡ some (6, gre_bytes gre ++ (ip_bytes (record own { ip_sum = view_sum own }) ++ tcp_bytes tcp))
serv_handle_pkt_dest_lem_example = serv_handle_pkt_dest_lem gre ip (tcp_bytes tcp) server ip-IsIpHdr

print_packet_lem_example :
    print_packet (gre_bytes gre ++ (ip_bytes ip ++ (tcp_bytes tcp ++ (chars "ok" ++ 0 ∷ [])))) 0
    ≡ some (gre_shown gre ++ (ip_shown ip ++ (tcp_shown tcp ++ text_shown (chars "ok"))))
print_packet_lem_example =
    print_packet_lem gre ip tcp (chars "ok") [] gre-IsGreHdr ip-IsIpHdr tcp-IsTcpHdr (omega arith)

print_packet_unencap_lem_example :
    print_packet_unencap (ip_bytes ip ++ (tcp_bytes tcp ++ (chars "ok" ++ 0 ∷ []))) 0
    ≡ some (ip_shown ip ++ (tcp_shown tcp ++ text_shown (chars "ok")))
print_packet_unencap_lem_example =
    print_packet_unencap_lem ip tcp (chars "ok") [] ip-IsIpHdr tcp-IsTcpHdr (omega arith)
