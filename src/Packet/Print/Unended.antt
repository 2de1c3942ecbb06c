-- ===== src/Packet/Print/Unended.antt =====
-- A packet whose text has no end is printed from beyond its block.
use simple_vpn.Base.{◌≡◌, refl, ◌++◌, none}
use simple_vpn.Memory.{Bytes, IsText}
use simple_vpn.Memory.Strings.{c_string_unended}
use simple_vpn.Protocol.{
  GreHdr, gre_bytes, IpHdr, ip_bytes, TcpHdr, tcp_bytes, IsGreHdr, IsIpHdr, IsTcpHdr,
}
use simple_vpn.Packet.Print.{print_packet, payload_lines}
use simple_vpn.Packet.Print.Fields.{
  gre_lines_lem, ip_lines_behind, ip_lines_lem, tcp_lines_behind_both, tcp_lines_lem,
  payload_lines_behind_all,
}

payload_lines_unended : (s : Bytes) → IsText s → payload_lines s 0 ≡ none
unfolding payload_lines
payload_lines_unended s text = rw (c_string_unended s text) refl

pub print_packet_unended :
    (g : GreHdr) (h : IpHdr) (t : TcpHdr) (s : Bytes)
    → IsGreHdr g
    → IsIpHdr h
    → IsTcpHdr t
    → IsText s
    → print_packet (gre_bytes g ++ (ip_bytes h ++ (tcp_bytes t ++ s))) 0 ≡ none
print_packet_unended g h t s gre_fits ip_fits tcp_fits text =
    unfold print_packet in
    rw
      (
        gre_lines_lem g (ip_bytes h ++ (tcp_bytes t ++ s)) gre_fits,
        ip_lines_behind g h (ip_bytes h ++ (tcp_bytes t ++ s)),
        ip_lines_lem h (tcp_bytes t ++ s) ip_fits,
        tcp_lines_behind_both g h (tcp_bytes t ++ s),
        tcp_lines_lem t s tcp_fits,
        payload_lines_behind_all g h t s,
        payload_lines_unended s text,
      )
      refl
