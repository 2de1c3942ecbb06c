-- ===== src/Packet/Print/Decapsulated.antt =====
-- What `print_packet_unencap` prints of a packet that stands behind a GRE header, and the fields of
-- the packets that the program makes.
use simple_vpn.Base.{ℕ, ◌<◌, ◌≡◌, arith, ◌∷◌, ◌++◌, some, swap16, swap16-lt}
use simple_vpn.Memory.{Bytes, IsText}
use simple_vpn.Checksum.Value.{checksum}
use simple_vpn.Address.RoundTrip.{parse_ip_addr-lt}
use simple_vpn.Protocol.{
  GreHdr, gre_bytes, IpHdr, ip_bytes, TcpHdr, tcp_bytes, IsGreHdr, IsIpHdr, IsTcpHdr, port,
}
use simple_vpn.Packet.Headers.Layout.{vpn_gre, ip_with_sum, filled_tcp}
use simple_vpn.Packet.Create.Shape.{no_tcp, vpn_ip, vpn_tcp}
use simple_vpn.Packet.Print.{print_packet_unencap}
use simple_vpn.Packet.Print.Fields.{
  ip_shown, tcp_shown, text_shown, ip_lines_lem, tcp_lines_lem, payload_lines_lem, ip_lines_behind,
  tcp_lines_behind_both, payload_lines_behind_all,
}

pub print_packet_unencap_behind :
    (g : GreHdr) (h : IpHdr) (t : TcpHdr) (s rest : Bytes)
    → IsIpHdr h
    → IsTcpHdr t
    → IsText s
    → print_packet_unencap (gre_bytes g ++ (ip_bytes h ++ (tcp_bytes t ++ (s ++ 0 ∷ rest)))) 6
      ≡ some (ip_shown h ++ (tcp_shown t ++ text_shown s))
print_packet_unencap_behind g h t s rest ip_fits tcp_fits text =
    let payload = s ++ 0 ∷ rest in
    unfold print_packet_unencap in
    rw (
      ip_lines_behind g h (ip_bytes h ++ (tcp_bytes t ++ payload)),
      ip_lines_lem h (tcp_bytes t ++ payload) ip_fits,
      tcp_lines_behind_both g h (tcp_bytes t ++ payload),
      tcp_lines_lem t payload tcp_fits,
      payload_lines_behind_all g h t payload,
      payload_lines_lem s rest text,
    )

-- The fields of the headers that the program makes fit.
pub vpn_gre-IsGreHdr : IsGreHdr vpn_gre
unfolding swap16
vpn_gre-IsGreHdr = record {
  c_fits = omega arith;
  protocol_fits = omega arith;
  gre_sum_fits = omega arith;
}

ip_with_sum-IsIpHdr : (h : IpHdr) → IsIpHdr h → IsIpHdr (ip_with_sum h)
unfolding ip_with_sum
ip_with_sum-IsIpHdr h fits = record {
  hl_fits = fits.hl_fits;
  v_fits = fits.v_fits;
  tos_fits = fits.tos_fits;
  len_fits = fits.len_fits;
  id_fits = fits.id_fits;
  off_fits = fits.off_fits;
  ttl_fits = fits.ttl_fits;
  p_fits = fits.p_fits;
  sum_fits = swap16-lt (checksum (ip_bytes (record h { ip_sum = 0 })));
  src_fits = fits.src_fits;
  dst_fits = fits.dst_fits;
}

pub vpn_ip-IsIpHdr : (ip_src ip_dest : Bytes) → IsIpHdr (vpn_ip ip_src ip_dest)
vpn_ip-IsIpHdr ip_src ip_dest = ip_with_sum-IsIpHdr _ (record {
  hl_fits = omega arith;
  v_fits = omega arith;
  tos_fits = omega arith;
  len_fits = swap16-lt 148;
  id_fits = omega arith;
  off_fits = omega arith;
  ttl_fits = omega arith;
  p_fits = omega arith;
  sum_fits = omega arith;
  src_fits = parse_ip_addr-lt ip_src;
  dst_fits = parse_ip_addr-lt ip_dest;
})

pub vpn_tcp-IsTcpHdr : (flags : ℕ) → flags < 256 → IsTcpHdr (vpn_tcp flags)
unfolding filled_tcp
vpn_tcp-IsTcpHdr flags small = record {
  src_port_fits = swap16-lt port;
  dst_port_fits = swap16-lt port;
  seq_num_fits = omega arith;
  ack_num_fits = omega arith;
  data_offset_fits = omega arith;
  flags_fits = small;
  window_fits = omega arith;
  tcp_sum_fits = swap16-lt (
      checksum (
        tcp_bytes
          (record no_tcp { src_port = swap16 port; dst_port = swap16 port; flags = flags })));
  urgent_pointer_fits = omega arith;
}
