-- ===== src/Packet/Handle/Rewrite.antt =====
-- What the server's handlers change in the IP header of a packet, and what they leave.
use simple_vpn.Base.{
  ℕ, ◌^◌, ◌<◌, ◌≡◌, ◌++◌, some, swap16, swap32, swap16-lt, swap32-lt, swap16-swap16, swap32-swap32,
}
use simple_vpn.Memory.Laws.{word16, word32}
use simple_vpn.Memory.{Bytes, load16, load32, store16, store32}
use simple_vpn.Checksum.Value.{checksum}
use simple_vpn.Address.{parse_ip_addr}
use simple_vpn.Address.RoundTrip.{parse_ip_addr-lt}
use simple_vpn.Protocol.{GreHdr, gre_bytes, IpHdr, ip_bytes, IsIpHdr}
use simple_vpn.Packet.Headers.Layout.{cksum-ip}
use simple_vpn.Packet.Handle.{serv_handle_pkt, serv_handle_pkt_dest, save_client_ip}

-- The header over which the handlers sum: length and addresses in the other byte order.
abbrev swapped_view : IpHdr → IpHdr
swapped_view h = record h {
  ip_len = swap16 h.ip_len;
  ip_sum = 0;
  ip_src = swap32 h.ip_src;
  ip_dst = swap32 h.ip_dst;
}

abbrev pub view_sum : IpHdr → ℕ
view_sum h = swap16 (checksum (ip_bytes (swapped_view h)))

pub view_sum-lt : (h : IpHdr) → view_sum h < 65536
view_sum-lt h = swap16-lt (checksum (ip_bytes (swapped_view h)))

-- `serv_handle_pkt` on a packet with a GRE header and a well-formed IP header replaces the source
-- address by the server's and the checksum by `htons` of the checksum of the header with its
-- length and addresses swapped, keeps all other bytes, and returns the pointer behind the GRE
-- header.
pub serv_handle_pkt_lem :
    (g : GreHdr) (h : IpHdr) (rest server_ip : Bytes)
    → IsIpHdr h
    → let own = record h { ip_src = parse_ip_addr server_ip } in
      serv_handle_pkt (gre_bytes g ++ (ip_bytes h ++ rest)) 0 server_ip
      ≡ some (6, gre_bytes g ++ (ip_bytes (record own { ip_sum = view_sum own }) ++ rest))
unfolding serv_handle_pkt load16 load32 store16 store32
serv_handle_pkt_lem g h rest server_ip fits =
    let own = record h { ip_src = parse_ip_addr server_ip } in
    let src_fits = parse_ip_addr-lt server_ip in
    rw (
      word16 h.ip_len fits.len_fits,
      word32 h.ip_dst fits.dst_fits,
      cksum-ip (swapped_view own) rest,
      word16 (swap16 h.ip_len) (swap16-lt h.ip_len),
      word32 (swap32 (parse_ip_addr server_ip)) (swap32-lt (parse_ip_addr server_ip)),
      word32 (swap32 h.ip_dst) (swap32-lt h.ip_dst),
      swap16-swap16 h.ip_len fits.len_fits,
      swap32-swap32 (parse_ip_addr server_ip) src_fits,
      swap32-swap32 h.ip_dst fits.dst_fits,
    )

-- `serv_handle_pkt_dest` on a packet with a GRE header and a well-formed IP header replaces the
-- destination address by that of the given text and the checksum by `htons` of the checksum of the
-- header with its length and addresses swapped, keeps all other bytes, and returns the pointer
-- behind the GRE header.
pub serv_handle_pkt_dest_lem :
    (g : GreHdr) (h : IpHdr) (rest client_ip : Bytes)
    → IsIpHdr h
    → let own = record h { ip_dst = parse_ip_addr client_ip } in
      serv_handle_pkt_dest (gre_bytes g ++ (ip_bytes h ++ rest)) 0 client_ip
      ≡ some (6, gre_bytes g ++ (ip_bytes (record own { ip_sum = view_sum own }) ++ rest))
unfolding serv_handle_pkt_dest
serv_handle_pkt_dest_lem g h rest client_ip fits =
    let own = record h { ip_dst = parse_ip_addr client_ip } in
    let dst_fits = parse_ip_addr-lt client_ip in
    unfold serv_handle_pkt_dest load16 load32 store16 store32 in
    rw (
      word16 h.ip_len fits.len_fits,
      word32 h.ip_src fits.src_fits,
      cksum-ip (swapped_view own) rest,
      word16 (swap16 h.ip_len) (swap16-lt h.ip_len),
      word32 (swap32 h.ip_src) (swap32-lt h.ip_src),
      word32 (swap32 (parse_ip_addr client_ip)) (swap32-lt (parse_ip_addr client_ip)),
      swap16-swap16 h.ip_len fits.len_fits,
      swap32-swap32 h.ip_src fits.src_fits,
      swap32-swap32 (parse_ip_addr client_ip) dst_fits,
    )

-- `save_client_ip` reads the source address of the IP header behind the GRE header.
pub save_client_ip_lem :
    (g : GreHdr) (h : IpHdr) (rest : Bytes)
    → h.ip_src < 2 ^ 32
    → save_client_ip (gre_bytes g ++ (ip_bytes h ++ rest)) 0 ≡ some h.ip_src
unfolding save_client_ip
save_client_ip_lem g h rest fits = rw (word32 h.ip_src fits)
