-- ===== src/Packet/Headers/Layout.antt =====
-- What the header functions leave in a block, header by header.
use simple_vpn.Base.{
  ℕ, ◌+◌, ◌*◌, ◌%◌, ◌<◌, ◌≡◌, refl, arith, ◌++◌, some, u8, bit_or, bit_and, swap16, Bool,
  holds_below, holds_below_at, ◌==◌, ==_iff, true,
}
use simple_vpn.Memory.{Bytes, IsBytes}
use simple_vpn.Checksum.{cksum}
use simple_vpn.Checksum.Value.{checksum, complement, cksum-checksum}
use simple_vpn.Address.{parse_ip_addr}
use simple_vpn.Protocol.{GreHdr, gre_bytes, IpHdr, ip_bytes, TcpHdr, tcp_bytes, port, ip_version}
use simple_vpn.Packet.Headers.{packet_encapsulate, set_ip, set_tcp}

-- The GRE header of every packet. Its checksum field holds 0xf7fe with its bytes swapped.
abbrev pub vpn_gre : GreHdr
vpn_gre = record { c = swap16 1; protocol = swap16 0x0800; gre_sum = 0xf7fe }

pub packet_encapsulate_lem :
    (h : GreHdr) (rest : Bytes)
    → packet_encapsulate (gre_bytes h ++ rest) 0 ≡ some (gre_bytes vpn_gre ++ rest)
unfolding packet_encapsulate
packet_encapsulate_lem h rest =
    rw
      (cksum-checksum (gre_bytes (record vpn_gre { gre_sum = 0 })) rest (omega arith) (omega arith))
      (unfold complement in refl)

ip_bytes-IsBytes : (h : IpHdr) → IsBytes (ip_bytes h)
ip_bytes-IsBytes h = omega arith

tcp_bytes-IsBytes : (h : TcpHdr) → IsBytes (tcp_bytes h)
tcp_bytes-IsBytes h = omega arith

pub cksum-ip :
    (h : IpHdr) (rest : Bytes) → cksum (ip_bytes h ++ rest) 20 ≡ some (checksum (ip_bytes h))
cksum-ip h rest = cksum-checksum (ip_bytes h) rest (ip_bytes-IsBytes h) (omega arith)

cksum-tcp :
    (h : TcpHdr) (rest : Bytes) → cksum (tcp_bytes h ++ rest) 20 ≡ some (checksum (tcp_bytes h))
cksum-tcp h rest = cksum-checksum (tcp_bytes h) rest (tcp_bytes-IsBytes h) (omega arith)

-- A header whose checksum field holds `htons` of the checksum of the header with that field 0.
unfoldable pub ip_with_sum : IpHdr → IpHdr
ip_with_sum h = record h { ip_sum = swap16 (checksum (ip_bytes (record h { ip_sum = 0 }))) }

is_version_byte : ℕ → Bool
is_version_byte x = bit_or (bit_and x 0x0f) 64 == x % 16 + 64

version_table : holds_below is_version_byte 256 ≡ true
unfolding holds_below is_version_byte
version_table = refl

version_byte : (x : ℕ) → x < 256 → bit_or (bit_and x 0x0f) 64 ≡ x % 16 + 64
unfolding is_version_byte
version_byte x h = (==_iff _ _).0 (holds_below_at is_version_byte 256 version_table x h)

-- The first byte of a header after its version is set.
version_set :
    (hl v : ℕ) → hl < 16 → u8 (bit_or (bit_and (u8 (hl + v * 16)) 0x0f) 64) ≡ u8 (hl + 4 * 16)
version_set hl v h = omega (arith, version_byte (u8 (hl + v * 16)) (omega arith))

-- The header that `set_ip` writes over `h`.
abbrev pub filled_ip : IpHdr → Bytes → Bytes → ℕ → ℕ → IpHdr
filled_ip h ip_dest ip_host ip_protocol payload_size = ip_with_sum (record h {
  ip_v = ip_version;
  ip_len = swap16 (payload_size + 20);
  ip_p = ip_protocol;
  ip_src = parse_ip_addr ip_host;
  ip_dst = parse_ip_addr ip_dest;
})

pub set_ip_lem :
    (g : GreHdr) (h : IpHdr) (rest ip_dest ip_host : Bytes) (ip_protocol payload_size : ℕ)
    → h.ip_hl < 16
    → set_ip (gre_bytes g ++ (ip_bytes h ++ rest)) 6 ip_dest ip_host ip_protocol payload_size
      ≡ some
          (gre_bytes g ++ (ip_bytes (filled_ip h ip_dest ip_host ip_protocol payload_size) ++ rest))
unfolding set_ip ip_with_sum
set_ip_lem g h rest ip_dest ip_host ip_protocol payload_size fits =
    let new = record h {
      ip_v = ip_version;
      ip_len = swap16 (payload_size + 20);
      ip_p = ip_protocol;
      ip_src = parse_ip_addr ip_host;
      ip_dst = parse_ip_addr ip_dest;
      ip_sum = 0;
    } in
    rw (version_set h.ip_hl h.ip_v fits, cksum-ip new rest)

-- The header that `set_tcp` writes over `h`. The old checksum is summed too.
unfoldable pub filled_tcp : TcpHdr → ℕ → TcpHdr
filled_tcp h flags =
    let new = record h { src_port = swap16 port; dst_port = swap16 port; flags = flags } in
    record new { tcp_sum = swap16 (checksum (tcp_bytes new)) }

pub set_tcp_lem :
    (g : GreHdr) (ip : IpHdr) (h : TcpHdr) (rest : Bytes) (flags : ℕ)
    → set_tcp (gre_bytes g ++ (ip_bytes ip ++ (tcp_bytes h ++ rest))) 26 flags
      ≡ some (gre_bytes g ++ (ip_bytes ip ++ (tcp_bytes (filled_tcp h flags) ++ rest)))
unfolding set_tcp filled_tcp
set_tcp_lem g ip h rest flags =
    rw (cksum-tcp (record h { src_port = swap16 port; dst_port = swap16 port; flags = flags }) rest)
