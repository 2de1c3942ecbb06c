-- ===== src/Packet/Headers.antt =====
-- `get_packet_size`, `packet_encapsulate`, `packet_decapsulate`, `set_ip` and `set_tcp`, and the
-- offsets that `get_gre_hdr`, `get_ip_hdr`, `get_tcp_hdr` and `get_payload` give.
pub mod Layout
use simple_vpn.Base.{
  ℕ, ◌+◌, ◌-◌, Option, none, some, ◌>>=◌, if◌then◌else◌, ◌==◌, u8, swap16, ◌<<<◌, bit_and, bit_or,
  drop,
}
use simple_vpn.Memory.{Bytes, load8, store8, store16, store32}
use simple_vpn.Checksum.{cksum}
use simple_vpn.Address.{parse_ip_addr}
use simple_vpn.Protocol.{
  port, ip_version, ip_protocol_tcp, ethertype_ipv4, sizeof_gre_hdr, sizeof_ip_hdr, sizeof_tcp_hdr,
  c_offset, protocol_offset, gre_sum_offset, ip_v_offset, ip_len_offset, ip_p_offset, ip_sum_offset,
  ip_src_offset, ip_dst_offset, src_port_offset, dst_port_offset, flags_offset, tcp_sum_offset,
}

-- Of an unknown protocol the size is -1, which a `uint8_t` holds as 255.
unfoldable pub get_packet_size : ℕ → ℕ → ℕ
get_packet_size ip_protocol payload_size =
    if ip_protocol == ip_protocol_tcp
    then u8 (payload_size + sizeof_tcp_hdr + sizeof_gre_hdr + sizeof_ip_hdr)
    else 255

abbrev pub get_gre_hdr : ℕ → ℕ
get_gre_hdr packet_start = packet_start

abbrev pub get_ip_hdr : ℕ → ℕ
get_ip_hdr packet_start = packet_start + sizeof_gre_hdr

abbrev pub get_tcp_hdr : ℕ → ℕ
get_tcp_hdr packet_start = packet_start + sizeof_gre_hdr + sizeof_ip_hdr

abbrev pub get_payload : ℕ → ℕ
get_payload packet_start = packet_start + sizeof_gre_hdr + sizeof_ip_hdr + sizeof_tcp_hdr

abbrev pub packet_decapsulate : ℕ → ℕ
packet_decapsulate packet = packet + sizeof_gre_hdr

pub packet_encapsulate : Bytes → ℕ → Option Bytes
unfolding store16 swap16
packet_encapsulate block packet = do
  let enc_gre_hdr = packet
  block ← store16 block (enc_gre_hdr + c_offset) (swap16 1)
  block ← store16 block (enc_gre_hdr + protocol_offset) (swap16 ethertype_ipv4)
  block ← store16 block (enc_gre_hdr + gre_sum_offset) 0
  sum ← cksum (drop enc_gre_hdr block) sizeof_gre_hdr
  store16 block (enc_gre_hdr + gre_sum_offset) (swap16 sum)

-- `ip->ip_v = v`, a store to the upper four bits of a byte.
set_ip_v : Bytes → ℕ → ℕ → Option Bytes
unfolding store8
set_ip_v block ip v = do
  old ← load8 block (ip + ip_v_offset)
  store8 block (ip + ip_v_offset) (bit_or (bit_and old 0x0f) (v <<< 4))

pub set_ip : Bytes → ℕ → Bytes → Bytes → ℕ → ℕ → Option Bytes
unfolding set_ip_v store16 store32
set_ip block ip ip_dest ip_host ip_protocol payload_size = do
  block ← set_ip_v block ip ip_version
  block ← store16 block (ip + ip_len_offset) (swap16 (payload_size + sizeof_ip_hdr))
  block ← store8 block (ip + ip_p_offset) ip_protocol
  block ← store32 block (ip + ip_src_offset) (parse_ip_addr ip_host)
  block ← store32 block (ip + ip_dst_offset) (parse_ip_addr ip_dest)
  block ← store16 block (ip + ip_sum_offset) 0
  sum ← cksum (drop ip block) sizeof_ip_hdr
  store16 block (ip + ip_sum_offset) (swap16 sum)

pub set_tcp : Bytes → ℕ → ℕ → Option Bytes
unfolding store8 store16
set_tcp block tcp flags = do
  block ← store16 block (tcp + src_port_offset) (swap16 port)
  block ← store16 block (tcp + dst_port_offset) (swap16 port)
  block ← store8 block (tcp + flags_offset) flags
  sum ← cksum (drop tcp block) sizeof_tcp_hdr
  store16 block (tcp + tcp_sum_offset) (swap16 sum)
