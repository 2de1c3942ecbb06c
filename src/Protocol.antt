-- ===== src/Protocol.antt =====
-- src/protocol.h: the constants, the three packed headers, and where their fields lie. Bit-fields are
-- laid out as on a little-endian machine, the first one lowest.
pub mod Decode
use simple_vpn.Base.{ℕ, ◌+◌, ◌*◌, ◌/◌, ◌^◌, ◌<◌, [], ◌∷◌, ◌++◌, u8}
use simple_vpn.Memory.{Bytes}

abbrev pub port : ℕ
port = 17350

abbrev pub ip_version : ℕ
ip_version = 4

abbrev pub max_payload_size : ℕ
max_payload_size = 128

abbrev pub ip_protocol_tcp : ℕ
ip_protocol_tcp = 0x0006

abbrev pub ethertype_ipv4 : ℕ
ethertype_ipv4 = 0x0800

abbrev pub tcp_flag_ack : ℕ
tcp_flag_ack = 0x16

abbrev pub tcp_flag_syn : ℕ
tcp_flag_syn = 0x02

-- A word of 16 or 32 bits in memory, lowest byte first.
abbrev pub bytes16 : ℕ → Bytes
bytes16 v = u8 v ∷ u8 (v / 256) ∷ []

abbrev pub bytes32 : ℕ → Bytes
bytes32 v = u8 v ∷ u8 (v / 256) ∷ u8 (v / 65536) ∷ u8 (v / 16777216) ∷ []

-- `struct gre_hdr`
pub record GreHdr : Type 0 where
  pub c : ℕ
  pub protocol : ℕ
  pub gre_sum : ℕ

abbrev pub gre_bytes : GreHdr → Bytes
gre_bytes h = bytes16 h.c ++ (bytes16 h.protocol ++ bytes16 h.gre_sum)

abbrev pub sizeof_gre_hdr : ℕ
sizeof_gre_hdr = 6

-- Offsets of its fields.
abbrev pub c_offset : ℕ
c_offset = 0

abbrev pub protocol_offset : ℕ
protocol_offset = 2

abbrev pub gre_sum_offset : ℕ
gre_sum_offset = 4

-- `struct ip_hdr`
pub record IpHdr : Type 0 where
  pub ip_hl : ℕ
  pub ip_v : ℕ
  pub ip_tos : ℕ
  pub ip_len : ℕ
  pub ip_id : ℕ
  pub ip_off : ℕ
  pub ip_ttl : ℕ
  pub ip_p : ℕ
  pub ip_sum : ℕ
  pub ip_src : ℕ
  pub ip_dst : ℕ

abbrev pub ip_bytes : IpHdr → Bytes
ip_bytes h =
    u8 (h.ip_hl + h.ip_v * 16)
    ∷ u8 h.ip_tos
    ∷ (bytes16 h.ip_len
        ++ (bytes16 h.ip_id
            ++ (bytes16 h.ip_off
                ++ (u8 h.ip_ttl
                    ∷ u8 h.ip_p
                    ∷ (bytes16 h.ip_sum ++ (bytes32 h.ip_src ++ bytes32 h.ip_dst))))))

abbrev pub sizeof_ip_hdr : ℕ
sizeof_ip_hdr = 20

-- Offsets of its fields; the two bit-fields share the first byte.
abbrev pub ip_v_offset : ℕ
ip_v_offset = 0

abbrev pub ip_tos_offset : ℕ
ip_tos_offset = 1

abbrev pub ip_len_offset : ℕ
ip_len_offset = 2

abbrev pub ip_id_offset : ℕ
ip_id_offset = 4

abbrev pub ip_off_offset : ℕ
ip_off_offset = 6

abbrev pub ip_ttl_offset : ℕ
ip_ttl_offset = 8

abbrev pub ip_p_offset : ℕ
ip_p_offset = 9

abbrev pub ip_sum_offset : ℕ
ip_sum_offset = 10

abbrev pub ip_src_offset : ℕ
ip_src_offset = 12

abbrev pub ip_dst_offset : ℕ
ip_dst_offset = 16

-- `struct tcp_hdr`. `data_offset` is the whole byte whose low four bits are the bit-field; the others
-- are padding.
pub record TcpHdr : Type 0 where
  pub src_port : ℕ
  pub dst_port : ℕ
  pub seq_num : ℕ
  pub ack_num : ℕ
  pub data_offset : ℕ
  pub flags : ℕ
  pub window : ℕ
  pub tcp_sum : ℕ
  pub urgent_pointer : ℕ

abbrev pub tcp_bytes : TcpHdr → Bytes
tcp_bytes h =
    bytes16 h.src_port
    ++ (bytes16 h.dst_port
        ++ (bytes32 h.seq_num
            ++ (bytes32 h.ack_num
                ++ (u8 h.data_offset
                    ∷ u8 h.flags
                    ∷ (bytes16 h.window ++ (bytes16 h.tcp_sum ++ bytes16 h.urgent_pointer))))))

abbrev pub sizeof_tcp_hdr : ℕ
sizeof_tcp_hdr = 20

-- Offsets of its fields.
abbrev pub src_port_offset : ℕ
src_port_offset = 0

abbrev pub dst_port_offset : ℕ
dst_port_offset = 2

abbrev pub seq_num_offset : ℕ
seq_num_offset = 4

abbrev pub ack_num_offset : ℕ
ack_num_offset = 8

abbrev pub data_offset_offset : ℕ
data_offset_offset = 12

abbrev pub flags_offset : ℕ
flags_offset = 13

abbrev pub window_offset : ℕ
window_offset = 14

abbrev pub tcp_sum_offset : ℕ
tcp_sum_offset = 16

abbrev pub urgent_pointer_offset : ℕ
urgent_pointer_offset = 18

-- The fields' values fit their widths.
pub record IsIpHdr (h : IpHdr) : Type 0 where
  pub hl_fits : h.ip_hl < 16
  pub v_fits : h.ip_v < 16
  pub tos_fits : h.ip_tos < 256
  pub len_fits : h.ip_len < 65536
  pub id_fits : h.ip_id < 65536
  pub off_fits : h.ip_off < 65536
  pub ttl_fits : h.ip_ttl < 256
  pub p_fits : h.ip_p < 256
  pub sum_fits : h.ip_sum < 65536
  pub src_fits : h.ip_src < 2 ^ 32
  pub dst_fits : h.ip_dst < 2 ^ 32

pub record IsGreHdr (h : GreHdr) : Type 0 where
  pub c_fits : h.c < 65536
  pub protocol_fits : h.protocol < 65536
  pub gre_sum_fits : h.gre_sum < 65536

pub record IsTcpHdr (h : TcpHdr) : Type 0 where
  pub src_port_fits : h.src_port < 65536
  pub dst_port_fits : h.dst_port < 65536
  pub seq_num_fits : h.seq_num < 2 ^ 32
  pub ack_num_fits : h.ack_num < 2 ^ 32
  pub data_offset_fits : h.data_offset < 256
  pub flags_fits : h.flags < 256
  pub window_fits : h.window < 65536
  pub tcp_sum_fits : h.tcp_sum < 65536
  pub urgent_pointer_fits : h.urgent_pointer < 65536
