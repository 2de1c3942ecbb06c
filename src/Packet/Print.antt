-- ===== src/Packet/Print.antt =====
-- The functions that print a packet, as the lines that they print. A number is printed as it lies in
-- memory, in the machine's byte order. An outer `none` is a read outside the block.
pub mod Fields
pub mod Decapsulated
pub mod Unended
use simple_vpn.Base.{ℕ, ◌+◌, List, [], ◌∷◌, ◌++◌, Option, some, ◌>>=◌, bit_and, drop}
use simple_vpn.Memory.{Bytes, calloc, load8, load16, load32, c_string}
use simple_vpn.Address.{parse_ip_addr_to_str}
use simple_vpn.Hosts.{chars}
use simple_vpn.Protocol.{
  sizeof_ip_hdr, sizeof_tcp_hdr, c_offset, protocol_offset, gre_sum_offset, ip_tos_offset,
  ip_len_offset, ip_id_offset, ip_off_offset, ip_ttl_offset, ip_p_offset, ip_sum_offset,
  ip_src_offset, ip_dst_offset, src_port_offset, dst_port_offset, seq_num_offset, ack_num_offset,
  data_offset_offset, flags_offset, window_offset, tcp_sum_offset, urgent_pointer_offset,
}
use simple_vpn.Packet.Headers.{get_gre_hdr, get_ip_hdr, get_tcp_hdr, get_payload}

pub data Line : Type 0 where
  rule : Line
  heading : Bytes → Line
  number : Bytes → ℕ → Line
  string : Bytes → Bytes → Line

abbrev pub Lines : Type 0
Lines = List Line

pub print_gre_header : Bytes → ℕ → Option Lines
unfolding load16
print_gre_header block packet = do
  let gre_header = get_gre_hdr packet
  c ← load16 block (gre_header + c_offset)
  protocol ← load16 block (gre_header + protocol_offset)
  gre_sum ← load16 block (gre_header + gre_sum_offset)
  some (
      rule
      ∷ heading (chars "[ GRE header ]")
      ∷ number (chars "c:\t") c
      ∷ number (chars "protocol:\t") protocol
      ∷ number (chars "gre_sum:\t") gre_sum
      ∷ [])

-- The TCP header at an offset.
pub tcp_lines : Bytes → ℕ → Option Lines
unfolding load16 load32
tcp_lines block tcp_header = do
  src_port ← load16 block (tcp_header + src_port_offset)
  dst_port ← load16 block (tcp_header + dst_port_offset)
  seq_num ← load32 block (tcp_header + seq_num_offset)
  ack_num ← load32 block (tcp_header + ack_num_offset)
  data_offset ← load8 block (tcp_header + data_offset_offset)
  flags ← load8 block (tcp_header + flags_offset)
  window ← load16 block (tcp_header + window_offset)
  tcp_sum ← load16 block (tcp_header + tcp_sum_offset)
  urgent_pointer ← load16 block (tcp_header + urgent_pointer_offset)
  some (
      rule
      ∷ heading (chars "[ TCP header ]")
      ∷ number (chars "src_port: ") src_port
      ∷ number (chars "dst_port: ") dst_port
      ∷ number (chars "seq_num: ") seq_num
      ∷ number (chars "ack_num: ") ack_num
      ∷ number (chars "data_offset: ") (bit_and data_offset 0x0f)
      ∷ number (chars "flags: ") flags
      ∷ number (chars "window: ") window
      ∷ number (chars "tcp_sum: ") tcp_sum
      ∷ number (chars "urgent_pointer: ") urgent_pointer
      ∷ [])

-- The IP header at an offset. The two strings are in blocks of 4 * 4 bytes.
pub ip_lines : Bytes → ℕ → Option Lines
unfolding load16 load32
ip_lines block ip_header = do
  src ← load32 block (ip_header + ip_src_offset)
  dst ← load32 block (ip_header + ip_dst_offset)
  ip_src_str ← parse_ip_addr_to_str (calloc 16) src
  ip_dst_str ← parse_ip_addr_to_str (calloc 16) dst
  ip_tos ← load8 block (ip_header + ip_tos_offset)
  ip_len ← load16 block (ip_header + ip_len_offset)
  ip_id ← load16 block (ip_header + ip_id_offset)
  ip_off ← load16 block (ip_header + ip_off_offset)
  ip_ttl ← load8 block (ip_header + ip_ttl_offset)
  ip_p ← load8 block (ip_header + ip_p_offset)
  ip_sum ← load16 block (ip_header + ip_sum_offset)
  src_text ← c_string ip_src_str
  dst_text ← c_string ip_dst_str
  some (
      rule
      ∷ heading (chars "[ IP header ]")
      ∷ number (chars "ip_tos: ") ip_tos
      ∷ number (chars "ip_len: ") ip_len
      ∷ number (chars "ip_id: ") ip_id
      ∷ number (chars "ip_off: ") ip_off
      ∷ number (chars "ip_ttl: ") ip_ttl
      ∷ number (chars "ip_p: ") ip_p
      ∷ number (chars "ip_sum: ") ip_sum
      ∷ string (chars "ip_src: ") src_text
      ∷ string (chars "ip_dst: ") dst_text
      ∷ [])

-- The payload at an offset.
pub payload_lines : Bytes → ℕ → Option Lines
payload_lines block payload = do
  msg ← c_string (drop payload block)
  some (rule ∷ string (chars "Payload msg: ") msg ∷ [])

print_tcp_header : Bytes → ℕ → Option Lines
print_tcp_header block packet = tcp_lines block (get_tcp_hdr packet)

print_ip_header : Bytes → ℕ → Option Lines
print_ip_header block packet = ip_lines block (get_ip_hdr packet)

print_payload : Bytes → ℕ → Option Lines
print_payload block packet = payload_lines block (get_payload packet)

pub print_packet : Bytes → ℕ → Option Lines
unfolding print_tcp_header print_ip_header print_payload
print_packet block packet_start = do
  gre ← print_gre_header block packet_start
  ip ← print_ip_header block packet_start
  tcp ← print_tcp_header block packet_start
  payload ← print_payload block packet_start
  some (gre ++ (ip ++ (tcp ++ payload)))

-- A packet with no GRE header.
pub print_packet_unencap : Bytes → ℕ → Option Lines
print_packet_unencap block packet_start = do
  ip ← ip_lines block packet_start
  tcp ← tcp_lines block (packet_start + sizeof_ip_hdr)
  payload ← payload_lines block (packet_start + sizeof_ip_hdr + sizeof_tcp_hdr)
  some (ip ++ (tcp ++ payload))
