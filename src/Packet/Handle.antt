-- ===== src/Packet/Handle.antt =====
-- `serv_handle_pkt`, `serv_handle_pkt_dest` and `save_client_ip`: the server's changes to a packet.
-- A handler returns the pointer to the decapsulated packet, as an offset, and the block.
pub mod Rewrite
use simple_vpn.Base.{ℕ, ◌+◌, Option, some, ◌>>=◌, swap16, swap32, drop}
use simple_vpn.Memory.{Bytes, load16, load32, store16, store32}
use simple_vpn.Checksum.{cksum}
use simple_vpn.Address.{parse_ip_addr}
use simple_vpn.Protocol.{sizeof_ip_hdr, ip_len_offset, ip_sum_offset, ip_src_offset, ip_dst_offset}
use simple_vpn.Packet.Headers.{get_ip_hdr, packet_decapsulate}

pub serv_handle_pkt : Bytes → ℕ → Bytes → Option (ℕ × Bytes)
serv_handle_pkt block packet server_ip = do
  let fixed_pkt = packet_decapsulate packet
  let fixed_ip = get_ip_hdr packet
  old_len ← load16 block (fixed_ip + ip_len_offset)
  let temp_len = swap16 old_len
  block ← store16 block (fixed_ip + ip_len_offset) 0
  block ← store16 block (fixed_ip + ip_len_offset) temp_len
  let temp_addr = parse_ip_addr server_ip
  block ← store32 block (fixed_ip + ip_src_offset) 0
  block ← store32 block (fixed_ip + ip_src_offset) (swap32 temp_addr)
  old_dst ← load32 block (fixed_ip + ip_dst_offset)
  let temp_addr = swap32 old_dst
  block ← store32 block (fixed_ip + ip_dst_offset) 0
  block ← store32 block (fixed_ip + ip_dst_offset) temp_addr
  block ← store16 block (fixed_ip + ip_sum_offset) 0
  sum ← cksum (drop fixed_ip block) sizeof_ip_hdr
  block ← store16 block (fixed_ip + ip_sum_offset) (swap16 sum)
  new_src ← load32 block (fixed_ip + ip_src_offset)
  let temp_addr = swap32 new_src
  block ← store32 block (fixed_ip + ip_src_offset) 0
  block ← store32 block (fixed_ip + ip_src_offset) temp_addr
  new_dst ← load32 block (fixed_ip + ip_dst_offset)
  let temp_addr = swap32 new_dst
  block ← store32 block (fixed_ip + ip_dst_offset) 0
  block ← store32 block (fixed_ip + ip_dst_offset) temp_addr
  new_len ← load16 block (fixed_ip + ip_len_offset)
  let temp_len = swap16 new_len
  block ← store16 block (fixed_ip + ip_len_offset) 0
  block ← store16 block (fixed_ip + ip_len_offset) temp_len
  some (fixed_pkt, block)

pub serv_handle_pkt_dest : Bytes → ℕ → Bytes → Option (ℕ × Bytes)
serv_handle_pkt_dest block packet server_ip = do
  let fixed_pkt = packet_decapsulate packet
  let fixed_ip = get_ip_hdr packet
  old_len ← load16 block (fixed_ip + ip_len_offset)
  let temp_len = swap16 old_len
  block ← store16 block (fixed_ip + ip_len_offset) 0
  block ← store16 block (fixed_ip + ip_len_offset) temp_len
  let temp_addr = parse_ip_addr server_ip
  block ← store32 block (fixed_ip + ip_dst_offset) 0
  block ← store32 block (fixed_ip + ip_dst_offset) (swap32 temp_addr)
  old_src ← load32 block (fixed_ip + ip_src_offset)
  let temp_addr = swap32 old_src
  block ← store32 block (fixed_ip + ip_src_offset) 0
  block ← store32 block (fixed_ip + ip_src_offset) temp_addr
  block ← store16 block (fixed_ip + ip_sum_offset) 0
  sum ← cksum (drop fixed_ip block) sizeof_ip_hdr
  block ← store16 block (fixed_ip + ip_sum_offset) (swap16 sum)
  new_dst ← load32 block (fixed_ip + ip_dst_offset)
  let temp_addr = swap32 new_dst
  block ← store32 block (fixed_ip + ip_dst_offset) 0
  block ← store32 block (fixed_ip + ip_dst_offset) temp_addr
  new_src ← load32 block (fixed_ip + ip_src_offset)
  let temp_addr = swap32 new_src
  block ← store32 block (fixed_ip + ip_src_offset) 0
  block ← store32 block (fixed_ip + ip_src_offset) temp_addr
  new_len ← load16 block (fixed_ip + ip_len_offset)
  let temp_len = swap16 new_len
  block ← store16 block (fixed_ip + ip_len_offset) 0
  block ← store16 block (fixed_ip + ip_len_offset) temp_len
  some (fixed_pkt, block)

-- The value copied to `*client_ip`.
pub save_client_ip : Bytes → ℕ → Option ℕ
unfolding load32
save_client_ip block packet = load32 block (get_ip_hdr packet + ip_src_offset)
