-- ===== src/Packet/Create.antt =====
-- `create_packets` and `create_packets_des`. An `ip_src`, an `ip_dest` and a `payload` are the content
-- of a C string. Both allocations succeed.
pub mod Shape
pub mod Encrypted
use simple_vpn.Base.{ℕ, ◌+◌, ◌-◌, Option, some, ◌>>=◌, if◌then◌else◌, ltb, length}
use simple_vpn.Memory.{Bytes, calloc, store8, strncpy}
use simple_vpn.Cipher.{xor_encrypt_decrypt}
use simple_vpn.Protocol.{max_payload_size}
use simple_vpn.Packet.Headers.{
  get_packet_size, get_ip_hdr, get_tcp_hdr, get_payload, packet_encapsulate, set_ip, set_tcp,
}

-- `payload_length` after the test against the room for the final NUL.
abbrev pub clamp_length : ℕ → ℕ
clamp_length payload_length =
    if ltb (max_payload_size - 1) payload_length then max_payload_size - 1 else payload_length

pub create_packets_des : Bytes → Bytes → ℕ → Bytes → ℕ → Option Bytes
unfolding get_packet_size
create_packets_des ip_src ip_dest ip_protocol payload flags = do
  let payload_size = max_payload_size
  let packet_size = get_packet_size ip_protocol payload_size
  let new_packet = calloc packet_size
  new_packet ← packet_encapsulate new_packet 0
  new_packet ← set_ip new_packet (get_ip_hdr 0) ip_dest ip_src ip_protocol payload_size
  new_packet ← set_tcp new_packet (get_tcp_hdr 0) flags
  let new_payload = get_payload 0
  let payload_length = length payload
  new_packet ← strncpy new_packet new_payload payload payload_length
  store8 new_packet (new_payload + clamp_length payload_length) 0

pub create_packets : Bytes → Bytes → ℕ → Bytes → ℕ → Option Bytes
unfolding get_packet_size
create_packets ip_src ip_dest ip_protocol payload flags = do
  let payload_size = max_payload_size
  let packet_size = get_packet_size ip_protocol payload_size
  let new_packet = calloc packet_size
  let encrypt_packet = calloc packet_size
  new_packet ← packet_encapsulate new_packet 0
  new_packet ← set_ip new_packet (get_ip_hdr 0) ip_dest ip_src ip_protocol payload_size
  new_packet ← set_tcp new_packet (get_tcp_hdr 0) flags
  let new_payload = get_payload 0
  let payload_length = length payload
  new_packet ← strncpy new_packet new_payload payload payload_length
  let payload_length = clamp_length payload_length
  new_packet ← store8 new_packet (new_payload + payload_length) 0
  encrypt_packet ← xor_encrypt_decrypt new_packet encrypt_packet packet_size
  store8 encrypt_packet (get_payload 0 + payload_length) 0
