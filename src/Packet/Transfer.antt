-- ===== src/Packet/Transfer.antt =====
-- Sending and receiving of packets. What the network does is an argument: whether `send` accepts the
-- bytes, and what `recv` delivers, `none` for its -1. A function that returns a packet returns
-- `none` for NULL; the outer `none` is an access outside a block.
pub mod Receive
pub mod Send
pub mod Arrives
pub mod Safety
pub mod Nothing
use simple_vpn.Base.{
  ℕ, ◌+◌, ◌-◌, Bool, true, false, [], Option, none, some, ◌>>=◌, if◌then◌else◌, take, drop, Status,
  success, failure,
}
use simple_vpn.Memory.{Bytes, calloc, store8, read, write, strlen}
use simple_vpn.Cipher.{xor_encrypt_decrypt}
use simple_vpn.Protocol.{max_payload_size, sizeof_gre_hdr, sizeof_ip_hdr, sizeof_tcp_hdr}
use simple_vpn.Packet.Headers.{get_packet_size, get_payload}
use simple_vpn.Packet.Create.{clamp_length}

-- The result of a function that sends: what it returns, the bytes that went out, and whether it
-- freed its blocks.
pub record Sending : Type 0 where
  pub status : Status
  pub bytes : Bytes
  pub freed : Bool

abbrev pub sending : Bool → Bytes → Sending
sending accepted bytes =
    if accepted
    then record { status = success; bytes = bytes; freed = true }
    else record { status = failure; bytes = []; freed = false }

pub send_and_free_packet_vpn : Bool → Bytes → ℕ → ℕ → Option Sending
send_and_free_packet_vpn accepted packet_to_send ip_protocol payload_size = do
  let pack_len = get_packet_size ip_protocol payload_size
  bytes ← read packet_to_send pack_len
  some (sending accepted bytes)

-- `slack` is the number of bytes that the allocator gives behind the `pack_len` that are asked for.
pub serv_cli_encrypt_free : ℕ → Bool → Bytes → ℕ → ℕ → Option Sending
serv_cli_encrypt_free slack accepted packet_to_send ip_protocol payload_size = do
  let pack_len = get_packet_size ip_protocol payload_size
  let encrypt_packet = calloc (pack_len + slack)
  encrypt_packet ← xor_encrypt_decrypt packet_to_send encrypt_packet pack_len
  encrypt_packet ← store8 encrypt_packet (get_payload 0 + payload_size) 0
  bytes ← read encrypt_packet pack_len
  some (sending accepted bytes)

-- `recv` of at most `n` bytes to the start of a block.
pub recv_into : Bytes → ℕ → Bytes → Option Bytes
recv_into block n received = write block 0 (take n received)

unfoldable pub serv_rec_from_cli : Option Bytes → Option (Option Bytes)
serv_rec_from_cli none = some none
serv_rec_from_cli (some received) = do
  let pkt_size = sizeof_gre_hdr + sizeof_ip_hdr + sizeof_tcp_hdr + max_payload_size
  new_rec_pkt ← recv_into (calloc pkt_size) pkt_size received
  len ← strlen (drop (get_payload 0) new_rec_pkt)
  decrypt_packet ← xor_encrypt_decrypt new_rec_pkt (calloc pkt_size) pkt_size
  decrypt_packet ← store8 decrypt_packet (get_payload 0 + clamp_length len) 0
  some (some decrypt_packet)

unfoldable pub serv_rec_from_des : Option Bytes → Option (Option Bytes)
serv_rec_from_des none = some none
serv_rec_from_des (some received) = do
  let pkt_size = sizeof_gre_hdr + sizeof_ip_hdr + sizeof_tcp_hdr + max_payload_size
  new_rec_pkt ← recv_into (calloc pkt_size) pkt_size received
  some (some new_rec_pkt)

unfoldable pub dest_rec_pkt : Option Bytes → Option (Option Bytes)
dest_rec_pkt none = some none
dest_rec_pkt (some received) = do
  let pkt_size = sizeof_ip_hdr + sizeof_tcp_hdr + max_payload_size
  new_rec_pkt ← recv_into (calloc pkt_size) pkt_size received
  some (some new_rec_pkt)
