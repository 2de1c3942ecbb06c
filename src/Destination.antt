-- ===== src/Destination.antt =====
-- src/destination.c: the program of the destination.
pub mod Respond
pub mod Safety
use simple_vpn.Base.{
  ℕ, suc, ◌+◌, List, [], ◌∷◌, ◌++◌, Bool, true, false, Option, none, some, ◌>>=◌, if◌then◌else◌, u8,
  drop, length, Status, success, failure,
}
use simple_vpn.Memory.{Bytes, calloc, load32, read, c_string}
use simple_vpn.Address.{parse_ip_addr_to_str}
use simple_vpn.Hosts.{chars, get_host_ip}
use simple_vpn.Protocol.{ip_protocol_tcp, tcp_flag_ack, ip_src_offset}
use simple_vpn.Packet.Headers.{get_packet_size, packet_decapsulate}
use simple_vpn.Packet.Create.{create_packets_des}
use simple_vpn.Packet.Transfer.{dest_rec_pkt}
use simple_vpn.Packet.Print.{Lines, print_packet_unencap}
use simple_vpn.Process.{
  Exit, returned, exited, Event, printed, sent, closed, Run, run, Listening, with_connection,
}

pub record DestinationOs : Type 0 where
  pub listening : Listening
  pub recv : Option Bytes
  pub send : Bool

abbrev pub response_msg : Bytes
response_msg = chars "Hello from the other side!"

-- `none` is exit(EXIT_FAILURE).
unfoldable pub create_dest_socket : Listening → Option ℕ
create_dest_socket os = elim (os.socket) [
  | none ↦ none
  | some dest_fd ↦
      if os.setsockopt
      then (if os.bind then (if os.listen then some dest_fd else none) else none)
      else none
]

unfoldable pub accept_dest_connection : Listening → ℕ → Option ℕ
accept_dest_connection os dest_fd = os.accept

-- The handling of the packet that arrived.
pub respond : DestinationOs → Bytes → ℕ → ℕ → Bytes → Option Run
respond os host_ip dest_fd new_socket rec_packet = do
  lines ← print_packet_unencap rec_packet 0
  ip_src ← load32 rec_packet ip_src_offset
  client_block ← parse_ip_addr_to_str (calloc 16) ip_src
  client_ip_str ← c_string client_block
  response_pkt ← create_packets_des host_ip client_ip_str ip_protocol_tcp response_msg tcp_flag_ack
  let fixed_pkt = packet_decapsulate 0
  response_lines ← print_packet_unencap response_pkt fixed_pkt
  let pack_len = get_packet_size ip_protocol_tcp (u8 (length response_msg))
  bytes ← read (drop fixed_pkt response_pkt) pack_len
  let answered = sent new_socket bytes ∷ closed new_socket ∷ closed dest_fd ∷ []
  if os.send
      then run (returned success) (printed lines ∷ printed response_lines ∷ answered)
      else run (returned failure) (printed lines ∷ printed response_lines ∷ [])

unfoldable pub respond_received : DestinationOs → Bytes → ℕ → ℕ → Option Bytes → Option Run
respond_received os host_ip dest_fd new_socket none = run (returned failure) []
respond_received os host_ip dest_fd new_socket (some rec_packet) =
    respond os host_ip dest_fd new_socket rec_packet

unfoldable pub respond_connection : DestinationOs → Bytes → ℕ → ℕ → Option Run
respond_connection os host_ip dest_fd new_socket = do
  rec_packet ← dest_rec_pkt os.recv
  respond_received os host_ip dest_fd new_socket rec_packet

pub with_host_ip : DestinationOs → Option Bytes → Option Run
with_host_ip os none = run (returned success) []
with_host_ip os (some host_ip) =
    with_connection (create_dest_socket os.listening) (accept_dest_connection os.listening)
      (respond_connection os host_ip)

pub destination_main : DestinationOs → List Bytes → Option Run
destination_main os (program ∷ dest_host_name ∷ []) = with_host_ip os (get_host_ip dest_host_name)
destination_main os _ = run (returned success) []
