-- ===== src/Server.antt =====
-- src/server.c: the program of the VPN server.
pub mod Forward
pub mod Answer
pub mod Relay
pub mod Safety
pub mod Lost
pub mod Undefined
use simple_vpn.Base.{
  ℕ, suc, ◌+◌, List, [], ◌∷◌, ◌++◌, Bool, true, false, Option, none, some, ◌>>=◌, if◌then◌else◌, u8,
  drop, Status, success, failure,
}
use simple_vpn.Memory.{Bytes, calloc, load32, memcpy, read, strlen, c_string}
use simple_vpn.Address.{parse_ip_addr_to_str}
use simple_vpn.Hosts.{get_host_ip}
use simple_vpn.Protocol.{
  ip_protocol_tcp, max_payload_size, sizeof_gre_hdr, sizeof_ip_hdr, sizeof_tcp_hdr, ip_dst_offset,
}
use simple_vpn.Packet.Headers.{packet_encapsulate, get_payload}
use simple_vpn.Packet.Transfer.{
  Sending, serv_rec_from_cli, serv_rec_from_des, serv_cli_encrypt_free,
}
use simple_vpn.Packet.Handle.{serv_handle_pkt, serv_handle_pkt_dest, save_client_ip}
use simple_vpn.Packet.Print.{Lines, print_packet}
use simple_vpn.Process.{
  Exit, returned, exited, Event, printed, connected, sent, closed, shut_down, Run, run, went_out,
  create_client_socket, connect_to_server, Listening, with_connection, create_server_socket,
  accept_client_connection,
}

-- The answers to the server's calls. `slack` is what the allocator gives behind a block.
pub record ServerOs : Type 0 where
  pub listening : Listening
  pub recv_client : Option Bytes
  pub socket : Option ℕ
  pub inet_pton : Bytes → Bool
  pub connect : Bool
  pub send_destination : Bool
  pub recv_destination : Option Bytes
  pub send_client : Bool
  pub slack : ℕ

-- The answer to the client: the destination's packet is encapsulated, rewritten, printed, encrypted
-- and sent. memcpy from NULL is an access outside every block.
pub return_answer : ServerOs → ℕ → ℕ → ℕ → Option Bytes → Option (List Event)
return_answer os server_fd new_socket client_ip none = none
return_answer os server_fd new_socket client_ip (some rec_packet_dest) = do
  let packet_size = u8 (max_payload_size + sizeof_tcp_hdr + sizeof_gre_hdr + sizeof_ip_hdr)
  let enc_pkt = calloc packet_size
  enc_pkt ← packet_encapsulate enc_pkt 0
  enc_pkt ←
      memcpy enc_pkt sizeof_gre_hdr rec_packet_dest
        (sizeof_ip_hdr + sizeof_tcp_hdr + max_payload_size)
  client_block ← parse_ip_addr_to_str (calloc 16) client_ip
  client_str_ip ← c_string client_block
  (_, enc_pkt) ← serv_handle_pkt_dest enc_pkt 0 client_str_ip
  lines ← print_packet enc_pkt 0
  length ← strlen (drop (get_payload 0) enc_pkt)
  sending ← serv_cli_encrypt_free os.slack os.send_client enc_pkt ip_protocol_tcp (u8 length)
  some (
      printed lines
      ∷ (went_out new_socket sending ++ (closed new_socket ∷ shut_down server_fd ∷ [])))

-- From the connection to the destination on: `fixed_pkt` points into `block`.
unfoldable pub forward : ServerOs → ℕ → ℕ → ℕ → ℕ → Bytes → Bytes → ℕ → Option Run
forward os server_fd new_socket client_fd fixed_pkt block dest_ip client_ip = do
  let pack_len = max_payload_size + sizeof_tcp_hdr + sizeof_ip_hdr
  bytes ← read (drop fixed_pkt block) pack_len
  let answer : Option Run = do
    rec_packet_dest ← serv_rec_from_des os.recv_destination
    events ← return_answer os server_fd new_socket client_ip rec_packet_dest
    run (returned success) (connected client_fd dest_ip ∷ sent client_fd bytes ∷ events)
  if os.send_destination then answer else run (returned failure) (connected client_fd dest_ip ∷ [])

-- With a socket to the destination: `client_fd` is connected to the packet's destination.
unfoldable pub to_destination : ServerOs → ℕ → ℕ → ℕ → ℕ → Bytes → ℕ → Option Run
to_destination os server_fd new_socket client_fd fixed_pkt block client_ip = do
  ip_dst ← load32 block (fixed_pkt + ip_dst_offset)
  dest_block ← parse_ip_addr_to_str (calloc 16) ip_dst
  dest_ip ← c_string dest_block
  elim (connect_to_server os.inet_pton os.connect dest_ip) [
    | failure ↦ run (returned failure) (closed client_fd ∷ [])
    | success ↦ forward os server_fd new_socket client_fd fixed_pkt block dest_ip client_ip
  ]

-- The handling of the client's packet.
unfoldable pub serve : ServerOs → Bytes → ℕ → ℕ → Bytes → Option Run
serve os server_ip server_fd new_socket rec_packet = do
  lines ← print_packet rec_packet 0
  client_ip ← save_client_ip rec_packet 0
  (fixed_pkt, block) ← serv_handle_pkt rec_packet 0 server_ip
  rest ← elim (create_client_socket os.socket) [
    | none ↦ run (returned failure) []
    | some client_fd ↦ to_destination os server_fd new_socket client_fd fixed_pkt block client_ip
  ]
  run rest.exit (printed lines ∷ rest.events)

-- What came from the tunnel, NULL if `recv` failed.
unfoldable pub serve_received : ServerOs → Bytes → ℕ → ℕ → Option Bytes → Option Run
serve_received os server_ip server_fd new_socket none = run (returned failure) []
serve_received os server_ip server_fd new_socket (some rec_packet) =
    serve os server_ip server_fd new_socket rec_packet

unfoldable pub serve_connection : ServerOs → Bytes → ℕ → ℕ → Option Run
serve_connection os server_ip server_fd new_socket = do
  rec_packet ← serv_rec_from_cli os.recv_client
  serve_received os server_ip server_fd new_socket rec_packet

pub with_server_ip : ServerOs → Option Bytes → Option Run
with_server_ip os none = run (returned success) []
with_server_ip os (some server_ip) =
    with_connection (create_server_socket os.listening) (accept_client_connection os.listening)
      (serve_connection os server_ip)

pub server_main : ServerOs → List Bytes → Option Run
server_main os (program ∷ server_host_name ∷ []) = with_server_ip os (get_host_ip server_host_name)
server_main os _ = run (returned success) []
