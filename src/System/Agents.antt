-- ===== src/System/Agents.antt =====
-- The three programs of src/client.c, src/server.c and src/destination.c from their connections on, as
-- agents of a network: a `recv` waits for a message of the program at the other end, and a `send` that
-- succeeds puts one there.
pub mod Played
pub mod ServerAlone
pub mod Alone
pub mod Refusal
pub mod Refused
pub mod Rounds
pub mod Scripts
pub mod Relaying
pub mod Together
use simple_vpn.Base.{
  ℕ, ◌+◌, List, [], ◌∷◌, Bool, true, false, Option, none, some, if◌then◌else◌, u8, length, drop,
  Status, success, failure,
}
use simple_vpn.Memory.{Bytes, calloc, load32, read, c_string}
use simple_vpn.Address.{parse_ip_addr_to_str}
use simple_vpn.Hosts.{chars}
use simple_vpn.Protocol.{
  ip_protocol_tcp, tcp_flag_syn, max_payload_size, sizeof_ip_hdr, sizeof_tcp_hdr, ip_dst_offset,
}
use simple_vpn.Packet.Create.{create_packets}
use simple_vpn.Packet.Transfer.{
  Sending, send_and_free_packet_vpn, serv_rec_from_cli, serv_rec_from_des, dest_rec_pkt,
}
use simple_vpn.Packet.Handle.{serv_handle_pkt, save_client_ip}
use simple_vpn.Packet.Print.{print_packet}
use simple_vpn.Process.{
  Exit, returned, Event, printed, connected, sent, closed, shut_down, create_client_socket,
  connect_to_server, Run,
}
use simple_vpn.Client.{ClientOs, print_received}
use simple_vpn.Server.{ServerOs, return_answer}
use simple_vpn.Destination.{DestinationOs, respond}
use simple_vpn.System.Network.{Agent, acts, puts, takes, ends, faults}

abbrev pub client : ℕ
client = 0

abbrev pub server : ℕ
server = 1

abbrev pub destination : ℕ
destination = 2

-- The rest of a program behind a computation that may leave a block of memory.
infixl 5 ◌then◌
abbrev pub ◌then◌ : {A : Type 0} → Option A → (A → Agent) → Agent
none then f = faults
some a then f = f a

-- A message is put into the network if `send` succeeds.
abbrev pub put_out : ℕ → ℕ → Sending → Agent → Agent
put_out to fd sending rest = elim (sending.status) [
  | success ↦ puts to fd sending.bytes rest
  | failure ↦ rest
]

-- Events one after another, all that is sent to one program.
abbrev pub emit : ℕ → List Event → Agent → Agent
emit to [] rest = rest
emit to (sent fd bytes ∷ events) rest = puts to fd bytes (emit to events rest)
emit to (printed lines ∷ events) rest = acts (printed lines) (emit to events rest)
emit to (connected fd address ∷ events) rest = acts (connected fd address) (emit to events rest)
emit to (closed fd ∷ events) rest = acts (closed fd) (emit to events rest)
emit to (shut_down fd ∷ events) rest = acts (shut_down fd) (emit to events rest)

-- The client, from its connection on.
pub reply_agent : ℕ → Option Bytes → Agent
reply_agent client_fd message = serv_rec_from_cli message then λ resp_pkt.
    print_received resp_pkt then λ resp_lines.
    acts (printed resp_lines) (acts (closed client_fd) (ends (returned success)))

pub client_agent : ClientOs → ℕ → Bytes → Bytes → Bytes → Agent
client_agent os client_fd client_ip server_ip dest_ip =
    create_packets client_ip dest_ip ip_protocol_tcp (chars "payload") tcp_flag_syn then λ packet.
    print_packet packet 0 then λ lines.
    send_and_free_packet_vpn os.send packet ip_protocol_tcp (u8 (length (chars "payload")))
    then λ sending. acts (connected client_fd server_ip) (
        acts (printed lines)
          (put_out server client_fd sending (takes server (reply_agent client_fd))))

-- The server, from the connection of a client on.
pub answer_agent : ServerOs → ℕ → ℕ → ℕ → Option Bytes → Agent
answer_agent os server_fd new_socket client_ip message =
    serv_rec_from_des message then λ rec_packet_dest.
    return_answer os server_fd new_socket client_ip rec_packet_dest then λ events.
    emit client events (ends (returned success))

pub forward_agent : ServerOs → ℕ → ℕ → ℕ → ℕ → Bytes → Bytes → ℕ → Agent
forward_agent os server_fd new_socket client_fd fixed_pkt block dest_ip client_ip =
    read (drop fixed_pkt block) (max_payload_size + sizeof_tcp_hdr + sizeof_ip_hdr) then λ bytes.
    acts (connected client_fd dest_ip) (
      if os.send_destination
      then puts destination client_fd bytes
          (takes destination (answer_agent os server_fd new_socket client_ip))
      else ends (returned failure))

abbrev pub on_connection : Status → ℕ → Agent → Agent
on_connection failure client_fd rest = acts (closed client_fd) (ends (returned failure))
on_connection success client_fd rest = rest

pub connect_agent : ServerOs → ℕ → ℕ → ℕ → ℕ → Bytes → ℕ → Agent
connect_agent os server_fd new_socket client_fd fixed_pkt block client_ip =
    load32 block (fixed_pkt + ip_dst_offset) then λ ip_dst.
    parse_ip_addr_to_str (calloc 16) ip_dst then λ dest_block. c_string dest_block then λ dest_ip.
    on_connection (connect_to_server os.inet_pton os.connect dest_ip) client_fd
      (forward_agent os server_fd new_socket client_fd fixed_pkt block dest_ip client_ip)

pub serve_agent : ServerOs → Bytes → ℕ → ℕ → Option Bytes → Agent
serve_agent os server_ip server_fd new_socket none = ends (returned failure)
serve_agent os server_ip server_fd new_socket (some rec_packet) =
    print_packet rec_packet 0 then λ lines. save_client_ip rec_packet 0 then λ client_ip.
    serv_handle_pkt rec_packet 0 server_ip then λ fixed.
    acts (printed lines) (elim (create_client_socket os.socket) [
      | none ↦ ends (returned failure)
      | some client_fd ↦ connect_agent os server_fd new_socket client_fd fixed.0 fixed.1 client_ip
    ])

pub request_agent : ServerOs → Bytes → ℕ → ℕ → Option Bytes → Agent
request_agent os server_ip server_fd new_socket message =
    serv_rec_from_cli message then serve_agent os server_ip server_fd new_socket

pub server_agent : ServerOs → Bytes → ℕ → ℕ → Agent
server_agent os server_ip server_fd new_socket =
    takes client (request_agent os server_ip server_fd new_socket)

-- The destination, from the connection of the server on.
pub respond_agent : DestinationOs → Bytes → ℕ → ℕ → Option Bytes → Agent
respond_agent os host_ip dest_fd new_socket none = ends (returned failure)
respond_agent os host_ip dest_fd new_socket (some rec_packet) =
    respond os host_ip dest_fd new_socket rec_packet then λ r. emit server r.events (ends r.exit)

pub packet_agent : DestinationOs → Bytes → ℕ → ℕ → Option Bytes → Agent
packet_agent os host_ip dest_fd new_socket message =
    dest_rec_pkt message then respond_agent os host_ip dest_fd new_socket

pub destination_agent : DestinationOs → Bytes → ℕ → ℕ → Agent
destination_agent os host_ip dest_fd new_socket =
    takes server (packet_agent os host_ip dest_fd new_socket)
