-- ===== src/Client.antt =====
-- src/client.c: the program of the client.
pub mod Exchange
pub mod Arguments
pub mod Safety
pub mod Undefined
use simple_vpn.Base.{
  Status, ℕ, zero, suc, ◌-◌, List, [], ◌∷◌, ◌++◌, Bool, ◌||◌, Option, none, some, ◌>>=◌,
  if◌then◌else◌, ◌==◌, u8, length, success, failure,
}
use simple_vpn.Memory.{Bytes}
use simple_vpn.Hosts.{chars, same_string, get_host_ip}
use simple_vpn.Protocol.{ip_protocol_tcp, tcp_flag_syn}
use simple_vpn.Packet.Create.{create_packets}
use simple_vpn.Packet.Transfer.{send_and_free_packet_vpn, serv_rec_from_cli}
use simple_vpn.Packet.Print.{Lines, print_packet}
use simple_vpn.Process.{
  returned, printed, connected, closed, Run, run, went_out, create_client_socket, connect_to_server,
}

abbrev max_name_length : ℕ
max_name_length = 5

-- What the client takes from outside: its standard input, and the answers to its calls.
pub record ClientOs : Type 0 where
  pub stdin : Bytes
  pub socket : Option ℕ
  pub inet_pton : Bytes → Bool
  pub connect : Bool
  pub send : Bool
  pub recv : Option Bytes

-- fgets of at most `n` characters, a newline the last.
pub fgets : ℕ → Bytes → Bytes
fgets zero input = []
fgets (suc n) [] = []
fgets (suc n) (c ∷ input) = let rest = fgets n input in if c == b'\n' then c ∷ [] else c ∷ rest

-- The string up to a newline, as `s[strcspn(s, "\n")] = '\0'` leaves it.
pub cut_newline : Bytes → Bytes
cut_newline [] = []
cut_newline (c ∷ s) = let rest = cut_newline s in if c == b'\n' || c == 0 then [] else c ∷ rest

-- The name of the destination. At the end of input nothing is stored, and the array is read
-- uninitialised.
pub read_dest_name : Bytes → Option Bytes
unfolding fgets cut_newline
read_dest_name [] = none
read_dest_name (c ∷ input) = some (cut_newline (fgets (max_name_length - 1) (c ∷ input)))

-- `print_packet` of a pointer that may be NULL.
abbrev pub print_received : Option Bytes → Option Lines
print_received none = none
print_received (some packet) = print_packet packet 0

-- From the connection on.
unfoldable pub exchange : ClientOs → ℕ → Bytes → Bytes → Bytes → Option Run
exchange os client_fd client_ip server_ip dest_ip = do
  packet ← create_packets client_ip dest_ip ip_protocol_tcp (chars "payload") tcp_flag_syn
  lines ← print_packet packet 0
  sending ← send_and_free_packet_vpn os.send packet ip_protocol_tcp (u8 (length (chars "payload")))
  resp_pkt ← serv_rec_from_cli os.recv
  resp_lines ← print_received resp_pkt
  run (returned success) (
      connected client_fd server_ip
      ∷ printed lines
      ∷ (went_out client_fd sending ++ (printed resp_lines ∷ closed client_fd ∷ [])))

-- From the answer of `connect` on.
pub after_connect : ClientOs → ℕ → Bytes → Bytes → Bytes → Status → Option Run
after_connect os client_fd client_ip server_ip dest_ip failure =
    run (returned failure) (closed client_fd ∷ [])
after_connect os client_fd client_ip server_ip dest_ip success =
    exchange os client_fd client_ip server_ip dest_ip

-- From the answer of `socket` on.
pub after_socket : ClientOs → Bytes → Bytes → Bytes → Option ℕ → Option Run
after_socket os client_ip server_ip dest_ip none = run (returned failure) []
after_socket os client_ip server_ip dest_ip (some client_fd) =
    after_connect os client_fd client_ip server_ip dest_ip
      (connect_to_server os.inet_pton os.connect server_ip)

-- From the addresses on.
pub with_addresses : ClientOs → Bytes → Bytes → Bytes → Option Run
unfolding after_socket after_connect
with_addresses os client_ip server_ip dest_ip =
    if same_string client_ip server_ip
      || (same_string client_ip dest_ip || same_string server_ip dest_ip)
    then run (returned success) []
    else after_socket os client_ip server_ip dest_ip (create_client_socket os.socket)

pub with_names : ClientOs → Option Bytes → Option Bytes → Option Bytes → Option Run
with_names os (some client_ip) (some server_ip) (some dest_ip) =
    with_addresses os client_ip server_ip dest_ip
with_names os _ _ _ = run (returned success) []

-- `main`, with the arguments of the command line behind the program's name in `argv`.
pub client_main : ClientOs → List Bytes → Option Run
client_main os (program ∷ client_host_name ∷ server_host_name ∷ []) = do
  dest_host_name ← read_dest_name os.stdin
  with_names os (get_host_ip client_host_name) (get_host_ip server_host_name)
      (get_host_ip dest_host_name)
client_main os _ = run (returned success) []
