-- ===== src/Client/Safety.antt =====
-- The client on any bytes that come from the tunnel, and on any names.
use simple_vpn.Base.{
  ℕ, ◌≡◌, refl, ap, ◌∙◌, arith, List, [], ◌∷◌, ◌++◌, Bool, true, false, Option, none, some, Status,
  success, failure, if◌then◌else◌,
}
use simple_vpn.Memory.{Bytes}
use simple_vpn.Hosts.{get_host_ip}
use simple_vpn.Protocol.{tcp_flag_syn}
use simple_vpn.Packet.Create.Shape.{vpn_headers}
use simple_vpn.Packet.Create.Encrypted.{create_packets_shape}
use simple_vpn.Packet.Transfer.{sending, serv_rec_from_cli}
use simple_vpn.Packet.Transfer.Send.{wire, sent_wire}
use simple_vpn.Packet.Transfer.Safety.{IsPacket, IsDelivered, serv_rec_from_cli-IsPacket}
use simple_vpn.Packet.Parts.{tunnel_parts}
use simple_vpn.Packet.Print.{Lines, print_packet}
use simple_vpn.Packet.Print.Fields.{print_packet_lem}
use simple_vpn.Process.{returned, printed, connected, closed, went_out, Run, create_client_socket}
use simple_vpn.Process.Ends.{Ends}
use simple_vpn.Client.{
  ClientOs, read_dest_name, exchange, after_connect, after_socket, with_addresses, with_names,
  client_main,
}
use simple_vpn.Client.Exchange.{payload, payload-IsText, packet_printed, request_shown}

-- A message comes from the server, and holds the end of its text in the block it is received into.
abbrev pub IsReply : Option Bytes → Type 0
IsReply none = ⊥
IsReply (some received) = IsDelivered 174 46 received

-- There is a line, if an empty one, for the name of the destination.
abbrev pub IsInput : Bytes → Type 0
IsInput [] = ⊥
IsInput (c ∷ input) = Unit

name_read : (input : Bytes) → IsInput input → (name : Bytes) × (read_dest_name input ≡ some name)
unfolding read_dest_name
name_read [] h = absurd h
name_read (c ∷ input) h = (_, refl)

pub packet_shown :
    (packet : Bytes) → IsPacket packet → (lines : Lines) × (print_packet packet 0 ≡ some lines)
packet_shown packet packed =
    let p = tunnel_parts packet packed in
    (
      _,
      ap (λ (b : Bytes). print_packet b 0) p.whole
          ∙ print_packet_lem p.gre p.ip p.tcp p.text p.rest p.gre_fits p.ip_fits p.tcp_fits
              p.is_text,
    )

reply_printed :
    (reply : Option Bytes)
    → IsReply reply
    → (packet : Bytes) × (lines : Lines) × (serv_rec_from_cli reply ≡ some (some packet))
      × (print_packet packet 0 ≡ some lines)
reply_printed none h = absurd h
reply_printed (some received) h =
    let (packet, made, packed) = serv_rec_from_cli-IsPacket received h in
    let (lines, shown) = packet_shown packet packed in (packet, lines, made, shown)

module _ (os : ClientOs) (reply : IsReply os.recv) where
  exchange-Ends :
      (client_fd : ℕ) (client_ip server_ip dest_ip : Bytes)
      → Ends (exchange os client_fd client_ip server_ip dest_ip)
  exchange-Ends client_fd client_ip server_ip dest_ip =
      let front = vpn_headers client_ip dest_ip tcp_flag_syn in
      let (packet, resp_lines, came, resp_shown) = reply_printed os.recv reply in
      (
        record {
          exit = returned success;
          events =
              connected client_fd server_ip
              ∷ printed (request_shown client_ip dest_ip)
              ∷ (went_out client_fd (sending os.send (wire front payload))
                  ++ (printed resp_lines ∷ closed client_fd ∷ []));
        },
        unfold exchange in
            rw (
              create_packets_shape client_ip dest_ip payload tcp_flag_syn payload-IsText
                  (omega arith),
              packet_printed client_ip dest_ip,
              sent_wire os.send front payload refl (omega arith),
              came,
              resp_shown,
            ),
      )

  after_connect-Ends :
      (client_fd : ℕ) (client_ip server_ip dest_ip : Bytes) (result : Status)
      → Ends (after_connect os client_fd client_ip server_ip dest_ip result)
  unfolding after_connect
  after_connect-Ends client_fd client_ip server_ip dest_ip failure = (_, refl)
  after_connect-Ends client_fd client_ip server_ip dest_ip success =
      exchange-Ends client_fd client_ip server_ip dest_ip

  after_socket-Ends :
      (client_ip server_ip dest_ip : Bytes) (fd : Option ℕ)
      → Ends (after_socket os client_ip server_ip dest_ip fd)
  unfolding after_socket
  after_socket-Ends client_ip server_ip dest_ip none = (_, refl)
  after_socket-Ends client_ip server_ip dest_ip (some client_fd) =
      after_connect-Ends client_fd client_ip server_ip dest_ip _

  if-Ends : (b : Bool) (x y : Option Run) → Ends x → Ends y → Ends (if b then x else y)
  if-Ends true x y h k = h
  if-Ends false x y h k = k

  with_names-Ends :
      (client_ip server_ip dest_ip : Option Bytes)
      → Ends (with_names os client_ip server_ip dest_ip)
  unfolding with_names with_addresses
  with_names-Ends none server_ip dest_ip = (_, refl)
  with_names-Ends (some client_ip) none dest_ip = (_, refl)
  with_names-Ends (some client_ip) (some server_ip) none = (_, refl)
  with_names-Ends (some client_ip) (some server_ip) (some dest_ip) =
      if-Ends _ _ _ (_, refl)
        (after_socket-Ends client_ip server_ip dest_ip (create_client_socket os.socket))

  -- For all arguments and all answers of the system calls the client's `main` ends without an
  -- access outside a block of memory, where the standard input is not empty and a reply comes that
  -- holds the end of its text in the block that receives it.
  pub client_main-Ends : (argv : List Bytes) → IsInput os.stdin → Ends (client_main os argv)
  unfolding client_main
  client_main-Ends [] input = (_, refl)
  client_main-Ends (program ∷ []) input = (_, refl)
  client_main-Ends (program ∷ a ∷ []) input = (_, refl)
  client_main-Ends (program ∷ a ∷ b ∷ []) input =
      let (name, e) = name_read os.stdin input in
      let (r, ends) = with_names-Ends (get_host_ip a) (get_host_ip b) (get_host_ip name) in
      (r, rw e ends)
  client_main-Ends (program ∷ a ∷ b ∷ c ∷ rest) input = (_, refl)
