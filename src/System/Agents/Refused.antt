-- ===== src/System/Agents/Refused.antt =====
-- The network of the programs when the server cannot reach the destination.
use simple_vpn.Base.{
  ℕ, zero, suc, ◌+◌, ◌≡◌, refl, arith, List, [], ◌∷◌, ◌++◌, true, false, some, length, replicate,
  success, failure, if◌then◌else◌, ◌==◌,
}
use simple_vpn.Memory.{Bytes}
use simple_vpn.Address.{address_text}
use simple_vpn.Protocol.{tcp_flag_syn}
use simple_vpn.Packet.Headers.Layout.{vpn_gre}
use simple_vpn.Packet.Create.Shape.{vpn_tcp}
use simple_vpn.Packet.Print.Fields.{gre_shown, ip_shown, tcp_shown, text_shown}
use simple_vpn.Process.{
  returned, printed, connected, sent, closed, create_client_socket, connect_to_server,
}
use simple_vpn.Client.{ClientOs}
use simple_vpn.Client.Exchange.{request_shown, payload}
use simple_vpn.Server.{ServerOs}
use simple_vpn.System.{request_ip, request_wire}
use simple_vpn.System.Network.{takes, ends, Net, move, steps}
use simple_vpn.System.Network.Turns.{Item, script, speak, hear, steps-speak, steps-hear}
use simple_vpn.System.Network.Hangups.{notice, steps-notice}
use simple_vpn.System.Network.Schedules.{IsFinal, ended_stands, schedule_ends}
use simple_vpn.System.Agents.{
  client, server, destination, reply_agent, client_agent, request_agent, server_agent,
}
use simple_vpn.System.Agents.Rounds.{fresh, done, trio, next_turn}
use simple_vpn.System.Agents.Scripts.{asks, client_asks}
use simple_vpn.System.Agents.Refusal.{
  noise_shown, gives_up, client_gives_up, refuses, server_refuses,
}

module _ (client_os : ClientOs) (server_os : ServerOs) (client_ip server_ip dest_ip : Bytes)
    (client_fd server_fd new_socket server_client_fd : ℕ) where
  -- The client and the server, connected, and no destination.
  abbrev pub start_refused : Net
  start_refused =
      trio (returned success) (client_agent client_os client_fd client_ip server_ip dest_ip)
        (server_agent server_os server_ip server_fd new_socket) (ends (returned success))

  abbrev refusal : List Item
  refusal = refuses client_ip server_ip dest_ip server_client_fd

  abbrev after_request : Net
  after_request =
      speak client (asks client_ip server_ip dest_ip client_fd)
        (takes server (reply_agent client_fd)) start_refused

  abbrev after_refusal : Net
  after_refusal =
      speak server refusal (ends (returned failure))
        (hear server client (script refusal (ends (returned failure))) after_request)

  abbrev at_end : Net
  at_end =
      speak client (gives_up client_fd) (ends (returned success))
        (notice client (script (gives_up client_fd) (ends (returned success))) after_refusal)

  at_end-IsFinal : IsFinal at_end
  unfolding move
  at_end-IsFinal zero = refl
  at_end-IsFinal (suc zero) = refl
  at_end-IsFinal (suc (suc n)) =
      let i = suc (suc n) in
      let not_client : (i == client) ≡ false = ground arith in
      let not_server : (i == server) ≡ false = ground arith in
      ended_stands i at_end (returned success) [] (rw (not_client, not_server) (idle i))
    where
      idle :
          (i : ℕ)
          → (if i == destination
              then fresh (ends (returned success))
              else done (returned success) [])
            ≡ done (returned success) []
      idle i = ground arith

  server_waits :
      server_agent server_os server_ip server_fd new_socket
      ≡ takes client (request_agent server_os server_ip server_fd new_socket)
  unfolding server_agent
  server_waits = refl

  abbrev schedule : List ℕ
  schedule = (replicate 3 client ++ replicate 3 server) ++ replicate 3 client

  -- In the network of a client and a server with no destination, if the client's `send` succeeds,
  -- the server gets a socket, and its connection to the destination fails, then after any steps
  -- that the scheduler picked it can go on, and after 9 steps in all no program can take a step:
  -- the server has printed the packet, closed the socket and returned -1, with nothing sent; the
  -- client has sent its packet, taken the end of the server for a packet of no bytes, printed the
  -- headers that the key alone makes, closed its socket and returned success.
  pub every_schedule_refused :
      (picked : List ℕ) (t : Net)
      → client_os.send ≡ true
      → create_client_socket server_os.socket ≡ some server_client_fd
      → connect_to_server server_os.inet_pton server_os.connect
          (address_text (request_ip client_ip server_ip dest_ip).ip_dst)
        ≡ failure
      → steps picked start_refused ≡ some t
      → (rest : List ℕ) × (end : Net) × (length picked + length rest ≡ 9)
        × (steps rest t ≡ some end)
        × IsFinal end
        × (end.nodes client
            ≡ done (returned success) (
                connected client_fd server_ip
                ∷ printed (request_shown client_ip dest_ip)
                ∷ sent client_fd (request_wire client_ip server_ip dest_ip)
                ∷ printed noise_shown
                ∷ closed client_fd
                ∷ []))
        × (end.nodes server
            ≡ done (returned failure) (
                printed (
                  gre_shown vpn_gre
                  ++ (ip_shown (request_ip client_ip server_ip dest_ip)
                      ++ (tcp_shown (vpn_tcp tcp_flag_syn) ++ text_shown payload)))
                ∷ closed server_client_fd
                ∷ []))
  every_schedule_refused picked t sends opened refused reached =
      let asking = client_asks client_ip server_ip dest_ip client_os client_fd sends in
      let asked =
        steps-speak client (asks client_ip server_ip dest_ip client_fd)
          (takes server (reply_agent client_fd)) start_refused asking in
      let refusing =
        steps-hear server client (request_agent server_os server_ip server_fd new_socket)
          (request_wire client_ip server_ip dest_ip) [] refusal (ends (returned failure))
          after_request server_waits refl
          (server_refuses client_ip server_ip dest_ip server_os server_fd new_socket
            server_client_fd opened refused) in
      let giving_up =
        steps-notice client server (reply_agent client_fd) (gives_up client_fd)
          (ends (returned success)) after_refusal refl refl refl (client_gives_up client_fd) in
      let whole : steps schedule start_refused ≡ some at_end =
        next_turn (replicate 3 client ++ replicate 3 server) (replicate 3 client) start_refused
          after_refusal at_end
          (next_turn (replicate 3 client) (replicate 3 server) start_refused after_request
            after_refusal asked refusing)
          giving_up in
      let (rest, count, ends_there) =
        schedule_ends schedule picked start_refused t at_end at_end-IsFinal whole reached in
      (rest, at_end, count, ends_there, at_end-IsFinal, refl, refl)
