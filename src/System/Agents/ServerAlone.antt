-- ===== src/System/Agents/ServerAlone.antt =====
-- The agent of the server on its own, against `serve_connection`.
use simple_vpn.Base.{
  ℕ, ◌+◌, List, [], ◌∷◌, ◌++◌, Bool, true, false, Option, none, some, ◌>>=◌, if◌then◌else◌, ◌≡◌,
  refl, ap, ◌∙◌, drop, Status, success, failure,
}
use simple_vpn.Memory.{Bytes, calloc, load32, read, c_string}
use simple_vpn.Address.{parse_ip_addr_to_str}
use simple_vpn.Protocol.{max_payload_size, sizeof_ip_hdr, sizeof_tcp_hdr, ip_dst_offset}
use simple_vpn.Packet.Transfer.{serv_rec_from_cli, serv_rec_from_des}
use simple_vpn.Packet.Handle.{serv_handle_pkt, save_client_ip}
use simple_vpn.Packet.Print.{Lines, print_packet}
use simple_vpn.Process.{
  returned, Event, printed, connected, sent, closed, create_client_socket, connect_to_server, Run,
  run,
}
use simple_vpn.Server.{
  ServerOs, return_answer, forward, to_destination, serve, serve_received, serve_connection,
}
use simple_vpn.System.Network.{Agent, puts, takes, ends, after, play}
use simple_vpn.System.Agents.{
  client, destination, ◌then◌, answer_agent, forward_agent, connect_agent, on_connection,
  serve_agent, request_agent, server_agent,
}
use simple_vpn.System.Agents.Played.{
  behind, after-after, play-then, play_then, play-emit, to_server,
}

module _ (os : ServerOs) (server_fd new_socket : ℕ) where
  answer_alone :
      (client_ip : ℕ) (events : List Event)
      → behind events
          (play (to_server os) (answer_agent os server_fd new_socket client_ip os.recv_destination))
        ≡ (serv_rec_from_des os.recv_destination >>= λ dest.
            return_answer os server_fd new_socket client_ip dest >>= λ more.
            run (returned success) (events ++ more))
  unfolding answer_agent
  answer_alone client_ip events =
      play-then (to_server os) events (serv_rec_from_des os.recv_destination) _ _ (λ dest.
        play-then (to_server os) events (return_answer os server_fd new_socket client_ip dest) _ _
          (λ more. ap (behind events) (play-emit (to_server os) client more (returned success))))

  forward_alone :
      (client_fd fixed_pkt : ℕ) (block dest_ip : Bytes) (client_ip : ℕ)
      → play
          (to_server os)
          (forward_agent os server_fd new_socket client_fd fixed_pkt block dest_ip client_ip)
        ≡ forward os server_fd new_socket client_fd fixed_pkt block dest_ip client_ip
  unfolding forward_agent forward
  forward_alone client_fd fixed_pkt block dest_ip client_ip =
      play_then (to_server os)
        (read (drop fixed_pkt block) (max_payload_size + sizeof_tcp_hdr + sizeof_ip_hdr)) _ _
        (λ bytes. sent_or_not bytes os.send_destination)
    where
      sent_or_not :
          (bytes : Bytes) (accepted : Bool)
          → after (connected client_fd dest_ip) (
              play (to_server os) (
                if accepted
                then puts destination client_fd bytes
                    (takes destination (answer_agent os server_fd new_socket client_ip))
                else ends (returned failure)))
            ≡ (if accepted
                then (serv_rec_from_des os.recv_destination >>= λ dest.
                    return_answer os server_fd new_socket client_ip dest >>= λ events.
                    run
                      (returned success)
                      (connected client_fd dest_ip ∷ sent client_fd bytes ∷ events))
                else run (returned failure) (connected client_fd dest_ip ∷ []))
      sent_or_not bytes true =
          after-after (connected client_fd dest_ip) (sent client_fd bytes) _
          ∙ answer_alone client_ip (connected client_fd dest_ip ∷ sent client_fd bytes ∷ [])
      sent_or_not bytes false = refl

  connect_alone :
      (client_fd fixed_pkt : ℕ) (block : Bytes) (client_ip : ℕ)
      → play
          (to_server os)
          (connect_agent os server_fd new_socket client_fd fixed_pkt block client_ip)
        ≡ to_destination os server_fd new_socket client_fd fixed_pkt block client_ip
  unfolding connect_agent to_destination
  connect_alone client_fd fixed_pkt block client_ip =
      play_then (to_server os) (load32 block (fixed_pkt + ip_dst_offset)) _ _ (λ ip_dst.
        play_then (to_server os) (parse_ip_addr_to_str (calloc 16) ip_dst) _ _ (λ dest_block.
          play_then (to_server os) (c_string dest_block) _ _
            (λ dest_ip. by_result dest_ip (connect_to_server os.inet_pton os.connect dest_ip))))
    where
      by_result :
          (dest_ip : Bytes) (result : Status)
          → play (to_server os) (
              on_connection result client_fd
                (forward_agent os server_fd new_socket client_fd fixed_pkt block dest_ip client_ip))
            ≡ (elim result as (λ x. Option Run) [
              | failure ↦ run (returned failure) (closed client_fd ∷ [])
              | success ↦
                  forward os server_fd new_socket client_fd fixed_pkt block dest_ip client_ip
            ])
      by_result dest_ip failure = refl
      by_result dest_ip success = forward_alone client_fd fixed_pkt block dest_ip client_ip

  serve_alone :
      (server_ip rec_packet : Bytes)
      → play (to_server os) (serve_agent os server_ip server_fd new_socket (some rec_packet))
        ≡ serve os server_ip server_fd new_socket rec_packet
  unfolding serve_agent serve
  serve_alone server_ip rec_packet =
      play_then (to_server os) (print_packet rec_packet 0) _ _ (λ lines.
        play_then (to_server os) (save_client_ip rec_packet 0) _ _ (λ client_ip.
          play_then (to_server os) (serv_handle_pkt rec_packet 0 server_ip) _ _
            (λ fixed. by_socket lines client_ip fixed.0 fixed.1 (create_client_socket os.socket))))
    where
      by_socket :
          (lines : Lines) (client_ip fixed_pkt : ℕ) (block : Bytes) (fd : Option ℕ)
          → after (printed lines) (
              play (to_server os) (elim fd as (λ x. Agent) [
                | none ↦ ends (returned failure)
                | some client_fd ↦
                    connect_agent os server_fd new_socket client_fd fixed_pkt block client_ip
              ]))
            ≡ ((elim fd as (λ x. Option Run) [
              | none ↦ run (returned failure) []
              | some client_fd ↦
                  to_destination os server_fd new_socket client_fd fixed_pkt block client_ip
            ])
                >>= λ rest. run rest.exit (printed lines ∷ rest.events))
      by_socket lines client_ip fixed_pkt block none = refl
      by_socket lines client_ip fixed_pkt block (some client_fd) =
          ap (after (printed lines)) (connect_alone client_fd fixed_pkt block client_ip)

  pub server_alone :
      (server_ip : Bytes)
      → play (to_server os) (server_agent os server_ip server_fd new_socket)
        ≡ serve_connection os server_ip server_fd new_socket
  unfolding server_agent request_agent serve_agent serve_connection serve_received
  server_alone server_ip =
      play_then (to_server os) (serv_rec_from_cli os.recv_client) _ _
        (λ rec_packet. by_packet rec_packet)
    where
      by_packet :
          (rec_packet : Option Bytes)
          → play (to_server os) (serve_agent os server_ip server_fd new_socket rec_packet)
            ≡ serve_received os server_ip server_fd new_socket rec_packet
      by_packet none = refl
      by_packet (some rec_packet) = serve_alone server_ip rec_packet
