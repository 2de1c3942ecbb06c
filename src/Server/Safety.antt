-- ===== src/Server/Safety.antt =====
-- The server on any bytes that come from the two networks.
use simple_vpn.Base.{
  ◌<◌, ◌^◌, success, failure, ℕ, suc, ◌≡◌, refl, ap, ◌∙◌, arith, List, [], ◌∷◌, ◌++◌, Option, none,
  some, Option-cases, inl, inr,
}
use simple_vpn.Memory.{Bytes}
use simple_vpn.Hosts.{get_host_ip}
use simple_vpn.Packet.Transfer.{serv_rec_from_cli, serv_rec_from_des}
use simple_vpn.Packet.Transfer.Safety.{IsPacket, IsDelivered, serv_rec_from_cli-IsPacket}
use simple_vpn.Packet.Transfer.Arrives.{
  arrives, length-arrives, arrives-IsBytes, serv_rec_from_des-arrives,
}
use simple_vpn.Packet.Parts.{plain_parts, tunnel_parts}
use simple_vpn.Process.{create_server_socket, accept_client_connection, returned, Event}
use simple_vpn.Process.Ends.{Ends, with_connection-Ends}
use simple_vpn.Server.{
  ServerOs, return_answer, serve, serve_received, serve_connection, with_server_ip, server_main,
}
use simple_vpn.Server.Answer.{answer_events}
use simple_vpn.Server.Forward.{serve_ends}

-- A message from the tunnel, if one comes, holds the end of its text in the block it is received into.
abbrev pub IsRequest : Option Bytes → Type 0
IsRequest none = Unit
IsRequest (some received) = IsDelivered 174 46 received

-- A message comes from the destination, and holds the end of its text likewise.
abbrev pub IsAnswer : Option Bytes → Type 0
IsAnswer none = ⊥
IsAnswer (some received) = IsDelivered 168 40 received

module _ (os : ServerOs) (slack : ℕ) (room : os.slack ≡ suc slack) where
  pub answer_ends :
      (server_fd new_socket client_ip : ℕ) (answer : Option Bytes)
      → IsAnswer answer
      → client_ip < 2 ^ 32
      → (dest : Option Bytes) × (events : List Event) × (serv_rec_from_des answer ≡ some dest)
        × (return_answer os server_fd new_socket client_ip dest ≡ some events)
  answer_ends server_fd new_socket client_ip none h small = absurd h
  answer_ends server_fd new_socket client_ip (some received) (bytes, ended) small =
      let (back, came) = serv_rec_from_des-arrives received bytes in
      let block = arrives 168 received in
      let size = length-arrives 168 received in
      let parts =
        plain_parts block (arrives-IsBytes 168 received bytes) (omega (arith, size)) ended in
      (
        some (block ++ back),
        _,
        came,
        ap (λ (b : Bytes). return_answer os server_fd new_socket client_ip (some (b ++ back)))
              parts.whole
            ∙ answer_events os server_fd new_socket client_ip slack parts.ip parts.tcp parts.text
                parts.rest back parts.ip_fits parts.tcp_fits parts.is_text parts.rest_bytes
                (omega (arith, size, parts.sizes)) small room,
      )

  serve_returns :
      (server_ip : Bytes) (server_fd new_socket : ℕ) (packet : Bytes)
      → IsPacket packet
      → IsAnswer os.recv_destination
      → Ends (serve os server_ip server_fd new_socket packet)
  serve_returns server_ip server_fd new_socket packet received answer =
      let p = tunnel_parts packet received in
      let (dest, events, came, answered) =
        answer_ends server_fd new_socket p.ip.ip_src os.recv_destination answer
          p.ip_fits.src_fits in
      let (r, ends) =
        serve_ends os server_ip server_fd new_socket p.gre p.ip p.tcp p.text p.rest p.gre_fits
          p.ip_fits p.tcp_fits p.is_text p.sizes dest events came answered in
      (r, ap (serve os server_ip server_fd new_socket) p.whole ∙ ends)

  connection_returns :
      (server_ip : Bytes) (server_fd new_socket : ℕ) (request : Option Bytes)
      → os.recv_client ≡ request
      → IsRequest request
      → IsAnswer os.recv_destination
      → Ends (serve_connection os server_ip server_fd new_socket)
  connection_returns server_ip server_fd new_socket none came h answer = (
    record { exit = returned failure; events = [] },
    unfold serve_connection serve_received serv_rec_from_cli in simp came,
  )
  connection_returns server_ip server_fd new_socket (some received) came h answer =
      let (packet, made, packed) = serv_rec_from_cli-IsPacket received h in
      let (r, ends) = serve_returns server_ip server_fd new_socket packet packed answer in
      (r, unfold serve_connection serve_received in rw (ap serv_rec_from_cli came ∙ made) ends)

  -- If the allocator gives at least one byte behind a block, then for all arguments and all
  -- answers of the system calls the server's `main` ends without an access outside a block of
  -- memory, where a message of the tunnel, if one comes, and the destination's message, which
  -- comes, hold the end of their text in the block that receives them.
  pub server_main-Ends :
      (argv : List Bytes)
      → IsRequest os.recv_client
      → IsAnswer os.recv_destination
      → Ends (server_main os argv)
  unfolding server_main
  server_main-Ends [] request answer = (_, refl)
  server_main-Ends (program ∷ []) request answer = (_, refl)
  server_main-Ends (program ∷ server_host_name ∷ []) request answer =
      elim (Option-cases (get_host_ip server_host_name)) [
        | inl unknown ↦
            (record { exit = returned success; events = [] }, unfold with_server_ip in rw unknown)
        | inr (server_ip, known) ↦
            let (r, ends) =
              with_connection-Ends (create_server_socket os.listening)
                (accept_client_connection os.listening) (serve_connection os server_ip)
                (λ server_fd new_socket.
                  connection_returns server_ip server_fd new_socket os.recv_client refl request
                    answer) in
            (r, unfold with_server_ip in rw known ends)
      ]
  server_main-Ends (program ∷ server_host_name ∷ more ∷ rest) request answer = (_, refl)
