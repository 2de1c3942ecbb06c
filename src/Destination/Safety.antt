-- ===== src/Destination/Safety.antt =====
-- The destination on any bytes that come from the server.
use simple_vpn.Base.{
  ℕ, ◌≡◌, refl, ap, ◌∙◌, arith, List, [], ◌∷◌, Option, none, some, inl, inr, Option-cases, success,
  failure,
}
use simple_vpn.Memory.{Bytes}
use simple_vpn.Hosts.{get_host_ip}
use simple_vpn.Packet.Transfer.{dest_rec_pkt}
use simple_vpn.Packet.Transfer.Safety.{IsDelivered}
use simple_vpn.Packet.Transfer.Arrives.{
  arrives, length-arrives, arrives-IsBytes, dest_rec_pkt-arrives,
}
use simple_vpn.Packet.Parts.{plain_parts}
use simple_vpn.Process.{returned}
use simple_vpn.Process.Ends.{Ends, with_connection-Ends}
use simple_vpn.Destination.{
  create_dest_socket, accept_dest_connection, DestinationOs, respond, respond_received,
  respond_connection, with_host_ip, destination_main,
}
use simple_vpn.Destination.Respond.{respond-outcome, outcome-Ends}

-- A message from the server, if one comes, holds the end of its text in the block it is received into.
abbrev pub IsForwarded : Option Bytes → Type 0
IsForwarded none = Unit
IsForwarded (some received) = IsDelivered 168 40 received

module _ (os : DestinationOs) where
  connection-Ends :
      (host_ip : Bytes) (dest_fd new_socket : ℕ) (message : Option Bytes)
      → os.recv ≡ message
      → IsForwarded message
      → Ends (respond_connection os host_ip dest_fd new_socket)
  connection-Ends host_ip dest_fd new_socket none came h = (
    record { exit = returned failure; events = [] },
    unfold respond_connection respond_received dest_rec_pkt in simp came,
  )
  connection-Ends host_ip dest_fd new_socket (some received) came (bytes, ended) =
      let size = length-arrives 168 received in
      let p =
        plain_parts (arrives 168 received) (arrives-IsBytes 168 received bytes)
          (omega (arith, size)) ended in
      let (r, ends) = outcome-Ends os host_ip dest_fd new_socket p.ip p.tcp p.text p.rest os.send in
      (
        r,
        unfold respond_connection respond_received in
            rw (ap dest_rec_pkt came ∙ dest_rec_pkt-arrives received bytes) (
              ap (respond os host_ip dest_fd new_socket) p.whole
              ∙ respond-outcome os host_ip dest_fd new_socket p.ip p.tcp p.text p.rest p.ip_fits
                  p.tcp_fits p.is_text
              ∙ ends),
      )

  -- For all arguments and all answers of the system calls the destination's `main` ends without an
  -- access outside a block of memory, where a message, if one comes, holds the end of its text in
  -- the block that receives it.
  pub destination_main-Ends :
      (argv : List Bytes) → IsForwarded os.recv → Ends (destination_main os argv)
  unfolding destination_main
  destination_main-Ends [] h = (_, refl)
  destination_main-Ends (program ∷ []) h = (_, refl)
  destination_main-Ends (program ∷ dest_host_name ∷ []) h =
      elim (Option-cases (get_host_ip dest_host_name)) [
        | inl unknown ↦
            (record { exit = returned success; events = [] }, unfold with_host_ip in rw unknown)
        | inr (host_ip, known) ↦
            let (r, ends) =
              with_connection-Ends (create_dest_socket os.listening)
                (accept_dest_connection os.listening) (respond_connection os host_ip)
                (λ dest_fd new_socket. connection-Ends host_ip dest_fd new_socket os.recv refl h) in
            (r, unfold with_host_ip in rw known ends)
      ]
  destination_main-Ends (program ∷ dest_host_name ∷ more ∷ rest) h = (_, refl)
