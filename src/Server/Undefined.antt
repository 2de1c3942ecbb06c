-- ===== src/Server/Undefined.antt =====
-- Where the server accesses memory outside a block.
use simple_vpn.Base.{
  ℕ, suc, ◌≡◌, ◌↔◌, ◌⊎◌, refl, sym, ap, ◌∙◌, [], ◌∷◌, ◌++◌, true, false, Option, none, some, ◌>>=◌,
  inl, inr, length, Bool-cases, Option-cases, some_not_none, Status, success, failure,
}
use simple_vpn.Memory.{Bytes, IsText}
use simple_vpn.Address.{address_text}
use simple_vpn.Protocol.{
  GreHdr, gre_bytes, IpHdr, ip_bytes, TcpHdr, tcp_bytes, IsGreHdr, IsIpHdr, IsTcpHdr,
}
use simple_vpn.Packet.Handle.Rewrite.{serv_handle_pkt_lem, save_client_ip_lem}
use simple_vpn.Packet.Transfer.{serv_rec_from_des}
use simple_vpn.Packet.Print.Fields.{print_packet_lem}
use simple_vpn.Process.{returned, connected, Run, run, create_client_socket, connect_to_server}
use simple_vpn.Process.Ends.{Ends}
use simple_vpn.Server.{ServerOs, return_answer, forward, serve}
use simple_vpn.Server.Forward.{
  from_server, shown, shown_then, connected_then, read-decapsulated, serve_forwards,
  serve_unconnected,
}
use simple_vpn.Packet.Transfer.Arrives.{IsReceived}
use simple_vpn.Server.Lost.{IsLost, IsLost-cases, answer_fails}
use simple_vpn.Server.Safety.{IsAnswer, answer_ends}

not_both : {o : Option Run} → Ends o → o ≡ none → ⊥
not_both (r, ends) undefined = some_not_none (sym ends ∙ undefined)

module _ (os : ServerOs) (server_ip : Bytes) (server_fd new_socket : ℕ) (g : GreHdr) (h : IpHdr)
    (t : TcpHdr) (s rest : Bytes) (gre_fits : IsGreHdr g) (ip_fits : IsIpHdr h)
    (tcp_fits : IsTcpHdr t) (text : IsText s) (size : length (s ++ 0 ∷ rest) ≡ 128) where
  abbrev packet : Bytes
  packet = gre_bytes g ++ (ip_bytes h ++ (tcp_bytes t ++ (s ++ 0 ∷ rest)))

  abbrev served : Option Run
  served = serve os server_ip server_fd new_socket packet

  -- The packet goes out to its destination.
  abbrev pub IsForwarded : Type 0
  IsForwarded =
      (client_fd : ℕ) × (create_client_socket os.socket ≡ some client_fd)
      × (connect_to_server os.inet_pton os.connect (address_text h.ip_dst) ≡ success)
      × (os.send_destination ≡ true)

  abbrev behind_shown : Option Run → Option Run
  behind_shown m = m >>= λ r. run r.exit (
      shown os server_ip server_fd new_socket g h t s rest gre_fits ip_fits tcp_fits text size
      ++ r.events)

  abbrev sent_on : ℕ → Option Run
  sent_on client_fd =
      forward os server_fd new_socket client_fd 6
        (gre_bytes g ++ (ip_bytes (from_server h server_ip) ++ (tcp_bytes t ++ (s ++ 0 ∷ rest))))
        (address_text h.ip_dst) h.ip_src

  socket_missing : create_client_socket os.socket ≡ none → Ends served
  socket_missing missing = (
    record {
      exit = returned failure;
      events =
          shown os server_ip server_fd new_socket g h t s rest gre_fits ip_fits tcp_fits text size;
    },
    unfold serve in
        rw
          (
            print_packet_lem g h t s rest gre_fits ip_fits tcp_fits text,
            save_client_ip_lem g h (tcp_bytes t ++ (s ++ 0 ∷ rest)) ip_fits.src_fits,
            serv_handle_pkt_lem g h (tcp_bytes t ++ (s ++ 0 ∷ rest)) server_ip ip_fits,
            missing,
          )
          refl,
  )

  forwarded_then :
      (client_fd : ℕ) (o : Option Run)
      → create_client_socket os.socket ≡ some client_fd
      → connect_to_server os.inet_pton os.connect (address_text h.ip_dst) ≡ success
      → sent_on client_fd ≡ o
      → served ≡ behind_shown o
  forwarded_then client_fd o opened connects goes_on =
      shown_then os server_ip server_fd new_socket g h t s rest gre_fits ip_fits tcp_fits text size
        client_fd opened
      ∙ ap behind_shown (
          connected_then os server_ip server_fd new_socket g h t s rest gre_fits ip_fits tcp_fits
            text size client_fd success connects
          ∙ goes_on)

  sending_fails : (client_fd : ℕ) → os.send_destination ≡ false → Ends (sent_on client_fd)
  unfolding forward
  sending_fails client_fd fails = (
    record { exit = returned failure; events = connected client_fd (address_text h.ip_dst) ∷ [] },
    rw
        (
          read-decapsulated os server_ip server_fd new_socket g h t s rest gre_fits ip_fits tcp_fits
              text size,
          fails,
        )
        refl,
  )

  answer_missing :
      (client_fd : ℕ) (dest : Option Bytes)
      → os.send_destination ≡ true
      → serv_rec_from_des os.recv_destination ≡ some dest
      → return_answer os server_fd new_socket h.ip_src dest ≡ none
      → sent_on client_fd ≡ none
  unfolding forward
  answer_missing client_fd dest sends came undefined =
      rw
        (
          read-decapsulated os server_ip server_fd new_socket g h t s rest gre_fits ip_fits tcp_fits
              text size,
          came,
          undefined,
          sends,
        )
        refl

  -- Where the answer is not lost, the server ends.
  answered-Ends :
      (slack : ℕ) → os.slack ≡ suc slack → IsForwarded → IsAnswer os.recv_destination → Ends served
  answered-Ends slack room (client_fd, opened, connects, sends) answer =
      let (dest, events, came, answered) =
        answer_ends os slack room server_fd new_socket h.ip_src os.recv_destination answer
          ip_fits.src_fits in
      (
        _,
        serve_forwards os server_ip server_fd new_socket g h t s rest gre_fits ip_fits tcp_fits text
            size client_fd dest events opened connects sends came answered,
      )

  -- A packet that does not go out lets the server end.
  forwarded_cases : Ends served ⊎ IsForwarded
  forwarded_cases = elim (Option-cases (create_client_socket os.socket)) [
    | inl missing ↦ inl (socket_missing missing)
    | inr (client_fd, opened) ↦
        by_connection client_fd opened
          (connect_to_server os.inet_pton os.connect (address_text h.ip_dst)) refl
  ]
    where
      by_sending :
          (client_fd : ℕ)
          → create_client_socket os.socket ≡ some client_fd
          → connect_to_server os.inet_pton os.connect (address_text h.ip_dst) ≡ success
          → Ends served ⊎ IsForwarded
      by_sending client_fd opened connects = elim (Bool-cases os.send_destination) [
        | inl sends ↦ inr (client_fd, opened, connects, sends)
        | inr fails ↦
            let (r, ends) = sending_fails client_fd fails in
            inl (_, forwarded_then client_fd (some r) opened connects ends)
      ]

      by_connection :
          (client_fd : ℕ)
          → create_client_socket os.socket ≡ some client_fd
          → (result : Status)
          → connect_to_server os.inet_pton os.connect (address_text h.ip_dst) ≡ result
          → Ends served ⊎ IsForwarded
      by_connection client_fd opened failure fails = inl (
        _,
        serve_unconnected os server_ip server_fd new_socket g h t s rest gre_fits ip_fits tcp_fits
            text size client_fd opened fails,
      )
      by_connection client_fd opened success connects = by_sending client_fd opened connects

  -- For a packet with three well-formed headers and 128 bytes of payload that hold a text ended by
  -- NUL, if the allocator gives at least one byte behind a block, then for all other answers of
  -- the system calls `serve` accesses memory outside a block exactly where it gets a socket,
  -- connects, sends the packet on, and then `recv` from the destination fails, or brings 168 bytes
  -- or more with no NUL among those of the payload.
  pub serve_undefined_iff :
      (slack : ℕ)
      → os.slack ≡ suc slack
      → IsReceived os.recv_destination
      → (served ≡ none) ↔ (IsForwarded × IsLost os.recv_destination)
  serve_undefined_iff slack room bytes = (
    λ undefined. elim forwarded_cases [
      | inl ends ↦ absurd (not_both ends undefined)
      | inr out ↦ elim (IsLost-cases os.recv_destination bytes) [
        | inl lost ↦ (out, lost)
        | inr answer ↦ absurd (not_both (answered-Ends slack room out answer) undefined)
      ]
    ],
    λ ((client_fd, opened, connects, sends), lost).
        let (dest, came, undefined) =
          answer_fails os server_fd new_socket h.ip_src ip_fits.src_fits os.recv_destination bytes
            lost in
        forwarded_then client_fd none opened connects
          (answer_missing client_fd dest sends came undefined),
  )
