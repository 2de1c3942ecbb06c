-- ===== src/Server/Forward.antt =====
-- What the server does with a packet of the client.
use simple_vpn.Base.{
  Option-cases, Bool-cases, inl, inr, refl, ℕ, ◌≡◌, ap, arith, List, [], ◌∷◌, ◌++◌, append-nil, sym,
  ◌∙◌, true, Option, some, ◌>>=◌, length, Status, success, failure,
}
use simple_vpn.Memory.{Bytes, IsText, calloc, load32, read}
use simple_vpn.Memory.Laws.{read-append, word32}
use simple_vpn.Address.{parse_ip_addr, address_text}
use simple_vpn.Address.RoundTrip.{parse_ip_addr-lt, parse_ip_addr_to_str_lem}
use simple_vpn.Protocol.{
  GreHdr, gre_bytes, IpHdr, ip_bytes, TcpHdr, tcp_bytes, IsGreHdr, IsIpHdr, IsTcpHdr,
}
use simple_vpn.Packet.Handle.Rewrite.{
  view_sum-lt, view_sum, serv_handle_pkt_lem, save_client_ip_lem,
}
use simple_vpn.Packet.Transfer.{serv_rec_from_des}
use simple_vpn.Packet.Print.Fields.{
  gre_shown, ip_shown, tcp_shown, text_shown, print_packet_lem, address_string,
}
use simple_vpn.Process.{
  returned, Event, printed, connected, sent, closed, Run, run, create_client_socket,
  connect_to_server,
}
use simple_vpn.Server.{ServerOs, return_answer, forward, to_destination, serve}

pub read_whole : (xs : Bytes) (n : ℕ) → length xs ≡ n → read xs n ≡ some xs
read_whole xs n e =
    ap (λ (b : Bytes). read b n) (sym (append-nil xs))
    ∙ ap (read (xs ++ [])) (sym e)
    ∙ read-append xs []

-- The IP header that leaves the server.
abbrev pub from_server : IpHdr → Bytes → IpHdr
from_server h server_ip =
    let own = record h { ip_src = parse_ip_addr server_ip } in record own { ip_sum = view_sum own }

pub from_server-IsIpHdr :
    (h : IpHdr) (server_ip : Bytes) → IsIpHdr h → IsIpHdr (from_server h server_ip)
from_server-IsIpHdr h server_ip fits =
    let own = record h { ip_src = parse_ip_addr server_ip } in
    record {
      hl_fits = fits.hl_fits;
      v_fits = fits.v_fits;
      tos_fits = fits.tos_fits;
      len_fits = fits.len_fits;
      id_fits = fits.id_fits;
      off_fits = fits.off_fits;
      ttl_fits = fits.ttl_fits;
      p_fits = fits.p_fits;
      sum_fits = view_sum-lt own;
      src_fits = parse_ip_addr-lt server_ip;
      dst_fits = fits.dst_fits;
    }

module _ (os : ServerOs) (server_ip : Bytes) (server_fd new_socket : ℕ) (g : GreHdr) (h : IpHdr)
    (t : TcpHdr) (s rest : Bytes) (gre_fits : IsGreHdr g) (ip_fits : IsIpHdr h)
    (tcp_fits : IsTcpHdr t) (text : IsText s) (size : length (s ++ 0 ∷ rest) ≡ 128) where
  abbrev packet : Bytes
  packet = gre_bytes g ++ (ip_bytes h ++ (tcp_bytes t ++ (s ++ 0 ∷ rest)))

  abbrev pub shown : List Event
  shown = printed (gre_shown g ++ (ip_shown h ++ (tcp_shown t ++ text_shown s))) ∷ []

  abbrev decapsulated : Bytes
  decapsulated = ip_bytes (from_server h server_ip) ++ (tcp_bytes t ++ (s ++ 0 ∷ rest))

  dst_loaded : load32 (gre_bytes g ++ decapsulated) 22 ≡ some h.ip_dst
  unfolding load32
  dst_loaded = rw (word32 h.ip_dst ip_fits.dst_fits)

  pub shown_then :
      (client_fd : ℕ)
      → create_client_socket os.socket ≡ some client_fd
      → serve os server_ip server_fd new_socket packet ≡ (
          to_destination os server_fd new_socket client_fd 6 (gre_bytes g ++ decapsulated) h.ip_src
          >>= λ r. run r.exit (shown ++ r.events))
  shown_then client_fd opened =
      unfold serve in
      rw (
        print_packet_lem g h t s rest gre_fits ip_fits tcp_fits text,
        save_client_ip_lem g h (tcp_bytes t ++ (s ++ 0 ∷ rest)) ip_fits.src_fits,
        serv_handle_pkt_lem g h (tcp_bytes t ++ (s ++ 0 ∷ rest)) server_ip ip_fits,
        opened,
      )

  -- What happens with each result of the connection.
  abbrev on_connection : ℕ → Status → Option Run
  on_connection client_fd failure = run (returned failure) (closed client_fd ∷ [])
  on_connection client_fd success =
      forward os server_fd new_socket client_fd 6 (gre_bytes g ++ decapsulated)
        (address_text h.ip_dst) h.ip_src

  pub connected_then :
      (client_fd : ℕ) (result : Status)
      → connect_to_server os.inet_pton os.connect (address_text h.ip_dst) ≡ result
      → to_destination os server_fd new_socket client_fd 6 (gre_bytes g ++ decapsulated) h.ip_src
        ≡ on_connection client_fd result
  connected_then client_fd result connects =
      unfold to_destination in
      rw
        (
          dst_loaded,
          parse_ip_addr_to_str_lem (calloc 16) h.ip_dst (omega arith) ip_fits.dst_fits,
          address_string h.ip_dst ip_fits.dst_fits,
        )
        (ap
            (λ (connection : Status). elim connection as (λ x. Option Run) [
              | failure ↦ on_connection client_fd failure
              | success ↦ on_connection client_fd success
            ])
            connects
          ∙ by_result result)
    where
      by_result :
          (result : Status)
          → (elim result as (λ x. Option Run) [
            | failure ↦ on_connection client_fd failure
            | success ↦ on_connection client_fd success
          ])
            ≡ on_connection client_fd result
      by_result success = refl
      by_result failure = refl

  pub read-decapsulated : read decapsulated 168 ≡ some decapsulated
  read-decapsulated = read_whole decapsulated 168 (omega (arith, size))

  -- For a packet with three well-formed headers and 128 bytes of payload that hold a text ended by
  -- NUL, if the socket, the connection to the packet's destination and the sending succeed, and
  -- the run from the packet of the destination on does some events, `serve` prints the packet,
  -- connects, sends the packet with no GRE header, with the server as the source and a new
  -- checksum, goes on with those events, and returns success.
  pub serve_forwards :
      (client_fd : ℕ) (rec_packet_dest : Option Bytes) (events : List Event)
      → create_client_socket os.socket ≡ some client_fd
      → connect_to_server os.inet_pton os.connect (address_text h.ip_dst) ≡ success
      → os.send_destination ≡ true
      → serv_rec_from_des os.recv_destination ≡ some rec_packet_dest
      → return_answer os server_fd new_socket h.ip_src rec_packet_dest ≡ some events
      → serve os server_ip server_fd new_socket packet
        ≡ run (returned success) (
            shown
            ++ (connected client_fd (address_text h.ip_dst) ∷ sent client_fd decapsulated ∷ events))
  serve_forwards client_fd rec_packet_dest events opened connects sends came answered =
      shown_then client_fd opened
      ∙ ap (λ (m : Option Run). m >>= λ r. run r.exit (shown ++ r.events))
          (connected_then client_fd success connects ∙ sent_on)
    where
      sent_on :
          forward os server_fd new_socket client_fd 6
            (gre_bytes g ++ decapsulated)
            (address_text h.ip_dst)
            h.ip_src
          ≡ run
              (returned success)
              (connected client_fd (address_text h.ip_dst) ∷ sent client_fd decapsulated ∷ events)
      sent_on = unfold forward in simp (read-decapsulated, came, answered, sends)

  -- For a packet with three well-formed headers and 128 bytes of payload that hold a text ended by
  -- NUL, if a socket is opened and the connection to the packet's destination fails, `serve`
  -- prints the packet, closes the socket, sends nothing and returns -1.
  pub serve_unconnected :
      (client_fd : ℕ)
      → create_client_socket os.socket ≡ some client_fd
      → connect_to_server os.inet_pton os.connect (address_text h.ip_dst) ≡ failure
      → serve os server_ip server_fd new_socket packet
        ≡ run (returned failure) (shown ++ closed client_fd ∷ [])
  serve_unconnected client_fd opened fails =
      shown_then client_fd opened
      ∙ ap (λ (m : Option Run). m >>= λ r. run r.exit (shown ++ r.events))
          (connected_then client_fd failure fails)

  -- Where the answer can be handled, the server ends, whatever the calls return.
  pub serve_ends :
      (dest : Option Bytes) (events : List Event)
      → serv_rec_from_des os.recv_destination ≡ some dest
      → return_answer os server_fd new_socket h.ip_src dest ≡ some events
      → (r : Run) × (serve os server_ip server_fd new_socket packet ≡ some r)
  serve_ends dest events came answered = elim (Option-cases (create_client_socket os.socket)) [
    | inl no_socket ↦ (
      record { exit = returned failure; events = shown },
      unfold serve in
          rw (
            print_packet_lem g h t s rest gre_fits ip_fits tcp_fits text,
            save_client_ip_lem g h (tcp_bytes t ++ (s ++ 0 ∷ rest)) ip_fits.src_fits,
            serv_handle_pkt_lem g h (tcp_bytes t ++ (s ++ 0 ∷ rest)) server_ip ip_fits,
            no_socket,
          ),
    )
    | inr (client_fd, opened) ↦
        let (r, e) =
          by_connection client_fd
            (connect_to_server os.inet_pton os.connect (address_text h.ip_dst)) refl in
        (
          _,
          shown_then client_fd opened
              ∙ ap (λ (m : Option Run). m >>= λ r. run r.exit (shown ++ r.events)) e,
        )
  ]
    where
      sent_or_not : (client_fd : ℕ) → (r : Run) × (on_connection client_fd success ≡ some r)
      sent_or_not client_fd = elim (Bool-cases os.send_destination) [
        | inl sends ↦ (
          record {
            exit = returned success;
            events =
                connected client_fd (address_text h.ip_dst) ∷ sent client_fd decapsulated ∷ events;
          },
          unfold forward in simp (read-decapsulated, came, answered, sends),
        )
        | inr fails ↦ (
          record {
            exit = returned failure;
            events = connected client_fd (address_text h.ip_dst) ∷ [];
          },
          unfold forward in simp (read-decapsulated, came, fails),
        )
      ]

      by_connection :
          (client_fd : ℕ) (result : Status)
          → connect_to_server os.inet_pton os.connect (address_text h.ip_dst) ≡ result
          → (r : Run) × (to_destination os server_fd new_socket client_fd 6
                (gre_bytes g ++ decapsulated)
                h.ip_src
              ≡ some r)
      by_connection client_fd failure e = (_, connected_then client_fd failure e)
      by_connection client_fd success e =
          let (r, ends) = sent_or_not client_fd in (r, connected_then client_fd success e ∙ ends)
