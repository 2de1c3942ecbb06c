-- ===== src/Server/Relay.antt =====
-- The server between a client and a destination: the packet out and the answer back.
use simple_vpn.Base.{
  ℕ, suc, ◌+◌, ◌-◌, ◌≤◌, ◌≡◌, ap, arith, [], ◌∷◌, ◌++◌, sym, ◌∙◌, true, some, length, length-append,
  append_assoc, replicate-add, success,
}
use simple_vpn.Memory.{Bytes, IsBytes, IsText, calloc}
use simple_vpn.Memory.Laws.{IsBytes-append, IsBytes-zeros, IsText-IsBytes}
use simple_vpn.Address.{address_text}
use simple_vpn.Protocol.{
  GreHdr, gre_bytes, IpHdr, ip_bytes, TcpHdr, tcp_bytes, IsGreHdr, IsIpHdr, IsTcpHdr,
}
use simple_vpn.Packet.Headers.Layout.{vpn_gre}
use simple_vpn.Packet.Create.Shape.{calloc_eq, length-calloc}
use simple_vpn.Packet.Transfer.{serv_rec_from_des}
use simple_vpn.Packet.Transfer.Receive.{recv_into_zeros}
use simple_vpn.Packet.Transfer.Send.{wire}
use simple_vpn.Packet.Print.Fields.{gre_shown, ip_shown, tcp_shown, text_shown}
use simple_vpn.Process.{
  returned, printed, connected, sent, closed, shut_down, run, create_client_socket,
  connect_to_server,
}
use simple_vpn.Server.{ServerOs, serve}
use simple_vpn.Server.Forward.{from_server, serve_forwards}
use simple_vpn.Server.Answer.{for_client, return_answer_lem}

-- Up to 168 bytes from the destination come into a block of 174, of zeros.
pub serv_rec_from_des_lem :
    (received : Bytes) (n : ℕ)
    → length received + n ≡ 168
    → IsBytes received
    → serv_rec_from_des (some received) ≡ some (some (received ++ (calloc n ++ calloc 6)))
serv_rec_from_des_lem received n size bytes =
    unfold serv_rec_from_des in
    rw (recv_into_zeros 174 received (omega (arith, size)) bytes) (
      ap (λ (z : Bytes). some (some (received ++ z)))
        (calloc_eq (174 - length received) (n + 6) (omega (arith, size)) ∙ replicate-add n 6 0))

-- A block that holds a packet with no GRE header is the packet with a longer payload.
longer_payload :
    (front s rest back more : Bytes)
    → (front ++ (s ++ 0 ∷ rest)) ++ (back ++ more) ≡ (front ++ (s ++ 0 ∷ (rest ++ back))) ++ more
longer_payload front s rest back more =
    sym (append_assoc (front ++ (s ++ 0 ∷ rest)) back more)
    ∙ ap (λ (b : Bytes). b ++ more)
        (append_assoc front (s ++ 0 ∷ rest) back
          ∙ ap (λ (b : Bytes). front ++ b) (append_assoc s (0 ∷ rest) back))

-- Every call succeeds, and the allocator gives at least one byte behind a block.
pub record IsServing (os : ServerOs) (client_fd : ℕ) (server : Bytes) (slack : ℕ) : Type 0 where
  pub opened : create_client_socket os.socket ≡ some client_fd
  pub connects : connect_to_server os.inet_pton os.connect server ≡ success
  pub sends_on : os.send_destination ≡ true
  pub sends_back : os.send_client ≡ true
  pub room : os.slack ≡ suc slack

module _ (os : ServerOs) (server_ip : Bytes) (server_fd new_socket client_fd slack : ℕ) (g : GreHdr)
    (h h' : IpHdr) (t t' : TcpHdr) (s rest s' rest' : Bytes) where
  -- For a well-formed packet from the client and an answer of the destination of up to 168 bytes
  -- with well-formed headers and a text ended by NUL, if every call succeeds and the allocator
  -- gives at least one byte behind a block, `serve` does exactly these things in order: prints the
  -- packet, connects to its destination, sends it with no GRE header, with the server as the
  -- source and a new checksum, prints the answer with a GRE header, the client as the destination
  -- and a new checksum, sends its headers and text to the client under the key, closes the
  -- client's socket and shuts down its own; it returns success.
  pub serve_relays :
      IsGreHdr g
      → IsIpHdr h
      → IsTcpHdr t
      → IsText s
      → length (s ++ 0 ∷ rest) ≡ 128
      → IsIpHdr h'
      → IsTcpHdr t'
      → IsText s'
      → IsBytes rest'
      → length s' + length rest' ≤ 127
      → IsServing os client_fd (address_text h.ip_dst) slack
      → os.recv_destination ≡ some (ip_bytes h' ++ (tcp_bytes t' ++ (s' ++ 0 ∷ rest')))
      → let answer_ip = for_client h' h.ip_src in
        serve os server_ip server_fd new_socket
          (gre_bytes g ++ (ip_bytes h ++ (tcp_bytes t ++ (s ++ 0 ∷ rest))))
        ≡ run (returned success) (
            printed (gre_shown g ++ (ip_shown h ++ (tcp_shown t ++ text_shown s)))
            ∷ connected client_fd (address_text h.ip_dst)
            ∷ sent client_fd
                (ip_bytes (from_server h server_ip) ++ (tcp_bytes t ++ (s ++ 0 ∷ rest)))
            ∷ printed (gre_shown vpn_gre ++ (ip_shown answer_ip ++ (tcp_shown t' ++ text_shown s')))
            ∷ sent new_socket (wire (gre_bytes vpn_gre ++ (ip_bytes answer_ip ++ tcp_bytes t')) s')
            ∷ closed new_socket
            ∷ shut_down server_fd
            ∷ [])
  serve_relays gre_fits ip_fits tcp_fits text size ip_fits' tcp_fits' text' bytes' size' serving
        came =
      let n = 127 - (length s' + length rest') in
      let z = rest' ++ calloc n in
      let z_bytes : IsBytes z = IsBytes-append rest' (calloc n) bytes' (IsBytes-zeros n) in
      let size_z : length s' + length z ≡ 127 =
        omega (arith, size', length-append rest' (calloc n), length-calloc n) in
      let whole : length (ip_bytes h' ++ (tcp_bytes t' ++ (s' ++ 0 ∷ rest'))) + n ≡ 168 =
        omega (arith, size', length-append s' (0 ∷ rest')) in
      let bytes =
        IsBytes-append (ip_bytes h' ++ tcp_bytes t') (s' ++ 0 ∷ rest') (omega arith)
          (IsBytes-append s' (0 ∷ rest') (IsText-IsBytes s' text') (omega arith, bytes')) in
      serve_forwards os server_ip server_fd new_socket g h t s rest gre_fits ip_fits tcp_fits text
        size client_fd (some ((ip_bytes h' ++ (tcp_bytes t' ++ (s' ++ 0 ∷ z))) ++ calloc 6)) _
        serving.opened serving.connects serving.sends_on
        (ap serv_rec_from_des came
          ∙ serv_rec_from_des_lem (ip_bytes h' ++ (tcp_bytes t' ++ (s' ++ 0 ∷ rest'))) n whole bytes
          ∙ ap (λ (b : Bytes). some (some b))
              (longer_payload (ip_bytes h' ++ tcp_bytes t') s' rest' (calloc n) (calloc 6)))
        (return_answer_lem os server_fd new_socket h.ip_src slack h' t' s' z (calloc 6) ip_fits'
          tcp_fits' text' z_bytes size_z ip_fits.src_fits serving.room serving.sends_back)
