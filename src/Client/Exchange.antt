-- ===== src/Client/Exchange.antt =====
-- What the client does once it is connected.
use simple_vpn.Base.{
  ℕ, ◌≤◌, ◌≡◌, refl, sym, ap, ◌∙◌, arith, [], ◌∷◌, ◌++◌, true, Bool, some, length, success,
}
use simple_vpn.Memory.{Bytes, IsBytes, IsText, calloc}
use simple_vpn.Memory.Laws.{IsBytes-append}
use simple_vpn.Cipher.Laws.{IsBytes-mask}
use simple_vpn.Cipher.Loop.{mask}
use simple_vpn.Hosts.{chars}
use simple_vpn.Protocol.{
  GreHdr, gre_bytes, IpHdr, ip_bytes, TcpHdr, tcp_bytes, IsGreHdr, IsIpHdr, IsTcpHdr,
  ip_protocol_tcp, tcp_flag_syn,
}
use simple_vpn.Packet.Create.Shape.{vpn_headers}
use simple_vpn.Packet.Create.Encrypted.{vpn_headers-IsBytes, encrypted_packet, create_packets_shape}
use simple_vpn.Packet.Transfer.{sending, send_and_free_packet_vpn, serv_rec_from_cli}
use simple_vpn.Packet.Transfer.Receive.{clear_prefix, clear_prefix-IsText}
use simple_vpn.Packet.Transfer.Send.{wire, wire_received, sent_wire}
use simple_vpn.Packet.Print.{Lines, print_packet}
use simple_vpn.Packet.Print.Fields.{gre_shown, ip_shown, tcp_shown, text_shown, print_packet_lem}
use simple_vpn.Process.{returned, printed, connected, sent, closed, run}
use simple_vpn.Client.{ClientOs, exchange}
use simple_vpn.Protocol.Decode.{
  gre_at, ip_at, tcp_at, headers_at, gre_at-IsGreHdr, ip_at-IsIpHdr, tcp_at-IsTcpHdr,
}

abbrev pub payload : Bytes
payload = chars "payload"

pub payload-IsText : IsText payload
payload-IsText = omega arith

hidden_payload-IsText : IsText (mask 46 payload)
hidden_payload-IsText = omega arith

-- The client's packet.
abbrev pub packet : Bytes → Bytes → Bytes
packet client_ip dest_ip = encrypted_packet (vpn_headers client_ip dest_ip tcp_flag_syn) payload

-- What the client prints of it: the fields of the three headers and the text as they are under the key.
abbrev pub request_shown : Bytes → Bytes → Lines
request_shown client_ip dest_ip =
    let bytes = packet client_ip dest_ip in
    gre_shown (gre_at bytes)
    ++ (ip_shown (ip_at bytes) ++ (tcp_shown (tcp_at bytes) ++ text_shown (mask 46 payload)))

packet-IsBytes : (client_ip dest_ip : Bytes) → IsBytes (packet client_ip dest_ip)
packet-IsBytes client_ip dest_ip =
    let front = vpn_headers client_ip dest_ip tcp_flag_syn in
    let behind : IsBytes (mask 46 payload ++ 0 ∷ mask 54 (calloc 120)) = omega arith in
    IsBytes-append (mask 0 front) (mask 46 payload ++ 0 ∷ mask 54 (calloc 120))
      (IsBytes-mask 0 front (vpn_headers-IsBytes client_ip dest_ip tcp_flag_syn)) behind

pub packet_printed :
    (client_ip dest_ip : Bytes)
    → print_packet (packet client_ip dest_ip) 0 ≡ some (request_shown client_ip dest_ip)
packet_printed client_ip dest_ip =
    let bytes = packet client_ip dest_ip in
    let fits = packet-IsBytes client_ip dest_ip in
    ap (λ (b : Bytes). print_packet b 0) (sym (headers_at bytes fits (omega arith)))
    ∙ print_packet_lem (gre_at bytes) (ip_at bytes) (tcp_at bytes) (mask 46 payload)
        (mask 54 (calloc 120)) (gre_at-IsGreHdr bytes fits) (ip_at-IsIpHdr bytes fits)
        (tcp_at-IsTcpHdr bytes fits) hidden_payload-IsText

module _ (os : ClientOs) (client_fd : ℕ) (client_ip server_ip dest_ip : Bytes) (g : GreHdr)
    (h : IpHdr) (t : TcpHdr) (s : Bytes) where
  abbrev pub request : Bytes
  request = wire (vpn_headers client_ip dest_ip tcp_flag_syn) payload

  abbrev reply_headers : Bytes
  reply_headers = gre_bytes g ++ (ip_bytes h ++ tcp_bytes t)

  reply_headers-IsBytes : IsBytes reply_headers
  reply_headers-IsBytes = omega arith

  -- If `send` succeeds and the reply is three well-formed headers and a text of up to 127 bytes
  -- under the key, `exchange` prints the client's packet (the fields that stand at their places in
  -- the bytes that `create_packets` made, under the key, and the text under the key), sends the
  -- packet's headers and text, prints the reply's headers and its text up to the first byte equal
  -- to the key byte at its place, closes the socket and returns success.
  pub exchange_lem :
      IsGreHdr g
      → IsIpHdr h
      → IsTcpHdr t
      → IsText s
      → length s ≤ 127
      → os.send ≡ true
      → os.recv ≡ some (wire reply_headers s)
      → exchange os client_fd client_ip server_ip dest_ip
        ≡ run (returned success) (
            connected client_fd server_ip
            ∷ printed (request_shown client_ip dest_ip)
            ∷ sent client_fd request
            ∷ printed
                (gre_shown g ++ (ip_shown h ++ (tcp_shown t ++ text_shown (clear_prefix 46 s))))
            ∷ closed client_fd
            ∷ [])
  exchange_lem gre_fits ip_fits tcp_fits text fits sends came =
      let (rest, restored, _, _) =
        wire_received reply_headers s refl reply_headers-IsBytes text fits in
      let went : send_and_free_packet_vpn os.send (packet client_ip dest_ip) ip_protocol_tcp 7
          ≡ some (sending true request) =
        ap (λ (b : Bool). send_and_free_packet_vpn b (packet client_ip dest_ip) ip_protocol_tcp 7)
          sends
        ∙ sent_wire true (vpn_headers client_ip dest_ip tcp_flag_syn) payload refl (omega arith) in
      unfold exchange in
      rw (
        create_packets_shape client_ip dest_ip payload tcp_flag_syn payload-IsText (omega arith),
        packet_printed client_ip dest_ip,
        went,
        ap serv_rec_from_cli came ∙ restored,
        print_packet_lem g h t (clear_prefix 46 s) rest gre_fits ip_fits tcp_fits
            (clear_prefix-IsText 46 s text),
      )
