-- ===== src/System/Translation.antt =====
-- The server as a translator of addresses: what a packet says, without how it is laid out, and the
-- changes to that in either direction.
use simple_vpn.Base.{
  ℕ, ◌≡◌, ◌≢◌, refl, sym, ap, ap₂, ◌∙◌, arith, List, [], ◌∷◌, ◌++◌, true, false, Option, some,
  ◌>>=◌, ◌==◌, if◌then◌else◌, drop, eq_of_some, subst, success,
}
use simple_vpn.Memory.{Bytes, IsText, load32, c_string}
use simple_vpn.Memory.Laws.{word32, c_string-append}
use simple_vpn.Address.{parse_ip_addr, address_text}
use simple_vpn.Protocol.{gre_bytes, IpHdr, ip_bytes, TcpHdr, tcp_bytes, IsIpHdr}
use simple_vpn.Packet.Headers.Layout.{vpn_gre}
use simple_vpn.Packet.Transfer.{serv_rec_from_cli, serv_rec_from_des}
use simple_vpn.Packet.Transfer.Receive.{clear_prefix, clear_prefix-IsText}
use simple_vpn.Packet.Transfer.Safety.{IsPacket, IsDelivered}
use simple_vpn.Packet.Transfer.Arrives.{
  arrives, length-arrives, arrives-IsBytes, serv_rec_from_des-arrives,
}
use simple_vpn.Packet.Transfer.Send.{wire, wire_received}
use simple_vpn.Packet.Parts.{tunnel_parts, plain_parts}
use simple_vpn.Process.{returned, Event, printed, connected, sent, closed, shut_down, run}
use simple_vpn.Server.{ServerOs, serve, return_answer}
use simple_vpn.Server.Answer.{for_client, for_client-IsIpHdr, return_answer_lem}
use simple_vpn.Server.Forward.{from_server, from_server-IsIpHdr, serve_forwards}
use simple_vpn.Server.Relay.{IsServing}

-- A message as its reader sees it.
pub record Message : Type 0 where
  pub src : ℕ
  pub dst : ℕ
  pub text : Bytes

-- The message of a packet that starts with its IP header, and of one that has a GRE header in front.
unfoldable pub plain_message : Bytes → Option Message
plain_message b = do
  src ← load32 b 12
  dst ← load32 b 16
  text ← c_string (drop 40 b)
  some (record { src = src; dst = dst; text = text })

unfoldable pub tunnel_message : Bytes → Option Message
tunnel_message b = plain_message (drop 6 b)

-- The translation, in both directions.
abbrev pub outbound : ℕ → Message → Message
outbound server m = record m { src = server }

abbrev pub inbound : ℕ → Message → Message
inbound client m = record m { dst = client }

-- The cipher's effect on a message: the text ends where a byte is hidden as NUL.
abbrev pub tunnelled : Message → Message
tunnelled m = record m { text = clear_prefix 46 m.text }

-- What a run sends through a socket, and where it connects to.
abbrev pub sent_through : ℕ → List Event → List Bytes
sent_through fd [] = []
sent_through fd (sent n bytes ∷ events) =
    let rest = sent_through fd events in if n == fd then bytes ∷ rest else rest
sent_through fd (printed lines ∷ events) = sent_through fd events
sent_through fd (connected n address ∷ events) = sent_through fd events
sent_through fd (closed n ∷ events) = sent_through fd events
sent_through fd (shut_down n ∷ events) = sent_through fd events

abbrev pub connections : List Event → List Bytes
connections [] = []
connections (connected n address ∷ events) = address ∷ connections events
connections (sent n bytes ∷ events) = connections events
connections (printed lines ∷ events) = connections events
connections (closed n ∷ events) = connections events
connections (shut_down n ∷ events) = connections events

plain_message_lem :
    (h : IpHdr) (t : TcpHdr) (s rest : Bytes)
    → IsIpHdr h
    → IsText s
    → plain_message (ip_bytes h ++ (tcp_bytes t ++ (s ++ 0 ∷ rest)))
      ≡ some (record { src = h.ip_src; dst = h.ip_dst; text = s })
unfolding plain_message load32
plain_message_lem h t s rest fits text =
    rw (word32 h.ip_src fits.src_fits, word32 h.ip_dst fits.dst_fits, c_string-append s rest text)

-- The three fields of the message are those of the headers and the text.
message_parts :
    (h : IpHdr) (t : TcpHdr) (s rest : Bytes) (m : Message) (b : Bytes)
    → IsIpHdr h
    → IsText s
    → b ≡ ip_bytes h ++ (tcp_bytes t ++ (s ++ 0 ∷ rest))
    → plain_message b ≡ some m
    → (record { src = h.ip_src; dst = h.ip_dst; text = s }) ≡ m
message_parts h t s rest m b fits text whole seen =
    eq_of_some (sym (plain_message_lem h t s rest fits text) ∙ sym (ap plain_message whole) ∙ seen)

other_socket : (m n : ℕ) → m ≢ n → (m == n) ≡ false
other_socket m n differ = ground arith

same_socket : (n : ℕ) → (n == n) ≡ true
same_socket n = ground arith

module _ (os : ServerOs) (server_ip : Bytes) (server_fd new_socket client_fd slack : ℕ)
    (distinct : client_fd ≢ new_socket) (packet received : Bytes) (m n : Message) where
  -- For a received packet that holds the message `m`, an answer of the destination that holds the
  -- message `n`, system calls that succeed, a byte behind a block, and two different sockets:
  -- `serve` returns success, connects once, to the destination of `m`; sends one packet there,
  -- which holds `m` with the server as its source; and sends one packet to the client, from which
  -- the client's receiver restores `n` with the sender of `m` as its destination, its text cut
  -- where the cipher hides a byte as NUL.
  pub serve_translates :
      IsPacket packet
      → tunnel_message packet ≡ some m
      → IsServing os client_fd (address_text m.dst) slack
      → os.recv_destination ≡ some received
      → IsDelivered 168 40 received
      → plain_message (arrives 168 received) ≡ some n
      → (events : List Event) × (forwarded : Bytes) × (reply : Bytes) × (restored : Bytes) × (serve
            os server_ip server_fd new_socket packet
          ≡ run (returned success) events)
        × (connections events ≡ address_text m.dst ∷ [])
        × (sent_through client_fd events ≡ forwarded ∷ [])
        × (plain_message forwarded ≡ some (outbound (parse_ip_addr server_ip) m))
        × (sent_through new_socket events ≡ reply ∷ [])
        × (serv_rec_from_cli (some reply) ≡ some (some restored))
        × (tunnel_message restored ≡ some (tunnelled (inbound m.src n)))
  serve_translates packed seen serving came (bytes, ended) answered =
      let p = tunnel_parts packet packed in
      let block = arrives 168 received in
      let size = length-arrives 168 received in
      let q = plain_parts block (arrives-IsBytes 168 received bytes) (omega (arith, size)) ended in
      let (back, block_came) = serv_rec_from_des-arrives received bytes in
      let asked : (record { src = p.ip.ip_src; dst = p.ip.ip_dst; text = p.text }) ≡ m =
        message_parts p.ip p.tcp p.text p.rest m (drop 6 packet) p.ip_fits p.is_text
          (ap (λ (b : Bytes). drop 6 b) p.whole) (unfold tunnel_message in seen) in
      let told : (record { src = q.ip.ip_src; dst = q.ip.ip_dst; text = q.text }) ≡ n =
        message_parts q.ip q.tcp q.text q.rest n block q.ip_fits q.is_text q.whole answered in
      let to_dst : p.ip.ip_dst ≡ m.dst = ap (λ (x : Message). x.dst) asked in
      let serving' : IsServing os client_fd (address_text p.ip.ip_dst) slack =
        subst (λ (ip : ℕ). IsServing os client_fd (address_text ip) slack) (sym to_dst) serving in
      let reply_ip = for_client q.ip p.ip.ip_src in
      let reply_fits = for_client-IsIpHdr q.ip p.ip.ip_src q.ip_fits p.ip_fits.src_fits in
      let reply_headers = gre_bytes vpn_gre ++ (ip_bytes reply_ip ++ tcp_bytes q.tcp) in
      let (rest, restored, _, _) =
        wire_received reply_headers q.text refl (omega arith) q.is_text
          (omega (arith, size, q.sizes)) in
      let fixed = from_server p.ip server_ip in
      (
        _,
        ip_bytes fixed ++ (tcp_bytes p.tcp ++ (p.text ++ 0 ∷ p.rest)),
        wire reply_headers q.text,
        reply_headers ++ (clear_prefix 46 q.text ++ 0 ∷ rest),
        ap (serve os server_ip server_fd new_socket) p.whole
            ∙ serve_forwards os server_ip server_fd new_socket p.gre p.ip p.tcp p.text p.rest
                p.gre_fits p.ip_fits p.tcp_fits p.is_text p.sizes client_fd (some (block ++ back)) _
                serving'.opened serving'.connects serving'.sends_on
                (ap serv_rec_from_des came ∙ block_came)
                (ap
                    (λ (b : Bytes).
                      return_answer os server_fd new_socket p.ip.ip_src (some (b ++ back)))
                    q.whole
                  ∙ return_answer_lem os server_fd new_socket p.ip.ip_src slack q.ip q.tcp q.text
                      q.rest back q.ip_fits q.tcp_fits q.is_text q.rest_bytes
                      (omega (arith, size, q.sizes)) p.ip_fits.src_fits serving'.room
                      serving'.sends_back),
        ap (λ (ip : ℕ). address_text ip ∷ []) to_dst,
        rw (same_socket client_fd, other_socket new_socket client_fd (λ e. distinct (sym e))),
        plain_message_lem fixed p.tcp p.text p.rest (from_server-IsIpHdr p.ip server_ip p.ip_fits)
              p.is_text
            ∙ ap (λ (x : Message). some (outbound (parse_ip_addr server_ip) x)) asked,
        rw (same_socket new_socket, other_socket client_fd new_socket distinct),
        restored,
        unfold tunnel_message in
            plain_message_lem reply_ip q.tcp (clear_prefix 46 q.text) rest reply_fits
              (clear_prefix-IsText 46 q.text q.is_text)
            ∙ ap₂ (λ (x y : Message). some (tunnelled (inbound x.src y))) asked told,
      )
