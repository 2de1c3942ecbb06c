-- ===== src/Packet/Print/Fields.antt =====
-- The lines that are printed for a packet.
use simple_vpn.Base.{
  ◌%◌, ℕ, ◌+◌, ◌^◌, ◌<◌, ◌≡◌, refl, arith, [], ◌∷◌, ◌++◌, true, some, u8, bit_and, ◌==◌, ==_iff,
  holds_below, holds_below_at, length, drop,
}
use simple_vpn.Memory.{Bytes, IsText, c_string, calloc}
use simple_vpn.Memory.Laws.{word16, word32, c_string-append}
use simple_vpn.Address.{address_text}
use simple_vpn.Address.RoundTrip.{parse_ip_addr_to_str_lem, address_text-IsText}
use simple_vpn.Hosts.{chars}
use simple_vpn.Protocol.{
  GreHdr, gre_bytes, IpHdr, ip_bytes, TcpHdr, tcp_bytes, IsGreHdr, IsIpHdr, IsTcpHdr,
}
use simple_vpn.Packet.Print.{
  Lines, rule, heading, number, string, print_gre_header, tcp_lines, ip_lines, payload_lines,
  print_packet, print_packet_unencap,
}

-- The lines that show a header, or a text, field by field.
pub gre_shown : GreHdr → Lines
gre_shown g =
    rule
    ∷ heading (chars "[ GRE header ]")
    ∷ number (chars "c:\t") g.c
    ∷ number (chars "protocol:\t") g.protocol
    ∷ number (chars "gre_sum:\t") g.gre_sum
    ∷ []

-- Of the byte with the data offset only the low four bits are printed.
pub tcp_shown : TcpHdr → Lines
tcp_shown t =
    rule
    ∷ heading (chars "[ TCP header ]")
    ∷ number (chars "src_port: ") t.src_port
    ∷ number (chars "dst_port: ") t.dst_port
    ∷ number (chars "seq_num: ") t.seq_num
    ∷ number (chars "ack_num: ") t.ack_num
    ∷ number (chars "data_offset: ") (t.data_offset % 16)
    ∷ number (chars "flags: ") t.flags
    ∷ number (chars "window: ") t.window
    ∷ number (chars "tcp_sum: ") t.tcp_sum
    ∷ number (chars "urgent_pointer: ") t.urgent_pointer
    ∷ []

pub ip_shown : IpHdr → Lines
ip_shown h =
    rule
    ∷ heading (chars "[ IP header ]")
    ∷ number (chars "ip_tos: ") h.ip_tos
    ∷ number (chars "ip_len: ") h.ip_len
    ∷ number (chars "ip_id: ") h.ip_id
    ∷ number (chars "ip_off: ") h.ip_off
    ∷ number (chars "ip_ttl: ") h.ip_ttl
    ∷ number (chars "ip_p: ") h.ip_p
    ∷ number (chars "ip_sum: ") h.ip_sum
    ∷ string (chars "ip_src: ") (address_text h.ip_src)
    ∷ string (chars "ip_dst: ") (address_text h.ip_dst)
    ∷ []

pub text_shown : Bytes → Lines
text_shown s = rule ∷ string (chars "Payload msg: ") s ∷ []

low_nibble_table : holds_below (λ x. bit_and (u8 x) 0x0f == x % 16) 256 ≡ true
unfolding holds_below
low_nibble_table = refl

low_nibble : (x : ℕ) → x < 256 → bit_and (u8 x) 0x0f ≡ x % 16
low_nibble x h =
    (==_iff _ _).0 (holds_below_at (λ x. bit_and (u8 x) 0x0f == x % 16) 256 low_nibble_table x h)

byte_kept : (x : ℕ) → x < 256 → u8 x ≡ x
byte_kept x h = omega arith

-- The string that an address makes in its block of 16 bytes.
pub address_string :
    (ip : ℕ)
    → ip < 2 ^ 32
    → c_string (address_text ip ++ 0 ∷ drop (length (address_text ip) + 1) (calloc 16))
      ≡ some (address_text ip)
address_string ip h = c_string-append (address_text ip) _ (address_text-IsText ip h)

pub ip_lines_lem :
    (h : IpHdr) (rest : Bytes) → IsIpHdr h → ip_lines (ip_bytes h ++ rest) 0 ≡ some (ip_shown h)
unfolding ip_lines ip_shown
ip_lines_lem h rest fits = rw (
  word32 h.ip_src fits.src_fits,
  word32 h.ip_dst fits.dst_fits,
  parse_ip_addr_to_str_lem (calloc 16) h.ip_src (omega arith) fits.src_fits,
  parse_ip_addr_to_str_lem (calloc 16) h.ip_dst (omega arith) fits.dst_fits,
  address_string h.ip_src fits.src_fits,
  address_string h.ip_dst fits.dst_fits,
  byte_kept h.ip_tos fits.tos_fits,
  word16 h.ip_len fits.len_fits,
  word16 h.ip_id fits.id_fits,
  word16 h.ip_off fits.off_fits,
  byte_kept h.ip_ttl fits.ttl_fits,
  byte_kept h.ip_p fits.p_fits,
  word16 h.ip_sum fits.sum_fits,
)

pub tcp_lines_lem :
    (t : TcpHdr) (rest : Bytes)
    → IsTcpHdr t
    → tcp_lines (tcp_bytes t ++ rest) 0 ≡ some (tcp_shown t)
unfolding tcp_lines tcp_shown
tcp_lines_lem t rest fits = rw (
  word16 t.src_port fits.src_port_fits,
  word16 t.dst_port fits.dst_port_fits,
  word32 t.seq_num fits.seq_num_fits,
  word32 t.ack_num fits.ack_num_fits,
  low_nibble t.data_offset fits.data_offset_fits,
  byte_kept t.flags fits.flags_fits,
  word16 t.window fits.window_fits,
  word16 t.tcp_sum fits.tcp_sum_fits,
  word16 t.urgent_pointer fits.urgent_pointer_fits,
)

pub gre_lines_lem :
    (g : GreHdr) (rest : Bytes)
    → IsGreHdr g
    → print_gre_header (gre_bytes g ++ rest) 0 ≡ some (gre_shown g)
unfolding print_gre_header gre_shown
gre_lines_lem g rest fits = rw (
  word16 g.c fits.c_fits,
  word16 g.protocol fits.protocol_fits,
  word16 g.gre_sum fits.gre_sum_fits,
)

pub payload_lines_lem :
    (s rest : Bytes) → IsText s → payload_lines (s ++ 0 ∷ rest) 0 ≡ some (text_shown s)
unfolding payload_lines text_shown
payload_lines_lem s rest text = rw (c_string-append s rest text)

-- Behind other headers the same lines are printed.
tcp_lines_behind : (h : IpHdr) (rest : Bytes) → tcp_lines (ip_bytes h ++ rest) 20 ≡ tcp_lines rest 0
unfolding tcp_lines
tcp_lines_behind h rest = refl

payload_lines_behind :
    (h : IpHdr) (t : TcpHdr) (rest : Bytes)
    → payload_lines (ip_bytes h ++ (tcp_bytes t ++ rest)) 40 ≡ payload_lines rest 0
unfolding payload_lines
payload_lines_behind h t rest = refl

module _ (g : GreHdr) (h : IpHdr) (rest : Bytes) where
  pub ip_lines_behind : ip_lines (gre_bytes g ++ rest) 6 ≡ ip_lines rest 0
  unfolding ip_lines
  ip_lines_behind = refl

  pub tcp_lines_behind_both : tcp_lines (gre_bytes g ++ (ip_bytes h ++ rest)) 26 ≡ tcp_lines rest 0
  unfolding tcp_lines
  tcp_lines_behind_both = refl

module _ (g : GreHdr) (h : IpHdr) (t : TcpHdr) (rest : Bytes) where
  pub payload_lines_behind_all :
      payload_lines (gre_bytes g ++ (ip_bytes h ++ (tcp_bytes t ++ rest))) 46 ≡ payload_lines rest 0
  unfolding payload_lines
  payload_lines_behind_all = refl

-- `print_packet` of a packet with three well-formed headers and a text ended by NUL prints the
-- fields as stored, the addresses as dotted text, and the text.
pub print_packet_lem :
    (g : GreHdr) (h : IpHdr) (t : TcpHdr) (s rest : Bytes)
    → IsGreHdr g
    → IsIpHdr h
    → IsTcpHdr t
    → IsText s
    → print_packet (gre_bytes g ++ (ip_bytes h ++ (tcp_bytes t ++ (s ++ 0 ∷ rest)))) 0
      ≡ some (gre_shown g ++ (ip_shown h ++ (tcp_shown t ++ text_shown s)))
print_packet_lem g h t s rest gre_fits ip_fits tcp_fits text =
    let payload = s ++ 0 ∷ rest in
    unfold print_packet in
    rw (
      gre_lines_lem g (ip_bytes h ++ (tcp_bytes t ++ payload)) gre_fits,
      ip_lines_behind g h (ip_bytes h ++ (tcp_bytes t ++ payload)),
      ip_lines_lem h (tcp_bytes t ++ payload) ip_fits,
      tcp_lines_behind_both g h (tcp_bytes t ++ payload),
      tcp_lines_lem t payload tcp_fits,
      payload_lines_behind_all g h t payload,
      payload_lines_lem s rest text,
    )

-- `print_packet_unencap` of a packet with no GRE header, two well-formed headers and a text ended
-- by NUL prints the fields as stored, the addresses as dotted text, and the text.
pub print_packet_unencap_lem :
    (h : IpHdr) (t : TcpHdr) (s rest : Bytes)
    → IsIpHdr h
    → IsTcpHdr t
    → IsText s
    → print_packet_unencap (ip_bytes h ++ (tcp_bytes t ++ (s ++ 0 ∷ rest))) 0
      ≡ some (ip_shown h ++ (tcp_shown t ++ text_shown s))
print_packet_unencap_lem h t s rest ip_fits tcp_fits text =
    let payload = s ++ 0 ∷ rest in
    unfold print_packet_unencap in
    rw (
      ip_lines_lem h (tcp_bytes t ++ payload) ip_fits,
      tcp_lines_behind h (tcp_bytes t ++ payload),
      tcp_lines_lem t payload tcp_fits,
      payload_lines_behind h t payload,
      payload_lines_lem s rest text,
    )
