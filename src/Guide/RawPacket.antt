-- ===== src/Guide/RawPacket.antt =====
-- doc/guide_mininet/examples/client_packet.c: a packet with its checksums, sent through a raw socket,
-- and server_packet.c, which shows the packets that arrive. The structs iphdr and tcphdr of the C library
-- are laid out as the headers of Protocol are, `doff` in the high half of its byte, `syn` the second bit of
-- the flags. `inet_addr` and `inet_ntoa` keep an address in the order of its octets.
-- `long` has 64 bits, and words are read from memory as a little-endian machine reads them.
pub mod Sum
pub mod Filled
pub mod Arrival
use simple_vpn.Base.{
  ℕ, zero, suc, ◌+◌, ◌-◌, ◌*◌, ◌%◌, ◌^◌, List, [], ◌∷◌, ◌++◌, Bool, Option, none, some, ◌>>=◌, u16,
  ◌>>>◌, bit_and, drop, take, length, swap16, swap32, ◌==◌, if◌then◌else◌, success,
}
use simple_vpn.Memory.{Bytes, calloc, load8, load16, load32, store16, write, read}
use simple_vpn.Address.{address_text}
use simple_vpn.Hosts.{chars}
use simple_vpn.Protocol.{
  bytes16, bytes32, IpHdr, ip_bytes, TcpHdr, tcp_bytes, sizeof_ip_hdr, sizeof_tcp_hdr,
  ip_sum_offset, ip_src_offset, ip_dst_offset, tcp_sum_offset,
}
use simple_vpn.Packet.Print.{Lines, number, string}
use simple_vpn.Process.{Run, returned, exited, sent, closed, run}

-- The loop over the words, and the odd byte at the end.
pub add_words : Bytes → ℕ → ℕ → Option ℕ
add_words ptr zero sum = some sum
add_words ptr (suc zero) sum = do oddbyte ← load8 ptr 0; some (sum + oddbyte)
add_words ptr (suc (suc nbytes)) sum = do
  word ← load16 ptr 0
  add_words (drop 2 ptr) nbytes (sum + word)

-- `~` of a `long`.
abbrev pub not64 : ℕ → ℕ
not64 n = 2 ^ 64 - 1 - n

-- The two steps that bring the carries back in, and the low 16 bits of the complement.
pub calculate_checksum : Bytes → ℕ → Option ℕ
calculate_checksum ptr nbytes = do
  total ← add_words ptr nbytes 0
  let sum = (total >>> 16) + bit_and total 0xffff
  let sum = sum + (sum >>> 16)
  some (u16 (not64 sum))

-- inet_addr("10.0.0.1") and inet_addr("10.0.0.2"), as a little-endian machine holds them.
abbrev pub source : ℕ
source = 10 + 1 * 2 ^ 24

abbrev pub dest : ℕ
dest = 10 + 2 * 2 ^ 24

-- IPPROTO_TCP
abbrev pub protocol_tcp : ℕ
protocol_tcp = 6

-- The IP header of a packet with so many bytes of data, its checksum not yet computed.
abbrev pub raw_ip : ℕ → IpHdr
raw_ip data_len = record {
  ip_hl = 5;
  ip_v = 4;
  ip_tos = 0;
  ip_len = u16 (sizeof_ip_hdr + sizeof_tcp_hdr + data_len);
  ip_id = swap16 54321;
  ip_off = 0;
  ip_ttl = 255;
  ip_p = protocol_tcp;
  ip_sum = 0;
  ip_src = source;
  ip_dst = dest;
}

abbrev pub raw_tcp : TcpHdr
raw_tcp = record {
  src_port = swap16 1234;
  dst_port = swap16 5432;
  seq_num = swap32 1;
  ack_num = 0;
  data_offset = 5 * 16;
  flags = 2;
  window = swap16 5840;
  tcp_sum = 0;
  urgent_pointer = 0;
}

-- struct pseudo_header
abbrev pub pseudo_header : ℕ → Bytes
pseudo_header data_len =
    bytes32 source
    ++ (bytes32 dest ++ (0 ∷ protocol_tcp ∷ bytes16 (swap16 (u16 (sizeof_tcp_hdr + data_len)))))

-- The checksum of the IP header is taken of the whole packet, whose rest is still zero.
pub fill_ip : Bytes → ℕ → Option Bytes
unfolding calculate_checksum
fill_ip packet data_len = do
  let header = raw_ip data_len
  packet ← write packet 0 (ip_bytes header)
  sum ← calculate_checksum packet header.ip_len
  store16 packet ip_sum_offset sum

pub fill_tcp : Bytes → Bytes → Option Bytes
unfolding calculate_checksum
fill_tcp packet payload = do
  let data_len = length payload
  packet ← write packet sizeof_ip_hdr (tcp_bytes raw_tcp)
  packet ← write packet (sizeof_ip_hdr + sizeof_tcp_hdr) payload
  segment ← read (drop sizeof_ip_hdr packet) (sizeof_tcp_hdr + data_len)
  sum ← calculate_checksum (pseudo_header data_len ++ segment) (12 + (sizeof_tcp_hdr + data_len))
  store16 packet (sizeof_ip_hdr + tcp_sum_offset) sum

pub raw_packet : Bytes → Option Bytes
raw_packet payload = do packet ← fill_ip (calloc 1024) (length payload); fill_tcp packet payload

abbrev pub raw_data : Bytes
raw_data = chars "Hello, this is the payload!"

-- The answers of the operating system to the sender.
pub record RawOs : Type 0 where
  pub socket : Option ℕ
  pub setsockopt : Bool
  pub sendto : Bool

-- With a socket: 1023 bytes of the packet are sent.
pub send_raw : RawOs → Bytes → Option ℕ → Option Run
send_raw os packet none = run exited []
send_raw os packet (some sockfd) = do
  bytes ← read packet 1023
  if os.setsockopt
      then (if os.sendto
          then run (returned success) (sent sockfd bytes ∷ closed sockfd ∷ [])
          else run exited [])
      else run exited []

pub raw_main : RawOs → Option Run
raw_main os = do packet ← raw_packet raw_data; send_raw os packet os.socket

-- `print_packet` of server_packet.c. The TCP header stands where `ihl` says.
abbrev inet_ntoa : ℕ → Bytes
inet_ntoa address = address_text (swap32 address)

pub print_raw : Bytes → Option Lines
print_raw buffer = do
  first ← load8 buffer 0
  let tcp_header = first % 16 * 4
  protocol ← load8 buffer 9
  let shown : Option Lines = do
    src ← load32 buffer ip_src_offset
    dst ← load32 buffer ip_dst_offset
    src_port ← load16 buffer tcp_header
    dst_port ← load16 buffer (tcp_header + 2)
    some (
        string (chars "   Source IP: ") (inet_ntoa src)
        ∷ string (chars "   Destination IP: ") (inet_ntoa dst)
        ∷ number (chars "   Source Port: ") (swap16 src_port)
        ∷ number (chars "   Destination Port: ") (swap16 dst_port)
        ∷ [])
  if protocol == protocol_tcp then shown else some []

-- Its loop over the packets that `recvfrom` brings into the buffer of 65536 bytes. The list ends where
-- `recvfrom` fails, and the program with it.
pub show_packets : List Bytes → Bytes → Option (List Lines)
show_packets [] buffer = some []
show_packets (packet ∷ more) buffer = do
  buffer ← write buffer 0 (take 65536 packet)
  lines ← print_raw buffer
  rest ← show_packets more buffer
  some (lines ∷ rest)

-- `main` of server_packet.c, which ends where the socket or `recvfrom` fails, with 1.
pub raw_receiver : Bool → List Bytes → Bytes → Option (ℕ × List Lines)
raw_receiver opens packets buffer =
    if opens then (do shown ← show_packets packets buffer; some (1, shown)) else some (1, [])
