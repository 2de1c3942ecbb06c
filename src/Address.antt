-- ===== src/Address.antt =====
-- src/host_info.c: IPv4 addresses read from and printed as dotted text. The text is the content of a
-- C string. `int octet` is its bit pattern, a `uint32_t`; where a signed sum overflows, which C
-- leaves undefined, the pattern wraps.
pub mod Print
pub mod RoundTrip
use simple_vpn.Base.{
  ℕ, zero, suc, ◌+◌, ◌-◌, ◌*◌, ◌/◌, ◌%◌, ◌^◌, [], ◌∷◌, ◌++◌, Option, if◌then◌else◌, ltb, ◌==◌, u32,
  ◌<<<◌, ◌>>>◌, bit_or,
}
use simple_vpn.Memory.{Bytes, write}

-- A `char`, which is signed, converted to `int`.
pub char_to_int : ℕ → ℕ
char_to_int c = if ltb c 128 then c else c + (2 ^ 32 - 256)

-- The inner loop: the octet at its end, and the text from `start` on.
pub octet_loop : Bytes → ℕ → ℕ × Bytes
unfolding char_to_int
octet_loop [] octet = (octet, [])
octet_loop (c ∷ start) octet =
    if c == b'.'
    then (octet, c ∷ start)
    else octet_loop start (u32 (octet * 10 + (char_to_int c + 2 ^ 32 - b'0')))

-- `if (*start == '.') start++`
pub skip_dot : Bytes → Bytes
skip_dot [] = []
skip_dot (c ∷ start) = if c == b'.' then start else c ∷ start

-- The outer loop, with `left` octets to go.
pub parse_loop : ℕ → ℕ → Bytes → ℕ
unfolding octet_loop skip_dot
parse_loop zero val start = val
parse_loop (suc left) val start =
    let (octet, stop) = octet_loop start 0 in
    parse_loop left (bit_or (u32 (val <<< 8)) octet) (skip_dot stop)

pub parse_ip_addr : Bytes → ℕ
unfolding parse_loop
parse_ip_addr ip = parse_loop 4 0 ip

-- The decimal digits of a number in front of a text, with fuel.
unfoldable pub decimal_loop : ℕ → ℕ → Bytes → Bytes
decimal_loop zero n rest = rest
decimal_loop (suc fuel) n rest =
    let more = decimal_loop fuel (n / 10) ((b'0' + n % 10) ∷ rest) in
    if ltb n 10 then (b'0' + n) ∷ rest else more

-- `%d` of a number below 2 ^ 31, which has at most ten digits.
unfoldable pub decimal : ℕ → Bytes
unfolding decimal_loop
decimal n = decimal_loop 10 n []

-- What the format "%d.%d.%d.%d" makes of its arguments.
unfoldable pub dotted : ℕ → ℕ → ℕ → ℕ → Bytes
unfolding decimal
dotted a b c d = decimal a ++ (b'.' ∷ (decimal b ++ (b'.' ∷ (decimal c ++ (b'.' ∷ decimal d)))))

-- The text of an address.
unfoldable pub address_text : ℕ → Bytes
unfolding dotted
address_text ip_addr =
    dotted (ip_addr >>> 24) ((ip_addr >>> 16) % 256) ((ip_addr >>> 8) % 256) (ip_addr % 256)

-- sprintf into the block at `str_ip_addr`, the final NUL included.
pub parse_ip_addr_to_str : Bytes → ℕ → Option Bytes
unfolding address_text write
parse_ip_addr_to_str str_ip_addr ip_addr = write str_ip_addr 0 (address_text ip_addr ++ 0 ∷ [])
