-- ===== src/Address/RoundTrip.antt =====
-- Printing an address and reading it back.
use simple_vpn.Base.{
  ℕ, suc, ◌+◌, ◌-◌, ◌*◌, ◌/◌, ◌%◌, ◌^◌, ◌≤◌, ◌<◌, ◌≡◌, ap, ◌∙◌, arith, [], ◌∷◌, ◌++◌, some, u32,
  bit_or, bit_or-add, bit_or-lt, zero, length, drop,
}
use simple_vpn.Memory.{Bytes, IsText, c_string}
use simple_vpn.Memory.Laws.{write_string, c_string-append}
use simple_vpn.Address.{
  char_to_int, octet_loop, skip_dot, parse_loop, parse_ip_addr, decimal, dotted, address_text,
  parse_ip_addr_to_str,
}
use simple_vpn.Address.Print.{
  octet_loop-decimal, octet_loop-decimal_end, dotted-IsText, length-dotted,
}

-- `val << 8 | octet` keeps the 24 bits before.
shift_in :
    (val octet : ℕ)
    → val < 2 ^ 24
    → octet < 256
    → bit_or (u32 (val * 2 ^ 8)) octet ≡ val * 256 + octet
shift_in val octet hv ho =
    let kept : u32 (val * 2 ^ 8) ≡ val * 2 ^ 8 = omega arith in
    ap (λ (t : ℕ). bit_or t octet) kept ∙ bit_or-add 8 val octet ho

parse_loop_dot :
    (left val octet : ℕ) (rest : Bytes)
    → val < 2 ^ 24
    → octet < 256
    → parse_loop (suc left) val (decimal octet ++ b'.' ∷ rest)
      ≡ parse_loop left (val * 256 + octet) rest
parse_loop_dot left val octet rest hv ho =
    unfold parse_loop in rw (octet_loop-decimal octet rest ho, shift_in val octet hv ho)

parse_loop_end :
    (val octet : ℕ)
    → val < 2 ^ 24
    → octet < 256
    → parse_loop 1 val (decimal octet) ≡ val * 256 + octet
parse_loop_end val octet hv ho =
    unfold parse_loop in rw (octet_loop-decimal_end octet ho, shift_in val octet hv ho)

-- The dotted text of four octets is read as the address that they make up, the first octet the
-- highest.
pub parse_ip_addr-dotted :
    (a b c d : ℕ)
    → a < 256
    → b < 256
    → c < 256
    → d < 256
    → parse_ip_addr (dotted a b c d) ≡ ((a * 256 + b) * 256 + c) * 256 + d
parse_ip_addr-dotted a b c d ha hb hc hd =
    unfold parse_ip_addr dotted in
    parse_loop_dot 3 0 a _ (omega arith) ha
    ∙ parse_loop_dot 2 (0 * 256 + a) b _ (omega arith) hb
    ∙ parse_loop_dot 1 ((0 * 256 + a) * 256 + b) c _ (omega arith) hc
    ∙ parse_loop_end (((0 * 256 + a) * 256 + b) * 256 + c) d (omega arith) hd
    ∙ omega arith

pub address_text-IsText : (ip : ℕ) → ip < 2 ^ 32 → IsText (address_text ip)
unfolding address_text
address_text-IsText ip h =
    dotted-IsText (ip / 2 ^ 24) (ip / 2 ^ 16 % 256) (ip / 2 ^ 8 % 256) (ip % 256) (omega arith)
      (omega arith) (omega arith) (omega arith)

length-address_text : (ip : ℕ) → ip < 2 ^ 32 → length (address_text ip) ≤ 15
unfolding address_text
length-address_text ip h =
    length-dotted (ip / 2 ^ 24) (ip / 2 ^ 16 % 256) (ip / 2 ^ 8 % 256) (ip % 256) (omega arith)
      (omega arith) (omega arith) (omega arith)

pub parse_ip_addr-address_text : (ip : ℕ) → ip < 2 ^ 32 → parse_ip_addr (address_text ip) ≡ ip
unfolding address_text
parse_ip_addr-address_text ip h =
    parse_ip_addr-dotted (ip / 2 ^ 24) (ip / 2 ^ 16 % 256) (ip / 2 ^ 8 % 256) (ip % 256)
      (omega arith) (omega arith) (omega arith) (omega arith)
    ∙ omega arith

-- What `parse_ip_addr_to_str` leaves in its block.
pub parse_ip_addr_to_str_lem :
    (block : Bytes) (ip : ℕ)
    → 16 ≤ length block
    → ip < 2 ^ 32
    → parse_ip_addr_to_str block ip
      ≡ some (address_text ip ++ 0 ∷ drop (length (address_text ip) + 1) block)
parse_ip_addr_to_str_lem block ip room h =
    unfold parse_ip_addr_to_str in
    write_string block (address_text ip) (omega (arith, length-address_text ip h))
      (address_text-IsText ip h)

-- For every 32-bit address and block of at least 16 bytes, `parse_ip_addr_to_str` stays inside the
-- block and leaves a C string there that `parse_ip_addr` reads back as the same address.
pub parse_ip_addr-parse_ip_addr_to_str :
    (block : Bytes) (ip : ℕ)
    → 16 ≤ length block
    → ip < 2 ^ 32
    → (block' : Bytes) × (text : Bytes) × (parse_ip_addr_to_str block ip ≡ some block')
      × (c_string block' ≡ some text)
      × (parse_ip_addr text ≡ ip)
parse_ip_addr-parse_ip_addr_to_str block ip room h = (
  address_text ip ++ 0 ∷ drop (length (address_text ip) + 1) block,
  address_text ip,
  parse_ip_addr_to_str_lem block ip room h,
  c_string-append (address_text ip) _ (address_text-IsText ip h),
  parse_ip_addr-address_text ip h,
)

octet_loop-lt : (s : Bytes) (octet : ℕ) → octet < 2 ^ 32 → (octet_loop s octet).0 < 2 ^ 32
unfolding octet_loop
octet_loop-lt [] octet h = h
octet_loop-lt (c ∷ s) octet h =
    ground
      (arith, octet_loop-lt s (u32 (octet * 10 + (char_to_int c + 2 ^ 32 - b'0'))) (omega arith))

parse_loop-lt : (left val : ℕ) (s : Bytes) → val < 2 ^ 32 → parse_loop left val s < 2 ^ 32
unfolding parse_loop
parse_loop-lt zero val s h = h
parse_loop-lt (suc left) val s h =
    parse_loop-lt left (bit_or (u32 (val * 2 ^ 8)) (octet_loop s 0).0) (skip_dot (octet_loop s 0).1)
      (bit_or-lt 32 (u32 (val * 2 ^ 8)) (octet_loop s 0).0 (omega arith)
        (octet_loop-lt s 0 (omega arith)))

-- Whatever the text, the address is a `uint32_t`.
pub parse_ip_addr-lt : (s : Bytes) → parse_ip_addr s < 2 ^ 32
unfolding parse_ip_addr
parse_ip_addr-lt s = parse_loop-lt 4 0 s (omega arith)
