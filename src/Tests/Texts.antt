-- ===== src/Tests/Texts.antt =====
-- Addresses and host names at concrete texts.
use simple_vpn.Base.{ℕ, ◌≤◌, ◌≡◌, ◌↔◌, some, arith}
use simple_vpn.Memory.{Bytes, calloc, c_string}
use simple_vpn.Address.{parse_ip_addr, parse_ip_addr_to_str}
use simple_vpn.Address.RoundTrip.{parse_ip_addr-parse_ip_addr_to_str}
use simple_vpn.Hosts.{chars, get_host_ip}
use simple_vpn.Hosts.Lookup.{host_name, host_ip, get_host_ip_iff}

parse_ip_addr-parse_ip_addr_to_str_example :
    (block : Bytes) × (text : Bytes) × (parse_ip_addr_to_str (calloc 16) 0x0a000001 ≡ some block)
    × (c_string block ≡ some text)
    × (parse_ip_addr text ≡ 0x0a000001)
parse_ip_addr-parse_ip_addr_to_str_example =
    parse_ip_addr-parse_ip_addr_to_str (calloc 16) 0x0a000001 (omega arith) (omega arith)

get_host_ip_iff_example :
    (get_host_ip (chars "h3") ≡ some (chars "10.0.0.3"))
    ↔ ((k : ℕ) × (1 ≤ k) × (k ≤ 7) × (chars "h3" ≡ host_name k) × (chars "10.0.0.3" ≡ host_ip k))
get_host_ip_iff_example = get_host_ip_iff (chars "h3") (chars "10.0.0.3")
