-- ===== src/Hosts.antt =====
-- src/host_info.c and src/host_info.h: the table of host names and addresses. A `const char *` is the
-- content of its string, and NULL is `none`; the NULL entry that ends the table is the list's end.
pub mod Lookup
use Prim.Native.Char.{code}
use Prim.Native.String.{String}
use simple_vpn.Base.{
  ℕ, List, [], ◌∷◌, Bool, true, false, ◌&&◌, Option, none, some, if◌then◌else◌, ◌==◌,
}
use simple_vpn.Memory.{Bytes}

-- The bytes of a literal of the source, which is ASCII.
abbrev pub chars : String → Bytes
chars String.[] = []
chars (String.◌∷◌ c s) = code c ∷ chars s

pub record HostInfo : Type 0 where
  pub name : Bytes
  pub ip : Bytes

abbrev pub hosts : List HostInfo
hosts =
    record { name = chars "h1"; ip = chars "10.0.0.1" }
    ∷ record { name = chars "h2"; ip = chars "10.0.0.2" }
    ∷ record { name = chars "h3"; ip = chars "10.0.0.3" }
    ∷ record { name = chars "h4"; ip = chars "10.0.0.4" }
    ∷ record { name = chars "h5"; ip = chars "10.0.0.5" }
    ∷ record { name = chars "h6"; ip = chars "10.0.0.6" }
    ∷ record { name = chars "h7"; ip = chars "10.0.0.7" }
    ∷ []

-- strcmp(s, t) == 0
unfoldable pub same_string : Bytes → Bytes → Bool
same_string [] [] = true
same_string [] (d ∷ t) = false
same_string (c ∷ s) [] = false
same_string (c ∷ s) (d ∷ t) = c == d && same_string s t

-- The loop of `get_host_ip` over the entries from index `i` on.
pub search_hosts : List HostInfo → Bytes → Option Bytes
search_hosts [] host_name = none
search_hosts (host ∷ rest) host_name =
    let later = search_hosts rest host_name in
    if same_string host.name host_name then some host.ip else later

pub get_host_ip : Bytes → Option Bytes
unfolding search_hosts
get_host_ip host_name = search_hosts hosts host_name
