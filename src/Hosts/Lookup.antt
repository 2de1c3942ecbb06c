-- ===== src/Hosts/Lookup.antt =====
-- What the table answers for every name.
use simple_vpn.Base.{
  ℕ, zero, suc, ◌<◌, List, ◌∙◌, sym, ◌+◌, ◌≤◌, ◌≡◌, ◌↔◌, refl, ap, arith, [], ◌∷◌, ◌++◌, true,
  false, some, ◌==◌, ==_iff, eq_of_some, Bool-cases, inl, inr,
}
use simple_vpn.Memory.{Bytes}
use simple_vpn.Hosts.{HostInfo, chars, same_string, search_hosts, get_host_ip}

pub same_string_iff : (s t : Bytes) → (same_string s t ≡ true) ↔ (s ≡ t)
unfolding same_string
same_string_iff [] [] = (λ h. refl, λ h. refl)
same_string_iff [] (d ∷ t) = (λ h. cc, λ h. cc)
same_string_iff (c ∷ s) [] = (λ h. cc, λ h. cc)
same_string_iff (c ∷ s) (d ∷ t) = ground (arith, same_string_iff s t, ==_iff c d)

-- The name and the address of host `k`, for one digit.
abbrev pub host_name : ℕ → Bytes
host_name k = b'h' ∷ (b'0' + k) ∷ []

abbrev pub host_ip : ℕ → Bytes
host_ip k = chars "10.0.0." ++ (b'0' + k) ∷ []

abbrev entry : ℕ → HostInfo
entry k = record { name = host_name k; ip = host_ip k }

-- The entries of `left` hosts from `k` on.
abbrev numbered : ℕ → ℕ → List HostInfo
numbered zero k = []
numbered (suc left) k = entry k ∷ numbered left (suc k)

abbrev Entry : ℕ → ℕ → Bytes → Bytes → Type 0
Entry left k name ip = (j : ℕ) × (k ≤ j) × (j < k + left) × (name ≡ host_name j) × (ip ≡ host_ip j)

host_name-injective : (j k : ℕ) → host_name j ≡ host_name k → j ≡ k
host_name-injective j k h = ground arith

differs :
    (j k : ℕ) (name : Bytes)
    → name ≡ host_name j
    → (j == k) ≡ false
    → same_string (host_name k) name ≡ false
differs j k name named other = elim (Bool-cases (same_string (host_name k) name)) [
  | inr no_match ↦ no_match
  | inl match ↦
      let e = host_name-injective k j ((same_string_iff (host_name k) name).0 match ∙ named) in
      ground arith
]

search_hit :
    (host : HostInfo) (rest : List HostInfo) (name : Bytes)
    → same_string host.name name ≡ true
    → search_hosts (host ∷ rest) name ≡ some host.ip
unfolding search_hosts
search_hit host rest name same = rw same

search_miss :
    (host : HostInfo) (rest : List HostInfo) (name : Bytes)
    → same_string host.name name ≡ false
    → search_hosts (host ∷ rest) name ≡ search_hosts rest name
unfolding search_hosts
search_miss host rest name other = rw other

found :
    (left k : ℕ) (name ip : Bytes)
    → search_hosts (numbered left k) name ≡ some ip
    → Entry left k name ip
found zero k name ip h = unfold search_hosts in cc
found (suc left) k name ip h = elim (Bool-cases (same_string (host_name k) name)) [
  | inl same ↦ (
    k,
    omega arith,
    omega arith,
    sym ((same_string_iff (host_name k) name).0 same),
    sym (eq_of_some (sym (search_hit (entry k) (numbered left (suc k)) name same) ∙ h)),
  )
  | inr other ↦
      let (j, low, high, named, addressed) =
        found left (suc k) name ip
          (sym (search_miss (entry k) (numbered left (suc k)) name other) ∙ h) in
      (j, omega arith, omega arith, named, addressed)
]

find :
    (left k : ℕ) (name ip : Bytes)
    → Entry left k name ip
    → search_hosts (numbered left k) name ≡ some ip
find zero k name ip (j, low, high, _, _) = absurd (omega arith)
find (suc left) k name ip (j, low, high, named, addressed) = elim (Bool-cases (j == k)) [
  | inl same ↦
      let e = (==_iff j k).0 same in
      search_hit (entry k) (numbered left (suc k)) name
        ((same_string_iff (host_name k) name).1 (sym (named ∙ ap host_name e)))
      ∙ ap some (sym (addressed ∙ ap host_ip e))
  | inr other ↦
      search_miss (entry k) (numbered left (suc k)) name (differs j k name named other)
      ∙ find left (suc k) name ip (j, ground arith, omega arith, named, addressed)
]

-- `get_host_ip` knows exactly the names h1 to h7, and gives host `k` the address 10.0.0.k.
pub get_host_ip_iff :
    (name ip : Bytes)
    → (get_host_ip name ≡ some ip)
      ↔ ((k : ℕ) × (1 ≤ k) × (k ≤ 7) × (name ≡ host_name k) × (ip ≡ host_ip k))
get_host_ip_iff name ip = (
  λ h.
      let (j, low, high, named, addressed) = found 7 1 name ip (unfold get_host_ip in h) in
      (j, low, omega arith, named, addressed),
  λ (j, low, high, named, addressed).
      unfold get_host_ip in find 7 1 name ip (j, low, omega arith, named, addressed),
)
