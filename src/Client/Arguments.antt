-- ===== src/Client/Arguments.antt =====
-- What the client does with the names that it is given.
use simple_vpn.Base.{
  ℕ, ◌+◌, ◌≤◌, ◌≡◌, ◌≢◌, ◌⊎◌, refl, ap, ◌∙◌, arith, [], ◌∷◌, ◌++◌, true, false, ◌||◌, ◌==◌, some,
  success,
}
use simple_vpn.Memory.{Bytes}
use simple_vpn.Hosts.{same_string, get_host_ip}
use simple_vpn.Hosts.Lookup.{host_name, host_ip, get_host_ip_iff, same_string_iff}
use simple_vpn.Process.{returned, run, create_client_socket, connect_to_server}
use simple_vpn.Client.{
  ClientOs, read_dest_name, fgets, cut_newline, exchange, with_addresses, with_names, client_main,
}

digit_no_end : (k : ℕ) → ((b'0' + k) == b'\n') ≡ false
digit_no_end k = ground arith

digit_no_nul : (k : ℕ) → ((b'0' + k) == 0) ≡ false
digit_no_nul k = ground arith

-- A line with the name of a host is read as the name.
read_dest_name-host_name :
    (k : ℕ) (more : Bytes) → read_dest_name (host_name k ++ b'\n' ∷ more) ≡ some (host_name k)
unfolding read_dest_name fgets cut_newline
read_dest_name-host_name k more = rw (digit_no_end k, digit_no_end k, digit_no_nul k)

known : (k : ℕ) → 1 ≤ k → k ≤ 7 → get_host_ip (host_name k) ≡ some (host_ip k)
known k low high = (get_host_ip_iff (host_name k) (host_ip k)).1 (k, low, high, refl, refl)

-- Two hosts have the same address only if they are one.
same_string-host_ip : (j k : ℕ) → j ≢ k → same_string (host_ip j) (host_ip k) ≡ false
unfolding same_string
same_string-host_ip j k differ = ground arith

same_host : (k : ℕ) → same_string (host_ip k) (host_ip k) ≡ true
same_host k = (same_string_iff (host_ip k) (host_ip k)).1 refl

module _ (os : ClientOs) (program more : Bytes) (a b c : ℕ) where
  named :
      1 ≤ a
      → a ≤ 7
      → 1 ≤ b
      → b ≤ 7
      → 1 ≤ c
      → c ≤ 7
      → os.stdin ≡ host_name c ++ b'\n' ∷ more
      → client_main os (program ∷ host_name a ∷ host_name b ∷ [])
        ≡ with_addresses os (host_ip a) (host_ip b) (host_ip c)
  named a1 a7 b1 b7 c1 c7 line =
      unfold client_main with_names in
      rw (
        ap read_dest_name line ∙ read_dest_name-host_name c more,
        known a a1 a7,
        known b b1 b7,
        known c c1 c7,
      )

  -- With the names of three different hosts of h1 to h7, the third in a line of the standard
  -- input, a socket, and a connection to the second host, the client's `main` does what `exchange`
  -- does with the addresses of the three.
  pub client_main_distinct :
      (client_fd : ℕ)
      → 1 ≤ a
      → a ≤ 7
      → 1 ≤ b
      → b ≤ 7
      → 1 ≤ c
      → c ≤ 7
      → a ≢ b
      → a ≢ c
      → b ≢ c
      → os.stdin ≡ host_name c ++ b'\n' ∷ more
      → create_client_socket os.socket ≡ some client_fd
      → connect_to_server os.inet_pton os.connect (host_ip b) ≡ success
      → client_main os (program ∷ host_name a ∷ host_name b ∷ [])
        ≡ exchange os client_fd (host_ip a) (host_ip b) (host_ip c)
  client_main_distinct client_fd a1 a7 b1 b7 c1 c7 ab ac bc line opened connects =
      named a1 a7 b1 b7 c1 c7 line
      ∙ unfold with_addresses in
        rw (
          same_string-host_ip a b ab,
          same_string-host_ip a c ac,
          same_string-host_ip b c bc,
          opened,
          connects,
        )

  -- With names of hosts of h1 to h7 of which two are the same, the client's `main` does nothing
  -- and returns 0.
  pub client_main_same :
      1 ≤ a
      → a ≤ 7
      → 1 ≤ b
      → b ≤ 7
      → 1 ≤ c
      → c ≤ 7
      → (a ≡ b) ⊎ (a ≡ c) ⊎ (b ≡ c)
      → os.stdin ≡ host_name c ++ b'\n' ∷ more
      → client_main os (program ∷ host_name a ∷ host_name b ∷ []) ≡ run (returned success) []
  client_main_same a1 a7 b1 b7 c1 c7 same line = named a1 a7 b1 b7 c1 c7 line ∙ stops
    where
      test :
          (same_string (host_ip a) (host_ip b)
            || (same_string (host_ip a) (host_ip c) || same_string (host_ip b) (host_ip c)))
          ≡ true
      test = ground (
        arith,
        same_string_iff (host_ip a) (host_ip b),
        same_string_iff (host_ip a) (host_ip c),
        same_string_iff (host_ip b) (host_ip c),
      )

      stops : with_addresses os (host_ip a) (host_ip b) (host_ip c) ≡ run (returned success) []
      stops = unfold with_addresses in rw test
