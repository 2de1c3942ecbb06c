-- ===== src/Process/Ends.antt =====
-- Runs that end, without an access outside a block of memory.
use simple_vpn.Base.{ℕ, ◌≡◌, refl, Option, none, some}
use simple_vpn.Process.{or_exit, Run, with_connection}

abbrev pub Ends : Option Run → Type 0
Ends o = (r : Run) × (o ≡ some r)

or_exit-Ends :
    (fd : Option ℕ) (go_on : ℕ → Option Run) → ((n : ℕ) → Ends (go_on n)) → Ends (or_exit fd go_on)
unfolding or_exit
or_exit-Ends none go_on ends = (_, refl)
or_exit-Ends (some fd) go_on ends = ends fd

-- A program that listens ends if what it does with a connection ends.
pub with_connection-Ends :
    (socket : Option ℕ) (accept : ℕ → Option ℕ) (go_on : ℕ → ℕ → Option Run)
    → ((fd new_socket : ℕ) → Ends (go_on fd new_socket))
    → Ends (with_connection socket accept go_on)
unfolding with_connection
with_connection-Ends socket accept go_on ends =
    or_exit-Ends socket _ (λ fd. or_exit-Ends (accept fd) (go_on fd) (ends fd))
