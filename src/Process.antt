-- ===== src/Process.antt =====
-- What the three programs have in common: how a run ends, what it does on the way, and the socket
-- functions that src/client.c, src/server.c and src/destination.c define. The operating system's
-- answers are arguments: a descriptor is `none` where the call returns a negative number, and a call
-- that only succeeds or fails is a `Bool`. Constant messages to the terminal are left out.
pub mod Ends
use simple_vpn.Base.{
  ℕ, List, [], ◌∷◌, Bool, Option, none, some, if◌then◌else◌, Status, success, failure,
}
use simple_vpn.Memory.{Bytes}
use simple_vpn.Packet.Transfer.{Sending}
use simple_vpn.Packet.Print.{Lines}

-- `return` from main, or `exit(EXIT_FAILURE)`.
pub data Exit : Type 0 where
  returned : Status → Exit
  exited : Exit

-- What a run does, in order: lines of a packet printed, a connection made to an address, bytes sent
-- through a socket, a socket closed or shut down.
pub data Event : Type 0 where
  printed : Lines → Event
  connected : ℕ → Bytes → Event
  sent : ℕ → Bytes → Event
  closed : ℕ → Event
  shut_down : ℕ → Event

pub record Run : Type 0 where
  pub exit : Exit
  pub events : List Event

abbrev pub run : Exit → List Event → Option Run
run exit events = some (record { exit = exit; events = events })

-- The event of a call of `send`, if it succeeds.
abbrev pub went_out : ℕ → Sending → List Event
went_out fd sending = elim (sending.status) [ success ↦ sent fd sending.bytes ∷ [] | failure ↦ [] ]

-- `create_client_socket`: the answer of `socket`.
unfoldable pub create_client_socket : Option ℕ → Option ℕ
create_client_socket none = none
create_client_socket (some client_fd) = some client_fd

-- `connect_to_server`: whether the text is an address, and the answer of `connect`.
unfoldable pub connect_to_server : (Bytes → Bool) → Bool → Bytes → Status
connect_to_server inet_pton connects server_ip =
    if inet_pton server_ip then (if connects then success else failure) else failure

-- The answers that opening a socket for connections depends on.
pub record Listening : Type 0 where
  pub socket : Option ℕ
  pub setsockopt : Bool
  pub bind : Bool
  pub listen : Bool
  pub accept : Option ℕ

-- `create_server_socket`; `none` is exit(EXIT_FAILURE).
unfoldable pub create_server_socket : Listening → Option ℕ
create_server_socket os = elim (os.socket) [
  | none ↦ none
  | some server_fd ↦
      if os.setsockopt
      then (if os.bind then (if os.listen then some server_fd else none) else none)
      else none
]

unfoldable pub accept_client_connection : Listening → ℕ → Option ℕ
accept_client_connection os server_fd = os.accept

-- What follows a call that leaves the program with `exit(EXIT_FAILURE)` if it fails.
pub or_exit : Option ℕ → (ℕ → Option Run) → Option Run
or_exit none go_on = run exited []
or_exit (some fd) go_on = go_on fd

-- The start of a program that listens: a socket, a connection of a client, and the rest of the run.
pub with_connection : Option ℕ → (ℕ → Option ℕ) → (ℕ → ℕ → Option Run) → Option Run
with_connection socket accept go_on = or_exit socket (λ fd. or_exit (accept fd) (go_on fd))
