-- ===== src/System/Agents/Played.antt =====
-- Runs of an agent on its own.
use simple_vpn.Base.{
  ℕ, List, [], ◌∷◌, ◌++◌, Option, none, some, ◌>>=◌, if◌then◌else◌, ◌≡◌, refl, ap, ◌==◌,
}
use simple_vpn.Memory.{Bytes}
use simple_vpn.Process.{Exit, Event, printed, connected, sent, closed, shut_down, Run, run}
use simple_vpn.Server.{ServerOs}
use simple_vpn.System.Network.{Agent, ends, after, play}
use simple_vpn.System.Agents.{client, ◌then◌, emit}

-- Events in front of a run.
abbrev pub behind : List Event → Option Run → Option Run
behind events o = o >>= λ r. run r.exit (events ++ r.events)

pub after-after : (d e : Event) (o : Option Run) → after d (after e o) ≡ behind (d ∷ e ∷ []) o
after-after d e none = refl
after-after d e (some r) = refl

pub after-behind :
    (e : Event) (events : List Event) (o : Option Run)
    → after e (behind events o) ≡ behind (e ∷ events) o
after-behind e events none = refl
after-behind e events (some r) = refl

module _ (answers : ℕ → Option Bytes) where
  -- A computation in front of an agent, and in front of its run.
  pub play-then :
      {A : Type 0} (events : List Event) (o : Option A) (f : A → Agent) (g : A → Option Run)
      → ((a : A) → behind events (play answers (f a)) ≡ g a)
      → behind events (play answers (o then f)) ≡ (o >>= g)
  play-then events none f g same = refl
  play-then events (some a) f g same = same a

  pub play_then :
      {A : Type 0} (o : Option A) (f : A → Agent) (g : A → Option Run)
      → ((a : A) → play answers (f a) ≡ g a)
      → play answers (o then f) ≡ (o >>= g)
  play_then none f g same = refl
  play_then (some a) f g same = same a

  pub play-emit :
      (to : ℕ) (events : List Event) (exit : Exit)
      → play answers (emit to events (ends exit)) ≡ run exit events
  play-emit to [] exit = refl
  play-emit to (sent fd bytes ∷ events) exit = ap (after (sent fd bytes)) (play-emit to events exit)
  play-emit to (printed lines ∷ events) exit = ap (after (printed lines)) (play-emit to events exit)
  play-emit to (connected fd address ∷ events) exit =
      ap (after (connected fd address)) (play-emit to events exit)
  play-emit to (closed fd ∷ events) exit = ap (after (closed fd)) (play-emit to events exit)
  play-emit to (shut_down fd ∷ events) exit = ap (after (shut_down fd)) (play-emit to events exit)

-- What the programs are answered.
abbrev pub from_server : Option Bytes → ℕ → Option Bytes
from_server message n = message

abbrev pub to_server : ServerOs → ℕ → Option Bytes
to_server os n = if n == client then os.recv_client else os.recv_destination
