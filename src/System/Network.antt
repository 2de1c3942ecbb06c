-- ===== src/System/Network.antt =====
-- Programs that run side by side and exchange messages, in any order that a scheduler picks. There is
-- a queue of messages from each program to each other one. A program that waits for a message stands
-- still while its queue is empty, until the other program ends: then `recv` brings no bytes.
pub mod Performed
pub mod Stays
pub mod Commute
pub mod Turns
pub mod Hangups
pub mod Schedules
use simple_vpn.Base.{
  ℕ, List, [], ◌∷◌, ◌++◌, Bool, true, false, ◌&&◌, ◌==◌, Option, none, some, ◌>>=◌, if◌then◌else◌,
}
use simple_vpn.Memory.{Bytes}
use simple_vpn.Process.{Exit, Event, sent, Run, run}

-- What is left of a program: an event, a message put to another program through a socket, a message
-- taken from another program (`none` where `recv` fails), the end, or undefined behaviour.
pub data Agent : Type 0 where
  acts : Event → Agent → Agent
  puts : ℕ → ℕ → Bytes → Agent → Agent
  takes : ℕ → (Option Bytes → Agent) → Agent
  ends : Exit → Agent
  faults : Agent

-- The run of a single program, where `recv` brings the given answers.
abbrev pub after : Event → Option Run → Option Run
after e o = o >>= λ r. run r.exit (e ∷ r.events)

abbrev pub play : (ℕ → Option Bytes) → Agent → Option Run
play answers (acts e a) = after e (play answers a)
play answers (puts n fd bytes a) = after (sent fd bytes) (play answers a)
play answers (takes n k) = play answers (k (answers n))
play answers (ends exit) = run exit []
play answers faults = none

-- A program in the network: what is left of it, and what it did.
pub record Node : Type 0 where
  pub agent : Agent
  pub trace : List Event

pub record Net : Type 0 where
  pub nodes : ℕ → Node
  pub queues : ℕ → ℕ → List Bytes

abbrev pub set_node : ℕ → Node → (ℕ → Node) → ℕ → Node
set_node i node nodes j = if j == i then node else nodes j

-- A change of the queue from one program to another.
abbrev pub change : ℕ → ℕ → (List Bytes → List Bytes) → (ℕ → ℕ → List Bytes) → ℕ → ℕ → List Bytes
change from to f queues i j = if i == from && j == to then f (queues i j) else queues i j

abbrev pub rest_of : List Bytes → List Bytes
rest_of [] = []
rest_of (message ∷ more) = more

-- A program that takes no more steps. Its sockets are closed.
abbrev pub is_over : Agent → Bool
is_over (acts e a) = false
is_over (puts to fd bytes a) = false
is_over (takes from k) = false
is_over (ends exit) = true
is_over faults = true

-- What a program does next, with the program after it. The queue is that of the messages it waits for.
pub data Effect : Type 0 where
  quiet : Node → Effect
  putting : ℕ → Bytes → Node → Effect
  taking : ℕ → Node → Effect

-- `recv` on the queue of a program that is over, or is not.
abbrev pub taken : ℕ → (Option Bytes → Agent) → List Event → List Bytes → Bool → Option Effect
taken from k trace [] true = some (quiet (record { agent = k (some []); trace = trace }))
taken from k trace [] false = none
taken from k trace (message ∷ more) over =
    some (taking from (record { agent = k (some message); trace = trace }))

abbrev pub effect : ℕ → Net → Agent → List Event → Option Effect
effect i net (acts e a) trace = some (quiet (record { agent = a; trace = trace ++ e ∷ [] }))
effect i net (puts to fd bytes a) trace =
    some (putting to bytes (record { agent = a; trace = trace ++ sent fd bytes ∷ [] }))
effect i net (takes from k) trace =
    taken from k trace (net.queues from i) (is_over (net.nodes from).agent)
effect i net (ends exit) trace = none
effect i net faults trace = none

abbrev pub perform : ℕ → Net → Effect → Net
perform i net (quiet node) = record { nodes = set_node i node net.nodes; queues = net.queues }
perform i net (putting to bytes node) = record {
  nodes = set_node i node net.nodes;
  queues = change i to (λ q. q ++ bytes ∷ []) net.queues;
}
perform i net (taking from node) = record {
  nodes = set_node i node net.nodes;
  queues = change from i rest_of net.queues;
}

-- One step of the program with a number.
abbrev pub next_effect : ℕ → Net → Option Effect
next_effect i net = let node = net.nodes i in effect i net node.agent node.trace

unfoldable pub move : ℕ → Net → Option Net
move i net = do e ← next_effect i net; some (perform i net e)

-- The steps that a scheduler picks.
unfoldable pub steps : List ℕ → Net → Option Net
unfolding move
steps [] net = some net
steps (i ∷ schedule) net = do net ← move i net; steps schedule net
