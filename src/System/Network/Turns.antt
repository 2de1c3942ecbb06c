-- ===== src/System/Network/Turns.antt =====
-- Several steps of one program: what it does until it waits for a message.
use simple_vpn.Base.{
  fun_ext, ℕ, suc, List, [], ◌∷◌, ◌++◌, append_assoc, append-nil, Option, none, some, ◌>>=◌, ◌≡◌,
  refl, sym, ap, ap₂, ◌∙◌, arith, length, replicate,
}
use simple_vpn.Memory.{Bytes}
use simple_vpn.Process.{Event, sent}
use simple_vpn.System.Network.{
  Agent, acts, puts, takes, Node, Net, set_node, change, rest_of, Effect, quiet, putting, taking,
  taken, is_over, effect, perform, move, steps,
}

-- An event, or a message put to another program.
pub data Item : Type 0 where
  does : Event → Item
  gives : ℕ → ℕ → Bytes → Item

abbrev pub script : List Item → Agent → Agent
script [] rest = rest
script (does e ∷ items) rest = acts e (script items rest)
script (gives to fd bytes ∷ items) rest = puts to fd bytes (script items rest)

abbrev pub events_of : List Item → List Event
events_of [] = []
events_of (does e ∷ items) = e ∷ events_of items
events_of (gives to fd bytes ∷ items) = sent fd bytes ∷ events_of items

abbrev pub queues_after : ℕ → List Item → (ℕ → ℕ → List Bytes) → ℕ → ℕ → List Bytes
queues_after i [] queues = queues
queues_after i (does e ∷ items) queues = queues_after i items queues
queues_after i (gives to fd bytes ∷ items) queues =
    queues_after i items (change i to (λ q. q ++ bytes ∷ []) queues)

-- The network after the items of a program.
abbrev pub speak : ℕ → List Item → Agent → Net → Net
speak i items rest net = record {
  nodes =
      set_node i (record { agent = rest; trace = (net.nodes i).trace ++ events_of items })
        net.nodes;
  queues = queues_after i items net.queues;
}

-- The network after a message is taken.
abbrev pub hear : ℕ → ℕ → Agent → Net → Net
hear i from a net = record {
  nodes = set_node i (record { agent = a; trace = (net.nodes i).trace }) net.nodes;
  queues = change from i rest_of net.queues;
}

pub set_node_same : (i : ℕ) (a : Node) (nodes : ℕ → Node) → set_node i a nodes i ≡ a
set_node_same i a nodes = ground arith

set_node_twice :
    (i : ℕ) (a b : Node) (nodes : ℕ → Node) → set_node i a (set_node i b nodes) ≡ set_node i a nodes
set_node_twice i a b nodes = fun_ext (λ x. pointwise x)
  where
    pointwise : (x : ℕ) → set_node i a (set_node i b nodes) x ≡ set_node i a nodes x
    pointwise x = ground arith

set_node_own : (i : ℕ) (nodes : ℕ → Node) → set_node i (nodes i) nodes ≡ nodes
set_node_own i nodes = fun_ext (λ x. pointwise x)
  where
    pointwise : (x : ℕ) → set_node i (nodes i) nodes x ≡ nodes x
    pointwise x = ground arith

join_steps :
    (o : Option Net) (first second : List ℕ)
    → ((net : Net) → steps (first ++ second) net ≡ (steps first net >>= steps second))
    → (o >>= steps (first ++ second)) ≡ ((o >>= steps first) >>= steps second)
join_steps none first second h = refl
join_steps (some net) first second h = h net

pub steps-append :
    (first second : List ℕ) (net : Net)
    → steps (first ++ second) net ≡ (steps first net >>= steps second)
unfolding steps
steps-append [] second net = refl
steps-append (i ∷ first) second net =
    join_steps (move i net) first second (steps-append first second)

-- A step of a program that can take one.
pub moves_by :
    (i : ℕ) (a : Agent) (net : Net) (e : Effect)
    → (net.nodes i).agent ≡ a
    → effect i net a (net.nodes i).trace ≡ some e
    → move i net ≡ some (perform i net e)
unfolding move
moves_by i a net e here ready =
    ap (λ (o : Option Effect). o >>= λ x. some (perform i net x))
      (ap (λ (b : Agent). effect i net b (net.nodes i).trace) here ∙ ready)

-- After one step the rest of the script is said.
said_on :
    (i : ℕ) (net : Net) (event : Event) (items : List Item) (rest : Agent)
    (queues : ℕ → ℕ → List Bytes)
    → speak i items rest (record {
      nodes =
          set_node i
            (record { agent = script items rest; trace = (net.nodes i).trace ++ event ∷ [] })
            net.nodes;
      queues = queues;
    })
      ≡ record {
        nodes =
            set_node i
              (record { agent = rest; trace = (net.nodes i).trace ++ (event ∷ events_of items) })
              net.nodes;
        queues = queues_after i items queues;
      }
said_on i net event items rest queues =
    let stepped : Node = record {
      agent = script items rest;
      trace = (net.nodes i).trace ++ event ∷ [];
    } in
    ap (λ (nodes : ℕ → Node). record { nodes = nodes; queues = queues_after i items queues })
      (ap
          (λ (node : Node).
            set_node i (record { agent = rest; trace = node.trace ++ events_of items })
              (set_node i stepped net.nodes))
          (set_node_same i stepped net.nodes)
        ∙ set_node_twice i _ stepped net.nodes
        ∙ ap (λ (trace : List Event). set_node i (record { agent = rest; trace = trace }) net.nodes)
            (append_assoc (net.nodes i).trace (event ∷ []) (events_of items)))

pub then_said :
    (i : ℕ) (items : List Item) (rest : Agent) (net t result : Net)
    → move i net ≡ some t
    → steps (replicate (length items) i) t ≡ some (speak i items rest t)
    → speak i items rest t ≡ result
    → steps (replicate (suc (length items)) i) net ≡ some result
unfolding steps
then_said i items rest net t result moves said same = rw moves (said ∙ ap some same)

-- A program says what it has to say.
pub steps-speak :
    (i : ℕ) (items : List Item) (rest : Agent) (net : Net)
    → (net.nodes i).agent ≡ script items rest
    → steps (replicate (length items) i) net ≡ some (speak i items rest net)
unfolding steps
steps-speak i [] rest net e =
    ap (λ (nodes : ℕ → Node). some (record { nodes = nodes; queues = net.queues }))
      (sym (set_node_own i net.nodes)
        ∙ ap (λ (node : Node). set_node i node net.nodes)
            (ap₂ (λ (a : Agent) (trace : List Event). record { agent = a; trace = trace }) e
              (sym (append-nil (net.nodes i).trace))))
steps-speak i (does event ∷ items) rest net e =
    let stepped : Node = record {
      agent = script items rest;
      trace = (net.nodes i).trace ++ event ∷ [];
    } in
    let t : Net = record { nodes = set_node i stepped net.nodes; queues = net.queues } in
    then_said i items rest net t (speak i (does event ∷ items) rest net)
      (moves_by i (acts event (script items rest)) net (quiet stepped) e refl)
      (steps-speak i items rest t
        (ap (λ (node : Node). node.agent) (set_node_same i stepped net.nodes)))
      (said_on i net event items rest net.queues)
steps-speak i (gives to fd bytes ∷ items) rest net e =
    let stepped : Node = record {
      agent = script items rest;
      trace = (net.nodes i).trace ++ sent fd bytes ∷ [];
    } in
    let queues = change i to (λ q. q ++ bytes ∷ []) net.queues in
    let t : Net = record { nodes = set_node i stepped net.nodes; queues = queues } in
    then_said i items rest net t (speak i (gives to fd bytes ∷ items) rest net)
      (moves_by i (puts to fd bytes (script items rest)) net (putting to bytes stepped) e refl)
      (steps-speak i items rest t
        (ap (λ (node : Node). node.agent) (set_node_same i stepped net.nodes)))
      (said_on i net (sent fd bytes) items rest queues)

-- A program takes the message it waits for, and says what it has to say then.
pub steps-hear :
    (i from : ℕ) (k : Option Bytes → Agent) (message : Bytes) (more : List Bytes)
    (items : List Item) (rest : Agent) (net : Net)
    → (net.nodes i).agent ≡ takes from k
    → net.queues from i ≡ message ∷ more
    → k (some message) ≡ script items rest
    → steps (replicate (suc (length items)) i) net
      ≡ some (speak i items rest (hear i from (script items rest) net))
steps-hear i from k message more items rest net waits there goes_on =
    let heard = hear i from (script items rest) net in
    let node : Node = record { agent = script items rest; trace = (net.nodes i).trace } in
    then_said i items rest net heard (speak i items rest heard)
      (moves_by i (takes from k) net (taking from node) waits (
        ap (λ (q : List Bytes). taken from k (net.nodes i).trace q (is_over (net.nodes from).agent))
          there
        ∙ ap (λ (a : Agent). some (taking from (record { agent = a; trace = (net.nodes i).trace })))
            goes_on))
      (steps-speak i items rest heard (ap (λ (n : Node). n.agent) (set_node_same i node net.nodes)))
      refl
