-- ===== src/System/Network/Hangups.antt =====
-- What a program does when the one that it waits for is over.
use simple_vpn.Base.{
  ℕ, suc, List, [], Bool, true, Option, some, ◌≡◌, refl, ap, ap₂, ◌∙◌, length, replicate,
}
use simple_vpn.Memory.{Bytes}
use simple_vpn.System.Network.{Agent, takes, Node, Net, set_node, quiet, is_over, taken, steps}
use simple_vpn.System.Network.Turns.{
  Item, script, speak, set_node_same, moves_by, then_said, steps-speak,
}

-- The network after a program learns that no message comes any more.
abbrev pub notice : ℕ → Agent → Net → Net
notice i a net = record {
  nodes = set_node i (record { agent = a; trace = (net.nodes i).trace }) net.nodes;
  queues = net.queues;
}

pub steps-notice :
    (i from : ℕ) (k : Option Bytes → Agent) (items : List Item) (rest : Agent) (net : Net)
    → (net.nodes i).agent ≡ takes from k
    → net.queues from i ≡ []
    → is_over (net.nodes from).agent ≡ true
    → k (some []) ≡ script items rest
    → steps (replicate (suc (length items)) i) net
      ≡ some (speak i items rest (notice i (script items rest) net))
steps-notice i from k items rest net waits empty over goes_on =
    let noticed = notice i (script items rest) net in
    let node : Node = record { agent = script items rest; trace = (net.nodes i).trace } in
    then_said i items rest net noticed (speak i items rest noticed)
      (moves_by i (takes from k) net (quiet node) waits (
        ap₂ (λ (q : List Bytes) (b : Bool). taken from k (net.nodes i).trace q b) empty over
        ∙ ap (λ (a : Agent). some (quiet (record { agent = a; trace = (net.nodes i).trace })))
            goes_on))
      (steps-speak i items rest noticed
        (ap (λ (n : Node). n.agent) (set_node_same i node net.nodes)))
      refl
