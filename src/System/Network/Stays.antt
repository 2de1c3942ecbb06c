-- ===== src/System/Network/Stays.antt =====
-- What a step of one program leaves to another.
use simple_vpn.Base.{
  ℕ, List, [], ◌∷◌, ◌++◌, Bool, true, false, none, ◌&&◌, ◌==◌, Option, some, ◌≡◌, ◌≢◌, refl, sym,
  ap, ◌∙◌, arith, Bool-cases, inl, inr, some_not_none,
}
use simple_vpn.Memory.{Bytes}
use simple_vpn.Process.{Event}
use simple_vpn.System.Network.{
  Agent, acts, puts, takes, ends, faults, Node, Net, Effect, quiet, putting, taking, taken, is_over,
  effect, perform, next_effect,
}
use simple_vpn.System.Network.Performed.{set_node_other}

-- A step of another program leaves the head of a queue to this one where it is.
head_stays :
    (i j l : ℕ) (net : Net) (f : Effect) (message : Bytes) (more : List Bytes)
    → i ≢ j
    → net.queues l i ≡ message ∷ more
    → (more' : List Bytes) × ((perform j net f).queues l i ≡ message ∷ more')
head_stays i j l net (quiet b) message more differ there = (more, there)
head_stays i j l net (putting m s b) message more differ there =
    elim (Bool-cases ((l == j) && (i == m))) [
      | inl here ↦ (more ++ s ∷ [], rw (here, there) refl)
      | inr other ↦ (more, rw (other, there) refl)
    ]
head_stays i j l net (taking m b) message more differ there =
    let other : ((l == m) && (i == j)) ≡ false = ground arith in (more, rw (other, there) refl)

pub node_stays :
    (i j : ℕ) (net : Net) (f : Effect) → i ≢ j → (perform j net f).nodes i ≡ net.nodes i
node_stays i j net (quiet b) differ = set_node_other j i b net.nodes (λ e. differ (sym e))
node_stays i j net (putting m s b) differ = set_node_other j i b net.nodes (λ e. differ (sym e))
node_stays i j net (taking m b) differ = set_node_other j i b net.nodes (λ e. differ (sym e))

-- A program that is over takes no step.
over_stands :
    (i : ℕ) (net : Net) (a : Agent) (trace : List Event)
    → is_over a ≡ true
    → effect i net a trace ≡ none
over_stands i net (acts event a) trace over = ground arith
over_stands i net (puts to fd bytes a) trace over = ground arith
over_stands i net (takes from k) trace over = ground arith
over_stands i net (ends exit) trace over = refl
over_stands i net faults trace over = refl

over_other :
    (j from : ℕ) (net : Net) (f : Effect)
    → next_effect j net ≡ some f
    → is_over (net.nodes from).agent ≡ true
    → from ≢ j
over_other j from net f does over same = some_not_none (
    sym does
    ∙ over_stands j net (net.nodes j).agent (net.nodes j).trace
        (ap (λ (n : ℕ). is_over (net.nodes n).agent) (sym same) ∙ over))

-- A step of another program leaves the queue of a program that is over as it is.
queue_stays :
    (i j from : ℕ) (net : Net) (f : Effect)
    → i ≢ j
    → from ≢ j
    → (perform j net f).queues from i ≡ net.queues from i
queue_stays i j from net (quiet b) differ apart = refl
queue_stays i j from net (putting m s b) differ apart =
    let other : ((from == j) && (i == m)) ≡ false = ground arith in rw other refl
queue_stays i j from net (taking m b) differ apart =
    let other : ((from == m) && (i == j)) ≡ false = ground arith in rw other refl

taken-stays :
    (from : ℕ) (k : Option Bytes → Agent) (trace : List Event) (q q' : List Bytes)
    (over over' : Bool) (e : Effect)
    → ((message : Bytes) (more : List Bytes)
        → q ≡ message ∷ more
        → (more' : List Bytes) × (q' ≡ message ∷ more'))
    → (over ≡ true → (q' ≡ q) × (over' ≡ true))
    → taken from k trace q over ≡ some e
    → taken from k trace q' over' ≡ some e
taken-stays from k trace [] q' true over' e keeps ended h =
    let (same, still) = ended refl in rw (same, still) h
taken-stays from k trace [] q' false over' e keeps ended h = absurd (some_not_none (sym h))
taken-stays from k trace (message ∷ more) q' over over' e keeps ended h =
    let (more', same) = keeps message more refl in rw same h

pub effect-stays :
    (i j : ℕ) (net : Net) (f : Effect) (a : Agent) (trace : List Event) (e : Effect)
    → i ≢ j
    → next_effect j net ≡ some f
    → effect i net a trace ≡ some e
    → effect i (perform j net f) a trace ≡ some e
effect-stays i j net f (acts event a) trace e differ does h = h
effect-stays i j net f (puts to fd bytes a) trace e differ does h = h
effect-stays i j net f (takes from k) trace e differ does h =
    taken-stays from k trace (net.queues from i) ((perform j net f).queues from i)
      (is_over (net.nodes from).agent) (is_over ((perform j net f).nodes from).agent) e
      (λ message more there. head_stays i j from net f message more differ there)
      (λ over.
        let apart = over_other j from net f does over in
        (
          queue_stays i j from net f differ apart,
          ap (λ (node : Node). is_over node.agent) (node_stays from j net f apart) ∙ over,
        ))
      h
effect-stays i j net f (ends exit) trace e differ does h = h
effect-stays i j net f faults trace e differ does h = h
