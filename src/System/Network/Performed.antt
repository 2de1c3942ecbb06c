-- ===== src/System/Network/Performed.antt =====
-- What two different programs do to the network, in either order.
use simple_vpn.Base.{
  fun_ext, ℕ, List, [], ◌∷◌, ◌++◌, Bool, true, false, ◌&&◌, ◌==◌, Option, some, ◌≡◌, ◌≢◌, refl, sym,
  ap₂, ◌∙◌, arith, Bool-cases, inl, inr, eq_of_some, subst, some_not_none,
}
use simple_vpn.Memory.{Bytes}
use simple_vpn.Process.{Event}
use simple_vpn.System.Network.{
  Agent, acts, puts, takes, ends, faults, Node, Net, set_node, change, rest_of, Effect, quiet,
  putting, taking, taken, is_over, effect, perform,
}

set_node_comm :
    (i j : ℕ) (a b : Node) (nodes : ℕ → Node)
    → i ≢ j
    → set_node i a (set_node j b nodes) ≡ set_node j b (set_node i a nodes)
set_node_comm i j a b nodes differ = fun_ext (λ x. pointwise x)
  where
    pointwise : (x : ℕ) → set_node i a (set_node j b nodes) x ≡ set_node j b (set_node i a nodes) x
    pointwise x = ground arith

pub set_node_other :
    (i j : ℕ) (a : Node) (nodes : ℕ → Node) → i ≢ j → set_node i a nodes j ≡ nodes j
set_node_other i j a nodes differ = ground arith

both : (a b x y : ℕ) → ((x == a) && (y == b)) ≡ true → (x ≡ a) × (y ≡ b)
both a b x y h = (ground arith, ground arith)

-- Changes of queues commute if they commute on the queue that both change.
change_comm :
    (a b : ℕ) (f : List Bytes → List Bytes) (c d : ℕ) (g : List Bytes → List Bytes)
    (queues : ℕ → ℕ → List Bytes)
    → (a ≡ c → b ≡ d → f (g (queues a b)) ≡ g (f (queues a b)))
    → change a b f (change c d g queues) ≡ change c d g (change a b f queues)
change_comm a b f c d g queues meet = fun_ext (λ x. fun_ext (λ y. pointwise x y))
  where
    pointwise :
        (x y : ℕ) → change a b f (change c d g queues) x y ≡ change c d g (change a b f queues) x y
    pointwise x y = elim (Bool-cases ((x == a) && (y == b))) [
      | inr other ↦ rw other refl
      | inl here ↦ elim (Bool-cases ((x == c) && (y == d))) [
        | inr other ↦ rw (here, other) refl
        | inl there ↦
            let (x_a, y_b) = both a b x y here in
            let (x_c, y_d) = both c d x y there in
            rw (here, there)
              (subst (λ (z : List Bytes). f (g z) ≡ g (f z)) (ap₂ queues (sym x_a) (sym y_b))
                (meet (sym x_a ∙ x_c) (sym y_b ∙ y_d)))
      ]
    ]

-- What a program wants to take is there.
abbrev pub IsEnabled : ℕ → Net → Effect → Type 0
IsEnabled i net (quiet node) = Unit
IsEnabled i net (putting to bytes node) = Unit
IsEnabled i net (taking from node) =
    (message : Bytes) × (more : List Bytes) × (net.queues from i ≡ message ∷ more)

taken-IsEnabled :
    (i from : ℕ) (k : Option Bytes → Agent) (trace : List Event) (net : Net) (q : List Bytes)
    (over : Bool) (e : Effect)
    → net.queues from i ≡ q
    → taken from k trace q over ≡ some e
    → IsEnabled i net e
taken-IsEnabled i from k trace net [] true e same h =
    subst (λ (x : Effect). IsEnabled i net x) (eq_of_some h) tt
taken-IsEnabled i from k trace net [] false e same h = absurd (some_not_none (sym h))
taken-IsEnabled i from k trace net (message ∷ more) over e same h =
    subst (λ (x : Effect). IsEnabled i net x) (eq_of_some h) (message, more, same)

pub effect-IsEnabled :
    (i : ℕ) (net : Net) (a : Agent) (trace : List Event) (e : Effect)
    → effect i net a trace ≡ some e
    → IsEnabled i net e
effect-IsEnabled i net (acts event a) trace e h =
    subst (λ (x : Effect). IsEnabled i net x) (eq_of_some h) tt
effect-IsEnabled i net (puts to fd bytes a) trace e h =
    subst (λ (x : Effect). IsEnabled i net x) (eq_of_some h) tt
effect-IsEnabled i net (takes from k) trace e h =
    taken-IsEnabled i from k trace net (net.queues from i) (is_over (net.nodes from).agent) e refl h
effect-IsEnabled i net (ends exit) trace e h = absurd (some_not_none (sym h))
effect-IsEnabled i net faults trace e h = absurd (some_not_none (sym h))

net_eq :
    {nodes nodes' : ℕ → Node} {queues queues' : ℕ → ℕ → List Bytes}
    → nodes ≡ nodes'
    → queues ≡ queues'
    → ◌≡◌ {A = Net}
        (record { nodes = nodes; queues = queues })
        (record { nodes = nodes'; queues = queues' })
net_eq p q = ap₂ (λ (x : ℕ → Node) (y : ℕ → ℕ → List Bytes). record { nodes = x; queues = y }) p q

rest_of-append :
    (q : List Bytes) (bytes message : Bytes) (more : List Bytes)
    → q ≡ message ∷ more
    → rest_of (q ++ bytes ∷ []) ≡ rest_of q ++ bytes ∷ []
rest_of-append q bytes message more e = rw e refl

pub perform_comm :
    (i j : ℕ) (net : Net) (e f : Effect)
    → i ≢ j
    → IsEnabled i net e
    → IsEnabled j net f
    → perform i (perform j net f) e ≡ perform j (perform i net e) f
perform_comm i j net (quiet a) (quiet b) differ _ _ =
    net_eq (set_node_comm i j a b net.nodes differ) refl
perform_comm i j net (quiet a) (putting m s b) differ _ _ =
    net_eq (set_node_comm i j a b net.nodes differ) refl
perform_comm i j net (quiet a) (taking m b) differ _ _ =
    net_eq (set_node_comm i j a b net.nodes differ) refl
perform_comm i j net (putting l r a) (quiet b) differ _ _ =
    net_eq (set_node_comm i j a b net.nodes differ) refl
perform_comm i j net (taking l a) (quiet b) differ _ _ =
    net_eq (set_node_comm i j a b net.nodes differ) refl
perform_comm i j net (putting l r a) (putting m s b) differ _ _ =
    net_eq (set_node_comm i j a b net.nodes differ) (
      change_comm i l (λ q. q ++ r ∷ []) j m (λ q. q ++ s ∷ []) net.queues
        (λ same _. absurd (differ same)))
perform_comm i j net (putting l r a) (taking m b) differ _ (message, more, there) =
    net_eq (set_node_comm i j a b net.nodes differ) (
      change_comm i l (λ q. q ++ r ∷ []) m j rest_of net.queues
        (λ from to.
          sym (rest_of-append (net.queues i l) r message more (ap₂ net.queues from to ∙ there))))
perform_comm i j net (taking l a) (putting m s b) differ (message, more, there) _ =
    net_eq (set_node_comm i j a b net.nodes differ) (
      change_comm l i rest_of j m (λ q. q ++ s ∷ []) net.queues
        (λ from to. rest_of-append (net.queues l i) s message more there))
perform_comm i j net (taking l a) (taking m b) differ _ _ =
    net_eq (set_node_comm i j a b net.nodes differ)
      (change_comm l i rest_of m j rest_of net.queues (λ _ same. absurd (differ same)))
