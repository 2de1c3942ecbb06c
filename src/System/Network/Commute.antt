-- ===== src/System/Network/Commute.antt =====
-- Steps of two different programs, in either order.
use simple_vpn.Base.{
  ℕ, Option, some, ◌>>=◌, ◌≡◌, ◌≢◌, refl, sym, ap, ◌∙◌, inl, inr, eq_of_some, some_not_none,
  Option-cases,
}
use simple_vpn.System.Network.{Node, Net, Effect, effect, perform, next_effect, move}
use simple_vpn.System.Network.Performed.{effect-IsEnabled, perform_comm}
use simple_vpn.System.Network.Stays.{node_stays, effect-stays}

-- What a step is made of.
pub move_parts :
    (i : ℕ) (net t : Net)
    → move i net ≡ some t
    → (e : Effect) × (next_effect i net ≡ some e) × (perform i net e ≡ t)
unfolding move
move_parts i net t h = elim (Option-cases (next_effect i net)) [
  | inl stands ↦ absurd (some_not_none (sym h ∙ rw stands refl))
  | inr (e, does) ↦ (e, does, eq_of_some (sym (rw does refl) ∙ h))
]

move_again :
    (i j : ℕ) (net : Net) (e f : Effect)
    → i ≢ j
    → next_effect j net ≡ some f
    → next_effect i net ≡ some e
    → move i (perform j net f) ≡ some (perform i (perform j net f) e)
unfolding move
move_again i j net e f differ did does =
    let still : next_effect i (perform j net f) ≡ some e =
      ap (λ (node : Node). effect i (perform j net f) node.agent node.trace)
        (node_stays i j net f differ)
      ∙ effect-stays i j net f (net.nodes i).agent (net.nodes i).trace e differ did does in
    ap (λ (o : Option Effect). o >>= λ x. some (perform i (perform j net f) x)) still

-- Two programs that can both take a step can take them in either order, with the same result.
pub move_comm :
    (i j : ℕ) (net t u : Net)
    → i ≢ j
    → move i net ≡ some t
    → move j net ≡ some u
    → (v : Net) × (move j t ≡ some v) × (move i u ≡ some v)
move_comm i j net t u differ left right =
    let (e, does, to_t) = move_parts i net t left in
    let (f, does', to_u) = move_parts j net u right in
    let enabled = effect-IsEnabled i net (net.nodes i).agent (net.nodes i).trace e does in
    let enabled' = effect-IsEnabled j net (net.nodes j).agent (net.nodes j).trace f does' in
    (
      perform i (perform j net f) e,
      ap (move j) (sym to_t)
          ∙ move_again j i net f e (λ same. differ (sym same)) does does'
          ∙ ap some (sym (perform_comm i j net e f differ enabled enabled')),
      ap (move i) (sym to_u) ∙ move_again i j net e f differ does' does,
    )
