-- ===== src/System/Network/Schedules.antt =====
-- The schedules of a network: one that ends it says something about all others.
use simple_vpn.Base.{
  ℕ, suc, ◌+◌, List, [], ◌∷◌, false, ◌==◌, ==_iff, none, some, ◌>>=◌, ◌≡◌, ◌≢◌, refl, sym, ap, ◌∙◌,
  arith, Bool-cases, Option-cases, inl, inr, eq_of_some, some_not_none, length,
}
use simple_vpn.Process.{Exit, Event}
use simple_vpn.System.Network.{ends, Node, Net, effect, perform, move, steps}
use simple_vpn.System.Network.Commute.{move_comm}

-- No program can take a step.
abbrev pub IsFinal : Net → Type 0
IsFinal net = (i : ℕ) → move i net ≡ none

-- A program that has ended takes no step.
pub ended_stands :
    (i : ℕ) (net : Net) (exit : Exit) (trace : List Event)
    → net.nodes i ≡ record { agent = ends exit; trace = trace }
    → move i net ≡ none
unfolding move
ended_stands i net exit trace ended =
    ap (λ (node : Node). effect i net node.agent node.trace >>= λ e. some (perform i net e)) ended

first_step :
    (i : ℕ) (schedule : List ℕ) (net final : Net)
    → steps (i ∷ schedule) net ≡ some final
    → (t : Net) × (move i net ≡ some t) × (steps schedule t ≡ some final)
unfolding steps
first_step i schedule net final h = elim (Option-cases (move i net)) [
  | inl stands ↦ absurd (some_not_none (sym h ∙ rw stands refl))
  | inr (t, moves) ↦ (t, moves, sym (rw moves refl) ∙ h)
]

no_steps : (net t : Net) → steps [] net ≡ some t → net ≡ t
unfolding steps
no_steps net t h = eq_of_some h

steps_from :
    (i : ℕ) (schedule : List ℕ) (net t final : Net)
    → move i net ≡ some t
    → steps schedule t ≡ some final
    → steps (i ∷ schedule) net ≡ some final
unfolding steps
steps_from i schedule net t final moves rest = rw moves rest

-- A program that can step can step first, and the network still ends in the same way.
step_first :
    (schedule : List ℕ) (i : ℕ) (net t final : Net)
    → IsFinal final
    → steps schedule net ≡ some final
    → move i net ≡ some t
    → (rest : List ℕ) × (suc (length rest) ≡ length schedule) × (steps rest t ≡ some final)
step_first [] i net t final stuck whole moves =
    let same : net ≡ final = no_steps net final whole in
    absurd (some_not_none (sym moves ∙ ap (move i) same ∙ stuck i))
step_first (j ∷ schedule) i net t final stuck whole moves =
    let (u, moves', whole') = first_step j schedule net final whole in
    elim (Bool-cases (i == j)) [
      | inl same ↦
          let t_u : t ≡ u =
            eq_of_some (sym moves ∙ ap (λ (k : ℕ). move k net) ((==_iff i j).0 same) ∙ moves') in
          (schedule, refl, ap (steps schedule) t_u ∙ whole')
      | inr other ↦
          let differ : i ≢ j = λ e. some_not_equal i j e other in
          let (v, j_then, i_then) = move_comm i j net t u differ moves moves' in
          let (rest, count, ended_there) = step_first schedule i u v final stuck whole' i_then in
          (j ∷ rest, ap suc count, steps_from j rest t v final j_then ended_there)
    ]
  where
    some_not_equal : (a b : ℕ) → a ≡ b → (a == b) ≡ false → ⊥
    some_not_equal a b e h = ground arith

-- If one schedule ends the network, every other can be continued to the same end, in as many steps.
pub schedule_ends :
    (whole schedule : List ℕ) (net t final : Net)
    → IsFinal final
    → steps whole net ≡ some final
    → steps schedule net ≡ some t
    → (rest : List ℕ) × (length schedule + length rest ≡ length whole) × (steps rest t ≡ some final)
schedule_ends whole [] net t final stuck ended reached =
    let same : net ≡ t = no_steps net t reached in
    (whole, omega arith, ap (steps whole) (sym same) ∙ ended)
schedule_ends whole (i ∷ schedule) net t final stuck ended reached =
    let (u, moves, reached') = first_step i schedule net t reached in
    let (whole', count, ended') = step_first whole i net u final stuck ended moves in
    let (rest, count', ended_there) =
      schedule_ends whole' schedule u t final stuck ended' reached' in
    (rest, omega (arith, count, count'), ended_there)
