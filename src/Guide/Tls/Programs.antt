-- ===== src/Guide/Tls/Programs.antt =====
-- doc/guide_openssl/example: the wrappers and the programs, against the rules of the handles.
use simple_vpn.Base.{ℕ, List, Bool, true, false, Option, some, if◌then◌else◌}
use simple_vpn.Guide.Tls.{Call, Program, ◌>>=◌, call, Answers}
use simple_vpn.Guide.Tls.Handles.{Handle, ssl, IsLive, Step, stop, step, Keeps, returns, Keeps->>=}

module _ {live : List Handle} where
  pub call-Keeps :
      (c : Call) {after : List Handle} → Step live c after → Keeps live (λ _. after) (call c)
  call-Keeps c s = returns tt (step s stop)

  pub if-Keeps :
      {A : Type 0} {after : A → List Handle} {p q : Program A} (b : Bool)
      → Keeps live after p
      → Keeps live after q
      → Keeps live after (if b then p else q)
  if-Keeps true k l = k
  if-Keeps false k l = l

-- The steps of a program one after another.
infixr 4 ◌then◌
pub ◌then◌ :
    {A B : Type 0} {live : List Handle} {mid : A → List Handle} {after : B → List Handle}
    {p : Program A} {f : A → Program B}
    → Keeps live mid p
    → ((a : A) → Keeps (mid a) after (f a))
    → Keeps live after (p >>= f)
k then l = Keeps->>= _ _ k l

-- A use of the connection that keeps all handles.
abbrev Uses : (Option ℕ → Program Unit) → Type 0
Uses talk =
    (live : List Handle) (s : ℕ) → IsLive (ssl s) live → Keeps live (λ _. live) (talk (some s))

-- Answers with a connection from `SSL_new`.
abbrev with_connection : Answers → ℕ → Answers
with_connection os s = record os { ssl = some s }
