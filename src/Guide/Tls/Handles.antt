-- ===== src/Guide/Tls/Handles.antt =====
-- What OpenSSL and the operating system ask of a program: a handle is used from the call that makes
-- it to the call that releases it.
use simple_vpn.Base.{ℕ, ◌≡◌, List, [], ◌∷◌, ◌++◌, Option, none, some}
use simple_vpn.Guide.Tls.{
  Call, library_init, cleanup, opens, binds, listens, dials, closes, accepts, ctx_new, ctx_free,
  check_private_key, use_certificate, use_private_key, ssl_new, set_fd, accepts_tls, connects_tls,
  reads, shuts_down, frees, writes, Program, done, exits, ◌>>=◌, behind,
}

pub data Handle : Type 0 where
  library : Handle
  fd ctx ssl : ℕ → Handle
  null : Handle

-- What a pointer to a connection stands for. No call makes `null`.
abbrev pub connection : Option ℕ → Handle
connection none = null
connection (some s) = ssl s

abbrev pub makes : Call → Option Handle
makes library_init = some library
makes (opens n) = some (fd n)
makes (accepts server n) = some (fd n)
makes (ctx_new c) = some (ctx c)
makes (ssl_new c (some s)) = some (ssl s)
makes _ = none

abbrev releases : Call → Option Handle
releases cleanup = some library
releases (closes n) = some (fd n)
releases (ctx_free c) = some (ctx c)
releases (frees (some s)) = some (ssl s)
releases _ = none

-- The handles that a call needs and keeps. SSL_free(NULL) does nothing.
abbrev needs : Call → List Handle
needs (binds n) = fd n ∷ []
needs (listens n) = fd n ∷ []
needs (dials n) = fd n ∷ []
needs (accepts server n) = fd server ∷ []
needs (ctx_new c) = library ∷ []
needs (use_certificate c path) = ctx c ∷ []
needs (use_private_key c path) = ctx c ∷ []
needs (check_private_key c) = ctx c ∷ []
needs (ssl_new c s) = ctx c ∷ []
needs (set_fd s n) = connection s ∷ fd n ∷ []
needs (accepts_tls s) = connection s ∷ []
needs (connects_tls s) = connection s ∷ []
needs (reads s) = connection s ∷ []
needs (writes s bytes) = connection s ∷ []
needs (shuts_down s) = connection s ∷ []
needs _ = []

pub data IsLive (h : Handle) : List Handle → Type 0 where
  first : {live : List Handle} → IsLive h (h ∷ live)
  next : {g : Handle} {live : List Handle} → IsLive h live → IsLive h (g ∷ live)

pub data IsWithout (h : Handle) : List Handle → List Handle → Type 0 where
  first : {live : List Handle} → IsWithout h (h ∷ live) live
  next :
      {g : Handle} {live rest : List Handle}
      → IsWithout h live rest
      → IsWithout h (g ∷ live) (g ∷ rest)

abbrev AreLive : List Handle → List Handle → Type 0
AreLive [] live = Unit
AreLive (h ∷ hs) live = IsLive h live × AreLive hs live

-- One call, between the handles alive before and after it.
pub data Step (live : List Handle) (c : Call) : List Handle → Type 0 where
  making : (h : Handle) → makes c ≡ some h → AreLive (needs c) live → Step live c (h ∷ live)
  releasing :
      (h : Handle) {rest : List Handle}
      → releases c ≡ some h
      → IsWithout h live rest
      → Step live c rest
  using : makes c ≡ none → releases c ≡ none → AreLive (needs c) live → Step live c live

pub data Steps : List Handle → List Call → List Handle → Type 0 where
  stop : {live : List Handle} → Steps live [] live
  step :
      {c : Call} {calls : List Call} {live mid end : List Handle}
      → Step live c mid
      → Steps mid calls end
      → Steps live (c ∷ calls) end

Steps-append :
    (live mid end : List Handle) (calls more : List Call)
    → Steps live calls mid
    → Steps mid more end
    → Steps live (calls ++ more) end
Steps-append live mid end [] more stop steps = steps
Steps-append live mid end (c ∷ calls) more (step s rest) steps =
    step s (Steps-append _ mid end calls more rest steps)

-- A program keeps to the rules from the handles in `live` on, and when it returns a value, those that
-- `after` names are alive.
pub data Keeps {A : Type 0} (live : List Handle) (after : A → List Handle)
    : Program A → Type 0 where
  returns :
      (a : A) {calls : List Call} → Steps live calls (after a) → Keeps live after (done a calls)
  leaves :
      {calls : List Call} {end : List Handle}
      → Steps live calls end
      → Keeps live after (exits calls)

Keeps-behind :
    {B : Type 0} {live mid : List Handle} {after : B → List Handle} (calls : List Call)
    (p : Program B)
    → Steps live calls mid
    → Keeps mid after p
    → Keeps live after (behind calls p)
Keeps-behind calls (done b more) before (returns _ rest) =
    returns b (Steps-append _ _ _ calls more before rest)
Keeps-behind calls (exits more) before (leaves rest) =
    leaves (Steps-append _ _ _ calls more before rest)

pub Keeps->>= :
    {A B : Type 0} {live : List Handle} {mid : A → List Handle} {after : B → List Handle}
    (p : Program A) (f : A → Program B)
    → Keeps live mid p
    → ((a : A) → Keeps (mid a) after (f a))
    → Keeps live after (p >>= f)
Keeps->>= (done a calls) f (returns _ steps) rest = Keeps-behind calls (f a) steps (rest a)
Keeps->>= (exits calls) f (leaves steps) rest = leaves steps
