-- ===== src/Guide/Tls/Wrappers.antt =====
-- doc/guide_openssl/example/encrypt.c: the two functions that make a connection, against the rules of
-- the handles.
use simple_vpn.Base.{
  ℕ, ◌≡◌, ◌↔◌, refl, sym, ap, ◌∙◌, List, [], ◌∷◌, Bool, true, false, Option, none, some,
  if◌then◌else◌, Status, success, failure, some_not_none, arith,
}
use simple_vpn.Guide.Tls.{
  Call, load_error_strings, library_init, add_all_algorithms, cleanup, opens, binds, listens, dials,
  closes, accepts, ctx_new, ctx_free, check_private_key, use_certificate, use_private_key, ssl_new,
  set_fd, accepts_tls, connects_tls, reads, shuts_down, frees, writes, shows, Program, done, exits,
  behind, Answers, ssl_connect, ssl_accept_connection,
}
use simple_vpn.Guide.Tls.Handles.{
  Handle, library, fd, ctx, ssl, null, connection, makes, IsLive, IsWithout, first, next, Step,
  making, releasing, using, stop, step, Keeps, returns, leaves,
}
use simple_vpn.Guide.Tls.Programs.{call-Keeps, if-Keeps, ◌then◌}

-- No call makes NULL.
abbrev is_null : Option Handle → Bool
is_null none = false
is_null (some library) = false
is_null (some (fd n)) = false
is_null (some (ctx n)) = false
is_null (some (ssl n)) = false
is_null (some null) = true

is_null-makes : (c : Call) → is_null (makes c) ≡ false
is_null-makes load_error_strings = refl
is_null-makes library_init = refl
is_null-makes add_all_algorithms = refl
is_null-makes cleanup = refl
is_null-makes (opens n) = refl
is_null-makes (binds n) = refl
is_null-makes (listens n) = refl
is_null-makes (dials n) = refl
is_null-makes (closes n) = refl
is_null-makes (accepts n m) = refl
is_null-makes (ctx_new n) = refl
is_null-makes (ctx_free n) = refl
is_null-makes (check_private_key n) = refl
is_null-makes (use_certificate n path) = refl
is_null-makes (use_private_key n path) = refl
is_null-makes (ssl_new n none) = refl
is_null-makes (ssl_new n (some s)) = refl
is_null-makes (set_fd p n) = refl
is_null-makes (accepts_tls p) = refl
is_null-makes (connects_tls p) = refl
is_null-makes (reads p) = refl
is_null-makes (shuts_down p) = refl
is_null-makes (frees p) = refl
is_null-makes (writes p bytes) = refl
is_null-makes (shows bytes) = refl

null_behind :
    (h : Handle) (live : List Handle)
    → is_null (some h) ≡ false
    → IsLive null (h ∷ live)
    → IsLive null live
null_behind null live other first = ground arith
null_behind h live other (next alive) = alive

null_before :
    {h : Handle} {live rest : List Handle}
    → IsWithout h live rest
    → IsLive null rest
    → IsLive null live
null_before first alive = next alive
null_before (next without) first = first
null_before (next without) (next alive) = next (null_before without alive)

-- A step brings no NULL among the handles.
null_step :
    (live mid : List Handle) (c : Call) → Step live c mid → IsLive null mid → IsLive null live
null_step live mid c (making h made _) alive =
    null_behind h live (ap is_null (sym made) ∙ is_null-makes c) alive
null_step live mid c (releasing h _ without) alive = null_before without alive
null_step live mid c (using _ _ _) alive = alive

set_fd_null : (live mid : List Handle) (n : ℕ) → Step live (set_fd none n) mid → IsLive null live
set_fd_null live mid n (making h made _) = absurd (some_not_none (sym made))
set_fd_null live mid n (releasing h released _) = absurd (some_not_none (sym released))
set_fd_null live mid n (using _ _ alive) = alive.0

accepts_null : (live mid : List Handle) → Step live (accepts_tls none) mid → IsLive null live
accepts_null live mid (making h made _) = absurd (some_not_none (sym made))
accepts_null live mid (releasing h released _) = absurd (some_not_none (sym released))
accepts_null live mid (using _ _ alive) = alive.0

-- The first call of a program.
first_call :
    {A : Type 0} {live : List Handle} {after : A → List Handle} (c : Call) (p : Program A)
    → Keeps live after (behind (c ∷ []) p)
    → (mid : List Handle) × Step live c mid × Keeps mid after p
first_call c (done a more) (returns _ (step s rest)) = (_, s, returns a rest)
first_call c (exits more) (leaves (step s rest)) = (_, s, leaves rest)

-- The handles after `ssl_connect` and after `ssl_accept_connection`.
abbrev pub connected : List Handle → Option ℕ → List Handle
connected live none = live
connected live (some s) = ssl s ∷ live

abbrev pub accepted : List Handle → Option ℕ → Status → List Handle
accepted live p failure = live
accepted live p success = connection p ∷ live

abbrev with_ssl : Answers → Option ℕ → Answers
with_ssl os p = record os { ssl = p }

module _ (os : Answers) (sockfd c : ℕ) (live : List Handle) where
  abbrev given : List Handle
  given = ctx c ∷ fd sockfd ∷ live

  abbrev ConnectKeeps : Option ℕ → Type 0
  ConnectKeeps p = Keeps given (connected given) (ssl_connect (with_ssl os p) sockfd c)

  abbrev AcceptKeeps : Option ℕ → Type 0
  AcceptKeeps p = Keeps given (accepted given p) (ssl_accept_connection (with_ssl os p) c)

  connect_made : (s : ℕ) → ConnectKeeps (some s)
  unfolding ssl_connect
  connect_made s = call-Keeps (ssl_new c (some s)) (making (ssl s) refl (first, tt)) then λ _.
      call-Keeps (set_fd (some s) sockfd) (using refl refl (first, (next (next first), tt)))
      then λ _. call-Keeps (connects_tls (some s)) (using refl refl (first, tt)) then λ _.
          if-Keeps os.handshake (returns (some s) stop)
            (call-Keeps (frees (some s)) (releasing (ssl s) refl first) then λ _. returns none stop)

  accept_made : (s : ℕ) → AcceptKeeps (some s)
  unfolding ssl_accept_connection
  accept_made s = call-Keeps (ssl_new c (some s)) (making (ssl s) refl (first, tt)) then λ _.
      call-Keeps (accepts_tls (some s)) (using refl refl (first, tt)) then λ _.
      if-Keeps os.handshake (returns success stop)
        (call-Keeps (frees (some s)) (releasing (ssl s) refl first) then λ _. returns failure stop)

  null_given : IsLive null given → IsLive null live
  null_given (next (next alive)) = alive

  connect_null : ConnectKeeps none → IsLive null live
  unfolding ssl_connect
  connect_null keeps =
      let (mid, made, rest) = first_call (ssl_new c none) _ keeps in
      let (_, used, _) = first_call (set_fd none sockfd) _ rest in
      null_given (null_step given mid (ssl_new c none) made (set_fd_null mid _ sockfd used))

  accept_null : AcceptKeeps none → IsLive null live
  unfolding ssl_accept_connection
  accept_null keeps =
      let (mid, made, rest) = first_call (ssl_new c none) _ keeps in
      let (_, used, _) = first_call (accepts_tls none) _ rest in
      null_given (null_step given mid (ssl_new c none) made (accepts_null mid _ used))

  by_pointer :
      (P : Option ℕ → Type 0) (p : Option ℕ)
      → ((s : ℕ) → P (some s))
      → (P none → ⊥)
      → P p ↔ ((s : ℕ) × (p ≡ some s))
  by_pointer P none made missing = (λ k. absurd (missing k), λ h. absurd (some_not_none (sym h.1)))
  by_pointer P (some s) made missing = (λ k. (s, refl), λ h. made s)

  -- With a live context and socket, NULL not among the live handles, and whatever OpenSSL answers:
  -- `ssl_connect` makes its calls on live handles only, with a connection alive at its end exactly
  -- where it returns one, if and only if `SSL_new` returns a connection and not NULL; and
  -- `ssl_accept_connection` makes its calls on live handles only, with a connection alive at its
  -- end exactly where it returns success, if and only if `SSL_new` returns a connection.
  pub wrappers-Keeps_iff :
      ¬ IsLive null live
      → (Keeps given (connected given) (ssl_connect os sockfd c) ↔ ((s : ℕ) × (os.ssl ≡ some s)))
        × (Keeps given (accepted given os.ssl) (ssl_accept_connection os c)
            ↔ ((s : ℕ) × (os.ssl ≡ some s)))
  wrappers-Keeps_iff no_null = (
    by_pointer ConnectKeeps os.ssl connect_made (λ k. no_null (connect_null k)),
    by_pointer AcceptKeeps os.ssl accept_made (λ k. no_null (accept_null k)),
  )
