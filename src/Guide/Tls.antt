-- ===== src/Guide/Tls.antt =====
-- doc/guide_openssl/example: encrypt.c with its wrappers of OpenSSL, and the programs server.c, client.c
-- and runner.c. A program is the list of the calls that it makes to OpenSSL and for its sockets; what
-- the calls answer is an argument. A connection is what `SSL_new` returns: `none` is NULL, which no
-- function tests for. Addresses, ports and constant messages are left out.
pub mod Handles
pub mod Programs
pub mod Wrappers
use simple_vpn.Base.{
  ℕ, ◌-◌, List, [], ◌∷◌, ◌++◌, Bool, true, false, ◌&&◌, ◌==◌, Option, none, some, if◌then◌else◌,
  Status, success, failure, take,
}
use simple_vpn.Memory.{Bytes}
use simple_vpn.Hosts.{chars, same_string}

pub data Call : Type 0 where
  load_error_strings library_init add_all_algorithms cleanup : Call
  opens binds listens dials closes : ℕ → Call
  accepts : ℕ → ℕ → Call
  ctx_new ctx_free check_private_key : ℕ → Call
  use_certificate use_private_key : ℕ → Bytes → Call
  ssl_new : ℕ → Option ℕ → Call
  set_fd : Option ℕ → ℕ → Call
  accepts_tls connects_tls reads shuts_down frees : Option ℕ → Call
  writes : Option ℕ → Bytes → Call
  shows : Bytes → Call

-- The calls made up to the value that is returned, or up to exit(EXIT_FAILURE).
pub data Program (A : Type 0) : Type 0 where
  done : A → List Call → Program A
  exits : List Call → Program A

abbrev behind : {A : Type 0} → List Call → Program A → Program A
behind calls (done a more) = done a (calls ++ more)
behind calls (exits more) = exits (calls ++ more)

infixl 5 ◌>>=◌ ◌>>◌
abbrev pub ◌>>=◌ : {A B : Type 0} → Program A → (A → Program B) → Program B
◌>>=◌ (done a calls) f = behind calls (f a)
◌>>=◌ (exits calls) f = exits calls

abbrev pub ◌>>◌ : {A B : Type 0} → Program A → Program B → Program B
m >> k = m >>= λ _. k

abbrev pub pure : {A : Type 0} → A → Program A
pure a = done a []

abbrev pub call : Call → Program Unit
call c = done tt (c ∷ [])

-- if (!ok) exit(EXIT_FAILURE)
abbrev pub require : Bool → Program Unit
require true = pure tt
require false = exits []

-- A call that returns a descriptor or a pointer, and leaves the program where it does not.
abbrev pub or_exits : Option ℕ → (ℕ → Call) → Program ℕ
or_exits none c = exits []
or_exits (some n) c = done n (c n ∷ [])

-- The answers of the operating system and of OpenSSL.
pub record Answers : Type 0 where
  pub socket : Option ℕ
  pub bind : Bool
  pub listen : Bool
  pub accept : Option ℕ
  pub connect : Bool
  pub context : Option ℕ
  pub certificate : Bool
  pub private_key : Bool
  pub matching : Bool
  pub ssl : Option ℕ
  pub handshake : Bool
  pub message : Option Bytes

pub init_ssl_lib : Program Unit
init_ssl_lib = do call load_error_strings; call library_init; call add_all_algorithms

pub cleanup_ssl_lib : Program Unit
cleanup_ssl_lib = call cleanup

module _ (os : Answers) where
  pub create_ssl_server_context : Program ℕ
  create_ssl_server_context = or_exits os.context ctx_new

  pub create_ssl_client_context : Program ℕ
  create_ssl_client_context = or_exits os.context ctx_new

  pub configure_context : ℕ → Bytes → Bytes → Program Unit
  configure_context ctx cert_path key_file = do
    call (use_certificate ctx cert_path)
    call (use_private_key ctx key_file)
    require (os.certificate && os.private_key)
    call (check_private_key ctx)
    require os.matching

  pub ssl_connect : ℕ → ℕ → Program (Option ℕ)
  ssl_connect sockfd ctx = do
    call (ssl_new ctx os.ssl)
    call (set_fd os.ssl sockfd)
    call (connects_tls os.ssl)
    if os.handshake then pure os.ssl else (do call (frees os.ssl); pure none)

  pub ssl_accept_connection : ℕ → Program Status
  ssl_accept_connection ctx = do
    call (ssl_new ctx os.ssl)
    call (accepts_tls os.ssl)
    if os.handshake then pure success else (do call (frees os.ssl); pure failure)

pub ssl_shutdown : Option ℕ → Program Unit
ssl_shutdown ssl = do call (shuts_down ssl); call (frees ssl)

-- What the connection is used for, in runner.c, server.c and client.c.
abbrev pub no_messages : Option ℕ → Program Unit
no_messages ssl = pure tt

-- printf("%s") of a text that ends at a NUL.
abbrev before_nul : Bytes → Bytes
before_nul [] = []
before_nul (c ∷ s) = let rest = before_nul s in if c == 0 then [] else c ∷ rest

-- The buffer has 1024 bytes, the last for a NUL.
pub read_message : Option Bytes → Option ℕ → Program Unit
read_message none ssl = call (reads ssl)
read_message (some bytes) ssl = do call (reads ssl); call (shows (before_nul (take 1023 bytes)))

pub write_message : Option ℕ → Program Unit
write_message ssl = call (writes ssl (chars "Hello, server!"))

-- `start_server` and `start_client`, of which there are two each; `talk` is what the connection is used
-- for.
module _ (os : Answers) (talk : Option ℕ → Program Unit) where
  pub start_server : Program Unit
  unfolding create_ssl_server_context configure_context ssl_shutdown
  start_server = do
    server_fd ← or_exits os.socket opens
    call (binds server_fd)
    require os.bind
    call (listens server_fd)
    require os.listen
    client_fd ← or_exits os.accept (accepts server_fd)
    ctx ← create_ssl_server_context os
    configure_context os ctx (chars "server_cert.pem") (chars "server_key.pem")
    let ssl = os.ssl
    call (ssl_new ctx ssl)
    call (set_fd ssl client_fd)
    call (accepts_tls ssl)
    if os.handshake then talk ssl else pure tt
    ssl_shutdown ssl
    call (ctx_free ctx)
    call (closes client_fd)
    call (closes server_fd)

  pub start_client : Program Unit
  unfolding create_ssl_client_context ssl_shutdown
  start_client = do
    client_fd ← or_exits os.socket opens
    call (dials client_fd)
    require os.connect
    ctx ← create_ssl_client_context os
    let ssl = os.ssl
    call (ssl_new ctx ssl)
    call (set_fd ssl client_fd)
    call (connects_tls ssl)
    if os.handshake then talk ssl else pure tt
    ssl_shutdown ssl
    call (ctx_free ctx)
    call (closes client_fd)

-- The programs: server.c, client.c, and runner.c with its arguments.
pub server_program : Answers → Program Status
unfolding init_ssl_lib cleanup_ssl_lib start_server read_message
server_program os = do
  init_ssl_lib
  start_server os (read_message os.message)
  cleanup_ssl_lib
  pure success

pub client_program : Answers → Program Status
unfolding init_ssl_lib cleanup_ssl_lib start_client write_message
client_program os = do init_ssl_lib; start_client os write_message; cleanup_ssl_lib; pure success

-- argc > 1 && strcmp(argv[1], "server") == 0
abbrev is_server : List Bytes → Bool
is_server (program ∷ role ∷ more) = same_string role (chars "server")
is_server argv = false

pub runner : Answers → List Bytes → Program Status
unfolding init_ssl_lib cleanup_ssl_lib start_server start_client
runner os argv = do
  init_ssl_lib
  if is_server argv then start_server os no_messages else start_client os no_messages
  cleanup_ssl_lib
  pure success
