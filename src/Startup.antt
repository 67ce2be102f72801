-- ===== src/Startup.antt =====
-- freastal/src/server.c and freastalmodule.c, the start of a server: server_init(), serve_init(),
-- py_serve() and server_reuseport_supported(). What CPython, libuv and the kernel answer is an
-- argument; memory that CPython runs out of stands among its answers.
pub mod Keys
pub mod Sockets
pub mod Stages
pub mod Outcome
pub mod Files
pub mod ServeAsgi
pub mod Tests
use freastal.Prelude.{
  ℕ, Bool, true, false, not, ◌&&◌, ◌||◌, Option, none, some, List, [], ◌∷◌, Bytes, take, is_some,
  if◌then◌else◌,
}
use freastal.Environ.{Config}
use freastal.Startup.Keys.{Python, init_wsgi_keys}
use freastal.TicketRing.Hook.{Process}
use freastal.TicketRing.Region.{Kernel, Os, with_fd, close}
use freastal.TlsServer.{TlsServer, TlsFiles, clear_tls, tls_server_init}

-- What setup.py found: FREASTAL_TLS and FREASTAL_REUSEPORT.
pub record Build : Type 0 where
  pub has_tls : Bool
  pub has_reuse_port : Bool

-- The arguments of serve() behind the application; a descriptor that is negative is none.
pub record Arguments : Type 0 where
  pub host : Bytes
  pub port : ℕ
  pub reuse_port : Bool
  pub certfile : Option Bytes
  pub keyfile : Option Bytes
  pub listen_fd : Option ℕ
  pub ring_fd : Option ℕ

-- What uv_tcp_bind() does: it makes the socket of the handle, which stays with the handle also if it
-- cannot be bound.
pub data Bind : Type 0 where
  no_socket : Bind
  unbound bound_as : ℕ → Bind

-- libuv and dup(); the address is what uv_ip4_addr() makes of a host and a port.
pub record Network : Type 0 where
  pub dup : ℕ → Option ℕ
  pub uv_tcp_open : ℕ → Bool
  pub uv_ip4_addr : Bytes → ℕ → Option Bytes
  pub uv_tcp_bind : Bytes → Bool → Bind
  pub uv_listen : Bool

-- The Python exception that stands when a function has returned -1.
pub data Raised : Type 0 where
  runtime_error os_error value_error type_error other_error : Raised

-- 0, or -1 with the exception, if there is one.
pub data Rc : Type 0 where
  ok : Rc
  failed : Option Raised → Rc

-- The socket that is served: a copy of the caller's descriptor, or one bound to an address, with or
-- without UV_TCP_REUSEPORT, with its descriptor.
pub data Listener : Type 0 where
  inherited : ℕ → Listener
  bound : Bytes → Bool → ℕ → Listener

-- g_server, as far as it is set here.
pub record Server : Type 0 where
  pub host : Bytes
  pub port : ℕ
  pub keys : Option Config
  pub listener : Option Listener
  pub listening : Bool
  pub tls : TlsServer

pub record Machine : Type 0 where
  pub build : Build
  pub python : Python
  pub network : Network
  pub os : Os
  pub files : TlsFiles

-- memset(), and the host in its 64 bytes.
abbrev pub clear_server : Arguments → Process → Server
clear_server args p = record {
  host = take 63 args.host;
  port = args.port;
  keys = none;
  listener = none;
  listening = false;
  tls = clear_tls (record p { tls_enabled = false });
}

-- From pool_init() to wsgi_init_environ_template().
unfoldable pub prepare : Machine → Server → Server × Rc
prepare m s =
    if not m.python.pool
    then (s, failed none)
    else elim (init_wsgi_keys m.build.has_tls m.python s.host s.port) [
      | none ↦ (s, failed (some other_error))
      | some keys ↦
          let s' = record s { keys = some keys } in
          if m.python.hdr_cache && (m.python.empty_input && m.python.template)
          then (s', ok)
          else (s', failed (some other_error))
    ]

-- The branch `listen_fd >= 0`.
unfoldable pub open_inherited : Network → ℕ → Server → Kernel → Server × Kernel × Rc
open_inherited net fd s k = elim (net.dup fd) [
  | none ↦ (s, k, failed (some os_error))
  | some copy ↦
      if net.uv_tcp_open copy
      then (record s { listener = some (inherited copy) }, with_fd copy k, ok)
      else (s, close copy (with_fd copy k), failed (some os_error))
]

-- The other branch: the flag is dropped where libuv has none.
unfoldable pub bind_address : Build → Network → Arguments → Server → Kernel → Server × Kernel × Rc
bind_address build net args s k = elim (net.uv_ip4_addr args.host args.port) [
  | none ↦ (s, k, failed (some value_error))
  | some address ↦
      let flag = build.has_reuse_port && args.reuse_port in
      elim (net.uv_tcp_bind address flag) [
        | no_socket ↦ (s, k, failed (some os_error))
        | unbound fd ↦ (s, with_fd fd k, failed (some os_error))
        | bound_as fd ↦ (record s { listener = some (bound address flag fd) }, with_fd fd k, ok)
      ]
]

unfoldable pub open_listener : Build → Network → Arguments → Server → Kernel → Server × Kernel × Rc
open_listener build net args s k = elim args.listen_fd [
  | some fd ↦ open_inherited net fd s k
  | none ↦ bind_address build net args s k
]

-- tls_server_init() sets no exception.
unfoldable pub start_tls : Machine → Arguments → Server → Kernel → Server × Kernel × Rc
start_tls m args s k =
    let (t, k', done) = tls_server_init m.os m.files args.ring_fd s.tls.process k in
    if m.build.has_tls && (is_some args.certfile && is_some args.keyfile)
    then (record s { tls = t }, k', if done then ok else failed none)
    else (s, k, ok)

-- uv_listen() and what follows it. A server that fails here or later keeps its socket, and one that
-- TLS fails for keeps listening.
unfoldable pub listen_and_start : Machine → Arguments → Server × Kernel × Rc → Server × Kernel × Rc
listen_and_start m args (s, k, failed e) = (s, k, failed e)
listen_and_start m args (s, k, ok) =
    if m.network.uv_listen
    then start_tls m args (record s { listening = true }) k
    else (s, k, failed (some os_error))

unfoldable pub after_prepare : Machine → Arguments → Kernel → Server × Rc → Server × Kernel × Rc
after_prepare m args k (s, failed e) = (s, k, failed e)
after_prepare m args k (s, ok) = listen_and_start m args (open_listener m.build m.network args s k)

unfoldable pub server_init : Machine → Arguments → Server → Kernel → Server × Kernel × Rc
server_init m args g k =
    if not m.build.has_tls && (is_some args.certfile || is_some args.keyfile)
    then (g, k, failed (some runtime_error))
    else after_prepare m args k (prepare m (clear_server args g.tls.process))

abbrev pub close_ring : Option ℕ → Kernel → Kernel
close_ring none k = k
close_ring (some fd) k = close fd k

abbrev pub with_exception : Rc → Rc
with_exception ok = ok
with_exception (failed none) = failed (some runtime_error)
with_exception (failed (some e)) = failed (some e)

unfoldable pub serve_init : Machine → Arguments → Server → Kernel → Server × Kernel × Rc
serve_init m args g k =
    let (s, k', rc) = server_init m args g k in (s, close_ring args.ring_fd k', with_exception rc)

-- py_serve() up to server_run(); the flag is PyCallable_Check() of the application.
unfoldable pub py_serve : Machine → Bool → Arguments → Server → Kernel → Server × Kernel × Rc
py_serve m callable args g k =
    if not callable then (g, k, failed (some type_error)) else serve_init m args g k

-- server_reuseport_supported(): what libuv answers when it is asked, none if the loop cannot be made,
-- and the answer that is kept.
unfoldable pub server_reuseport_supported : Build → Option Bool → Option Bool → Option Bool × Bool
server_reuseport_supported build probe cached =
    if not build.has_reuse_port then (cached, false) else elim cached [
      | some answer ↦ (some answer, answer)
      | none ↦ elim probe [ none ↦ (none, false) | some supported ↦ (some supported, supported) ]
    ]
