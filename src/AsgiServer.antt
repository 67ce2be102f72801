-- ===== src/AsgiServer.antt =====
-- freastal/src/asgi.c, asgi_server_init(): the state of the ASGI mode, and how it is set up.
pub mod Ready
use freastal.Prelude.{
  ℕ, Bool, true, false, not, ◌&&◌, Option, none, some, List, [], ◌∷◌, ◌++◌, Bytes, if◌then◌else◌,
}
use freastal.Ascii.{codes}
use freastal.Asgi.Scope.{Scope, scope_template}
use freastal.Asgi.EventLoop.Wakeups.{Wakeups, at_rest}

infixl 5 ◌>>=◌
-- loop._selector and its fileno(): there is none, it raised or gave no int, or it gave a negative
-- number or a descriptor.
pub data Selector : Type 0 where
  missing unusable negative : Selector
  descriptor : ℕ → Selector

-- What CPython, asyncio and libuv answer: whether an attribute of the loop is there, whether a text is
-- interned, whether asyncio._set_running_loop() could be imported and called, whether the bridge and
-- its function could be imported, and whether the objects of the template could be made.
pub record AsgiPython : Type 0 where
  pub attribute : Bytes → Bool
  pub intern : Bytes → Bool
  pub set_running_loop : Bool
  pub protocol_module : Bool
  pub run_asgi_request : Bool
  pub empty_bytes : Bool
  pub version_dict : Bool
  pub version : Bool
  pub server_tuple : Bytes → ℕ → Bool
  pub new_dict : Bool
  pub set_item : Bytes → Bool
  pub copy_dict : Bool
  pub set_scheme : Bool
  pub selector : Selector
  pub uv_poll_init : ℕ → Bool

-- The fields of g_server for the ASGI mode, the running loop of the thread, and whether an exception
-- stands. The attributes are those that were fetched, the last first.
pub record AsgiServer : Type 0 where
  pub asgi_mode : Bool
  pub attributes : List Bytes
  pub asgi_run_request : Bool
  pub running_loop : Bool
  pub has_version : Bool
  pub asgi_scope_template : Option Scope
  pub asgi_scope_template_https : Option Scope
  pub check_started : Bool
  pub wakeups : Wakeups
  pub asgi_poll_active : Bool
  pub exception : Bool

-- The fields after the memset() of server_init().
abbrev pub wsgi_mode : AsgiServer
wsgi_mode = record {
  asgi_mode = false;
  attributes = [];
  asgi_run_request = false;
  running_loop = false;
  has_version = false;
  asgi_scope_template = none;
  asgi_scope_template_https = none;
  check_started = false;
  wakeups = at_rest;
  asgi_poll_active = false;
  exception = false;
}

-- The rest of the function, unless it has returned -1.
abbrev pub ◌>>=◌ : AsgiServer × Bool → (AsgiServer → AsgiServer × Bool) → AsgiServer × Bool
(s, true) >>= f = f s
(s, false) >>= f = (s, false)

-- An object that is made, or -1 with the exception of CPython.
abbrev pub need : Bool → AsgiServer → AsgiServer × Bool
need b s = if b then (s, true) else (record s { exception = true }, false)

abbrev pub all_of : (Bytes → Bool) → List Bytes → Bool
all_of p [] = true
all_of p (n ∷ ns) = p n && all_of p ns

abbrev pub loop_attributes : List Bytes
loop_attributes = codes "_run_once" ∷ codes "_ready" ∷ codes "_scheduled" ∷ codes "time" ∷ []

abbrev pub driver_names : List Bytes
driver_names = codes "popleft" ∷ codes "_run" ∷ codes "_cancelled" ∷ codes "_when" ∷ []

-- The names of the constants; "https" is there in a build with TLS.
abbrev pub constant_names : Bool → List Bytes
constant_names has_tls =
    codes "http"
    ∷ codes "1.1"
    ∷ codes "1.0"
    ∷ ((if has_tls then codes "https" ∷ [] else []) ++ ([] ∷ []))

-- The keys of the template, in its order.
abbrev pub scope_keys : List Bytes
scope_keys =
    codes "type"
    ∷ codes "asgi"
    ∷ codes "root_path"
    ∷ codes "scheme"
    ∷ codes "server"
    ∷ codes "http_version"
    ∷ codes "method"
    ∷ codes "path"
    ∷ codes "raw_path"
    ∷ codes "query_string"
    ∷ codes "client"
    ∷ codes "headers"
    ∷ []

-- asgi_keys_t: the keys that a request stores.
abbrev pub request_keys : List Bytes
request_keys =
    codes "http_version"
    ∷ codes "method"
    ∷ codes "path"
    ∷ codes "raw_path"
    ∷ codes "query_string"
    ∷ codes "client"
    ∷ codes "headers"
    ∷ []

unfoldable pub fetch_attributes : (Bytes → Bool) → List Bytes → AsgiServer → AsgiServer × Bool
fetch_attributes p [] s = (s, true)
fetch_attributes p (n ∷ ns) s =
    let rest = fetch_attributes p ns (record s { attributes = n ∷ s.attributes }) in
    if p n then rest else (record s { exception = true }, false)

-- Whatever fails around asyncio._set_running_loop(), its exception is cleared.
abbrev pub set_running : AsgiPython → AsgiServer → AsgiServer
set_running py s = record s { running_loop = py.set_running_loop; exception = false }

unfoldable pub import_bridge : AsgiPython → AsgiServer → AsgiServer × Bool
import_bridge py s = need (py.protocol_module && py.run_asgi_request) s >>= λ s'.
    (record s' { asgi_run_request = true }, true)

-- The constants. A version that cannot be made leaves its exception, and the function goes on.
unfoldable pub build_constants : Bool → AsgiPython → Bytes → ℕ → AsgiServer → AsgiServer × Bool
build_constants has_tls py host port s =
    need
      (all_of py.intern (constant_names has_tls)
        && (py.empty_bytes && (py.version_dict && py.server_tuple host port)))
      (record s {
        has_version = py.version_dict && py.version;
        exception = not (py.version_dict && py.version);
      })

-- The template with the keys that a request stores. A dict that could not be filled counts as none.
unfoldable pub build_template : AsgiPython → Bytes → ℕ → AsgiServer → AsgiServer × Bool
build_template py host port s =
    need (py.new_dict && (all_of py.set_item scope_keys && all_of py.intern request_keys)) s
    >>= λ s'. (record s' { asgi_scope_template = some (scope_template (host, port) false) }, true)

-- The copy for encrypted connections, in a build with TLS: a copy of the template, of which the scheme
-- is overwritten.
unfoldable pub build_https_template : Bool → AsgiPython → Bytes → ℕ → AsgiServer → AsgiServer × Bool
build_https_template has_tls py host port s =
    if not has_tls
    then (s, true)
    else need py.copy_dict s >>= λ s1.
        need py.set_scheme (record s1 { asgi_scope_template_https = s1.asgi_scope_template })
        >>= λ s2. (
          record s2 { asgi_scope_template_https = some (scope_template (host, port) true) },
          true,
        )

-- uv_check_start(), and the idle and timer handles, which are started on demand.
abbrev pub start_handles : AsgiServer → AsgiServer
start_handles s = record s { check_started = true; wakeups = at_rest }

unfoldable pub polls : AsgiPython → Bool
polls py = elim py.selector [
  | missing ↦ false
  | unusable ↦ false
  | negative ↦ false
  | descriptor fd ↦ py.uv_poll_init fd
]

-- The descriptor of asyncio's selector, unless an exception stands by then; it is cleared.
abbrev pub watch_selector : AsgiPython → AsgiServer → AsgiServer
watch_selector py s = record s { asgi_poll_active = not s.exception && polls py; exception = false }

-- asgi_server_init(); true is 0, false -1.
unfoldable pub asgi_server_init : Bool → AsgiPython → Bytes → ℕ → AsgiServer → AsgiServer × Bool
unfolding fetch_attributes import_bridge build_constants build_template build_https_template polls
asgi_server_init has_tls py host port s =
    fetch_attributes py.attribute loop_attributes s
    >>= need (all_of py.intern driver_names)
    >>= (λ s1. import_bridge py (set_running py s1))
    >>= build_constants has_tls py host port
    >>= build_template py host port
    >>= build_https_template has_tls py host port
    >>= λ s2. (record (watch_selector py (start_handles s2)) { asgi_mode = true }, true)

-- The template that build_asgi_scope() copies; the flag tells whether the connection is encrypted.
unfoldable pub template_of : AsgiServer → Bool → Option Scope
template_of s is_tls = if is_tls then s.asgi_scope_template_https else s.asgi_scope_template
