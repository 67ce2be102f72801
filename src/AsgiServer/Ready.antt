-- ===== src/AsgiServer/Ready.antt =====
-- freastal/src/asgi.c: what asgi_server_init() leaves.
use freastal.Prelude.{
  ℕ, ◌≡◌, refl, sym, Bool, true, false, not, ◌&&◌, none, some, List, [], ◌∷◌, Bytes, if_cases,
  if◌then◌else◌, subst, arith,
}
use freastal.Ascii.{codes}
use freastal.Asgi.Scope.{scope_template}
use freastal.Asgi.EventLoop.Wakeups.{at_rest}
use freastal.AsgiServer.{
  AsgiPython, AsgiServer, wsgi_mode, ◌>>=◌, need, all_of, loop_attributes, driver_names,
  fetch_attributes, constant_names, scope_keys, request_keys, set_running, import_bridge,
  build_constants, build_template, build_https_template, start_handles, polls, watch_selector,
  asgi_server_init,
}

-- After 0 the state is the given one; after -1 an exception stands, and the ASGI mode is off.
abbrev Gives : AsgiServer → AsgiServer × Bool → Type 0
Gives t (s, true) = s ≡ t
Gives t (s, false) = (s.exception ≡ true) × (s.asgi_mode ≡ false)

Gives-bind :
    (t u : AsgiServer) (r : AsgiServer × Bool) (f : AsgiServer → AsgiServer × Bool)
    → Gives t r
    → Gives u (f t)
    → Gives u (r >>= f)
Gives-bind t u (s, true) f h k = rw h k
Gives-bind t u (s, false) f h k = h

need-Gives : (b : Bool) (s : AsgiServer) → s.asgi_mode ≡ false → Gives s (need b s)
need-Gives b s h = if_cases (Gives s) b (λ _. refl) λ _. (refl, h)

need_and_set-Gives :
    (b : Bool) (s : AsgiServer) (f : AsgiServer → AsgiServer)
    → s.asgi_mode ≡ false
    → Gives (f s) (need b s >>= λ x. (f x, true))
need_and_set-Gives true s f h = refl
need_and_set-Gives false s f h = (refl, h)

abbrev fetched : List Bytes → AsgiServer → AsgiServer
fetched [] s = s
fetched (n ∷ ns) s = fetched ns (record s { attributes = n ∷ s.attributes })

fetch-Gives :
    (p : Bytes → Bool) (ns : List Bytes) (s : AsgiServer)
    → s.asgi_mode ≡ false
    → Gives (fetched ns s) (fetch_attributes p ns s)
unfolding fetch_attributes
fetch-Gives p [] s h = refl
fetch-Gives p (n ∷ ns) s h =
    if_cases (Gives (fetched (n ∷ ns) s)) (p n)
      (λ _. fetch-Gives p ns (record s { attributes = n ∷ s.attributes }) h) λ _. (refl, h)

import-Gives :
    (py : AsgiPython) (s : AsgiServer)
    → s.asgi_mode ≡ false
    → Gives (record s { asgi_run_request = true }) (import_bridge py s)
unfolding import_bridge
import-Gives py s h =
    need_and_set-Gives (py.protocol_module && py.run_asgi_request) s
      (λ x. record x { asgi_run_request = true }) h

abbrev with_version : AsgiPython → AsgiServer → AsgiServer
with_version py s = record s {
  has_version = py.version_dict && py.version;
  exception = not (py.version_dict && py.version);
}

constants-Gives :
    (has_tls : Bool) (py : AsgiPython) (host : Bytes) (port : ℕ) (s : AsgiServer)
    → s.asgi_mode ≡ false
    → Gives (with_version py s) (build_constants has_tls py host port s)
unfolding build_constants
constants-Gives has_tls py host port s h =
    need-Gives
      (all_of py.intern (constant_names has_tls)
        && (py.empty_bytes && (py.version_dict && py.server_tuple host port)))
      (with_version py s) h

template-Gives :
    (py : AsgiPython) (host : Bytes) (port : ℕ) (s : AsgiServer)
    → s.asgi_mode ≡ false
    → Gives
        (record s { asgi_scope_template = some (scope_template (host, port) false) })
        (build_template py host port s)
unfolding build_template
template-Gives py host port s h =
    need_and_set-Gives
      (py.new_dict && (all_of py.set_item scope_keys && all_of py.intern request_keys)) s
      (λ x. record x { asgi_scope_template = some (scope_template (host, port) false) }) h

abbrev with_https : Bool → Bytes → ℕ → AsgiServer → AsgiServer
with_https has_tls host port s = record s {
  asgi_scope_template_https =
      if not has_tls then s.asgi_scope_template_https else some (scope_template (host, port) true);
}

https-Gives :
    (has_tls : Bool) (py : AsgiPython) (host : Bytes) (port : ℕ) (s : AsgiServer)
    → s.asgi_mode ≡ false
    → Gives (with_https has_tls host port s) (build_https_template has_tls py host port s)
unfolding build_https_template
https-Gives false py host port s h = refl
https-Gives true py host port s h =
    let s' = record s { asgi_scope_template_https = s.asgi_scope_template } in
    Gives-bind s (with_https true host port s) (need py.copy_dict s)
      (λ x.
        need py.set_scheme (record x { asgi_scope_template_https = x.asgi_scope_template }) >>= λ y.
        (record y { asgi_scope_template_https = some (scope_template (host, port) true) }, true))
      (need-Gives py.copy_dict s h)
      (need_and_set-Gives py.set_scheme s'
        (λ y. record y { asgi_scope_template_https = some (scope_template (host, port) true) }) h)

-- What asgi_server_init() leaves when it returns 0.
pub record IsBridged (has_tls : Bool) (py : AsgiPython) (host : Bytes) (port : ℕ) (s : AsgiServer)
    : Type 0 where
  pub asgi_mode : s.asgi_mode ≡ true
  pub no_exception : s.exception ≡ false
  pub run_once :
      s.attributes ≡ codes "time" ∷ codes "_scheduled" ∷ codes "_ready" ∷ codes "_run_once" ∷ []
  pub run_request : s.asgi_run_request ≡ true
  pub template : s.asgi_scope_template ≡ some (scope_template (host, port) false)
  pub template_https :
      has_tls ≡ true → s.asgi_scope_template_https ≡ some (scope_template (host, port) true)
  pub handles : (s.check_started ≡ true) × (s.wakeups ≡ at_rest)
  pub poll : s.asgi_poll_active ≡ ((py.version_dict && py.version) && polls py)
  pub running_loop : s.running_loop ≡ py.set_running_loop
  pub version : s.has_version ≡ (py.version_dict && py.version)

abbrev bridged : Bool → AsgiPython → Bytes → ℕ → AsgiServer
bridged has_tls py host port = record {
  asgi_mode = true;
  attributes = codes "time" ∷ codes "_scheduled" ∷ codes "_ready" ∷ codes "_run_once" ∷ [];
  asgi_run_request = true;
  running_loop = py.set_running_loop;
  has_version = py.version_dict && py.version;
  asgi_scope_template = some (scope_template (host, port) false);
  asgi_scope_template_https = if not has_tls then none else some (scope_template (host, port) true);
  check_started = true;
  wakeups = at_rest;
  asgi_poll_active = not (not (py.version_dict && py.version)) && polls py;
  exception = false;
}

init-Gives :
    (has_tls : Bool) (py : AsgiPython) (host : Bytes) (port : ℕ)
    → Gives (bridged has_tls py host port) (asgi_server_init has_tls py host port wsgi_mode)
unfolding asgi_server_init
init-Gives has_tls py host port =
    let s1 = fetched loop_attributes wsgi_mode in
    let s2 = record (set_running py s1) { asgi_run_request = true } in
    let s3 = with_version py s2 in
    let s4 = record s3 { asgi_scope_template = some (scope_template (host, port) false) } in
    let s5 = with_https has_tls host port s4 in
    let fetch = fetch_attributes py.attribute loop_attributes wsgi_mode in
    let r1 = fetch >>= need (all_of py.intern driver_names) in
    let r2 = r1 >>= λ s. import_bridge py (set_running py s) in
    let r3 = r2 >>= build_constants has_tls py host port in
    let r4 = r3 >>= build_template py host port in
    let r5 = r4 >>= build_https_template has_tls py host port in
    let g1 =
      Gives-bind s1 s1 fetch (need (all_of py.intern driver_names))
        (fetch-Gives py.attribute loop_attributes wsgi_mode refl)
        (need-Gives (all_of py.intern driver_names) s1 refl) in
    let g2 =
      Gives-bind s1 s2 r1 (λ s. import_bridge py (set_running py s)) g1
        (import-Gives py (set_running py s1) refl) in
    let g3 =
      Gives-bind s2 s3 r2 (build_constants has_tls py host port) g2
        (constants-Gives has_tls py host port s2 refl) in
    let g4 =
      Gives-bind s3 s4 r3 (build_template py host port) g3 (template-Gives py host port s3 refl) in
    let g5 =
      Gives-bind s4 s5 r4 (build_https_template has_tls py host port) g4
        (https-Gives has_tls py host port s4 refl) in
    Gives-bind s5 (bridged has_tls py host port) r5
      (λ s. (record (watch_selector py (start_handles s)) { asgi_mode = true }, true)) g5 refl

bridged-IsBridged :
    (has_tls : Bool) (py : AsgiPython) (host : Bytes) (port : ℕ)
    → IsBridged has_tls py host port (bridged has_tls py host port)
bridged-IsBridged has_tls py host port = record {
  asgi_mode = refl;
  no_exception = refl;
  run_once = refl;
  run_request = refl;
  template = refl;
  template_https = λ h. rw h refl;
  handles = (refl, refl);
  poll = ground arith;
  running_loop = refl;
  version = refl;
}

-- Either end of asgi_server_init().
abbrev pub IsInit : Bool → AsgiPython → Bytes → ℕ → AsgiServer × Bool → Type 0
IsInit has_tls py host port (s, true) = IsBridged has_tls py host port s
IsInit has_tls py host port (s, false) = (s.exception ≡ true) × (s.asgi_mode ≡ false)

given-IsInit :
    (has_tls : Bool) (py : AsgiPython) (host : Bytes) (port : ℕ) (r : AsgiServer × Bool)
    → Gives (bridged has_tls py host port) r
    → IsInit has_tls py host port r
given-IsInit has_tls py host port (s, true) h =
    subst (IsBridged has_tls py host port) (sym h) (bridged-IsBridged has_tls py host port)
given-IsInit has_tls py host port (s, false) h = h

-- If asgi_server_init() returns 0, the ASGI mode is on, no exception stands, the four methods of the
-- loop and the bridge are there, and so are the template and, in a build with TLS, its copy for
-- encrypted connections; the check runs, and the idle handle and the timer are at rest. If it
-- returns -1, an exception stands and the mode is off.
pub asgi_server_init_lem :
    (has_tls : Bool) (py : AsgiPython) (host : Bytes) (port : ℕ)
    → IsInit has_tls py host port (asgi_server_init has_tls py host port wsgi_mode)
asgi_server_init_lem has_tls py host port =
    given-IsInit has_tls py host port (asgi_server_init has_tls py host port wsgi_mode)
      (init-Gives has_tls py host port)
