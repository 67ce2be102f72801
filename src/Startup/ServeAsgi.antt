-- ===== src/Startup/ServeAsgi.antt =====
-- freastal/src/freastalmodule.c, py_serve_asgi(): a start in ASGI mode.
use freastal.Prelude.{
  ℕ, ◌≡◌, refl, ◌∙◌, ◌⊎◌, inl, inr, Bool, true, false, not, Option, some, List, take, if_cases,
  Bool-cases, if◌then◌else◌,
}
use freastal.Asgi.Scope.{scope_template}
use freastal.AsgiServer.{AsgiPython, AsgiServer, wsgi_mode, asgi_server_init, template_of}
use freastal.AsgiServer.Ready.{IsBridged, IsInit, asgi_server_init_lem}
use freastal.Startup.{
  Arguments, Raised, runtime_error, type_error, other_error, Rc, ok, failed, Server, Machine,
  serve_init,
}
use freastal.Startup.Sockets.{IsUp, IsDown}
use freastal.Startup.Outcome.{IsServing, without, serve_init_lem}
use freastal.TicketRing.Region.{Kernel}

-- What the function comes to: server_run() with the state of the ASGI mode, or NULL with the exception,
-- if there is one.
pub data Run : Type 0 where
  server_run : AsgiServer → Run
  null : Option Raised → Run

unfoldable pub after_asgi_init : AsgiServer × Bool → Run
after_asgi_init (a, true) = server_run a
after_asgi_init (a, false) = null (some (if a.exception then other_error else runtime_error))

unfoldable pub after_serve_init :
    Machine → AsgiPython → Server × Kernel × Rc → Server × Kernel × Run
unfolding after_asgi_init
after_serve_init m py (s, k, failed e) = (s, k, null e)
after_serve_init m py (s, k, ok) =
    (s, k, after_asgi_init (asgi_server_init m.build.has_tls py s.host s.port wsgi_mode))

-- The flag is PyCallable_Check() of the application.
unfoldable pub py_serve_asgi :
    Machine → AsgiPython → Bool → Arguments → Server → Kernel → Server × Kernel × Run
unfolding after_serve_init
py_serve_asgi m py callable args g k =
    if not callable
    then (g, k, null (some type_error))
    else after_serve_init m py (serve_init m args g k)

-- The server that server_run() enters: the listener and the ASGI mode are there, and so is the
-- template for plaintext connections, and for encrypted ones if TLS is on.
pub record IsRunning (m : Machine) (py : AsgiPython) (args : Arguments) (s : Server)
    (a : AsgiServer) (old now : List ℕ) : Type 0 where
  pub up : IsUp m args s old now
  pub bridged : IsBridged m.build.has_tls py (take 63 args.host) args.port a
  pub plain : template_of a false ≡ some (scope_template (take 63 args.host, args.port) false)
  pub encrypted :
      template_of a s.tls.process.tls_enabled
      ≡ some (scope_template (take 63 args.host, args.port) s.tls.process.tls_enabled)

-- Either end of py_serve_asgi(): a callable that is none, a server that did not start, a bridge that
-- did not, behind a server that is up, or server_run().
abbrev pub IsEnd :
    Machine → AsgiPython → Bool → Arguments → Server → Kernel → Server × Kernel × Run → Type 0
IsEnd m py callable args g k (s, k', r) =
    ((callable ≡ false) × (r ≡ null (some type_error)) × (s ≡ g) × (k' ≡ k))
    ⊎ ((callable ≡ true)
        × (now : List ℕ) × (k'.descriptors ≡ without args.ring_fd now)
        × (((a : AsgiServer) × (r ≡ server_run a) × IsRunning m py args s a k.descriptors now)
            ⊎ ((e : Raised) × (r ≡ null (some e))
                × (IsDown m args s k.descriptors now ⊎ IsUp m args s k.descriptors now))))

encrypted-template :
    (m : Machine) (py : AsgiPython) (args : Arguments) (s : Server) (a : AsgiServer)
    (old now : List ℕ)
    → IsUp m args s old now
    → IsBridged m.build.has_tls py (take 63 args.host) args.port a
    → template_of a s.tls.process.tls_enabled
      ≡ some (scope_template (take 63 args.host, args.port) s.tls.process.tls_enabled)
unfolding template_of
encrypted-template m py args s a old now up b = elim (Bool-cases m.build.has_tls) [
  | inl e ↦
      if_cases
        (λ t. t ≡ some (scope_template (take 63 args.host, args.port) s.tls.process.tls_enabled))
        s.tls.process.tls_enabled (λ on. rw on (b.template_https e)) (λ off. rw off b.template)
  | inr e ↦ let off : s.tls.process.tls_enabled ≡ false = up.tls ∙ rw e refl in rw off b.template
]

bridge-IsEnd :
    (m : Machine) (py : AsgiPython) (args : Arguments) (g s : Server) (k k' : Kernel) (now : List ℕ)
    (r : AsgiServer × Bool)
    → k'.descriptors ≡ without args.ring_fd now
    → IsUp m args s k.descriptors now
    → IsInit m.build.has_tls py (take 63 args.host) args.port r
    → IsEnd m py true args g k (s, k', after_asgi_init r)
unfolding after_asgi_init template_of
bridge-IsEnd m py args g s k k' now (a, true) c up b =
    let running : IsRunning m py args s a k.descriptors now = record {
      up = up;
      bridged = b;
      plain = b.template;
      encrypted = encrypted-template m py args s a k.descriptors now up b;
    } in
    inr (refl, now, c, inl (a, refl, running))
bridge-IsEnd m py args g s k k' now (a, false) c up b = inr (refl, now, c, inr (_, refl, inr up))

started-IsEnd :
    (m : Machine) (py : AsgiPython) (args : Arguments) (g : Server) (k : Kernel)
    (r : Server × Kernel × Rc)
    → IsServing m args k r
    → IsEnd m py true args g k (after_serve_init m py r)
unfolding after_serve_init
started-IsEnd m py args g k (s, k', ok) (now, c, inl (q, up, h)) =
    bridge-IsEnd m py args g s k k' now
      (asgi_server_init m.build.has_tls py s.host s.port wsgi_mode) c up
      (rw (up.name.0, up.name.1)
        (asgi_server_init_lem m.build.has_tls py (take 63 args.host) args.port))
started-IsEnd m py args g k (s, k', ok) (now, c, inr (e, q, down)) = cc
started-IsEnd m py args g k (s, k', failed x) (now, c, inl (q, up, h)) = cc
started-IsEnd m py args g k (s, k', failed x) (now, c, inr (e, q, down)) =
    inr (refl, now, c, inr (e, cc, inl down))

-- py_serve_asgi() reaches server_run() only with an application that can be called and a server that
-- serve_init() started, the ASGI mode on and its hooks in place, no exception standing, the template of
-- the scope there for plaintext connections, and for encrypted ones if TLS is on. On every other
-- path an exception stands; the server then was not touched, or is as a failed serve_init() leaves it,
-- perhaps with its socket and, where TLS could not be started, listening, or, where asgi_server_init()
-- failed, is up.
pub py_serve_asgi_lem :
    (m : Machine) (py : AsgiPython) (callable : Bool) (args : Arguments) (g : Server) (k : Kernel)
    → IsEnd m py callable args g k (py_serve_asgi m py callable args g k)
unfolding py_serve_asgi
py_serve_asgi_lem m py false args g k = inl (refl, refl, refl, refl)
py_serve_asgi_lem m py true args g k =
    started-IsEnd m py args g k (serve_init m args g k) (serve_init_lem m args g k)
