-- ===== src/Startup/Stages.antt =====
-- freastal/src/server.c: what each stage of server_init() leaves.
use freastal.Prelude.{
  ℕ, ◌≡◌, refl, sym, ap, ◌∙◌, ◌⊎◌, inl, inr, Bool, true, false, not, ◌&&◌, Option, some, take,
  if_cases, option_cases, arith,
}
use freastal.Environ.{Config}
use freastal.Startup.Keys.{init_wsgi_keys}
use freastal.Startup.{
  Arguments, Rc, ok, failed, Server, Machine, clear_server, prepare, start_tls, listen_and_start,
  after_prepare,
}
use freastal.TicketRing.Hook.{Process}
use freastal.TicketRing.Region.{Kernel, Os}
use freastal.TlsServer.{TlsServer, TlsFiles}
use freastal.TlsServer.Ready.{IsReady, IsServed, tls_server_init_lem}
use freastal.Startup.Sockets.{
  keys_of, wants_tls, IsStarted, IsOpen, IsOpened, listener-IsDown, open-IsOpened,
}

served-descriptors :
    (os : Os) (files : TlsFiles) (fd : Option ℕ) (p : Process) (k : Kernel)
    (r : TlsServer × Kernel × Bool)
    → IsServed os files fd p k r
    → r.1.descriptors ≡ k.descriptors
served-descriptors os files fd p k (t, k', true) (ready, inl (e, alone, h)) =
    ap (λ x. x.descriptors) h
served-descriptors os files fd p k (t, k', true) (ready, inr (n, e, worker, h)) = h
served-descriptors os files fd p k (t, k', false) (e, h) = ap (λ x. x.descriptors) h

-- The part of tls_server_init() that its flag tells.
served-cases :
    (os : Os) (files : TlsFiles) (fd : Option ℕ) (p : Process) (k : Kernel)
    (r : TlsServer × Kernel × Bool)
    → IsServed os files fd p k r
    → ((r.2 ≡ true) × IsReady r.0) ⊎ ((r.2 ≡ false) × (r.0.process.tls_enabled ≡ p.tls_enabled))
served-cases os files fd p k (t, k', true) h = inl (refl, h.0)
served-cases os files fd p k (t, k', false) h = inr (refl, h.0)

-- Whether TLS is started, and with what result.
tls-IsStarted :
    (m : Machine) (args : Arguments) (s : Server) (k k' : Kernel)
    → IsOpen m args s k.descriptors k'.descriptors
    → IsStarted m args k (start_tls m args (record s { listening = true }) k')
unfolding start_tls
tls-IsStarted m args s k k' h =
    let served = tls_server_init_lem m.os m.files args.ring_fd s.tls.process k' in
    let same = served-descriptors m.os m.files args.ring_fd s.tls.process k' _ served in
    if_cases (IsStarted m args k) (m.build.has_tls && wants_tls args)
      (λ on. elim (served-cases m.os m.files args.ring_fd s.tls.process k' _ served) [
        | inl (done, ready) ↦ rw done (record {
          name = h.name;
          keys = h.keys;
          listening = refl;
          listener = rw same h.listener;
          tls = ready.enabled ∙ sym on;
          ready = λ _. ready;
        })
        | inr (e, off) ↦ rw e (inr (inr (on, refl, off ∙ h.off, rw same h.listener)))
      ])
      (λ on. record {
        name = h.name;
        keys = h.keys;
        listening = refl;
        listener = h.listener;
        tls = h.off ∙ sym on;
        ready = λ t. cc;
      })

listen-IsStarted :
    (m : Machine) (args : Arguments) (k : Kernel) (r : Server × Kernel × Rc)
    → IsOpened m args k r
    → IsStarted m args k (listen_and_start m args r)
unfolding listen_and_start
listen-IsStarted m args k (s, k', failed e) h = h
listen-IsStarted m args k (s, k', ok) h =
    if_cases (IsStarted m args k) m.network.uv_listen (λ _. tls-IsStarted m args s k k' h)
      (λ _. listener-IsDown m args s s.listener k.descriptors k'.descriptors h.silent h.listener)

keys-are :
    (m : Machine) (args : Arguments) (c : Config)
    → init_wsgi_keys m.build.has_tls m.python (take 63 args.host) args.port ≡ some c
    → c ≡ keys_of m args
unfolding init_wsgi_keys
keys-are m args c e = ground arith

-- The result of the preparation: nothing of it touches a descriptor.
pub prepared-IsStarted :
    (m : Machine) (args : Arguments) (p : Process) (k : Kernel)
    → IsStarted m args k (after_prepare m args k (prepare m (clear_server args p)))
unfolding prepare after_prepare
prepared-IsStarted m args p k =
    let P = λ (r : Server × Rc). IsStarted m args k (after_prepare m args k r) in
    if_cases P (not m.python.pool) (λ _. inl refl)
      λ _.
        option_cases P (init_wsgi_keys m.build.has_tls m.python (take 63 args.host) args.port)
          (λ _. inl refl)
          λ c e.
            if_cases P (m.python.hdr_cache && (m.python.empty_input && m.python.template))
              (λ _.
                listen-IsStarted m args k _
                  (open-IsOpened m args _ k (refl, refl) (ap some (keys-are m args c e)) refl refl))
              (λ _. inl refl)
