-- ===== src/Startup/Outcome.antt =====
-- freastal/src/server.c and freastalmodule.c: the server that a start leaves.
use freastal.Prelude.{
  ℕ, ◌≡◌, refl, ◌⊎◌, inl, inr, Bool, true, false, not, ◌&&◌, ◌||◌, Option, none, some, is_some,
  List, if_cases, arith,
}
use freastal.Startup.{
  Build, Arguments, Raised, runtime_error, Rc, ok, failed, Server, Machine, clear_server, prepare,
  after_prepare, server_init, close_ring, with_exception, serve_init, server_reuseport_supported,
}
use freastal.TicketRing.Region.{Kernel, remove}
use freastal.Startup.Sockets.{IsUp, IsDown, IsStarted}
use freastal.Startup.Stages.{prepared-IsStarted}

abbrev pub without : Option ℕ → List ℕ → List ℕ
without none l = l
without (some fd) l = remove fd l

abbrev IsInit : Machine → Arguments → Kernel → Server × Kernel × Rc → Type 0
IsInit m args k (s, k', ok) =
    (m.build.has_tls ≡ false → (args.certfile ≡ none) × (args.keyfile ≡ none))
    × IsUp m args s k.descriptors k'.descriptors
IsInit m args k (s, k', failed e) = IsDown m args s k.descriptors k'.descriptors

none_of : {A : Type 0} (o : Option A) → is_some o ≡ false → o ≡ none
none_of none e = refl
none_of (some a) e = cc

honest :
    (m : Machine) (args : Arguments)
    → (not m.build.has_tls && (is_some args.certfile || is_some args.keyfile)) ≡ false
    → m.build.has_tls ≡ false
    → (args.certfile ≡ none) × (args.keyfile ≡ none)
honest m args e h = (none_of args.certfile (ground arith), none_of args.keyfile (ground arith))

started-IsInit :
    (m : Machine) (args : Arguments) (k : Kernel) (r : Server × Kernel × Rc)
    → (not m.build.has_tls && (is_some args.certfile || is_some args.keyfile)) ≡ false
    → IsStarted m args k r
    → IsInit m args k r
started-IsInit m args k (s, k', ok) e h = (honest m args e, h)
started-IsInit m args k (s, k', failed x) e h = h

server_init-IsInit :
    (m : Machine) (args : Arguments) (g : Server) (k : Kernel)
    → IsInit m args k (server_init m args g k)
unfolding server_init
server_init-IsInit m args g k =
    if_cases (IsInit m args k)
      (not m.build.has_tls && (is_some args.certfile || is_some args.keyfile)) (λ _. inl refl)
      λ e.
        started-IsInit m args k
          (after_prepare m args k (prepare m (clear_server args g.tls.process))) e
          (prepared-IsStarted m args g.tls.process k)

-- What either end of serve_init() means, with the descriptors that server_init() left.
abbrev pub IsServing : Machine → Arguments → Kernel → Server × Kernel × Rc → Type 0
IsServing m args k (s, k', rc) =
    (now : List ℕ) × (k'.descriptors ≡ without args.ring_fd now)
    × (((rc ≡ ok)
          × IsUp m args s k.descriptors now
          × (m.build.has_tls ≡ false → (args.certfile ≡ none) × (args.keyfile ≡ none)))
        ⊎ ((e : Raised) × (rc ≡ failed (some e)) × IsDown m args s k.descriptors now))

close_ring-without :
    (fd : Option ℕ) (k : Kernel) → (close_ring fd k).descriptors ≡ without fd k.descriptors
close_ring-without none k = refl
close_ring-without (some fd) k = refl

init-IsServing :
    (m : Machine) (args : Arguments) (k : Kernel) (r : Server × Kernel × Rc)
    → IsInit m args k r
    → IsServing m args k (r.0, close_ring args.ring_fd r.1, with_exception r.2)
init-IsServing m args k (s, k', ok) (h, up) =
    (k'.descriptors, close_ring-without args.ring_fd k', inl (refl, up, h))
init-IsServing m args k (s, k', failed none) h =
    (k'.descriptors, close_ring-without args.ring_fd k', inr (runtime_error, refl, h))
init-IsServing m args k (s, k', failed (some e)) h =
    (k'.descriptors, close_ring-without args.ring_fd k', inr (e, refl, h))

pub serve_init_lem :
    (m : Machine) (args : Arguments) (g : Server) (k : Kernel)
    → IsServing m args k (serve_init m args g k)
unfolding serve_init
serve_init_lem m args g k =
    init-IsServing m args k (server_init m args g k) (server_init-IsInit m args g k)

-- Once an answer about UV_TCP_REUSEPORT is kept, every later call gives it, whatever libuv says then.
reuseport_kept :
    (build : Build) (first second : Option Bool) (answer : Bool)
    → build.has_reuse_port ≡ true
    → first ≡ some answer
    → server_reuseport_supported build second (server_reuseport_supported build first none).0
      ≡ (some answer, answer)
unfolding server_reuseport_supported
reuseport_kept build first second answer h e = ground arith
