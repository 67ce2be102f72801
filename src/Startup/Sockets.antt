-- ===== src/Startup/Sockets.antt =====
-- freastal/src/server.c: what a start that ends at each stage means, and the socket that it opens.
use freastal.Prelude.{
  ℕ, ◌≡◌, refl, ◌⊎◌, inl, inr, Bool, true, false, ◌&&◌, Option, none, some, is_some, List, [], ◌∷◌,
  Bytes, take, if_cases, option_cases, arith,
}
use freastal.Decimal.{fill_digits}
use freastal.Environ.{Config}
use freastal.Startup.{
  Bind, no_socket, unbound, bound_as, os_error, Build, Arguments, Network, Rc, ok, failed, Listener,
  inherited, bound, Server, Machine, open_inherited, bind_address, open_listener,
}
use freastal.TicketRing.Region.{with_fd, Kernel, remove}
use freastal.TlsServer.Ready.{IsReady}

-- A socket that the start has opened: a copy of the caller's, or one made for the caller's address.
abbrev pub IsSocket : Build → Network → Arguments → ℕ → Type 0
IsSocket build net args fd =
    ((given : ℕ) × (args.listen_fd ≡ some given) × (net.dup given ≡ some fd))
    ⊎ ((address : Bytes) × (args.listen_fd ≡ none)
        × (net.uv_ip4_addr args.host args.port ≡ some address)
        × ((net.uv_tcp_bind address (build.has_reuse_port && args.reuse_port) ≡ unbound fd)
            ⊎ (net.uv_tcp_bind address (build.has_reuse_port && args.reuse_port) ≡ bound_as fd)))

-- The socket that is served: a copy of the caller's descriptor or one at the caller's address.
abbrev pub IsListener : Build → Network → Arguments → Option Listener → List ℕ → List ℕ → Type 0
IsListener build net args l old now =
    ((given : ℕ) × (fd : ℕ) × (args.listen_fd ≡ some given)
      × (net.dup given ≡ some fd)
      × (l ≡ some (inherited fd))
      × (now ≡ fd ∷ old))
    ⊎ ((address : Bytes) × (fd : ℕ) × (args.listen_fd ≡ none)
        × (net.uv_ip4_addr args.host args.port ≡ some address)
        × (net.uv_tcp_bind address (build.has_reuse_port && args.reuse_port) ≡ bound_as fd)
        × (l ≡ some (bound address (build.has_reuse_port && args.reuse_port) fd))
        × (now ≡ fd ∷ old))

-- The values that the environ takes from the arguments.
abbrev pub keys_of : Machine → Arguments → Config
keys_of m args = record {
  server_name = take 63 args.host;
  server_port = fill_digits 10 args.port [];
  has_stderr = m.python.has_stderr;
}

abbrev pub wants_tls : Arguments → Bool
wants_tls args = is_some args.certfile && is_some args.keyfile

-- What a server is that has started.
pub record IsUp (m : Machine) (args : Arguments) (s : Server) (old now : List ℕ) : Type 0 where
  pub name : (s.host ≡ take 63 args.host) × (s.port ≡ args.port)
  pub keys : s.keys ≡ some (keys_of m args)
  pub listening : s.listening ≡ true
  pub listener : IsListener m.build m.network args s.listener old now
  pub tls : s.tls.process.tls_enabled ≡ (m.build.has_tls && wants_tls args)
  pub ready : (m.build.has_tls && wants_tls args) ≡ true → IsReady s.tls

-- A server that has not started has given back what it opened, or has just the socket that does not
-- listen, or listens without the TLS that was asked for.
abbrev pub IsDown : Machine → Arguments → Server → List ℕ → List ℕ → Type 0
IsDown m args s old now =
    (now ≡ old)
    ⊎ ((fd : ℕ) × IsSocket m.build m.network args fd × (now ≡ fd ∷ old) × (s.listening ≡ false))
    ⊎ (((m.build.has_tls && wants_tls args) ≡ true)
        × (s.listening ≡ true)
        × (s.tls.process.tls_enabled ≡ false)
        × IsListener m.build m.network args s.listener old now)

abbrev pub IsStarted : Machine → Arguments → Kernel → Server × Kernel × Rc → Type 0
IsStarted m args k (s, k', ok) = IsUp m args s k.descriptors k'.descriptors
IsStarted m args k (s, k', failed e) = IsDown m args s k.descriptors k'.descriptors

-- Before TLS: the keys and the listener are there, and TLS is off.
pub record IsOpen (m : Machine) (args : Arguments) (s : Server) (old now : List ℕ) : Type 0 where
  pub name : (s.host ≡ take 63 args.host) × (s.port ≡ args.port)
  pub keys : s.keys ≡ some (keys_of m args)
  pub listener : IsListener m.build m.network args s.listener old now
  pub silent : s.listening ≡ false
  pub off : s.tls.process.tls_enabled ≡ false

abbrev pub IsOpened : Machine → Arguments → Kernel → Server × Kernel × Rc → Type 0
IsOpened m args k (s, k', ok) = IsOpen m args s k.descriptors k'.descriptors
IsOpened m args k (s, k', failed e) = IsDown m args s k.descriptors k'.descriptors

remove_self : (x : ℕ) (l : List ℕ) → remove x (x ∷ l) ≡ l
remove_self x l = ground arith

pub listener-IsDown :
    (m : Machine) (args : Arguments) (s : Server) (l : Option Listener) (old now : List ℕ)
    → s.listening ≡ false
    → IsListener m.build m.network args l old now
    → IsDown m args s old now
listener-IsDown m args s l old now q (inl (given, fd, e, f, g, h)) =
    inr (inl (fd, inl (given, e, f), h, q))
listener-IsDown m args s l old now q (inr (a, fd, e, f, b, g, h)) =
    inr (inl (fd, inr (a, e, f, inr b), h, q))

-- The socket that uv_tcp_bind() makes.
bind-IsOpened :
    (m : Machine) (args : Arguments) (s : Server) (k : Kernel) (a : Bytes) (b : Bind)
    → (s.host ≡ take 63 args.host) × (s.port ≡ args.port)
    → s.keys ≡ some (keys_of m args)
    → s.listening ≡ false
    → s.tls.process.tls_enabled ≡ false
    → args.listen_fd ≡ none
    → m.network.uv_ip4_addr args.host args.port ≡ some a
    → m.network.uv_tcp_bind a (m.build.has_reuse_port && args.reuse_port) ≡ b
    → IsOpened m args k (elim b [
      | no_socket ↦ (s, k, failed (some os_error))
      | unbound fd ↦ (s, with_fd fd k, failed (some os_error))
      | bound_as fd ↦ (
        record s { listener = some (bound a (m.build.has_reuse_port && args.reuse_port) fd) },
        with_fd fd k,
        ok,
      )
    ])
bind-IsOpened m args s k a no_socket at e q off n f g = inl refl
bind-IsOpened m args s k a (unbound fd) at e q off n f g =
    inr (inl (fd, inr (a, n, f, inl g), refl, q))
bind-IsOpened m args s k a (bound_as fd) at e q off n f g = record {
  name = at;
  keys = e;
  listener = inr (a, fd, n, f, g, refl, refl);
  silent = q;
  off = off;
}

pub open-IsOpened :
    (m : Machine) (args : Arguments) (s : Server) (k : Kernel)
    → (s.host ≡ take 63 args.host) × (s.port ≡ args.port)
    → s.keys ≡ some (keys_of m args)
    → s.listening ≡ false
    → s.tls.process.tls_enabled ≡ false
    → IsOpened m args k (open_listener m.build m.network args s k)
unfolding open_listener open_inherited bind_address
open-IsOpened m args s k at e q off =
    let P = IsOpened m args k in
    option_cases P args.listen_fd
      (λ n.
        option_cases P (m.network.uv_ip4_addr args.host args.port) (λ _. inl refl)
          λ a f.
            bind-IsOpened m args s k a
              (m.network.uv_tcp_bind a (m.build.has_reuse_port && args.reuse_port)) at e q off n f
              refl)
      λ given n.
        option_cases P (m.network.dup given) (λ _. inl refl)
          λ fd f.
            if_cases P (m.network.uv_tcp_open fd)
              (λ _. record {
                name = at;
                keys = e;
                listener = inl (given, fd, n, f, refl, refl);
                silent = q;
                off = off;
              })
              (λ _. inl (remove_self fd k.descriptors))
