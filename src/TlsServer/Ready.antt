-- ===== src/TlsServer/Ready.antt =====
-- freastal/src/tls.c, tls_server_init(): the server that it leaves.
use freastal.Prelude.{
  ℕ, ◌≡◌, refl, sym, ap, ◌∙◌, List, ◌∷◌, ◌⊎◌, inl, inr, Bool, true, false, not, Option, none, some,
  if_cases, option_cases, arith,
}
use freastal.TicketRing.{
  TicketKey, ring_init, sealing_key, ticket_key_mint, tls_ticket_rotate_ms, tls_ticket_lifetime_s,
}
use freastal.TicketRing.Shared.{SharedRing, ring_attach}
use freastal.TicketRing.Hook.{Process}
use freastal.TicketRing.Region.{
  Kernel, Os, tls_ticket_ring_len, tls_ticket_ring_attach, tls_ticket_ring_harden, remove,
}
use freastal.TlsServer.{
  TlsServer, TlsFiles, clear_tls, use_ring, ticket_source, finish_tls, tls_server_init,
}

-- Tickets are sealed for the lifetime, with a fresh key exchange on resumption and no early data.
pub record IsReady (t : TlsServer) : Type 0 where
  pub enabled : t.process.tls_enabled ≡ true
  pub seals : t.process.encrypt_ticket ≡ true
  pub lifetime : t.process.ticket_lifetime ≡ tls_ticket_lifetime_s
  pub forward_secret : t.require_dhe_on_psk ≡ true
  pub no_early_data : t.max_early_data_size ≡ 0

-- A ring of its own, with a key to seal with and the timer, and nothing mapped.
pub record IsAlone (t : TlsServer) : Type 0 where
  pub shared : t.process.ticket_shared ≡ none
  pub timer : t.ticket_timer ≡ some (tls_ticket_rotate_ms, tls_ticket_rotate_ms)
  pub sealing :
      (k : TicketKey) × (sealing_key t.process.local_ring.ticket_keys
          t.process.local_ring.ticket_cur
        ≡ some k)

-- The ring of the owner, which the worker accepted, with no key of its own and no timer.
pub record IsWorker (shown : SharedRing) (t : TlsServer) : Type 0 where
  pub shared :
      t.process.ticket_shared
      ≡ some (record { grace_ms = shown.grace_ms; owner_pid = shown.owner_pid })
  pub accepted : ring_attach shown ≡ some shown
  pub timer : t.ticket_timer ≡ none
  pub no_key : sealing_key t.process.local_ring.ticket_keys t.process.local_ring.ticket_cur ≡ none

-- What either return value of tls_server_init() means.
abbrev pub IsServed :
    Os → TlsFiles → Option ℕ → Process → Kernel → TlsServer × Kernel × Bool → Type 0
IsServed os files ring_fd p k (t, k', true) =
    IsReady t
    × (((ring_fd ≡ none) × IsAlone t × (k' ≡ k))
        ⊎ ((fd : ℕ) × (ring_fd ≡ some fd)
            × IsWorker files.shown t
            × (k'.descriptors ≡ k.descriptors)))
IsServed os files ring_fd p k (t, k', false) = (t.process.tls_enabled ≡ p.tls_enabled) × (k' ≡ k)

-- What attaching does: it gives the ring that is shown, which it accepts, or leaves the kernel as
-- it was.
abbrev IsAttached : SharedRing → Kernel → Kernel × Option SharedRing → Type 0
IsAttached shown k (k', none) = k' ≡ k
IsAttached shown k (k', some r) =
    (r ≡ shown) × (ring_attach shown ≡ some shown) × (k'.descriptors ≡ k.descriptors)

ring_attach-same : (shown r : SharedRing) → ring_attach shown ≡ some r → shown ≡ r
unfolding ring_attach
ring_attach-same shown r e = ground arith

remove_self : (x : ℕ) (l : List ℕ) → remove x (x ∷ l) ≡ l
remove_self x l = ground arith

harden-descriptors :
    (os : Os) (len : ℕ) (k : Kernel) → (tls_ticket_ring_harden os len k).descriptors ≡ k.descriptors
harden-descriptors os len k = ground arith

attach-IsAttached :
    (os : Os) (len : ℕ) (shown : SharedRing) (k : Kernel)
    → IsAttached shown k (tls_ticket_ring_attach os len shown k)
unfolding tls_ticket_ring_attach
attach-IsAttached os len shown k =
    if_cases (IsAttached shown k) (not os.mmap) (λ _. refl)
      λ _.
        option_cases (IsAttached shown k) (ring_attach shown)
          (λ _. rw (remove_self len k.maps) refl)
          λ r e.
            let same = ring_attach-same shown r e in
            (
              sym same,
              e ∙ ap some (sym same),
              harden-descriptors os len (record k { maps = len ∷ k.maps }),
            )

local-IsServed :
    (os : Os) (files : TlsFiles) (p : Process) (k : Kernel)
    → IsServed os files none p k (finish_tls (ticket_source os files none (clear_tls p) k))
unfolding ticket_source finish_tls ring_init sealing_key ticket_key_mint
local-IsServed os files p k = (
  record {
    enabled = refl;
    seals = refl;
    lifetime = refl;
    forward_secret = refl;
    no_early_data = refl;
  },
  inl (
    refl,
    record { shared = refl; timer = refl; sealing = (ticket_key_mint files.random, refl) },
    refl,
  ),
)

used-IsServed :
    (os : Os) (files : TlsFiles) (fd len : ℕ) (p : Process) (k : Kernel)
    (a : Kernel × Option SharedRing)
    → IsAttached files.shown k a
    → IsServed os files (some fd) p k (finish_tls (use_ring (clear_tls p) len a))
unfolding use_ring finish_tls sealing_key
used-IsServed os files fd len p k (k', none) h = (refl, h)
used-IsServed os files fd len p k (k', some r) (e, accepted, same) = (
  record {
    enabled = refl;
    seals = refl;
    lifetime = refl;
    forward_secret = refl;
    no_early_data = refl;
  },
  inr (
    fd,
    refl,
    record { shared = rw e refl; accepted = accepted; timer = refl; no_key = refl },
    same,
  ),
)

-- If tls_server_init() succeeds, tickets are sealed for TLS_TICKET_LIFETIME_S, with a fresh key
-- exchange on resumption and no early data, and either there was no descriptor of a ring, and the
-- process has a key to seal with and the timer that rotates it, or there was one, the ring behind it
-- was accepted, no descriptor is opened or closed, and the process has neither a key of its own nor a
-- timer. If it fails, TLS is not switched on and the kernel is left as it was.
pub tls_server_init_lem :
    (os : Os) (files : TlsFiles) (ring_fd : Option ℕ) (p : Process) (k : Kernel)
    → IsServed os files ring_fd p k (tls_server_init os files ring_fd p k)
unfolding tls_server_init ticket_source
tls_server_init_lem os files ring_fd p k =
    if_cases (IsServed os files ring_fd p k) (not files.load_certificates) (λ _. (refl, refl))
      λ _.
        if_cases (IsServed os files ring_fd p k) (not files.fopen) (λ _. (refl, refl))
          λ _.
            if_cases (IsServed os files ring_fd p k) (not files.private_key) (λ _. (refl, refl))
              (λ _. sourced ring_fd)
  where
    sourced :
        (fd : Option ℕ)
        → IsServed os files fd p k (finish_tls (ticket_source os files fd (clear_tls p) k))
    sourced none = local-IsServed os files p k
    sourced (some fd) =
        used-IsServed os files fd (tls_ticket_ring_len os files.ring_size) p k _
          (attach-IsAttached os (tls_ticket_ring_len os files.ring_size) files.shown k)
