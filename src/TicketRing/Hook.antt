-- ===== src/TicketRing/Hook.antt =====
-- freastal/src/tls.c, a process and its ticket rings: tls_ticket_ring_disable() with the check of
-- tls_conn_init() that calls it, and tls_ticket_rotate_hook(). Log lines and the texts of the Python
-- errors are left out.
use freastal.Prelude.{
  ℕ, zero, suc, ◌+◌, ◌%◌, ◌^◌, ◌≤◌, ◌<◌, ◌≡◌, ◌↔◌, refl, sym, ◌⊎◌, inl, inr, Bool, true, false, not,
  ◌&&◌, Option, none, some, leb, ◌==◌, Bool-cases, if◌then◌else◌, arith,
}
use freastal.TicketRing.{Random, Ring, ticket_rotate_once}
use freastal.TicketRing.Shared.{SharedRing, Attempt, ring_rotate_owned, ring_is_stale}

abbrev pub hook_tries : ℕ
hook_tries = 5000

-- The fields of the mapped ring that never change.
pub record Mapping : Type 0 where
  pub grace_ms : ℕ
  pub owner_pid : ℕ

-- g_ring_owned, and the ticket fields of g_server; encrypt_ticket is whether the callback is set.
pub record Process : Type 0 where
  pub g_ring_owned : Option SharedRing
  pub tls_enabled : Bool
  pub ticket_shared : Option Mapping
  pub ticket_shared_len : ℕ
  pub ticket_lifetime : ℕ
  pub encrypt_ticket : Bool
  pub local_ring : Ring

unfoldable pub tls_ticket_ring_disable : Process → Process
tls_ticket_ring_disable p = record p {
  ticket_lifetime = 0;
  encrypt_ticket = false;
  ticket_shared = none;
  ticket_shared_len = 0;
}

-- What tls_conn_init() does first, at a time of the clock.
unfoldable pub check_stale : ℕ → (ℕ → Attempt) → Process → Process
check_stale clock observe p = elim p.ticket_shared [
  | none ↦ p
  | some m ↦ if ring_is_stale clock m.grace_ms observe then tls_ticket_ring_disable p else p
]

-- The clock, the random source, whether SIGUSR1 reaches a process, and the loads of `seq`: the one
-- before the signal, and those of the loop.
pub record Platform : Type 0 where
  pub clock : ℕ
  pub random : Random
  pub kill : ℕ → Bool
  pub before : ℕ
  pub now : ℕ → ℕ

-- 0, and the reasons for -1.
pub data Answer : Type 0 where
  rotated : Answer
  not_enabled : Answer
  tickets_off : Answer
  no_owner : Answer
  timed_out : Answer

-- The test of the loop, on uint32_t.
unfoldable pub is_published : ℕ → ℕ → Bool
is_published before now = leb ((before + 2) % 2 ^ 32) now && now % 2 == 0

-- The loop, over the loads from one on, as many as are left.
unfoldable pub wait_published : ℕ → ℕ → (ℕ → ℕ) → ℕ → Bool
wait_published zero before now i = false
wait_published (suc left) before now i =
    let again = wait_published left before now (i + 1) in
    if is_published before (now i) then true else again

unfoldable pub tls_ticket_rotate_hook : Platform → Process → Answer × Process
tls_ticket_rotate_hook w p = elim p.g_ring_owned [
  | some r ↦ (rotated, record p { g_ring_owned = some (ring_rotate_owned w.clock w.random r) })
  | none ↦ elim p.ticket_shared [
    | none ↦
        if not p.tls_enabled
        then (not_enabled, p)
        else if not p.encrypt_ticket
        then (tickets_off, p)
        else (rotated, record p { local_ring = ticket_rotate_once w.random p.local_ring })
    | some m ↦
        if not (w.kill m.owner_pid)
        then (no_owner, p)
        else if wait_published hook_tries w.before w.now 0
        then (rotated, p)
        else (timed_out, p)
  ]
]

-- The first load that passes the test, if one does.
wait_cases :
    (left before : ℕ) (now : ℕ → ℕ) (i : ℕ)
    → ((wait_published left before now i ≡ true)
        × ((j : ℕ) × (j < i + left) × (is_published before (now j) ≡ true)))
      ⊎ ((wait_published left before now i ≡ false)
          × ((j : ℕ) → i ≤ j → j < i + left → is_published before (now j) ≡ false))
unfolding wait_published
wait_cases zero before now i = inr (refl, λ j l g. absurd (omega (arith, l, g)))
wait_cases (suc left) before now i = elim (Bool-cases (is_published before (now i))) [
  | inl e ↦ inl (rw e refl, (i, omega arith, e))
  | inr e ↦ elim (wait_cases left before now (i + 1)) [
    | inl (t, (j, l, f)) ↦ inl (rw (e, t) refl, (j, omega (arith, l), f))
    | inr (t, f) ↦ inr (
      rw (e, t) refl,
      λ j l g. elim (Bool-cases (i == j)) [
        | inl q ↦ (let q' : i ≡ j = ground (arith, q) in rw (sym q') e)
        | inr q ↦ f j (ground (arith, q, l)) (omega (arith, g))
      ],
    )
  ]
]

-- A load that passes is of a number that is even and at least two further, and the other way round.
is_published-further :
    (before now k : ℕ)
    → before + 2 < 2 ^ 32
    → now ≡ before + k
    → (is_published before now ≡ true) ↔ ((2 ≤ k) × ((before + k) % 2 ≡ 0))
unfolding is_published
is_published-further before now k h e = ground (arith, e)

module _ (w : Platform) (p : Process) (m : Mapping) (k : ℕ → ℕ) where
  -- Let a worker own no ring and have one mapped, whose owner the signal reaches; let `seq` be
  -- before + k i at the i-th load of the loop, and before + 2 be below 2 ^ 32. Then
  -- tls_ticket_rotate_hook() changes nothing in the worker, and it returns 0 with a load, of the
  -- first 5000, at which `seq` was even and at least 2 further; or it times out, and there is no
  -- such load. Once the worker has dropped the ring, the hook answers that tickets are off.
  pub tls_ticket_rotate_hook_lem :
      p.g_ring_owned ≡ none
      → p.ticket_shared ≡ some m
      → w.kill m.owner_pid ≡ true
      → w.before + 2 < 2 ^ 32
      → ((i : ℕ) → w.now i ≡ w.before + k i)
      → p.tls_enabled ≡ true
      → (((tls_ticket_rotate_hook w p ≡ (rotated, p))
            × ((i : ℕ) × (i < hook_tries) × (2 ≤ k i) × ((w.before + k i) % 2 ≡ 0)))
          ⊎ ((tls_ticket_rotate_hook w p ≡ (timed_out, p))
              × ((i : ℕ) → i < hook_tries → ¬ ((2 ≤ k i) × ((w.before + k i) % 2 ≡ 0)))))
        × (tls_ticket_rotate_hook w (tls_ticket_ring_disable p)
            ≡ (tickets_off, tls_ticket_ring_disable p))
  unfolding tls_ticket_rotate_hook tls_ticket_ring_disable
  tls_ticket_rotate_hook_lem o s r h e t = (
    elim (wait_cases hook_tries w.before w.now 0) [
      | inl (q, (i, l, f)) ↦
          let (two, even) = (is_published-further w.before (w.now i) (k i) h (e i)).0 f in
          inl (cc, (i, l, two, even))
      | inr (q, f) ↦ inr (
        cc,
        λ i l x.
            let g = (is_published-further w.before (w.now i) (k i) h (e i)).1 x in
            absurd (ground (arith, g, f i (omega arith) l)),
      )
    ],
    cc,
  )
