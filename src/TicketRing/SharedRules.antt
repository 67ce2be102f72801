-- ===== src/TicketRing/SharedRules.antt =====
-- freastal/src/tls.c: the shared ticket ring against the local one, and the keys that it gives.
use freastal.Prelude.{
  ℕ, zero, suc, ◌+◌, ◌*◌, ◌%◌, ◌^◌, ◌≤◌, ◌<◌, ◌≡◌, refl, ap, ◌∙◌, inl, inr, Bool, true, false, not,
  ◌&&◌, ◌||◌, none, some, List, [], ◌∷◌, Bytes, Bool-cases, Option-cases, bytes_eq_sound, ◌==◌,
  if◌then◌else◌, arith,
}
use freastal.TicketRing.{
  tls_ticket_ring, tls_ticket_rotate_ms, TicketKey, Random, ticket_key_mint, Ring, ring_init,
  ticket_rotate_once, ticket_key_by_name, sealing_key,
}
use freastal.TicketRing.Retention.{ring_after}
use freastal.TicketRing.Shared.{
  stale_grace_ms, ring_magic, ring_abi, key_size, SharedRing, ring_publish, ring_create,
  ring_rotate_owned, ring_attach, Attempt, read_from, ring_read, key_pick_shared, Source, shared,
  local, ticket_key_cb, seq_retries,
}

-- The keys and the current slot: what the local ring is.
abbrev pub as_local : SharedRing → Ring
as_local r = record { ticket_keys = r.keys; ticket_cur = r.cur }

-- The shared ring after n rotations, the n-th at time clock n.
unfoldable pub shared_after : (ℕ → ℕ) → (ℕ → Random) → ℕ → ℕ → SharedRing
shared_after clock random pid zero = ring_create (clock 0) pid (random 0)
shared_after clock random pid (suc n) =
    ring_rotate_owned (clock (suc n)) (random (suc n)) (shared_after clock random pid n)

-- A ring whose first fields are as the owner writes them, and that is the local ring under the lock.
record Like (r : SharedRing) (ring : Ring) (n : ℕ) : Type 0 where
  view : as_local r ≡ ring
  seq_eq : r.seq ≡ 2 * (n + 1) % 2 ^ 32
  fields :
      (r.magic ≡ ring_magic)
      × (r.abi ≡ ring_abi)
      × (r.ring_slots ≡ tls_ticket_ring)
      × (r.key_stride ≡ key_size)
      × (r.rotate_ms ≡ tls_ticket_rotate_ms)
      × (r.grace_ms ≡ stale_grace_ms)

rotate-view :
    (clock : ℕ) (random : Random) (r : SharedRing)
    → as_local (ring_rotate_owned clock random r) ≡ ticket_rotate_once random (as_local r)
unfolding ring_rotate_owned ring_publish ticket_rotate_once
rotate-view clock random r = refl

rotate-Like :
    (clock : ℕ) (random : Random) (r : SharedRing) (ring : Ring) (n : ℕ)
    → Like r ring n
    → Like (ring_rotate_owned clock random r) (ticket_rotate_once random ring) (suc n)
unfolding ring_rotate_owned ring_publish
rotate-Like clock random r ring n l = record {
  view = rotate-view clock random r ∙ ap (ticket_rotate_once random) l.view;
  seq_eq = omega (arith, l.seq_eq);
  fields = l.fields;
}

shared_after-Like :
    (clock : ℕ → ℕ) (random : ℕ → Random) (pid n : ℕ)
    → Like (shared_after clock random pid n) (ring_after random n) n
unfolding shared_after ring_create ring_publish ring_after ring_init
shared_after-Like clock random pid zero = record {
  view = refl;
  seq_eq = refl;
  fields = (refl, refl, refl, refl, refl, refl);
}
shared_after-Like clock random pid (suc n) =
    rotate-Like (clock (suc n)) (random (suc n)) _ _ n (shared_after-Like clock random pid n)

-- The owner's rotations keep the shared ring equal to the local ring after the same number of
-- rotations with the same random bytes, keep `seq` at twice the number of publications modulo
-- 2 ^ 32, and keep its first fields, so that a worker that attaches accepts it just if `seq` is not
-- 0.
pub shared_like_local :
    (clock : ℕ → ℕ) (random : ℕ → Random) (pid n : ℕ)
    → let r = shared_after clock random pid n in
      (as_local r ≡ ring_after random n)
      × (r.seq ≡ 2 * (n + 1) % 2 ^ 32)
      × (ring_attach r ≡ (if r.seq == 0 then none else some r))
unfolding ring_attach
shared_like_local clock random pid n =
    let l = shared_after-Like clock random pid n in (l.view, l.seq_eq, ground (arith, l.fields))

-- An attempt that the reader accepts.
abbrev pub IsStable : Attempt → Type 0
IsStable a = (0 < a.before) × (a.before % 2 ≡ 0) × (a.after ≡ a.before)

abbrev passes : Attempt → Bool
passes a = not (a.before == 0 || a.before % 2 == 1) && (a.after == a.before)

read_from-IsStable :
    (left : ℕ) (observe : ℕ → Attempt) (i : ℕ) (r : SharedRing)
    → read_from left observe i ≡ some r
    → (j : ℕ) × (i ≤ j) × (j < i + left) × IsStable (observe j) × (r ≡ (observe j).copied)
unfolding read_from
read_from-IsStable zero observe i r e = absurd (ground arith)
read_from-IsStable (suc left) observe i r e = elim (Bool-cases (passes (observe i))) [
  | inl good ↦ (i, omega arith, omega arith, ground arith, ground arith)
  | inr bad ↦
      let (j, l, u, st, q) = read_from-IsStable left observe (i + 1) r (ground arith) in
      (j, omega arith, omega arith, st, q)
]

-- A ticket name opens only with a live key of that name, so never with a zeroized slot.
by_name-live :
    (name : Bytes) (ks : List TicketKey) (k : TicketKey)
    → ticket_key_by_name name ks ≡ some k
    → (k.live ≡ true) × (k.name ≡ name)
unfolding ticket_key_by_name
by_name-live name [] k e = absurd (ground arith)
by_name-live name (x ∷ xs) k e = ground (arith, by_name-live name xs k, bytes_eq_sound x.name name)

picked_live :
    (observe : ℕ → Attempt) (name : Bytes) (k : TicketKey)
    → key_pick_shared observe name false ≡ some k
    → (k.live ≡ true) × (k.name ≡ name)
unfolding key_pick_shared
picked_live observe name k e = elim (Option-cases (ring_read observe)) [
  | inl lost ↦ absurd (ground arith)
  | inr (r, found) ↦ by_name-live name r.keys k (ground arith)
]

sealing_key-live :
    (ks : List TicketKey) (cur : ℕ) (k : TicketKey) → sealing_key ks cur ≡ some k → k.live ≡ true
unfolding sealing_key
sealing_key-live ks cur k e = ground arith

sealing-live :
    (observe : ℕ → Attempt) (name : Bytes) (k : TicketKey)
    → key_pick_shared observe name true ≡ some k
    → k.live ≡ true
unfolding key_pick_shared
sealing-live observe name k e = elim (Option-cases (ring_read observe)) [
  | inl lost ↦ absurd (ground arith)
  | inr (r, found) ↦ sealing_key-live r.keys r.cur k (ground arith)
]

-- If tls_ticket_key_cb() has a key to open a ticket with, from the shared ring or the local one,
-- then that key is live and has the name that the ticket carries.
opens_with_live_key :
    (source : Source) (random : Random) (name : Bytes) (k : TicketKey)
    → ticket_key_cb source random name false ≡ some k
    → (k.live ≡ true) × (k.name ≡ name)
unfolding ticket_key_cb
opens_with_live_key (shared observe) random name k e = ground (arith, picked_live observe name k)
opens_with_live_key (local ring) random name k e = by_name-live name ring.ticket_keys k e

-- With a shared ring tls_ticket_key_cb() always has a key to seal with, and that key is live.
seals_always :
    (observe : ℕ → Attempt) (random : Random) (name : Bytes)
    → (k : TicketKey) × (ticket_key_cb (shared observe) random name true ≡ some k) × (k.live ≡ true)
unfolding ticket_key_cb ticket_key_mint
seals_always observe random name = elim (Option-cases (key_pick_shared observe name true)) [
  | inl none_left ↦ (ticket_key_mint random, rw (none_left, ticket_key_cb) refl, refl)
  | inr (k, picked) ↦ (k, rw (picked, ticket_key_cb) refl, sealing-live observe name k picked)
]

-- If tls_ticket_ring_read() returns a copy, then it was made in one of its TLS_TICKET_SEQ_RETRIES
-- attempts, in which `seq` was even, not 0, and the same before the copy and after it.
pub ring_read-IsStable :
    (observe : ℕ → Attempt) (r : SharedRing)
    → ring_read observe ≡ some r
    → (j : ℕ) × (j < seq_retries) × IsStable (observe j) × (r ≡ (observe j).copied)
unfolding ring_read
ring_read-IsStable observe r e =
    let (j, l, u, st, q) = read_from-IsStable seq_retries observe 0 r e in (j, omega arith, st, q)
