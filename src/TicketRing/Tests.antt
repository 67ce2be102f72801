-- ===== src/TicketRing/Tests.antt =====
-- freastal/src/tls.c: the ticket rings on small inputs.
use freastal.Prelude.{
  ℕ, zero, suc, ◌+◌, ◌*◌, ◌/◌, ◌%◌, ◌^◌, ◌≤◌, ◌<◌, ◌≡◌, ◌≢◌, refl, ap, ◌⊎◌, ltb, true, none, some,
  [], ◌∷◌, Bytes, All, get_or, ◌==◌, if◌then◌else◌, arith,
}
use freastal.TicketRing.{tls_ticket_rotate_ms, Random, ticket_key_by_name, sealing_key}
use freastal.TicketRing.Shared.{ring_create, ring_attach, Attempt}
use freastal.TicketRing.Hook.{
  Process, Platform, hook_tries, rotated, timed_out, tickets_off, tls_ticket_rotate_hook,
  tls_ticket_ring_disable, is_published, wait_published, tls_ticket_rotate_hook_lem,
}
use freastal.TicketRing.Retention.{
  HasDistinctNames, key, ring_after, ring_at, key_opens, key_destroyed,
}
use freastal.TicketRing.SharedRules.{as_local, shared_after, shared_like_local}
use freastal.TicketRing.Seqlock.{
  resting, returned, World, open_window, store_word, close_window, begin_read, copy_word, end_read,
  opens, stores, closes, begins, copies, Reach, fresh, later, returns_published,
}

-- Keys whose name is their number.
abbrev numbered : ℕ → Random
numbered n = record { name_bytes = n ∷ []; aes_bytes = n ∷ n ∷ []; hmac_bytes = [] }

numbered-distinct : HasDistinctNames numbered
numbered-distinct i j e = ap (λ (l : Bytes). get_or l 0 0) e

key_opens_example :
    (sealing_key (ring_at numbered 5000000).ticket_keys (ring_at numbered 5000000).ticket_cur
      ≡ some (key numbered (5000000 / tls_ticket_rotate_ms)))
    × (ticket_key_by_name
          (key numbered (5000000 / tls_ticket_rotate_ms)).name
          (ring_at numbered 12200000).ticket_keys
        ≡ some (key numbered (5000000 / tls_ticket_rotate_ms)))
key_opens_example =
    key_opens numbered numbered-distinct 5000000 12200000 (omega arith) (omega arith)

key_destroyed_example :
    (ticket_key_by_name
        (key numbered (5000000 / tls_ticket_rotate_ms)).name
        (ring_at numbered 15800000).ticket_keys
      ≡ none)
    × All
        (λ k. k ≢ key numbered (5000000 / tls_ticket_rotate_ms))
        (ring_at numbered 15800000).ticket_keys
key_destroyed_example = key_destroyed numbered numbered-distinct 5000000 15800000 (omega arith)

abbrev hourly : ℕ → ℕ
hourly n = n * tls_ticket_rotate_ms

shared_like_local_example :
    let r = shared_after hourly numbered 7 4 in
    (as_local r ≡ ring_after numbered 4)
    × (r.seq ≡ 2 * (4 + 1) % 2 ^ 32)
    × (ring_attach r ≡ (if r.seq == 0 then none else some r))
shared_like_local_example = shared_like_local hourly numbered 7 4

-- The first attempt meets an odd sequence number, the later ones a stable ring.
abbrev observed : ℕ → Attempt
observed zero = record { before = 3; copied = ring_create 0 7 (numbered 0); after = 4 }
observed (suc n) = record { before = 4; copied = ring_create 0 7 (numbered 0); after = 4 }

-- A ring of one word, published once, and a reader that has copied it.
abbrev one_word : World
one_word = record { words = 0 ∷ []; count = 0; published = 0 ∷ []; reader = resting }

abbrev published_once : World
published_once = close_window (store_word 0 5 (open_window one_word))

abbrev copied_once : World
copied_once = copy_word (begin_read published_once)

copied_once-Reach : Reach (0 ∷ []) copied_once
unfolding open_window store_word close_window begin_read
copied_once-Reach =
    later (later (later (later (later fresh (opens refl)) (stores 0 5 refl)) (closes refl)) begins)
      (copies 2 [] refl (omega arith))

returns_published_example :
    (((end_read copied_once).reader ≡ returned (5 ∷ []))
      × (5 ∷ [] ≡ copied_once.published)
      × (copied_once.count ≡ 2))
    ⊎ (((end_read copied_once).reader ≡ resting) × (copied_once.count ≢ 2))
unfolding open_window store_word close_window begin_read copy_word
returns_published_example = returns_published 2 (5 ∷ []) copied_once-Reach refl refl (omega arith)

-- A worker, and an owner whose new key is there from the third load on.
abbrev worker : Process
worker = record {
  g_ring_owned = none;
  tls_enabled = true;
  ticket_shared = some (record { grace_ms = 3600000; owner_pid = 41 });
  ticket_shared_len = 4096;
  ticket_lifetime = 7200;
  encrypt_ticket = true;
  local_ring = ring_at numbered 0;
}

abbrev steps : ℕ → ℕ
steps i = if ltb i 2 then i else 2

abbrev prompt : Platform
prompt = record {
  clock = 0;
  random = numbered 9;
  kill = λ pid. pid == 41;
  before = 6;
  now = λ i. 6 + steps i;
}

tls_ticket_rotate_hook_lem_example :
    (((tls_ticket_rotate_hook prompt worker ≡ (rotated, worker))
        × ((i : ℕ) × (i < hook_tries) × (2 ≤ steps i) × ((6 + steps i) % 2 ≡ 0)))
      ⊎ ((tls_ticket_rotate_hook prompt worker ≡ (timed_out, worker))
          × ((i : ℕ) → i < hook_tries → ¬ ((2 ≤ steps i) × ((6 + steps i) % 2 ≡ 0)))))
    × (tls_ticket_rotate_hook prompt (tls_ticket_ring_disable worker)
        ≡ (tickets_off, tls_ticket_ring_disable worker))
tls_ticket_rotate_hook_lem_example =
    tls_ticket_rotate_hook_lem prompt worker (record { grace_ms = 3600000; owner_pid = 41 }) steps
      refl refl refl (omega arith) (λ i. refl) refl

third_load : wait_published 3 6 (λ i. 6 + steps i) 0 ≡ true
unfolding wait_published is_published
third_load = refl

-- At the end of the range of `seq` the first load passes, with nothing published.
wrapped_hook : wait_published 3 4294967294 (λ i. 4294967294) 0 ≡ true
unfolding wait_published is_published
wrapped_hook = refl
