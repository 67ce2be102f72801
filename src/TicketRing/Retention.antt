-- ===== src/TicketRing/Retention.antt =====
-- freastal/src/tls.c: how long a ticket key of the local ring lives. The ring is rotated every
-- TLS_TICKET_ROTATE_MS after its start, and the n-th key minted is made of the n-th random bytes.
use freastal.Prelude.{
  ℕ, zero, suc, ◌+◌, ◌-◌, ◌*◌, ◌/◌, ◌%◌, ◌≤◌, ◌<◌, ◌≡◌, ◌≢◌, refl, ap, ◌∙◌, false, ◌&&◌, none, some,
  [], ◌∷◌, All, bytes_eq, bytes_eq_sound, bytes_eq_refl, leb, if◌then◌else◌, arith,
}
use freastal.TicketRing.{
  tls_ticket_ring, tls_ticket_rotate_ms, tls_ticket_lifetime_s, TicketKey, cleared, Random,
  ticket_key_mint, Ring, ring_init, ticket_rotate_once, ticket_key_by_name, sealing_key,
}

same_round : (n i : ℕ) → i < 3 → (n % 3 + 1) % 3 ≢ i → i ≤ n → (suc n - i) / 3 ≡ (n - i) / 3
same_round n i h k l = omega arith

next_round : (n i : ℕ) → i < 3 → (n % 3 + 1) % 3 ≡ i → (suc n - i) / 3 * 3 + i ≡ suc n
next_round n i h k = omega arith

newest : (n m i : ℕ) → m ≤ n → n ≤ m + 2 → m % 3 ≡ i → (n - i) / 3 * 3 + i ≡ m
newest n m i l u e = omega arith

module _ (random : ℕ → Random) where
  -- The ring after n rotations.
  unfoldable pub ring_after : ℕ → Ring
  ring_after zero = ring_init (random 0)
  ring_after (suc n) = ticket_rotate_once (random (suc n)) (ring_after n)

  -- The ring at a time, in milliseconds after the start.
  abbrev pub ring_at : ℕ → Ring
  ring_at t = ring_after (t / tls_ticket_rotate_ms)

  abbrev pub key : ℕ → TicketKey
  key n = ticket_key_mint (random n)

  -- What a slot holds after n rotations: the newest key that fell to it.
  abbrev slot : ℕ → ℕ → TicketKey
  slot n i = if leb i n then key ((n - i) / 3 * 3 + i) else cleared

  abbrev slots : ℕ → Ring
  slots n = record { ticket_keys = slot n 0 ∷ slot n 1 ∷ slot n 2 ∷ []; ticket_cur = n % 3 }

  slot-keeps : (n i : ℕ) → i < 3 → (n % 3 + 1) % 3 ≢ i → slot (suc n) i ≡ slot n i
  slot-keeps n i h k = ground (arith, same_round n i h k)

  slot-fresh : (n i : ℕ) → i < 3 → (n % 3 + 1) % 3 ≡ i → slot (suc n) i ≡ key (suc n)
  slot-fresh n i h k = ground (arith, next_round n i h k)

  rotate-slots : (n : ℕ) → ticket_rotate_once (random (suc n)) (slots n) ≡ slots (suc n)
  unfolding ticket_rotate_once
  rotate-slots n = ground (
    arith,
    slot-keeps n 0,
    slot-keeps n 1,
    slot-keeps n 2,
    slot-fresh n 0,
    slot-fresh n 1,
    slot-fresh n 2,
  )

  ring_after-slots : (n : ℕ) → ring_after n ≡ slots n
  unfolding ring_after ring_init
  ring_after-slots zero = refl
  ring_after-slots (suc n) =
      ap (ticket_rotate_once (random (suc n))) (ring_after-slots n) ∙ rotate-slots n

-- No two keys that are minted have the same name.
abbrev pub HasDistinctNames : (ℕ → Random) → Type 0
HasDistinctNames random = (i j : ℕ) → (random i).name_bytes ≡ (random j).name_bytes → i ≡ j

module _ (random : ℕ → Random) (distinct : HasDistinctNames random) where
  other_name : (i j : ℕ) → i ≢ j → bytes_eq (random i).name_bytes (random j).name_bytes ≡ false
  other_name i j h =
      ground (arith, bytes_eq_sound (random i).name_bytes (random j).name_bytes, distinct i j)

  slot-match : (n m i : ℕ) → m ≤ n → n ≤ m + 2 → m % 3 ≡ i → slot random n i ≡ key random m
  slot-match n m i l u e = ground (arith, newest n m i l u e)

  slot-miss :
      (n m i : ℕ)
      → i < 3
      → (m % 3 ≡ i → m + 2 < n)
      → (slot random n i).live && bytes_eq (slot random n i).name (random m).name_bytes ≡ false
  unfolding ticket_key_mint
  slot-miss n m i l e = ground (arith, other_name ((n - i) / 3 * 3 + i) m)

  found :
      (n m : ℕ)
      → m ≤ n
      → n ≤ m + 2
      → ticket_key_by_name (key random m).name (slots random n).ticket_keys ≡ some (key random m)
  unfolding ticket_key_by_name ticket_key_mint
  found n m l u = ground (
    arith,
    slot-match n m,
    slot-miss n m 0,
    slot-miss n m 1,
    slot-miss n m 2,
    bytes_eq_refl (random m).name_bytes,
  )

  not_found :
      (n m : ℕ)
      → m + 2 < n
      → ticket_key_by_name (key random m).name (slots random n).ticket_keys ≡ none
  unfolding ticket_key_by_name ticket_key_mint
  not_found n m l = ground (arith, slot-miss n m 0, slot-miss n m 1, slot-miss n m 2)

  gone : (n m i : ℕ) → i < 3 → m + 2 < n → slot random n i ≢ key random m
  unfolding ticket_key_mint
  gone n m i h l e = ground (
    arith,
    slot-miss n m i h,
    ap (λ k. k.name) e,
    ap (λ k. k.live) e,
    bytes_eq_refl (random m).name_bytes,
  )

  -- A ticket is sealed under the newest key.
  slots-sealing :
      (n : ℕ)
      → sealing_key (slots random n).ticket_keys (slots random n).ticket_cur ≡ some (key random n)
  unfolding sealing_key ticket_key_mint
  slots-sealing n = ground (arith, slot-match n n)

  -- If no two keys are minted with the same name, then a ticket that is sealed at a time t is sealed
  -- under the key that is current then, and that key is found by its name in the local ring at any
  -- later time up to TLS_TICKET_LIFETIME_S after t.
  pub key_opens :
      (t later : ℕ)
      → t ≤ later
      → later ≤ t + tls_ticket_lifetime_s * 1000
      → (sealing_key (ring_at random t).ticket_keys (ring_at random t).ticket_cur
          ≡ some (key random (t / tls_ticket_rotate_ms)))
        × (ticket_key_by_name
              (key random (t / tls_ticket_rotate_ms)).name
              (ring_at random later).ticket_keys
            ≡ some (key random (t / tls_ticket_rotate_ms)))
  key_opens t later l h =
      rw
        (
          ring_after-slots random (t / tls_ticket_rotate_ms),
          ring_after-slots random (later / tls_ticket_rotate_ms),
        )
        (slots-sealing (t / tls_ticket_rotate_ms), found _ _ (omega arith) (omega arith))

  -- If no two keys are minted with the same name, then the key that is current at a time t is gone
  -- from the local ring TLS_TICKET_RING rotation periods later: it is not found by its name, and no
  -- slot holds it.
  pub key_destroyed :
      (t later : ℕ)
      → t + tls_ticket_ring * tls_ticket_rotate_ms ≤ later
      → (ticket_key_by_name
            (key random (t / tls_ticket_rotate_ms)).name
            (ring_at random later).ticket_keys
          ≡ none)
        × All (λ k. k ≢ key random (t / tls_ticket_rotate_ms)) (ring_at random later).ticket_keys
  key_destroyed t later h = rw (ring_after-slots random (later / tls_ticket_rotate_ms)) (
    not_found _ _ (omega arith),
    (
      gone (later / tls_ticket_rotate_ms) _ 0 (omega arith) (omega arith),
      (
        gone (later / tls_ticket_rotate_ms) _ 1 (omega arith) (omega arith),
        (gone (later / tls_ticket_rotate_ms) _ 2 (omega arith) (omega arith), tt),
      ),
    ),
  )
