-- ===== src/TicketRing/Region/Life.antt =====
-- freastal/src/tls.c, the shared ring from its creation to its destruction: what the kernel holds
-- for the process, and what a worker reads.
use freastal.Prelude.{
  ℕ, zero, suc, ◌+◌, ◌≡◌, refl, ap, ◌∙◌, [], ◌⊎◌, inl, inr, true, false, none, some, List, ◌∷◌,
  Bytes, arith,
}
use freastal.TicketRing.{Random, ticket_key_mint, sealing_key}
use freastal.TicketRing.Shared.{
  SharedRing, ring_create, ring_publish, ring_attach, Attempt, read_from, ring_read, seq_retries,
  ring_is_stale, key_pick_shared, shared, ticket_key_cb,
}
use freastal.TicketRing.Region.{
  Kernel, Os, Owner, created, os_error, Opened, with_fd, tls_ticket_ring_len,
  tls_ticket_ring_create, tls_ticket_ring_rotate_owned, unmap_owned, zeroed,
  tls_ticket_ring_destroy,
}
use freastal.TicketRing.Region.Made.{owner_of, kernel_of, made-page, made-destroy, create-IsMade}

ring_create-accepted :
    (clock pid : ℕ) (random : Random)
    → ring_attach (ring_create clock pid random) ≡ some (ring_create clock pid random)
unfolding ring_attach ring_create ring_publish
ring_create-accepted clock pid random = refl

destroy_twice :
    (o : Owner) (k : Kernel)
    → let (o', k') = tls_ticket_ring_destroy o k in tls_ticket_ring_destroy o' k' ≡ (o', k')
unfolding tls_ticket_ring_destroy
destroy_twice o k = refl

-- What a reader finds that no publication disturbs.
abbrev pub reads : SharedRing → ℕ → Attempt
reads r i = record { before = r.seq; copied = r; after = r.seq }

first_seal :
    (clock pid : ℕ) (random spare : Random) (name : Bytes)
    → ticket_key_cb (shared (reads (ring_create clock pid random))) spare name true
      ≡ some (ticket_key_mint random)
unfolding ticket_key_cb key_pick_shared ring_read read_from sealing_key ring_create ring_publish
    ticket_key_mint
first_seal clock pid random spare name = refl

read_from_zero :
    (left : ℕ) (observe : ℕ → Attempt) (i : ℕ)
    → ((j : ℕ) → (observe j).before ≡ 0)
    → read_from left observe i ≡ none
unfolding read_from
read_from_zero zero observe i h = refl
read_from_zero (suc left) observe i h = ground (arith, h i, read_from_zero left observe (i + 1) h)

ring_read_zero :
    (observe : ℕ → Attempt) → ((j : ℕ) → (observe j).before ≡ 0) → ring_read observe ≡ none
unfolding ring_read
ring_read_zero observe h = read_from_zero seq_retries observe 0 h

-- When the page of a ring is zeroed, whatever a reader's attempts find in the copy: a worker opens
-- no ticket, seals under a key of its own, does not take the ring for stale, and a new worker refuses
-- it.
pub destroyed_ring :
    (observe : ℕ → Attempt) (random : Random) (name : Bytes) (clock grace_ms : ℕ)
    → ((i : ℕ) → (observe i).before ≡ zeroed.seq)
    → (ticket_key_cb (shared observe) random name false ≡ none)
      × (ticket_key_cb (shared observe) random name true ≡ some (ticket_key_mint random))
      × (ring_is_stale clock grace_ms observe ≡ false)
      × (ring_attach zeroed ≡ none)
unfolding ticket_key_cb key_pick_shared ring_is_stale ring_attach
destroyed_ring observe random name clock grace_ms h =
    let e = ring_read_zero observe h in
    (
      rw (e, ticket_key_cb, key_pick_shared) refl,
      rw (e, ticket_key_cb, key_pick_shared) refl,
      rw (e, ring_is_stale) refl,
      refl,
    )

-- The rotations at the given times, in order.
abbrev pub rotate_all : List (ℕ × Random) → Owner → Kernel → Kernel
rotate_all [] o k = k
rotate_all ((clock, random) ∷ rs) o k =
    rotate_all rs o (tls_ticket_ring_rotate_owned clock random o k).0

destroy-rotate :
    (clock : ℕ) (random : Random) (o : Owner) (k : Kernel)
    → o.owned ≡ true
    → tls_ticket_ring_destroy o (tls_ticket_ring_rotate_owned clock random o k).0
      ≡ tls_ticket_ring_destroy o k
unfolding tls_ticket_ring_destroy tls_ticket_ring_rotate_owned unmap_owned
destroy-rotate clock random o k e = rw e refl

destroy-rotate_all :
    (rs : List (ℕ × Random)) (o : Owner) (k : Kernel)
    → o.owned ≡ true
    → tls_ticket_ring_destroy o (rotate_all rs o k) ≡ tls_ticket_ring_destroy o k
destroy-rotate_all [] o k e = refl
destroy-rotate_all ((clock, random) ∷ rs) o k e =
    destroy-rotate_all rs o (tls_ticket_ring_rotate_owned clock random o k).0 e
    ∙ destroy-rotate clock random o k e

rotated-destroy :
    (rs : List (ℕ × Random)) (os : Os) (len : ℕ) (first : SharedRing) (d : Opened) (k : Kernel)
    → (tls_ticket_ring_destroy
        (owner_of os len d)
        (rotate_all rs (owner_of os len d) (kernel_of os len first d k))).1
      ≡ record (with_fd d.ro k) { page = some zeroed }
rotated-destroy rs os len first d k =
    ap (λ r. r.1) (destroy-rotate_all rs (owner_of os len d) (kernel_of os len first d k) refl)
    ∙ made-destroy os len first d k

-- If a process owns no ring, tls_ticket_ring_create() either reports an error of the system and
-- leaves the process and its descriptors, names, mappings and locks as they were, or hands out a
-- descriptor ro, with the ring in the page, which a worker that maps it accepts,
-- and under whose first key it seals. Then, however often the ring is rotated in between,
-- tls_ticket_ring_destroy() leaves a page of zeros, from which a worker opens no ticket, and of all
-- that was acquired just ro; to destroy a second time changes nothing.
pub ring_life :
    (os : Os) (size clock pid : ℕ) (random spare : Random) (name : Bytes) (rs : List (ℕ × Random))
    (o : Owner) (k : Kernel)
    → o.owned ≡ false
    → o.owned_fd ≡ none
    → let (o', k', r) = tls_ticket_ring_create os size clock pid random o k in
      let (o'', k'') = tls_ticket_ring_destroy o' (rotate_all rs o' k') in
      ((r ≡ os_error) × (o' ≡ o) × (k' ≡ k))
      ⊎ ((ro : ℕ) × (r ≡ created ro)
          × (k'.page ≡ some (ring_create clock pid random))
          × (ring_attach (ring_create clock pid random) ≡ some (ring_create clock pid random))
          × (ticket_key_cb (shared (reads (ring_create clock pid random))) spare name true
              ≡ some (ticket_key_mint random))
          × (ticket_key_cb (shared (reads zeroed)) spare name false ≡ none)
          × (k'' ≡ record (with_fd ro k) { page = some zeroed })
          × (tls_ticket_ring_destroy o'' k'' ≡ (o'', k'')))
ring_life os size clock pid random spare name rs o k e f =
    elim (create-IsMade os size clock pid random o k e f) [
      | inl h ↦ inl h
      | inr (d, r, p, q) ↦ inr (
        d.ro,
        r,
        rw q (made-page os (tls_ticket_ring_len os size) (ring_create clock pid random) d k),
        ring_create-accepted clock pid random,
        first_seal clock pid random spare name,
        (destroyed_ring (reads zeroed) spare name 0 0 (λ i. refl)).0,
        rw (p, q)
            (rotated-destroy rs os (tls_ticket_ring_len os size) (ring_create clock pid random) d
              k),
        destroy_twice _ _,
      )
    ]
