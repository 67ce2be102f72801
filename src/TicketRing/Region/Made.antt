-- ===== src/TicketRing/Region/Made.antt =====
-- freastal/src/tls.c: what tls_ticket_ring_create() leaves, and what destroying that gives back.
use freastal.Prelude.{
  ℕ, zero, suc, ◌+◌, ◌≡◌, refl, sym, subst, ◌⊎◌, inl, inr, true, false, not, Option, none, some,
  List, ◌∷◌, Bytes, bytes_eq_refl, else_of, if_cases, option_cases, Bool-cases, if◌then◌else◌,
  arith,
}
use freastal.TicketRing.{Random}
use freastal.TicketRing.Shared.{SharedRing, ring_create}
use freastal.TicketRing.Region.{
  Kernel, Os, Owner, Created, created, os_error, Opened, opened, already_there, refused, with_fd,
  remove, shm_attempts, open_named, open_shm, tls_ticket_ring_open, tls_ticket_ring_len, ring_map,
  tls_ticket_ring_create, zeroed, tls_ticket_ring_destroy, tls_ticket_ring_harden, ring_name,
  remove_name, ShmOpen,
}

-- The kernel is as before, or holds two more descriptors and nothing else.
abbrev IsOpen : Kernel → Kernel × Option Opened → Type 0
IsOpen k (k', none) = k' ≡ k
IsOpen k (k', some d) = k' ≡ with_fd d.ro (with_fd d.rw k)

remove_self : (x : ℕ) (l : List ℕ) → remove x (x ∷ l) ≡ l
remove_self x l = ground arith

-- Two descriptors are closed in the order in which they were opened.
remove_both : (x y : ℕ) (l : List ℕ) → remove y (remove x (y ∷ x ∷ l)) ≡ l
remove_both x y l = ground arith

remove_name_self : (x : Bytes) (l : List Bytes) → remove_name x (x ∷ l) ≡ l
remove_name_self x l = rw (bytes_eq_refl x) refl

open_named-IsOpen : (os : Os) (attempt fd : ℕ) (k : Kernel) → IsOpen k (open_named os attempt fd k)
unfolding open_named
open_named-IsOpen os attempt fd k =
    let name = ring_name (os.name_bytes attempt) in
    option_cases (IsOpen k) (os.shm_open_read_only attempt)
      (λ e. rw (remove_self fd k.descriptors, remove_name_self name k.names) refl)
      (λ ro e. rw (remove_name_self name k.names) refl)

attempt-IsOpen :
    (os : Os) (attempt : ℕ) (k : Kernel) (answer : ShmOpen) (again : Kernel × Option Opened)
    → IsOpen k again
    → IsOpen k (elim answer [
      | already_there ↦ again
      | refused ↦ (k, none)
      | opened fd ↦ open_named os attempt fd k
    ])
attempt-IsOpen os attempt k already_there again h = h
attempt-IsOpen os attempt k refused again h = refl
attempt-IsOpen os attempt k (opened fd) again h = open_named-IsOpen os attempt fd k

open_shm-IsOpen :
    (left : ℕ) (os : Os) (attempt : ℕ) (k : Kernel) → IsOpen k (open_shm left os attempt k)
unfolding open_shm
open_shm-IsOpen zero os attempt k = refl
open_shm-IsOpen (suc left) os attempt k =
    attempt-IsOpen os attempt k (os.shm_open attempt) _ (open_shm-IsOpen left os (attempt + 1) k)

tls_ticket_ring_open-IsOpen : (os : Os) (k : Kernel) → IsOpen k (tls_ticket_ring_open os k)
unfolding tls_ticket_ring_open
tls_ticket_ring_open-IsOpen os k =
    option_cases (IsOpen k) (if os.is_linux then os.memfd_create else none)
      (λ e. open_shm-IsOpen shm_attempts os 0 k)
      λ fd e.
        option_cases (IsOpen k) os.open_proc
          (λ f. rw (remove_self fd k.descriptors) (open_shm-IsOpen shm_attempts os 0 k))
          (λ ro f. refl)

-- What the owner and the kernel hold of a ring that was made.
abbrev pub owner_of : Os → ℕ → Opened → Owner
owner_of os len d = record {
  owned = true;
  owned_len = len;
  owned_locked = os.mlock;
  owned_fd = some d.rw;
}

abbrev pub kernel_of : Os → ℕ → SharedRing → Opened → Kernel → Kernel
kernel_of os len first d k =
    tls_ticket_ring_harden os len
      (record (with_fd d.ro (with_fd d.rw k)) { maps = len ∷ k.maps; page = some first })

abbrev IsMade : Os → ℕ → SharedRing → Owner → Kernel → Owner × Kernel × Created → Type 0
IsMade os len first o k (o', k', r) =
    ((r ≡ os_error) × (o' ≡ o) × (k' ≡ k))
    ⊎ ((d : Opened) × (r ≡ created d.ro)
        × (o' ≡ owner_of os len d)
        × (k' ≡ kernel_of os len first d k))

ring_map-IsMade :
    (os : Os) (len : ℕ) (first : SharedRing) (d : Opened) (o : Owner) (k : Kernel)
    → o.owned ≡ false
    → o.owned_fd ≡ none
    → IsMade os len first o k (ring_map os len first d o (with_fd d.ro (with_fd d.rw k)))
unfolding ring_map
ring_map-IsMade os len first d o k e f =
    let gone = remove_both d.rw d.ro k.descriptors in
    if_cases (IsMade os len first o k) (not os.ftruncate) (λ _. inl (refl, cc, rw gone refl))
      λ _.
        if_cases (IsMade os len first o k) (not os.mmap) (λ _. inl (refl, cc, rw gone refl))
          (λ _. inr (d, refl, refl, refl))

opened-IsMade :
    (os : Os) (len : ℕ) (first : SharedRing) (o : Owner) (k : Kernel) (p : Kernel × Option Opened)
    → o.owned ≡ false
    → o.owned_fd ≡ none
    → IsOpen k p
    → IsMade os len first o k
        (elim p.1 [ none ↦ (o, p.0, os_error) | some d ↦ ring_map os len first d o p.0 ])
opened-IsMade os len first o k (k', none) e f h = inl (refl, refl, h)
opened-IsMade os len first o k (k', some d) e f h = rw h (ring_map-IsMade os len first d o k e f)

remove_second : (x y : ℕ) (l : List ℕ) → remove x (y ∷ x ∷ l) ≡ y ∷ l
remove_second x y l = ground arith

pub made-page :
    (os : Os) (len : ℕ) (first : SharedRing) (d : Opened) (k : Kernel)
    → (kernel_of os len first d k).page ≡ some first
made-page os len first d k = ground arith

-- What destroying a ring that was made leaves.
pub made-destroy :
    (os : Os) (len : ℕ) (first : SharedRing) (d : Opened) (k : Kernel)
    → (tls_ticket_ring_destroy (owner_of os len d) (kernel_of os len first d k)).1
      ≡ record (with_fd d.ro k) { page = some zeroed }
unfolding tls_ticket_ring_destroy
made-destroy os len first d k = elim (Bool-cases os.mlock) [
  | inl e ↦
      rw (e, remove_self len k.locks, remove_self len k.maps, remove_second d.rw d.ro k.descriptors)
        refl
  | inr e ↦ rw (e, remove_self len k.maps, remove_second d.rw d.ro k.descriptors) refl
]

pub create-IsMade :
    (os : Os) (size clock pid : ℕ) (random : Random) (o : Owner) (k : Kernel)
    → o.owned ≡ false
    → o.owned_fd ≡ none
    → IsMade os
        (tls_ticket_ring_len os size)
        (ring_create clock pid random)
        o
        k
        (tls_ticket_ring_create os size clock pid random o k)
unfolding tls_ticket_ring_create
create-IsMade os size clock pid random o k e f =
    let len = tls_ticket_ring_len os size in
    let first = ring_create clock pid random in
    subst (IsMade os len first o k) (sym (else_of o.owned _ _ e)) (
      opened-IsMade os len first o k (tls_ticket_ring_open os k) e f
        (tls_ticket_ring_open-IsOpen os k))
