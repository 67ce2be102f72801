-- ===== src/TicketRing/Region.antt =====
-- freastal/src/tls.c, the shared memory of the ticket ring: tls_ticket_ring_open(),
-- tls_ticket_ring_create(), tls_ticket_ring_rotate_owned(), tls_ticket_ring_destroy() and
-- tls_ticket_ring_attach(). What the kernel answers is an argument; what it holds for the process is passed along.
pub mod Made
pub mod Life
use freastal.Prelude.{
  ℕ, zero, suc, ◌+◌, ◌-◌, ◌*◌, ◌/◌, ◌%◌, Bool, true, false, not, Option, none, some, List, [], ◌∷◌,
  ◌++◌, Bytes, bytes_eq, ltb, ◌==◌, if◌then◌else◌,
}
use freastal.Ascii.{codes}
use freastal.TicketRing.{cleared, Random}
use freastal.TicketRing.Shared.{ring_rotate_owned, SharedRing, ring_create, ring_attach}

abbrev pub shm_attempts : ℕ
shm_attempts = 8

-- The open descriptors, the names of shared memory, the lengths of the mappings and of those that
-- are locked, and what the object of the ring holds.
pub record Kernel : Type 0 where
  pub descriptors : List ℕ
  pub names : List Bytes
  pub maps : List ℕ
  pub locks : List ℕ
  pub page : Option SharedRing

pub data ShmOpen : Type 0 where
  opened : ℕ → ShmOpen
  already_there refused : ShmOpen

-- The kernel's answers, for shm_open() by the number of the attempt; sysconf() is none for a number
-- that is not positive. Without is_linux there is no memfd.
pub record Os : Type 0 where
  pub is_linux : Bool
  pub memfd_create : Option ℕ
  pub open_proc : Option ℕ
  pub name_bytes : ℕ → Bytes
  pub shm_open : ℕ → ShmOpen
  pub shm_open_read_only : ℕ → Option ℕ
  pub sysconf : Option ℕ
  pub ftruncate : Bool
  pub mmap : Bool
  pub mlock : Bool

abbrev pub remove : ℕ → List ℕ → List ℕ
remove x [] = []
remove x (y ∷ ys) = if y == x then ys else y ∷ remove x ys

abbrev pub remove_name : Bytes → List Bytes → List Bytes
remove_name x [] = []
remove_name x (y ∷ ys) = if bytes_eq y x then ys else y ∷ remove_name x ys

abbrev pub with_fd : ℕ → Kernel → Kernel
with_fd fd k = record k { descriptors = fd ∷ k.descriptors }

abbrev pub close : ℕ → Kernel → Kernel
close fd k = record k { descriptors = remove fd k.descriptors }

abbrev pub shm_unlink : Bytes → Kernel → Kernel
shm_unlink name k = record k { names = remove_name name k.names }

abbrev pub munmap : ℕ → Kernel → Kernel
munmap len k = record k { maps = remove len k.maps }

abbrev pub munlock : ℕ → Kernel → Kernel
munlock len k = record k { locks = remove len k.locks }

unfoldable pub hex_digit : ℕ → ℕ
hex_digit n = if ltb n 10 then 48 + n else 87 + n

unfoldable pub hex_bytes : Bytes → Bytes
unfolding hex_digit
hex_bytes [] = []
hex_bytes (b ∷ bs) = hex_digit (b / 16) ∷ hex_digit (b % 16) ∷ hex_bytes bs

unfoldable pub ring_name : Bytes → Bytes
unfolding hex_bytes
ring_name rnd = codes "/f" ++ hex_bytes rnd

-- The descriptors that tls_ticket_ring_open() hands out.
pub record Opened : Type 0 where
  pub rw : ℕ
  pub ro : ℕ

-- The object has its name, and the descriptor that created it.
unfoldable pub open_named : Os → ℕ → ℕ → Kernel → Kernel × Option Opened
unfolding ring_name
open_named os attempt rw k =
    let name = ring_name (os.name_bytes attempt) in
    let k1 = record k { descriptors = rw ∷ k.descriptors; names = name ∷ k.names } in
    elim (os.shm_open_read_only attempt) [
      | none ↦ (close rw (shm_unlink name k1), none)
      | some ro ↦ (shm_unlink name (with_fd ro k1), some (record { rw = rw; ro = ro }))
    ]

-- The loop over the names, from one attempt on.
unfoldable pub open_shm : ℕ → Os → ℕ → Kernel → Kernel × Option Opened
open_shm zero os attempt k = (k, none)
open_shm (suc left) os attempt k =
    let again = open_shm left os (attempt + 1) k in
    elim (os.shm_open attempt) [
      | already_there ↦ again
      | refused ↦ (k, none)
      | opened rw ↦ open_named os attempt rw k
    ]

unfoldable pub tls_ticket_ring_open : Os → Kernel → Kernel × Option Opened
tls_ticket_ring_open os k = elim (if os.is_linux then os.memfd_create else none) [
  | none ↦ open_shm shm_attempts os 0 k
  | some rw ↦ elim os.open_proc [
    | some ro ↦ (with_fd ro (with_fd rw k), some (record { rw = rw; ro = ro }))
    | none ↦ open_shm shm_attempts os 0 (close rw (with_fd rw k))
  ]
]

-- The length that is mapped: the struct's, rounded up to pages.
unfoldable pub tls_ticket_ring_len : Os → ℕ → ℕ
tls_ticket_ring_len os need =
    let page : ℕ = elim os.sysconf [ none ↦ 4096 | some p ↦ p ] in ((need + page - 1) / page) * page

-- g_ring_owned, as to whether it is set, with the length, the lock and the descriptor beside it.
pub record Owner : Type 0 where
  pub owned : Bool
  pub owned_len : ℕ
  pub owned_locked : Bool
  pub owned_fd : Option ℕ

pub data Created : Type 0 where
  created : ℕ → Created
  already_owned os_error : Created

-- mlock(), of the last mapping.
abbrev pub tls_ticket_ring_harden : Os → ℕ → Kernel → Kernel
tls_ticket_ring_harden os len k = if os.mlock then record k { locks = len ∷ k.locks } else k

-- The part behind tls_ticket_ring_open(); `first` is the page with its first key.
unfoldable pub ring_map : Os → ℕ → SharedRing → Opened → Owner → Kernel → Owner × Kernel × Created
ring_map os len first d o k =
    if not os.ftruncate
    then (record o { owned = false; owned_fd = none }, close d.ro (close d.rw k), os_error)
    else if not os.mmap
    then (record o { owned = false; owned_fd = none }, close d.ro (close d.rw k), os_error)
    else (
      record { owned = true; owned_len = len; owned_locked = os.mlock; owned_fd = some d.rw },
      tls_ticket_ring_harden os len (record k { maps = len ∷ k.maps; page = some first }),
      created d.ro,
    )

-- tls_ticket_ring_create() at a time of the clock.
unfoldable pub tls_ticket_ring_create :
    Os → ℕ → ℕ → ℕ → Random → Owner → Kernel → Owner × Kernel × Created
tls_ticket_ring_create os size clock pid random o k =
    let (k1, d) = tls_ticket_ring_open os k in
    if o.owned then (o, k, already_owned) else elim d [
      | none ↦ (o, k1, os_error)
      | some d ↦ ring_map os (tls_ticket_ring_len os size) (ring_create clock pid random) d o k1
    ]

-- tls_ticket_ring_rotate_owned() at a time of the clock; false is the RuntimeError of a process that
-- owns no ring.
unfoldable pub tls_ticket_ring_rotate_owned : ℕ → Random → Owner → Kernel → Kernel × Bool
tls_ticket_ring_rotate_owned clock random o k = if not o.owned then (k, false) else (
  record k {
    page = elim k.page [ none ↦ none | some r ↦ some (ring_rotate_owned clock random r) ];
  },
  true,
)

-- What ptls_clear_memory() leaves of the page.
abbrev pub zeroed : SharedRing
zeroed = record {
  magic = 0;
  abi = 0;
  ring_slots = 0;
  key_stride = 0;
  rotate_ms = 0;
  grace_ms = 0;
  owner_pid = 0;
  seq = 0;
  cur = 0;
  rotate_due_ms = 0;
  keys = cleared ∷ cleared ∷ cleared ∷ [];
}

-- Zeroize, unlock and unmap.
unfoldable pub unmap_owned : Owner → Kernel → Kernel
unmap_owned o k =
    let k1 = record k { page = some zeroed } in
    munmap o.owned_len (if o.owned_locked then munlock o.owned_len k1 else k1)

unfoldable pub close_owned : Option ℕ → Kernel → Kernel
close_owned none k = k
close_owned (some fd) k = close fd k

unfoldable pub tls_ticket_ring_destroy : Owner → Kernel → Owner × Kernel
unfolding close_owned unmap_owned
tls_ticket_ring_destroy o k = (
  record {
    owned = false;
    owned_len = if o.owned then 0 else o.owned_len;
    owned_locked = if o.owned then false else o.owned_locked;
    owned_fd = none;
  },
  close_owned o.owned_fd (if o.owned then unmap_owned o k else k),
)

-- tls_ticket_ring_attach(): the ring that the worker has then, if it does not refuse.
unfoldable pub tls_ticket_ring_attach : Os → ℕ → SharedRing → Kernel → Kernel × Option SharedRing
tls_ticket_ring_attach os len shown k =
    let mapped = record k { maps = len ∷ k.maps } in
    if not os.mmap then (k, none) else elim (ring_attach shown) [
      | none ↦ (munmap len mapped, none)
      | some r ↦ (tls_ticket_ring_harden os len mapped, some r)
    ]
