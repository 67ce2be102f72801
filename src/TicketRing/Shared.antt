-- ===== src/TicketRing/Shared.antt =====
-- freastal/src/tls.c and server.h, the ticket ring that workers share: what the owner publishes, and what a worker reads, picks and checks.
-- The clock, the process id and what each attempt to read observes are arguments.
use freastal.Prelude.{
  ℕ, zero, suc, ◌+◌, ◌%◌, ◌^◌, Bool, false, not, ◌||◌, Option, none, some, List, [], ◌∷◌, Bytes,
  set, ltb, ◌==◌, if◌then◌else◌,
}
use freastal.TicketRing.{
  tls_ticket_name_len, tls_ticket_aes_len, tls_ticket_hmac_len, tls_ticket_ring,
  tls_ticket_rotate_ms, TicketKey, cleared, Random, ticket_key_mint, Ring, ticket_key_by_name,
  sealing_key,
}

abbrev pub ring_magic : ℕ
ring_magic = 1718776939

abbrev pub ring_abi : ℕ
ring_abi = 1

abbrev pub stale_grace_ms : ℕ
stale_grace_ms = tls_ticket_rotate_ms

abbrev pub seq_retries : ℕ
seq_retries = 64

-- sizeof(tls_ticket_key_t)
abbrev pub key_size : ℕ
key_size = tls_ticket_name_len + tls_ticket_aes_len + tls_ticket_hmac_len + 1

-- tls_ticket_ring_t; `cur` never is negative.
pub record SharedRing : Type 0 where
  pub magic : ℕ
  pub abi : ℕ
  pub ring_slots : ℕ
  pub key_stride : ℕ
  pub rotate_ms : ℕ
  pub grace_ms : ℕ
  pub owner_pid : ℕ
  pub seq : ℕ
  pub cur : ℕ
  pub rotate_due_ms : ℕ
  pub keys : List TicketKey

-- tls_ticket_ring_publish() at a time of the clock; `seq` is a uint32_t.
unfoldable pub ring_publish : ℕ → SharedRing → ℕ → TicketKey → SharedRing
ring_publish clock r slot fresh =
    let s = r.seq in
    let opened = record r { seq = (s + 1) % 2 ^ 32 } in
    let wiped = record opened { keys = set opened.keys slot cleared } in
    let filled = record wiped { keys = set wiped.keys slot fresh; cur = slot } in
    record filled { rotate_due_ms = (clock + r.rotate_ms) % 2 ^ 64; seq = (s + 2) % 2 ^ 32 }

-- What memset() leaves, and then tls_ticket_ring_create().
unfoldable pub ring_create : ℕ → ℕ → Random → SharedRing
ring_create clock pid random =
    ring_publish clock
      (record {
        magic = ring_magic;
        abi = ring_abi;
        ring_slots = tls_ticket_ring;
        key_stride = key_size;
        rotate_ms = tls_ticket_rotate_ms;
        grace_ms = stale_grace_ms;
        owner_pid = pid;
        seq = 0;
        cur = 0;
        rotate_due_ms = 0;
        keys = cleared ∷ cleared ∷ cleared ∷ [];
      })
      0 (ticket_key_mint random)

-- tls_ticket_ring_rotate_owned() of a process that owns a ring.
unfoldable pub ring_rotate_owned : ℕ → Random → SharedRing → SharedRing
ring_rotate_owned clock random r =
    ring_publish clock r ((r.cur + 1) % tls_ticket_ring) (ticket_key_mint random)

-- The tests of tls_ticket_ring_attach(), which refuses the mapping if one of them fails.
unfoldable pub ring_attach : SharedRing → Option SharedRing
ring_attach r =
    if not (r.magic == ring_magic)
      || (not (r.abi == ring_abi)
          || (not (r.ring_slots == tls_ticket_ring)
              || (not (r.key_stride == key_size)
                  || (ltb tls_ticket_rotate_ms r.rotate_ms
                      || (ltb stale_grace_ms r.grace_ms || r.seq == 0)))))
    then none
    else some r

-- What one attempt to read under the seqlock observes: `seq` before, the copy made then, and `seq`
-- after it.
pub record Attempt : Type 0 where
  pub before : ℕ
  pub copied : SharedRing
  pub after : ℕ

-- The loop of tls_ticket_ring_read() over the attempts from one on, as many as are left.
unfoldable pub read_from : ℕ → (ℕ → Attempt) → ℕ → Option SharedRing
read_from zero observe attempt = none
read_from (suc left) observe attempt =
    let a = observe attempt in
    let again = read_from left observe (attempt + 1) in
    if a.before == 0 || a.before % 2 == 1
    then again
    else if a.after == a.before
    then some a.copied
    else again

unfoldable pub ring_read : (ℕ → Attempt) → Option SharedRing
ring_read observe = read_from seq_retries observe 0

-- The loop of tls_ticket_ring_is_stale(), which reads rotate_due_ms in the same way.
unfoldable pub ring_is_stale : ℕ → ℕ → (ℕ → Attempt) → Bool
ring_is_stale clock grace_ms observe = elim (ring_read observe) [
  | none ↦ false
  | some r ↦ ltb ((r.rotate_due_ms + grace_ms) % 2 ^ 64) clock
]

-- tls_ticket_key_pick_shared(): the key to seal with, or to open a ticket of that name.
unfoldable pub key_pick_shared : (ℕ → Attempt) → Bytes → Bool → Option TicketKey
key_pick_shared observe name enc = elim (ring_read observe) [
  | none ↦ none
  | some snap ↦ if enc then sealing_key snap.keys snap.cur else ticket_key_by_name name snap.keys
]

-- Where the keys come from: the shared ring, as far as it is attached, or the local one.
pub data Source : Type 0 where
  shared : (ℕ → Attempt) → Source
  local : Ring → Source

-- The choice of tls_ticket_key_cb(): the key it goes on with, or none for its return value 0. A
-- seal that loses the race gets a key of its own, of fresh random bytes.
unfoldable pub ticket_key_cb : Source → Random → Bytes → Bool → Option TicketKey
ticket_key_cb (shared observe) random name enc = elim (key_pick_shared observe name enc) [
  | some k ↦ some k
  | none ↦ if enc then some (ticket_key_mint random) else none
]
ticket_key_cb (local ring) random name enc =
    if enc
    then sealing_key ring.ticket_keys ring.ticket_cur
    else ticket_key_by_name name ring.ticket_keys
