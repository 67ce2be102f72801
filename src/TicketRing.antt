-- ===== src/TicketRing.antt =====
-- freastal/src/tls.c, the session-ticket keys of one process: minting, the local ring and its
-- rotation, and the choice of a key by name. What the random source returns is an argument.
pub mod Shared
pub mod Hook
pub mod Region
pub mod Retention
pub mod Seqlock
pub mod SharedRules
pub mod Tests
use freastal.Prelude.{
  ℕ, zero, suc, ◌+◌, ◌*◌, ◌/◌, ◌%◌, ◌≡◌, Bool, true, false, not, ◌&&◌, Option, none, some, List, [],
  ◌∷◌, Bytes, length, bytes_eq, get_elem?, get_or, set, replicate, if◌then◌else◌,
}

abbrev pub tls_ticket_name_len : ℕ
tls_ticket_name_len = 16

abbrev pub tls_ticket_aes_len : ℕ
tls_ticket_aes_len = 32

abbrev pub tls_ticket_hmac_len : ℕ
tls_ticket_hmac_len = 32

abbrev pub tls_ticket_ring : ℕ
tls_ticket_ring = 3

abbrev pub tls_ticket_rotate_ms : ℕ
tls_ticket_rotate_ms = 60 * 60 * 1000

abbrev pub tls_ticket_lifetime_s : ℕ
tls_ticket_lifetime_s = 2 * 60 * 60

-- tls_ticket_key_t
pub record TicketKey : Type 0 where
  pub name : Bytes
  pub aes : Bytes
  pub hmac : Bytes
  pub live : Bool

-- A slot that was never filled, or that ptls_clear_memory() has zeroized.
abbrev pub cleared : TicketKey
cleared = record {
  name = replicate tls_ticket_name_len 0;
  aes = replicate tls_ticket_aes_len 0;
  hmac = replicate tls_ticket_hmac_len 0;
  live = false;
}

-- What ptls_openssl_random_bytes() fills a key with.
pub record Random : Type 0 where
  pub name_bytes : Bytes
  pub aes_bytes : Bytes
  pub hmac_bytes : Bytes

unfoldable pub ticket_key_mint : Random → TicketKey
ticket_key_mint r = record {
  name = r.name_bytes;
  aes = r.aes_bytes;
  hmac = r.hmac_bytes;
  live = true;
}

-- ticket_keys[] and ticket_cur of tls_server_t
pub record Ring : Type 0 where
  pub ticket_keys : List TicketKey
  pub ticket_cur : ℕ

-- The ring that tls_server_init() starts with when it has no descriptor.
unfoldable pub ring_init : Random → Ring
unfolding ticket_key_mint
ring_init r = record { ticket_keys = ticket_key_mint r ∷ cleared ∷ cleared ∷ []; ticket_cur = 0 }

unfoldable pub ticket_rotate_once : Random → Ring → Ring
unfolding ticket_key_mint
ticket_rotate_once r ts =
    let next = (ts.ticket_cur + 1) % tls_ticket_ring in
    let wiped = set ts.ticket_keys next cleared in
    record { ticket_keys = set wiped next (ticket_key_mint r); ticket_cur = next }

-- The first live key of that name.
unfoldable pub ticket_key_by_name : Bytes → List TicketKey → Option TicketKey
ticket_key_by_name name [] = none
ticket_key_by_name name (k ∷ ks) =
    let rest = ticket_key_by_name name ks in if k.live && bytes_eq k.name name then some k else rest

-- The key that seals: the current one, if it is live.
unfoldable pub sealing_key : List TicketKey → ℕ → Option TicketKey
sealing_key keys cur = elim (get_elem? keys cur) [
  | none ↦ none
  | some k ↦ if k.live then some k else none
]
