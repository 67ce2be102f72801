-- ===== src/TlsServer.antt =====
-- freastal/src/tls.c, tls_server_init(): the certificate and the key, where the ticket keys come from,
-- and the timer that rotates them. What picotls, OpenSSL and the kernel answer is an argument.
pub mod Ready
use freastal.Prelude.{
  ℕ, Bool, true, false, not, Option, none, some, List, [], ◌∷◌, ◌==◌, if◌then◌else◌,
}
use freastal.TicketRing.{
  cleared, Random, Ring, ticket_key_mint, ring_init, tls_ticket_rotate_ms, tls_ticket_lifetime_s,
}
use freastal.TicketRing.Shared.{SharedRing}
use freastal.TicketRing.Hook.{Mapping, Process}
use freastal.TicketRing.Region.{Kernel, Os, tls_ticket_ring_len, tls_ticket_ring_attach}

-- The process with the rest of the TLS context that is set here: the switch and the bound of
-- picotls, and the repeating timer by its two times.
pub record TlsServer : Type 0 where
  pub process : Process
  pub require_dhe_on_psk : Bool
  pub max_early_data_size : ℕ
  pub ticket_timer : Option (ℕ × ℕ)

-- Whether the certificates load, the key file opens and the key parses; random bytes for a key; and
-- the size of the ring's struct with what the ring's descriptor shows.
pub record TlsFiles : Type 0 where
  pub load_certificates : Bool
  pub fopen : Bool
  pub private_key : Bool
  pub random : Random
  pub ring_size : ℕ
  pub shown : SharedRing

-- memset()
abbrev pub clear_tls : Process → TlsServer
clear_tls p = record {
  process = record p {
    ticket_shared = none;
    ticket_shared_len = 0;
    ticket_lifetime = 0;
    encrypt_ticket = false;
    local_ring = record { ticket_keys = cleared ∷ cleared ∷ cleared ∷ []; ticket_cur = 0 };
  };
  require_dhe_on_psk = false;
  max_early_data_size = 0;
  ticket_timer = none;
}

-- What attaching leads to; false stands for the return value -1.
unfoldable pub use_ring : TlsServer → ℕ → Kernel × Option SharedRing → TlsServer × Kernel × Bool
use_ring t len (k, none) = (t, k, false)
use_ring t len (k, some r) = (
  record t {
    process = record t.process {
      ticket_shared = some (record { grace_ms = r.grace_ms; owner_pid = r.owner_pid });
      ticket_shared_len = len;
    };
  },
  k,
  true,
)

-- Where the keys come from: the ring behind the descriptor, or a ring of this process.
unfoldable pub ticket_source :
    Os → TlsFiles → Option ℕ → TlsServer → Kernel → TlsServer × Kernel × Bool
unfolding use_ring
ticket_source os files none t k =
    (record t { process = record t.process { local_ring = ring_init files.random } }, k, true)
ticket_source os files (some fd) t k =
    let len = tls_ticket_ring_len os files.ring_size in
    use_ring t len (tls_ticket_ring_attach os len files.shown k)

-- The part behind the source of the keys, up to the check of 0-RTT.
abbrev pub set_tickets : TlsServer → TlsServer
set_tickets t = record t {
  process = record t.process { encrypt_ticket = true; ticket_lifetime = tls_ticket_lifetime_s };
  require_dhe_on_psk = true;
}

-- The timer, unless the ring is shared, and the switch.
abbrev pub enable_tls : TlsServer → TlsServer
enable_tls t = record t {
  process = record t.process { tls_enabled = true };
  ticket_timer = elim t.process.ticket_shared [
    | none ↦ some (tls_ticket_rotate_ms, tls_ticket_rotate_ms)
    | some m ↦ t.ticket_timer
  ];
}

unfoldable pub finish_tls : TlsServer × Kernel × Bool → TlsServer × Kernel × Bool
finish_tls (t, k, sourced) =
    let t' = set_tickets t in
    if not sourced
    then (t, k, false)
    else if not (t'.max_early_data_size == 0)
    then (t', k, false)
    else (enable_tls t', k, true)

unfoldable pub tls_server_init :
    Os → TlsFiles → Option ℕ → Process → Kernel → TlsServer × Kernel × Bool
unfolding ticket_source finish_tls
tls_server_init os files ring_fd p k =
    let t = clear_tls p in
    if not files.load_certificates
    then (t, k, false)
    else if not files.fopen
    then (t, k, false)
    else if not files.private_key
    then (t, k, false)
    else finish_tls (ticket_source os files ring_fd t k)
