-- ===== src/Connection/Invariant.antt =====
-- What holds of a connection between two callbacks, and the parts of it that hold inside one.
use freastal.Prelude.{◌<◌, ◌≡◌, true, false, none, length, length-drop, if◌then◌else◌, arith}
use freastal.Sizes.{read_buf_size}
use freastal.Connection.State.{Client, read_len, client_compact, client_reset}
use freastal.Connection.Encrypted.{tls_read_failed, set_reading, tls_read_flow}
use freastal.Connection.Callbacks.{throttle}
use freastal.Connection.Bounds.{
  Bounds, client_compact-Bounds, set_reading-Bounds, tls_read_failed-Bounds, client_reset-Bounds,
}

pub record Core {S : Type 0} (c : Client S) : Type 0 where
  pub bounds : Bounds c
  -- The spill is used only beside a full read_buf, and only on an encrypted connection.
  pub spill_full : 0 < length c.tls_spill → read_len c ≡ read_buf_size
  pub spill_tls : c.tls ≡ none → length c.tls_spill ≡ 0
  -- uv_close() was called once if the handle is closing, and never before.
  pub once : c.closes ≡ (if c.closing then 1 else 0)
  pub response :
      c.response_write ≡ true → (c.in_flight ≡ true) × (c.closing ≡ false) × (c.final_write ≡ false)
  -- No handshake write has failed.
  pub sound : c.handshake_failed ≡ false
  pub final : c.final_write ≡ true → (c.closing ≡ false) × (c.read_armed ≡ false)

pub record Inv {S : Type 0} (c : Client S) : Type 0 where
  pub core : Core c
  -- A connection that is neither closing nor answering is reading: it has not stalled.
  pub progress :
      c.closing ≡ false → c.final_write ≡ false → c.in_flight ≡ false → c.read_armed ≡ true
  -- It does not read while plaintext waits in the spill.
  pub quiet : 0 < length c.tls_spill → c.read_armed ≡ true → c.closing ≡ true

-- What a read finds: reading is armed, the handle is open, and the spill is empty.
pub record IsReading {S : Type 0} (c : Client S) : Type 0 where
  pub core : Core c
  pub closing : c.closing ≡ false
  pub final_write : c.final_write ≡ false
  pub read_armed : c.read_armed ≡ true
  pub empty : length c.tls_spill ≡ 0

module _ {S : Type 0} (c : Client S) (k : Core c) where
  pub client_compact-Core : length c.tls_spill ≡ 0 → Core (client_compact c)
  unfolding client_compact
  client_compact-Core e = ground (arith, client_compact-Bounds c k.bounds)

  set_reading-Inv :
      c.closing ≡ false
      → c.final_write ≡ false
      → (c.in_flight ≡ false → read_len c < read_buf_size)
      → Inv (set_reading c)
  unfolding set_reading
  set_reading-Inv o f r = ground (arith, set_reading-Bounds c k.bounds)

  pub tls_read_failed-Inv : c.closing ≡ false → c.final_write ≡ false → Inv (tls_read_failed c)
  unfolding tls_read_failed
  tls_read_failed-Inv o f = ground (arith, tls_read_failed-Bounds c k.bounds)

  pub tls_read_flow-Inv :
      (c.closing ≡ false → c.final_write ≡ false)
      → (c.in_flight ≡ false → 0 < length c.tls_spill → c.read_off ≡ 0)
      → Inv (tls_read_flow c)
  unfolding tls_read_flow
  tls_read_flow-Inv f s = ground (arith, length-drop c.read_off c.read_buf)

  pub throttle-Inv :
      length c.tls_spill ≡ 0
      → (c.closing ≡ false → c.final_write ≡ false → c.in_flight ≡ false → c.read_armed ≡ true)
      → Inv (throttle c)
  throttle-Inv s p = ground arith

  pub client_reset-Core :
      c.in_flight ≡ true
      → c.response_write ≡ false
      → length c.tls_spill ≡ 0
      → Core (record (client_reset c) { in_flight = false })
  unfolding client_reset
  client_reset-Core f w s = ground (arith, client_reset-Bounds c k.bounds f)
