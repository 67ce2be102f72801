-- ===== src/Connection/Bounds.antt =====
-- freastal/src/server.c: the buffer arithmetic of a connection.
use freastal.Prelude.{
  ◌+◌, ◌-◌, ◌≤◌, ◌<◌, ◌≡◌, Bool, true, false, Bytes, length, take, length-append, length-take,
  length-drop, arith,
}
use freastal.Sizes.{read_buf_size, tls_spill_size}
use freastal.Connection.State.{
  Client, read_len, client_buffered, consumed, client_compact, client_reset,
}
use freastal.Connection.Encrypted.{tls_spill_stash, refill, tls_read_failed, set_reading}

pub record Bounds {S : Type 0} (c : Client S) : Type 0 where
  pub off_le : c.read_off ≤ read_len c
  pub len_le : read_len c ≤ read_buf_size
  pub spill_le : length c.tls_spill ≤ tls_spill_size
  pub request :
      c.in_flight ≡ true
      → (0 < c.headers_end) × (c.headers_end + c.content_length ≤ client_buffered c)

module _ {S : Type 0} (c : Client S) (b : Bounds c) where
  pub client_compact-Bounds : Bounds (client_compact c)
  unfolding client_compact
  client_compact-Bounds = ground (arith, length-drop c.read_off c.read_buf)

  -- In flight, the C `int` arithmetic of client_reset() does not wrap.
  pub consumed-eq : c.in_flight ≡ true → consumed c ≡ c.headers_end + c.content_length
  consumed-eq f = ground (arith)

  pub client_reset-Bounds :
      c.in_flight ≡ true → Bounds (record (client_reset c) { in_flight = false })
  unfolding client_reset
  client_reset-Bounds f = ground (arith, consumed-eq f)

  pub refill-Bounds : Bounds (refill c)
  refill-Bounds = ground (
    arith,
    length-append c.read_buf (take (read_buf_size - read_len c) c.tls_spill),
    length-take (read_buf_size - read_len c) c.tls_spill,
    length-drop (read_buf_size - read_len c) c.tls_spill,
  )

  pub tls_read_failed-Bounds : Bounds (tls_read_failed c)
  unfolding tls_read_failed
  tls_read_failed-Bounds = ground arith

  pub set_reading-Bounds : Bounds (set_reading c)
  unfolding set_reading
  set_reading-Bounds = ground arith

  pub stash-Bounds : (m : Bool) (src : Bytes) → Bounds (tls_spill_stash m c src).0
  unfolding tls_spill_stash
  stash-Bounds m src = ground (arith, length-append c.tls_spill src)
