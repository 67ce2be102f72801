-- ===== src/Connection/Gone.antt =====
-- freastal/src/server.c: a connection after a handshake write has failed. It is closed, whatever is
-- still pending on it, and what completes then may close it again.
use freastal.Prelude.{◌<◌, ◌≡◌, ◌⊎◌, Bool, true, false, length, arith, refl}
use freastal.Sizes.{read_buf_size}
use freastal.Connection.State.{Client, read_len}
use freastal.Connection.Dispatch.{Env, write_response}
use freastal.Connection.Callbacks.{
  on_tls_hs_write, on_tls_final_write, finish, on_write, late_response,
}
use freastal.Connection.Bounds.{Bounds}
use freastal.Connection.Invariant.{Core, Inv}

pub record Gone {S : Type 0} (c : Client S) : Type 0 where
  pub failed : c.handshake_failed ≡ true
  pub closing : c.closing ≡ true
  pub bounds : Bounds c
  pub spill_full : 0 < length c.tls_spill → read_len c ≡ read_buf_size

-- What a connection can be in: as the callbacks mean it to be, or gone.
abbrev pub State : {S : Type 0} → Client S → Type 0
State c = Inv c ⊎ Gone c

module _ {S : Type 0} (c : Client S) where
  pub fails-Gone : Core c → Gone (on_tls_hs_write c false)
  unfolding on_tls_hs_write
  fails-Gone k = record {
    failed = refl;
    closing = refl;
    bounds = ground (arith, k.bounds);
    spill_full = k.spill_full;
  }

  pub on_tls_hs_write-Gone : (sent : Bool) → Gone c → Gone (on_tls_hs_write c sent)
  unfolding on_tls_hs_write
  on_tls_hs_write-Gone sent g = ground (arith, g.bounds, g.spill_full)

  pub on_tls_final_write-Gone : Gone c → Gone (on_tls_final_write c)
  unfolding on_tls_final_write
  on_tls_final_write-Gone g = ground (arith, g.bounds, g.spill_full)

module _ {S : Type 0} (env : Env S) (c : Client S) where
  pub on_write-Gone : Gone c → Gone (on_write env c false)
  unfolding on_write finish
  on_write-Gone g = ground (arith, g.bounds, g.spill_full)

  pub late_response-Gone : Gone c → Gone (late_response env c)
  unfolding late_response write_response
  late_response-Gone g = ground (arith, g.bounds, g.spill_full)
