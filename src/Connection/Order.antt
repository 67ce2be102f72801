-- ===== src/Connection/Order.antt =====
-- freastal/src/server.c: the plaintext stream of a connection through each callback.
use freastal.Prelude.{
  ℕ, inl, inr, ◌≤◌, ◌≡◌, refl, Bool, true, false, Option, ◌==◌, not, ◌||◌, if_cases, option_cases,
  arith,
}
use freastal.Connection.State.{Client, client_buffered, client_reset, alloc_cb, read_len}
use freastal.Connection.Dispatch.{Env, http_dispatch, write_response}
use freastal.Connection.Callbacks.{
  on_read_error, on_tls_hs_write, on_tls_final_write, finish, resume, dispatch_buffered,
  next_request, on_write, late_response,
}
use freastal.Connection.Steps.{
  Step, read_data, read_error, response_written, final_written, handshake_written, responds, Reach,
  accepted, later,
}
use freastal.Connection.Outcome.{Parses, IsIdle}
use freastal.Connection.Parts.{alloc_cb-IsReading, Inv-IsReading, take_back-Core, written}
use freastal.Connection.Gone.{State}
use freastal.Connection.Keeps.{Reach-State}
use freastal.Connection.Writes.{reset-IsIdle}
use freastal.Connection.Bounds.{Bounds, client_reset-Bounds}
use freastal.Connection.Invariant.{Core, Inv, IsReading}
use freastal.Connection.Stream.{reset-History}
use freastal.Connection.Calm.{
  Stream, Calm, Calm-Stream, IsReading-Calm, resume-Calm, take_back-Calm, settle-Calm,
}
use freastal.Connection.Reads.{dispatch-Calm, by_verdict, on_read-Stream}

module _ {S : Type 0} (c : Client S) where
  alloc_cb-Calm : Calm c → Calm (alloc_cb c).0
  unfolding alloc_cb
  alloc_cb-Calm a =
      option_cases (λ (r : Client S × ℕ). Calm r.0) c.tls (λ _. settle-Calm c a) (λ _ _. a)

  on_read_error-Stream : Calm c → Stream (on_read_error c)
  unfolding on_read_error
  on_read_error-Stream a = record { history = ground (arith, a.history); breaks = ground arith }

  on_tls_final_write-Stream : Stream c → Stream (on_tls_final_write c)
  unfolding on_tls_final_write
  on_tls_final_write-Stream s = record { history = s.history; breaks = ground arith }

  on_tls_hs_write-Stream : (sent : Bool) → Stream c → Stream (on_tls_hs_write c sent)
  unfolding on_tls_hs_write
  on_tls_hs_write-Stream true s = record { history = s.history; breaks = ground arith }
  on_tls_hs_write-Stream false s = record { history = s.history; breaks = ground arith }

  written-Stream : Stream c → Stream (record c { response_write = false })
  written-Stream s = record { history = s.history; breaks = ground arith }

  reset-Calm :
      Bounds c → c.in_flight ≡ true → Calm c → Calm (record (client_reset c) { in_flight = false })
  unfolding client_reset
  reset-Calm b f a = record {
    history = reset-History c b f a.history;
    unbroken = ground arith;
    intact = ground arith;
  }

  unbroken-Calm : Stream c → c.closing ≡ false → c.keep_alive ≡ true → Calm c
  unbroken-Calm s o k = record {
    history = s.history;
    unbroken = ground arith;
    intact = ground arith;
  }

module _ {S : Type 0} (env : Env S) where
  late_response-Stream : (c : Client S) → Stream c → Stream (late_response env c)
  unfolding late_response write_response
  late_response-Stream c s = record { history = ground (arith, s.history); breaks = ground arith }

  finish-Stream : (c : Client S) (sent : Bool) → Stream c → Stream (finish env c sent)
  unfolding finish
  finish-Stream c sent s = record { history = ground (arith, s.history); breaks = ground arith }

module _ {S : Type 0} (env : Env S) (p : Parses env) where
  dispatch_buffered-Calm :
      (c : Client S) → IsIdle c → c.read_off ≤ read_len c → Calm c → Calm (dispatch_buffered env c)
  unfolding dispatch_buffered
  dispatch_buffered-Calm c i b a =
      if_cases Calm (client_buffered c == 0) (λ _. resume-Calm c a)
        λ _.
          by_verdict env p (http_dispatch env c).1 resume _ resume-Calm
            (dispatch-Calm env p c i b a)

  next_request-Calm :
      (c : Client S)
      → Core c
      → c.in_flight ≡ true
      → c.closing ≡ false
      → c.response_write ≡ false
      → c.final_write ≡ false
      → Calm c
      → Calm (next_request env c)
  unfolding next_request
  next_request-Calm c k f o w g a =
      let (i, t, s) = reset-IsIdle env p c k f o w g in
      let (k', i', _) =
        take_back-Core (record (client_reset c) { in_flight = false })
          (client_reset-Bounds c k.bounds f) i (rw (← t, ← s) k.spill_tls) in
      dispatch_buffered-Calm _ i' k'.bounds.off_le (
        take_back-Calm (record (client_reset c) { in_flight = false }) refl
          (reset-Calm c k.bounds f a))

  on_write-Stream :
      (c : Client S) (sent : Bool)
      → Inv c
      → c.response_write ≡ true
      → Stream c
      → Stream (on_write env c sent)
  unfolding on_write
  on_write-Stream c sent v w s =
      let (f, o, g) = v.core.response w in
      let s' : Stream (record c { response_write = false }) = written-Stream c s in
      if_cases Stream (not sent || not c.keep_alive) (λ _. finish-Stream env _ sent s')
        λ kept. Calm-Stream _ (
          next_request-Calm (record c { response_write = false }) (written c v.core) f o refl g
            (unbroken-Calm _ s' o (ground arith)))

  gone-Stream : (c : Client S) → Stream c → Stream (on_write env c false)
  unfolding on_write
  gone-Stream c s = finish-Stream env _ false (written-Stream c s)

  Step-Stream : {c d : Client S} → Step env c d → State c → Stream c → Stream d
  Step-Stream {c} (read_data m bytes a o l) (inl v) s =
      let r : IsReading c = Inv-IsReading c v o a in
      let (r', b) = alloc_cb-IsReading c r in
      on_read-Stream env p m _ bytes r' (λ plain. omega (arith, b plain))
        (alloc_cb-Calm c (IsReading-Calm c r s))
  Step-Stream {c} (read_error a o) (inl v) s =
      on_read_error-Stream _ (alloc_cb-Calm c (IsReading-Calm c (Inv-IsReading c v o a) s))
  Step-Stream {c} (response_written sent w o) (inl v) s = on_write-Stream c sent v w s
  Step-Stream {c} (read_data m bytes a o l) (inr g) s = absurd (ground (arith, g.closing))
  Step-Stream {c} (read_error a o) (inr g) s = absurd (ground (arith, g.closing))
  Step-Stream {c} (response_written sent w o) (inr g) s = rw (o g.closing) (gone-Stream c s)
  Step-Stream {c} (final_written g) v s = on_tls_final_write-Stream c s
  Step-Stream {c} (handshake_written sent h) v s = on_tls_hs_write-Stream c sent s
  Step-Stream {c} (responds f w g o) v s = late_response-Stream env c s

  pub Reach-Stream : {tls : Option S} {c : Client S} → Reach env tls c → Stream c
  Reach-Stream accepted = record { history = refl; breaks = ground arith }
  Reach-Stream (later r st) = Step-Stream st (Reach-State env p r) (Reach-Stream r)
