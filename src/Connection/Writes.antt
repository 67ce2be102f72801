-- ===== src/Connection/Writes.antt =====
-- freastal/src/server.c: the invariant of a connection through a dispatch and through on_write().
use freastal.Prelude.{◌<◌, ◌≡◌, refl, Bool, true, false, length, if_cases, ◌==◌, not, ◌||◌, arith}
use freastal.Connection.State.{Client, client_buffered, client_reset}
use freastal.Connection.Dispatch.{
  Env, http_dispatch, Verdict, dispatched, more, closed, write_response,
}
use freastal.Connection.Encrypted.{tls_read_flow}
use freastal.Connection.Callbacks.{
  throttle, proceed, dispatch_buffered, finish, resume, next_request, on_write, late_response,
}
use freastal.Connection.Outcome.{Parses, Frame, IsIdle, Ends, http_dispatch-Ends}
use freastal.Connection.Bounds.{client_reset-Bounds}
use freastal.Connection.Invariant.{Core, Inv, IsReading, tls_read_flow-Inv, throttle-Inv}
use freastal.Connection.Parts.{
  Ends-Core, IsReading-IsIdle, closed-Inv, resume-Inv, take_back-Core, written,
}

module _ {S : Type 0} (env : Env S) (p : Parses env) where
  -- A dispatch from an idle connection, and what the callbacks do after it.
  dispatch-Core : (c : Client S) → Core c → IsIdle c → Core (http_dispatch env c).0
  dispatch-Core c k i =
      let (f, e) = http_dispatch-Ends env c p i k.bounds.off_le in
      Ends-Core c (http_dispatch env c).0 (http_dispatch env c).1 k i f e

  -- The connection that a callback goes on with after a dispatch, or leaves if it was closed.
  pub after_encrypted :
      (v : Verdict) (c d : Client S)
      → Core c
      → IsIdle c
      → (0 < length c.tls_spill → c.read_off ≡ 0)
      → Frame c d
      → Ends c d v
      → Inv (elim v [ closed ↦ d | _ ↦ tls_read_flow d ])
  after_encrypted dispatched c d k i s f e =
      tls_read_flow-Inv d (Ends-Core c d dispatched k i f e) (ground arith) (ground arith)
  after_encrypted more c d k i s f e =
      tls_read_flow-Inv d (Ends-Core c d more k i f e) (ground arith) (ground arith)
  after_encrypted closed c d k i s f e = closed-Inv c d k i f e

  after_plain :
      (v : Verdict) (c d : Client S)
      → Core c
      → IsIdle c
      → c.read_armed ≡ true
      → length c.tls_spill ≡ 0
      → Frame c d
      → Ends c d v
      → Inv (elim v [ closed ↦ d | _ ↦ throttle d ])
  after_plain dispatched c d k i a s f e =
      throttle-Inv d (Ends-Core c d dispatched k i f e) (ground arith) (ground arith)
  after_plain more c d k i a s f e =
      throttle-Inv d (Ends-Core c d more k i f e) (ground arith) (ground arith)
  after_plain closed c d k i a s f e = closed-Inv c d k i f e

  after_resume :
      (v : Verdict) (c d : Client S)
      → Core c
      → IsIdle c
      → (0 < length c.tls_spill → c.read_off ≡ 0)
      → Frame c d
      → Ends c d v
      → Inv (elim v [ closed ↦ d | _ ↦ resume d ])
  after_resume dispatched c d k i s f e =
      resume-Inv d (Ends-Core c d dispatched k i f e) (ground arith) (ground arith)
  after_resume more c d k i s f e =
      resume-Inv d (Ends-Core c d more k i f e) (ground arith) (ground arith)
  after_resume closed c d k i s f e = closed-Inv c d k i f e

  pub proceed-Inv : (c : Client S) → IsReading c → Inv (proceed env c)
  unfolding proceed
  proceed-Inv c r =
      if_cases Inv c.in_flight (λ _. throttle-Inv c r.core r.empty (λ _ _ _. r.read_armed))
        λ free.
          let i : IsIdle c = IsReading-IsIdle c r free in
          let (f, e) = http_dispatch-Ends env c p i r.core.bounds.off_le in
          after_plain (http_dispatch env c).1 c (http_dispatch env c).0 r.core i r.read_armed
            r.empty f e

  -- The end of next_request(), which dispatches if anything is buffered.
  resume_after :
      (c : Client S)
      → Core c
      → IsIdle c
      → (0 < length c.tls_spill → c.read_off ≡ 0)
      → Inv (dispatch_buffered env c)
  unfolding dispatch_buffered
  resume_after c k i s =
      let (f, e) = http_dispatch-Ends env c p i k.bounds.off_le in
      if_cases Inv (client_buffered c == 0) (λ _. resume-Inv c k (λ _. i.final_write) (λ _. s))
        (λ _. after_resume (http_dispatch env c).1 c (http_dispatch env c).0 k i s f e)

  -- The connection after client_reset(), between two requests.
  pub reset-IsIdle :
      (c : Client S)
      → Core c
      → c.in_flight ≡ true
      → c.closing ≡ false
      → c.response_write ≡ false
      → c.final_write ≡ false
      → IsIdle (record (client_reset c) { in_flight = false })
        × (c.tls ≡ (client_reset c).tls)
        × (c.tls_spill ≡ (client_reset c).tls_spill)
  unfolding client_reset
  reset-IsIdle c k f o w g = ground arith

  next_request-Inv :
      (c : Client S)
      → Core c
      → c.in_flight ≡ true
      → c.closing ≡ false
      → c.response_write ≡ false
      → c.final_write ≡ false
      → Inv (next_request env c)
  unfolding next_request
  next_request-Inv c k f o w g =
      let (i₁, t, s) = reset-IsIdle c k f o w g in
      let (k₂, i₂, s₂) =
        take_back-Core (record (client_reset c) { in_flight = false })
          (client_reset-Bounds c k.bounds f) i₁ (rw (← t, ← s) k.spill_tls) in
      resume_after _ k₂ i₂ s₂

  finish-Inv :
      (c : Client S) (sent : Bool)
      → Core c
      → c.closing ≡ false
      → c.response_write ≡ false
      → c.final_write ≡ false
      → Inv (finish env c sent)
  unfolding finish
  finish-Inv c sent k o w g = ground arith

  pub on_write-Inv :
      (c : Client S) (sent : Bool) → Inv c → c.response_write ≡ true → Inv (on_write env c sent)
  unfolding on_write
  on_write-Inv c sent v w =
      let (f, o, g) = v.core.response w in
      let k : Core (record c { response_write = false }) = written c v.core in
      if_cases Inv (not sent || not c.keep_alive) (λ _. finish-Inv _ sent k o refl g)
        (λ _. next_request-Inv _ k f o refl g)

  pub late_response-Inv :
      (c : Client S)
      → Inv c
      → c.in_flight ≡ true
      → c.final_write ≡ false
      → c.closing ≡ false
      → c.response_write ≡ false
      → Inv (late_response env c)
  unfolding late_response write_response
  late_response-Inv c v f g o w = ground arith
