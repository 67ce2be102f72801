-- ===== src/Connection/Reads.antt =====
-- freastal/src/server.c: the plaintext stream of a connection through the reads.
use freastal.Prelude.{
  ◌+◌, ◌≤◌, ◌≡◌, refl, Bool, false, none, some, [], ◌∷◌, Bytes, length, length_zero, ◌==◌, not,
  if_cases, option_cases,
}
use freastal.Connection.State.{Client, read_len, settle}
use freastal.Connection.Dispatch.{
  Env, Verdict, dispatched, more, closed, http_dispatch, HandshakeResult, finished, in_progress,
  broken,
}
use freastal.Connection.Encrypted.{
  tls_read_flow, Sweep, keep_plaintext, tls_proceed, after_sweep, tls_read_data, after_handshake,
  tls_on_read_data,
}
use freastal.Connection.Callbacks.{deliver, throttle, proceed, on_read}
use freastal.Connection.Outcome.{Parses, IsIdle, http_dispatch-Ends}
use freastal.Sizes.{read_buf_size}
use freastal.Connection.Parts.{
  Core-IsIdle as reading_idle, settle-IsReading, resumed, done, handshaken, deliver-IsReading,
  keep_plaintext-Core,
}
use freastal.Connection.Invariant.{Core, IsReading}
use freastal.Connection.Stream.{History, keep_plaintext-History}
use freastal.Connection.Calm.{
  Stream, Calm, Calm-Stream, settle-Calm, throttle-Calm, tls_read_flow-Calm, tls_read_failed-Stream,
  with_session, with_done, with_handshake, deliver-Calm, keep_plaintext-Calm, keep_plaintext-open,
  Ends-Calm,
}

module _ {S : Type 0} (env : Env S) (p : Parses env) where
  -- A dispatch, whichever way it ends.
  pub dispatch-Calm :
      (c : Client S) → IsIdle c → c.read_off ≤ read_len c → Calm c → Calm (http_dispatch env c).0
  dispatch-Calm c i b a =
      let (f, e) = http_dispatch-Ends env c p i b in
      Ends-Calm c (http_dispatch env c).0 (http_dispatch env c).1 i f e a

  -- What a callback does by the verdict, if each way of going on keeps the stream calm.
  pub by_verdict :
      (v : Verdict) (k : Client S → Client S) (d : Client S)
      → ((c : Client S) → Calm c → Calm (k c))
      → Calm d
      → Calm (elim v [ closed ↦ d | _ ↦ k d ])
  by_verdict dispatched k d g a = g d a
  by_verdict more k d g a = g d a
  by_verdict closed k d g a = a

  proceed-Calm : (c : Client S) → IsReading c → Calm c → Calm (proceed env c)
  unfolding proceed
  proceed-Calm c r a =
      if_cases Calm c.in_flight (λ _. throttle-Calm c a)
        λ free. by_verdict (http_dispatch env c).1 throttle _ throttle-Calm (
          dispatch-Calm c (reading_idle c r.core r.closing r.final_write free) r.core.bounds.off_le
            a)

  tls_proceed-Calm :
      (c : Client S)
      → Core c
      → c.closing ≡ false
      → c.final_write ≡ false
      → Calm c
      → Calm (tls_proceed env c)
  unfolding tls_proceed
  tls_proceed-Calm c k o g a =
      if_cases Calm c.in_flight (λ _. tls_read_flow-Calm c a)
        λ free.
          by_verdict (http_dispatch env c).1 tls_read_flow _ tls_read_flow-Calm
            (dispatch-Calm c (reading_idle c k o g free) k.bounds.off_le a)

  after_sweep-Stream :
      (m : Bool) (c : Client S) (w : Sweep S) {t : S}
      → IsReading c
      → c.tls ≡ some t
      → Calm c
      → Stream (after_sweep env m c w)
  unfolding after_sweep
  after_sweep-Stream m c w {t} r e a =
      let h : History (keep_plaintext m c w).0 =
        keep_plaintext-History c m w r.core.bounds (length_zero _ r.empty) a.intact a.history in
      let (o, g) = keep_plaintext-open c m w r in
      if_cases Stream (not w.ok) (λ _. tls_read_failed-Stream c a.history)
        λ _.
          if_cases Stream (not (keep_plaintext m c w).1) (λ _. tls_read_failed-Stream _ h)
            λ kept.
              let b : Calm (keep_plaintext m c w).0 = keep_plaintext-Calm c m w a kept h in
              if_cases Stream (length w.produced == 0) (λ _. Calm-Stream _ b)
                λ _. Calm-Stream _ (tls_proceed-Calm _ (keep_plaintext-Core c m w t r e) o g b)

  tls_read_data-Stream :
      (m : Bool) (c : Client S) (s : S) (input : Bytes)
      → IsReading c
      → Calm c
      → Stream (tls_read_data env m c s input)
  unfolding tls_read_data
  tls_read_data-Stream m c s input r a =
      after_sweep-Stream m _ _ (resumed (settle c) _ (settle-IsReading c r).0) refl
        (with_session _ _ (settle-Calm c a))

  after_handshake-Stream :
      (h : HandshakeResult) (m : Bool) (s : S) (left : Bytes) (c : Client S)
      → IsReading c
      → Calm c
      → Stream (after_handshake env m h s left c)
  unfolding after_handshake
  after_handshake-Stream finished m s left c r a =
      if_cases Stream (length left == 0) (λ _. Calm-Stream _ (with_done c a))
        (λ _. tls_read_data-Stream m _ s left (done c r) (with_done c a))
  after_handshake-Stream in_progress m s left c r a = Calm-Stream c a
  after_handshake-Stream broken m s left c r a = tls_read_failed-Stream c a.history

  tls_on_read_data-Stream :
      (m : Bool) (c : Client S) (s : S) (input : Bytes)
      → IsReading c
      → Calm c
      → Stream (tls_on_read_data env m c s input)
  unfolding tls_on_read_data
  tls_on_read_data-Stream m c s input r a =
      if_cases Stream c.tls_hs_done (λ _. tls_read_data-Stream m c s input r a)
        λ _.
          after_handshake-Stream (env.handshake s input).result m _ _ _ (handshaken c _ _ r)
            (with_handshake c _ _ a)

  pub on_read-Stream :
      (m : Bool) (c : Client S) (bytes : Bytes)
      → IsReading c
      → (c.tls ≡ none → read_len c + length bytes ≤ read_buf_size)
      → Calm c
      → Stream (on_read env m c bytes)
  unfolding on_read
  on_read-Stream m c [] r l a = Calm-Stream c a
  on_read-Stream m c (b ∷ bs) r l a =
      option_cases Stream c.tls
        (λ plain. Calm-Stream _ (
          proceed-Calm (deliver c (b ∷ bs)) (deliver-IsReading c (b ∷ bs) r (l plain))
            (deliver-Calm c (b ∷ bs) r a)))
        (λ s _. tls_on_read_data-Stream m c s (b ∷ bs) r a)
