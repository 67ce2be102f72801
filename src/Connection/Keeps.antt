-- ===== src/Connection/Keeps.antt =====
-- freastal/src/server.c: the invariant of a connection through each callback.
use freastal.Prelude.{
  inl, inr, true, ◌+◌, ◌≤◌, ◌≡◌, refl, Bool, false, Option, none, some, [], ◌∷◌, Bytes, length,
  if_cases, option_cases, ◌==◌, not, arith,
}
use freastal.Sizes.{read_buf_size}
use freastal.Connection.State.{Client, read_len, settle}
use freastal.Connection.Dispatch.{
  Env, http_dispatch, HandshakeResult, finished, in_progress, broken,
}
use freastal.Connection.Encrypted.{
  Sweep, sweep, keep_plaintext, tls_proceed, after_sweep, tls_read_data, after_handshake,
  tls_on_read_data,
}
use freastal.Connection.Callbacks.{accepted_client, deliver, on_read}
use freastal.Connection.Outcome.{Parses, IsIdle, http_dispatch-Ends}
use freastal.Connection.Steps.{
  Step, read_data, read_error, response_written, final_written, handshake_written, responds, Reach,
  accepted, later,
}
use freastal.Connection.Invariant.{Core, Inv, IsReading, tls_read_failed-Inv, tls_read_flow-Inv}
use freastal.Connection.Parts.{
  Core-IsIdle, Inv-IsReading, IsReading-Inv, alloc_cb-IsReading, deliver-IsReading, done,
  handshaken, keep_plaintext-Core, keep_plaintext-keeps, on_read_error-Inv, on_tls_final_write-Inv,
  on_tls_hs_write-Inv, resumed, settle-IsReading,
}
use freastal.Connection.Gone.{
  State, fails-Gone, on_write-Gone, on_tls_final_write-Gone, on_tls_hs_write-Gone,
  late_response-Gone,
}
use freastal.Connection.Writes.{after_encrypted, proceed-Inv, on_write-Inv, late_response-Inv}

accepted-Inv : {S : Type 0} (tls : Option S) → Inv (accepted_client tls)
accepted-Inv tls = ground arith

module _ {S : Type 0} (env : Env S) (p : Parses env) where
  tls_proceed-Inv :
      (c : Client S)
      → Core c
      → c.closing ≡ false
      → c.final_write ≡ false
      → (c.in_flight ≡ false → c.read_off ≡ 0)
      → Inv (tls_proceed env c)
  unfolding tls_proceed
  tls_proceed-Inv c k o g z =
      if_cases Inv c.in_flight (λ _. tls_read_flow-Inv c k (λ _. g) (λ f _. z f))
        λ free.
          let i : IsIdle c = Core-IsIdle c k o g free in
          let (f, e) = http_dispatch-Ends env c p i k.bounds.off_le in
          after_encrypted env p (http_dispatch env c).1 c (http_dispatch env c).0 k i (λ _. z free)
            f e

  after_sweep-Inv :
      (m : Bool) (c : Client S) (w : Sweep S) {t : S}
      → IsReading c
      → c.tls ≡ some t
      → (c.in_flight ≡ false → c.read_off ≡ 0)
      → Inv (after_sweep env m c w)
  unfolding after_sweep
  after_sweep-Inv m c w {t} r e z =
      let k : Core (keep_plaintext m c w).0 = keep_plaintext-Core c m w t r e in
      let h = keep_plaintext-keeps c m w r in
      if_cases Inv (not w.ok) (λ _. tls_read_failed-Inv c r.core r.closing r.final_write)
        λ _.
          if_cases Inv (not (keep_plaintext m c w).1)
            (λ _. tls_read_failed-Inv _ k h.closing h.final_write)
            λ kept.
              if_cases Inv (length w.produced == 0)
                (λ nothing. IsReading-Inv _ (h.nothing k kept nothing))
                λ _. tls_proceed-Inv _ k h.closing h.final_write (h.settled z)

  -- The encrypted read.
  tls_read_data-Inv :
      (m : Bool) (c : Client S) (s : S) (input : Bytes)
      → IsReading c
      → Inv (tls_read_data env m c s input)
  unfolding tls_read_data
  tls_read_data-Inv m c s input r =
      let (r', z) = settle-IsReading c r in
      after_sweep-Inv m _ _ (resumed (settle c) (sweep env (settle c) s input).session r') refl z

  after_handshake-Inv :
      (h : HandshakeResult) (m : Bool) (s : S) (rest : Bytes) (c : Client S)
      → IsReading c
      → Inv (after_handshake env m h s rest c)
  unfolding after_handshake
  after_handshake-Inv finished m s rest c r =
      if_cases Inv (length rest == 0) (λ _. IsReading-Inv _ (done c r))
        (λ _. tls_read_data-Inv m _ s rest (done c r))
  after_handshake-Inv in_progress m s rest c r = IsReading-Inv c r
  after_handshake-Inv broken m s rest c r = tls_read_failed-Inv c r.core r.closing r.final_write

  tls_on_read_data-Inv :
      (m : Bool) (c : Client S) (s : S) (input : Bytes)
      → IsReading c
      → Inv (tls_on_read_data env m c s input)
  unfolding tls_on_read_data
  tls_on_read_data-Inv m c s input r =
      if_cases Inv c.tls_hs_done (λ _. tls_read_data-Inv m c s input r)
        λ _. after_handshake-Inv (env.handshake s input).result m _ _ _ (handshaken c _ _ r)

  on_read-reads :
      (m : Bool) (c : Client S) (bytes : Bytes)
      → IsReading c
      → (c.tls ≡ none → read_len c + length bytes ≤ read_buf_size)
      → Inv (on_read env m c bytes)
  unfolding on_read
  on_read-reads m c [] r l = IsReading-Inv c r
  on_read-reads m c (b ∷ bs) r l =
      option_cases Inv c.tls
        (λ plain. proceed-Inv env p (deliver c (b ∷ bs)) (deliver-IsReading c (b ∷ bs) r (l plain)))
        (λ s _. tls_on_read_data-Inv m c s (b ∷ bs) r)

  -- Every callback keeps the invariant, in whatever order libuv and the application make them run,
  -- until a handshake write fails.
  pub Step-State : {c d : Client S} → Step env c d → State c → State d
  Step-State {c} (read_data m bytes a o l) (inl v) =
      let (r, b) = alloc_cb-IsReading c (Inv-IsReading c v o a) in
      inl (on_read-reads m _ bytes r (λ plain. omega (arith, b plain)))
  Step-State {c} (read_error a o) (inl v) =
      let (r, b) = alloc_cb-IsReading c (Inv-IsReading c v o a) in inl (on_read_error-Inv _ r)
  Step-State {c} (response_written sent w o) (inl v) = inl (on_write-Inv env p c sent v w)
  Step-State {c} (final_written g) (inl v) = inl (on_tls_final_write-Inv c v g)
  Step-State {c} (handshake_written true h) (inl v) = inl (on_tls_hs_write-Inv c v)
  Step-State {c} (handshake_written false h) (inl v) = inr (fails-Gone c v.core)
  Step-State {c} (responds f w g o) (inl v) =
      inl (late_response-Inv env p c v f g (ground (arith, o, v.core.sound)) w)
  Step-State {c} (read_data m bytes a o l) (inr g) = absurd (ground (arith, g.closing))
  Step-State {c} (read_error a o) (inr g) = absurd (ground (arith, g.closing))
  Step-State {c} (response_written sent w o) (inr g) =
      inr (rw (o g.closing) (on_write-Gone env c g))
  Step-State {c} (final_written f) (inr g) = inr (on_tls_final_write-Gone c g)
  Step-State {c} (handshake_written sent h) (inr g) = inr (on_tls_hs_write-Gone c sent g)
  Step-State {c} (responds f w h o) (inr g) = inr (late_response-Gone env c g)

  pub Reach-State : {tls : Option S} {c : Client S} → Reach env tls c → State c
  Reach-State {tls} accepted = inl (accepted-Inv tls)
  Reach-State (later r st) = Step-State st (Reach-State r)
