-- ===== src/Connection/Closure.antt =====
-- freastal/src/server.c: what the parts of the callbacks keep, the callbacks keep.
use freastal.Prelude.{
  ℕ, Bool, true, false, not, ◌||◌, some, [], ◌∷◌, Bytes, length, if_cases, option_cases, ◌==◌,
}
use freastal.Connection.State.{Client, client_buffered, client_reset, settle, alloc_cb}
use freastal.Connection.Dispatch.{
  Env, Verdict, dispatched, more, closed, http_dispatch, HandshakeResult, finished, in_progress,
  broken,
}
use freastal.Connection.Encrypted.{
  tls_read_failed, tls_read_flow, Sweep, sweep, keep_plaintext, tls_proceed, after_sweep,
  tls_read_data, after_handshake, tls_on_read_data,
}
use freastal.Connection.Callbacks.{
  on_read_error, on_tls_hs_write, on_tls_final_write, deliver, throttle, proceed, resume, take_back,
  on_read, finish, dispatch_buffered, next_request, on_write, late_response,
}
use freastal.Connection.Steps.{
  Step, read_data, read_error, response_written, final_written, handshake_written, responds,
}

-- A predicate that survives the parts of an encrypted read and of on_write().
pub record Keeps {S : Type 0} (env : Env S) (P : Client S → Type 0) : Type 0 where
  pub settled : (c : Client S) → P c → P (settle c)
  pub failed : (c : Client S) → P c → P (tls_read_failed c)
  pub flow : (c : Client S) → P c → P (tls_read_flow c)
  pub kept : (m : Bool) (c : Client S) (w : Sweep S) → P c → P (keep_plaintext m c w).0
  pub resumed : (c : Client S) → P c → P (resume c)
  pub back : (c : Client S) → P c → P (take_back c)
  pub next :
      (c : Client S)
      → P c
      → P (record (client_reset (record c { response_write = false })) { in_flight = false })
  pub session : (c : Client S) (s : S) → P c → P (record c { tls = some s })
  pub dispatch : (c : Client S) → P c → P (http_dispatch env c).0
  pub finished_with :
      (c : Client S) (sent : Bool) → P c → P (finish env (record c { response_write = false }) sent)

-- What a callback goes on with after a dispatch.
pub verdict-keeps {ℓ} :
    {A : Type 0} (P : A → Type ℓ) (v : Verdict) (c d : A)
    → P c
    → P d
    → P (elim v [ closed ↦ c | _ ↦ d ])
verdict-keeps P dispatched c d v w = w
verdict-keeps P more c d v w = w
verdict-keeps P closed c d v w = v

module _ {S : Type 0} (env : Env S) (P : Client S → Type 0) (k : Keeps env P) where
  tls_proceed-keeps : (c : Client S) → P c → P (tls_proceed env c)
  unfolding tls_proceed
  tls_proceed-keeps c v =
      let d = k.dispatch c v in
      if_cases P c.in_flight (λ _. k.flow c v)
        (λ _. verdict-keeps P (http_dispatch env c).1 _ _ d (k.flow _ d))

  after_sweep-keeps : (m : Bool) (c : Client S) (w : Sweep S) → P c → P (after_sweep env m c w)
  unfolding after_sweep
  after_sweep-keeps m c w v =
      let d = k.kept m c w v in
      if_cases P (not w.ok) (λ _. k.failed c v)
        λ _.
          if_cases P (not (keep_plaintext m c w).1) (λ _. k.failed _ d)
            λ _. if_cases P (length w.produced == 0) (λ _. d) (λ _. tls_proceed-keeps _ d)

  pub tls_read_data-keeps :
      (m : Bool) (c : Client S) (s : S) (input : Bytes) → P c → P (tls_read_data env m c s input)
  unfolding tls_read_data
  tls_read_data-keeps m c s input v =
      let w = sweep env (settle c) s input in
      after_sweep-keeps m _ w (k.session (settle c) w.session (k.settled c v))

  dispatch_buffered-keeps : (c : Client S) → P c → P (dispatch_buffered env c)
  unfolding dispatch_buffered
  dispatch_buffered-keeps c v =
      let d = k.dispatch c v in
      if_cases P (client_buffered c == 0) (λ _. k.resumed c v)
        (λ _. verdict-keeps P (http_dispatch env c).1 _ _ d (k.resumed _ d))

  pub on_write-keeps : (c : Client S) (sent : Bool) → P c → P (on_write env c sent)
  unfolding on_write next_request
  on_write-keeps c sent v =
      if_cases P (not sent || not c.keep_alive) (λ _. k.finished_with c sent v)
        (λ _. dispatch_buffered-keeps _ (k.back _ (k.next c v)))

-- A predicate that survives the parts of every callback.
pub record KeepsAll {S : Type 0} (env : Env S) (P : Client S → Type 0) : Type 0 where
  pub parts : Keeps env P
  pub allocated : (c : Client S) → P c → P (alloc_cb c).0
  pub read_failed : (c : Client S) → P c → P (on_read_error c)
  pub delivered : (c : Client S) (bytes : Bytes) → P c → P (deliver c bytes)
  pub throttled : (c : Client S) → P c → P (throttle c)
  pub shaken :
      (c : Client S) (s : S) (n : ℕ) → P c → P (record c { tls = some s; handshake_writes = n })
  pub done : (c : Client S) → P c → P (record c { tls_hs_done = true })
  pub final : (c : Client S) → P c → P (on_tls_final_write c)
  pub handshake : (c : Client S) (sent : Bool) → P c → P (on_tls_hs_write c sent)
  pub late : (c : Client S) → P c → P (late_response env c)

module _ {S : Type 0} (env : Env S) (P : Client S → Type 0) (k : KeepsAll env P) where
  after_handshake-keeps :
      (h : HandshakeResult) (m : Bool) (s : S) (rest : Bytes) (c : Client S)
      → P c
      → P (after_handshake env m h s rest c)
  unfolding after_handshake
  after_handshake-keeps finished m s rest c v =
      let d = k.done c v in
      if_cases P (length rest == 0) (λ _. d) (λ _. tls_read_data-keeps env P k.parts m _ s rest d)
  after_handshake-keeps in_progress m s rest c v = v
  after_handshake-keeps broken m s rest c v = k.parts.failed c v

  tls_on_read_data-keeps :
      (m : Bool) (c : Client S) (s : S) (input : Bytes) → P c → P (tls_on_read_data env m c s input)
  unfolding tls_on_read_data
  tls_on_read_data-keeps m c s input v =
      if_cases P c.tls_hs_done (λ _. tls_read_data-keeps env P k.parts m c s input v)
        λ _. after_handshake-keeps (env.handshake s input).result m _ _ _ (k.shaken c _ _ v)

  proceed-keeps : (c : Client S) → P c → P (proceed env c)
  unfolding proceed
  proceed-keeps c v =
      let d = k.parts.dispatch c v in
      if_cases P c.in_flight (λ _. k.throttled c v)
        (λ _. verdict-keeps P (http_dispatch env c).1 _ _ d (k.throttled _ d))

  on_read-keeps : (m : Bool) (c : Client S) (bytes : Bytes) → P c → P (on_read env m c bytes)
  unfolding on_read
  on_read-keeps m c [] v = v
  on_read-keeps m c (b ∷ bs) v =
      option_cases P c.tls (λ _. proceed-keeps _ (k.delivered c (b ∷ bs) v))
        (λ s _. tls_on_read_data-keeps m c s (b ∷ bs) v)

  pub Step-keeps : {c d : Client S} → Step env c d → P c → P d
  Step-keeps {c} (read_data m bytes a o l) v = on_read-keeps m _ bytes (k.allocated c v)
  Step-keeps {c} (read_error a o) v = k.read_failed _ (k.allocated c v)
  Step-keeps {c} (response_written sent w o) v = on_write-keeps env P k.parts c sent v
  Step-keeps {c} (final_written g) v = k.final c v
  Step-keeps {c} (handshake_written sent h) v = k.handshake c sent v
  Step-keeps {c} (responds f w g o) v = k.late c v
