-- ===== src/Connection/Secrecy.antt =====
-- freastal/src/server.c, an encrypted connection: what it writes in the clear, and when it hears
-- anything.
use freastal.Prelude.{
  ◌≡◌, refl, ◌⊎◌, inl, inr, Bool, true, false, none, some, is_some, List, [], ◌∷◌, Bytes, length,
  if_cases, option_cases, ◌==◌, arith,
}
use freastal.Connection.State.{Client, unread, client_reset, settle, alloc_cb}
use freastal.Connection.Dispatch.{
  Env, Header, Parse, incomplete, malformed, parsed, scan_header, scan_headers, read_head,
  start_head, hand_over, request_bytes, write_response, call_application, refuse, dispatch_body,
  http_dispatch, HandshakeResult, finished, in_progress, broken,
}
use freastal.Connection.Encrypted.{
  tls_read_failed, tls_read_flow, Sweep, keep_plaintext, after_handshake, tls_on_read_data,
}
use freastal.Connection.Callbacks.{
  on_read_error, on_tls_hs_write, on_tls_final_write, resume, take_back, on_read, finish,
  late_response,
}
use freastal.Connection.Closure.{Keeps, tls_read_data-keeps, on_write-keeps}
use freastal.Connection.Steps.{
  Step, read_data, read_error, response_written, final_written, handshake_written, responds, Reach,
  accepted, later,
}

-- A session, its handshake done, and nothing in the clear.
record Speaks {S : Type 0} (c : Client S) : Type 0 where
  session : is_some c.tls ≡ true
  clear : c.clear_writes ≡ []
  done : c.tls_hs_done ≡ true

module _ {S : Type 0} where
  scan_headers-Speaks : (hs : List Header) (c : Client S) → Speaks c → Speaks (scan_headers hs c)
  unfolding scan_headers scan_header
  scan_headers-Speaks [] c v = v
  scan_headers-Speaks (h ∷ hs) c v =
      scan_headers-Speaks hs (scan_header h c)
        (record { session = ground arith; clear = ground arith; done = ground arith })

  settle-Speaks : (c : Client S) → Speaks c → Speaks (settle c)
  unfolding settle
  settle-Speaks c v = ground arith

  tls_read_failed-Speaks : (c : Client S) → Speaks c → Speaks (tls_read_failed c)
  unfolding tls_read_failed
  tls_read_failed-Speaks c v = ground arith

  tls_read_flow-Speaks : (c : Client S) → Speaks c → Speaks (tls_read_flow c)
  unfolding tls_read_flow
  tls_read_flow-Speaks c v = ground arith

  keep_plaintext-Speaks :
      (m : Bool) (c : Client S) (w : Sweep S) → Speaks c → Speaks (keep_plaintext m c w).0
  unfolding keep_plaintext
  keep_plaintext-Speaks m c w v = ground arith

  resume-Speaks : (c : Client S) → Speaks c → Speaks (resume c)
  unfolding resume
  resume-Speaks c v = ground (arith, tls_read_flow-Speaks c)

  take_back-Speaks : (c : Client S) → Speaks c → Speaks (take_back c)
  unfolding take_back
  take_back-Speaks c v = ground arith

  reset-Speaks : (c : Client S) → Speaks c → Speaks (record (client_reset c) { in_flight = false })
  unfolding client_reset
  reset-Speaks c v = ground arith

  written-Speaks : (c : Client S) → Speaks c → Speaks (record c { response_write = false })
  written-Speaks c v = ground arith

module _ {S : Type 0} (env : Env S) where
  call_application-Speaks :
      (r : Bytes) (c : Client S) → Speaks c → Speaks (call_application env r c)
  unfolding call_application
  call_application-Speaks r c v = ground arith

  write_response-Speaks : (c : Client S) → Speaks c → Speaks (write_response env c)
  unfolding write_response
  write_response-Speaks c v = ground arith

  refuse-Speaks : (c : Client S) → Speaks c → Speaks (refuse env c)
  unfolding refuse
  refuse-Speaks c v = ground arith

  dispatch_body-Speaks : (c : Client S) → Speaks c → Speaks (dispatch_body env c).0
  unfolding dispatch_body
  dispatch_body-Speaks c v = ground (arith, call_application-Speaks (request_bytes c) (hand_over c))

  parsed-Speaks :
      (pa : Parse) (c : Client S)
      → env.phr_parse_request (unread c) c.last_len ≡ pa
      → Speaks c
      → Speaks (http_dispatch env c).0
  unfolding http_dispatch read_head
  parsed-Speaks incomplete c e v = rw (e, http_dispatch) (ground arith)
  parsed-Speaks malformed c e v = rw (e, http_dispatch) (refuse-Speaks c v)
  parsed-Speaks (parsed n minor hs) c e v =
      rw (e, http_dispatch)
        (dispatch_body-Speaks _ (scan_headers-Speaks hs (start_head n minor c) (ground arith)))

  http_dispatch-Speaks : (c : Client S) → Speaks c → Speaks (http_dispatch env c).0
  http_dispatch-Speaks c v = parsed-Speaks (env.phr_parse_request (unread c) c.last_len) c refl v

  finish-Speaks : (c : Client S) (sent : Bool) → Speaks c → Speaks (finish env c sent)
  unfolding finish
  finish-Speaks c sent v = ground arith

  Speaks-kept : Keeps env Speaks
  Speaks-kept = record {
    settled = settle-Speaks;
    failed = tls_read_failed-Speaks;
    flow = tls_read_flow-Speaks;
    kept = keep_plaintext-Speaks;
    resumed = resume-Speaks;
    back = take_back-Speaks;
    next = λ c v. reset-Speaks _ (written-Speaks c v);
    session = λ c s v. ground arith;
    dispatch = http_dispatch-Speaks;
    finished_with = λ c sent v. finish-Speaks _ sent (written-Speaks c v);
  }

-- The handshake is not done, and nothing was heard or answered.
record Silent {S : Type 0} (c : Client S) : Type 0 where
  session : is_some c.tls ≡ true
  clear : c.clear_writes ≡ []
  pending : c.tls_hs_done ≡ false
  received : c.received ≡ []
  served : c.served ≡ []
  in_flight : c.in_flight ≡ false
  response_write : c.response_write ≡ false

abbrev Secret : {S : Type 0} → Client S → Type 0
Secret c = Speaks c ⊎ Silent c

module _ {S : Type 0} (env : Env S) where
  tls_read_failed-Silent : (c : Client S) → Silent c → Silent (tls_read_failed c)
  unfolding tls_read_failed
  tls_read_failed-Silent c q = ground arith

  no_session : (c : Client S) → Secret c → c.tls ≡ none → ⊥
  no_session c (inl v) e = ground arith
  no_session c (inr q) e = ground arith

  alloc_cb-Secret : (c : Client S) → Secret c → Secret (alloc_cb c).0
  unfolding alloc_cb
  alloc_cb-Secret c (inl v) = inl (ground (arith, settle-Speaks c))
  alloc_cb-Secret c (inr q) = inr (ground arith)

  on_read_error-Secret : (c : Client S) → Secret c → Secret (on_read_error c)
  unfolding on_read_error
  on_read_error-Secret c (inl v) = inl (ground arith)
  on_read_error-Secret c (inr q) = inr (ground arith)

  summary :
      (c : Client S)
      → Secret c
      → (is_some c.tls ≡ true)
        × (c.clear_writes ≡ [])
        × ((c.tls_hs_done ≡ true)
            ⊎ ((c.received ≡ []) × (c.served ≡ []) × (c.response_write ≡ false)))
  summary c (inl v) = (v.session, v.clear, inl v.done)
  summary c (inr q) = (q.session, q.clear, inr (q.received, q.served, q.response_write))

  after_handshake-Secret :
      (h : HandshakeResult) (m : Bool) (s : S) (rest : Bytes) (c : Client S)
      → Silent c
      → Secret (after_handshake env m h s rest c)
  unfolding after_handshake
  after_handshake-Secret finished m s rest c q =
      let v : Speaks (record c { tls_hs_done = true }) = ground arith in
      inl (
        if_cases Speaks (length rest == 0) (λ _. v)
          (λ _. tls_read_data-keeps env Speaks (Speaks-kept env) m _ s rest v))
  after_handshake-Secret in_progress m s rest c q = inr q
  after_handshake-Secret broken m s rest c q = inr (tls_read_failed-Silent c q)

  tls_on_read_data-Secret :
      (m : Bool) (c : Client S) (s : S) (input : Bytes)
      → Secret c
      → Secret (tls_on_read_data env m c s input)
  unfolding tls_on_read_data
  tls_on_read_data-Secret m c s input (inl v) =
      if_cases Secret c.tls_hs_done
        (λ _. inl (tls_read_data-keeps env Speaks (Speaks-kept env) m c s input v))
        (λ e. absurd (ground (arith, v.done)))
  tls_on_read_data-Secret m c s input (inr q) =
      if_cases Secret c.tls_hs_done (λ e. absurd (ground (arith, q.pending)))
        λ _. after_handshake-Secret (env.handshake s input).result m _ _ _ (ground arith)

  on_read-Secret :
      (m : Bool) (c : Client S) (bytes : Bytes) → Secret c → Secret (on_read env m c bytes)
  unfolding on_read
  on_read-Secret m c [] v = v
  on_read-Secret m c (b ∷ bs) v =
      option_cases Secret c.tls (λ e. absurd (no_session c v e))
        (λ s _. tls_on_read_data-Secret m c s (b ∷ bs) v)

  Step-Secret : {c d : Client S} → Step env c d → Secret c → Secret d
  unfolding on_read_error on_tls_final_write on_tls_hs_write late_response
  Step-Secret {c} (read_data m bytes a o l) v = on_read-Secret m _ bytes (alloc_cb-Secret c v)
  Step-Secret {c} (read_error a o) v = on_read_error-Secret _ (alloc_cb-Secret c v)
  Step-Secret {c} (response_written sent w o) (inl v) =
      inl (on_write-keeps env Speaks (Speaks-kept env) c sent v)
  Step-Secret {c} (response_written sent w o) (inr q) = absurd (ground (arith, q.response_write))
  Step-Secret {c} (final_written g) (inl v) = inl (ground arith)
  Step-Secret {c} (final_written g) (inr q) = inr (ground arith)
  Step-Secret {c} (handshake_written sent h) (inl v) = inl (ground arith)
  Step-Secret {c} (handshake_written sent h) (inr q) = inr (ground arith)
  Step-Secret {c} (responds f w g o) (inl v) = inl (write_response-Speaks env c v)
  Step-Secret {c} (responds f w g o) (inr q) = absurd (ground (arith, q.in_flight))

  Reach-Secret : {s : S} {c : Client S} → Reach env (some s) c → Secret c
  Reach-Secret accepted = inr (ground arith)
  Reach-Secret (later r st) = Step-Secret st (Reach-Secret r)

  -- A connection that was accepted with TLS on has a session in every state it can reach, and
  -- http_dispatch() writes nothing in the clear on it; and until its handshake is done, no plaintext
  -- arrives, no request is handed to the application, and no response is pending.
  pub handshake_first :
      {s : S} {c : Client S}
      → Reach env (some s) c
      → (is_some c.tls ≡ true)
        × (c.clear_writes ≡ [])
        × ((c.tls_hs_done ≡ true)
            ⊎ ((c.received ≡ []) × (c.served ≡ []) × (c.response_write ≡ false)))
  handshake_first r = summary _ (Reach-Secret r)
