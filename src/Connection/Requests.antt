-- ===== src/Connection/Requests.antt =====
-- freastal/src/server.c: the requests that a connection has handed over, in every state it can reach.
use freastal.Prelude.{ℕ, ◌+◌, ◌≡◌, ap, ◌∙◌, Bool, false, Option, ◌++◌, length, arith}
use freastal.Connection.State.{Client, client_reset, settle, alloc_cb}
use freastal.Connection.Dispatch.{Env, write_response}
use freastal.Connection.Encrypted.{tls_read_failed, tls_read_flow, Sweep, keep_plaintext}
use freastal.Connection.Callbacks.{
  on_read_error, on_tls_hs_write, on_tls_final_write, throttle, resume, take_back, finish,
  late_response,
}
use freastal.Connection.Closure.{Keeps, KeepsAll, Step-keeps}
use freastal.Connection.Order.{Reach-Stream}
use freastal.Connection.Outcome.{Parses}
use freastal.Connection.Handover.{AllFramed, same_served, http_dispatch-served}
use freastal.Connection.Split.{IsLocal, split, split-spoken, in_order}
use freastal.Connection.Steps.{Reach, accepted, later}
use freastal.Connection.Stream.{
  rest, settle-Same, throttle-Same, tls_read_failed-Same, tls_read_flow-Same, resume-Same,
}

module _ {S : Type 0} where
  keep_plaintext-served :
      (m : Bool) (c : Client S) (w : Sweep S) → (keep_plaintext m c w).0.served ≡ c.served
  unfolding keep_plaintext
  keep_plaintext-served m c w = ground arith

  take_back-served : (c : Client S) → (take_back c).served ≡ c.served
  unfolding take_back
  take_back-served c = ground arith

  client_reset-served : (c : Client S) → (client_reset c).served ≡ c.served
  unfolding client_reset
  client_reset-served c = ground arith

  alloc_cb-served : (c : Client S) → (alloc_cb c).0.served ≡ c.served
  unfolding alloc_cb
  alloc_cb-served c = ground (arith, (settle-Same c).served)

  on_read_error-served : (c : Client S) → (on_read_error c).served ≡ c.served
  unfolding on_read_error
  on_read_error-served c = ground arith

  on_tls_hs_write-served : (c : Client S) (sent : Bool) → (on_tls_hs_write c sent).served ≡ c.served
  unfolding on_tls_hs_write
  on_tls_hs_write-served c sent = ground arith

module _ {S : Type 0} (env : Env S) where
  finish-served : (c : Client S) (sent : Bool) → (finish env c sent).served ≡ c.served
  unfolding finish
  finish-served c sent = ground arith

  late_response-served : (c : Client S) → (late_response env c).served ≡ c.served
  unfolding late_response write_response
  late_response-served c = ground arith

  parts-AllFramed : Parses env → IsLocal env → Keeps env (AllFramed env)
  parts-AllFramed p l = record {
    settled = λ c. same_served env c (settle c) (settle-Same c).served;
    failed = λ c. same_served env c (tls_read_failed c) (tls_read_failed-Same c).served;
    flow = λ c. same_served env c (tls_read_flow c) (tls_read_flow-Same c).served;
    kept = λ m c w. same_served env c (keep_plaintext m c w).0 (keep_plaintext-served m c w);
    resumed = λ c. same_served env c (resume c) (resume-Same c).served;
    back = λ c. same_served env c (take_back c) (take_back-served c);
    next = λ c.
        same_served env c (client_reset (record c { response_write = false }))
          (client_reset-served (record c { response_write = false }));
    session = λ c s h. h;
    dispatch = λ c. http_dispatch-served env c p l;
    finished_with = λ c sent.
        same_served env c (finish env (record c { response_write = false }) sent)
          (finish-served (record c { response_write = false }) sent);
  }

  all-AllFramed : Parses env → IsLocal env → KeepsAll env (AllFramed env)
  unfolding on_tls_final_write on_tls_hs_write
  all-AllFramed p l = record {
    parts = parts-AllFramed p l;
    allocated = λ c. same_served env c (alloc_cb c).0 (alloc_cb-served c);
    read_failed = λ c. same_served env c (on_read_error c) (on_read_error-served c);
    delivered = λ c bytes h. h;
    throttled = λ c. same_served env c (throttle c) (throttle-Same c).served;
    shaken = λ c s n h. h;
    done = λ c h. h;
    final = λ c h. h;
    handshake =
        λ c sent. same_served env c (on_tls_hs_write c sent) (on_tls_hs_write-served c sent);
    late = λ c. same_served env c (late_response env c) (late_response-served c);
  }

  Reach-AllFramed :
      Parses env → IsLocal env → {tls : Option S} {c : Client S} → Reach env tls c → AllFramed env c
  Reach-AllFramed p l accepted = tt
  Reach-AllFramed p l (later r st) =
      Step-keeps env (AllFramed env) (all-AllFramed p l) st (Reach-AllFramed p l r)

  -- If phr_parse_request() returns a positive length within its input, and what it finds depends on
  -- the bytes of the head only, then in every state that a connection can reach, plaintext or
  -- encrypted, however the bytes were cut into reads and records: splitting the whole stream that
  -- arrived from its start gives first the requests that were handed over, all of them, in their
  -- order, and then what splitting the rest gives.
  pub requests_of_stream :
      {tls : Option S} {c : Client S}
      → Parses env
      → IsLocal env
      → Reach env tls c
      → (left : ℕ)
      → split env (length c.served + left) c.received
        ≡ in_order env c.served ++ split env left (rest c ++ (c.tls_spill ++ c.lost))
  requests_of_stream {c = c} p l r left =
      ap (λ s. split env (length c.served + left) s) (Reach-Stream env p r).history
      ∙ split-spoken env c.served left (rest c ++ (c.tls_spill ++ c.lost)) (Reach-AllFramed p l r)
