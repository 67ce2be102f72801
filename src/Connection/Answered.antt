-- ===== src/Connection/Answered.antt =====
-- freastal/src/server.c, a connection whose application answers before it returns, as a WSGI
-- application does.
use freastal.Prelude.{
  ◌≡◌, refl, ◌⊎◌, inl, inr, Bool, true, false, [], ◌∷◌, Bytes, length, ◌-◌, ltb, Option, List,
  if_cases, arith,
}
use freastal.Connection.State.{Client, unread, client_buffered, client_reset, settle, alloc_cb}
use freastal.Connection.Dispatch.{
  Env, Header, Parse, incomplete, malformed, parsed, responded, failed, scan_header, scan_headers,
  read_head, start_head, hand_over, request_bytes, write_response, call_application, refuse,
  dispatch_body, http_dispatch, Verdict,
}
use freastal.Connection.Encrypted.{tls_read_failed, tls_read_flow, Sweep, keep_plaintext}
use freastal.Connection.Callbacks.{
  on_read_error, on_tls_hs_write, on_tls_final_write, resume, take_back, finish, late_response,
}
use freastal.Connection.Closure.{Keeps, KeepsAll, Step-keeps}
use freastal.Connection.Gone.{State}
use freastal.Connection.Keeps.{Reach-State}
use freastal.Connection.Outcome.{Parses}
use freastal.Connection.Steps.{Reach, accepted, later}

-- The application has responded or failed when it returns.
abbrev pub IsPrompt : {S : Type 0} → Env S → Type 0
IsPrompt env = (r : Bytes) → (env.application r ≡ responded) ⊎ (env.application r ≡ failed)

-- A request in flight has its response on the way, unless the connection is at its end or uv_write()
-- has refused the response.
abbrev IsAnswered : {S : Type 0} → Env S → Client S → Type 0
IsAnswered env c =
    c.in_flight ≡ true
    → c.closing ≡ false
    → c.final_write ≡ false
    → (c.response_write ≡ true) ⊎ (env.uv_write (length c.served) ≡ false)

module _ {S : Type 0} (env : Env S) where
  settle-IsAnswered : (c : Client S) → IsAnswered env c → IsAnswered env (settle c)
  unfolding settle
  settle-IsAnswered c h = ground (arith, h)

  failed-IsAnswered : (c : Client S) → IsAnswered env c → IsAnswered env (tls_read_failed c)
  unfolding tls_read_failed
  failed-IsAnswered c h = ground (arith, h)

  flow-IsAnswered : (c : Client S) → IsAnswered env c → IsAnswered env (tls_read_flow c)
  unfolding tls_read_flow
  flow-IsAnswered c h = ground (arith, h)

  kept-IsAnswered :
      (m : Bool) (c : Client S) (w : Sweep S)
      → IsAnswered env c
      → IsAnswered env (keep_plaintext m c w).0
  unfolding keep_plaintext
  kept-IsAnswered m c w h = ground (arith, h)

  resume-IsAnswered : (c : Client S) → IsAnswered env c → IsAnswered env (resume c)
  unfolding resume
  resume-IsAnswered c h = ground (arith, h, flow-IsAnswered c h)

  back-IsAnswered : (c : Client S) → IsAnswered env c → IsAnswered env (take_back c)
  unfolding take_back
  back-IsAnswered c h = ground (arith, h)

  alloc_cb-IsAnswered : (c : Client S) → IsAnswered env c → IsAnswered env (alloc_cb c).0
  unfolding alloc_cb
  alloc_cb-IsAnswered c h = ground (arith, h, settle-IsAnswered c h)

  on_read_error-IsAnswered : (c : Client S) → IsAnswered env c → IsAnswered env (on_read_error c)
  unfolding on_read_error
  on_read_error-IsAnswered c h = ground (arith, h)

  handshake-IsAnswered :
      (c : Client S) (sent : Bool) → IsAnswered env c → IsAnswered env (on_tls_hs_write c sent)
  unfolding on_tls_hs_write
  handshake-IsAnswered c sent h = ground (arith, h)

  scan_headers-IsAnswered :
      (hs : List Header) (c : Client S) → IsAnswered env c → IsAnswered env (scan_headers hs c)
  unfolding scan_headers scan_header
  scan_headers-IsAnswered [] c h = h
  scan_headers-IsAnswered (x ∷ xs) c h =
      scan_headers-IsAnswered xs (scan_header x c) (ground (arith, h))

  write_response-IsAnswered :
      (c : Client S) → IsAnswered env c → IsAnswered env (write_response env c)
  unfolding write_response
  write_response-IsAnswered c h = ground (arith, h)

  written-IsAnswered : (c : Client S) → IsAnswered env (write_response env c)
  unfolding write_response
  written-IsAnswered c = ground arith

  call-IsAnswered :
      (r : Bytes) (c : Client S) → IsPrompt env → IsAnswered env (call_application env r c)
  unfolding call_application
  call-IsAnswered r c p = elim (p r) [
    | inl e ↦ rw (e, call_application) (written-IsAnswered c)
    | inr e ↦ rw (e, call_application) (written-IsAnswered (record c { keep_alive = false }))
  ]

  refuse-IsAnswered : (c : Client S) → IsAnswered env c → IsAnswered env (refuse env c)
  unfolding refuse
  refuse-IsAnswered c h = ground (arith, h)

  body-IsAnswered :
      (c : Client S) → IsPrompt env → IsAnswered env c → IsAnswered env (dispatch_body env c).0
  unfolding dispatch_body
  body-IsAnswered c p h =
      if_cases (λ (r : Client S × Verdict). IsAnswered env r.0)
        (ltb (client_buffered c - c.headers_end) c.content_length) (λ _. h)
        (λ _. call-IsAnswered (request_bytes c) (hand_over c) p)

  parsed-IsAnswered :
      (pa : Parse) (c : Client S)
      → IsPrompt env
      → env.phr_parse_request (unread c) c.last_len ≡ pa
      → IsAnswered env c
      → IsAnswered env (http_dispatch env c).0
  unfolding http_dispatch read_head
  parsed-IsAnswered incomplete c p e h = rw (e, http_dispatch) h
  parsed-IsAnswered malformed c p e h = rw (e, http_dispatch) (refuse-IsAnswered c h)
  parsed-IsAnswered (parsed n minor hs) c p e h =
      rw (e, http_dispatch)
        (body-IsAnswered _ p (scan_headers-IsAnswered hs (start_head n minor c) h))

  next-IsAnswered :
      (c : Client S)
      → IsAnswered env
          (record (client_reset (record c { response_write = false })) { in_flight = false })
  unfolding client_reset
  next-IsAnswered c = ground arith

  finish-IsAnswered :
      (c : Client S) (sent : Bool)
      → IsAnswered env (finish env (record c { response_write = false }) sent)
  unfolding finish
  finish-IsAnswered c sent = ground arith

  parts-IsAnswered : IsPrompt env → Keeps env (IsAnswered env)
  parts-IsAnswered p = record {
    settled = settle-IsAnswered;
    failed = failed-IsAnswered;
    flow = flow-IsAnswered;
    kept = kept-IsAnswered;
    resumed = resume-IsAnswered;
    back = back-IsAnswered;
    next = λ c h. next-IsAnswered c;
    session = λ c s h. h;
    dispatch = λ c. parsed-IsAnswered (env.phr_parse_request (unread c) c.last_len) c p refl;
    finished_with = λ c sent h. finish-IsAnswered c sent;
  }

  all-IsAnswered : IsPrompt env → KeepsAll env (IsAnswered env)
  unfolding on_tls_final_write on_tls_hs_write late_response
  all-IsAnswered p = record {
    parts = parts-IsAnswered p;
    allocated = alloc_cb-IsAnswered;
    read_failed = on_read_error-IsAnswered;
    delivered = λ c bytes h. h;
    throttled = λ c h. ground (arith, h);
    shaken = λ c s n h. h;
    done = λ c h. h;
    final = λ c h. ground arith;
    handshake = λ c sent. handshake-IsAnswered c sent;
    late = write_response-IsAnswered;
  }

  Reach-IsAnswered :
      {tls : Option S} {c : Client S} → IsPrompt env → Reach env tls c → IsAnswered env c
  Reach-IsAnswered p accepted = ground arith
  Reach-IsAnswered p (later r st) =
      Step-keeps env (IsAnswered env) (all-IsAnswered p) st (Reach-IsAnswered p r)

  moving :
      {c : Client S}
      → State c
      → IsAnswered env c
      → (c.closing ≡ true)
        ⊎ (c.final_write ≡ true)
        ⊎ ((c.response_write ≡ true) × (c.in_flight ≡ true))
        ⊎ ((c.read_armed ≡ true) × (c.in_flight ≡ false) × (length c.tls_spill ≡ 0))
        ⊎ ((c.in_flight ≡ true) × (env.uv_write (length c.served) ≡ false))
  moving (inl v) a = ground (arith, a, v.progress, v.quiet)
  moving (inr g) a = inl g.closing

  -- If phr_parse_request() returns a positive length within its input, and the application answers
  -- before it returns, a reachable connection always has something under way: its handle is closing,
  -- or the last write before the close is pending, or a response is pending for the request in flight,
  -- or it reads, with no request in flight and no plaintext in its spill; but for a connection with a
  -- request in flight of which uv_write() has refused the response.
  pub always_moving :
      {tls : Option S} {c : Client S}
      → Parses env
      → IsPrompt env
      → Reach env tls c
      → (c.closing ≡ true)
        ⊎ (c.final_write ≡ true)
        ⊎ ((c.response_write ≡ true) × (c.in_flight ≡ true))
        ⊎ ((c.read_armed ≡ true) × (c.in_flight ≡ false) × (length c.tls_spill ≡ 0))
        ⊎ ((c.in_flight ≡ true) × (env.uv_write (length c.served) ≡ false))
  always_moving ps p r = moving (Reach-State env ps r) (Reach-IsAnswered p r)
