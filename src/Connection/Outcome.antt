-- ===== src/Connection/Outcome.antt =====
-- freastal/src/server.c: what http_dispatch() does on each of its returns, from a connection with
-- nothing outstanding.
use freastal.Prelude.{
  ℕ, ◌+◌, ◌-◌, ◌≤◌, ◌<◌, ◌≡◌, refl, ◌∙◌, ◌⊎◌, inl, inr, true, false, none, List, [], ◌∷◌, Bytes,
  length, take, length-drop, Bool-cases, ltb, arith,
}
use freastal.Connection.State.{Client, read_len, client_buffered, unread}
use freastal.Connection.Dispatch.{
  Env, Header, Parse, incomplete, malformed, parsed, scan_header, scan_headers, http_dispatch,
  Verdict, dispatched, more, closed, refuse, write_response, call_application, start_head,
  read_head, dispatch_body, request_bytes, hand_over,
}

-- phr_parse_request() returns a positive count of bytes of its input, or an error.
abbrev pub Parses : {S : Type 0} → Env S → Type 0
Parses env =
    (input : Bytes) (last n minor : ℕ) (hs : List Header)
    → env.phr_parse_request input last ≡ parsed n minor hs
    → (0 < n) × (n ≤ length input)

-- What http_dispatch() never touches.
pub record Frame {S : Type 0} (c d : Client S) : Type 0 where
  pub read_buf : d.read_buf ≡ c.read_buf
  pub read_off : d.read_off ≡ c.read_off
  pub tls_spill : d.tls_spill ≡ c.tls_spill
  pub received : d.received ≡ c.received
  pub lost : d.lost ≡ c.lost
  pub broken : d.tls_broken ≡ c.tls_broken
  pub plain : c.tls ≡ none → d.tls ≡ none
  pub secured : d.tls ≡ none → c.tls ≡ none
  pub failed : d.handshake_failed ≡ c.handshake_failed

-- No write and no close is outstanding, and no request is in flight.
pub record IsIdle {S : Type 0} (c : Client S) : Type 0 where
  pub in_flight : c.in_flight ≡ false
  pub closing : c.closing ≡ false
  pub final_write : c.final_write ≡ false
  pub response_write : c.response_write ≡ false
  pub closes : c.closes ≡ 0
  pub sound : c.handshake_failed ≡ false

-- A request was handed over: it is the head of what was unread, and it is whole. Writing an
-- encrypted response may have given the connection up.
pub record HandedOver {S : Type 0} (c d : Client S) : Type 0 where
  pub in_flight : d.in_flight ≡ true
  pub positive : 0 < d.headers_end
  pub whole : d.headers_end + d.content_length ≤ client_buffered c
  pub served : d.served ≡ take (d.headers_end + d.content_length) (unread c) ∷ c.served
  pub read_armed : d.read_armed ≡ c.read_armed
  pub final_write : d.final_write ≡ false
  pub fate :
      ((d.closing ≡ true) × (d.closes ≡ 1) × (d.response_write ≡ false))
      ⊎ ((d.closing ≡ false) × (d.closes ≡ 0))

pub record Refused {S : Type 0} (c d : Client S) : Type 0 where
  pub in_flight : d.in_flight ≡ false
  pub served : d.served ≡ c.served
  pub response_write : d.response_write ≡ false
  pub fate :
      ((d.closing ≡ true) × (d.closes ≡ 1) × (d.final_write ≡ false))
      ⊎ ((d.closing ≡ false) × (d.closes ≡ 0) × (d.final_write ≡ true) × (d.read_armed ≡ false))

pub record Waits {S : Type 0} (c d : Client S) : Type 0 where
  pub idle : IsIdle d
  pub served : d.served ≡ c.served
  pub read_armed : d.read_armed ≡ c.read_armed

abbrev pub Ends : {S : Type 0} → Client S → Client S → Verdict → Type 0
Ends c d dispatched = HandedOver c d
Ends c d more = Waits c d
Ends c d closed = Refused c d

module _ {S : Type 0} where
  -- A header line changes the body length and the keep-alive flag only, and so does the loop.
  abbrev pub Scanned : Client S → Client S → Type 0
  Scanned c d = d ≡ record c { content_length = d.content_length; keep_alive = d.keep_alive }

  scan_header-Scanned : (h : Header) (c : Client S) → Scanned c (scan_header h c)
  unfolding scan_header
  scan_header-Scanned h c = ground arith

  pub scan_headers-Scanned : (hs : List Header) (c : Client S) → Scanned c (scan_headers hs c)
  unfolding scan_headers
  scan_headers-Scanned [] c = refl
  scan_headers-Scanned (h ∷ hs) c =
      ground (arith, scan_header-Scanned h c, scan_headers-Scanned hs (scan_header h c))

  Frame-trans : {c d e : Client S} → Frame c d → Frame d e → Frame c e
  Frame-trans f g = record {
    read_buf = g.read_buf ∙ f.read_buf;
    read_off = g.read_off ∙ f.read_off;
    tls_spill = g.tls_spill ∙ f.tls_spill;
    received = g.received ∙ f.received;
    lost = g.lost ∙ f.lost;
    broken = g.broken ∙ f.broken;
    plain = λ p. g.plain (f.plain p);
    secured = λ p. f.secured (g.secured p);
    failed = g.failed ∙ f.failed;
  }

  Frame-hand_over : {c d : Client S} → Frame c d → Frame c (hand_over d)
  Frame-hand_over f = ground arith

module _ {S : Type 0} (env : Env S) where
  pub write_response-Frame : (c : Client S) → Frame c (write_response env c)
  unfolding write_response
  write_response-Frame c = ground arith

  pub call_application-Frame : (r : Bytes) (c : Client S) → Frame c (call_application env r c)
  unfolding call_application
  call_application-Frame r c = ground arith

  pub refuse-Frame : (c : Client S) → Frame c (refuse env c)
  unfolding refuse
  refuse-Frame c = ground arith

  pub refuse-Refused : (c : Client S) → IsIdle c → Refused c (refuse env c)
  unfolding refuse
  refuse-Refused c i = ground arith

  write_response-HandedOver :
      (c d : Client S)
      → HandedOver c d
      → (d.closing ≡ false) × (d.response_write ≡ false) × (d.closes ≡ 0)
      → HandedOver c (write_response env d)
  unfolding write_response
  write_response-HandedOver c d i o = ground arith

  call_application-HandedOver :
      (r : Bytes) (c d : Client S)
      → HandedOver c d
      → (d.closing ≡ false) × (d.response_write ≡ false) × (d.closes ≡ 0)
      → HandedOver c (call_application env r d)
  unfolding call_application
  call_application-HandedOver r c d i o = ground arith

  -- A head that was read: nothing else has changed.
  record HeadRead (c d : Client S) : Type 0 where
    frame : Frame c d
    idle : IsIdle d
    served : d.served ≡ c.served
    read_armed : d.read_armed ≡ c.read_armed
    within : (0 < d.headers_end) × (d.headers_end ≤ client_buffered c)

  read_head-HeadRead :
      (n minor : ℕ) (hs : List Header) (c : Client S)
      → IsIdle c
      → (0 < n) × (n ≤ client_buffered c)
      → HeadRead c (read_head n minor hs c)
  unfolding read_head
  read_head-HeadRead n minor hs c i w =
      ground (arith, scan_headers-Scanned hs (start_head n minor c))

  hand_over-HandedOver :
      (c d : Client S)
      → HeadRead c d
      → ltb (client_buffered d - d.headers_end) d.content_length ≡ false
      → HandedOver c (hand_over d)
  hand_over-HandedOver c d h whole = ground arith

  dispatch_body-Ends :
      (c d : Client S)
      → HeadRead c d
      → Frame c (dispatch_body env d).0 × Ends c (dispatch_body env d).0 (dispatch_body env d).1
  unfolding dispatch_body
  dispatch_body-Ends c d h =
      elim (Bool-cases (ltb (client_buffered d - d.headers_end) d.content_length)) [
        | inl short ↦
            rw (short, dispatch_body)
              (h.frame, record { idle = h.idle; served = h.served; read_armed = h.read_armed })
        | inr whole ↦
            rw (whole, dispatch_body)
              (
                Frame-trans (Frame-hand_over h.frame)
                    (call_application-Frame (request_bytes d) (hand_over d)),
                call_application-HandedOver (request_bytes d) c (hand_over d)
                    (hand_over-HandedOver c d h whole) (ground arith),
              )
      ]

  -- Each return of http_dispatch(), by what the parser returned.
  dispatch_parsed :
      (pa : Parse) (c : Client S)
      → Parses env
      → IsIdle c
      → c.read_off ≤ read_len c
      → env.phr_parse_request (unread c) c.last_len ≡ pa
      → Frame c (http_dispatch env c).0 × Ends c (http_dispatch env c).0 (http_dispatch env c).1
  unfolding http_dispatch
  dispatch_parsed incomplete c p i b e = rw (e, http_dispatch) (ground arith, ground arith)
  dispatch_parsed malformed c p i b e = rw (e, http_dispatch) (refuse-Frame c, refuse-Refused c i)
  dispatch_parsed (parsed n minor hs) c p i b e =
      rw (e, http_dispatch)
        (dispatch_body-Ends c _ (
          read_head-HeadRead n minor hs c i (
            omega
              (arith, p (unread c) c.last_len n minor hs e, length-drop c.read_off c.read_buf))))

  pub http_dispatch-Ends :
      (c : Client S)
      → Parses env
      → IsIdle c
      → c.read_off ≤ read_len c
      → Frame c (http_dispatch env c).0 × Ends c (http_dispatch env c).0 (http_dispatch env c).1
  http_dispatch-Ends c p i b =
      dispatch_parsed (env.phr_parse_request (unread c) c.last_len) c p i b refl
