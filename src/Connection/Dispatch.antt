-- ===== src/Connection/Dispatch.antt =====
-- http_dispatch() of freastal/src/server.c, and what it calls: the header scan, the 400, the last
-- bytes of an encrypted connection, and write_response().
use freastal.Prelude.{
  ℕ, ◌+◌, ◌-◌, ◌*◌, Bool, true, false, not, ◌&&◌, ◌||◌, Option, none, some, List, [], ◌∷◌, Bytes,
  length, take, ltb, leb, ◌==◌, if◌then◌else◌,
}
use freastal.Ascii.{codes, equal_ignoring_case, strtoul}
use freastal.Sizes.{tls_wbuf_size}
use freastal.Connection.State.{Client, client_buffered, unread, uv_close, stop_reading}

-- struct phr_header
pub record Header : Type 0 where
  pub name : Bytes
  pub value : Bytes

-- What phr_parse_request() returns: -2, -1, or the length of the head with what it found there.
pub data Parse : Type 0 where
  incomplete malformed : Parse
  parsed : (headers_end minor_version : ℕ) → List Header → Parse

-- What the application did with a request before the call into Python returned: it responded, it
-- failed and send_500() responded, or its coroutine is suspended and will respond later.
pub data Outcome : Type 0 where
  responded failed suspended : Outcome

-- What ptls_handshake() returns: 0, PTLS_ERROR_IN_PROGRESS or another error, with the bytes it
-- consumed and whether it left bytes to send, for which there was memory and which uv_write() took.
pub data HandshakeResult : Type 0 where
  finished in_progress broken : HandshakeResult

pub record Handshake (S : Type 0) : Type 0 where
  pub result : HandshakeResult
  pub inlen : ℕ
  pub has_output : Bool
  pub session : S

-- One call of ptls_receive(): whether it returned 0, the input it consumed, the plaintext that it
-- appended, and whether the buffer is one of its own afterwards (is_allocated).
pub record Receive (S : Type 0) : Type 0 where
  pub ok : Bool
  pub inlen : ℕ
  pub plaintext : Bytes
  pub is_allocated : Bool
  pub session : S

-- The code that is not in freastal/src: picohttpparser, the application, picotls and the
-- allocators behind the encrypted writes. `none` of the two writes stands for any of their refusals.
pub record Env (S : Type 0) : Type 0 where
  pub phr_parse_request : Bytes → ℕ → Parse
  pub application : Bytes → Outcome
  pub record_overhead : S → ℕ
  pub encrypt_response : S → Option S
  -- whether uv_write() takes the response of the n-th request on an open handle
  pub uv_write : ℕ → Bool
  pub encrypt_final : S → ℕ → Option S
  pub handshake : S → Bytes → Handshake S
  -- the session, the capacity and the bytes already in the buffer, the input
  pub receive : S → ℕ → Bytes → Bytes → Receive S

abbrev bad_request : Bytes
bad_request = codes "HTTP/1.1 400 Bad Request\r\nContent-Length: 0\r\nConnection: close\r\n\r\n"

-- The value is copied into `char tmp[32]` first, so strtoul() sees 31 bytes of it at most.
unfoldable pub content_length_of : Bytes → ℕ
unfolding strtoul
content_length_of v = strtoul (take 31 v)

unfoldable pub connection_option : Bytes → Bool → Bool
unfolding equal_ignoring_case
connection_option v keep =
    if leb 5 (length v) && equal_ignoring_case (take 5 v) (codes "close")
    then false
    else if leb 10 (length v) && equal_ignoring_case (take 10 v) (codes "keep-alive")
    then true
    else keep

module _ {S : Type 0} where
  unfoldable pub scan_header : Header → Client S → Client S
  scan_header h c =
      if length h.name == 14 && equal_ignoring_case h.name (codes "content-length")
      then record c { content_length = content_length_of h.value }
      else if length h.name == 10 && equal_ignoring_case h.name (codes "connection")
      then record c { keep_alive = connection_option h.value c.keep_alive }
      else c

  -- The loop over the parsed headers.
  unfoldable pub scan_headers : List Header → Client S → Client S
  unfolding scan_header
  scan_headers [] c = c
  scan_headers (h ∷ hs) c = scan_headers hs (scan_header h c)

  abbrev pub start_head : ℕ → ℕ → Client S → Client S
  start_head pret minor c = record c {
    headers_end = pret;
    minor_version = minor;
    content_length = 0;
    keep_alive = minor == 1;
  }

  -- The request line and headers of a parsed head, as far as the server itself reads them.
  unfoldable pub read_head : ℕ → ℕ → List Header → Client S → Client S
  unfolding scan_headers
  read_head pret minor hs c = scan_headers hs (start_head pret minor c)

  abbrev pub request_bytes : Client S → Bytes
  request_bytes c = take (c.headers_end + c.content_length) (unread c)

  abbrev pub hand_over : Client S → Client S
  hand_over c = record c { in_flight = true; served = request_bytes c ∷ c.served }

-- The return value of http_dispatch(): 1, 0 and -1.
pub data Verdict : Type 0 where
  dispatched more closed : Verdict

module _ {S : Type 0} (env : Env S) where
  open env use {
    phr_parse_request, application, record_overhead, encrypt_response, encrypt_final, uv_write,
  }

  -- write_response(); an encrypted one may give up and close. What uv_write() returns is ignored: a
  -- write that it refuses, as it does on a handle that is closing, never completes.
  unfoldable pub write_response : Client S → Client S
  write_response c =
      let taken = not c.closing && uv_write (length c.served) in
      elim c.tls [
        | none ↦ record c { response_write = c.response_write || taken }
        | some s ↦ elim (encrypt_response s) [
          | none ↦ uv_close c
          | some s' ↦ record c { tls = some s'; response_write = c.response_write || taken }
        ]
      ]

  -- tls_send_final(): true when the close has become the job of on_tls_final_write().
  unfoldable pub tls_send_final : Client S → S → ℕ → Client S × Bool
  tls_send_final c s len =
      let c' = if c.read_armed then stop_reading c else c in
      if ltb tls_wbuf_size (len + 2 + 2 * record_overhead s)
      then (c', false)
      else elim (encrypt_final s len) [
        | none ↦ (c', false)
        | some s' ↦ (record c' { tls = some s'; final_write = true }, true)
      ]

  -- The branch `pret < 0`.
  unfoldable pub refuse : Client S → Client S
  unfolding tls_send_final
  refuse c = elim c.tls [
    | none ↦ uv_close (record c { clear_writes = bad_request ∷ c.clear_writes })
    | some s ↦
        let (c', sent) = tls_send_final c s (length bad_request) in
        if not c.tls_hs_done then uv_close c else if sent then c' else uv_close c'
  ]

  -- send_500() and asgi's own clear keep_alive before they write.
  unfoldable pub call_application : Bytes → Client S → Client S
  unfolding write_response
  call_application request c = elim (application request) [
    | responded ↦ write_response c
    | failed ↦ write_response (record c { keep_alive = false })
    | suspended ↦ c
  ]

  -- The body has arrived: hand the request over. Otherwise wait.
  unfoldable pub dispatch_body : Client S → Client S × Verdict
  dispatch_body c =
      if ltb (client_buffered c - c.headers_end) c.content_length
      then (c, more)
      else (call_application (request_bytes c) (hand_over c), dispatched)

  unfoldable pub http_dispatch : Client S → Client S × Verdict
  http_dispatch c = elim (phr_parse_request (unread c) c.last_len) [
    | incomplete ↦ (record c { last_len = client_buffered c }, more)
    | malformed ↦ (refuse c, closed)
    | parsed pret minor hs ↦ dispatch_body (read_head pret minor hs c)
  ]
