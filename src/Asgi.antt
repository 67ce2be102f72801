-- ===== src/Asgi.antt =====
-- freastal/src/asgi.c: the formatter, the sender and the dispatch of a request.
-- Python objects that memory fails for are not modelled.
pub mod Head
pub mod Outcome
pub mod Scope
pub mod Dispatch
pub mod EventLoop
pub mod CoroStep
pub mod Tests
use freastal.Prelude.{
  ℕ, suc, ◌+◌, ◌-◌, Bool, true, false, not, ◌&&◌, ◌⊎◌, inl, inr, Option, none, some, List, [], ◌∷◌,
  ◌++◌, map, Bytes, length, leb, ltb, ◌==◌, if◌then◌else◌,
}
use freastal.Ascii.{codes}
use freastal.Sizes.{resp_hdr_size}
use freastal.Decimal.{fill_digits}
use freastal.HeaderSyntax.{hdr_name_ok, hdr_value_ok}
use freastal.Response.{
  Object, str, bytes, bytes_subclass, other, chunk, Item, tuple, list, sequence, no_sequence,
  Formatting, done, refused, fault, ◌>>=◌, hdr_append, crlf, colon_space, Writer, note_name,
  finish_head, append_each, Exception, value_error, type_error, runtime_error, Reply,
}

-- A C `int`.
pub data ℤ : Type 0 where
  pos negsuc : ℕ → ℤ

-- status_line(): the lines of the table, without "HTTP/1.1 " and the line end that all of them have.
unfoldable pub status_lines : List (ℕ × Bytes)
status_lines =
    (100, codes "100 Continue")
    ∷ (200, codes "200 OK")
    ∷ (201, codes "201 Created")
    ∷ (202, codes "202 Accepted")
    ∷ (204, codes "204 No Content")
    ∷ (206, codes "206 Partial Content")
    ∷ (301, codes "301 Moved Permanently")
    ∷ (302, codes "302 Found")
    ∷ (304, codes "304 Not Modified")
    ∷ (307, codes "307 Temporary Redirect")
    ∷ (308, codes "308 Permanent Redirect")
    ∷ (400, codes "400 Bad Request")
    ∷ (401, codes "401 Unauthorized")
    ∷ (403, codes "403 Forbidden")
    ∷ (404, codes "404 Not Found")
    ∷ (405, codes "405 Method Not Allowed")
    ∷ (409, codes "409 Conflict")
    ∷ (410, codes "410 Gone")
    ∷ (422, codes "422 Unprocessable Entity")
    ∷ (429, codes "429 Too Many Requests")
    ∷ (500, codes "500 Internal Server Error")
    ∷ (502, codes "502 Bad Gateway")
    ∷ (503, codes "503 Service Unavailable")
    ∷ (504, codes "504 Gateway Timeout")
    ∷ []

abbrev pub find_status : ℕ → List (ℕ × Bytes) → Option Bytes
find_status s [] = none
find_status s ((n, line) ∷ ls) =
    let rest = find_status s ls in
    if s == n then some (codes "HTTP/1.1 " ++ (line ++ crlf)) else rest

unfoldable pub status_line : ℤ → Option Bytes
unfolding status_lines
status_line (pos s) = find_status s status_lines
status_line (negsuc s) = none

-- "%d"
unfoldable pub show_int : ℤ → Bytes
show_int (pos n) = fill_digits 10 n []
show_int (negsuc n) = b'-' ∷ fill_digits 10 (n + 1) []

-- The first line: from the table, or printed, for which the buffer is long enough.
unfoldable pub write_status : ℤ → Formatting Bytes
write_status status = elim (status_line status) [
  | some line ↦ hdr_append line []
  | none ↦
      let line = codes "HTTP/1.1 " ++ (show_int status ++ codes " Unknown\r\n") in
      if leb resp_hdr_size (length line) then refused else done line
]

-- PySequence_GetItem() at 0 and at 1.
unfoldable pub get_two : List Object → Option (Object × Object)
get_two (a ∷ b ∷ os) = some (a, b)
get_two os = none

-- What append_asgi_header() takes for the pair; its first two branches are cases of the third.
unfoldable pub asgi_pair : Item → Option (Object × Object)
unfolding get_two
asgi_pair (list (a ∷ b ∷ [])) = some (a, b)
asgi_pair (tuple (a ∷ b ∷ [])) = some (a, b)
asgi_pair (list os) = get_two os
asgi_pair (tuple os) = get_two os
asgi_pair (sequence os) = get_two os
asgi_pair no_sequence = none

-- The line, which is written whole or not at all.
unfoldable pub append_line : Option Bytes → Option Bytes → Writer → Formatting Writer
append_line (some name) (some v) w =
    let noted = note_name name w in
    if leb (length name + length v + 4) (resp_hdr_size - length w.hdr)
    then done (record noted { hdr = w.hdr ++ (((name ++ colon_space) ++ v) ++ crlf) })
    else refused
append_line name v w = refused

unfoldable pub append_asgi_header : Item → Writer → Formatting Writer
append_asgi_header i w = elim (asgi_pair i) [
  | none ↦ refused
  | some (name, v) ↦ append_line (chunk name) (chunk v) w
]

abbrev pub body_length : Object → ℕ
body_length body = elim (chunk body) [ none ↦ 0 | some b ↦ length b ]

unfoldable pub format_response_asgi : ℤ → List Item → Object → Bool → Formatting Bytes
format_response_asgi status headers body keep_alive =
    write_status status
    >>= (λ hdr.
        append_each append_asgi_header headers
          (record { hdr = hdr; have_content_length = false; have_connection = false }))
    >>= finish_head (body_length body) keep_alive

-- The test of a header: false is the exception. An item that is not exactly a pair of bytes is
-- passed over.
unfoldable pub pair_ok : Object → Object → Bool
pair_ok name v = elim (chunk name) [
  | none ↦ true
  | some n ↦ elim (chunk v) [ none ↦ true | some b ↦ hdr_name_ok n && hdr_value_ok b ]
]

unfoldable pub asgi_header_ok : Item → Bool
asgi_header_ok (tuple (a ∷ b ∷ [])) = pair_ok a b
asgi_header_ok (list (a ∷ b ∷ [])) = pair_ok a b
asgi_header_ok i = true

unfoldable pub asgi_headers_ok : List Item → Bool
asgi_headers_ok [] = true
asgi_headers_ok (i ∷ is) = let rest = asgi_headers_ok is in if asgi_header_ok i then rest else false

-- What follows format_response_asgi().
unfoldable pub send_reply : Formatting Bytes → Object → Bool → Exception ⊎ Reply
send_reply (done hdr) body keep_alive = inr (record {
  resp_hdr = hdr;
  resp_body = elim (chunk body) [
    | none ↦ none
    | some b ↦ if ltb 0 (length b) then some b else none
  ];
  keep_alive = keep_alive;
})
send_reply refused body keep_alive = inl runtime_error
send_reply fault body keep_alive = inl runtime_error

-- asgi_send_response_c(): the exception, or what write_response() is called with. Headers that are
-- no list are none. A fault is not reached: every length that HDR_APPEND is given here is small.
unfoldable pub asgi_send_response : ℤ → Option (List Item) → Object → Bool → Exception ⊎ Reply
asgi_send_response status none body keep_alive = inl type_error
asgi_send_response status (some headers) body keep_alive =
    if asgi_headers_ok headers
    then send_reply (format_response_asgi status headers body keep_alive) body keep_alive
    else inl value_error
