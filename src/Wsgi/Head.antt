-- ===== src/Wsgi/Head.antt =====
-- freastal/src/wsgi.c, format_response_headers(): the head it writes.
use freastal.Prelude.{
  ℕ, ◌^◌, ◌<◌, ◌≡◌, refl, ap, ◌∙◌, Bool, false, some, List, [], ◌∷◌, ◌++◌, Bytes, length, arith,
}
use freastal.Ascii.{codes}
use freastal.Response.{
  str, Item, done, ◌>>=◌, hdr_append, crlf, colon_space, note_name, append_each, finish_head,
}
use freastal.Response.Render.{fit, hdr_append-Appends, then-Appends, Field, render}
use freastal.Response.Fields.{note_name_lem, Writes, All2, head_lem}
use freastal.Wsgi.{Started, utf8, items_of, append_texts, append_header, format_response_headers}

-- The pair is a header of that name and value, neither of them of 2 GiB or more.
abbrev pub Reads : Item → Field → Type 0
Reads i (name, v) =
    (items_of i ≡ done (str (some name), str (some v)))
    × (length name < 2 ^ 31)
    × (length v < 2 ^ 31)

append_header-Writes : (i : Item) (f : Field) → Reads i f → Writes append_header i f
unfolding append_header append_texts utf8
append_header-Writes i (name, v) h w l = rw h.0 (
    ap (λ r. r >>= λ hdr. done (record (note_name name w) { hdr = hdr }))
      (then-Appends _ (hdr_append crlf) ((name ++ colon_space) ++ v) crlf
        (then-Appends _ (hdr_append v) (name ++ colon_space) v
          (then-Appends _ (hdr_append colon_space) name colon_space (hdr_append-Appends name h.1)
            (hdr_append-Appends colon_space (ground arith)))
          (hdr_append-Appends v h.2))
        (hdr_append-Appends crlf (ground arith)) w.hdr l)
    ∙ rw (note_name_lem name w) refl)

-- The first line.
abbrev pub status_text : Bytes → Bytes
status_text status = (codes "HTTP/1.1 " ++ status) ++ crlf

all_write :
    (items : List Item) (fields : List Field)
    → All2 Reads items fields
    → All2 (Writes append_header) items fields
all_write [] [] h = tt
all_write [] (f ∷ fs) h = h
all_write (i ∷ is) [] h = h
all_write (i ∷ is) (f ∷ fs) h = (append_header-Writes i f h.0, all_write is fs h.1)

-- If start_response has stored a status and a list of headers that are pairs of str, none of them of
-- 2 GiB or more, format_response_headers() writes exactly the status line, the lines of the headers,
-- Content-Length and Connection where the application gave none, and the empty line, if these fit
-- RESP_HDR_SIZE bytes, and otherwise returns -1.
pub format_response_headers_lem :
    (st : Started) (status : Bytes) (headers : List Item) (fields : List Field) (keep_alive : Bool)
    (body_len : ℕ)
    → st.resp_status ≡ some (str (some status))
    → st.resp_pyheaders ≡ some headers
    → length status < 2 ^ 31
    → All2 Reads headers fields
    → body_len < 2 ^ 64
    → format_response_headers st keep_alive body_len
      ≡ fit (render (status_text status) fields body_len keep_alive)
unfolding format_response_headers utf8
format_response_headers_lem st status headers fields k n e f l h b =
    rw (e, f)
      (ap
          (λ r.
            (r >>= (λ hdr.
              append_each append_header headers
                (record { hdr = hdr; have_content_length = false; have_connection = false })))
            >>= finish_head n k)
          (then-Appends _ (hdr_append crlf) (codes "HTTP/1.1 " ++ status) crlf
            (then-Appends _ (hdr_append status) (codes "HTTP/1.1 ") status
              (hdr_append-Appends (codes "HTTP/1.1 ") (ground arith)) (hdr_append-Appends status l))
            (hdr_append-Appends crlf (ground arith)) [] (omega arith))
        ∙ head_lem append_header headers fields (status_text status) n k
            (all_write headers fields h) b)
