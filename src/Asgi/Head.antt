-- ===== src/Asgi/Head.antt =====
-- freastal/src/asgi.c, format_response_asgi(): the head it writes.
use freastal.Prelude.{
  ℕ, ◌+◌, ◌^◌, ◌≤◌, ◌<◌, ◌≡◌, refl, subst, inl, inr, Bool-cases, ap, ◌∙◌, Bool, false, ◌||◌, Option,
  none, some, List, [], ◌∷◌, ◌++◌, append_assoc, Bytes, All, length, length-append, leb, ◌==◌,
  if◌then◌else◌, arith,
}
use freastal.Ascii.{codes}
use freastal.Sizes.{resp_hdr_size}
use freastal.Decimal.Digits.{fill_digits-length, uint_ndigits-bound}
use freastal.Response.{
  Object, chunk, Item, Formatting, done, refused, ◌>>=◌, hdr_append, crlf, colon_space, Writer,
  append_each, finish_head,
}
use freastal.Response.Render.{
  fit, hdr_append-Appends, Field, field_line, is_content_length, is_connection, render,
}
use freastal.Response.Fields.{wrote, note_name_lem, Writes, All2, head_lem}
use freastal.Asgi.{
  ℤ, pos, negsuc, status_lines, find_status, status_line, show_int, write_status, asgi_pair,
  append_line, append_asgi_header, body_length, format_response_asgi,
}

-- The pair is a header of that name and value.
abbrev pub Reads : Item → Field → Type 0
Reads i (name, v) =
    (a b : Object) × (asgi_pair i ≡ some (a, b)) × (chunk a ≡ some name) × (chunk b ≡ some v)

line_Writes :
    (name v : Bytes) (w : Writer)
    → length w.hdr ≤ resp_hdr_size
    → append_line (some name) (some v) w
      ≡ wrote
          (w.hdr ++ field_line (name, v))
          (w.have_content_length || is_content_length name)
          (w.have_connection || is_connection name)
unfolding append_line
line_Writes name v w l = rw (note_name_lem name w) (
    ground (
      arith,
      length-append w.hdr (field_line (name, v)),
      length-append ((name ++ colon_space) ++ v) crlf,
      length-append (name ++ colon_space) v,
      length-append name colon_space,
    ))

append_asgi_header-Writes : (i : Item) (f : Field) → Reads i f → Writes append_asgi_header i f
unfolding append_asgi_header
append_asgi_header-Writes i (name, v) (a, b, e, p, q) w l =
    ap (λ o. elim o [ none ↦ refused | some (x, y) ↦ append_line (chunk x) (chunk y) w ]) e
    ∙ ap (λ o. append_line o (chunk b) w) p
    ∙ ap (λ o. append_line (some name) o w) q
    ∙ line_Writes name v w l

-- The status in words, if the table has it.
abbrev pub find_reason : ℕ → List (ℕ × Bytes) → Option Bytes
find_reason s [] = none
find_reason s ((n, line) ∷ ls) = if s == n then some line else find_reason s ls

-- The first line, without its end.
abbrev pub reason : ℤ → Bytes
reason (pos s) = elim (find_reason s status_lines) [
  | none ↦ show_int (pos s) ++ codes " Unknown"
  | some line ↦ line
]
reason (negsuc s) = show_int (negsuc s) ++ codes " Unknown"

abbrev pub status_text : ℤ → Bytes
status_text s = (codes "HTTP/1.1 " ++ reason s) ++ crlf

-- An int.
abbrev pub IsInt : ℤ → Type 0
IsInt (pos n) = n < 2 ^ 31
IsInt (negsuc n) = n < 2 ^ 31

find_status_lem :
    (s : ℕ) (ls : List (ℕ × Bytes))
    → find_status s ls ≡ elim (find_reason s ls) [
      | none ↦ none
      | some line ↦ some (codes "HTTP/1.1 " ++ (line ++ crlf))
    ]
find_status_lem s [] = refl
find_status_lem s ((n, line) ∷ ls) = ground (arith, find_status_lem s ls)

show_int-length : (s : ℤ) → IsInt s → length (show_int s) ≤ 25
unfolding show_int
show_int-length (pos n) h = omega (arith, fill_digits-length n (omega arith), uint_ndigits-bound n)
show_int-length (negsuc n) h =
    omega (arith, fill_digits-length (n + 1) (omega arith), uint_ndigits-bound (n + 1))

-- The line that is printed for a status that is not in the table.
printed : ℤ → Formatting Bytes
printed s =
    let line = codes "HTTP/1.1 " ++ (show_int s ++ codes " Unknown\r\n") in
    if leb resp_hdr_size (length line) then refused else done line

printed_lem :
    (s : ℤ)
    → IsInt s
    → printed s ≡ fit ((codes "HTTP/1.1 " ++ (show_int s ++ codes " Unknown")) ++ crlf)
unfolding printed
printed_lem s h =
    rw (append_assoc (show_int s) (codes " Unknown") crlf)
      (ground (arith, show_int-length s h, length-append (show_int s) (codes " Unknown\r\n")))

status_lines-short : All (λ l. length l.1 < 100) status_lines
unfolding status_lines
status_lines-short = ground arith

pub find_reason-All :
    (P : Bytes → Type 0) (s : ℕ) (ls : List (ℕ × Bytes)) (line : Bytes)
    → All (λ l. P l.1) ls
    → find_reason s ls ≡ some line
    → P line
find_reason-All P s [] line a h = absurd (ground arith)
find_reason-All P s ((n, l) ∷ ls) line a h = elim (Bool-cases (s == n)) [
  | inl e ↦ let q : l ≡ line = ground arith in subst P q a.0
  | inr e ↦ find_reason-All P s ls line a.1 (ground arith)
]

first_of : ℤ → Option Bytes → Formatting Bytes
first_of s o = elim o [ some line ↦ hdr_append line [] | none ↦ printed s ]

with_version : Option Bytes → Option Bytes
with_version o = elim o [ none ↦ none | some line ↦ some (codes "HTTP/1.1 " ++ (line ++ crlf)) ]

words : ℤ → Option Bytes → Bytes
words s o = elim o [ none ↦ show_int s ++ codes " Unknown" | some line ↦ line ]

from_reason :
    (s : ℤ) (o : Option Bytes)
    → IsInt s
    → ((line : Bytes) → o ≡ some line → length line < 100)
    → first_of s (with_version o) ≡ fit ((codes "HTTP/1.1 " ++ words s o) ++ crlf)
unfolding first_of with_version words
from_reason s none h l = printed_lem s h
from_reason s (some line) h l =
    let short = l line refl in
    hdr_append-Appends (codes "HTTP/1.1 " ++ (line ++ crlf))
      (ground (arith, length-append line crlf)) [] (omega arith)

pub write_status_lem : (s : ℤ) → IsInt s → write_status s ≡ fit (status_text s)
unfolding write_status status_line printed first_of with_version words
write_status_lem (pos n) h =
    ap (first_of (pos n)) (find_status_lem n status_lines)
    ∙ from_reason (pos n) (find_reason n status_lines) h
        (λ line. find_reason-All (λ l. length l < 100) n status_lines line status_lines-short)
write_status_lem (negsuc n) h = printed_lem (negsuc n) h

all_write :
    (items : List Item) (fields : List Field)
    → All2 Reads items fields
    → All2 (Writes append_asgi_header) items fields
all_write [] [] h = tt
all_write [] (f ∷ fs) h = h
all_write (i ∷ is) [] h = h
all_write (i ∷ is) (f ∷ fs) h = (append_asgi_header-Writes i f h.0, all_write is fs h.1)

-- If every item of the list is a pair of bytes, of whatever length and in whatever sequence, and
-- the status is an int, format_response_asgi() writes exactly the status line, the lines of the
-- headers, the two automatic lines that the application did not give, and the empty line, if these
-- fit RESP_HDR_SIZE bytes, and otherwise returns -1.
pub format_response_asgi_lem :
    (status : ℤ) (headers : List Item) (fields : List Field) (body : Object) (keep_alive : Bool)
    → IsInt status
    → All2 Reads headers fields
    → body_length body < 2 ^ 64
    → format_response_asgi status headers body keep_alive
      ≡ fit (render (status_text status) fields (body_length body) keep_alive)
unfolding format_response_asgi
format_response_asgi_lem status headers fields body k h r b =
    ap
      (λ x.
        (x >>= (λ hdr.
          append_each append_asgi_header headers
            (record { hdr = hdr; have_content_length = false; have_connection = false })))
        >>= finish_head (body_length body) k)
      (write_status_lem status h)
    ∙ head_lem append_asgi_header headers fields (status_text status) (body_length body) k
        (all_write headers fields r) b
