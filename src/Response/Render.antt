-- ===== src/Response/Render.antt =====
-- The head of a response as one text, with no buffer, and the writers against it.
use freastal.Prelude.{
  take, take_all, ◌%◌, ◌^◌, ℕ, ◌^◌, ◌≤◌, ◌<◌, ◌≡◌, ap, ◌∙◌, Bool, true, false, ◌&&◌, ◌||◌, List, [],
  ◌∷◌, ◌++◌, append_assoc, append-nil, Bytes, length, length-append, leb, ◌==◌, if◌then◌else◌,
  if_cases, arith,
}
use freastal.Ascii.{codes, equal_ignoring_case}
use freastal.Sizes.{resp_hdr_size}
use freastal.Decimal.{fill_digits, write_uint}
use freastal.Decimal.Digits.{fill_digits-length}
use freastal.Response.{
  Formatting, done, refused, ◌>>=◌, hdr_append, crlf, colon_space, Writer, append_uint,
  append_content_length, append_connection, finish_head,
}

-- The text, if it fits the buffer.
abbrev pub fit : Bytes → Formatting Bytes
fit text = if leb (length text) resp_hdr_size then done text else refused

-- A writer that appends a text, to what fits.
abbrev pub Appends : (Bytes → Formatting Bytes) → Bytes → Type 0
Appends f text = (hdr : Bytes) → length hdr ≤ resp_hdr_size → f hdr ≡ fit (hdr ++ text)

pub hdr_append-Appends : (src : Bytes) → length src < 2 ^ 31 → Appends (hdr_append src) src
unfolding hdr_append
hdr_append-Appends src h hdr l =
    let whole : take (length src % 2 ^ 32) src ≡ src =
      take_all (length src % 2 ^ 32) src (ground (arith, h)) in
    ground (arith, whole, length-append hdr src)

-- One writer after another.
pub then-Appends :
    (f g : Bytes → Formatting Bytes) (a b : Bytes)
    → Appends f a
    → Appends g b
    → Appends (λ hdr. f hdr >>= g) (a ++ b)
then-Appends f g a b p q hdr l = rw (p hdr l) (
    if_cases (λ r. (r >>= g) ≡ fit (hdr ++ (a ++ b))) (leb (length (hdr ++ a)) resp_hdr_size)
      (λ s. q (hdr ++ a) (ground arith) ∙ ap fit (append_assoc hdr a b))
      λ s. ground (arith, length-append hdr a, length-append a b, length-append hdr (a ++ b)))

pub nothing-Appends : Appends done []
nothing-Appends hdr l = rw (append-nil hdr) ground arith

abbrev pub decimal : ℕ → Bytes
decimal n = fill_digits 10 n []

pub append_uint-Appends : (n : ℕ) → n < 2 ^ 64 → Appends (append_uint n) (decimal n)
unfolding append_uint write_uint
append_uint-Appends n h hdr l =
    ground (arith, length-append hdr (decimal n), fill_digits-length n h)

-- The lines that are added.
abbrev pub content_length_line : Bool → ℕ → Bytes
content_length_line given n = if given then [] else (codes "Content-Length: " ++ decimal n) ++ crlf

abbrev pub connection_line : Bool → Bool → Bytes
connection_line given keep_alive =
    if given
    then []
    else if keep_alive
    then codes "Connection: keep-alive\r\n"
    else codes "Connection: close\r\n"

abbrev pub end_of_head : Bool → Bool → ℕ → Bool → Bytes
end_of_head cl conn n keep_alive =
    (content_length_line cl n ++ connection_line conn keep_alive) ++ crlf

-- A header as a line, and the headers of the application.
abbrev pub Field : Type 0
Field = Bytes × Bytes

abbrev pub field_line : Field → Bytes
field_line (name, v) = ((name ++ colon_space) ++ v) ++ crlf

abbrev pub field_lines : List Field → Bytes
field_lines [] = []
field_lines (f ∷ fs) = field_line f ++ field_lines fs

-- The name, whatever its case.
abbrev pub is_content_length : Bytes → Bool
is_content_length name = length name == 14 && equal_ignoring_case name (codes "content-length")

abbrev pub is_connection : Bytes → Bool
is_connection name = length name == 10 && equal_ignoring_case name (codes "connection")

abbrev pub any_name : (Bytes → Bool) → List Field → Bool
any_name p [] = false
any_name p ((name, v) ∷ fs) = p name || any_name p fs

-- The whole head.
abbrev pub render : Bytes → List Field → ℕ → Bool → Bytes
render first_line fields n keep_alive =
    (first_line ++ field_lines fields)
    ++ end_of_head (any_name is_content_length fields) (any_name is_connection fields) n keep_alive

pub append_content_length-Appends :
    (given : Bool) (body_len : ℕ)
    → body_len < 2 ^ 64
    → Appends (append_content_length given body_len) (content_length_line given body_len)
unfolding append_content_length
append_content_length-Appends true n h = nothing-Appends
append_content_length-Appends false n h =
    then-Appends _ (hdr_append crlf) (codes "Content-Length: " ++ decimal n) crlf
      (then-Appends _ (append_uint n) (codes "Content-Length: ") (decimal n)
        (hdr_append-Appends (codes "Content-Length: ") (ground arith)) (append_uint-Appends n h))
      (hdr_append-Appends crlf (ground arith))

pub append_connection-Appends :
    (given keep_alive : Bool)
    → Appends (append_connection given keep_alive) (connection_line given keep_alive)
unfolding append_connection
append_connection-Appends true k = nothing-Appends
append_connection-Appends false true =
    hdr_append-Appends (codes "Connection: keep-alive\r\n") (ground arith)
append_connection-Appends false false =
    hdr_append-Appends (codes "Connection: close\r\n") (ground arith)

pub finish_head-lem :
    (body_len : ℕ) (keep_alive : Bool) (w : Writer)
    → body_len < 2 ^ 64
    → length w.hdr ≤ resp_hdr_size
    → finish_head body_len keep_alive w
      ≡ fit (w.hdr ++ end_of_head w.have_content_length w.have_connection body_len keep_alive)
unfolding finish_head
finish_head-lem n k w h l =
    then-Appends _ (hdr_append crlf)
      (content_length_line w.have_content_length n ++ connection_line w.have_connection k) crlf
      (then-Appends _ (append_connection w.have_connection k)
        (content_length_line w.have_content_length n) (connection_line w.have_connection k)
        (append_content_length-Appends w.have_content_length n h)
        (append_connection-Appends w.have_connection k))
      (hdr_append-Appends crlf (ground arith)) w.hdr l
