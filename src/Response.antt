-- ===== src/Response.antt =====
-- What freastal/src/wsgi.c and asgi.c share in writing the head of a response: the bounds-checked
-- append, the lines that are added for the application, and the Python objects they are made of.
pub mod Render
pub mod Lines
pub mod Fields
use freastal.Prelude.{
  take, ℕ, ◌+◌, ◌-◌, ◌^◌, ◌%◌, Bool, true, false, not, ◌&&◌, Option, none, some, List, [], ◌∷◌,
  ◌++◌, Bytes, length, ltb, leb, ◌==◌, if◌then◌else◌,
}
use freastal.Ascii.{codes, equal_ignoring_case}
use freastal.Sizes.{resp_hdr_size}
use freastal.Decimal.{write_uint}

-- A Python object as far as the server looks at it. A str is its UTF-8 encoding, none if it has
-- none; bytes are told from an instance of a subclass of bytes.
pub data Object : Type 0 where
  str : Option Bytes → Object
  bytes bytes_subclass : Bytes → Object
  other : Object

-- What PyBytes_Check() accepts.
unfoldable pub chunk : Object → Option Bytes
chunk (bytes b) = some b
chunk (bytes_subclass b) = some b
chunk o = none

-- An element of a list of headers: a tuple, a list, another sequence, or none of them.
pub data Item : Type 0 where
  tuple list sequence : List Object → Item
  no_sequence : Item

-- What the formatters return: 0 with the bytes written, or -1. A fault is behaviour that C leaves
-- undefined.
pub data Formatting {ℓ} (A : Type ℓ) : Type ℓ where
  done : A → Formatting A
  refused fault : Formatting A

infixl 5 ◌>>=◌
abbrev pub ◌>>=◌ {ℓ κ} :
    {A : Type ℓ} {B : Type κ} → Formatting A → (A → Formatting B) → Formatting B
done a >>= f = f a
refused >>= f = refused
fault >>= f = fault

-- The exceptions that the two senders raise. A str without an encoding raises that of the codec.
pub data Exception : Type 0 where
  type_error value_error runtime_error unicode_error : Exception

-- What write_response() is called with.
pub record Reply : Type 0 where
  pub resp_hdr : Bytes
  pub resp_body : Option Bytes
  pub keep_alive : Bool

-- HDR_APPEND: `_sl` is the C `int` of the length, so a length of 2 GiB or more is negative, passes the
-- test, and makes memcpy() run out of the buffer; of 4 GiB or more the low 32 bits count. What is written so far is resp_hdr[] up to `len`.
unfoldable pub hdr_append : Bytes → Bytes → Formatting Bytes
hdr_append src hdr =
    if leb (2 ^ 31) (length src % 2 ^ 32)
    then fault
    else if ltb (resp_hdr_size - length hdr) (length src % 2 ^ 32)
    then refused
    else done (hdr ++ take (length src % 2 ^ 32) src)

abbrev pub crlf : Bytes
crlf = 13 ∷ 10 ∷ []

abbrev pub colon_space : Bytes
colon_space = codes ": "

-- What is written, and whether the application gave the two headers itself.
pub record Writer : Type 0 where
  pub hdr : Bytes
  pub have_content_length : Bool
  pub have_connection : Bool

-- The test on a header's name, made before the header is written.
unfoldable pub note_name : Bytes → Writer → Writer
note_name name w =
    if length name == 14 && equal_ignoring_case name (codes "content-length")
    then record w { have_content_length = true }
    else if length name == 10 && equal_ignoring_case name (codes "connection")
    then record w { have_connection = true }
    else w

-- write_uint() at the end of what is written.
unfoldable pub append_uint : ℕ → Bytes → Formatting Bytes
append_uint n hdr = elim (write_uint (resp_hdr_size - length hdr) n) [
  | none ↦ refused
  | some digits ↦ done (hdr ++ digits)
]

unfoldable pub append_content_length : Bool → ℕ → Bytes → Formatting Bytes
append_content_length given body_len hdr =
    if given
    then done hdr
    else hdr_append (codes "Content-Length: ") hdr >>= append_uint body_len >>= hdr_append crlf

unfoldable pub append_connection : Bool → Bool → Bytes → Formatting Bytes
append_connection given keep_alive hdr =
    if given
    then done hdr
    else if keep_alive
    then hdr_append (codes "Connection: keep-alive\r\n") hdr
    else hdr_append (codes "Connection: close\r\n") hdr

-- The end that both formatters have: the automatic headers and the empty line.
unfoldable pub finish_head : ℕ → Bool → Writer → Formatting Bytes
finish_head body_len keep_alive w =
    append_content_length w.have_content_length body_len w.hdr
    >>= append_connection w.have_connection keep_alive
    >>= hdr_append crlf

-- The loop over the list of headers.
unfoldable pub append_each :
    (Item → Writer → Formatting Writer) → List Item → Writer → Formatting Writer
append_each step [] w = done w
append_each step (i ∷ is) w = step i w >>= append_each step is
