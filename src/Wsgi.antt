-- ===== src/Wsgi.antt =====
-- freastal/src/wsgi.c: the start_response callable, the collection of the body and the formatter.
-- Python objects that memory fails for are not modelled.
pub mod Head
pub mod Start
pub mod Body
pub mod Application
pub mod Calls
pub mod Outcome
pub mod Tests
use freastal.Prelude.{
  ℕ, ◌+◌, Bool, true, false, not, ◌&&◌, ◌||◌, ◌⊎◌, inl, inr, Option, none, some, List, [], ◌∷◌,
  ◌++◌, map, Bytes, length, if◌then◌else◌,
}
use freastal.Ascii.{codes}
use freastal.HeaderSyntax.{hdr_name_ok, hdr_value_ok, status_ok}
use freastal.Response.{
  Exception, type_error, value_error, runtime_error, unicode_error, chunk, Object, str, bytes,
  bytes_subclass, other, Item, tuple, list, sequence, no_sequence, Formatting, done, refused, fault,
  ◌>>=◌, hdr_append, crlf, colon_space, Writer, note_name, finish_head, append_each,
}

-- What start_response keeps in the client: resp_status, and resp_pyheaders as it is at the time.
pub record Started : Type 0 where
  pub resp_status : Option Object
  pub resp_pyheaders : Option (List Item)

-- PyUnicode_AsUTF8AndSize(), which is NULL on what is no str.
unfoldable pub utf8 : Object → Option Bytes
utf8 (str text) = text
utf8 o = none

-- A 2-item tuple or list.
unfoldable pub two_of : Item → Option (Object × Object)
two_of (tuple (a ∷ b ∷ [])) = some (a, b)
two_of (list (a ∷ b ∷ [])) = some (a, b)
two_of i = none

-- The tests on a name and a value; none if they pass.
unfoldable pub check_texts : Option Bytes → Option Bytes → Option Exception
check_texts (some name) (some v) =
    if not (hdr_name_ok name)
    then some value_error
    else if not (hdr_value_ok v)
    then some value_error
    else none
check_texts name v = some unicode_error

unfoldable pub check_objects : Object → Object → Option Exception
check_objects (str name) (str v) = check_texts name v
check_objects name v = some type_error

unfoldable pub check_header : Item → Option Exception
check_header i = elim (two_of i) [ none ↦ some type_error | some (name, v) ↦ check_objects name v ]

unfoldable pub check_headers : List Item → Option Exception
check_headers [] = none
check_headers (i ∷ is) =
    let rest = check_headers is in elim (check_header i) [ some e ↦ some e | none ↦ rest ]

unfoldable pub check_status : Option Bytes → Option Exception
check_status none = some unicode_error
check_status (some s) = if not (status_ok s) then some value_error else none

-- The tests and the stores, for a status that is a str. Headers that are no list are none.
unfoldable pub start_checked : Option Bytes → Option (List Item) → Exception ⊎ Started
start_checked status none = inl type_error
start_checked status (some headers) = elim (check_status status) [
  | some e ↦ inl e
  | none ↦ elim (check_headers headers) [
    | some e ↦ inl e
    | none ↦ inr (record { resp_status = some (str status); resp_pyheaders = some headers })
  ]
]

-- StartResponse_call(): exc_info tells whether it is given and not None.
unfoldable pub start_response : Object → Option (List Item) → Bool → Started → Exception ⊎ Started
start_response (str status) headers exc_info st = elim st.resp_status [
  | none ↦ start_checked status headers
  | some o ↦ if exc_info then inl runtime_error else start_checked status headers
]
start_response status headers exc_info st = inl type_error

-- What calling an iterator gives: an object, an exception, or StopIteration. A list of answers is an
-- iterator that, from its end on, gives NULL with no exception.
pub data Next : Type 0 where
  yields : Object → Next
  raises stops : Next

-- PyIter_Next(), with the exception that is set before and after.
unfoldable pub py_iter_next : Bool → List Next → Option Object × Bool × List Next
py_iter_next err [] = (none, err, [])
py_iter_next err (yields o ∷ is) = (some o, err, is)
py_iter_next err (raises ∷ is) = (none, true, is)
py_iter_next err (stops ∷ is) = (none, false, is)

-- What an application returns: an exact list, or an object with its iterator, if it has one.
pub data Iterable : Type 0 where
  exact_list : List Object → Iterable
  iterable : Option (List Next) → Iterable

-- The loop that appends to the list; it ends by the end of the answers at the latest.
unfoldable pub rest_of : Bool → List Next → List Object × Bool
rest_of err [] = ([], err)
rest_of err (yields o ∷ is) = let r = rest_of err is in (o ∷ r.0, r.1)
rest_of err (raises ∷ is) = ([], true)
rest_of err (stops ∷ is) = ([], false)

-- The two loops over the list: the check with the total, and the copies.
unfoldable pub join : List Object → Option Bytes
join [] = some []
join (o ∷ os) =
    let rest = join os in
    elim (chunk o) [ none ↦ none | some b ↦ elim rest [ none ↦ none | some bs ↦ some (b ++ bs) ] ]

unfoldable pub collect_chunks : Object → Option Object → Bool → List Next → Option Bytes
unfolding rest_of
collect_chunks first none false is = chunk first
collect_chunks first none true is =
    let r = rest_of true is in if r.1 then none else join (first ∷ r.0)
collect_chunks first (some second) err is =
    let r = rest_of err is in if r.1 then none else join (first ∷ second ∷ r.0)

unfoldable pub collect_iterator : List Next → Option Bytes
unfolding py_iter_next collect_chunks
collect_iterator is =
    let (first, err, is') = py_iter_next false is in
    elim first [
      | none ↦ if err then none else some []
      | some o ↦
          let (second, err', is'') = py_iter_next err is' in collect_chunks o second err' is''
    ]

-- The body, or none with an exception set.
unfoldable pub collect_body : Iterable → Option Bytes
unfolding collect_iterator
collect_body (exact_list (bytes b ∷ [])) = some b
collect_body (exact_list os) = collect_iterator (map yields os)
collect_body (iterable none) = none
collect_body (iterable (some is)) = collect_iterator is

-- PyTuple_GET_ITEM() and PyList_GET_ITEM(), which do not look at the type or the size.
unfoldable pub items_of : Item → Formatting (Object × Object)
items_of (tuple (a ∷ b ∷ os)) = done (a, b)
items_of (list (a ∷ b ∷ os)) = done (a, b)
items_of i = fault

unfoldable pub append_texts : Option Bytes → Option Bytes → Writer → Formatting Writer
append_texts (some name) (some v) w =
    let noted = note_name name w in
    hdr_append name w.hdr >>= hdr_append colon_space >>= hdr_append v >>= hdr_append crlf >>= λ hdr.
    done (record noted { hdr = hdr })
append_texts name v w = refused

unfoldable pub append_header : Item → Writer → Formatting Writer
append_header i w = items_of i >>= λ p. append_texts (utf8 p.0) (utf8 p.1) w

-- The block that goes to c->resp_hdr, for a body of so many bytes.
unfoldable pub format_response_headers : Started → Bool → ℕ → Formatting Bytes
format_response_headers st keep_alive body_len = elim st.resp_status [
  | none ↦ fault
  | some o ↦ elim (utf8 o) [
    | none ↦ refused
    | some status ↦ elim st.resp_pyheaders [
      | none ↦ fault
      | some headers ↦
          hdr_append (codes "HTTP/1.1 ") []
          >>= hdr_append status
          >>= hdr_append crlf
          >>= (λ hdr.
              append_each append_header headers
                (record { hdr = hdr; have_content_length = false; have_connection = false }))
          >>= finish_head body_len keep_alive
    ]
  ]
]
