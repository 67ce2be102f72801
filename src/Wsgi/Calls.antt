-- ===== src/Wsgi/Calls.antt =====
-- freastal/src/wsgi.c: what the calls of start_response leave.
use freastal.Prelude.{
  ◌^◌, ◌<◌, ◌≡◌, subst, ap, ◌⊎◌, inl, inr, true, Option, none, some, List, [], ◌∷◌, Bytes, All,
  length, arith,
}
use freastal.HeaderSyntax.{status_ok}
use freastal.HeaderSyntax.Grammar.{hdr_name_ok-IsInLine, hdr_value_ok-IsInLine}
use freastal.Response.{Object, str, tuple, list, sequence, no_sequence, Item, done}
use freastal.Response.Render.{Field}
use freastal.Response.Fields.{All2}
use freastal.Response.Lines.{IsFieldInLine}
use freastal.Wsgi.{Started, two_of, items_of}
use freastal.Wsgi.Head.{Reads}
use freastal.Wsgi.Start.{
  HasTexts, IsValid, IsAdmissible, stored, start_response_lem, start_response_cases,
}
use freastal.Wsgi.Application.{Call, run_calls}

-- No text of 2 GiB or more.
abbrev pub IsShortField : Field → Type 0
IsShortField (name, v) = (length name < 2 ^ 31) × (length v < 2 ^ 31)

abbrev text_of : Object → Bytes
text_of (str (some b)) = b
text_of o = []

abbrev IsShortPair : Option (Object × Object) → Type 0
IsShortPair none = Unit
IsShortPair (some (a, b)) = (length (text_of a) < 2 ^ 31) × (length (text_of b) < 2 ^ 31)

abbrev IsShortList : Option (List Item) → Type 0
IsShortList none = Unit
IsShortList (some items) = All (λ i. IsShortPair (two_of i)) items

abbrev pub IsShort : Call → Type 0
IsShort c = (length (text_of c.status) < 2 ^ 31) × IsShortList c.headers

short_fields :
    (items : List Item) (fields : List Field)
    → All2 HasTexts items fields
    → IsShortList (some items)
    → All IsShortField fields
short_fields [] [] h s = tt
short_fields [] (f ∷ fs) h s = absurd (ground arith)
short_fields (i ∷ is) [] h s = absurd (ground arith)
short_fields (i ∷ is) ((name, v) ∷ fs) h s = (subst IsShortPair h.0 s.0, short_fields is fs h.1 s.1)

-- What start_response has stored.
abbrev pub HasStored : Started → Bytes → List Field → Type 0
HasStored st status fields =
    (st.resp_status ≡ some (str (some status)))
    × ((items : List Item) × (st.resp_pyheaders ≡ some items) × All2 HasTexts items fields)
    × (status_ok status ≡ true)
    × All IsValid fields
    × (length status < 2 ^ 31)
    × All IsShortField fields

abbrev pub IsFine : Started → Type 0
IsFine st =
    (st.resp_status ≡ none)
    ⊎ ((status : Bytes) × (fields : List Field) × HasStored st status fields)

call-IsFine :
    (c : Call) (st : Started)
    → IsShort c
    → IsAdmissible c.status c.headers c.exc_info st
    → IsFine (stored c.status c.headers)
call-IsFine c st h ((s, e, ok), (items, f, (fields, t, v)), once) =
    let short : length s < 2 ^ 31 = subst (λ o. length (text_of o) < 2 ^ 31) e h.0 in
    let list = subst IsShortList f h.1 in
    inr (s, fields, (ap some e, (items, f, t), ok, v, short, short_fields items fields t list))

pub run_calls-IsFine :
    (cs : List Call) (st : Started) → All IsShort cs → IsFine st → IsFine (run_calls cs st)
unfolding run_calls
run_calls-IsFine [] st h f = f
run_calls-IsFine (c ∷ cs) st h f = elim (start_response_cases c.status c.headers c.exc_info st) [
  | inl (e, p) ↦ rw (p, run_calls) (run_calls-IsFine cs st h.1 f)
  | inr p ↦
      rw (p, run_calls)
        (run_calls-IsFine cs (stored c.status c.headers) h.1
          (call-IsFine c st h.0 ((start_response_lem c.status c.headers c.exc_info st).0 p)))
]

two_of-items_of : (i : Item) (a b : Object) → two_of i ≡ some (a, b) → items_of i ≡ done (a, b)
unfolding two_of items_of
two_of-items_of (tuple []) a b h = absurd (ground arith)
two_of-items_of (tuple (x ∷ [])) a b h = absurd (ground arith)
two_of-items_of (tuple (x ∷ y ∷ [])) a b h = ground arith
two_of-items_of (tuple (x ∷ y ∷ z ∷ os)) a b h = absurd (ground arith)
two_of-items_of (list []) a b h = absurd (ground arith)
two_of-items_of (list (x ∷ [])) a b h = absurd (ground arith)
two_of-items_of (list (x ∷ y ∷ [])) a b h = ground arith
two_of-items_of (list (x ∷ y ∷ z ∷ os)) a b h = absurd (ground arith)
two_of-items_of (sequence os) a b h = absurd (ground arith)
two_of-items_of no_sequence a b h = absurd (ground arith)

pub HasTexts-Reads :
    (items : List Item) (fields : List Field)
    → All2 HasTexts items fields
    → All IsShortField fields
    → All2 Reads items fields
HasTexts-Reads [] [] h s = tt
HasTexts-Reads [] (f ∷ fs) h s = h
HasTexts-Reads (i ∷ is) [] h s = h
HasTexts-Reads (i ∷ is) ((name, v) ∷ fs) h s =
    ((two_of-items_of i _ _ h.0, s.0.0, s.0.1), HasTexts-Reads is fs h.1 s.1)

pub valid-IsFieldInLine : (fields : List Field) → All IsValid fields → All IsFieldInLine fields
valid-IsFieldInLine [] h = tt
valid-IsFieldInLine ((name, v) ∷ fs) h =
    ((hdr_name_ok-IsInLine name h.0.0, hdr_value_ok-IsInLine v h.0.1), valid-IsFieldInLine fs h.1)
