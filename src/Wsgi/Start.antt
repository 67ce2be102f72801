-- ===== src/Wsgi/Start.antt =====
-- freastal/src/wsgi.c, StartResponse_call(): what it accepts and what it stores.
use freastal.Prelude.{
  ◌≡◌, ◌↔◌, refl, ap, ◌∙◌, ◌⊎◌, inl, inr, Bool, true, false, Option, none, some, List, [], ◌∷◌,
  Bytes, All, Option-cases, if_cases, if◌then◌else◌, arith,
}
use freastal.HeaderSyntax.{hdr_name_ok, hdr_value_ok, status_ok}
use freastal.Response.{
  Exception, type_error, runtime_error, Object, str, bytes, bytes_subclass, other, Item,
}
use freastal.Response.Render.{Field}
use freastal.Response.Fields.{All2}
use freastal.Wsgi.{
  Started, utf8, two_of, check_texts, check_objects, check_header, check_headers, check_status,
  start_checked, start_response,
}

-- A header that is a pair of texts that the grammar allows.
abbrev pub HasTexts : Item → Field → Type 0
HasTexts i (name, v) = two_of i ≡ some (str (some name), str (some v))

abbrev pub IsValid : Field → Type 0
IsValid (name, v) = (hdr_name_ok name ≡ true) × (hdr_value_ok v ≡ true)

-- The headers are pairs of texts that the grammar allows.
abbrev pub AreValid : List Item → Type 0
AreValid items = (fields : List Field) × All2 HasTexts items fields × All IsValid fields

check_texts_lem :
    (name v : Option Bytes)
    → (check_texts name v ≡ none) ↔ ((f : Field) × (name ≡ some f.0) × (v ≡ some f.1) × IsValid f)
unfolding check_texts
check_texts_lem none v = (λ h. absurd (ground arith), λ h. absurd (ground arith))
check_texts_lem (some n) none = (λ h. absurd (ground arith), λ h. absurd (ground arith))
check_texts_lem (some n) (some v) = (λ h. ((n, v), refl, refl, ground arith), λ h. ground arith)

-- The objects are two texts.
abbrev AreTexts : Object → Object → Field → Type 0
AreTexts a b (name, v) = (a ≡ str (some name)) × (b ≡ str (some v))

check_objects_lem :
    (a b : Object) → (check_objects a b ≡ none) ↔ ((f : Field) × AreTexts a b f × IsValid f)
unfolding check_objects utf8
check_objects_lem (str n) (str v) = (
  λ h. let (f, e, g, k) = (check_texts_lem n v).0 h in (f, (ap str e, ap str g), k),
  λ h. let (f, (e, g), k) = h in (check_texts_lem n v).1 (f, ap utf8 e, ap utf8 g, k),
)
check_objects_lem (str n) (bytes b) = ground arith
check_objects_lem (str n) (bytes_subclass b) = ground arith
check_objects_lem (str n) other = ground arith
check_objects_lem (bytes b) v = ground arith
check_objects_lem (bytes_subclass b) v = ground arith
check_objects_lem other v = ground arith

two_lem :
    (o : Option (Object × Object))
    → (elim o [ none ↦ some type_error | some (a, b) ↦ check_objects a b ] ≡ none)
      ↔ ((f : Field) × (o ≡ some (str (some f.0), str (some f.1))) × IsValid f)
two_lem none = (λ h. absurd (ground arith), λ h. absurd (ground arith))
two_lem (some (a, b)) = (
  λ h.
      let (f, (p, q), k) = (check_objects_lem a b).0 h in
      (f, (ap (λ o. some (o, b)) p ∙ ap (λ o. some (str (some f.0), o)) q), k),
  λ h.
      let (f, q, k) = h in
      (check_objects_lem a b).1 (
        f,
        (
          ap (λ o. elim o [ none ↦ a | some p ↦ p.0 ]) q,
          ap (λ o. elim o [ none ↦ b | some p ↦ p.1 ]) q,
        ),
        k,
      ),
)

check_header_lem : (i : Item) → (check_header i ≡ none) ↔ ((f : Field) × HasTexts i f × IsValid f)
unfolding check_header
check_header_lem i = two_lem (two_of i)

both_none :
    (a b : Option Exception)
    → (elim a [ some e ↦ some e | none ↦ b ] ≡ none) ↔ ((a ≡ none) × (b ≡ none))
both_none none b = ground arith
both_none (some e) b = ground arith

first_header :
    (i : Item) (is : List Item)
    → AreValid (i ∷ is)
    → ((f : Field) × HasTexts i f × IsValid f) × AreValid is
first_header i is ([], t, k) = absurd (ground arith)
first_header i is (f ∷ fs, t, k) = ((f, t.0, k.0), (fs, t.1, k.1))

check_headers_lem : (items : List Item) → (check_headers items ≡ none) ↔ AreValid items
unfolding check_headers
check_headers_lem [] = (λ h. ([], tt, tt), λ h. refl)
check_headers_lem (i ∷ is) = (
  λ h.
      let (p, q) = (both_none (check_header i) (check_headers is)).0 h in
      let (f, t, k) = (check_header_lem i).0 p in
      let (fs, ts, ks) = (check_headers_lem is).0 q in (f ∷ fs, (t, ts), (k, ks)),
  λ h.
      (both_none (check_header i) (check_headers is)).1 (
        let (f, v) = first_header i is h in ((check_header_lem i).1 f, (check_headers_lem is).1 v)),
)

check_status_lem :
    (s : Option Bytes)
    → (check_status s ≡ none) ↔ ((t : Bytes) × (s ≡ some t) × (status_ok t ≡ true))
unfolding check_status
check_status_lem none = (λ h. absurd (ground arith), λ h. absurd (ground arith))
check_status_lem (some t) = (λ h. (t, refl, ground arith), λ h. ground arith)

-- What start_response accepts.
abbrev pub IsAdmissible : Object → Option (List Item) → Bool → Started → Type 0
IsAdmissible status headers exc_info st =
    ((s : Bytes) × (status ≡ str (some s)) × (status_ok s ≡ true))
    × ((items : List Item) × (headers ≡ some items) × AreValid items)
    × ((exc_info ≡ false) ⊎ (st.resp_status ≡ none))

-- The state with the two stores.
abbrev pub stored : Object → Option (List Item) → Started
stored status headers = record { resp_status = some status; resp_pyheaders = headers }

pass : Option Exception → Option Exception → Started → Exception ⊎ Started
pass a b st = elim a [ some e ↦ inl e | none ↦ elim b [ some e ↦ inl e | none ↦ inr st ] ]

both_pass :
    (a b : Option Exception) (st : Started) → (pass a b st ≡ inr st) ↔ ((a ≡ none) × (b ≡ none))
unfolding pass
both_pass none none st = ground arith
both_pass none (some e) st = ground arith
both_pass (some e) b st = ground arith

start_checked_lem :
    (status : Option Bytes) (headers : Option (List Item))
    → (start_checked status headers ≡ inr (stored (str status) headers)) ↔ (
        ((s : Bytes) × (status ≡ some s) × (status_ok s ≡ true))
        × ((items : List Item) × (headers ≡ some items) × AreValid items))
unfolding start_checked pass
start_checked_lem s none = (λ h. absurd (ground arith), λ h. absurd (ground arith))
start_checked_lem s (some items) =
    let b = both_pass (check_status s) (check_headers items) (stored (str s) (some items)) in
    (
      λ h. ((check_status_lem s).0 (b.0 h).0, (items, refl, (check_headers_lem items).0 (b.0 h).1)),
      λ h.
          let ((t, e, ok), (items', f, v)) = h in
          b.1 (
            (check_status_lem s).1 (t, e, ok),
            (check_headers_lem items).1 (
                let g : items ≡ items' = ap (λ o. elim o [ none ↦ items | some x ↦ x ]) f in
                rw g v),
          ),
    )

not_twice : Option Object → Bool → Exception ⊎ Started → Exception ⊎ Started
not_twice o exc r = elim o [ none ↦ r | some p ↦ if exc then inl runtime_error else r ]

not_twice_lem :
    (o : Option Object) (exc : Bool) (r : Exception ⊎ Started) (st : Started)
    → (not_twice o exc r ≡ inr st) ↔ ((r ≡ inr st) × ((exc ≡ false) ⊎ (o ≡ none)))
unfolding not_twice
not_twice_lem none exc r st = ground arith
not_twice_lem (some p) true r st = (λ h. absurd (ground arith), λ h. absurd (ground arith))
not_twice_lem (some p) false r st = ground arith

-- start_response stores the status and the list of headers it is given just if the status is a str
-- that freastal_status_ok() accepts, the headers are a list of exact 2-item tuples or lists of two
-- str, a valid name and a valid value, and either exc_info is not given or no status is stored yet.
pub start_response_lem :
    (status : Object) (headers : Option (List Item)) (exc_info : Bool) (st : Started)
    → (start_response status headers exc_info st ≡ inr (stored status headers))
      ↔ IsAdmissible status headers exc_info st
unfolding start_response not_twice utf8
start_response_lem (str s) headers exc st =
    let n = not_twice_lem st.resp_status exc (start_checked s headers) (stored (str s) headers) in
    (
      λ h.
          let (r, once) = n.0 h in
          let ((t, e, ok), v) = (start_checked_lem s headers).0 r in ((t, ap str e, ok), v, once),
      λ h.
          let ((t, e, ok), v, once) = h in
          n.1 ((start_checked_lem s headers).1 ((t, ap utf8 e, ok), v), once),
    )
start_response_lem (bytes b) headers exc st =
    (λ h. absurd (ground arith), λ h. absurd (ground arith))
start_response_lem (bytes_subclass b) headers exc st =
    (λ h. absurd (ground arith), λ h. absurd (ground arith))
start_response_lem other headers exc st = (λ h. absurd (ground arith), λ h. absurd (ground arith))

pass_cases :
    (a b : Option Exception) (st : Started)
    → ((e : Exception) × (pass a b st ≡ inl e)) ⊎ (pass a b st ≡ inr st)
unfolding pass
pass_cases (some e) b st = inl (e, refl)
pass_cases none (some e) st = inl (e, refl)
pass_cases none none st = inr refl

start_checked_cases :
    (status : Option Bytes) (headers : Option (List Item))
    → ((e : Exception) × (start_checked status headers ≡ inl e))
      ⊎ (start_checked status headers ≡ inr (stored (str status) headers))
unfolding start_checked pass
start_checked_cases s none = inl (type_error, refl)
start_checked_cases s (some items) =
    pass_cases (check_status s) (check_headers items) (stored (str s) (some items))

pub start_response_cases :
    (status : Object) (headers : Option (List Item)) (exc_info : Bool) (st : Started)
    → ((e : Exception) × (start_response status headers exc_info st ≡ inl e))
      ⊎ (start_response status headers exc_info st ≡ inr (stored status headers))
unfolding start_response
start_response_cases (str s) headers exc st = elim (Option-cases st.resp_status) [
  | inl n ↦ rw n (start_checked_cases s headers)
  | inr (o, n) ↦ rw n (
      if_cases (λ r. ((e : Exception) × (r ≡ inl e)) ⊎ (r ≡ inr (stored (str s) headers))) exc
        (λ t. inl (runtime_error, refl)) (λ t. start_checked_cases s headers))
]
start_response_cases (bytes b) headers exc st = inl (type_error, refl)
start_response_cases (bytes_subclass b) headers exc st = inl (type_error, refl)
start_response_cases other headers exc st = inl (type_error, refl)
