-- ===== src/Environ/Dict.antt =====
-- The dicts of freastal/src/wsgi.c: strings to the values that the server puts in the environ.
use freastal.Prelude.{
  ℕ, ◌+◌, ◌≡◌, refl, ap, Bool, true, Option, none, some, List, [], ◌∷◌, Bytes, length, bytes_eq,
  bytes_eq_sound, bytes_eq_refl, if◌then◌else◌, arith,
}

pub data Value : Type 0 where
  text : Bytes → Value
  py_none : Value
  py_bool : Bool → Value
  py_version : ℕ → ℕ → Value
  stderr : Value
  -- a BytesIO of these bytes
  input : Bytes → Value

abbrev pub Environ : Type 0
Environ = List (Bytes × Value)

unfoldable pub lookup : Bytes → Environ → Option Value
lookup k [] = none
lookup k ((j, w) ∷ d) = let rest = lookup k d in if bytes_eq k j then some w else rest

-- PyDict_SetItem()
unfoldable pub set_item : Bytes → Value → Environ → Environ
set_item k v [] = (k, v) ∷ []
set_item k v ((j, w) ∷ d) =
    let rest = set_item k v d in if bytes_eq k j then (j, v) ∷ d else (j, w) ∷ rest

-- PyDict_DelItem()
unfoldable pub del_item : Bytes → Environ → Environ
del_item k [] = []
del_item k ((j, w) ∷ d) = let rest = del_item k d in if bytes_eq k j then d else (j, w) ∷ rest

-- PyDict_SetDefault(): the value that stands there, and the dict.
unfoldable pub set_default : Bytes → Value → Environ → Value × Environ
unfolding lookup set_item
set_default k v d = elim (lookup k d) [ some w ↦ (w, d) | none ↦ (v, set_item k v d) ]

bytes_eq_trans : (a b c : Bytes) → bytes_eq a b ≡ true → bytes_eq c a ≡ bytes_eq c b
bytes_eq_trans a b c h = ap (bytes_eq c) (bytes_eq_sound a b h)

bytes_eq-left : (a b c : Bytes) → bytes_eq a b ≡ true → bytes_eq a c ≡ bytes_eq b c
bytes_eq-left a b c h = ap (λ x. bytes_eq x c) (bytes_eq_sound a b h)

pub lookup-set_item :
    (j k : Bytes) (v : Value) (d : Environ)
    → lookup j (set_item k v d) ≡ (if bytes_eq j k then some v else lookup j d)
unfolding lookup set_item
lookup-set_item j k v [] = refl
lookup-set_item j k v ((i, w) ∷ d) =
    ground (arith, lookup-set_item j k v d, bytes_eq_trans k i j, bytes_eq-left j k i)

pub length-set_item :
    (k : Bytes) (v : Value) (d : Environ)
    → lookup k d ≡ none
    → length (set_item k v d) ≡ length d + 1
unfolding lookup set_item
length-set_item k v [] h = refl
length-set_item k v ((i, w) ∷ d) h = ground (arith, length-set_item k v d)

-- A key that was not there leaves no trace.
pub del_item-set_item :
    (k : Bytes) (v : Value) (d : Environ) → lookup k d ≡ none → del_item k (set_item k v d) ≡ d
unfolding lookup set_item del_item
del_item-set_item k v [] h = rw (bytes_eq_refl k) refl
del_item-set_item k v ((i, w) ∷ d) h = ground (arith, del_item-set_item k v d)

pub set_default-new :
    (k : Bytes) (v : Value) (d : Environ)
    → lookup k d ≡ none
    → set_default k v d ≡ (v, set_item k v d)
unfolding set_default
set_default-new k v d h = rw (h, set_default) refl

pub set_default-old :
    (k : Bytes) (v w : Value) (d : Environ) → lookup k d ≡ some w → set_default k v d ≡ (w, d)
unfolding set_default
set_default-old k v w d h = rw (h, set_default) refl
