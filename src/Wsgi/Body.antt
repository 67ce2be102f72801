-- ===== src/Wsgi/Body.antt =====
-- freastal/src/wsgi.c, collect_body(): the body against the chunks.
use freastal.Prelude.{
  ◌≡◌, refl, sym, ap, ◌∙◌, Bool, true, false, Option, none, some, List, [], ◌∷◌, ◌++◌, map,
  append-nil, length, ◌==◌, Bytes, if◌then◌else◌, arith,
}
use freastal.Response.{chunk, Object, bytes, bytes_subclass, str, other}
use freastal.Wsgi.{
  Next, yields, raises, stops, py_iter_next, exact_list, iterable, rest_of, join, collect_chunks,
  collect_iterator, collect_body,
}

-- How an iteration may end: by StopIteration, by an exception, or with nothing more.
abbrev pub ends : Option Bool → List Next
ends none = []
ends (some true) = raises ∷ []
ends (some false) = stops ∷ []

abbrev pub is_raised : Option Bool → Bool
is_raised none = false
is_raised (some b) = b

rest_of-ends :
    (os : List Object) (e : Option Bool)
    → rest_of false (map yields os ++ ends e) ≡ (os, is_raised e)
unfolding rest_of
rest_of-ends [] none = refl
rest_of-ends [] (some true) = refl
rest_of-ends [] (some false) = refl
rest_of-ends (o ∷ os) e = rw (rest_of-ends os e) refl

rest_of-raises :
    (os : List Object) (more : List Next)
    → rest_of false (map yields os ++ (raises ∷ more)) ≡ (os, true)
unfolding rest_of
rest_of-raises [] more = refl
rest_of-raises (o ∷ os) more = rw (rest_of-raises os more) refl

-- The contents of the chunks, if every object is one, and their concatenation.
abbrev pub all_chunks : List Object → Option (List Bytes)
all_chunks [] = some []
all_chunks (o ∷ os) = elim (chunk o) [
  | none ↦ none
  | some b ↦ elim (all_chunks os) [ none ↦ none | some bs ↦ some (b ∷ bs) ]
]

abbrev pub concat : List Bytes → Bytes
concat [] = []
concat (b ∷ bs) = b ++ concat bs

abbrev pub body_of : List Object → Option Bytes
body_of os = elim (all_chunks os) [ none ↦ none | some bs ↦ some (concat bs) ]

join_lem : (os : List Object) → join os ≡ body_of os
unfolding join
join_lem [] = refl
join_lem (o ∷ os) = ground (arith, join_lem os)

join_one : (o : Object) → join (o ∷ []) ≡ chunk o
unfolding join chunk
join_one (str t) = refl
join_one (bytes b) = ap some (append-nil b)
join_one (bytes_subclass b) = ap some (append-nil b)
join_one other = refl

collect_iterator_lem :
    (os : List Object) (e : Option Bool)
    → collect_iterator (map yields os ++ ends e) ≡ (if is_raised e then none else join os)
unfolding collect_iterator py_iter_next collect_chunks rest_of join
collect_iterator_lem [] none = refl
collect_iterator_lem [] (some true) = refl
collect_iterator_lem [] (some false) = refl
collect_iterator_lem (o ∷ []) none = sym (join_one o)
collect_iterator_lem (o ∷ []) (some true) = refl
collect_iterator_lem (o ∷ []) (some false) = sym (join_one o)
collect_iterator_lem (o ∷ p ∷ os) none = rw (rest_of-ends os none) refl
collect_iterator_lem (o ∷ p ∷ os) (some true) = rw (rest_of-ends os (some true)) refl
collect_iterator_lem (o ∷ p ∷ os) (some false) = rw (rest_of-ends os (some false)) refl

-- What an iterator that raises once and stops at the next call comes to.
swallow_lem :
    (os : List Object) (more : List Next)
    → collect_iterator (map yields os ++ (raises ∷ stops ∷ more))
      ≡ (if length os == 1 then join os else none)
unfolding collect_iterator py_iter_next collect_chunks rest_of join
swallow_lem [] more = refl
swallow_lem (o ∷ []) more = refl
swallow_lem (o ∷ p ∷ os) more = rw (rest_of-raises os (stops ∷ more)) (ground arith)

iterate_lem : (os : List Object) → collect_iterator (map yields os) ≡ join os
iterate_lem os =
    ap collect_iterator (sym (append-nil (map yields os))) ∙ collect_iterator_lem os none

collect_list_lem : (os : List Object) → collect_body (exact_list os) ≡ join os
unfolding collect_body chunk
collect_list_lem [] = iterate_lem []
collect_list_lem (str t ∷ []) = iterate_lem (str t ∷ [])
collect_list_lem (bytes b ∷ []) = sym (join_one (bytes b))
collect_list_lem (bytes_subclass b ∷ []) = iterate_lem (bytes_subclass b ∷ [])
collect_list_lem (other ∷ []) = iterate_lem (other ∷ [])
collect_list_lem (str t ∷ p ∷ os) = iterate_lem (str t ∷ p ∷ os)
collect_list_lem (bytes b ∷ p ∷ os) = iterate_lem (bytes b ∷ p ∷ os)
collect_list_lem (bytes_subclass b ∷ p ∷ os) = iterate_lem (bytes_subclass b ∷ p ∷ os)
collect_list_lem (other ∷ p ∷ os) = iterate_lem (other ∷ p ∷ os)

-- Whether the objects come in an exact list or from an iterator that then stops or just ends,
-- collect_body() gives the concatenation of their contents if all of them are bytes, and none if
-- one is not. It gives none if the iterator raises after them and just ends from then on. If it
-- raises after them and stops at the next call, it gives none too, but for a single object: that is
-- the body then if it is bytes, and the exception is lost.
pub collect_body_lem :
    (os : List Object) (e : Option Bool) (more : List Next)
    → (collect_body (exact_list os) ≡ body_of os)
      × (collect_body (iterable (some (map yields os ++ ends e)))
          ≡ (if is_raised e then none else body_of os))
      × (collect_body (iterable (some (map yields os ++ (raises ∷ stops ∷ more))))
          ≡ (if length os == 1 then body_of os else none))
unfolding collect_body
collect_body_lem os e more = (
  collect_list_lem os ∙ join_lem os,
  collect_iterator_lem os e ∙ ap (λ r. if is_raised e then none else r) (join_lem os),
  swallow_lem os more ∙ ap (λ r. if length os == 1 then r else none) (join_lem os),
)
