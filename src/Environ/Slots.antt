-- ===== src/Environ/Slots.antt =====
-- freastal/src/wsgi.c, build_environ(): the slots that every request overwrites.
use freastal.Prelude.{
  ℕ, ◌≡◌, ◌≢◌, refl, ap, inl, inr, Option, none, some, [], ◌∷◌, ◌++◌, Bytes, All, take, if_cases,
  Bool-cases, ◌==◌, if◌then◌else◌, arith,
}
use freastal.Ascii.{codes}
use freastal.Environ.{
  Config, Request, template_entries, split_query, set_request, request_body, query_value,
}
use freastal.Environ.Dict.{text, input, py_none, Environ, lookup-set_item, lookup, set_item}

-- The path is what PATH_INFO and QUERY_STRING were cut from, at the first question mark.
abbrev pub IsCut : Bytes → Bytes × Option Bytes → Type 0
IsCut path (info, none) = (path ≡ info) × All (λ b. b ≢ 63) info
IsCut path (info, some query) = (path ≡ info ++ (63 ∷ query)) × All (λ b. b ≢ 63) info

IsCut-more :
    (b : ℕ) (path : Bytes) (p : Bytes × Option Bytes)
    → b ≢ 63
    → IsCut path p
    → IsCut (b ∷ path) (b ∷ p.0, p.1)
IsCut-more b path (info, none) n (e, a) = (ap (λ r. b ∷ r) e, (n, a))
IsCut-more b path (info, some query) n (e, a) = (ap (λ r. b ∷ r) e, (n, a))

pub split_query-IsCut : (path : Bytes) → IsCut path (split_query path)
unfolding split_query
split_query-IsCut [] = (refl, tt)
split_query-IsCut (b ∷ bs) =
    if_cases (IsCut (b ∷ bs)) (b == 63) (λ e. (ground arith, tt))
      λ e. IsCut-more b bs (split_query bs) (ground arith) (split_query-IsCut bs)

-- What the slots hold.
abbrev pub HasSlots : Request → Environ → Type 0
HasSlots r env =
    (lookup (codes "REQUEST_METHOD") env ≡ some (text r.method))
    × (lookup (codes "PATH_INFO") env ≡ some (text (split_query r.path).0))
    × (lookup (codes "QUERY_STRING") env ≡ some (query_value (split_query r.path).1))
    × (lookup (codes "REMOTE_ADDR") env ≡ some (text r.peer_addr))
    × (lookup (codes "wsgi.input") env ≡ some (input (request_body r)))

body_value :
    (r : Request)
    → (if r.content_length == 0 then input [] else input (request_body r)) ≡ input (request_body r)
unfolding request_body
body_value r =
    if_cases (λ v. v ≡ input (take r.content_length r.after_head)) (r.content_length == 0)
      (λ z. let e : 0 ≡ r.content_length = ground arith in ap (λ n. input (take n r.after_head)) e)
      (λ n. refl)

pub set_request-HasSlots : (r : Request) (env : Environ) → HasSlots r (set_request r env)
unfolding set_request
set_request-HasSlots r env = (
  simp lookup-set_item,
  simp lookup-set_item,
  simp lookup-set_item,
  simp lookup-set_item,
  simp (lookup-set_item, body_value r),
)

-- No value is the placeholder of the template.
abbrev pub NoPlaceholder : Environ → Type 0
NoPlaceholder = All (λ e. e.1 ≢ py_none)

query_given : (q : Option Bytes) → query_value q ≢ py_none
unfolding query_value
query_given none = ground arith
query_given (some q) = ground arith

pub set_request-NoPlaceholder :
    (r : Request) (cfg : Config) (url_scheme : Bytes)
    → NoPlaceholder (set_request r (template_entries cfg url_scheme))
unfolding set_request template_entries set_item
set_request-NoPlaceholder r cfg u = elim (Bool-cases cfg.has_stderr) [
  | inl e ↦ rw (e, template_entries) (ground (arith, query_given (split_query r.path).1))
  | inr e ↦ rw (e, template_entries) (ground (arith, query_given (split_query r.path).1))
]
