-- ===== src/Environ/Loop.antt =====
-- freastal/src/wsgi.c, build_environ(): the dict that the application is given.
use freastal.Prelude.{
  ℕ, ◌≡◌, ◌≢◌, refl, sym, ap, ◌∙◌, inl, inr, Bool, true, false, Bool-cases, Option, none, some,
  List, [], ◌∷◌, Bytes, bytes_eq, if_cases, if◌then◌else◌, arith,
}
use freastal.Ascii.{codes}
use freastal.HeaderCache.Lookup.{hdr_table}
use freastal.Response.{Formatting, done, ◌>>=◌}
use freastal.Environ.{
  pad_name, Config, Request, template_entries, environ_template_build, Sizes, split_query,
  set_request, add_headers, build_environ,
}
use freastal.Environ.Dict.{Value, py_none, Environ, lookup, set_item}
use freastal.Environ.Template.{environ_template_build_lem}
use freastal.Environ.Slots.{
  IsCut, split_query-IsCut, HasSlots, set_request-HasSlots, NoPlaceholder,
  set_request-NoPlaceholder,
}
use freastal.Environ.Headers.{
  IsText, IsTextual, http_key, add_header-Leaves, effect-IsText, IsFixed, effect-fixed,
  effect-given, after_values, effect-values, values_for, joined, separator_of,
}

-- What the loop leaves of a dict.
record Looped (env : Environ) (hs : List (Bytes × Bytes)) (env' : Environ) : Type 0 where
  general :
      (rest : Bytes)
      → lookup (http_key rest) env'
        ≡ after_values
            (separator_of (http_key rest))
            (lookup (http_key rest) env)
            (values_for (http_key rest) hs)
  fixed : (key : Bytes) → IsFixed key → lookup key env' ≡ lookup key env
  given : (key : Bytes) → lookup key env ≢ some py_none → lookup key env' ≢ some py_none

no_values : (sep : Bytes) (o : Option Value) → IsText o → after_values sep o [] ≡ o
no_values sep o (inl n) = rw n refl
no_values sep o (inr (p, e)) = rw e refl

add_headers-Looped :
    (hs : List (Bytes × Bytes)) (env : Environ)
    → IsTextual env
    → (env' : Environ) × (add_headers hdr_table hs env ≡ done env') × Looped env hs env'
unfolding add_headers
add_headers-Looped [] env t = (
  env,
  refl,
  record {
    general = λ rest. sym (no_values _ _ (t rest));
    fixed = λ key h. refl;
    given = λ key h. h;
  },
)
add_headers-Looped ((name, v) ∷ hs) env t =
    let (env1, e, h) = add_header-Leaves name v env t in
    let t1 : IsTextual env1 =
      λ rest. rw (h (http_key rest)) (effect-IsText name v (http_key rest) _ (t rest)) in
    let (env2, e2, l) = add_headers-Looped hs env1 t1 in
    (
      env2,
      ap (λ r. r >>= add_headers hdr_table hs) e ∙ e2,
      record {
        general = λ rest.
            l.general rest
            ∙ ap
                (λ o. after_values (separator_of (http_key rest)) o (values_for (http_key rest) hs))
                (h (http_key rest))
            ∙ effect-values name v rest hs (lookup (http_key rest) env) (t rest);
        fixed = λ key f. l.fixed key f ∙ h key ∙ effect-fixed name v key (lookup key env) f;
        given = λ key n. l.given key (rw (h key) (effect-given name v key (lookup key env) n));
      },
    )

-- Neither the template nor a slot has a key of a general header.
slots_general :
    (r : Request) (cfg : Config) (url_scheme rest : Bytes)
    → lookup (http_key rest) (set_request r (template_entries cfg url_scheme)) ≡ none
unfolding lookup set_request template_entries set_item
slots_general r cfg u rest = elim (Bool-cases cfg.has_stderr) [
  | inl e ↦ rw (e, template_entries) refl
  | inr e ↦ rw (e, template_entries) refl
]

NoPlaceholder-lookup :
    (env : Environ) (key : Bytes) → NoPlaceholder env → lookup key env ≢ some py_none
unfolding lookup
NoPlaceholder-lookup [] key h = ground arith
NoPlaceholder-lookup ((k, w) ∷ env) key h =
    if_cases (λ o. o ≢ some py_none) (bytes_eq key k) (λ e. ground (arith, h.0))
      (λ e. NoPlaceholder-lookup env key h.1)

slots_pad :
    (r : Request) (cfg : Config) (url_scheme : Bytes) (i : ℕ)
    → lookup (pad_name i) (set_request r (template_entries cfg url_scheme)) ≡ none
unfolding lookup pad_name set_request template_entries set_item
slots_pad r cfg u i = elim (Bool-cases cfg.has_stderr) [
  | inl e ↦ rw (e, template_entries) refl
  | inr e ↦ rw (e, template_entries) refl
]

pad_name-IsFixed : (i : ℕ) → IsFixed (pad_name i)
unfolding pad_name
pad_name-IsFixed i = (refl, refl, λ rest. refl)

-- The environ of a request, from templates that were built with any padding.
abbrev pub environ_of : Config → Option Sizes → Request → Formatting Environ
environ_of cfg sizes r =
    build_environ hdr_table (environ_template_build cfg (codes "http") sizes)
      (environ_template_build cfg (codes "https") sizes) r

abbrev scheme : Request → Bytes
scheme r = if r.is_tls then codes "https" else codes "http"

templates :
    (cfg : Config) (sizes : Option Sizes) (is_tls : Bool)
    → (if is_tls
        then environ_template_build cfg (codes "https") sizes
        else environ_template_build cfg (codes "http") sizes)
      ≡ template_entries cfg (if is_tls then codes "https" else codes "http")
templates cfg sizes true = environ_template_build_lem cfg (codes "https") sizes
templates cfg sizes false = environ_template_build_lem cfg (codes "http") sizes

environ_of-Looped :
    (cfg : Config) (sizes : Option Sizes) (r : Request)
    → (env : Environ) × (environ_of cfg sizes r ≡ done env)
      × Looped (set_request r (template_entries cfg (scheme r))) r.headers env
unfolding build_environ
environ_of-Looped cfg sizes r =
    let start = set_request r (template_entries cfg (scheme r)) in
    let (env, e, l) =
      add_headers-Looped r.headers start (λ rest. inl (slots_general r cfg (scheme r) rest)) in
    (
      env,
      ap (λ t. add_headers hdr_table r.headers (set_request r t)) (templates cfg sizes r.is_tls)
          ∙ e,
      l,
    )

-- For every request and whatever padding the templates were built with, build_environ() succeeds;
-- REQUEST_METHOD, PATH_INFO, QUERY_STRING, REMOTE_ADDR and wsgi.input hold the method, the path up
-- to its first question mark, what follows that, the address and the body, whatever the headers
-- are; and the path is PATH_INFO, with no question mark in it, followed by the question mark and
-- QUERY_STRING if there is one.
pub environ_of-HasSlots :
    (cfg : Config) (sizes : Option Sizes) (r : Request)
    → (env : Environ) × (environ_of cfg sizes r ≡ done env)
      × HasSlots r env
      × IsCut r.path (split_query r.path)
environ_of-HasSlots cfg sizes r =
    let (env, e, l) = environ_of-Looped cfg sizes r in
    let (m, p, q, a, i) = set_request-HasSlots r (template_entries cfg (scheme r)) in
    (
      env,
      e,
      (
        l.fixed (codes "REQUEST_METHOD") (refl, refl, λ rest. refl) ∙ m,
        l.fixed (codes "PATH_INFO") (refl, refl, λ rest. refl) ∙ p,
        l.fixed (codes "QUERY_STRING") (refl, refl, λ rest. refl) ∙ q,
        l.fixed (codes "REMOTE_ADDR") (refl, refl, λ rest. refl) ∙ a,
        l.fixed (codes "wsgi.input") (refl, refl, λ rest. refl) ∙ i,
      ),
      split_query-IsCut r.path,
    )

-- For every request and whatever padding the templates were built with, build_environ() succeeds,
-- and a key that starts with HTTP_ is set just if a header other than Content-Type and
-- Content-Length has that key, and then to the values of all such headers in their order, joined by
-- "; " for HTTP_COOKIE and by ", " for every other key.
pub environ_of-joined :
    (cfg : Config) (sizes : Option Sizes) (r : Request)
    → (env : Environ) × (environ_of cfg sizes r ≡ done env)
      × ((rest : Bytes)
          → lookup (http_key rest) env
            ≡ joined (separator_of (http_key rest)) (values_for (http_key rest) r.headers))
environ_of-joined cfg sizes r =
    let (env, e, l) = environ_of-Looped cfg sizes r in
    (
      env,
      e,
      λ rest.
          l.general rest
          ∙ ap
              (λ o.
                after_values (separator_of (http_key rest)) o
                  (values_for (http_key rest) r.headers))
              (slots_general r cfg (scheme r) rest),
    )

-- For every request and whatever padding the templates were built with, build_environ() succeeds,
-- no key of the environ has the None that the template keeps in the slots of a request, and no key
-- of the padding is in it.
environ_of-given :
    (cfg : Config) (sizes : Option Sizes) (r : Request)
    → (env : Environ) × (environ_of cfg sizes r ≡ done env)
      × ((key : Bytes) → lookup key env ≢ some py_none)
      × ((i : ℕ) → lookup (pad_name i) env ≡ none)
environ_of-given cfg sizes r =
    let (env, e, l) = environ_of-Looped cfg sizes r in
    (
      env,
      e,
      (λ key. l.given key (
          NoPlaceholder-lookup (set_request r (template_entries cfg (scheme r))) key
            (set_request-NoPlaceholder r cfg (scheme r)))),
      λ i. l.fixed (pad_name i) (pad_name-IsFixed i) ∙ slots_pad r cfg (scheme r) i,
    )
