-- ===== src/Environ/Headers.antt =====
-- freastal/src/wsgi.c, build_environ(): what one header does to the keys.
use freastal.Prelude.{
  ◌≡◌, ◌≢◌, refl, sym, ap, ◌∙◌, ◌⊎◌, inl, inr, Bool, true, false, not, ◌&&◌, Option, none, some,
  List, [], ◌∷◌, ◌++◌, map, Bytes, length, if_cases, bytes_eq, bytes_eq_sound, ◌==◌, if◌then◌else◌,
  arith,
}
use freastal.Ascii.{codes, equal_ignoring_case}
use freastal.HeaderCache.{key_byte}
use freastal.HeaderCache.Lookup.{hdr_table}
use freastal.Response.{Formatting, done}
use freastal.Environ.{
  wsgi_header_key, header_key, separator, join_values, after_default, add_general, add_header,
}
use freastal.Environ.Dict.{
  Value, text, py_none, py_bool, py_version, stderr, input, Environ, lookup, set_item,
  lookup-set_item, set_default-new, set_default-old, length-set_item,
}
use freastal.Environ.Keys.{header_key_lem, cookie_key}

-- A general header is neither of the two that have a key of their own.
abbrev pub is_general : Bytes → Bool
is_general name =
    not (length name == 12 && equal_ignoring_case name (codes "content-type"))
    && not (length name == 14 && equal_ignoring_case name (codes "content-length"))

-- The values that go to a key, in order.
abbrev pub values_for : Bytes → List (Bytes × Bytes) → List Bytes
values_for key [] = []
values_for key ((name, v) ∷ hs) =
    if is_general name && bytes_eq key (wsgi_header_key name)
    then v ∷ values_for key hs
    else values_for key hs

-- Values after what stands there, each with the separator before it.
abbrev pub joined_to : Bytes → Bytes → List Bytes → Bytes
joined_to sep prev [] = prev
joined_to sep prev (v ∷ vs) = joined_to sep ((prev ++ sep) ++ v) vs

-- The values joined by the separator of the key.
abbrev pub joined : Bytes → List Bytes → Option Value
joined sep [] = none
joined sep (v ∷ vs) = some (text (joined_to sep v vs))

same_lookup : (j k : Bytes) (env : Environ) → bytes_eq j k ≡ true → lookup k env ≡ lookup j env
same_lookup j k env h = ap (λ i. lookup i env) (sym (bytes_eq_sound j k h))

-- What a step of the loop does to a key that holds a str or nothing.
abbrev pub IsText : Option Value → Type 0
IsText o = (o ≡ none) ⊎ ((p : Bytes) × (o ≡ some (text p)))

step_value : Bytes → Bytes → Option Value → Option Value
step_value sep v none = some (text v)
step_value sep v (some (text p)) = some (text ((p ++ sep) ++ v))
step_value sep v o = o

add_general_lem :
    (name key v : Bytes) (env : Environ)
    → IsText (lookup key env)
    → (env' : Environ) × (add_general name key v env ≡ done env')
      × ((j : Bytes)
          → lookup j env' ≡ (
              if bytes_eq j key
              then step_value (separator name) v (lookup key env)
              else lookup j env))
unfolding add_general after_default step_value join_values
add_general_lem name key v env (inl n) = (
  set_item key (text v) env,
  ap (after_default name key v (length env)) (set_default-new key (text v) env n)
      ∙ ground (arith, length-set_item key (text v) env n),
  λ j. rw n (lookup-set_item j key (text v) env),
)
add_general_lem name key v env (inr (p, e)) = (
  set_item key (text ((p ++ separator name) ++ v)) env,
  ap (after_default name key v (length env)) (set_default-old key (text v) (text p) env e)
      ∙ ground arith,
  λ j. rw e (lookup-set_item j key _ env),
)

-- The key of a general header: HTTP_ and more.
abbrev pub http_key : Bytes → Bytes
http_key rest = codes "HTTP_" ++ rest

-- Every general key holds a str or nothing.
abbrev pub IsTextual : Environ → Type 0
IsTextual env = (rest : Bytes) → IsText (lookup (http_key rest) env)

-- What one header does to a key.
pub effect : Bytes → Bytes → Bytes → Option Value → Option Value
effect name v key o =
    if length name == 12 && equal_ignoring_case name (codes "content-type")
    then (if bytes_eq key (codes "CONTENT_TYPE") then some (text v) else o)
    else if length name == 14 && equal_ignoring_case name (codes "content-length")
    then (if bytes_eq key (codes "CONTENT_LENGTH") then some (text v) else o)
    else if bytes_eq key (wsgi_header_key name)
    then step_value (separator name) v o
    else o

-- The dict that comes out, by its keys.
abbrev pub Leaves : Formatting Environ → (Bytes → Option Value) → Type 0
Leaves r f = (env : Environ) × (r ≡ done env) × ((j : Bytes) → lookup j env ≡ f j)

either :
    (b : Bool) (x y : Formatting Environ) (f g : Bytes → Option Value)
    → Leaves x f
    → Leaves y g
    → Leaves (if b then x else y) (λ j. if b then f j else g j)
either true x y f g p q = p
either false x y f g p q = q

general_Leaves :
    (name v : Bytes) (env : Environ)
    → IsTextual env
    → Leaves (add_general name (header_key hdr_table name) v env) (λ j.
      if bytes_eq j (wsgi_header_key name)
      then step_value (separator name) v (lookup j env)
      else lookup j env)
unfolding wsgi_header_key
general_Leaves name v env t =
    let (env', e, h) = add_general_lem name (wsgi_header_key name) v env (t (map key_byte name)) in
    (
      env',
      ap (λ k. add_general name k v env) (header_key_lem name) ∙ e,
      λ j. h j ∙ ground (arith, same_lookup j (wsgi_header_key name) env),
    )

pub add_header-Leaves :
    (name v : Bytes) (env : Environ)
    → IsTextual env
    → Leaves (add_header hdr_table (name, v) env) (λ j. effect name v j (lookup j env))
unfolding add_header effect
add_header-Leaves name v env t =
    either (length name == 12 && equal_ignoring_case name (codes "content-type")) _ _ _ _
      (_, refl, λ j. lookup-set_item j (codes "CONTENT_TYPE") (text v) env)
      (either (length name == 14 && equal_ignoring_case name (codes "content-length")) _ _ _ _
        (_, refl, λ j. lookup-set_item j (codes "CONTENT_LENGTH") (text v) env)
        (general_Leaves name v env t))

effect_cases :
    (P : Option Value → Type 0) (name v key : Bytes) (o : Option Value)
    → P o
    → P (some (text v))
    → P (step_value (separator name) v o)
    → P (effect name v key o)
unfolding effect
effect_cases P name v key o p q r =
    if_cases P (length name == 12 && equal_ignoring_case name (codes "content-type"))
      (λ a. if_cases P (bytes_eq key (codes "CONTENT_TYPE")) (λ b. q) λ b. p)
      λ a.
        if_cases P (length name == 14 && equal_ignoring_case name (codes "content-length"))
          (λ b. if_cases P (bytes_eq key (codes "CONTENT_LENGTH")) (λ c. q) λ c. p)
          λ b. if_cases P (bytes_eq key (wsgi_header_key name)) (λ c. r) λ c. p

step-IsText : (sep v : Bytes) (o : Option Value) → IsText o → IsText (step_value sep v o)
unfolding step_value
step-IsText sep v o (inl n) = rw (n, step_value) (inr (v, refl))
step-IsText sep v o (inr (p, e)) = rw (e, step_value) (inr ((p ++ sep) ++ v, refl))

pub effect-IsText :
    (name v key : Bytes) (o : Option Value) → IsText o → IsText (effect name v key o)
effect-IsText name v key o t =
    effect_cases IsText name v key o t (inr (v, refl)) (step-IsText (separator name) v o t)

-- The keys that no header has.
abbrev pub IsFixed : Bytes → Type 0
IsFixed key =
    (bytes_eq key (codes "CONTENT_TYPE") ≡ false)
    × (bytes_eq key (codes "CONTENT_LENGTH") ≡ false)
    × ((rest : Bytes) → bytes_eq key (http_key rest) ≡ false)

pub effect-fixed : (name v key : Bytes) (o : Option Value) → IsFixed key → effect name v key o ≡ o
unfolding effect wsgi_header_key
effect-fixed name v key o (a, b, h) = ground (arith, h (map key_byte name))

step-given :
    (sep v : Bytes) (o : Option Value) → o ≢ some py_none → step_value sep v o ≢ some py_none
unfolding step_value
step-given sep v none n = ground arith
step-given sep v (some (text p)) n = ground arith
step-given sep v (some py_none) n = absurd (n refl)
step-given sep v (some (py_bool b)) n = ground arith
step-given sep v (some (py_version a b)) n = ground arith
step-given sep v (some stderr) n = ground arith
step-given sep v (some (input b)) n = ground arith

pub effect-given :
    (name v key : Bytes) (o : Option Value) → o ≢ some py_none → effect name v key o ≢ some py_none
effect-given name v key o n =
    effect_cases (λ x. x ≢ some py_none) name v key o n (ground arith)
      (step-given (separator name) v o n)

-- The joining of the values of a key, after what stands there.
abbrev pub after_values : Bytes → Option Value → List Bytes → Option Value
after_values sep none vs = joined sep vs
after_values sep (some (text p)) vs = some (text (joined_to sep p vs))
after_values sep o vs = o

-- The separator of a key.
abbrev pub separator_of : Bytes → Bytes
separator_of key = if bytes_eq key (codes "HTTP_COOKIE") then codes "; " else codes ", "

separator_lem :
    (name key : Bytes)
    → bytes_eq key (wsgi_header_key name) ≡ true
    → separator name ≡ separator_of key
separator_lem name key h =
    cookie_key name ∙ ap separator_of (sym (bytes_eq_sound key (wsgi_header_key name) h))

pub effect-values :
    (name v rest : Bytes) (hs : List (Bytes × Bytes)) (o : Option Value)
    → IsText o
    → after_values
        (separator_of (http_key rest))
        (effect name v (http_key rest) o)
        (values_for (http_key rest) hs)
      ≡ after_values (separator_of (http_key rest)) o (values_for (http_key rest) ((name, v) ∷ hs))
unfolding effect step_value
effect-values name v rest hs o (inl n) = rw n (ground (arith, separator_lem name (http_key rest)))
effect-values name v rest hs o (inr (p, e)) =
    rw e (ground (arith, separator_lem name (http_key rest)))
