-- ===== src/Asgi/Dispatch.antt =====
-- freastal/src/asgi.c, asgi_dispatch() and send_500_asgi(): what one request is answered with.
use freastal.Prelude.{
  ℕ, take, if_cases, ◌&&◌, if◌then◌else◌, ◌≤◌, ◌≡◌, refl, ◌⊎◌, inl, inr, Bool, true, false, Option,
  none, some, List, [], ◌∷◌, Bytes, length, arith,
}
use freastal.Ascii.{codes}
use freastal.Response.{Object, Item, Reply}
use freastal.Asgi.{ℤ, asgi_send_response}

unfoldable pub send_500_asgi : Reply
send_500_asgi = record {
  resp_hdr =
      codes "HTTP/1.1 500 Internal Server Error\r\nContent-Length: 0\r\nConnection: close\r\n\r\n";
  resp_body = none;
  keep_alive = false;
}

-- A call of asgi_send_response().
pub record Send : Type 0 where
  pub status : ℤ
  pub headers : Option (List Item)
  pub body : Object

-- What run_asgi_request() comes back with: an exception, None, or a task.
pub data Ran : Type 0 where
  raised returned_none : Ran
  task : Ran

-- The application under its bridge, for a scope and a request body.
pub record Bridge {ℓ} (Scope : Type ℓ) : Type ℓ where
  pub sends : Scope → Bytes → List Send
  pub ran : Scope → Bytes → Ran

-- The calls in order; one that raises writes nothing.
unfoldable pub send_all : Bool → List Send → List Reply
send_all keep_alive [] = []
send_all keep_alive (s ∷ ss) =
    let rest = send_all keep_alive ss in
    elim (asgi_send_response s.status s.headers s.body keep_alive) [
      | inl e ↦ rest
      | inr r ↦ r ∷ rest
    ]

-- The answer where no task is left: resp_hdr_len is 0 just if nothing was written.
unfoldable pub sent_or_500 : List Reply → List Reply
sent_or_500 [] = send_500_asgi ∷ []
sent_or_500 (r ∷ rs) = r ∷ rs

unfoldable pub after_run : Ran → List Reply → List Reply × Bool
after_run raised written = (sent_or_500 written, false)
after_run returned_none written = (sent_or_500 written, false)
after_run task written = (written, true)

-- The body of a request, out of what is in read_buf behind its head.
unfoldable pub asgi_body : ℕ → Bytes → Bytes
asgi_body content_length after_head = take content_length after_head

-- What write_response() is called with before asgi_dispatch() returns, and whether a task is left.
-- The flags tell whether CPython makes the object of the body, and has or makes the capsule. A scope
-- that could not be built is none.
unfoldable pub asgi_dispatch {ℓ} :
    {Scope : Type ℓ}
    → Bridge Scope
    → (has_body has_capsule : Bool) → Option Scope
    → ℕ
    → Bytes
    → Bool
    → List Reply × Bool
unfolding asgi_body
asgi_dispatch app has_body has_capsule none content_length after_head keep_alive =
    (send_500_asgi ∷ [], false)
asgi_dispatch app has_body has_capsule (some scope) content_length after_head keep_alive =
    let body = asgi_body content_length after_head in
    let written = send_all keep_alive (app.sends scope body) in
    if has_body && has_capsule
    then after_run (app.ran scope body) written
    else (send_500_asgi ∷ [], false)

send_all-length : (keep_alive : Bool) (ss : List Send) → length (send_all keep_alive ss) ≤ length ss
unfolding send_all
send_all-length k [] = omega arith
send_all-length k (s ∷ ss) = ground (arith, send_all-length k ss)

sent_or_500-length : (rs : List Reply) → length rs ≤ 1 → length (sent_or_500 rs) ≡ 1
unfolding sent_or_500
sent_or_500-length [] h = refl
sent_or_500-length (r ∷ rs) h = omega arith

abbrev pub IsOneAnswer : List Reply × Bool → Type 0
IsOneAnswer (written, left) =
    ((left ≡ true) × (length written ≤ 1)) ⊎ ((left ≡ false) × (length written ≡ 1))

outcome : (r : Ran) (rs : List Reply) → length rs ≤ 1 → IsOneAnswer (after_run r rs)
unfolding after_run
outcome raised rs h = inr (refl, sent_or_500-length rs h)
outcome returned_none rs h = inr (refl, sent_or_500-length rs h)
outcome task rs h = inl (refl, h)

-- If the application calls asgi_send_response() at most once before it suspends or ends, then
-- asgi_dispatch() leaves a task and at most one response has been written, or it leaves none and
-- exactly one response has been written, also if the application raised, sent nothing or was
-- refused, or if the scope, the body or the capsule could not be made.
pub asgi_dispatch_lem {ℓ} :
    {Scope : Type ℓ} (app : Bridge Scope) (has_body has_capsule : Bool) (scope : Option Scope)
    (content_length : ℕ) (after_head : Bytes) (keep_alive : Bool)
    → ((s : Scope) → length (app.sends s (asgi_body content_length after_head)) ≤ 1)
    → IsOneAnswer
        (asgi_dispatch app has_body has_capsule scope content_length after_head keep_alive)
unfolding asgi_dispatch
asgi_dispatch_lem app has_body has_capsule none n after k h = inr (refl, refl)
asgi_dispatch_lem app has_body has_capsule (some s) n after k h =
    let body = asgi_body n after in
    let few : length (send_all k (app.sends s body)) ≤ 1 =
      omega (arith, send_all-length k (app.sends s body), h s) in
    if_cases IsOneAnswer (has_body && has_capsule)
      (λ _. outcome (app.ran s body) (send_all k (app.sends s body)) few) (λ _. inr (refl, refl))
