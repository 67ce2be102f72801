-- ===== src/Asgi/Outcome.antt =====
-- freastal/src/asgi.c, asgi_send_response_c(): what reaches the wire, and what is not checked.
use freastal.Prelude.{
  ◌+◌, option_cases, ◌^◌, ◌≤◌, ◌<◌, ◌≡◌, refl, sym, ap, ◌∙◌, ◌⊎◌, inl, inr, Bool, true, some, List,
  [], ◌∷◌, ◌++◌, Bytes, All, length, leb, if_cases, arith,
}
use freastal.Ascii.{codes}
use freastal.Sizes.{resp_hdr_size}
use freastal.HeaderSyntax.{hdr_name_ok, hdr_value_ok}
use freastal.HeaderSyntax.Grammar.{IsInLine, hdr_name_ok-IsInLine, hdr_value_ok-IsInLine}
use freastal.Decimal.{fill_digits}
use freastal.Decimal.Digits.{fill_digits-AllDigits}
use freastal.Response.{
  Object, bytes, chunk, Item, tuple, list, Exception, value_error, runtime_error, Reply,
}
use freastal.Response.Render.{fit, Field, render}
use freastal.Response.Fields.{All2}
use freastal.Response.Lines.{
  digits-IsInLine, IsFieldInLine, All-append-IsInLine, head_lines, WrittenAs, render-WrittenAs,
}
use freastal.Asgi.{
  ℤ, pos, negsuc, asgi_pair, get_two, pair_ok, asgi_header_ok, asgi_headers_ok, body_length,
  asgi_send_response, status_lines, show_int, send_reply,
}
use freastal.Asgi.Head.{
  Reads, reason, find_reason, find_reason-All, status_text, IsInt, format_response_asgi_lem,
}

-- The item is a list or a tuple of exactly two bytes objects.
abbrev pub IsPair : Item → Field → Type 0
IsPair i (name, v) =
    (a b : Object) × ((i ≡ tuple (a ∷ b ∷ [])) ⊎ (i ≡ list (a ∷ b ∷ [])))
    × (chunk a ≡ some name)
    × (chunk b ≡ some v)

pair_Reads : (i : Item) (f : Field) → IsPair i f → Reads i f
unfolding asgi_pair
pair_Reads i (name, v) (a, b, inl e, p, q) = (a, b, ap asgi_pair e, p, q)
pair_Reads i (name, v) (a, b, inr e, p, q) = (a, b, ap asgi_pair e, p, q)

pairs_Read :
    (items : List Item) (fields : List Field) → All2 IsPair items fields → All2 Reads items fields
pairs_Read [] [] h = tt
pairs_Read [] (f ∷ fs) h = h
pairs_Read (i ∷ is) [] h = h
pairs_Read (i ∷ is) (f ∷ fs) h = (pair_Reads i f h.0, pairs_Read is fs h.1)

abbrev pub IsValid : Field → Type 0
IsValid (name, v) = (hdr_name_ok name ≡ true) × (hdr_value_ok v ≡ true)

pair_checked : (i : Item) (f : Field) → IsPair i f → asgi_header_ok i ≡ true → IsValid f
unfolding asgi_header_ok pair_ok
pair_checked i (name, v) (a, b, s, p, q) h =
    let ok : pair_ok a b ≡ true = elim s [
      | inl e ↦ sym (ap asgi_header_ok e) ∙ h
      | inr e ↦ sym (ap asgi_header_ok e) ∙ h
    ] in
    ground (arith, ok)

pairs_checked :
    (items : List Item) (fields : List Field)
    → All2 IsPair items fields
    → asgi_headers_ok items ≡ true
    → All IsValid fields
unfolding asgi_headers_ok
pairs_checked [] [] h k = tt
pairs_checked [] (f ∷ fs) h k = absurd (ground arith)
pairs_checked (i ∷ is) [] h k = absurd (ground arith)
pairs_checked (i ∷ is) (f ∷ fs) h k =
    (pair_checked i f h.0 (ground arith), pairs_checked is fs h.1 (ground arith))

valid-IsFieldInLine : (fields : List Field) → All IsValid fields → All IsFieldInLine fields
valid-IsFieldInLine [] h = tt
valid-IsFieldInLine ((name, v) ∷ fs) h =
    ((hdr_name_ok-IsInLine name h.0.0, hdr_value_ok-IsInLine v h.0.1), valid-IsFieldInLine fs h.1)

status_lines-IsInLine : All (λ l. All IsInLine l.1) status_lines
unfolding status_lines
status_lines-IsInLine = ground arith

show_int-IsInLine : (s : ℤ) → IsInt s → All IsInLine (show_int s)
unfolding show_int
show_int-IsInLine (pos n) h =
    digits-IsInLine (fill_digits 10 n []) (fill_digits-AllDigits n (omega arith))
show_int-IsInLine (negsuc n) h = (
  ground arith,
  digits-IsInLine (fill_digits 10 (n + 1) []) (fill_digits-AllDigits (n + 1) (omega arith)),
)

reason-IsInLine : (s : ℤ) → IsInt s → All IsInLine (reason s)
reason-IsInLine (pos n) h =
    option_cases (All IsInLine) (find_reason n status_lines)
      (λ e.
        All-append-IsInLine (show_int (pos n)) (codes " Unknown") (show_int-IsInLine (pos n) h)
          (ground arith))
      (λ line e. find_reason-All (All IsInLine) n status_lines line status_lines-IsInLine e)
reason-IsInLine (negsuc n) h =
    All-append-IsInLine (show_int (negsuc n)) (codes " Unknown") (show_int-IsInLine (negsuc n) h)
      (ground arith)

-- A head whose lines are those of the fields.
abbrev pub IsSafe : ℤ → List Field → Object → Bool → Reply → Type 0
IsSafe status fields body keep_alive r =
    All IsValid fields
    × (length r.resp_hdr ≤ resp_hdr_size)
    × (r.keep_alive ≡ keep_alive)
    × WrittenAs r.resp_hdr
        (head_lines (codes "HTTP/1.1 " ++ reason status) fields (body_length body) keep_alive)

unchecked_Reads :
    (name v : Bytes) (third : Object) → Reads (tuple (bytes name ∷ bytes v ∷ third ∷ [])) (name, v)
unfolding asgi_pair get_two chunk
unchecked_Reads name v third = (bytes name, bytes v, refl, refl, refl)

abbrev IsSafeOrRaised : ℤ → List Field → Object → Bool → Exception ⊎ Reply → Type 0
IsSafeOrRaised status fields body keep_alive answer =
    ((e : Exception) × (answer ≡ inl e))
    ⊎ ((r : Reply) × (answer ≡ inr r) × IsSafe status fields body keep_alive r)

fit_safe :
    (status : ℤ) (fields : List Field) (body : Object) (keep_alive : Bool)
    → IsInt status
    → All IsValid fields
    → body_length body < 2 ^ 64
    → IsSafeOrRaised status fields body keep_alive (
        send_reply
          (fit (render (status_text status) fields (body_length body) keep_alive))
          body
          keep_alive)
unfolding send_reply
fit_safe s fields body k h v b =
    let head = render (status_text s) fields (body_length body) k in
    let first =
      All-append-IsInLine (codes "HTTP/1.1 ") (reason s) (ground arith) (reason-IsInLine s h) in
    if_cases (λ x. IsSafeOrRaised s fields body k (send_reply x body k))
      (leb (length head) resp_hdr_size)
      (λ fits. inr (
        _,
        refl,
        (
          v,
          ground arith,
          refl,
          render-WrittenAs (codes "HTTP/1.1 " ++ reason s) fields (body_length body) k first
              (valid-IsFieldInLine fields v) b,
        ),
      ))
      λ long. inl (runtime_error, refl)

-- If every item of the list is a list or tuple of exactly two bytes objects and the status is an
-- int, asgi_send_response() raises, or each name and value is valid and a recipient that ends a
-- line at any LF reads exactly the lines of the status, of the headers in their order, of the two
-- automatic headers where the application gave none, and the empty line.
pub asgi_send_response_lem :
    (status : ℤ) (headers : List Item) (fields : List Field) (body : Object) (keep_alive : Bool)
    → IsInt status
    → All2 IsPair headers fields
    → body_length body < 2 ^ 64
    → ((e : Exception) × (asgi_send_response status (some headers) body keep_alive ≡ inl e))
      ⊎ ((r : Reply) × (asgi_send_response status (some headers) body keep_alive ≡ inr r)
          × IsSafe status fields body keep_alive r)
unfolding asgi_send_response
asgi_send_response_lem s headers fields body k h p b =
    if_cases (IsSafeOrRaised s fields body k) (asgi_headers_ok headers)
      (λ ok.
        rw (format_response_asgi_lem s headers fields body k h (pairs_Read headers fields p) b)
          (fit_safe s fields body k h (pairs_checked headers fields p ok) b))
      λ bad. inl (value_error, refl)

-- A header given as a tuple of three elements of which the first two are bytes objects is not
-- checked: whatever these bytes are, asgi_send_response() answers with a head that has them as the
-- name and the value, if that head fits RESP_HDR_SIZE, and otherwise raises RuntimeError.
pub unchecked_header :
    (status : ℤ) (name v : Bytes) (third body : Object) (keep_alive : Bool)
    → IsInt status
    → body_length body < 2 ^ 64
    → asgi_send_response status
        (some (tuple (bytes name ∷ bytes v ∷ third ∷ []) ∷ []))
        body
        keep_alive
      ≡ send_reply
          (fit (render (status_text status) ((name, v) ∷ []) (body_length body) keep_alive))
          body
          keep_alive
unfolding asgi_send_response asgi_headers_ok asgi_header_ok
unchecked_header s name v third body k h b =
    ap (λ x. send_reply x body k)
      (format_response_asgi_lem s (tuple (bytes name ∷ bytes v ∷ third ∷ []) ∷ []) ((name, v) ∷ [])
        body k h (unchecked_Reads name v third, tt) b)
