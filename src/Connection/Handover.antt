-- ===== src/Connection/Handover.antt =====
-- http_dispatch() of freastal/src/server.c: what it hands over is a request as the parser delimits it.
use freastal.Prelude.{
  ℕ, zero, suc, ◌+◌, ◌-◌, ◌≤◌, ◌≡◌, ◌⊎◌, inl, inr, refl, sym, ap, ◌∙◌, true, false, subst, List, [],
  ◌∷◌, ◌++◌, append_assoc, Bytes, length, take, drop, All, length-take, length-drop,
  take-append-drop, ltb, if_cases, Bool-cases, arith,
}
use freastal.Connection.State.{Client, client_buffered, unread}
use freastal.Connection.Dispatch.{
  Env, Header, Parse, incomplete, malformed, parsed, scan_header, scan_headers, read_head,
  start_head, hand_over, request_bytes, call_application, refuse, dispatch_body, http_dispatch,
  Verdict,
}
use freastal.Connection.Outcome.{Parses, Scanned, scan_headers-Scanned}
use freastal.Connection.Split.{declared, IsLocal, IsFramed}

module _ {S : Type 0} (env : Env S) where
  take-take : (m n : ℕ) (xs : Bytes) → m ≤ n → take m (take n xs) ≡ take m xs
  take-take zero n xs h = refl
  take-take (suc m) zero xs h = absurd (omega arith)
  take-take (suc m) (suc n) [] h = refl
  take-take (suc m) (suc n) (b ∷ xs) h = ap (λ t. b ∷ t) (take-take m n xs (omega arith))

  -- A whole request, cut out of what was unread when its head was parsed.
  cut-IsFramed :
      (input : Bytes) (last n minor len : ℕ) (hs : List Header)
      → IsLocal env
      → env.phr_parse_request input last ≡ parsed n minor hs
      → len ≡ n + declared hs 0
      → len ≤ length input
      → IsFramed env (take len input)
  cut-IsFramed input last n minor len hs l e q w = record {
    head = n;
    minor = minor;
    headers = hs;
    found = λ more.
        subst (λ s. env.phr_parse_request s 0 ≡ parsed n minor hs)
          (ap (λ t. t ++ (drop n (take len input) ++ more))
              (sym (take-take n len input (omega (arith, q))))
            ∙ sym (append_assoc (take n (take len input)) (drop n (take len input)) more)
            ∙ ap (λ t. t ++ more) (take-append-drop n (take len input)))
          (l input last n minor hs (drop n (take len input) ++ more) e);
    whole = omega (arith, length-take len input, q);
  }

  abbrev pub AllFramed : Client S → Type 0
  AllFramed c = All (IsFramed env) c.served

  pub same_served : (c d : Client S) → d.served ≡ c.served → AllFramed c → AllFramed d
  same_served c d e h = subst (λ l. All (IsFramed env) l) (sym e) h

  scan_headers-declared :
      (hs : List Header) (c : Client S)
      → (scan_headers hs c).content_length ≡ declared hs c.content_length
  unfolding scan_headers scan_header
  scan_headers-declared [] c = refl
  scan_headers-declared (h ∷ hs) c = ground (arith, scan_headers-declared hs (scan_header h c))

  call_application-served :
      (r : Bytes) (c : Client S) → (call_application env r c).served ≡ c.served
  unfolding call_application
  call_application-served r c = ground arith

  refuse-served : (c : Client S) → (refuse env c).served ≡ c.served
  unfolding refuse
  refuse-served c = ground arith

  abbrev IsShort : Client S → Type 0
  IsShort c = (ltb (client_buffered c - c.headers_end) c.content_length) ≡ true

  handed_over :
      (c : Client S)
      → IsShort c ⊎ IsFramed env (request_bytes c)
      → ltb (client_buffered c - c.headers_end) c.content_length ≡ false
      → AllFramed c
      → AllFramed (hand_over c)
  handed_over c (inl short) e h = absurd (ground (arith, short, e))
  handed_over c (inr g) e h = (g, h)

  dispatch_body-served :
      (c : Client S)
      → IsShort c ⊎ IsFramed env (request_bytes c)
      → AllFramed c
      → AllFramed (dispatch_body env c).0
  unfolding dispatch_body
  dispatch_body-served c f h =
      if_cases (λ (r : Client S × Verdict). AllFramed r.0)
        (ltb (client_buffered c - c.headers_end) c.content_length) (λ _. h)
        (λ whole.
          same_served (hand_over c) (call_application env (request_bytes c) (hand_over c))
            (call_application-served (request_bytes c) (hand_over c)) (handed_over c f whole h))

  -- The request that a head announces, if it is whole.
  announced :
      (n minor : ℕ) (hs : List Header) (c d : Client S)
      → Parses env
      → IsLocal env
      → env.phr_parse_request (unread c) c.last_len ≡ parsed n minor hs
      → Scanned (start_head n minor c) d
      → d.content_length ≡ declared hs 0
      → IsShort d ⊎ IsFramed env (request_bytes d)
  announced n minor hs c d p l e s q =
      elim (Bool-cases (ltb (client_buffered d - d.headers_end) d.content_length)) [
        | inl short ↦ inl short
        | inr enough ↦
            let head : d.headers_end ≡ n = ground (arith, s) in
            let same : unread d ≡ unread c = ground (arith, s) in
            let buffered : client_buffered d ≡ length (unread c) =
              ground (arith, s, length-drop c.read_off c.read_buf) in
            let fits = p (unread c) c.last_len n minor hs e in
            inr (
              subst (IsFramed env) (ap (λ u. take (d.headers_end + d.content_length) u) (sym same))
                (cut-IsFramed (unread c) c.last_len n minor (d.headers_end + d.content_length) hs l
                  e (omega (arith, head, q)) (ground (arith, head, q, fits, buffered, enough))))
      ]

  parsed-served :
      (pa : Parse) (c : Client S)
      → Parses env
      → IsLocal env
      → env.phr_parse_request (unread c) c.last_len ≡ pa
      → AllFramed c
      → AllFramed (http_dispatch env c).0
  unfolding http_dispatch read_head
  parsed-served incomplete c p l e h = rw (e, http_dispatch) h
  parsed-served malformed c p l e h =
      rw (e, http_dispatch) (same_served c (refuse env c) (refuse-served c) h)
  parsed-served (parsed n minor hs) c p l e h =
      let s = scan_headers-Scanned hs (start_head n minor c) in
      let d = scan_headers hs (start_head n minor c) in
      let q = scan_headers-declared hs (start_head n minor c) in
      rw (e, http_dispatch)
        (dispatch_body-served d (announced n minor hs c d p l e s q)
          (same_served c d (ground (arith, s)) h))

  pub http_dispatch-served :
      (c : Client S) → Parses env → IsLocal env → AllFramed c → AllFramed (http_dispatch env c).0
  http_dispatch-served c p l h =
      parsed-served (env.phr_parse_request (unread c) c.last_len) c p l refl h
