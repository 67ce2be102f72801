-- ===== src/Connection/Split.antt =====
-- freastal/src/server.c: a stream split into requests from its start, as the parser and the
-- Content-Length headers delimit them.
use freastal.Prelude.{
  ℕ, zero, suc, ◌+◌, ◌≡◌, refl, sym, ap, ◌∙◌, false, ◌&&◌, List, [], ◌∷◌, ◌++◌, append_assoc, Bytes,
  length, take, drop, All, length-append, ltb, ◌==◌, if◌then◌else◌, arith,
}
use freastal.Ascii.{codes, equal_ignoring_case}
use freastal.Connection.Dispatch.{Env, Header, parsed, content_length_of}
use freastal.Connection.Stream.{spoken}

-- The length of the body that the headers declare; the last of several Content-Length headers wins.
abbrev pub declared : List Header → ℕ → ℕ
declared [] n = n
declared (h ∷ hs) n = declared hs (
    if length h.name == 14 && equal_ignoring_case h.name (codes "content-length")
    then content_length_of h.value
    else n)

-- What phr_parse_request() finds depends on the bytes of the head only, and not on how many there
-- were at the attempt before.
abbrev pub IsLocal : {S : Type 0} → Env S → Type 0
IsLocal env =
    (input : Bytes) (last n minor : ℕ) (hs : List Header) (more : Bytes)
    → env.phr_parse_request input last ≡ parsed n minor hs
    → env.phr_parse_request (take n input ++ more) 0 ≡ parsed n minor hs

module _ {S : Type 0} (env : Env S) where
  -- The stream split into requests from its start, as far as they are whole, at most so many.
  pub split : ℕ → Bytes → List Bytes
  split zero s = []
  split (suc left) s = elim (env.phr_parse_request s 0) [
    | parsed n minor hs ↦
        let len = n + declared hs 0 in
        let others = split left (drop len s) in
        if ltb (length s) len then [] else take len s ∷ others
    | _ ↦ []
  ]

  -- A request as the parser delimits it, whatever follows.
  pub record IsFramed (r : Bytes) : Type 0 where
    pub head : ℕ
    pub minor : ℕ
    pub headers : List Header
    pub found : (more : Bytes) → env.phr_parse_request (r ++ more) 0 ≡ parsed head minor headers
    pub whole : length r ≡ head + declared headers 0

  take-append_self : (r more : Bytes) → take (length r) (r ++ more) ≡ r
  take-append_self [] more = refl
  take-append_self (b ∷ r) more = ap (λ t. b ∷ t) (take-append_self r more)

  drop-append_self : (r more : Bytes) → drop (length r) (r ++ more) ≡ more
  drop-append_self [] more = refl
  drop-append_self (b ∷ r) more = drop-append_self r more

  split-framed :
      (left : ℕ) (r more : Bytes) → IsFramed r → split (suc left) (r ++ more) ≡ r ∷ split left more
  unfolding split
  split-framed left r more f =
      let enough : ltb (length (r ++ more)) (length r) ≡ false =
        ground (arith, length-append r more) in
      rw (f.found more, split, ← f.whole, enough, take-append_self r more, drop-append_self r more)
        refl

  -- The requests of a list, newest first, in the order of the stream.
  abbrev pub in_order : List Bytes → List Bytes
  in_order [] = []
  in_order (r ∷ rs) = in_order rs ++ (r ∷ [])

  pub split-spoken :
      (served : List Bytes) (left : ℕ) (more : Bytes)
      → All IsFramed served
      → split (length served + left) (spoken served ++ more) ≡ in_order served ++ split left more
  split-spoken [] left more h = ap (λ n. split n more) (omega arith)
  split-spoken (r ∷ rs) left more (f, h) =
      ap (λ n. split n ((spoken rs ++ r) ++ more)) (omega arith)
      ∙ ap (λ s. split (length rs + suc left) s) (append_assoc (spoken rs) r more)
      ∙ split-spoken rs (suc left) (r ++ more) h
      ∙ ap (λ l. in_order rs ++ l) (split-framed left r more f)
      ∙ sym (append_assoc (in_order rs) (r ∷ []) (split left more))
