-- ===== src/TlsWrite/Whole.antt =====
-- freastal/src/server.c: what the records of an encrypted response hold together.
use freastal.Prelude.{
  ℕ, zero, suc, ◌+◌, ◌-◌, ◌≤◌, ◌≡◌, refl, sym, ap, ◌∙◌, ◌⊎◌, inl, inr, Bool, true, false, not, ◌&&◌,
  Option, none, some, List, [], ◌∷◌, ◌++◌, append_assoc, append-nil, Bytes, length, length-append,
  length-drop, length_zero, take, drop, take-append-drop, get_or, min, ltb, ◌==◌, if_cases,
  option_cases, Bool-cases, if◌then◌else◌, arith,
}
use freastal.Sizes.{tls_wbuf_size, tls_wseg_max}
use freastal.TlsWrite.{
  Slice, tls_slice, tls_record_count, tls_encrypted_size, Progress, tls_wseg_open, nseg, Env,
  make_room, send_chunk, after_chunk, next_chunk, send_records, vectors, tls_write_response_impl,
}
use freastal.TlsWrite.Slices.{concat, left_from, tls_slice_lem}

-- The plaintext of the records, in the order they were sent.
abbrev pub sent_bytes : List (List Bytes) → Bytes
sent_bytes [] = []
sent_bytes (r ∷ rs) = sent_bytes rs ++ concat r

-- The cursor stays inside the vectors.
IsInside : List Bytes → Slice → Type 0
IsInside vec s = s.vecoff ≤ length (get_or vec s.veci [])

slice-IsInside :
    (fuel : ℕ) (vec : List Bytes) (i o want : ℕ)
    → o ≤ length (get_or vec i [])
    → IsInside vec (tls_slice fuel vec i o want)
unfolding tls_slice IsInside
slice-IsInside zero vec i o want h = h
slice-IsInside (suc fuel) vec i o want h =
    if_cases (IsInside vec) (want == 0) (λ z. h)
      λ z.
        let taken = min (length (get_or vec i []) - o) want in
        elim (Bool-cases (o + taken == length (get_or vec i []))) [
          | inl last ↦ rw last (slice-IsInside fuel vec (i + 1) 0 (want - taken) (omega arith))
          | inr mid ↦ rw mid (slice-IsInside fuel vec i (o + taken) (want - taken) (ground arith))
        ]

-- What was sent and what is left make up the response.
record Divides (vec : List Bytes) (left : ℕ) (p : Progress) : Type 0 where
  whole : sent_bytes p.sent ++ left_from vec p.veci p.vecoff ≡ concat vec
  count : length (left_from vec p.veci p.vecoff) ≡ left
  inside : p.vecoff ≤ length (get_or vec p.veci [])

-- Only the blocks differ.
abbrev IsSame : Progress → Option Progress → Type 0
IsSame p r =
    (r ≡ none)
    ⊎ ((q : Progress) × (r ≡ some q)
        × (q.sent ≡ p.sent)
        × (q.veci ≡ p.veci)
        × (q.vecoff ≡ p.vecoff))

all_sent :
    (vec : List Bytes) (left : ℕ) (p : Progress)
    → left ≡ 0
    → Divides vec left p
    → sent_bytes p.sent ≡ concat vec
all_sent vec left p z d =
    sym (append-nil (sent_bytes p.sent))
    ∙ ap (λ x. sent_bytes p.sent ++ x)
        (sym (length_zero (left_from vec p.veci p.vecoff) (d.count ∙ z)))
    ∙ d.whole

chunk_left : (o : Bool) (left : ℕ) → next_chunk o left ≤ left
chunk_left o left = ground arith

same_Divides :
    (vec : List Bytes) (left : ℕ) (p q : Progress)
    → q.sent ≡ p.sent
    → q.veci ≡ p.veci
    → q.vecoff ≡ p.vecoff
    → Divides vec left p
    → Divides vec left q
same_Divides vec left p q s i f d = record {
  whole = rw (s, i, f) d.whole;
  count = rw (i, f) d.count;
  inside = rw (i, f) d.inside;
}

-- The response that is sent, if one is.
abbrev IsResponse : Bytes → Bytes → Option Progress → Type 0
IsResponse hdr body r =
    (r ≡ none) ⊎ ((p : Progress) × (r ≡ some p) × (sent_bytes p.sent ≡ hdr ++ body))

module _ (env : Env) where
  make_room-IsSame : (o : Bool) (chunk : ℕ) (p : Progress) → IsSame p (make_room env o chunk p)
  unfolding make_room
  make_room-IsSame o chunk p =
      if_cases (IsSame p) (not o && ltb tls_wbuf_size (p.seg.off + chunk + env.rec_overhead))
        (λ full.
          if_cases (IsSame p) (nseg p == tls_wseg_max) (λ e. inl refl)
            λ e.
              if_cases (IsSame p) (env.wbuf_get (nseg p)) (λ f. inr (_, refl, refl, refl, refl))
                (λ f. inl refl))
        λ fits. inr (p, refl, refl, refl, refl)

  after_chunk-Divides :
      (vec : List Bytes) (left chunk : ℕ) (p : Progress)
      → chunk ≤ left
      → Divides vec left p
      → Divides vec (left - chunk) (after_chunk env vec chunk p)
  unfolding IsInside
  after_chunk-Divides vec left chunk p h d =
      let l = left_from vec p.veci p.vecoff in
      let (out, rest) =
        tls_slice_lem (length vec + 1) vec p.veci p.vecoff chunk (omega arith) d.inside
          (omega (arith, h, d.count)) in
      record {
        whole =
            rw (out, rest)
              (append_assoc (sent_bytes p.sent) (take chunk l) (drop chunk l)
                ∙ ap (λ x. sent_bytes p.sent ++ x) (take-append-drop chunk l)
                ∙ d.whole);
        count = rw rest (omega (arith, length-drop chunk l, d.count));
        inside = slice-IsInside (length vec + 1) vec p.veci p.vecoff chunk d.inside;
      }

  abbrev IsWhole : List Bytes → Option Progress → Type 0
  IsWhole vec r = (r ≡ none) ⊎ ((p : Progress) × (r ≡ some p) × (sent_bytes p.sent ≡ concat vec))

  send_records-IsWhole :
      (fuel : ℕ) (vec : List Bytes) (o : Bool) (left : ℕ) (p : Progress)
      → Divides vec left p
      → IsWhole vec (send_records env fuel vec o left p)
  unfolding send_records send_chunk
  send_records-IsWhole zero vec o left p d = inl refl
  send_records-IsWhole (suc fuel) vec o left p d =
      let chunk = next_chunk o left in
      if_cases (IsWhole vec) (left == 0) (λ z. inr (p, refl, all_sent vec left p (ground arith) d))
        λ z. elim (make_room-IsSame o chunk p) [
          | inl e ↦ rw e (inl refl)
          | inr (q, e, s, i, f) ↦ rw e (
              if_cases {A = Option Progress}
                (λ r.
                  IsWhole vec (elim r [
                    | none ↦ none
                    | some x ↦ send_records env fuel vec o (left - chunk) x
                  ]))
                (env.send (length q.sent))
                (λ t. send_records-IsWhole fuel vec o (left - chunk) (after_chunk env vec chunk q) (
                  after_chunk-Divides vec left chunk q (chunk_left o left)
                    (same_Divides vec left p q s i f d)))
                (λ t. inl refl))
        ]

one_vector : (v : Bytes) → concat (if length v == 0 then [] else v ∷ []) ≡ v
one_vector [] = refl
one_vector (b ∷ bs) =
    let z : (length (b ∷ bs) == 0) ≡ false = ground arith in rw z (append-nil (b ∷ bs))

concat-append : (as' bs : List Bytes) → concat (as' ++ bs) ≡ concat as' ++ concat bs
concat-append [] bs = refl
concat-append (a ∷ as') bs =
    ap (λ x. a ++ x) (concat-append as' bs) ∙ sym (append_assoc a (concat as') (concat bs))

concat-vectors : (hdr body : Bytes) → concat (vectors hdr body) ≡ hdr ++ body
concat-vectors hdr body =
    concat-append (if length hdr == 0 then [] else hdr ∷ [])
      (if length body == 0 then [] else body ∷ [])
    ∙ ap (λ x. x ++ concat (if length body == 0 then [] else body ∷ [])) (one_vector hdr)
    ∙ ap (λ x. hdr ++ x) (one_vector body)

start_Divides :
    (hdr body : Bytes) (capacity : ℕ)
    → Divides (vectors hdr body) (length hdr + length body) (record {
      filled = [];
      seg = record { off = 0; capacity = capacity };
      veci = 0;
      vecoff = 0;
      sent = [];
    })
start_Divides hdr body capacity = record {
  whole = refl;
  count = ap (λ (l : Bytes). length l) (concat-vectors hdr body) ∙ length-append hdr body;
  inside = omega arith;
}

as-IsResponse :
    (env : Env) (hdr body : Bytes) (r : Option Progress)
    → IsWhole env (vectors hdr body) r
    → IsResponse hdr body r
as-IsResponse env hdr body r (inl e) = inl e
as-IsResponse env hdr body r (inr (p, e, w)) = inr (p, e, w ∙ concat-vectors hdr body)

-- If tls_write_response_impl() sends a response, in one oversized buffer or in blocks, the records it
-- made hold exactly the header followed by the body, whatever memory and picotls refuse.
pub response_whole :
    (env : Env) (hdr body : Bytes)
    → (tls_write_response_impl env hdr body ≡ none)
      ⊎ ((p : Progress) × (tls_write_response_impl env hdr body ≡ some p)
          × (sent_bytes p.sent ≡ hdr ++ body))
unfolding tls_write_response_impl tls_wseg_open
response_whole env hdr body =
    let vec = vectors hdr body in
    let total = length hdr + length body in
    if_cases (IsResponse hdr body) (not (env.wbuf_get 0)) (λ e. inl refl)
      λ e.
        if_cases (IsResponse hdr body) (ltb tls_wseg_max (tls_record_count total))
          (λ big.
            option_cases (IsResponse hdr body)
              (env.bigbuf_get (tls_encrypted_size total env.rec_overhead)) (λ n. inl refl)
              (λ room n.
                as-IsResponse env hdr body _
                  (send_records-IsWhole env 2 vec true total _ (start_Divides hdr body room))))
          λ small. as-IsResponse env hdr body _ (
            send_records-IsWhole env (tls_record_count total + 1) vec false total _
              (start_Divides hdr body tls_wbuf_size))
