-- ===== src/TlsWrite/Slices.antt =====
-- freastal/src/server.c: tls_slice(), and what is left behind its cursor.
use freastal.Prelude.{
  ℕ, zero, suc, ◌+◌, ◌-◌, ◌≤◌, ◌<◌, ◌≡◌, refl, sym, ap, ◌∙◌, inl, inr, List, [], ◌∷◌, ◌++◌,
  append-nil, Bytes, length, length-append, length-drop, take, drop, drop-append, take_all,
  drop_all, drop-drop, get_or, min, ◌==◌, if_cases, Bool-cases, arith,
}
use freastal.TlsWrite.{Slice, tls_slice}

abbrev pub concat : List Bytes → Bytes
concat [] = []
concat (v ∷ vs) = v ++ concat vs

-- What is left of the vectors from a cursor on.
abbrev pub left_from : List Bytes → ℕ → ℕ → Bytes
left_from vec veci vecoff = drop vecoff (concat (drop veci vec))

take_past :
    (n : ℕ) (xs ys : Bytes) → length xs ≤ n → take n (xs ++ ys) ≡ xs ++ take (n - length xs) ys
take_past n [] ys h = ap (λ k. take k ys) {x = n} {y = n - 0} (omega arith)
take_past zero (x ∷ xs) ys h = absurd (omega arith)
take_past (suc n) (x ∷ xs) ys h =
    ap (λ l. x ∷ l) (take_past n xs ys (omega arith) ∙ ap (λ k. xs ++ take k ys) (omega arith))

drop_past : (n : ℕ) (xs ys : Bytes) → length xs ≤ n → drop n (xs ++ ys) ≡ drop (n - length xs) ys
drop_past n [] ys h = ap (λ k. drop k ys) {x = n} {y = n - 0} (omega arith)
drop_past zero (x ∷ xs) ys h = absurd (omega arith)
drop_past (suc n) (x ∷ xs) ys h =
    drop_past n xs ys (omega arith) ∙ ap (λ k. drop k ys) (omega arith)

take_within : (n : ℕ) (xs ys : Bytes) → n ≤ length xs → take n (xs ++ ys) ≡ take n xs
take_within zero xs ys h = refl
take_within (suc n) [] ys h = absurd (omega arith)
take_within (suc n) (x ∷ xs) ys h = ap (λ l. x ∷ l) (take_within n xs ys (omega arith))

drop-cons :
    (i : ℕ) (vec : List Bytes) → i < length vec → drop i vec ≡ get_or vec i [] ∷ drop (i + 1) vec
drop-cons zero [] h = absurd (omega arith)
drop-cons zero (v ∷ vs) h = refl
drop-cons (suc i) [] h = absurd (omega arith)
drop-cons (suc i) (v ∷ vs) h =
    drop-cons i vs (omega arith)
    ∙ ap (λ k. get_or vs i [] ∷ drop k (v ∷ vs)) {x = suc (i + 1)} {y = suc i + 1} (omega arith)

tls_slice-none :
    (fuel : ℕ) (vec : List Bytes) (i o : ℕ)
    → tls_slice fuel vec i o 0 ≡ record { out = []; veci = i; vecoff = o }
unfolding tls_slice
tls_slice-none zero vec i o = refl
tls_slice-none (suc fuel) vec i o = refl

-- What a slice is to be: the next bytes, with the cursor behind them.
abbrev pub Cuts : List Bytes → ℕ → ℕ → ℕ → Slice → Type 0
Cuts vec i o want s =
    (concat s.out ≡ take want (left_from vec i o))
    × (left_from vec s.veci s.vecoff ≡ drop want (left_from vec i o))

-- The vector at the cursor and what follows it.
left-split :
    (vec : List Bytes) (i o : ℕ)
    → i < length vec
    → o ≤ length (get_or vec i [])
    → left_from vec i o ≡ drop o (get_or vec i []) ++ concat (drop (i + 1) vec)
left-split vec i o h l =
    ap (λ d. drop o (concat d)) (drop-cons i vec h)
    ∙ drop-append o (get_or vec i []) (concat (drop (i + 1) vec)) l

cut-last :
    (vec : List Bytes) (i o want : ℕ) (r : Slice)
    → i < length vec
    → o ≤ length (get_or vec i [])
    → length (get_or vec i []) - o ≤ want
    → Cuts vec (i + 1) 0 (want - (length (get_or vec i []) - o)) r
    → Cuts vec i o want (record {
      out = take (length (get_or vec i []) - o) (drop o (get_or vec i [])) ∷ r.out;
      veci = r.veci;
      vecoff = r.vecoff;
    })
cut-last vec i o want r h l w c =
    let v : Bytes = get_or vec i [] in
    let e : length (drop o v) ≡ length v - o = length-drop o v in
    ground (
      arith,
      left-split vec i o h l,
      take_all (length v - o) (drop o v),
      e,
      take_past want (drop o v) (concat (drop (i + 1) vec)),
      drop_past want (drop o v) (concat (drop (i + 1) vec)),
      c.0,
      c.1,
    )

cut-within :
    (vec : List Bytes) (i o want : ℕ)
    → i < length vec
    → o + want < length (get_or vec i [])
    → Cuts vec i o want
        (record { out = take want (drop o (get_or vec i [])) ∷ []; veci = i; vecoff = o + want })
cut-within vec i o want h l =
    let v : Bytes = get_or vec i [] in
    (
      append-nil _
          ∙ sym (
              take_within want (drop o v) (concat (drop (i + 1) vec))
                (omega (arith, length-drop o v)))
          ∙ ap (take want) (sym (left-split vec i o h (omega arith))),
      drop-drop o want (concat (drop i vec)),
    )

nothing-left : (vec : List Bytes) (i o : ℕ) → length vec ≤ i → left_from vec i o ≡ []
nothing-left vec i o h =
    ap (λ d. drop o (concat d)) (drop_all i vec h) ∙ drop_all o [] (omega arith)

empty_cut : (want : ℕ) (l : Bytes) → l ≡ [] → ([] ≡ take want l) × (l ≡ drop want l)
empty_cut want [] h = (sym (take_all want [] (omega arith)), sym (drop_all want [] (omega arith)))
empty_cut want (b ∷ bs) h = absurd (ground arith)

left-enough :
    (vec : List Bytes) (i o want : ℕ)
    → i < length vec
    → o ≤ length (get_or vec i [])
    → want ≤ length (left_from vec i o)
    → want - (length (get_or vec i []) - o) ≤ length (left_from vec (i + 1) 0)
left-enough vec i o want h l w = omega (
  arith,
  w,
  ap (λ (b : Bytes). length b) (left-split vec i o h l),
  length-append (drop o (get_or vec i [])) (concat (drop (i + 1) vec)),
  length-drop o (get_or vec i []),
)

-- From a cursor inside the vectors, tls_slice() writes exactly the next bytes that are wanted, in
-- order, and leaves the cursor behind them, if that many are left and its fuel is at least the number of
-- vectors from the cursor on.
pub tls_slice_lem :
    (fuel : ℕ) (vec : List Bytes) (i o want : ℕ)
    → length vec ≤ i + fuel
    → o ≤ length (get_or vec i [])
    → want ≤ length (left_from vec i o)
    → Cuts vec i o want (tls_slice fuel vec i o want)
unfolding tls_slice
tls_slice_lem zero vec i o want f l w =
    empty_cut want (left_from vec i o) (nothing-left vec i o (omega arith))
tls_slice_lem (suc fuel) vec i o want f l w =
    if_cases (Cuts vec i o want) (want == 0)
      (λ z. let e : want ≡ 0 = ground arith in rw e (refl, refl))
      λ pos.
        let inside : i < length vec = ground (arith, nothing-left vec i o) in
        elim (Bool-cases
          (o + min (length (get_or vec i []) - o) want == length (get_or vec i []))) [
            | inl last ↦
                let taken : min (length (get_or vec i []) - o) want ≡ length (get_or vec i []) - o =
                  ground arith in
                rw (last, taken)
                  (cut-last vec i o want
                    (tls_slice fuel vec (i + 1) 0 (want - (length (get_or vec i []) - o))) inside l
                    (omega (arith, taken))
                    (tls_slice_lem fuel vec (i + 1) 0 (want - (length (get_or vec i []) - o))
                      (omega arith) (omega arith) (left-enough vec i o want inside l w)))
            | inr mid ↦
                let taken : min (length (get_or vec i []) - o) want ≡ want = ground arith in
                let z : want - want ≡ 0 = omega arith in
                rw (mid, taken, z, tls_slice-none fuel vec i (o + want))
                  (cut-within vec i o want inside (ground arith))
          ]
