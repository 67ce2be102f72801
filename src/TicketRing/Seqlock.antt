-- ===== src/TicketRing/Seqlock.antt =====
-- freastal/src/tls.c, the seqlock of the shared ticket ring: tls_ticket_ring_publish() in one process
-- and tls_ticket_ring_read() in another, word by word and in any order that the fences allow. The
-- protected fields are a list of words; `count` is how often `seq` was stored, which is `seq` itself
-- modulo 2 ^ 32; `published` is what was there when the last publication ended.
use freastal.Prelude.{
  ℕ, zero, suc, ◌+◌, ◌%◌, ◌^◌, ◌≤◌, ◌<◌, ◌≡◌, ◌≢◌, refl, ap, ◌∙◌, sym, ◌⊎◌, inl, inr, ◌||◌, [], ◌∷◌,
  ◌++◌, Bytes, length, length-append, Bool-cases, if_cases, get_or, set, take, take_all, ◌==◌,
  if◌then◌else◌, arith,
}

-- Where the reader stands: between two attempts, or in one that started at a count and has copied a
-- prefix of the words, or with a copy that it has accepted.
pub data Reader : Type 0 where
  resting : Reader
  copying : (start : ℕ) (copied : Bytes) → Reader
  returned : (copied : Bytes) → Reader

pub record World : Type 0 where
  pub words : Bytes
  pub count : ℕ
  pub published : Bytes
  pub reader : Reader

abbrev pub seq : World → ℕ
seq w = w.count % 2 ^ 32

-- The two stores of tls_ticket_ring_publish() to `seq`, and one to a word between them.
unfoldable pub open_window : World → World
open_window w = record w { count = w.count + 1 }

unfoldable pub store_word : ℕ → ℕ → World → World
store_word i v w = record w { words = set w.words i v }

unfoldable pub close_window : World → World
close_window w = record w { count = w.count + 1; published = w.words }

-- tls_ticket_ring_read(): the test of the first load, the copy of one word, and the second load.
unfoldable pub begin_read : World → World
begin_read w = if seq w == 0 || seq w % 2 == 1 then w else record w { reader = copying w.count [] }

unfoldable pub copy_word : World → World
copy_word w = elim w.reader [
  | copying start copied ↦ record w {
    reader = copying start (copied ++ (get_or w.words (length copied) 0 ∷ []));
  }
  | _ ↦ w
]

unfoldable pub end_read : World → World
end_read w = elim w.reader [
  | copying start copied ↦ record w {
    reader = if seq w == start % 2 ^ 32 then returned copied else resting;
  }
  | _ ↦ w
]

-- The reader compares `seq` when it has copied every word.
pub data Step (w : World) : World → Type 0 where
  opens : w.count % 2 ≡ 0 → Step w (open_window w)
  stores : (i v : ℕ) → w.count % 2 ≡ 1 → Step w (store_word i v w)
  closes : w.count % 2 ≡ 1 → Step w (close_window w)
  begins : Step w (begin_read w)
  copies :
      (start : ℕ) (copied : Bytes)
      → w.reader ≡ copying start copied
      → length copied < length w.words
      → Step w (copy_word w)
  ends :
      (start : ℕ) (copied : Bytes)
      → w.reader ≡ copying start copied
      → length copied ≡ length w.words
      → Step w (end_read w)

pub data Reach (words : Bytes) : World → Type 0 where
  fresh : Reach words (record { words = words; count = 0; published = words; reader = resting })
  later : {v w : World} → Reach words v → Step v w → Reach words w

-- A copy under way holds the words as far as it got, as long as `seq` has not moved.
abbrev InStep : World → Reader → Type 0
InStep w resting = Unit
InStep w (copying start copied) =
    (start % 2 ≡ 0) × (start ≤ w.count) × (w.count ≡ start → copied ≡ take (length copied) w.words)
InStep w (returned copied) = Unit

record Good (w : World) : Type 0 where
  quiet : w.count % 2 ≡ 0 → w.words ≡ w.published
  in_step : InStep w w.reader

take-next :
    (ws : Bytes) (n : ℕ) → n < length ws → take (n + 1) ws ≡ take n ws ++ (get_or ws n 0 ∷ [])
take-next [] n h = absurd (omega arith)
take-next (w ∷ ws) zero h = ground arith
take-next (w ∷ ws) (suc n) h = ground (arith, take-next ws n)

module _ (w : World) (g : Good w) where
  opens-Good : w.count % 2 ≡ 0 → Good (open_window w)
  unfolding open_window
  opens-Good e = record { quiet = ground arith; in_step = moved w.reader g.in_step }
    where
      moved : (r : Reader) → InStep w r → InStep (open_window w) r
      moved resting h = tt
      moved (copying start copied) h = (h.0, omega (arith, h.1), λ z. absurd (omega (arith, h.1)))
      moved (returned copied) h = tt

  stores-Good : (i v : ℕ) → w.count % 2 ≡ 1 → Good (store_word i v w)
  unfolding store_word
  stores-Good i v e = record { quiet = ground arith; in_step = moved w.reader g.in_step }
    where
      moved : (r : Reader) → InStep w r → InStep (store_word i v w) r
      moved resting h = tt
      moved (copying start copied) h = (h.0, h.1, λ z. absurd (omega (arith, h.0)))
      moved (returned copied) h = tt

  closes-Good : w.count % 2 ≡ 1 → Good (close_window w)
  unfolding close_window
  closes-Good e = record { quiet = λ _. refl; in_step = moved w.reader g.in_step }
    where
      moved : (r : Reader) → InStep w r → InStep (close_window w) r
      moved resting h = tt
      moved (copying start copied) h = (h.0, omega (arith, h.1), λ z. absurd (omega (arith, h.1)))
      moved (returned copied) h = tt

  begins-Good : Good (begin_read w)
  unfolding begin_read
  begins-Good = ground (arith, g.quiet, g.in_step)

  at_reader : (r : Reader) → w.reader ≡ r → InStep w r
  at_reader r e = rw (← e) g.in_step

  copies-Good :
      (start : ℕ) (copied : Bytes)
      → w.reader ≡ copying start copied
      → length copied < length w.words
      → Good (copy_word w)
  unfolding copy_word
  copies-Good start copied e l =
      let (even, past, same) = at_reader (copying start copied) e in
      rw (e, copy_word)
        (record {
          quiet = g.quiet;
          in_step = (even, past, λ z. copied_next start copied (same z) l);
        })
    where
      copied_next :
          (start : ℕ) (copied : Bytes)
          → copied ≡ take (length copied) w.words
          → length copied < length w.words
          → copied ++ (get_or w.words (length copied) 0 ∷ [])
            ≡ take (length (copied ++ (get_or w.words (length copied) 0 ∷ []))) w.words
      copied_next start copied same l =
          ap (λ p. p ++ (get_or w.words (length copied) 0 ∷ [])) same
          ∙ sym (take-next w.words (length copied) l)
          ∙ ap (λ k. take k w.words)
              (sym (length-append copied (get_or w.words (length copied) 0 ∷ [])))

  ends-Good : (start : ℕ) (copied : Bytes) → w.reader ≡ copying start copied → Good (end_read w)
  unfolding end_read
  ends-Good start copied e =
      rw (e, end_read)
        (record {
          quiet = g.quiet;
          in_step = if_cases (InStep w) (seq w == start % 2 ^ 32) (λ _. tt) (λ _. tt);
        })

Step-Good : {v w : World} → Step v w → Good v → Good w
Step-Good {v} (opens e) g = opens-Good v g e
Step-Good {v} (stores i x e) g = stores-Good v g i x e
Step-Good {v} (closes e) g = closes-Good v g e
Step-Good {v} begins g = begins-Good v g
Step-Good {v} (copies start copied e l) g = copies-Good v g start copied e l
Step-Good {v} (ends start copied e l) g = ends-Good v g start copied e

Reach-Good : {words : Bytes} {w : World} → Reach words w → Good w
Reach-Good fresh = record { quiet = λ _. refl; in_step = tt }
Reach-Good (later r st) = Step-Good st (Reach-Good r)

-- If the reader of the seqlock has copied every word, and `seq` was stored fewer than 2 ^ 32 times
-- since it began, then what it does next is one of two things: it returns its copy, which is what
-- the last publication left and all of it, if `seq` is what it was; and else it returns nothing.
pub returns_published :
    {words : Bytes} {w : World} (start : ℕ) (copied : Bytes)
    → Reach words w
    → w.reader ≡ copying start copied
    → length copied ≡ length w.words
    → w.count < start + 2 ^ 32
    → (((end_read w).reader ≡ returned copied) × (copied ≡ w.published) × (w.count ≡ start))
      ⊎ (((end_read w).reader ≡ resting) × (w.count ≢ start))
unfolding end_read
returns_published {words} {w} start copied r e l u =
    let g = Reach-Good r in
    let (even, past, same) = at_reader w g (copying start copied) e in
    elim (Bool-cases (seq w == start % 2 ^ 32)) [
      | inl unmoved ↦
          let z : w.count ≡ start = ground arith in
          inl (
            rw (e, end_read, unmoved) refl,
            same z
                ∙ ap (λ k. take k w.words) l
                ∙ take_all (length w.words) w.words (omega arith)
                ∙ g.quiet (omega arith),
            z,
          )
      | inr moved ↦ inr (rw (e, end_read, moved) refl, λ z. absurd (ground arith))
    ]
