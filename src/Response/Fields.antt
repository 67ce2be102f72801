-- ===== src/Response/Fields.antt =====
-- The loop over the headers that an application gave, against the lines of the head.
use freastal.Prelude.{
  ℕ, ◌≤◌, ◌<◌, ◌^◌, ◌≡◌, refl, ◌∙◌, Bool, true, false, ◌||◌, List, [], ◌∷◌, ◌++◌, append_assoc,
  append-nil, Bytes, length, length-append, leb, if_cases, arith,
}
use freastal.Sizes.{resp_hdr_size}
use freastal.Response.{Item, Formatting, done, ◌>>=◌, Writer, note_name, finish_head, append_each}
use freastal.Response.Render.{
  fit, Field, field_line, field_lines, is_content_length, is_connection, any_name, render,
  end_of_head, finish_head-lem,
}

-- What a writer has after a text, if the text fits.
abbrev pub wrote : Bytes → Bool → Bool → Formatting Writer
wrote text cl conn =
    fit text >>= λ h. done (record { hdr = h; have_content_length = cl; have_connection = conn })

pub note_name_lem :
    (name : Bytes) (w : Writer)
    → note_name name w ≡ record {
      hdr = w.hdr;
      have_content_length = w.have_content_length || is_content_length name;
      have_connection = w.have_connection || is_connection name;
    }
unfolding note_name
note_name_lem name w = ground arith

-- A step of the loop writes the line of one header, and takes note of its name.
abbrev pub Writes : (Item → Writer → Formatting Writer) → Item → Field → Type 0
Writes step item (name, v) =
    (w : Writer)
    → length w.hdr ≤ resp_hdr_size
    → step item w
      ≡ wrote (w.hdr ++ field_line (name, v)) (w.have_content_length || is_content_length name)
          (w.have_connection || is_connection name)

-- The headers that a list of objects stands for.
abbrev pub All2 : (Item → Field → Type 0) → List Item → List Field → Type 0
All2 P [] [] = Unit
All2 P [] (f ∷ fs) = true ≡ false
All2 P (i ∷ is) [] = true ≡ false
All2 P (i ∷ is) (f ∷ fs) = P i f × All2 P is fs

or-false : (b : Bool) → (b || false) ≡ b
or-false b = ground arith

or_assoc : (a b c : Bool) → ((a || b) || c) ≡ (a || (b || c))
or_assoc a b c = ground arith

wrote_cong : {s t : Bytes} {a b c d : Bool} → s ≡ t → a ≡ b → c ≡ d → wrote s a c ≡ wrote t b d
wrote_cong e f g = rw (e, f, g) refl

pub append_each-lem :
    (step : Item → Writer → Formatting Writer) (items : List Item) (fields : List Field)
    (w : Writer)
    → All2 (Writes step) items fields
    → length w.hdr ≤ resp_hdr_size
    → append_each step items w
      ≡ wrote
          (w.hdr ++ field_lines fields)
          (w.have_content_length || any_name is_content_length fields)
          (w.have_connection || any_name is_connection fields)
unfolding append_each
append_each-lem step [] [] w h l =
    rw (append-nil w.hdr, or-false w.have_content_length, or-false w.have_connection) ground arith
append_each-lem step [] (f ∷ fs) w h l = absurd (ground arith)
append_each-lem step (i ∷ is) [] w h l = absurd (ground arith)
append_each-lem step (i ∷ is) ((name, v) ∷ fs) w h l =
    let line = field_line (name, v) in
    rw (h.0 w l) (
      if_cases
        (λ r.
          ((r >>= λ k. done (record {
            hdr = k;
            have_content_length = w.have_content_length || is_content_length name;
            have_connection = w.have_connection || is_connection name;
          }))
            >>= append_each step is)
          ≡ wrote (w.hdr ++ (line ++ field_lines fs))
              (w.have_content_length || (is_content_length name || any_name is_content_length fs))
              (w.have_connection || (is_connection name || any_name is_connection fs)))
        (leb (length (w.hdr ++ line)) resp_hdr_size)
        (λ s.
          let w' : Writer = record {
            hdr = w.hdr ++ line;
            have_content_length = w.have_content_length || is_content_length name;
            have_connection = w.have_connection || is_connection name;
          } in
          append_each-lem step is fs w' h.1 (ground arith)
          ∙ wrote_cong (append_assoc w.hdr line (field_lines fs))
              (or_assoc w.have_content_length _ _) (or_assoc w.have_connection _ _))
        λ s. ground (
          arith,
          length-append w.hdr line,
          length-append line (field_lines fs),
          length-append w.hdr (line ++ field_lines fs),
        ))

-- A head from a first line that fits or is refused.
pub head_lem :
    (step : Item → Writer → Formatting Writer) (items : List Item) (fields : List Field)
    (first_line : Bytes) (n : ℕ) (keep_alive : Bool)
    → All2 (Writes step) items fields
    → n < 2 ^ 64
    → ((fit first_line >>= (λ hdr.
          append_each step items
            (record { hdr = hdr; have_content_length = false; have_connection = false })))
        >>= finish_head n keep_alive)
      ≡ fit (render first_line fields n keep_alive)
head_lem step items fields first_line n k h b =
    let cl = any_name is_content_length fields in
    let conn = any_name is_connection fields in
    let all = first_line ++ field_lines fields in
    if_cases
      (λ r.
        ((r >>= (λ hdr.
            append_each step items
              (record { hdr = hdr; have_content_length = false; have_connection = false })))
          >>= finish_head n k)
        ≡ fit (all ++ end_of_head cl conn n k))
      (leb (length first_line) resp_hdr_size)
      (λ s.
        rw
          (append_each-lem step items fields
            (record { hdr = first_line; have_content_length = false; have_connection = false }) h
            (ground arith))
          (if_cases
            (λ r.
              ((r >>= λ hdr.
              done (record { hdr = hdr; have_content_length = cl; have_connection = conn }))
                >>= finish_head n k)
              ≡ fit (all ++ end_of_head cl conn n k))
            (leb (length all) resp_hdr_size)
            (λ t.
              finish_head-lem n k
                (record { hdr = all; have_content_length = cl; have_connection = conn }) b
                (ground arith))
            λ t. ground (arith, length-append all (end_of_head cl conn n k))))
      λ s. ground (
        arith,
        length-append first_line (field_lines fields),
        length-append all (end_of_head cl conn n k),
      )
