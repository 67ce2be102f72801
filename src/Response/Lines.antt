-- ===== src/Response/Lines.antt =====
-- The head of a response as the lines that its recipient reads.
use freastal.Prelude.{
  ℕ, ◌<◌, ◌^◌, ◌≡◌, refl, sym, ap, ◌∙◌, Bool, true, false, List, [], ◌∷◌, ◌++◌, append_assoc,
  append-nil, Bytes, All, ◌==◌, if◌then◌else◌, arith,
}
use freastal.Ascii.{codes}
use freastal.HeaderSyntax.Grammar.{IsInLine}
use freastal.Decimal.Digits.{AllDigits, fill_digits-AllDigits}
use freastal.Response.{crlf, colon_space}
use freastal.Response.Render.{
  decimal, content_length_line, connection_line, end_of_head, Field, field_line, field_lines,
  any_name, is_content_length, is_connection, render,
}

-- The lines of a text, for a recipient that ends a line at any LF and passes over any CR.
unfoldable pub split_lines : Bytes → Bytes → List Bytes
split_lines line [] = []
split_lines line (b ∷ bs) =
    let next = split_lines [] bs in
    let same = split_lines line bs in
    let longer = split_lines (line ++ (b ∷ [])) bs in
    if b == 10 then line ∷ next else if b == 13 then same else longer

pub split_lines-line :
    (line text rest : Bytes)
    → All IsInLine text
    → split_lines line ((text ++ crlf) ++ rest) ≡ (line ++ text) ∷ split_lines [] rest
unfolding split_lines
split_lines-line line [] rest h = ap (λ l. l ∷ split_lines [] rest) (sym (append-nil line))
split_lines-line line (b ∷ bs) rest h =
    let ih = split_lines-line (line ++ (b ∷ [])) bs rest h.1 in
    let e : (line ++ (b ∷ [])) ++ bs ≡ line ++ (b ∷ bs) = append_assoc line (b ∷ []) bs in
    ground (arith, ih, e)

-- A text is written as these lines.
abbrev pub WrittenAs : Bytes → List Bytes → Type 0
WrittenAs text lines = (rest : Bytes) → split_lines [] (text ++ rest) ≡ lines ++ split_lines [] rest

pub line-WrittenAs : (text : Bytes) → All IsInLine text → WrittenAs (text ++ crlf) (text ∷ [])
line-WrittenAs text h rest = split_lines-line [] text rest h

pub append-WrittenAs :
    (a b : Bytes) (ls ms : List Bytes)
    → WrittenAs a ls
    → WrittenAs b ms
    → WrittenAs (a ++ b) (ls ++ ms)
append-WrittenAs a b ls ms p q rest =
    ap (split_lines []) (append_assoc a b rest)
    ∙ p (b ++ rest)
    ∙ rw (q rest) (sym (append_assoc ls ms _))

-- The lines of the head.
abbrev pub header_line : Field → Bytes
header_line (name, v) = (name ++ colon_space) ++ v

abbrev pub header_lines : List Field → List Bytes
header_lines [] = []
header_lines (f ∷ fs) = header_line f ∷ header_lines fs

abbrev pub added_lines : Bool → Bool → ℕ → Bool → List Bytes
added_lines cl conn n keep_alive =
    (if cl then [] else (codes "Content-Length: " ++ decimal n) ∷ [])
    ++ (if conn
        then []
        else (if keep_alive then codes "Connection: keep-alive" else codes "Connection: close")
          ∷ [])

-- The lines of the application, those that are added, and the empty line.
abbrev pub head_lines : Bytes → List Field → ℕ → Bool → List Bytes
head_lines first_line fields n keep_alive =
    (first_line ∷ header_lines fields)
    ++ (added_lines (any_name is_content_length fields) (any_name is_connection fields) n keep_alive
        ++ ([] ∷ []))

-- Neither the name nor the value ends a line.
abbrev pub IsFieldInLine : Field → Type 0
IsFieldInLine (name, v) = All IsInLine name × All IsInLine v

pub All-append-IsInLine : (a b : Bytes) → All IsInLine a → All IsInLine b → All IsInLine (a ++ b)
All-append-IsInLine [] b h k = k
All-append-IsInLine (x ∷ xs) b h k = (h.0, All-append-IsInLine xs b h.1 k)

pub digits-IsInLine : (ds : Bytes) → AllDigits ds → All IsInLine ds
digits-IsInLine [] h = tt
digits-IsInLine (d ∷ ds) h = (ground arith, digits-IsInLine ds h.1)

header_lines-WrittenAs :
    (fields : List Field)
    → All IsFieldInLine fields
    → WrittenAs (field_lines fields) (header_lines fields)
header_lines-WrittenAs [] h = λ rest. refl
header_lines-WrittenAs ((name, v) ∷ fs) h =
    append-WrittenAs (field_line (name, v)) (field_lines fs) (header_line (name, v) ∷ [])
      (header_lines fs)
      (line-WrittenAs _ (
        All-append-IsInLine (name ++ colon_space) v
          (All-append-IsInLine name colon_space h.0.0 (ground arith)) h.0.1))
      (header_lines-WrittenAs fs h.1)

content_length-WrittenAs :
    (given : Bool) (n : ℕ)
    → n < 2 ^ 64
    → WrittenAs
        (content_length_line given n)
        (if given then [] else (codes "Content-Length: " ++ decimal n) ∷ [])
content_length-WrittenAs true n h = λ rest. refl
content_length-WrittenAs false n h = line-WrittenAs _ (
    All-append-IsInLine (codes "Content-Length: ") (decimal n) (ground arith)
      (digits-IsInLine (decimal n) (fill_digits-AllDigits n h)))

connection-WrittenAs :
    (given keep_alive : Bool)
    → WrittenAs (connection_line given keep_alive) (
        if given
        then []
        else (if keep_alive then codes "Connection: keep-alive" else codes "Connection: close")
          ∷ [])
connection-WrittenAs true k = λ rest. refl
connection-WrittenAs false true = line-WrittenAs (codes "Connection: keep-alive") (ground arith)
connection-WrittenAs false false = line-WrittenAs (codes "Connection: close") (ground arith)

pub render-WrittenAs :
    (first_line : Bytes) (fields : List Field) (n : ℕ) (keep_alive : Bool)
    → All IsInLine first_line
    → All IsFieldInLine fields
    → n < 2 ^ 64
    → WrittenAs
        (render (first_line ++ crlf) fields n keep_alive)
        (head_lines first_line fields n keep_alive)
render-WrittenAs first_line fields n k s h b =
    let cl = any_name is_content_length fields in
    let conn = any_name is_connection fields in
    append-WrittenAs _ (end_of_head cl conn n k) (first_line ∷ header_lines fields) _
      (append-WrittenAs (first_line ++ crlf) (field_lines fields) (first_line ∷ [])
        (header_lines fields) (line-WrittenAs first_line s) (header_lines-WrittenAs fields h))
      (append-WrittenAs (content_length_line cl n ++ connection_line conn k) crlf
        (added_lines cl conn n k) ([] ∷ [])
        (append-WrittenAs (content_length_line cl n) (connection_line conn k) _ _
          (content_length-WrittenAs cl n b) (connection-WrittenAs conn k))
        (line-WrittenAs [] tt))
