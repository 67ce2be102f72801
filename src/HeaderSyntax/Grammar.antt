-- ===== src/HeaderSyntax/Grammar.antt =====
-- freastal/src/hdrvalid.h against the grammar of RFC 9110.
use freastal.Prelude.{
  ℕ, zero, suc, Bool-cases, ltb, ◌≤◌, ◌<◌, ◌≡◌, ◌≢◌, ◌↔◌, refl, ◌⊎◌, inl, inr, Bool, true, false,
  not, ◌&&◌, ◌||◌, [], ◌∷◌, Bytes, length, All, get_or, leb, ◌==◌, all_below, all_below_sound,
  arith,
}
use freastal.Ascii.{codes}
use freastal.HeaderSyntax.{freastal_tchar, name_bytes_ok, hdr_name_ok, hdr_value_ok, status_ok}

abbrev mem : ℕ → Bytes → Bool
mem b [] = false
mem b (c ∷ cs) = (b == c) || mem b cs

-- tchar = "!" / "#" / "$" / "%" / "&" / "'" / "*" / "+" / "-" / "." / "^" / "_" / "`" / "|" / "~"
--         / DIGIT / ALPHA
pub is_tchar : ℕ → Bool
is_tchar b =
    (leb 48 b && leb b 57)
    || ((leb 65 b && leb b 90) || ((leb 97 b && leb b 122) || mem b (codes "!#$%&'*+-.^_`|~")))

-- The bytes of a value: VCHAR, SP, HTAB and obs-text.
abbrev pub IsFieldByte : ℕ → Type 0
IsFieldByte b = (b ≡ 9) ⊎ ((32 ≤ b) × (b ≢ 127))

abbrev pub IsDigit : ℕ → Type 0
IsDigit b = (48 ≤ b) × (b ≤ 57)

eqb : Bool → Bool → Bool
eqb true b = b
eqb false b = not b

eqb_sound : (a b : Bool) → eqb a b ≡ true → a ≡ b
unfolding eqb
eqb_sound a b h = ground arith

-- The table against the grammar, byte by byte.
tchar_table : all_below 256 (λ b. eqb (not (get_or freastal_tchar b 0 == 0)) (is_tchar b)) ≡ true
unfolding eqb is_tchar freastal_tchar
tchar_table = refl

tchar_lem : (b : ℕ) → b < 256 → not (get_or freastal_tchar b 0 == 0) ≡ is_tchar b
tchar_lem b h = eqb_sound _ _ (
    all_below_sound 256 (λ b. eqb (not (get_or freastal_tchar b 0 == 0)) (is_tchar b)) b tchar_table
      h)

name_bytes_ok_lem :
    (s : Bytes) → All (λ b. b < 256) s → (name_bytes_ok s ≡ true) ↔ All (λ b. is_tchar b ≡ true) s
unfolding name_bytes_ok
name_bytes_ok_lem [] h = ground arith
name_bytes_ok_lem (b ∷ bs) h = ground (arith, tchar_lem b, name_bytes_ok_lem bs)

-- On bytes, freastal_hdr_name_ok() accepts a name just if it is a non-empty token of RFC 9110.
hdr_name_ok_lem :
    (s : Bytes)
    → All (λ b. b < 256) s
    → (hdr_name_ok s ≡ true) ↔ ((0 < length s) × All (λ b. is_tchar b ≡ true) s)
unfolding hdr_name_ok
hdr_name_ok_lem s h = ground (arith, name_bytes_ok_lem s h)

-- freastal_hdr_value_ok() accepts a value just if each of its bytes is HTAB, SP, VCHAR or obs-text.
pub hdr_value_ok_lem : (s : Bytes) → (hdr_value_ok s ≡ true) ↔ All IsFieldByte s
unfolding hdr_value_ok
hdr_value_ok_lem [] = ground arith
hdr_value_ok_lem (c ∷ cs) = ground (arith, hdr_value_ok_lem cs)

-- The grammar of a status: three digits, alone or followed by a space and a reason.
abbrev pub IsStatus : Bytes → Type 0
IsStatus [] = true ≡ false
IsStatus (a ∷ []) = true ≡ false
IsStatus (a ∷ b ∷ []) = true ≡ false
IsStatus (a ∷ b ∷ c ∷ []) = IsDigit a × IsDigit b × IsDigit c
IsStatus (a ∷ b ∷ c ∷ d ∷ reason) =
    IsDigit a × IsDigit b × IsDigit c × (d ≡ 32) × All IsFieldByte reason

-- freastal_status_ok() accepts a status just if it is three digits, alone or followed by a space and
-- bytes that a field value may hold.
status_ok_lem : (s : Bytes) → (status_ok s ≡ true) ↔ IsStatus s
unfolding status_ok hdr_value_ok
status_ok_lem [] = ground arith
status_ok_lem (a ∷ []) = ground arith
status_ok_lem (a ∷ b ∷ []) = ground arith
status_ok_lem (a ∷ b ∷ c ∷ []) = ground arith
status_ok_lem (a ∷ b ∷ c ∷ d ∷ reason) = ground (arith, hdr_value_ok_lem reason)

-- A byte that ends no line.
abbrev pub IsInLine : ℕ → Type 0
IsInLine b = (b ≢ 13) × (b ≢ 10) × (b ≢ 0)

tchar-IsInLine : (b : ℕ) → is_tchar b ≡ true → IsInLine b
unfolding is_tchar
tchar-IsInLine b h = ground arith

name-IsInLine : (s : Bytes) → All (λ b. is_tchar b ≡ true) s → All IsInLine s
name-IsInLine [] h = tt
name-IsInLine (b ∷ bs) h = (tchar-IsInLine b h.0, name-IsInLine bs h.1)

value-IsInLine : (s : Bytes) → All IsFieldByte s → All IsInLine s
value-IsInLine [] h = tt
value-IsInLine (b ∷ bs) h = (ground arith, value-IsInLine bs h.1)

status-IsInLine : (s : Bytes) → IsStatus s → All IsInLine s
status-IsInLine [] h = tt
status-IsInLine (a ∷ []) h = absurd (ground arith)
status-IsInLine (a ∷ b ∷ []) h = absurd (ground arith)
status-IsInLine (a ∷ b ∷ c ∷ []) h = ground arith
status-IsInLine (a ∷ b ∷ c ∷ d ∷ reason) h = ground (arith, value-IsInLine reason)

get_or-out : (xs : Bytes) (i d : ℕ) → length xs ≤ i → get_or xs i d ≡ d
get_or-out [] i d h = refl
get_or-out (x ∷ xs) zero d h = absurd (omega arith)
get_or-out (x ∷ xs) (suc i) d h = get_or-out xs i d (omega arith)

tchar-length : length freastal_tchar ≡ 256
unfolding freastal_tchar
tchar-length = refl

byte_or_not : (b : ℕ) → (b < 256) ⊎ (get_or freastal_tchar b 0 ≡ 0)
byte_or_not b = elim (Bool-cases (ltb b 256)) [
  | inl e ↦ inl (ground arith)
  | inr e ↦ inr (get_or-out freastal_tchar b 0 (ground (arith, tchar-length)))
]

-- The table has entries for bytes only.
name_bytes-below : (s : Bytes) → name_bytes_ok s ≡ true → All (λ b. b < 256) s
unfolding name_bytes_ok
name_bytes-below [] h = tt
name_bytes-below (b ∷ bs) h = elim (byte_or_not b) [
  | inl l ↦ (l, name_bytes-below bs (ground arith))
  | inr e ↦ absurd (ground arith)
]

pub hdr_name_ok-IsInLine : (s : Bytes) → hdr_name_ok s ≡ true → All IsInLine s
unfolding hdr_name_ok
hdr_name_ok-IsInLine s h =
    let below = name_bytes-below s (ground arith) in
    name-IsInLine s ((name_bytes_ok_lem s below).0 (ground arith))

pub hdr_value_ok-IsInLine : (s : Bytes) → hdr_value_ok s ≡ true → All IsInLine s
hdr_value_ok-IsInLine s h = value-IsInLine s ((hdr_value_ok_lem s).0 h)

pub status_ok-IsInLine : (s : Bytes) → status_ok s ≡ true → All IsInLine s
status_ok-IsInLine s h = status-IsInLine s ((status_ok_lem s).0 h)

-- On bytes, no name, value or status that is accepted holds CR, LF or NUL, so that none of them ends
-- its line in the response.
breaks_no_line :
    (s : Bytes)
    → All (λ b. b < 256) s
    → ((hdr_name_ok s ≡ true) ⊎ ((hdr_value_ok s ≡ true) ⊎ (status_ok s ≡ true)))
    → All IsInLine s
breaks_no_line s h (inl name) = name-IsInLine s ((hdr_name_ok_lem s h).0 name).1
breaks_no_line s h (inr (inl v)) = value-IsInLine s ((hdr_value_ok_lem s).0 v)
breaks_no_line s h (inr (inr v)) = status-IsInLine s ((status_ok_lem s).0 v)
