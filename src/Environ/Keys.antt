-- ===== src/Environ/Keys.antt =====
-- freastal/src/wsgi.c, build_environ(): the key of a header.
use freastal.Prelude.{
  ℕ, ◌-◌, ◌≤◌, ◌≡◌, refl, sym, ap, ◌∙◌, Option, none, some, List, [], ◌∷◌, ◌++◌, map, Bytes, All,
  if_cases, bytes_eq, bytes_eq_sound, ◌==◌, if◌then◌else◌, arith,
}
use freastal.Ascii.{codes, to_lower, equal_ignoring_case}
use freastal.HeaderCache.{HdrCacheEntry, key_byte, make_entry, hdr_names}
use freastal.HeaderCache.Lookup.{map-length, bytes_eq-length, hdr_table, find, hdr_cache_lookup_lem}
use freastal.Environ.{wsgi_header_key, header_key, separator}

-- The key that the table has is the key that would be made.
key_lower : (b : ℕ) → key_byte (to_lower b) ≡ key_byte b
unfolding key_byte to_lower
key_lower b = ground arith

keys_lower : (name : Bytes) → map key_byte (map to_lower name) ≡ map key_byte name
keys_lower [] = refl
keys_lower (b ∷ bs) = rw (key_lower b, keys_lower bs) refl

abbrev key_or : Bytes → Option HdrCacheEntry → Bytes
key_or key o = elim o [ none ↦ key | some e ↦ e.wsgi_key ]

key_or-find :
    (name : Bytes) (names : List Bytes)
    → key_or (wsgi_header_key name) (find name (map make_entry names)) ≡ wsgi_header_key name
unfolding wsgi_header_key make_entry
key_or-find name [] = refl
key_or-find name (n ∷ ns) =
    if_cases (λ o. key_or (wsgi_header_key name) o ≡ wsgi_header_key name) (bytes_eq name n)
      (λ e. ap wsgi_header_key (sym (bytes_eq_sound name n e))) λ e. key_or-find name ns

lower_key : (name : Bytes) → wsgi_header_key (map to_lower name) ≡ wsgi_header_key name
unfolding wsgi_header_key
lower_key name = ap (λ r. codes "HTTP_" ++ r) (keys_lower name)

pub header_key_lem : (name : Bytes) → header_key hdr_table name ≡ wsgi_header_key name
unfolding header_key hdr_table
header_key_lem name =
    ap (key_or (wsgi_header_key name)) (hdr_cache_lookup_lem name).1
    ∙ ap (λ k. key_or k (find (map to_lower name) (map make_entry hdr_names)))
        (sym (lower_key name))
    ∙ key_or-find (map to_lower name) hdr_names
    ∙ lower_key name

-- Two words of letters, one in either case.
letter_key : (b w : ℕ) → 97 ≤ w → w ≤ 122 → (key_byte b == w - 32) ≡ (to_lower b == w)
unfolding key_byte to_lower
letter_key b w h k = ground arith

abbrev IsSmall : ℕ → Type 0
IsSmall w = (97 ≤ w) × (w ≤ 122)

word_key :
    (n w : Bytes)
    → All IsSmall w
    → bytes_eq (map key_byte n) (map (λ b. b - 32) w) ≡ bytes_eq (map to_lower n) w
word_key [] [] h = refl
word_key [] (w ∷ ws) h = refl
word_key (b ∷ bs) [] h = refl
word_key (b ∷ bs) (w ∷ ws) h = ground (arith, letter_key b w h.0.0 h.0.1, word_key bs ws h.1)

-- A header is a Cookie just if its key is.
pub cookie_key :
    (name : Bytes)
    → separator name
      ≡ (if bytes_eq (wsgi_header_key name) (codes "HTTP_COOKIE") then codes "; " else codes ", ")
unfolding separator wsgi_header_key equal_ignoring_case
cookie_key name = ground (
  arith,
  word_key name (codes "cookie") (ground arith),
  bytes_eq-length (map to_lower name) (codes "cookie"),
  map-length to_lower name,
)
