-- ===== src/HeaderCache/Lookup.antt =====
-- freastal/src/hdrcache.c: the lookup against a search of the whole table.
use freastal.Prelude.{
  ℕ, suc, ◌+◌, ◌≤◌, ◌<◌, ◌≡◌, ◌⊎◌, inr, sym, refl, ap, ◌∙◌, Bool, true, false, not, ◌&&◌, ◌||◌,
  Option, none, some, List, [], ◌∷◌, map, Bytes, length, All, get_or, drop, bytes_eq,
  bytes_eq_sound, ltb, ◌==◌, all_below, all_below_sound, if◌then◌else◌, arith,
}
use freastal.Ascii.{to_lower}
use freastal.HeaderCache.{
  hdr_cache_max_len, hdr_names, HdrCacheEntry, HdrTable, flip_case, hdr_eq_ci, scan_slice,
  fold_first, slice, hdr_cache_lookup, names_sorted, key_byte, make_entry, advance, fill_offsets,
  hdr_cache_init,
}

-- The table that the server runs with.
unfoldable pub hdr_table : HdrTable
hdr_table =
    let table = map make_entry hdr_names in
    record { entries = table; hdr_offset = fill_offsets (hdr_cache_max_len + 2) 0 0 table }

-- hdr_cache_init() accepts the names of the source.
pub hdr_cache_init_succeeds : hdr_cache_init hdr_names ≡ some hdr_table
unfolding hdr_cache_init hdr_table hdr_names names_sorted
hdr_cache_init_succeeds = refl

-- The first entry of that name.
abbrev pub find : Bytes → List HdrCacheEntry → Option HdrCacheEntry
find name [] = none
find name (e ∷ es) = if bytes_eq name e.name then some e else find name es

abbrev of_length : ℕ → List HdrCacheEntry → List HdrCacheEntry
of_length n [] = []
of_length n (e ∷ es) = if length e.name == n then e ∷ of_length n es else of_length n es

-- A byte that no capital letter is.
abbrev IsLower : ℕ → Type 0
IsLower b = (b < 65) ⊎ (90 < b)

byte_fold :
    (a b : ℕ)
    → IsLower b
    → (a == b) || not (not (flip_case a == b) || (ltb b 97 || ltb 122 b)) ≡ (to_lower a == b)
unfolding to_lower
byte_fold a b l = ground arith

pub map-length : (f : ℕ → ℕ) (l : Bytes) → length (map f l) ≡ length l
map-length f [] = refl
map-length f (b ∷ bs) = ap suc (map-length f bs)

hdr_eq_ci-fold :
    (s l : Bytes)
    → length s ≡ length l
    → All IsLower l
    → hdr_eq_ci s l ≡ bytes_eq (map to_lower s) l
unfolding hdr_eq_ci
hdr_eq_ci-fold [] [] h k = refl
hdr_eq_ci-fold [] (b ∷ bs) h k = absurd (omega arith)
hdr_eq_ci-fold (a ∷ as') [] h k = absurd (omega arith)
hdr_eq_ci-fold (a ∷ as') (b ∷ bs) h k = ground (arith, byte_fold a b, hdr_eq_ci-fold as' bs)

pub bytes_eq-length : (a b : Bytes) → bytes_eq a b ≡ true → length a ≡ length b
bytes_eq-length [] [] h = refl
bytes_eq-length [] (b ∷ bs) h = absurd (ground arith)
bytes_eq-length (a ∷ as') [] h = absurd (ground arith)
bytes_eq-length (a ∷ as') (b ∷ bs) h = ground (arith, bytes_eq-length as' bs)

find-of_length :
    (n : Bytes) (es : List HdrCacheEntry) → find n (of_length (length n) es) ≡ find n es
find-of_length n [] = refl
find-of_length n (e ∷ es) = ground (arith, bytes_eq-length n e.name, find-of_length n es)

-- The names of the table are in lower case, and of a length between 1 and 32.
abbrev IsEntry : HdrCacheEntry → Type 0
IsEntry e = (0 < length e.name) × (length e.name ≤ 32) × All IsLower e.name

fold_first-lower : (c : ℕ) → fold_first c ≡ to_lower c
unfolding to_lower
fold_first-lower c = ground arith

head_find :
    (c : ℕ) (cs n : Bytes)
    → length n ≡ suc (length cs)
    → All IsLower n
    → (if not (get_or n 0 0 == fold_first c) then false else hdr_eq_ci cs (drop 1 n))
      ≡ bytes_eq (to_lower c ∷ map to_lower cs) n
head_find c cs [] h l = absurd (omega arith)
head_find c cs (b ∷ bs) h l = ground (arith, fold_first-lower c, hdr_eq_ci-fold cs bs)

scan_slice-find :
    (c : ℕ) (cs : Bytes) (es : List HdrCacheEntry)
    → All IsEntry es
    → All (λ e. length e.name ≡ suc (length cs)) es
    → scan_slice (c ∷ cs) (fold_first c) es ≡ find (map to_lower (c ∷ cs)) es
unfolding scan_slice
scan_slice-find c cs [] h l = refl
scan_slice-find c cs (e ∷ es) h l =
    ground (arith, head_find c cs e.name l.0 h.0.2, scan_slice-find c cs es h.1 l.1)

of_length-length : (n : ℕ) (es : List HdrCacheEntry) → All (λ e. length e.name ≡ n) (of_length n es)
of_length-length n [] = tt
of_length-length n (e ∷ es) = ground (arith, of_length-length n es)

of_length-All : (n : ℕ) (es : List HdrCacheEntry) → All IsEntry es → All IsEntry (of_length n es)
of_length-All n [] h = tt
of_length-All n (e ∷ es) h = ground (arith, of_length-All n es)

-- Longer names are in no entry.
of_length-none :
    (n : ℕ) (es : List HdrCacheEntry) → All IsEntry es → (32 < n) ⊎ (n ≡ 0) → of_length n es ≡ []
of_length-none n [] h k = refl
of_length-none n (e ∷ es) h k = ground (arith, of_length-none n es)

-- A Boolean equality of runs of entries.
same_entries : List HdrCacheEntry → List HdrCacheEntry → Bool
same_entries [] [] = true
same_entries [] (e ∷ es) = false
same_entries (d ∷ ds) [] = false
same_entries (d ∷ ds) (e ∷ es) =
    bytes_eq d.name e.name && (bytes_eq d.wsgi_key e.wsgi_key && same_entries ds es)

same_entries_sound : (ds es : List HdrCacheEntry) → same_entries ds es ≡ true → ds ≡ es
unfolding same_entries
same_entries_sound [] [] h = refl
same_entries_sound [] (e ∷ es) h = absurd (ground arith)
same_entries_sound (d ∷ ds) [] h = absurd (ground arith)
same_entries_sound (d ∷ ds) (e ∷ es) h = ground (
  arith,
  bytes_eq_sound d.name e.name,
  bytes_eq_sound d.wsgi_key e.wsgi_key,
  same_entries_sound ds es,
)

-- hdr_offset[] cuts the table into its lengths.
slices : all_below 33 (λ n. same_entries (slice hdr_table n) (of_length n hdr_table.entries)) ≡ true
unfolding same_entries hdr_table hdr_names make_entry key_byte fill_offsets advance
slices = refl

slice_lem : (n : ℕ) → n < 33 → slice hdr_table n ≡ of_length n hdr_table.entries
slice_lem n h = same_entries_sound _ _ (
    all_below_sound 33 (λ n. same_entries (slice hdr_table n) (of_length n hdr_table.entries)) n
      slices h)

entries-IsEntry : All IsEntry hdr_table.entries
unfolding hdr_table hdr_names make_entry
entries-IsEntry = ground arith

find-none :
    (n : Bytes) → (32 < length n) ⊎ (length n ≡ 0) → find (map to_lower n) hdr_table.entries ≡ none
find-none n h = ground (
  arith,
  find-of_length (map to_lower n) hdr_table.entries,
  map-length to_lower n,
  of_length-none (length n) hdr_table.entries entries-IsEntry h,
)

scan_found :
    (c : ℕ) (cs : Bytes)
    → suc (length cs) < 33
    → scan_slice (c ∷ cs) (fold_first c) (slice hdr_table (suc (length cs)))
      ≡ find (map to_lower (c ∷ cs)) hdr_table.entries
scan_found c cs h =
    let es : List HdrCacheEntry = of_length (suc (length cs)) hdr_table.entries in
    ap (scan_slice (c ∷ cs) (fold_first c)) (slice_lem (suc (length cs)) h)
    ∙ scan_slice-find c cs es (of_length-All _ hdr_table.entries entries-IsEntry)
        (of_length-length (suc (length cs)) hdr_table.entries)
    ∙ ap (λ k. find (map to_lower (c ∷ cs)) (of_length k hdr_table.entries))
        (ap suc (sym (map-length to_lower cs)))
    ∙ find-of_length (map to_lower (c ∷ cs)) hdr_table.entries

-- For every name, of any length and whatever its bytes, hdr_cache_lookup() with the table that hdr_cache_init()
-- builds from the names of the source finds the entry that a search of the whole table for the name
-- in lower case finds, and none just if that search finds none.
pub hdr_cache_lookup_lem :
    (name : Bytes)
    → (hdr_cache_init hdr_names ≡ some hdr_table)
      × (hdr_cache_lookup hdr_table name ≡ find (map to_lower name) hdr_table.entries)
unfolding hdr_cache_lookup
hdr_cache_lookup_lem [] = (hdr_cache_init_succeeds, sym (find-none [] (inr refl)))
hdr_cache_lookup_lem (c ∷ cs) =
    (hdr_cache_init_succeeds, ground (arith, find-none (c ∷ cs), scan_found c cs))
