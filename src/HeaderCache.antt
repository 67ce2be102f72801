-- ===== src/HeaderCache.antt =====
-- freastal/src/hdrcache.c: the cached header names and their case-insensitive lookup.
pub mod Lookup
pub mod Tests
use freastal.Prelude.{
  ℕ, zero, suc, ◌+◌, ◌-◌, ◌/◌, ◌%◌, Bool, true, false, not, ◌&&◌, ◌||◌, Option, none, some, List,
  [], ◌∷◌, ◌++◌, map, Bytes, length, get_or, take, drop, ltb, leb, ◌==◌, if◌then◌else◌,
}
use freastal.Ascii.{codes}

abbrev pub hdr_cache_max_len : ℕ
hdr_cache_max_len = 32

unfoldable pub hdr_names : List Bytes
hdr_names =
    codes "dnt"
    ∷ codes "host"
    ∷ codes "range"
    ∷ codes "accept"
    ∷ codes "cookie"
    ∷ codes "expect"
    ∷ codes "origin"
    ∷ codes "pragma"
    ∷ codes "referer"
    ∷ codes "upgrade"
    ∷ codes "if-match"
    ∷ codes "priority"
    ∷ codes "sec-ch-ua"
    ∷ codes "x-real-ip"
    ∷ codes "connection"
    ∷ codes "keep-alive"
    ∷ codes "user-agent"
    ∷ codes "content-type"
    ∷ codes "max-forwards"
    ∷ codes "x-request-id"
    ∷ codes "authorization"
    ∷ codes "cache-control"
    ∷ codes "if-none-match"
    ∷ codes "accept-charset"
    ∷ codes "content-length"
    ∷ codes "sec-fetch-dest"
    ∷ codes "sec-fetch-mode"
    ∷ codes "sec-fetch-site"
    ∷ codes "sec-fetch-user"
    ∷ codes "accept-encoding"
    ∷ codes "accept-language"
    ∷ codes "x-forwarded-for"
    ∷ codes "sec-ch-ua-mobile"
    ∷ codes "x-forwarded-host"
    ∷ codes "x-requested-with"
    ∷ codes "if-modified-since"
    ∷ codes "transfer-encoding"
    ∷ codes "x-forwarded-proto"
    ∷ codes "sec-ch-ua-platform"
    ∷ codes "if-unmodified-since"
    ∷ codes "upgrade-insecure-requests"
    ∷ []

-- hdr_cache_entry; the Python objects stand for the bytes they are made of, and asgi_name has the
-- bytes of the name itself.
pub record HdrCacheEntry : Type 0 where
  pub name : Bytes
  pub wsgi_key : Bytes

pub record HdrTable : Type 0 where
  pub entries : List HdrCacheEntry
  pub hdr_offset : List ℕ

-- the exclusive or of a byte with 0x20
abbrev pub flip_case : ℕ → ℕ
flip_case a = if a / 32 % 2 == 0 then a + 32 else a - 32

-- For two runs of the same length.
unfoldable pub hdr_eq_ci : Bytes → Bytes → Bool
hdr_eq_ci [] lower = true
hdr_eq_ci (a ∷ as') [] = true
hdr_eq_ci (a ∷ as') (b ∷ bs) =
    let rest = hdr_eq_ci as' bs in
    if a == b
    then rest
    else if not (flip_case a == b) || (ltb b 97 || ltb 122 b)
    then false
    else rest

-- The loop over the slice of the table; c0 is the folded first byte.
unfoldable pub scan_slice : Bytes → ℕ → List HdrCacheEntry → Option HdrCacheEntry
scan_slice name c0 [] = none
scan_slice name c0 (e ∷ es) =
    let rest = scan_slice name c0 es in
    if not (get_or e.name 0 0 == c0)
    then rest
    else if hdr_eq_ci (drop 1 name) (drop 1 e.name)
    then some e
    else rest

abbrev pub fold_first : ℕ → ℕ
fold_first c = if leb 65 c && leb c 90 then c + 32 else c

-- hdr_table[i] for i from hdr_offset[len] up to hdr_offset[len + 1]
abbrev pub slice : HdrTable → ℕ → List HdrCacheEntry
slice t len =
    let i = get_or t.hdr_offset len 0 in
    let end = get_or t.hdr_offset (len + 1) 0 in take (end - i) (drop i t.entries)

unfoldable pub hdr_cache_lookup : HdrTable → Bytes → Option HdrCacheEntry
hdr_cache_lookup t name =
    if (length name == 0) || ltb hdr_cache_max_len (length name)
    then none
    else scan_slice name (fold_first (get_or name 0 0)) (slice t (length name))

-- The checks of the first loop of hdr_cache_init(), which refuses a table that is not sorted.
unfoldable pub names_sorted : ℕ → List Bytes → Bool
names_sorted prev [] = true
names_sorted prev (n ∷ ns) =
    let rest = names_sorted (length n) ns in
    if (length n == 0) || (ltb hdr_cache_max_len (length n) || ltb (length n) prev)
    then false
    else rest

unfoldable pub key_byte : ℕ → ℕ
key_byte ch = if leb 97 ch && leb ch 122 then ch - 32 else if ch == 45 then 95 else ch

unfoldable pub make_entry : Bytes → HdrCacheEntry
unfolding key_byte
make_entry n = record { name = n; wsgi_key = codes "HTTP_" ++ map key_byte n }

-- The while loop on idx; the list is the table from idx on.
unfoldable pub advance : ℕ → ℕ → List HdrCacheEntry → ℕ
advance len idx [] = idx
advance len idx (e ∷ es) =
    let rest = advance len (idx + 1) es in if ltb (length e.name) len then rest else idx

-- The loop that fills hdr_offset[] from L on.
unfoldable pub fill_offsets : ℕ → ℕ → ℕ → List HdrCacheEntry → List ℕ
fill_offsets zero len idx table = []
fill_offsets (suc n) len idx table =
    let i = advance len idx (drop idx table) in i ∷ fill_offsets n (len + 1) i table

-- The first call; a later one returns at once. That CPython has the memory for the objects is assumed
-- here, and is an answer in the start of a server.
unfoldable pub hdr_cache_init : List Bytes → Option HdrTable
hdr_cache_init names =
    let table = map make_entry names in
    if names_sorted 0 names
    then some
        (record { entries = table; hdr_offset = fill_offsets (hdr_cache_max_len + 2) 0 0 table })
    else none
