-- ===== src/HeaderCache/Tests.antt =====
-- freastal/src/hdrcache.c: the lookup on small inputs.
use freastal.Prelude.{◌≡◌, refl, none, some, map, Bytes}
use freastal.Ascii.{codes, to_lower}
use freastal.HeaderCache.{
  hdr_names, hdr_cache_lookup, hdr_cache_init, scan_slice, hdr_eq_ci, make_entry, key_byte, advance,
  fill_offsets,
}
use freastal.HeaderCache.Lookup.{hdr_table, find, hdr_cache_lookup_lem}

abbrev mixed : Bytes
mixed = codes "Content-TYPE"

hdr_cache_lookup_lem_example :
    (hdr_cache_init hdr_names ≡ some hdr_table)
    × (hdr_cache_lookup hdr_table mixed ≡ find (map to_lower mixed) hdr_table.entries)
hdr_cache_lookup_lem_example = hdr_cache_lookup_lem mixed

cached :
    hdr_cache_lookup hdr_table mixed
    ≡ some (record { name = codes "content-type"; wsgi_key = codes "HTTP_CONTENT_TYPE" })
unfolding hdr_cache_lookup hdr_table hdr_names make_entry key_byte fill_offsets advance scan_slice
    hdr_eq_ci
cached = refl

not_cached : hdr_cache_lookup hdr_table (codes "content?type") ≡ none
unfolding hdr_cache_lookup hdr_table hdr_names make_entry key_byte fill_offsets advance scan_slice
    hdr_eq_ci
not_cached = refl
