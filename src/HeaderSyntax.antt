-- ===== src/HeaderSyntax.antt =====
-- freastal/src/hdrvalid.h: what the server accepts as a field name, a field value and a status line.
pub mod Grammar
pub mod Tests
use freastal.Prelude.{
  ℕ, zero, suc, ◌-◌, Bool, true, false, not, ◌&&◌, ◌||◌, List, [], ◌∷◌, ◌++◌, Bytes, length, get_or,
  drop, replicate, ltb, leb, ◌==◌, if◌then◌else◌,
}

-- The 256 entries of freastal_tchar[], sixteen to a line of the source.
unfoldable pub freastal_tchar : Bytes
freastal_tchar =
    (0 ∷ 0 ∷ 0 ∷ 0 ∷ 0 ∷ 0 ∷ 0 ∷ 0 ∷ 0 ∷ 0 ∷ 0 ∷ 0 ∷ 0 ∷ 0 ∷ 0 ∷ 0 ∷ [])
    ++ ((0 ∷ 0 ∷ 0 ∷ 0 ∷ 0 ∷ 0 ∷ 0 ∷ 0 ∷ 0 ∷ 0 ∷ 0 ∷ 0 ∷ 0 ∷ 0 ∷ 0 ∷ 0 ∷ [])
        ++ ((0 ∷ 1 ∷ 0 ∷ 1 ∷ 1 ∷ 1 ∷ 1 ∷ 1 ∷ 0 ∷ 0 ∷ 1 ∷ 1 ∷ 0 ∷ 1 ∷ 1 ∷ 0 ∷ [])
            ++ ((1 ∷ 1 ∷ 1 ∷ 1 ∷ 1 ∷ 1 ∷ 1 ∷ 1 ∷ 1 ∷ 1 ∷ 0 ∷ 0 ∷ 0 ∷ 0 ∷ 0 ∷ 0 ∷ [])
                ++ ((0 ∷ 1 ∷ 1 ∷ 1 ∷ 1 ∷ 1 ∷ 1 ∷ 1 ∷ 1 ∷ 1 ∷ 1 ∷ 1 ∷ 1 ∷ 1 ∷ 1 ∷ 1 ∷ [])
                    ++ ((1 ∷ 1 ∷ 1 ∷ 1 ∷ 1 ∷ 1 ∷ 1 ∷ 1 ∷ 1 ∷ 1 ∷ 1 ∷ 0 ∷ 0 ∷ 0 ∷ 1 ∷ 1 ∷ [])
                        ++ ((1 ∷ 1 ∷ 1 ∷ 1 ∷ 1 ∷ 1 ∷ 1 ∷ 1 ∷ 1 ∷ 1 ∷ 1 ∷ 1 ∷ 1 ∷ 1 ∷ 1 ∷ 1 ∷ [])
                            ++ ((1 ∷ 1 ∷ 1 ∷ 1 ∷ 1 ∷ 1 ∷ 1 ∷ 1 ∷ 1 ∷ 1 ∷ 1 ∷ 0 ∷ 1 ∷ 0 ∷ 1 ∷ 0 ∷ [])
                                ++ replicate 128 0)))))))

-- The loop of freastal_hdr_name_ok().
unfoldable pub name_bytes_ok : Bytes → Bool
name_bytes_ok [] = true
name_bytes_ok (b ∷ bs) =
    let rest = name_bytes_ok bs in if get_or freastal_tchar b 0 == 0 then false else rest

unfoldable pub hdr_name_ok : Bytes → Bool
unfolding name_bytes_ok
hdr_name_ok s = if length s == 0 then false else name_bytes_ok s

unfoldable pub hdr_value_ok : Bytes → Bool
hdr_value_ok [] = true
hdr_value_ok (c ∷ cs) =
    let rest = hdr_value_ok cs in
    if c == 9 then rest else if ltb c 32 || (c == 127) then false else rest

-- The test on the first three bytes.
abbrev not_digit : ℕ → Bool
not_digit c = ltb c 48 || ltb 57 c

unfoldable pub status_ok : Bytes → Bool
unfolding hdr_value_ok
status_ok s =
    if ltb (length s) 3
    then false
    else if not_digit (get_or s 0 0) || (not_digit (get_or s 1 0) || not_digit (get_or s 2 0))
    then false
    else if ltb 3 (length s) && not (get_or s 3 0 == 32)
    then false
    else hdr_value_ok (drop 3 s)
