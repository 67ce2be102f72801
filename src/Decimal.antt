-- ===== src/Decimal.antt =====
-- freastal/src/server.h, decimal output: TWO_DIGITS, uint_ndigits() and write_uint(). The loops run
-- on fuel: five rounds of uint_ndigits() and ten of write_uint().
pub mod Digits
pub mod Tests
use freastal.Prelude.{
  ℕ, zero, suc, ◌+◌, ◌-◌, ◌*◌, ◌/◌, ◌%◌, Option, none, some, [], ◌∷◌, ◌++◌, Bytes, get_or, ltb, leb,
  if◌then◌else◌,
}
use freastal.Ascii.{codes}

unfoldable pub two_digits_table : Bytes
two_digits_table =
    codes "00010203040506070809"
    ++ (codes "10111213141516171819"
        ++ (codes "20212223242526272829"
            ++ (codes "30313233343536373839"
                ++ (codes "40414243444546474849"
                    ++ (codes "50515253545556575859"
                        ++ (codes "60616263646566676869"
                            ++ (codes "70717273747576777879"
                                ++ (codes "80818283848586878889"
                                    ++ codes "90919293949596979899"))))))))

-- The two bytes of the table that the code copies for a number below 100.
unfoldable pub two_digits : ℕ → Bytes
unfolding two_digits_table
two_digits i = get_or two_digits_table (i * 2) 0 ∷ get_or two_digits_table (i * 2 + 1) 0 ∷ []

unfoldable pub ndigits_loop : ℕ → ℕ → ℕ → ℕ
ndigits_loop zero u d = d
ndigits_loop (suc fuel) u d =
    let rest = ndigits_loop fuel (u / 10000) (d + 4) in
    if ltb u 10
    then d
    else if ltb u 100
    then d + 1
    else if ltb u 1000
    then d + 2
    else if ltb u 10000
    then d + 3
    else rest

unfoldable pub uint_ndigits : ℕ → ℕ
unfolding ndigits_loop
uint_ndigits u = ndigits_loop 5 u 1

-- The digits are filled in from the right; `done` is what stands to the right of `p`.
unfoldable pub fill_digits : ℕ → ℕ → Bytes → Bytes
fill_digits zero u done = done
fill_digits (suc fuel) u done =
    let rest = fill_digits fuel (u / 100) (two_digits (u % 100) ++ done) in
    if leb 100 u then rest else if leb 10 u then two_digits u ++ done else (48 + u) ∷ done

-- What is written, or none for the return value -1.
unfoldable pub write_uint : ℕ → ℕ → Option Bytes
write_uint remaining n = if ltb remaining (uint_ndigits n) then none else some (fill_digits 10 n [])
