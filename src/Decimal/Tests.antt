-- ===== src/Decimal/Tests.antt =====
-- freastal/src/server.h: decimal output on small inputs.
use freastal.Prelude.{◌≤◌, ◌<◌, ◌≡◌, refl, ◌⊎◌, none, some, Bytes, length, arith}
use freastal.Ascii.{codes}
use freastal.Decimal.{two_digits, uint_ndigits, fill_digits, write_uint}
use freastal.Decimal.Digits.{AllDigits, value, write_uint_lem}

write_uint_lem_example :
    ((5 < uint_ndigits 16384) × (write_uint 5 16384 ≡ none))
    ⊎ ((bs : Bytes) × (write_uint 5 16384 ≡ some bs)
        × (uint_ndigits 16384 ≤ 5)
        × (length bs ≡ uint_ndigits 16384)
        × (value bs ≡ 16384)
        × AllDigits bs)
write_uint_lem_example = write_uint_lem 5 16384 (omega arith)

written : write_uint 5 16384 ≡ some (codes "16384")
unfolding write_uint uint_ndigits fill_digits two_digits
written = refl

refused : write_uint 4 16384 ≡ none
unfolding write_uint uint_ndigits
refused = refl
