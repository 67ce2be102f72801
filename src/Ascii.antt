-- ===== src/Ascii.antt =====
-- What the C library gives the server on bytes: case folding, strncasecmp, isspace, strtoul, and
-- the bytes of a string literal.
use Prim.Native.Char.{code}
use Prim.Native.String.{String}
use freastal.Prelude.{
  ℕ, ◌+◌, ◌-◌, ◌*◌, ◌^◌, min, Bool, ◌&&◌, ◌||◌, [], ◌∷◌, map, Bytes, bytes_eq, leb, ◌==◌,
  if◌then◌else◌,
}

-- The code points of a literal: its bytes, since every literal here is ASCII.
abbrev pub codes : String → Bytes
codes String.[] = []
codes (String.◌∷◌ c s) = code c ∷ codes s

unfoldable pub to_lower : ℕ → ℕ
to_lower c = if leb b'A' c && leb c b'Z' then c + 32 else c

-- strncasecmp(a, b, n) == 0, for a and b of n bytes with no NUL in b.
unfoldable pub equal_ignoring_case : Bytes → Bytes → Bool
unfolding to_lower
equal_ignoring_case a b = bytes_eq (map to_lower a) (map to_lower b)

unfoldable pub is_space : ℕ → Bool
is_space c = c == b' ' || (leb 9 c && leb c 13)

unfoldable pub is_digit : ℕ → Bool
is_digit c = leb b'0' c && leb c b'9'

-- ULONG_MAX + 1 of a 64-bit long
abbrev pub ulong_mod : ℕ
ulong_mod = 2 ^ 64

-- The digits from here on, in base 10, with no bound.
unfoldable pub leading_digits : ℕ → Bytes → ℕ
unfolding is_digit
leading_digits n [] = n
leading_digits n (c ∷ cs) =
    let rest = leading_digits (n * 10 + (c - b'0')) cs in if is_digit c then rest else n

-- strtoul() saturates at ULONG_MAX, also before it negates.
unfoldable pub strtoul_digits : Bytes → ℕ
unfolding leading_digits
strtoul_digits cs = min (leading_digits 0 cs) (ulong_mod - 1)

-- A value out of range is ULONG_MAX with either sign; one in range is negated modulo 2^64.
unfoldable pub strtoul_negated : Bytes → ℕ
unfolding leading_digits
strtoul_negated cs =
    let n = leading_digits 0 cs in
    if leb ulong_mod n then ulong_mod - 1 else if n == 0 then 0 else ulong_mod - n

unfoldable pub strtoul : Bytes → ℕ
unfolding is_space strtoul_digits strtoul_negated
strtoul [] = 0
strtoul (c ∷ cs) =
    let skipped = strtoul cs in
    if is_space c
    then skipped
    else if c == b'-'
    then strtoul_negated cs
    else if c == b'+'
    then strtoul_digits cs
    else strtoul_digits (c ∷ cs)
