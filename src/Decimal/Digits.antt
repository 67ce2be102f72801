-- ===== src/Decimal/Digits.antt =====
-- freastal/src/server.h: what uint_ndigits() counts and write_uint() writes.
use freastal.Prelude.{
  ℕ, zero, suc, ◌+◌, ◌-◌, ◌*◌, ◌/◌, ◌%◌, ◌^◌, ◌≤◌, ◌<◌, ◌≡◌, refl, ap, ◌∙◌, ◌⊎◌, inl, inr, Bool,
  true, false, ◌&&◌, none, some, [], ◌∷◌, ◌++◌, Bytes, Bool-cases, length, length-append, All, ltb,
  leb, ◌==◌, if_cases, all_below, all_below_sound, arith,
}
use freastal.Decimal.{two_digits, ndigits_loop, uint_ndigits, fill_digits, write_uint}

abbrev pub pow10 : ℕ → ℕ
pow10 zero = 1
pow10 (suc n) = 10 * pow10 n

abbrev pub pow100 : ℕ → ℕ
pow100 zero = 1
pow100 (suc n) = 100 * pow100 n

abbrev pow10000 : ℕ → ℕ
pow10000 zero = 1
pow10000 (suc n) = 10000 * pow10000 n

-- The number has d decimal digits, without leading zeros; 0 has one.
abbrev pub HasDigits : ℕ → ℕ → Type 0
HasDigits d u = (0 < d) × (u < pow10 d) × ((d ≡ 1) ⊎ (pow10 d ≤ 10 * u))

-- The number that a string of digits spells.
abbrev pub value : Bytes → ℕ
value [] = 0
value (b ∷ bs) = (b - 48) * pow10 (length bs) + value bs

abbrev pub AllDigits : Bytes → Type 0
AllDigits = All (λ b. (48 ≤ b) × (b ≤ 57))

ndigits_loop-HasDigits :
    (fuel u d : ℕ)
    → u < pow10000 fuel
    → (k : ℕ) × (ndigits_loop fuel u d ≡ d + k) × HasDigits (suc k) u
unfolding ndigits_loop
ndigits_loop-HasDigits zero u d h = (0, omega arith, ground arith)
ndigits_loop-HasDigits (suc fuel) u d h =
    let (k, e, p) = ndigits_loop-HasDigits fuel (u / 10000) (d + 4) (omega arith) in
    if_cases (λ r. (k : ℕ) × (r ≡ d + k) × HasDigits (suc k) u) (ltb u 10)
      (λ l. (0, omega arith, ground arith))
      λ g1.
        if_cases (λ r. (k : ℕ) × (r ≡ d + k) × HasDigits (suc k) u) (ltb u 100)
          (λ l. (1, refl, ground arith))
          λ g2.
            if_cases (λ r. (k : ℕ) × (r ≡ d + k) × HasDigits (suc k) u) (ltb u 1000)
              (λ l. (2, refl, ground arith))
              λ g3.
                if_cases (λ r. (k : ℕ) × (r ≡ d + k) × HasDigits (suc k) u) (ltb u 10000)
                  (λ l. (3, refl, ground arith)) λ g4. (4 + k, omega (arith, e), ground (arith, p))

pow10_mono : (m n : ℕ) → m ≤ n → pow10 m ≤ pow10 n
pow10_mono zero zero h = omega arith
pow10_mono zero (suc n) h = omega (arith, pow10_mono zero n (omega arith))
pow10_mono (suc m) zero h = absurd (omega arith)
pow10_mono (suc m) (suc n) h = omega (arith, pow10_mono m n (omega arith))

-- A number has one width only.
HasDigits-unique : (d e u : ℕ) → HasDigits d u → HasDigits e u → d ≡ e
HasDigits-unique zero e u p q = absurd (omega (arith, p.0))
HasDigits-unique (suc d) zero u p q = absurd (omega (arith, q.0))
HasDigits-unique (suc d) (suc e) u p q = ground (arith, pow10_mono (suc d) e, pow10_mono (suc e) d)

-- Two bytes that spell a number below 100, and the test for it.
record SpellsTwo (i : ℕ) (l : Bytes) : Type 0 where
  number : value l ≡ i
  two : length l ≡ 2
  digits : AllDigits l

spells_two : ℕ → Bytes → Bool
spells_two i (a ∷ b ∷ []) =
    leb 48 a && leb a 57 && leb 48 b && leb b 57 && ((a - 48) * 10 + (b - 48) == i)
spells_two i _ = false

spells_two_sound : (i : ℕ) (l : Bytes) → spells_two i l ≡ true → SpellsTwo i l
unfolding spells_two
spells_two_sound i [] h = absurd (ground arith)
spells_two_sound i (a ∷ []) h = absurd (ground arith)
spells_two_sound i (a ∷ b ∷ []) h = ground arith
spells_two_sound i (a ∷ b ∷ c ∷ cs) h = absurd (ground arith)

two_digits_all : all_below 100 (λ i. spells_two i (two_digits i)) ≡ true
unfolding spells_two two_digits
two_digits_all = refl

two_digits_lem : (i : ℕ) → i < 100 → SpellsTwo i (two_digits i)
two_digits_lem i h =
    spells_two_sound i (two_digits i)
      (all_below_sound 100 (λ i. spells_two i (two_digits i)) i two_digits_all h)

-- What filling leaves: the number in front of what was there, in as many digits as it has.
record Filled (u : ℕ) (done r : Bytes) : Type 0 where
  number : value r ≡ u * pow10 (length done) + value done
  width : (k : ℕ) × (length r ≡ length done + k) × HasDigits k u
  digits : AllDigits done → AllDigits r

value-two :
    (l done : Bytes) (i : ℕ)
    → SpellsTwo i l
    → value (l ++ done) ≡ i * pow10 (length done) + value done
value-two [] done i s = absurd (omega (arith, s.two))
value-two (a ∷ []) done i s = absurd (omega (arith, s.two))
value-two (a ∷ b ∷ []) done i s = rw (← s.number) (omega arith)
value-two (a ∷ b ∷ c ∷ cs) done i s = absurd (omega (arith, s.two))

All-append : (l done : Bytes) → AllDigits l → AllDigits done → AllDigits (l ++ done)
All-append [] done h k = k
All-append (b ∷ bs) done h k = (h.0, All-append bs done h.1 k)

last_two : (u : ℕ) (l done : Bytes) → 10 ≤ u → u < 100 → SpellsTwo u l → Filled u done (l ++ done)
last_two u l done g h s = record {
  number = value-two l done u s;
  width = (2, ground (arith, length-append l done, s.two), ground arith);
  digits = All-append l done s.digits;
}

shifted : (l done : Bytes) → length l ≡ 2 → length (l ++ done) ≡ suc (suc (length done))
shifted l done h = omega (arith, length-append l done, h)

times_whole : (q r u P V : ℕ) → u ≡ 100 * q + r → q * (10 * (10 * P)) + (r * P + V) ≡ u * P + V
times_whole q r u P V h = rw h (omega arith)

shift :
    (u P P' V V' : ℕ) → P' ≡ 10 * (10 * P) → V' ≡ u % 100 * P + V → u / 100 * P' + V' ≡ u * P + V
shift u P P' V V' e f = rw (e, f) (times_whole (u / 100) (u % 100) u P V (omega arith))

pow100_more : (f : ℕ) → 1 < pow100 f → 0 < f
pow100_more zero h = absurd (omega arith)
pow100_more (suc f) h = omega arith

more_two :
    (u : ℕ) (l done r : Bytes)
    → 100 ≤ u
    → SpellsTwo (u % 100) l
    → Filled (u / 100) (l ++ done) r
    → Filled u done r
more_two u l done r g s f =
    let (k, e, d) = f.width in
    record {
      number =
          f.number
          ∙ shift u (pow10 (length done)) _ (value done) _ (ap pow10 (shifted l done s.two))
              (value-two l done (u % 100) s);
      width = (suc (suc k), omega (arith, e, length-append l done, s.two), ground (arith, d));
      digits = λ h. f.digits (All-append l done s.digits h);
    }

fill_digits-Filled :
    (fuel u : ℕ) (done : Bytes)
    → 0 < fuel
    → u < pow100 fuel
    → Filled u done (fill_digits fuel u done)
unfolding fill_digits
fill_digits-Filled zero u done z h = absurd (omega arith)
fill_digits-Filled (suc fuel) u done z h =
    if_cases (Filled u done) (leb 100 u)
      (λ g.
        more_two u (two_digits (u % 100)) done _ (ground arith)
          (two_digits_lem (u % 100) (omega arith))
          (fill_digits-Filled fuel (u / 100) (two_digits (u % 100) ++ done)
            (pow100_more fuel (ground arith)) (omega arith)))
      λ g.
        if_cases (Filled u done) (leb 10 u)
          (λ g'.
            last_two u (two_digits u) done (ground arith) (ground arith)
              (two_digits_lem u (ground arith)))
          λ g'. record {
            number = ground arith;
            width = (1, omega arith, ground arith);
            digits = λ k. ground arith;
          }

-- For every number of 64 bits, uint_ndigits() gives the number of its decimal digits.
pub uint_ndigits-HasDigits : (u : ℕ) → u < 2 ^ 64 → HasDigits (uint_ndigits u) u
unfolding uint_ndigits
uint_ndigits-HasDigits u h =
    let (k, e, p) = ndigits_loop-HasDigits 5 u 1 (omega arith) in
    let e' : uint_ndigits u ≡ suc k = omega (arith, e) in rw e' p

-- For every number of 64 bits, write_uint() returns -1 just if the room is less than the number of
-- digits, and otherwise writes exactly as many bytes as uint_ndigits() says, all of them digits,
-- that spell the number.
pub write_uint_lem :
    (remaining n : ℕ)
    → n < 2 ^ 64
    → ((remaining < uint_ndigits n) × (write_uint remaining n ≡ none))
      ⊎ ((bs : Bytes) × (write_uint remaining n ≡ some bs)
          × (uint_ndigits n ≤ remaining)
          × (length bs ≡ uint_ndigits n)
          × (value bs ≡ n)
          × AllDigits bs)
unfolding write_uint
write_uint_lem remaining n h =
    let f = fill_digits-Filled 10 n [] (omega arith) (omega arith) in
    let (k, e, d) = f.width in
    elim (Bool-cases (ltb remaining (uint_ndigits n))) [
      | inl short ↦ inl (ground arith, rw (short, write_uint) refl)
      | inr fits ↦ inr (
        fill_digits 10 n [],
        rw (fits, write_uint) refl,
        ground arith,
        omega (arith, e, HasDigits-unique k (uint_ndigits n) n d (uint_ndigits-HasDigits n h)),
        omega (arith, f.number),
        f.digits tt,
      )
    ]

-- The digits that write_uint() fills in are as many as uint_ndigits() says.
pub fill_digits-length : (n : ℕ) → n < 2 ^ 64 → length (fill_digits 10 n []) ≡ uint_ndigits n
fill_digits-length n h =
    let f = fill_digits-Filled 10 n [] (omega arith) (omega arith) in
    let (k, e, d) = f.width in
    omega (arith, e, HasDigits-unique k (uint_ndigits n) n d (uint_ndigits-HasDigits n h))

pub fill_digits-AllDigits : (n : ℕ) → n < 2 ^ 64 → AllDigits (fill_digits 10 n [])
fill_digits-AllDigits n h = (fill_digits-Filled 10 n [] (omega arith) (omega arith)).digits tt

ndigits_loop-bound : (fuel u d : ℕ) → ndigits_loop fuel u d ≤ d + 4 * fuel + 3
unfolding ndigits_loop
ndigits_loop-bound zero u d = omega arith
ndigits_loop-bound (suc fuel) u d = ground (arith, ndigits_loop-bound fuel (u / 10000) (d + 4))

pub uint_ndigits-bound : (u : ℕ) → uint_ndigits u ≤ 24
unfolding uint_ndigits
uint_ndigits-bound u = ndigits_loop-bound 5 u 1
