-- ===== src/Base/Decimal.antt =====
-- `i64::to_string` and `str::parse::<i64>`: decimal numerals with a sign.
use meebis.Base.{
  ℕ, zero, suc, ◌+◌, ◌-◌, ◌*◌, ◌/◌, ◌%◌, ◌^◌, ◌≤◌, ◌<◌, ◌≡◌, ◌∙◌, Bool, ◌&&◌, [], ◌∷◌, ◌++◌, Option,
  none, some, arith, leb, ltb, ◌==◌, if◌then◌else◌, append_assoc, append-nil, inl, inr, Bool-cases,
}
use meebis.Base.Bytes.{Bytes, All, All-append}
use meebis.Base.Int.{ℤ, pos, negsuc}

is_digit : ℕ → Bool
is_digit c = leb b'0' c && leb c b'9'

-- The digits after the sign, at least one; `acc` is the value read so far.
parse_digits : ℕ → Bytes → Option ℕ
unfolding is_digit
parse_digits acc [] = some acc
parse_digits acc (c ∷ cs) = if is_digit c then parse_digits (acc * 10 + (c - 48)) cs else none

unsigned : Bytes → Option ℕ
unfolding parse_digits
unsigned [] = none
unsigned (c ∷ cs) = parse_digits 0 (c ∷ cs)

-- The checked arithmetic of the library fails exactly where the value is outside the type.
nonneg : Option ℕ → Option ℤ
nonneg none = none
nonneg (some n) = if ltb n (2 ^ 63) then some (pos n) else none

neg : Option ℕ → Option ℤ
neg none = none
neg (some zero) = some (pos 0)
neg (some (suc n)) = if ltb n (2 ^ 63) then some (negsuc n) else none

-- A sign is optional; an empty digit string, a foreign byte and an overflow fail.
unfoldable pub parse_i64 : Bytes → Option ℤ
unfolding unsigned nonneg neg
parse_i64 [] = none
parse_i64 (c ∷ cs) =
    if c == b'-'
    then neg (unsigned cs)
    else if c == b'+'
    then nonneg (unsigned cs)
    else nonneg (unsigned (c ∷ cs))

-- A number has at most as many digits as its value and one.
nat_digits : ℕ → ℕ → Bytes
nat_digits zero n = []
nat_digits (suc f) n =
    let rest = nat_digits f (n / 10) ++ ((48 + n % 10) ∷ []) in
    if ltb n 10 then (48 + n) ∷ [] else rest

unfoldable pub nat_to_string : ℕ → Bytes
unfolding nat_digits
nat_to_string n = nat_digits (suc n) n

unfoldable pub to_string : ℤ → Bytes
to_string (pos n) = nat_to_string n
to_string (negsuc n) = b'-' ∷ nat_to_string (suc n)

abbrev pub IsI64 : ℤ → Type 0
IsI64 (pos n) = n < 2 ^ 63
IsI64 (negsuc n) = n < 2 ^ 63

-- The numeral begins with a digit.
nat_digits_head :
    (f n : ℕ) → n < f → (d : ℕ) × (ds : Bytes) × (nat_digits f n ≡ d ∷ ds) × (48 ≤ d) × (d ≤ 57)
unfolding nat_digits
nat_digits_head zero n h = absurd (omega arith)
nat_digits_head (suc f) n h = elim (Bool-cases (ltb n 10)) [
  | inl small ↦ (48 + n, [], rw small, omega arith, ground arith)
  | inr large ↦
      let (d, ds, e, lo, hi) = nat_digits_head f (n / 10) (ground arith) in
      (d, ds ++ ((48 + n % 10) ∷ []), rw (large, e), lo, hi)
]

parse-nat_digits :
    (f n : ℕ) (rest : Bytes) → n < f → parse_digits 0 (nat_digits f n ++ rest) ≡ parse_digits n rest
unfolding nat_digits
parse-nat_digits zero n rest h = absurd (omega arith)
parse-nat_digits (suc f) n rest h = elim (Bool-cases (ltb n 10)) [
  | inl small ↦ rw small (unfold parse_digits in ground arith)
  | inr large ↦
      rw (large, append_assoc)
        (parse-nat_digits f (n / 10) ((48 + n % 10) ∷ rest) (ground arith)
          ∙ (unfold parse_digits in ground arith))
]

parse_digits_whole : (n : ℕ) → parse_digits 0 (nat_digits (suc n) n) ≡ some n
unfolding parse_digits
parse_digits_whole n = rw append-nil at (parse-nat_digits (suc n) n [] (omega arith))

unsigned-nat_to_string : (n : ℕ) → unsigned (nat_to_string n) ≡ some n
unfolding nat_to_string
unsigned-nat_to_string n =
    let (d, ds, e, _, _) = nat_digits_head (suc n) n (omega arith) in
    rw e (unfold unsigned in rw e at (parse_digits_whole n))

parse-nat_to_string : (n : ℕ) → parse_i64 (nat_to_string n) ≡ nonneg (some n)
unfolding nat_to_string
parse-nat_to_string n =
    let (d, ds, e, lo, hi) = nat_digits_head (suc n) n (omega arith) in
    rw e (unfold parse_i64 in ground (arith, rw e at (parse_digits_whole n)))

-- What `to_string` prints of an `i64`, `parse` reads back.
pub parse-to_string : (z : ℤ) → IsI64 z → parse_i64 (to_string z) ≡ some z
unfolding to_string
parse-to_string (pos n) h = parse-nat_to_string n ∙ (unfold nonneg in ground arith)
parse-to_string (negsuc n) h = unfold parse_i64 in ground (arith, unsigned-nat_to_string (suc n))

-- Only values of the type are read.
pub parse_i64-IsI64 : (b : Bytes) (z : ℤ) → parse_i64 b ≡ some z → IsI64 z
unfolding parse_i64
parse_i64-IsI64 [] z h = cc
parse_i64-IsI64 (c ∷ cs) z h = ground arith

abbrev pub IsDigit : ℕ → Type 0
IsDigit c = (48 ≤ c) × (c ≤ 57)

nat_digits-IsDigit : (f n : ℕ) → All IsDigit (nat_digits f n)
unfolding nat_digits
nat_digits-IsDigit zero n = tt
nat_digits-IsDigit (suc f) n = elim (Bool-cases (ltb n 10)) [
  | inl small ↦ rw small ((omega arith, ground arith), tt)
  | inr large ↦ rw large (
      All-append IsDigit (nat_digits f (n / 10)) ((48 + n % 10) ∷ [])
        (nat_digits-IsDigit f (n / 10)) ((omega arith, omega arith), tt))
]

-- A numeral of a natural number is digits only.
pub nat_to_string-IsDigit : (n : ℕ) → All IsDigit (nat_to_string n)
unfolding nat_to_string
nat_to_string-IsDigit n = nat_digits-IsDigit (suc n) n
