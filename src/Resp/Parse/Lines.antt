-- ===== src/Resp/Parse/Lines.antt =====
-- Lines and numerals of the protocol, as the parser cuts them.
use mathlib.Core.List.{reverse, reverse-cons, reverse-reverse}
use meebis.Base.{ℕ, ◌^◌, ◌<◌, ◌≡◌, ◌≢◌, refl, ap, [], ◌∷◌, ◌++◌, arith, some}
use meebis.Base.Bytes.{Bytes, All, All-append}
use meebis.Base.Int.{pos}
use meebis.Base.Decimal.{
  IsDigit, nat_to_string, nat_to_string-IsDigit, parse_i64, parse-to_string, to_string,
}
use meebis.Resp.Parse.{parsed, split_line, trim_cr, trim_start, trim_back, trim, parse_int}

-- A line with no `\n` in it is cut at the one behind it.
pub split_line-append :
    (line rest : Bytes)
    → All (λ c. c ≢ 10) line
    → split_line (line ++ (10 ∷ rest)) ≡ parsed (line, rest)
unfolding split_line
split_line-append [] rest h = refl
split_line-append (c ∷ line) rest h = ground (arith, split_line-append line rest h.1)

pub trim_cr-append : (line : Bytes) → trim_cr (line ++ (13 ∷ [])) ≡ line
unfolding trim_cr
trim_cr-append [] = refl
trim_cr-append (c ∷ []) = refl
trim_cr-append (c ∷ d ∷ line) = ap (λ l. c ∷ l) (trim_cr-append (d ∷ line))

trim_start-IsDigit : (s : Bytes) → All IsDigit s → trim_start s ≡ s
unfolding trim_start
trim_start-IsDigit [] h = refl
trim_start-IsDigit (a ∷ []) h = ground arith
trim_start-IsDigit (a ∷ b ∷ []) h = ground arith
trim_start-IsDigit (a ∷ b ∷ c ∷ s) h = ground arith

trim_back-IsDigit : (s : Bytes) → All IsDigit s → trim_back s ≡ s
unfolding trim_back
trim_back-IsDigit [] h = refl
trim_back-IsDigit (a ∷ []) h = ground arith
trim_back-IsDigit (a ∷ b ∷ []) h = ground arith
trim_back-IsDigit (a ∷ b ∷ c ∷ s) h = ground arith

All-reverse : (P : ℕ → Type 0) (s : Bytes) → All P s → All P (reverse s)
All-reverse P [] h = tt
All-reverse P (c ∷ s) h =
    rw reverse-cons (All-append P (reverse s) (c ∷ []) (All-reverse P s h.1) (h.0, tt))

trim-IsDigit : (s : Bytes) → All IsDigit s → trim s ≡ s
unfolding trim
trim-IsDigit s h =
    rw (trim_start-IsDigit s h, trim_back-IsDigit (reverse s) (All-reverse IsDigit s h))
      (reverse-reverse s)

parse_i64-nat_to_string : (n : ℕ) → n < 2 ^ 63 → parse_i64 (nat_to_string n) ≡ some (pos n)
unfolding to_string
parse_i64-nat_to_string n h = parse-to_string (pos n) h

-- A length is read back from its numeral.
pub parse_int-nat_to_string : (n : ℕ) → n < 2 ^ 63 → parse_int (nat_to_string n) ≡ parsed (pos n)
unfolding parse_int
parse_int-nat_to_string n h =
    rw (trim-IsDigit (nat_to_string n) (nat_to_string-IsDigit n), parse_i64-nat_to_string n h)

digits-line : (s : Bytes) → All IsDigit s → All (λ c. c ≢ 10) s
digits-line [] h = tt
digits-line (c ∷ s) h = (omega arith, digits-line s h.1)

pub numeral-line : (n : ℕ) → All (λ c. c ≢ 10) (nat_to_string n ++ (13 ∷ []))
numeral-line n =
    All-append (λ c. c ≢ 10) (nat_to_string n) (13 ∷ [])
      (digits-line (nat_to_string n) (nat_to_string-IsDigit n)) (omega arith, tt)
