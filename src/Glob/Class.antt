-- ===== src/Glob/Class.antt =====
-- Bracket classes: without a byte none matches, and what follows a class does not depend on the byte.
use meebis.Base.{
  ℕ, ◌≤◌, ◌≡◌, refl, Bool, true, false, ◌||◌, [], ◌∷◌, Option, none, some, arith, length,
  Option-cases, inl, inr,
}
use meebis.Base.Bytes.{Bytes}
use meebis.Glob.{class_loop, is_char, in_range, match_class}

-- Without a byte no class matches.
class_loop-none :
    (negate matched first : Bool) (class : Bytes) (b : Bool) (rest : Bytes)
    → class_loop none negate matched first class ≡ some (b, rest)
    → b ≡ false
unfolding class_loop
class_loop-none negate matched first [] b rest h = cc
class_loop-none negate matched first (c ∷ []) b rest h = ground arith
class_loop-none negate matched first (c ∷ d ∷ []) b rest h =
    ground (arith, class_loop-none negate matched false (d ∷ []) b rest)
class_loop-none negate matched first (c ∷ d ∷ e ∷ r) b rest h = ground (
  arith,
  class_loop-none negate matched false (e ∷ r) b rest,
  class_loop-none negate matched false r b rest,
  class_loop-none negate matched false (d ∷ e ∷ r) b rest,
)

abbrev pub rest_of : Option (Bool × Bytes) → Option Bytes
rest_of none = none
rest_of (some (b, rest)) = some rest

class_loop_rest :
    (x y : Option ℕ) (negate m n first : Bool) (class : Bytes)
    → rest_of (class_loop x negate m first class) ≡ rest_of (class_loop y negate n first class)
unfolding class_loop
class_loop_rest x y negate m n first [] = refl
class_loop_rest x y negate m n first (c ∷ []) = ground arith
class_loop_rest x y negate m n first (c ∷ d ∷ []) =
    ground (arith, class_loop_rest x y negate (is_char x c || m) (is_char y c || n) false (d ∷ []))
class_loop_rest x y negate m n first (c ∷ d ∷ e ∷ r) = ground (
  arith,
  class_loop_rest x y negate (is_char x d || m) (is_char y d || n) false (e ∷ r),
  class_loop_rest x y negate (in_range x c e || m) (in_range y c e || n) false r,
  class_loop_rest x y negate (is_char x c || m) (is_char y c || n) false (d ∷ e ∷ r),
)

class_loop-length :
    (ch : Option ℕ) (negate m first : Bool) (class : Bytes) (b : Bool) (rest : Bytes)
    → class_loop ch negate m first class ≡ some (b, rest)
    → length rest ≤ length class
unfolding class_loop
class_loop-length ch negate m first [] b rest h = cc
class_loop-length ch negate m first (c ∷ []) b rest h = ground arith
class_loop-length ch negate m first (c ∷ d ∷ []) b rest h =
    ground (arith, class_loop-length ch negate (is_char ch c || m) false (d ∷ []) b rest)
class_loop-length ch negate m first (c ∷ d ∷ e ∷ r) b rest h = ground (
  arith,
  class_loop-length ch negate (is_char ch d || m) false (e ∷ r) b rest,
  class_loop-length ch negate (in_range ch c e || m) false r b rest,
  class_loop-length ch negate (is_char ch c || m) false (d ∷ e ∷ r) b rest,
)

match_class-none :
    (p : Bytes) (b : Bool) (rest : Bytes) → match_class p none ≡ some (b, rest) → b ≡ false
unfolding match_class
match_class-none [] b rest h = cc
match_class-none (c ∷ p) b rest h = ground (
  arith,
  class_loop-none false false true (c ∷ p) b rest,
  class_loop-none true false true p b rest,
)

pub match_class_rest :
    (p : Bytes) (x y : Option ℕ) → rest_of (match_class p x) ≡ rest_of (match_class p y)
unfolding match_class
match_class_rest [] x y = refl
match_class_rest (c ∷ p) x y = ground (
  arith,
  class_loop_rest x y false false false true (c ∷ p),
  class_loop_rest x y true false false true p,
)

pub match_class-length :
    (p : Bytes) (ch : Option ℕ) (b : Bool) (rest : Bytes)
    → match_class p ch ≡ some (b, rest)
    → length rest ≤ length p
unfolding match_class
match_class-length [] ch b rest h = cc
match_class-length (c ∷ p) ch b rest h = ground (
  arith,
  class_loop-length ch false false true (c ∷ p) b rest,
  class_loop-length ch true false true p b rest,
)

abbrev pub matched_of : Option (Bool × Bytes) → Bool
matched_of none = false
matched_of (some (b, rest)) = b

pub match_class-unmatched : (p : Bytes) → matched_of (match_class p none) ≡ false
match_class-unmatched p = elim (Option-cases (match_class p none)) [
  | inl e ↦ rw e
  | inr ((b, rest), e) ↦ rw e (match_class-none p b rest e)
]
