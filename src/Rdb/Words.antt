-- ===== src/Rdb/Words.antt =====
-- Fixed-width integers as bytes, in both orders, and signed readings of them.
use meebis.Base.{
  ℕ, zero, suc, ◌+◌, ◌-◌, ◌*◌, ◌/◌, ◌%◌, ◌^◌, ◌<◌, ◌≡◌, refl, ◌∙◌, ap, [], ◌∷◌, ◌++◌, arith, ltb,
  if◌then◌else◌, length, length-append, append_assoc, append-nil,
}
use native.Mathlib.Nat.{pow-suc}
use meebis.Base.Bytes.{Bytes}
use meebis.Base.Int.{ℤ, pos, negsuc}

-- `to_le_bytes` and `from_le_bytes` at a width of `k` bytes.
unfoldable pub to_le : ℕ → ℕ → Bytes
to_le zero n = []
to_le (suc k) n = (n % 256) ∷ to_le k (n / 256)

unfoldable pub from_le : Bytes → ℕ
from_le [] = 0
from_le (b ∷ bs) = b + 256 * from_le bs

-- `to_be_bytes` and `from_be_bytes`; the accumulator is what stands before.
unfoldable pub to_be : ℕ → ℕ → Bytes
to_be zero n = []
to_be (suc k) n = to_be k (n / 256) ++ ((n % 256) ∷ [])

be_loop : ℕ → Bytes → ℕ
be_loop acc [] = acc
be_loop acc (b ∷ bs) = be_loop (256 * acc + b) bs

unfoldable pub from_be : Bytes → ℕ
unfolding be_loop
from_be bs = be_loop 0 bs

-- `as i8`, `as i16`, `as i32`, `as i64` of a word of `bits` bits.
unfoldable pub signed : ℕ → ℕ → ℤ
signed bits n = if ltb n (2 ^ (bits - 1)) then pos n else negsuc (2 ^ bits - 1 - n)

pub length-to_le : (k n : ℕ) → length (to_le k n) ≡ k
unfolding to_le
length-to_le zero n = refl
length-to_le (suc k) n = ap suc (length-to_le k (n / 256))

pub length-to_be : (k n : ℕ) → length (to_be k n) ≡ k
unfolding to_be
length-to_be zero n = refl
length-to_be (suc k) n =
    length-append (to_be k (n / 256)) ((n % 256) ∷ []) ∙ omega (arith, length-to_be k (n / 256))

next_fits : (k n : ℕ) → n < 256 ^ suc k → n / 256 < 256 ^ k
next_fits k n h = let h' : n < 256 ^ k * 256 = rw pow-suc at h in omega arith

pub from_le-to_le : (k n : ℕ) → n < 256 ^ k → from_le (to_le k n) ≡ n
unfolding to_le from_le
from_le-to_le zero n h = omega arith
from_le-to_le (suc k) n h = omega (arith, from_le-to_le k (n / 256) (next_fits k n h))

shift_in : (k n acc : ℕ) → 256 * (acc * 256 ^ k + n / 256) + n % 256 ≡ acc * 256 ^ suc k + n
shift_in k n acc = rw pow-suc (omega arith)

be_loop-to_be :
    (k n acc : ℕ) (rest : Bytes)
    → n < 256 ^ k
    → be_loop acc (to_be k n ++ rest) ≡ be_loop (acc * 256 ^ k + n) rest
unfolding to_be be_loop
be_loop-to_be zero n acc rest h = ap (λ x. be_loop x rest) (omega arith)
be_loop-to_be (suc k) n acc rest h = rw append_assoc (
    be_loop-to_be k (n / 256) acc ((n % 256) ∷ rest) (next_fits k n h)
    ∙ ap (λ x. be_loop x rest) (shift_in k n acc))

pub from_be-to_be : (k n : ℕ) → n < 256 ^ k → from_be (to_be k n) ≡ n
unfolding from_be
from_be-to_be k n h = rw append-nil at (be_loop-to_be k n 0 [] h) ∙ omega arith
