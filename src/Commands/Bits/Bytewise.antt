-- ===== src/Commands/Bits/Bytewise.antt =====
-- src/commands/bitops.rs: single bits of a string.
use meebis.Base.{
  ℕ, zero, suc, ◌+◌, ◌-◌, ◌/◌, ◌%◌, ◌^◌, ◌<◌, ◌≤◌, ◌≡◌, refl, sym, ◌∙◌, Bool, true, false, ◌&&◌, [],
  ◌∷◌, ◌++◌, ◌==◌, if◌then◌else◌, length, get_or, set, replicate, bit_and, arith, ==_iff,
  length-append, length-replicate, Bool-cases, inl, inr,
}
use meebis.Base.Bytes.{Bytes}
use meebis.Commands.Strings.Range.{pad_to}
use meebis.Commands.Bits.{bit_of, get_bit, with_bit, set_bit, old_bit}

all_below : ℕ → (ℕ → Bool) → Bool
all_below zero p = true
all_below (suc n) p = p n && all_below n p

all_below_lem : (n : ℕ) (p : ℕ → Bool) (x : ℕ) → all_below n p ≡ true → x < n → p x ≡ true
unfolding all_below
all_below_lem zero p x h lt = absurd (omega arith)
all_below_lem (suc n) p x h lt = ground (arith, all_below_lem n p x)

written : ℕ → ℕ → ℕ → ℕ → Bool
unfolding bit_of with_bit
written v x i j = bit_of (with_bit x i v) j == (if i == j then v else bit_of x j)

abbrev table : ℕ → Bool
table v = all_below 256 λ x. all_below 8 λ i. all_below 8 λ j. written v x i j

table_zero : table 0 ≡ true
unfolding all_below written
table_zero = refl

table_one : table 1 ≡ true
unfolding all_below written
table_one = refl

-- A bit of a byte, after a bit of it was written.
bit_of-with_bit :
    (x i j v : ℕ)
    → x < 256
    → i < 8
    → j < 8
    → v < 2
    → bit_of (with_bit x i v) j ≡ (if i == j then v else bit_of x j)
unfolding written
bit_of-with_bit x i j zero hx hi hj hv = (==_iff _ _).0 (
    all_below_lem 8 (written 0 x i) j
      (all_below_lem 8 (λ i. all_below 8 (written 0 x i)) i
        (all_below_lem 256 (λ x. all_below 8 λ i. all_below 8 (written 0 x i)) x table_zero hx) hi)
      hj)
bit_of-with_bit x i j (suc zero) hx hi hj hv = (==_iff _ _).0 (
    all_below_lem 8 (written 1 x i) j
      (all_below_lem 8 (λ i. all_below 8 (written 1 x i)) i
        (all_below_lem 256 (λ x. all_below 8 λ i. all_below 8 (written 1 x i)) x table_one hx) hi)
      hj)
bit_of-with_bit x i j (suc (suc v)) hx hi hj hv = absurd (omega arith)

masked : ℕ → ℕ → Bool
unfolding bit_of
masked x i = bit_of x i == (if bit_and x (2 ^ (7 - i)) == 0 then 0 else 1)

mask_table : all_below 256 (λ x. all_below 8 (masked x)) ≡ true
unfolding all_below masked
mask_table = refl

-- The test against the mask reads the bit.
mask_lem :
    (x i : ℕ) → x < 256 → i < 8 → (if bit_and x (2 ^ (7 - i)) == 0 then 0 else 1) ≡ bit_of x i
unfolding masked
mask_lem x i hx hi = sym (
    (==_iff _ _).0 (
      all_below_lem 8 (masked x) i (all_below_lem 256 (λ x. all_below 8 (masked x)) x mask_table hx)
        hi))

-- Bytes below 256.
unfoldable pub AllBytes : Bytes → Type 0
AllBytes [] = Unit
AllBytes (b ∷ s) = (b < 256) × AllBytes s

get_or-AllBytes : (s : Bytes) (i : ℕ) → AllBytes s → get_or s i 0 < 256
unfolding AllBytes
get_or-AllBytes [] i h = omega arith
get_or-AllBytes (b ∷ s) zero h = h.0
get_or-AllBytes (b ∷ s) (suc i) h = get_or-AllBytes s i h.1

get_or-replicate : (n i : ℕ) → get_or {A = ℕ} (replicate n 0) i 0 ≡ 0
get_or-replicate zero i = refl
get_or-replicate (suc n) zero = refl
get_or-replicate (suc n) (suc i) = get_or-replicate n i

get_or-zeros : (s : Bytes) (n i : ℕ) → get_or (s ++ replicate n 0) i 0 ≡ get_or s i 0
get_or-zeros [] n i = get_or-replicate n i
get_or-zeros (b ∷ s) n zero = refl
get_or-zeros (b ∷ s) n (suc i) = get_or-zeros s n i

get_or-pad_to : (m : ℕ) (s : Bytes) (i : ℕ) → get_or (pad_to m s) i 0 ≡ get_or s i 0
unfolding pad_to
get_or-pad_to m s i = ground (arith, get_or-zeros s (m - length s) i)

get_or-set :
    (s : Bytes) (i j v : ℕ)
    → i < length s
    → get_or (set s i v) j 0 ≡ (if i == j then v else get_or s j 0)
get_or-set [] i j v h = absurd (omega arith)
get_or-set (b ∷ s) zero zero v h = ground arith
get_or-set (b ∷ s) zero (suc j) v h = ground arith
get_or-set (b ∷ s) (suc i) zero v h = ground arith
get_or-set (b ∷ s) (suc i) (suc j) v h = ground (arith, get_or-set s i j v)

get_or-end : (s : Bytes) (i : ℕ) → length s ≤ i → get_or s i 0 ≡ 0
get_or-end [] i h = refl
get_or-end (b ∷ s) zero h = absurd (omega arith)
get_or-end (b ∷ s) (suc i) h = get_or-end s i (omega arith)

bit_of-zero : (i : ℕ) → i < 8 → bit_of 0 i ≡ 0
unfolding bit_of all_below
bit_of-zero i h = (==_iff _ 0).0 (all_below_lem 8 (λ i. bit_of 0 i == 0) i refl h)

-- Past the end the bits are those of a zero byte.
pub get_bit_lem : (s : Bytes) (n : ℕ) → get_bit s n ≡ bit_of (get_or s (n / 8) 0) (n % 8)
unfolding get_bit
get_bit_lem s n = ground (arith, get_or-end s (n / 8), bit_of-zero (n % 8) (omega arith))

length-pad_to : (m : ℕ) (s : Bytes) → m ≤ length (pad_to m s)
unfolding pad_to
length-pad_to m s =
    ground (
      arith,
      length-append s (replicate (m - length s) 0),
      length-replicate {A = ℕ} (m - length s) 0,
    )

same_place : (m n : ℕ) → (m / 8 == n / 8) ≡ true → (m % 8 == n % 8) ≡ (m == n)
same_place m n h = ground (arith, ==_iff m n, ==_iff (m % 8) (n % 8), ==_iff (m / 8) (n / 8))

same_byte : (m n : ℕ) → (m / 8 == n / 8) ≡ true → m / 8 ≡ n / 8
same_byte m n h = (==_iff _ _).0 h

other_byte : (m n : ℕ) → (m / 8 == n / 8) ≡ false → (m == n) ≡ false
other_byte m n h = ground (arith, ==_iff m n, ==_iff (m / 8) (n / 8))

written_at :
    (k : ℕ) (s : Bytes) (m n v : ℕ)
    → AllBytes s
    → v < 2
    → bit_of
        (if m / 8 == n / 8
          then with_bit (get_or (pad_to k s) (m / 8) 0) (m % 8) v
          else get_or s (n / 8) 0)
        (n % 8)
      ≡ (if m == n then v else bit_of (get_or s (n / 8) 0) (n % 8))
written_at k s m n v h hv = elim (Bool-cases (m / 8 == n / 8)) [
  | inr b ↦ rw (b, other_byte m n b) refl
  | inl b ↦
      rw (b, get_or-pad_to k s (m / 8))
        (bit_of-with_bit (get_or s (m / 8) 0) (m % 8) (n % 8) v (get_or-AllBytes s (m / 8) h)
            (omega arith) (omega arith) hv
          ∙ rw (same_place m n b, same_byte m n b) refl)
]

-- After a bit is written, each bit of the string.
pub get_bit-set_bit :
    (s : Bytes) (m n v : ℕ)
    → AllBytes s
    → v < 2
    → get_bit (set_bit s m v) n ≡ (if m == n then v else get_bit s n)
unfolding set_bit
get_bit-set_bit s m n v h hv =
    let padded : Bytes = pad_to (m / 8 + 1) s in
    let x : ℕ = get_or padded (m / 8) 0 in
    let y : ℕ = with_bit x (m % 8) v in
    get_bit_lem (set padded (m / 8) y) n
    ∙ rw
        (
          get_or-set padded (m / 8) (n / 8) y (omega (arith, length-pad_to (m / 8 + 1) s)),
          get_or-pad_to (m / 8 + 1) s (n / 8),
          get_bit_lem s n,
        )
        (written_at (m / 8 + 1) s m n v h hv)

-- The bit that SETBIT replies with.
pub old_bit_lem : (s : Bytes) (m : ℕ) → AllBytes s → old_bit s m ≡ get_bit s m
unfolding old_bit
old_bit_lem s m h =
    rw (get_or-pad_to (m / 8 + 1) s (m / 8), get_bit_lem s m)
      (mask_lem (get_or s (m / 8) 0) (m % 8) (get_or-AllBytes s (m / 8) h) (omega arith))
