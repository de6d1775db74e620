-- ===== src/Commands/Bits/Counting.antt =====
-- src/commands/bitops.rs: the two ways in which BITCOUNT counts.
use meebis.Base.{
  ℕ, zero, suc, ◌+◌, ◌-◌, ◌*◌, ◌/◌, ◌%◌, ◌^◌, ◌≤◌, ◌<◌, ◌≡◌, refl, sym, ◌∙◌, false, [], ◌∷◌, Option,
  none, some, min, ◌==◌, if◌then◌else◌, length, get_or, arith,
}
use meebis.Base.Bytes.{Bytes}
use meebis.Base.Int.{pos, negsuc, ◌+ℤ◌, +ℤ_parts, eq_of_parts}
use meebis.Db.{Db, value_of}
use meebis.Db.Typed.{Typed, typed, wrong_type, as_str, get_str}
use meebis.Db.View.{view}
use meebis.Db.Purged.{get_str_result}
use meebis.Commands.Args.{norm_index, go, parse_int}
use meebis.Commands.Bits.{
  bit_of, get_bit, count_bits, count_ones, sum_ones, count_range, clamp, clamp_to, bit_range,
  bitcount, bitcount_range, bitcount_args, bitcount_of, read_bitcount, unit_arg,
}
use meebis.Commands.Bits.Bytewise.{get_bit_lem}

next_byte : (lo : ℕ) → (lo + 8) / 8 ≡ suc (lo / 8)
next_byte lo = omega arith

next_bit : (lo : ℕ) → (lo + 8) % 8 ≡ lo % 8
next_bit lo = omega arith

-- The bits of the rest of the string.
get_bit_tail : (x : ℕ) (s : Bytes) (lo : ℕ) → get_bit (x ∷ s) (lo + 8) ≡ get_bit s lo
get_bit_tail x s lo =
    get_bit_lem (x ∷ s) (lo + 8) ∙ rw (next_byte lo, next_bit lo) (sym (get_bit_lem s lo))

bit_of-bound : (x i : ℕ) → bit_of x i < 2
unfolding bit_of
bit_of-bound x i = omega arith

get_bit-bound : (s : Bytes) (i : ℕ) → get_bit s i < 2
get_bit-bound s i = rw (get_bit_lem s i) (bit_of-bound (get_or s (i / 8) 0) (i % 8))

counted : (b n : ℕ) → b < 2 → (if b == 1 then suc n else n) ≡ b + n
counted b n h = ground arith

one_more : (n : ℕ) → n + 1 ≡ suc n
one_more n = omega arith

-- One turn of the loop.
count_bits_step :
    (s : Bytes) (lo n : ℕ) → count_bits s lo (n + 1) ≡ get_bit s lo + count_bits s (lo + 1) n
unfolding count_bits
count_bits_step s lo n =
    rw (one_more n, one_more lo)
      (counted (get_bit s lo) (count_bits s (suc lo) n) (get_bit-bound s lo))

shifted : (lo : ℕ) → lo + 8 + 1 ≡ lo + 1 + 8
shifted lo = omega arith

count_bits_tail : (x : ℕ) (s : Bytes) (lo n : ℕ) → count_bits (x ∷ s) (lo + 8) n ≡ count_bits s lo n
count_bits_tail x s lo zero = unfold count_bits in refl
count_bits_tail x s lo (suc n) =
    rw
      (
        ← one_more n,
        count_bits_step (x ∷ s) (lo + 8) n,
        count_bits_step s lo n,
        get_bit_tail x s lo,
        shifted lo,
        count_bits_tail x s (lo + 1) n,
      )
      refl

turn :
    (s : Bytes) (lo n k : ℕ)
    → k ≡ n + 1
    → count_bits s lo k ≡ get_bit s lo + count_bits s (lo + 1) n
turn s lo n k h = rw h (count_bits_step s lo n)

byte_zero : (i : ℕ) → i < 8 → i / 8 ≡ 0
byte_zero i h = omega arith

bit_same : (i : ℕ) → i < 8 → i % 8 ≡ i
bit_same i h = omega arith

more_bytes : (n : ℕ) → suc n * 8 ≡ n * 8 + 8
more_bytes n = omega arith

first_bits : (x i : ℕ) (s : Bytes) → i < 8 → get_bit (x ∷ s) i ≡ bit_of x i
first_bits x i s h = get_bit_lem (x ∷ s) i ∙ rw (byte_zero i h, bit_same i h) refl

count_bits_head :
    (x : ℕ) (s : Bytes) (n : ℕ) → count_bits (x ∷ s) 0 (n + 8) ≡ count_ones x + count_bits s 0 n
unfolding count_ones
count_bits_head x s n =
    let c : Bytes = x ∷ s in
    omega (
      arith,
      turn c 0 (n + 7) (n + 8) (omega arith),
      turn c 1 (n + 6) (n + 7) (omega arith),
      turn c 2 (n + 5) (n + 6) (omega arith),
      turn c 3 (n + 4) (n + 5) (omega arith),
      turn c 4 (n + 3) (n + 4) (omega arith),
      turn c 5 (n + 2) (n + 3) (omega arith),
      turn c 6 (n + 1) (n + 2) (omega arith),
      turn c 7 n (n + 1) refl,
      first_bits x 0 s (omega arith),
      first_bits x 1 s (omega arith),
      first_bits x 2 s (omega arith),
      first_bits x 3 s (omega arith),
      first_bits x 4 s (omega arith),
      first_bits x 5 s (omega arith),
      first_bits x 6 s (omega arith),
      first_bits x 7 s (omega arith),
      count_bits_tail x s 0 n,
    )

count_bits-bound : (s : Bytes) (lo n : ℕ) → count_bits s lo n ≤ n
unfolding count_bits
count_bits-bound s lo zero = omega arith
count_bits-bound s lo (suc n) = ground (arith, count_bits-bound s (suc lo) n)

below_word : (k : ℕ) → k < 2 ^ 32 → k % 2 ^ 32 ≡ k
below_word k h = omega arith

-- A string of fewer than 2^32 bits.
count_bits-sum_ones :
    (s : Bytes) → length s * 8 < 2 ^ 32 → count_bits s 0 (length s * 8) ≡ sum_ones s
unfolding sum_ones
count_bits-sum_ones [] h = unfold count_bits in refl
count_bits-sum_ones (x ∷ s) h =
    let n : ℕ = length s * 8 in
    let more : suc (length s) * 8 ≡ n + 8 = more_bytes (length s) in
    let head : count_bits (x ∷ s) 0 (n + 8) ≡ count_ones x + count_bits s 0 n =
      count_bits_head x s n in
    let low : count_bits (x ∷ s) 0 (n + 8) ≤ n + 8 = count_bits-bound (x ∷ s) 0 (n + 8) in
    let fits : count_ones x + count_bits s 0 n < 2 ^ 32 = omega (arith, more, head, low) in
    rw more (
      head
      ∙ rw (← count_bits-sum_ones s (omega (arith, more)))
          (sym (below_word (count_ones x + count_bits s 0 n) fits)))

minus_one : (n : ℕ) → negsuc 0 +ℤ pos (suc n) ≡ pos n
minus_one n = eq_of_parts _ _ (omega (arith, +ℤ_parts (negsuc 0) (pos (suc n))))

clamp_whole : (n : ℕ) → clamp (pos 0) (negsuc 0) (suc n) ≡ some (0, n)
unfolding clamp clamp_to norm_index
clamp_whole n = rw (minus_one n) (ground arith)

whole_size : (n : ℕ) → min (n * 8 + 7) (suc n * 8 - 1) + 1 - 0 ≡ suc n * 8
whole_size n = omega arith

-- A whole range of bytes is every bit.
whole_range :
    (s : Bytes)
    → length s * 8 < 2 ^ 32
    → count_range s (bit_range false (clamp (pos 0) (negsuc 0) (length s))) ≡ sum_ones s
unfolding count_range
whole_range [] h = unfold clamp sum_ones in refl
whole_range (x ∷ s) h =
    rw (clamp_whole (length s), whole_size (length s)) (count_bits-sum_ones (x ∷ s) h)

-- A string has fewer than 2^32 bits.
abbrev pub IsShort : Typed (Option Bytes) → Type 0
IsShort (typed (some s)) = length s * 8 < 2 ^ 32
IsShort _ = Unit

bitcount_same :
    (db : Db) (o : Option Bytes) (a b : Bytes)
    → IsShort (typed o)
    → parse_int a ≡ go (pos 0)
    → parse_int b ≡ go (negsuc 0)
    → bitcount_of db o (a ∷ b ∷ []) ≡ bitcount_of db o []
unfolding bitcount_of bitcount_args unit_arg bitcount_range
bitcount_same db none a b h p q = refl
bitcount_same db (some s) a b h p q = rw (p, q, whole_range s h) refl

read_same :
    (r : Db × Typed (Option Bytes)) (a b : Bytes)
    → IsShort r.1
    → parse_int a ≡ go (pos 0)
    → parse_int b ≡ go (negsuc 0)
    → read_bitcount r (a ∷ b ∷ []) ≡ read_bitcount r []
unfolding read_bitcount
read_same (db, wrong_type) a b h p q = refl
read_same (db, typed o) a b h p q = bitcount_same db o a b h p q

-- BITCOUNT without a range, which adds up the ones of each byte, has the same reply and effect as
-- with the range from 0 to -1, where each bit is read, if the key holds no string of 2^32 bits or more.
pub bitcount_lem :
    (now : ℕ) (db : Db) (command key a b : Bytes)
    → IsShort (as_str (value_of (view now db key)))
    → parse_int a ≡ go (pos 0)
    → parse_int b ≡ go (negsuc 0)
    → bitcount now db (command ∷ key ∷ a ∷ b ∷ []) ≡ bitcount now db (command ∷ key ∷ [])
unfolding bitcount
bitcount_lem now db command key a b h p q =
    read_same (get_str now db key) a b (rw (get_str_result now db key) h) p q
