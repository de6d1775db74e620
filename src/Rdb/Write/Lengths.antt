-- ===== src/Rdb/Write/Lengths.antt =====
-- What the writer puts down for a length or a string, the reader reads back.
use meebis.Base.{
  ℕ, zero, suc, ◌+◌, ◌*◌, ◌/◌, ◌%◌, ◌^◌, ◌<◌, ◌≡◌, refl, Bool, true, [], ◌∷◌, ltb, ◌==◌, length,
  bit_or, arith, append-nil, Bool-cases, inl, inr, ◌&&◌,
}
use meebis.Base.Bytes.{Bytes}
use meebis.Rdb.Words.{to_be, from_be, from_be-to_be, length-to_be}
use meebis.Rdb.Cursor.{plain, ◌>>=◌, pure, byte, take, read_length, length_of, string, string_of}
use meebis.Rdb.Cursor.Walk.{Reads, byte-Reads, take-Reads, bind-Reads, pure-Reads}
use meebis.Rdb.Write.{put_length, put_raw_string}

-- The test holds of the numbers from 0 up to a bound, found by running it.
passes : (ℕ → Bool) → ℕ → Bool
passes test zero = true
passes test (suc top) = passes test top && test top

passes→test : (test : ℕ → Bool) (top i : ℕ) → i < top → passes test top ≡ true → test i ≡ true
unfolding passes
passes→test test zero i l h = absurd (omega arith)
passes→test test (suc top) i l h = ground (arith, passes→test test top i)

or_marker_table : passes (λ x. bit_or 0x40 x == 64 + x) 64 ≡ true
unfolding passes
or_marker_table = refl

or_marker : (x : ℕ) → x < 64 → bit_or 0x40 x ≡ 64 + x
or_marker x h = ground (arith, passes→test _ 64 x h or_marker_table)

join_table : passes (λ v. bit_or (v / 256 * 256) (v % 256) == v) 16384 ≡ true
unfolding passes
join_table = refl

join : (v : ℕ) → v < 16384 → bit_or (v / 256 * 256) (v % 256) ≡ v
join v h = ground (arith, passes→test _ 16384 v h join_table)

take_be-Reads :
    (k n : ℕ)
    → n < 256 ^ k
    → Reads (do bs ← take k; pure (plain (from_be bs))) (to_be k n) (plain n)
take_be-Reads k n h = rw append-nil at (
    bind-Reads (take k) (λ bs. pure (plain (from_be bs))) (to_be k n) [] (to_be k n) (plain n)
      (take-Reads k (to_be k n) (length-to_be k n))
      (rw (from_be-to_be k n h) (pure-Reads (plain n))))

length_of_six : (n : ℕ) → n < 64 → length_of n ≡ pure (plain n)
unfolding length_of
length_of_six n h = ground arith

length_of_fourteen :
    (h : ℕ) → h < 64 → length_of (64 + h) ≡ (do lo ← byte; pure (plain (bit_or (h * 256) lo)))
unfolding length_of
length_of_fourteen h l =
    let quotient : (64 + h) / 64 ≡ 1 = omega arith in
    let remainder : (64 + h) % 64 ≡ h = omega arith in rw (quotient, remainder)

one_byte-Reads : (n : ℕ) → n < 64 → Reads read_length (n ∷ []) (plain n)
unfolding read_length
one_byte-Reads n h =
    bind-Reads byte length_of (n ∷ []) [] n (plain n) (byte-Reads n)
      (rw (length_of_six n h) (pure-Reads (plain n)))

two_bytes-Reads :
    (n : ℕ) → n < 16384 → Reads read_length (bit_or 0x40 (n / 256 % 256) ∷ (n % 256) ∷ []) (plain n)
unfolding read_length
two_bytes-Reads n h =
    let high : n / 256 % 256 ≡ n / 256 = omega arith in
    rw (high, or_marker (n / 256) (omega arith))
      (bind-Reads byte length_of ((64 + n / 256) ∷ []) ((n % 256) ∷ []) (64 + n / 256) (plain n)
        (byte-Reads (64 + n / 256))
        (rw (length_of_fourteen (n / 256) (omega arith)) (
          bind-Reads byte (λ lo. pure (plain (bit_or (n / 256 * 256) lo))) ((n % 256) ∷ []) []
            (n % 256) (plain n) (byte-Reads (n % 256)) (rw (join n h) (pure-Reads (plain n))))))

wide-Reads :
    (marker k n : ℕ)
    → length_of marker ≡ (do bs ← take k; pure (plain (from_be bs)))
    → n < 256 ^ k
    → Reads read_length (marker ∷ to_be k n) (plain n)
unfolding read_length
wide-Reads marker k n e h =
    bind-Reads byte length_of (marker ∷ []) (to_be k n) marker (plain n) (byte-Reads marker)
      (rw e (take_be-Reads k n h))

marker_32 : length_of 0x80 ≡ (do bs ← take 4; pure (plain (from_be bs)))
unfolding length_of
marker_32 = refl

marker_64 : length_of 0x81 ≡ (do bs ← take 8; pure (plain (from_be bs)))
unfolding length_of
marker_64 = refl

-- Every length that fits 64 bits is read back from what `put_length` writes, in all four forms,
-- wherever it stands in the image.
pub read_length-put_length : (n : ℕ) → n < 2 ^ 64 → Reads read_length (put_length n) (plain n)
unfolding put_length
read_length-put_length n h = elim (Bool-cases (ltb n 64)) [
  | inl a ↦ rw a (one_byte-Reads n (ground arith))
  | inr a ↦ elim (Bool-cases (ltb n 16384)) [
    | inl b ↦ rw (a, b) (two_bytes-Reads n (ground arith))
    | inr b ↦ elim (Bool-cases (ltb n (2 ^ 32))) [
      | inl c ↦ rw (a, b, c) (wide-Reads 0x80 4 n marker_32 (ground arith))
      | inr c ↦ rw (a, b, c) (wide-Reads 0x81 8 n marker_64 (omega arith))
    ]
  ]
]

-- So is every byte string.
pub string-put_raw_string : (s : Bytes) → length s < 2 ^ 64 → Reads string (put_raw_string s) s
unfolding string put_raw_string string_of
string-put_raw_string s h =
    bind-Reads read_length string_of (put_length (length s)) s (plain (length s)) s
      (read_length-put_length (length s) h) (take-Reads (length s) s refl)
