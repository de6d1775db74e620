-- ===== src/Commands/Strings/Range/Bytewise.antt =====
-- GETRANGE and SETRANGE byte by byte.
use meebis.Base.{
  ℕ, zero, suc, ◌+◌, ◌-◌, ◌≤◌, ◌≡◌, refl, sym, ◌∙◌, Bool, true, false, Bool-cases, inl, inr, ◌==◌,
  [], ◌∷◌, ◌++◌, none, some, ◌&&◌, ltb, leb, if◌then◌else◌, length, take, drop, replicate, arith,
  length-append, length-take, length-replicate, get_elem?,
}
use meebis.Base.Bytes.{Bytes}
use meebis.Base.Int.{ℤ, pos, negsuc, pos_part}
use meebis.Commands.Args.{norm_index}
use meebis.Commands.Strings.Range.{slice, range_of, range_to, patch_at, pad_to}

-- Whether an index is at most an end, which may be negative.
abbrev pub not_behind : ℕ → ℤ → Bool
not_behind i (pos n) = leb i n
not_behind i (negsuc n) = false

get_elem?-append :
    (xs ys : Bytes) (i : ℕ)
    → get_elem? (xs ++ ys) i
      ≡ (if ltb i (length xs) then get_elem? xs i else get_elem? ys (i - length xs))
get_elem?-append [] ys i = ground arith
get_elem?-append (x ∷ xs) ys zero = ground arith
get_elem?-append (x ∷ xs) ys (suc i) = ground (arith, get_elem?-append xs ys i)

get_elem?-take :
    (n : ℕ) (xs : Bytes) (i : ℕ)
    → get_elem? (take n xs) i ≡ (if ltb i n then get_elem? xs i else none)
get_elem?-take zero xs i = ground arith
get_elem?-take (suc n) [] i = ground arith
get_elem?-take (suc n) (x ∷ xs) zero = ground arith
get_elem?-take (suc n) (x ∷ xs) (suc i) = ground (arith, get_elem?-take n xs i)

get_elem?-drop : (n : ℕ) (xs : Bytes) (i : ℕ) → get_elem? (drop n xs) i ≡ get_elem? xs (n + i)
get_elem?-drop zero xs i = rw (zero_add i)
  where
    zero_add : (i : ℕ) → 0 + i ≡ i
    zero_add i = omega arith
get_elem?-drop (suc n) [] i = refl
get_elem?-drop (suc n) (x ∷ xs) i = get_elem?-drop n xs i ∙ rw (suc_add n i)
  where
    suc_add : (n i : ℕ) → suc n + i ≡ suc (n + i)
    suc_add n i = omega arith

get_elem?-past : (xs : Bytes) (i : ℕ) → length xs ≤ i → get_elem? xs i ≡ none
get_elem?-past [] i h = refl
get_elem?-past (x ∷ xs) zero h = absurd (omega arith)
get_elem?-past (x ∷ xs) (suc i) h = get_elem?-past xs i (omega arith)

is_empty : (n : ℕ) → (n == 0) ≡ true → n ≡ 0
is_empty n h = ground arith

no_byte : (b : Bool) (s : Bytes) (i : ℕ) → length s ≡ 0 → (if b then get_elem? s i else none) ≡ none
no_byte true s i h = get_elem?-past s i (omega (arith, h))
no_byte false s i h = refl

get_elem?-replicate :
    (n i : ℕ) (a : ℕ) → get_elem? (replicate n a) i ≡ (if ltb i n then some a else none)
get_elem?-replicate zero i a = ground arith
get_elem?-replicate (suc n) zero a = ground arith
get_elem?-replicate (suc n) (suc i) a = ground (arith, get_elem?-replicate n i a)

get_elem?-slice :
    (s : Bytes) (a b i : ℕ)
    → get_elem? (slice s a b) i ≡ (if leb (a + i) b then get_elem? s (a + i) else none)
get_elem?-slice s a b i =
    ground (arith, get_elem?-take (b + 1 - a) (drop a s) i, get_elem?-drop a s i)

get_elem?-range_to :
    (s : Bytes) (a n i : ℕ)
    → get_elem? (range_to s a (pos n)) i ≡ (if leb (a + i) n then get_elem? s (a + i) else none)
unfolding range_to
get_elem?-range_to s a n i =
    ground (
      arith,
      get_elem?-slice s a n i,
      get_elem?-slice s a (length s - 1) i,
      get_elem?-past s (a + i),
    )

get_elem?-range_to_end :
    (s : Bytes) (a : ℕ) (end : ℤ) (i : ℕ)
    → get_elem? (range_to s a end) i
      ≡ (if not_behind (a + i) end then get_elem? s (a + i) else none)
get_elem?-range_to_end s a (pos n) i = get_elem?-range_to s a n i
get_elem?-range_to_end s a (negsuc n) i = unfold range_to in refl

-- Byte `i` of GETRANGE's reply is byte `start + i` of the string as long as that is not behind
-- `end`, and else there is none; negative indices count from the end of the string, a start that is
-- still negative then counts as 0, and no byte is before such an end.
pub get_elem?-range_of :
    (s : Bytes) (start end : ℤ) (i : ℕ)
    → get_elem? (range_of s start end) i ≡ (
        if not_behind (pos_part (norm_index start (length s)) + i) (norm_index end (length s))
        then get_elem? s (pos_part (norm_index start (length s)) + i)
        else none)
unfolding range_of
get_elem?-range_of s start end i =
    let a : ℕ = pos_part (norm_index start (length s)) in
    elim (Bool-cases (length s == 0)) [
      | inl y ↦ rw y (
          sym (
            no_byte (not_behind (a + i) (norm_index end (length s))) s (a + i)
              (is_empty (length s) y)))
      | inr n ↦ rw n (get_elem?-range_to_end s a (norm_index end (length s)) i)
    ]

get_elem?-pad_to :
    (n : ℕ) (buf : Bytes) (i : ℕ)
    → get_elem? (pad_to n buf) i
      ≡ (if ltb i (length buf) then get_elem? buf i else if ltb i n then some 0 else none)
unfolding pad_to
get_elem?-pad_to n buf i = ground (
  arith,
  get_elem?-append buf (replicate (n - length buf) 0) i,
  get_elem?-replicate (n - length buf) (i - length buf) 0,
  get_elem?-past buf i,
)

length-pad_to :
    (n : ℕ) (buf : Bytes) → (n ≤ length (pad_to n buf)) × (length buf ≤ length (pad_to n buf))
unfolding pad_to
length-pad_to n buf = ground (
  arith,
  length-append buf (replicate (n - length buf) 0),
  length-replicate {A = ℕ} (n - length buf) 0,
)

splice :
    (offset : ℕ) (patch padded : Bytes) (i : ℕ)
    → offset + length patch ≤ length padded
    → get_elem? (take offset padded ++ (patch ++ drop (offset + length patch) padded)) i ≡ (
        if leb offset i && ltb i (offset + length patch)
        then get_elem? patch (i - offset)
        else get_elem? padded i)
splice offset patch padded i h = ground (
  arith,
  get_elem?-append (take offset padded) (patch ++ drop (offset + length patch) padded) i,
  length-take offset padded,
  get_elem?-take offset padded i,
  get_elem?-append patch (drop (offset + length patch) padded) (i - offset),
  get_elem?-drop (offset + length patch) padded (i - offset - length patch),
)

-- SETRANGE writes the patch at the offset, keeps the other bytes, and fills a gap with zeros.
pub get_elem?-patch_at :
    (offset : ℕ) (patch buf : Bytes) (i : ℕ)
    → get_elem? (patch_at offset patch buf) i ≡ (
        if leb offset i && ltb i (offset + length patch)
        then get_elem? patch (i - offset)
        else if ltb i (length buf)
        then get_elem? buf i
        else if ltb i offset
        then some 0
        else none)
unfolding patch_at
get_elem?-patch_at offset patch buf i =
    splice offset patch (pad_to (offset + length patch) buf) i
      (length-pad_to (offset + length patch) buf).0
    ∙ ground (arith, get_elem?-pad_to (offset + length patch) buf i)
