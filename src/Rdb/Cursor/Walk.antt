-- ===== src/Rdb/Cursor/Walk.antt =====
-- Reading what stands at the position, for any text before and behind it.
use meebis.Base.{
  ℕ, ◌+◌, ◌≤◌, ◌<◌, ◌^◌, ◌≡◌, refl, sym, ◌∙◌, false, [], ◌∷◌, ◌++◌, ltb, leb, some, get_elem?,
  take as take_list, drop, length, length-append, arith, append_assoc, append-nil, ap,
}
use mathlib.Core.Path.{subst}
use meebis.Base.Bytes.{Bytes}
use meebis.Rdb.Cursor.{ok, Reader, M, ◌>>=◌, pure, byte, take}

-- The reader over `before ++ behind`, at the end of `before`.
abbrev pub at : Bytes → Bytes → Reader
at before behind = record { buf = before ++ behind; pos = length before }

-- `m` reads exactly `bytes` and returns `a`, whatever stands before and behind, as long as the
-- whole image is addressable.
abbrev pub Reads : {A : Type 0} → M A → Bytes → A → Type 0
Reads m bytes a =
    (before behind : Bytes)
    → length before + length bytes < 2 ^ 64
    → m (at before (bytes ++ behind)) ≡ ok (a, at (before ++ bytes) behind)

get_elem?-middle : (xs ys : Bytes) (b : ℕ) → get_elem? (xs ++ (b ∷ ys)) (length xs) ≡ some b
get_elem?-middle [] ys b = refl
get_elem?-middle (x ∷ xs) ys b = get_elem?-middle xs ys b

drop-append : (xs ys : Bytes) → drop (length xs) (xs ++ ys) ≡ ys
drop-append [] ys = refl
drop-append (x ∷ xs) ys = drop-append xs ys

take-append : (xs ys : Bytes) → take_list (length xs) (xs ++ ys) ≡ xs
take-append [] ys = refl
take-append (x ∷ xs) ys = ap (λ l. x ∷ l) (take-append xs ys)

at_eq :
    (b1 r1 b2 r2 : Bytes) (p : ℕ)
    → b1 ++ r1 ≡ b2 ++ r2
    → p ≡ length b2
    → ◌≡◌ {A = Reader} (record { buf = b1 ++ r1; pos = p }) (at b2 r2)
at_eq b1 r1 b2 r2 p e q = λ i. record { buf = e i; pos = q i }

at_after :
    (before bytes behind : Bytes)
    → ◌≡◌ {A = Reader}
        (record { buf = before ++ (bytes ++ behind); pos = length before + length bytes })
        (at (before ++ bytes) behind)
at_after before bytes behind =
    at_eq before (bytes ++ behind) (before ++ bytes) behind (length before + length bytes)
      (sym (append_assoc before bytes behind)) (sym (length-append before bytes))

pub byte-Reads : (b : ℕ) → Reads byte (b ∷ []) b
unfolding byte
byte-Reads b before behind h =
    rw (get_elem?-middle before behind b, byte)
      (ap (λ r. ok (b, r)) (at_after before (b ∷ []) behind))

fits :
    (before bytes behind : Bytes)
    → length before + length bytes ≤ length (before ++ (bytes ++ behind))
fits before bytes behind =
    omega (arith, length-append before (bytes ++ behind), length-append bytes behind)

take_all-Reads : (bytes : Bytes) → Reads (take (length bytes)) bytes bytes
unfolding take
take_all-Reads bytes before behind h =
    rw
      (
        leb_false h,
        ltb_false (fits before bytes behind),
        drop-append before (bytes ++ behind),
        take-append bytes behind,
        take,
      )
      (ap (λ r. ok (bytes, r)) (at_after before bytes behind))
  where
    leb_false : {a b : ℕ} → a < b → leb b a ≡ false
    leb_false l = ground arith

    ltb_false : {a b : ℕ} → a ≤ b → ltb b a ≡ false
    ltb_false l = ground arith

pub take-Reads : (n : ℕ) (bytes : Bytes) → length bytes ≡ n → Reads (take n) bytes bytes
take-Reads n bytes e = subst (λ m. Reads (take m) bytes bytes) e (take_all-Reads bytes)

-- Reading one thing and then another.
pub bind-Reads :
    {A B : Type 0} (m : M A) (f : A → M B) (xs ys : Bytes) (a : A) (b : B)
    → Reads m xs a
    → Reads (f a) ys b
    → Reads (m >>= f) (xs ++ ys) b
bind-Reads m f xs ys a b hm hf before behind h =
    rw
      (
        append_assoc xs ys behind,
        hm before (ys ++ behind) (omega (arith, length-append xs ys)),
        ◌>>=◌,
      )
      (hf (before ++ xs) behind (omega (arith, length-append xs ys, length-append before xs))
        ∙ ap (λ t. ok (b, at t behind)) (append_assoc before xs ys))

pub pure-Reads : {A : Type 0} (a : A) → Reads (pure a) [] a
pure-Reads a before behind h = rw append-nil
