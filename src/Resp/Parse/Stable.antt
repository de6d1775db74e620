-- ===== src/Resp/Parse/Stable.antt =====
-- More bytes do not change what the parser has settled: requests may arrive in any pieces.
use meebis.Base.{
  ◌*◌, ◌^◌, ℕ, zero, suc, ◌+◌, ◌≤◌, ◌≡◌, ◌≢◌, refl, ◌∙◌, ap, false, List, [], ◌∷◌, ◌++◌, arith,
  length, take, drop, ltb, Bool-cases, inl, inr, if◌then◌else◌, length-append, length-drop, ◌==◌,
  leb,
}
use meebis.Base.Bytes.{Bytes}
use meebis.Base.Int.{ℤ, pos, negsuc}
use meebis.Resp.Parse.{
  Parsed, parsed, failed, incomplete, ◌>>=◌, split_line, trim_cr, parse_int, bulk_body, bulk_of,
  parse_bulk, parse_bulks, items_of, parse_array, parse_inline, split_inline, between,
  parse_command, settle, Outcome, need_more, starts_crlf,
}

-- The same result with more bytes behind it.
abbrev extend {ℓ} : {A : Type ℓ} → Bytes → Parsed (A × Bytes) → Parsed (A × Bytes)
extend ys (parsed (a, rest)) = parsed (a, rest ++ ys)
extend ys incomplete = incomplete
extend ys (failed e) = failed e

abbrev Extends {ℓ} : {A : Type ℓ} → (Bytes → Parsed (A × Bytes)) → Type ℓ
Extends m = (xs ys : Bytes) → m xs ≢ incomplete → m (xs ++ ys) ≡ extend ys (m xs)

bind-Extends {ℓ κ} :
    {A : Type ℓ} {B : Type κ} (m : Bytes → Parsed (A × Bytes)) (f : A → Bytes → Parsed (B × Bytes))
    → Extends m
    → ((a : A) → Extends (f a))
    → Extends (λ xs. m xs >>= λ (a, rest). f a rest)
bind-Extends m f hm hf xs ys n = go (m xs) refl n
  where
    go :
        (r : Parsed _)
        → m xs ≡ r
        → (r >>= λ (a, rest). f a rest) ≢ incomplete
        → (m (xs ++ ys) >>= λ (a, rest). f a rest) ≡ extend ys (r >>= λ (a, rest). f a rest)
    go (parsed (a, rest)) e k =
        let q : m (xs ++ ys) ≡ parsed (a, rest ++ ys) =
          hm xs ys (λ i. cc (e, i)) ∙ ap (extend ys) e in
        rw q (hf a rest ys k)
    go incomplete e k = absurd (k refl)
    go (failed x) e k =
        let q : m (xs ++ ys) ≡ failed x = hm xs ys (λ i. cc (e, i)) ∙ ap (extend ys) e in rw q

split_line-Extends : Extends split_line
unfolding split_line
split_line-Extends [] ys n = absurd (n refl)
split_line-Extends (c ∷ xs) ys n = ground (arith, split_line-Extends xs ys)

take-append_le : (n : ℕ) (xs ys : Bytes) → n ≤ length xs → take n (xs ++ ys) ≡ take n xs
take-append_le zero xs ys h = refl
take-append_le (suc n) [] ys h = absurd (omega arith)
take-append_le (suc n) (x ∷ xs) ys h = ap (λ l. x ∷ l) (take-append_le n xs ys (omega arith))

drop-append_le : (n : ℕ) (xs ys : Bytes) → n ≤ length xs → drop n (xs ++ ys) ≡ drop n xs ++ ys
drop-append_le zero xs ys h = refl
drop-append_le (suc n) [] ys h = absurd (omega arith)
drop-append_le (suc n) (x ∷ xs) ys h = drop-append_le n xs ys (omega arith)

starts_crlf-append : (xs ys : Bytes) → 2 ≤ length xs → starts_crlf (xs ++ ys) ≡ starts_crlf xs
unfolding starts_crlf
starts_crlf-append [] ys h = absurd (omega arith)
starts_crlf-append (x ∷ []) ys h = absurd (omega arith)
starts_crlf-append (x ∷ y ∷ xs) ys h = refl

bulk_body-Extends : (len : ℕ) → Extends (bulk_body len)
unfolding bulk_body
bulk_body-Extends len xs ys n = elim (Bool-cases (ltb (length xs) (len + 2))) [
  | inl short ↦ absurd (n (rw short))
  | inr long ↦
      let fits : len + 2 ≤ length xs = ground arith in
      let longer : ltb (length (xs ++ ys)) (len + 2) ≡ false =
        ground (arith, length-append xs ys) in
      let left : 2 ≤ length (drop len xs) = omega (arith, length-drop len xs) in
      rw
        (
          long,
          longer,
          take-append_le len xs ys (omega arith),
          drop-append_le len xs ys (omega arith),
          starts_crlf-append (drop len xs) ys left,
          drop-append_le 2 (drop len xs) ys left,
        )
        (ground arith)
]

bulk_of-Extends : (len : ℤ) → Extends (bulk_of len)
unfolding bulk_of
bulk_of-Extends (pos n) xs ys k = bulk_body-Extends n xs ys k
bulk_of-Extends (negsuc n) xs ys k = refl

-- What a line is read as, and then what follows.
number_bind-Extends {ℓ} :
    {A : Type ℓ} (o : Parsed ℤ) (f : ℤ → Bytes → Parsed (A × Bytes))
    → ((n : ℤ) → Extends (f n))
    → Extends (λ xs. o >>= λ n. f n xs)
number_bind-Extends (parsed n) f h xs ys k = h n xs ys k
number_bind-Extends incomplete f h xs ys k = refl
number_bind-Extends (failed e) f h xs ys k = refl

parse_bulk-Extends : Extends parse_bulk
unfolding parse_bulk
parse_bulk-Extends [] ys n = absurd (n refl)
parse_bulk-Extends (c ∷ xs) ys n = elim (Bool-cases (c == b'$')) [
  | inl y ↦ rw y (
      bind-Extends split_line
        (λ line rest. parse_int (trim_cr (drop 1 line)) >>= λ len. bulk_of len rest)
        split_line-Extends
        (λ line. number_bind-Extends (parse_int (trim_cr (drop 1 line))) bulk_of bulk_of-Extends)
        (c ∷ xs) ys (rw y at n))
  | inr k ↦ rw k
]

parse_bulks-Extends : (n : ℕ) → Extends (parse_bulks n)
unfolding parse_bulks
parse_bulks-Extends zero xs ys k = refl
parse_bulks-Extends (suc n) xs ys k =
    bind-Extends parse_bulk
      (λ arg buf. parse_bulks n buf >>= λ (args, rest). parsed (arg ∷ args, rest))
      parse_bulk-Extends
      (λ arg.
        bind-Extends (parse_bulks n) (λ args rest. parsed (arg ∷ args, rest))
          (parse_bulks-Extends n) (λ args xs ys k. refl))
      xs ys k

items_of-Extends : (item : ℕ) (n : ℤ) → Extends (items_of item n)
unfolding items_of
items_of-Extends item (negsuc n) xs ys k = refl
items_of-Extends item (pos zero) xs ys k = refl
items_of-Extends item (pos (suc n)) xs ys k = elim (Bool-cases (leb (2 ^ 63) (suc n * item))) [
  | inl y ↦ rw y
  | inr no_panic ↦ rw no_panic (parse_bulks-Extends (suc n) xs ys (rw no_panic at k))
]

parse_array-Extends : (item : ℕ) → Extends (parse_array item)
unfolding parse_array
parse_array-Extends item =
    bind-Extends split_line
      (λ line rest. parse_int (trim_cr (drop 1 line)) >>= λ n. items_of item n rest)
      split_line-Extends
      (λ line.
        number_bind-Extends (parse_int (trim_cr (drop 1 line))) (items_of item)
          (items_of-Extends item))

inline_args-Extends : (o : Parsed (List Bytes)) → Extends (λ xs. o >>= λ args. parsed (args, xs))
inline_args-Extends (parsed args) xs ys k = refl
inline_args-Extends incomplete xs ys k = refl
inline_args-Extends (failed e) xs ys k = refl

parse_inline-Extends : Extends parse_inline
unfolding parse_inline
parse_inline-Extends =
    bind-Extends split_line
      (λ line rest. split_inline between (trim_cr line) >>= λ args. parsed (args, rest))
      split_line-Extends (λ line. inline_args-Extends (split_inline between (trim_cr line)))

request_of : ℕ → Bytes → Parsed (List Bytes × Bytes)
request_of item [] = incomplete
request_of item (c ∷ xs) = if c == b'*' then parse_array item (c ∷ xs) else parse_inline (c ∷ xs)

request_of-Extends : (item : ℕ) → Extends (request_of item)
unfolding request_of
request_of-Extends item [] ys n = absurd (n refl)
request_of-Extends item (c ∷ xs) ys n = elim (Bool-cases (c == b'*')) [
  | inl y ↦ rw y (parse_array-Extends item (c ∷ xs) ys (rw y at n))
  | inr k ↦ rw k (parse_inline-Extends (c ∷ xs) ys (rw k at n))
]

parse_command-settle :
    (item : ℕ) (xs : Bytes) → parse_command item xs ≡ settle xs (request_of item xs)
unfolding parse_command request_of
parse_command-settle item [] = refl
parse_command-settle item (c ∷ xs) = refl

-- The outcome of the buffer with `ys` behind it: what is settled stays, with `ys` left over.
abbrev pub with_more : Bytes → Bytes × Outcome → Bytes × Outcome
with_more ys (buf, o) = (buf ++ ys, o)

settle-extend :
    (xs ys : Bytes) (r : Parsed (List Bytes × Bytes))
    → r ≢ incomplete
    → settle (xs ++ ys) (extend ys r) ≡ with_more ys (settle xs r)
unfolding settle
settle-extend xs ys (parsed (args, rest)) n = refl
settle-extend xs ys incomplete n = absurd (n refl)
settle-extend xs ys (failed e) n = refl

incomplete-need_more :
    (xs : Bytes) (r : Parsed (List Bytes × Bytes)) → (settle xs r).1 ≢ need_more → r ≢ incomplete
unfolding settle
incomplete-need_more xs r h e = h (rw e)

-- Once the parser has settled on a request or an error, more bytes behind the buffer change neither
-- the result nor what is consumed.
pub parse_command-append :
    (item : ℕ) (xs ys : Bytes)
    → (parse_command item xs).1 ≢ need_more
    → parse_command item (xs ++ ys) ≡ with_more ys (parse_command item xs)
parse_command-append item xs ys h =
    let n : request_of item xs ≢ incomplete =
      incomplete-need_more xs (request_of item xs) (rw (parse_command-settle item xs) at h) in
    rw
      (
        parse_command-settle item (xs ++ ys),
        parse_command-settle item xs,
        request_of-Extends item xs ys n,
      )
      (settle-extend xs ys (request_of item xs) n)
