-- ===== src/Resp/Parse/RoundTrip.antt =====
-- What a client writes for a request, the parser reads, and leaves what follows.
use meebis.Base.{
  ℕ, zero, suc, ◌*◌, ◌^◌, ◌<◌, ◌≤◌, ◌≡◌, refl, ◌∙◌, sym, ◌≢◌, ap, Bool, List, [], ◌∷◌, ◌++◌, arith,
  length, take, drop, append_assoc, length-append,
}
use meebis.Base.Bytes.{Bytes, All}
use meebis.Base.Int.{pos}
use meebis.Base.Decimal.{nat_to_string}
use meebis.Resp.Frame.{array, bulks}
use meebis.Resp.Encode.{encode, encode_items, encode_bulk, encode_header, crlf, count_items}
use meebis.Resp.Parse.{
  parsed, failed, split_line, trim_cr, parse_int, bulk_body, parse_bulk, parse_bulks, items_of,
  parse_array, parse_command, command, starts_crlf, bad, capacity_overflow,
}
use meebis.Resp.Parse.Lines.{
  split_line-append, trim_cr-append, parse_int-nat_to_string, numeral-line,
}

-- Every argument has a length that fits an `i64`.
abbrev pub IsShort : Bytes → Type 0
IsShort arg = length arg < 2 ^ 63

regroup : (digits rest : Bytes) → (digits ++ crlf) ++ rest ≡ (digits ++ (13 ∷ [])) ++ (10 ∷ rest)
regroup digits rest =
    append_assoc digits crlf rest ∙ sym (append_assoc digits (13 ∷ []) (10 ∷ rest))

header_line :
    (marker n : ℕ) (rest : Bytes)
    → marker ≢ 10
    → split_line (marker ∷ ((nat_to_string n ++ crlf) ++ rest))
      ≡ parsed (marker ∷ (nat_to_string n ++ (13 ∷ [])), rest)
header_line marker n rest m =
    rw (regroup (nat_to_string n) rest)
      (split_line-append (marker ∷ (nat_to_string n ++ (13 ∷ []))) rest (m, numeral-line n))

header_number :
    (marker n : ℕ)
    → n < 2 ^ 63
    → parse_int (trim_cr (drop 1 (marker ∷ (nat_to_string n ++ (13 ∷ []))))) ≡ parsed (pos n)
header_number marker n h = rw (trim_cr-append (nat_to_string n)) (parse_int-nat_to_string n h)

drop-append : (xs ys : Bytes) → drop (length xs) (xs ++ ys) ≡ ys
drop-append [] ys = refl
drop-append (x ∷ xs) ys = drop-append xs ys

take-append : (xs ys : Bytes) → take (length xs) (xs ++ ys) ≡ xs
take-append [] ys = refl
take-append (x ∷ xs) ys = ap (λ l. x ∷ l) (take-append xs ys)

bulk_body-append :
    (arg rest : Bytes) → bulk_body (length arg) (arg ++ (13 ∷ 10 ∷ rest)) ≡ parsed (arg, rest)
unfolding bulk_body starts_crlf
bulk_body-append arg rest =
    rw (drop-append arg (13 ∷ 10 ∷ rest), take-append arg (13 ∷ 10 ∷ rest))
      (ground (arith, length-append arg (13 ∷ 10 ∷ rest)))

bulk_regroup :
    (arg rest : Bytes)
    → encode_bulk arg ++ rest
      ≡ b'$' ∷ ((nat_to_string (length arg) ++ crlf) ++ (arg ++ (13 ∷ 10 ∷ rest)))
unfolding encode_bulk
bulk_regroup arg rest = simp append_assoc

parse_bulk-encode_bulk :
    (arg rest : Bytes) → IsShort arg → parse_bulk (encode_bulk arg ++ rest) ≡ parsed (arg, rest)
parse_bulk-encode_bulk arg rest h = rw (bulk_regroup arg rest) (
    unfold parse_bulk in
    rw
      (
        header_line b'$' (length arg) (arg ++ (13 ∷ 10 ∷ rest)) (omega arith),
        header_number b'$' (length arg) h,
      )
      (bulk_body-append arg rest))

parse_bulks-encode_items :
    (fd : ℕ → Bytes) (resp3 : Bool) (args : List Bytes) (rest : Bytes)
    → All IsShort args
    → parse_bulks (length args) (encode_items fd resp3 (bulks args) ++ rest) ≡ parsed (args, rest)
unfolding parse_bulks encode
parse_bulks-encode_items fd resp3 [] rest h = refl
parse_bulks-encode_items fd resp3 (arg ∷ args) rest h = rw (
  append_assoc (encode_bulk arg) (encode_items fd resp3 (bulks args)) rest,
  parse_bulk-encode_bulk arg (encode_items fd resp3 (bulks args) ++ rest) h.0,
  parse_bulks-encode_items fd resp3 args rest h.1,
)

count_items-bulks : (args : List Bytes) → count_items (bulks args) ≡ length args
count_items-bulks [] = refl
count_items-bulks (arg ∷ args) = ap suc (count_items-bulks args)

items_of-length :
    (item : ℕ) (args : List Bytes) (buf : Bytes)
    → length args * item < 2 ^ 63
    → items_of item (pos (length args)) buf ≡ parse_bulks (length args) buf
unfolding items_of
items_of-length item [] buf h = unfold parse_bulks in refl
items_of-length item (arg ∷ args) buf h = ground arith

array_regroup :
    (fd : ℕ → Bytes) (resp3 : Bool) (args : List Bytes) (rest : Bytes)
    → encode fd resp3 (array (bulks args)) ++ rest
      ≡ b'*'
        ∷ ((nat_to_string (length args) ++ crlf) ++ (encode_items fd resp3 (bulks args) ++ rest))
unfolding encode encode_header
array_regroup fd resp3 args rest = rw (count_items-bulks args) (simp append_assoc)

parse_array-encode :
    (item : ℕ) (args : List Bytes) (buf rest : Bytes)
    → length args < 2 ^ 63
    → length args * item < 2 ^ 63
    → parse_bulks (length args) buf ≡ parsed (args, rest)
    → parse_array item (b'*' ∷ ((nat_to_string (length args) ++ crlf) ++ buf)) ≡ parsed (args, rest)
unfolding parse_array
parse_array-encode item args buf rest h k e =
    rw
      (
        header_line b'*' (length args) buf (omega arith),
        header_number b'*' (length args) h,
        items_of-length item args buf k,
      )
      e

-- A request written as an array of bulk strings, in either protocol, is parsed to its arguments, and
-- the bytes behind it stay in the buffer: for arguments whose number and lengths fit an `i64`, and
-- whose array can be allocated.
pub parse_command-encode :
    (item : ℕ) (fd : ℕ → Bytes) (resp3 : Bool) (args : List Bytes) (rest : Bytes)
    → length args < 2 ^ 63
    → length args * item < 2 ^ 63
    → All IsShort args
    → parse_command item (encode fd resp3 (array (bulks args)) ++ rest) ≡ (rest, command args)
parse_command-encode item fd resp3 args rest h k s = rw (array_regroup fd resp3 args rest) (
    unfold parse_command in
    rw (
      parse_array-encode item args (encode_items fd resp3 (bulks args) ++ rest) rest h k
        (parse_bulks-encode_items fd resp3 args rest s)))

items_of_huge :
    (item n : ℕ) (buf : Bytes)
    → 0 < n
    → 2 ^ 63 ≤ n * item
    → items_of item (pos n) buf ≡ failed capacity_overflow
unfolding items_of
items_of_huge item zero buf h k = absurd (omega arith)
items_of_huge item (suc n) buf h k = ground arith

-- A header whose announced number of arguments passes the address space panics, before any of the
-- arguments is there.
pub parse_command_huge :
    (item n : ℕ) (rest : Bytes)
    → 0 < n
    → n < 2 ^ 63
    → 2 ^ 63 ≤ n * item
    → parse_command item (b'*' ∷ ((nat_to_string n ++ crlf) ++ rest))
      ≡ (b'*' ∷ ((nat_to_string n ++ crlf) ++ rest), bad capacity_overflow)
unfolding parse_command parse_array
parse_command_huge item n rest h k l =
    rw
      (header_line b'*' n rest (omega arith), header_number b'*' n k, items_of_huge item n rest h l)
