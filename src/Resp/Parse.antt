-- ===== src/Resp/Parse.antt =====
-- src/resp.rs: the incremental parser of requests. The buffer from the position on is a list, so the
-- number of bytes consumed is what the returned rest lacks.
pub mod Lines
pub mod RoundTrip
pub mod Stable
use mathlib.Core.List.{reverse}
use meebis.Base.{
  ℕ, zero, suc, ◌+◌, ◌*◌, ◌^◌, ◌≤◌, Bool, true, false, ◌&&◌, ◌||◌, not, List, [], ◌∷◌, ◌++◌, Option,
  none, some, ltb, leb, ◌==◌, if◌then◌else◌, length, take, drop,
}
use meebis.Base.Bytes.{Bytes}
use meebis.Base.Decimal.{parse_i64}
use meebis.Base.Int.{ℤ, pos, negsuc}

-- The messages of `ParseError::Protocol`, and the panic of `Vec::with_capacity` where the capacity
-- in bytes passes `isize::MAX`.
pub data Failure : Type 0 where
  invalid_length : Failure
  expected_dollar : ℕ → Failure
  expected_crlf : Failure
  unbalanced_quotes : Failure
  capacity_overflow : Failure

-- `Err(Incomplete)` is `incomplete`.
pub data Parsed {ℓ} (A : Type ℓ) : Type ℓ where
  parsed : A → Parsed A
  incomplete : Parsed A
  failed : Failure → Parsed A

infixl 5 ◌>>=◌
abbrev pub ◌>>=◌ {ℓ κ} : {A : Type ℓ} {B : Type κ} → Parsed A → (A → Parsed B) → Parsed B
parsed a >>= f = f a
incomplete >>= f = incomplete
failed e >>= f = failed e

-- Up to the next `\n`, and what stands behind it.
unfoldable pub split_line : Bytes → Parsed (Bytes × Bytes)
split_line [] = incomplete
split_line (c ∷ buf) =
    let later = split_line buf >>= λ (line, rest). parsed (c ∷ line, rest) in
    if c == 10 then parsed ([], buf) else later

unfoldable pub trim_cr : Bytes → Bytes
trim_cr [] = []
trim_cr (c ∷ []) = if c == 13 then [] else c ∷ []
trim_cr (c ∷ d ∷ line) = c ∷ trim_cr (d ∷ line)

-- `char::is_whitespace`, by the length of the UTF-8 form.
space_1 : ℕ → Bool
space_1 a = a == 32 || (leb 9 a && leb a 13)

space_2 : ℕ → ℕ → Bool
space_2 a b = a == 0xc2 && (b == 0x85 || b == 0xa0)

space_3 : ℕ → ℕ → ℕ → Bool
space_3 a b c =
    (a == 0xe1 && b == 0x9a && c == 0x80)
    || (a == 0xe2 && b == 0x80 && (leb 0x80 c && leb c 0x8a || c == 0xa8 || c == 0xa9 || c == 0xaf))
    || (a == 0xe2 && b == 0x81 && c == 0x9f)
    || (a == 0xe3 && b == 0x80 && c == 0x80)

pub trim_start : Bytes → Bytes
unfolding space_1 space_2 space_3
trim_start [] = []
trim_start (a ∷ []) = if space_1 a then [] else a ∷ []
trim_start (a ∷ b ∷ []) =
    let one = trim_start (b ∷ []) in
    if space_1 a then one else if space_2 a b then [] else a ∷ b ∷ []
trim_start (a ∷ b ∷ c ∷ s) =
    let one = trim_start (b ∷ c ∷ s) in
    let two = trim_start (c ∷ s) in
    let three = trim_start s in
    if space_1 a
    then one
    else if space_2 a b
    then two
    else if space_3 a b c
    then three
    else a ∷ b ∷ c ∷ s

-- From the other end: the text is reversed.
pub trim_back : Bytes → Bytes
unfolding space_1 space_2 space_3
trim_back [] = []
trim_back (a ∷ []) = if space_1 a then [] else a ∷ []
trim_back (a ∷ b ∷ []) =
    let one = trim_back (b ∷ []) in
    if space_1 a then one else if space_2 b a then [] else a ∷ b ∷ []
trim_back (a ∷ b ∷ c ∷ s) =
    let one = trim_back (b ∷ c ∷ s) in
    let two = trim_back (c ∷ s) in
    let three = trim_back s in
    if space_1 a
    then one
    else if space_2 b a
    then two
    else if space_3 c b a
    then three
    else a ∷ b ∷ c ∷ s

-- `str::trim`. Bytes that are not UTF-8 are neither blank nor digits, so the parse fails on them.
pub trim : Bytes → Bytes
unfolding trim_start trim_back
trim s = reverse (trim_back (reverse (trim_start s)))

length_or_fail : Option ℤ → Parsed ℤ
length_or_fail none = failed invalid_length
length_or_fail (some n) = parsed n

unfoldable pub parse_int : Bytes → Parsed ℤ
unfolding trim length_or_fail
parse_int s = length_or_fail (parse_i64 (trim s))

starts_crlf : Bytes → Bool
starts_crlf [] = false
starts_crlf (c ∷ []) = false
starts_crlf (c ∷ d ∷ s) = c == 13 && d == 10

-- The `len` bytes of a bulk string and the line end behind them.
bulk_body : ℕ → Bytes → Parsed (Bytes × Bytes)
unfolding starts_crlf
bulk_body len buf =
    if ltb (length buf) (len + 2)
    then incomplete
    else if starts_crlf (drop len buf)
    then parsed (take len buf, drop 2 (drop len buf))
    else failed expected_crlf

bulk_of : ℤ → Bytes → Parsed (Bytes × Bytes)
unfolding bulk_body
bulk_of (negsuc n) buf = parsed ([], buf)
bulk_of (pos n) buf = bulk_body n buf

-- One round of the loop over the arguments.
unfoldable pub parse_bulk : Bytes → Parsed (Bytes × Bytes)
unfolding bulk_of
parse_bulk [] = incomplete
parse_bulk (c ∷ buf) =
    if c == b'$'
    then (do
      (line, rest) ← split_line (c ∷ buf)
      len ← parse_int (trim_cr (drop 1 line))
      bulk_of len rest)
    else failed (expected_dollar c)

unfoldable pub parse_bulks : ℕ → Bytes → Parsed (List Bytes × Bytes)
parse_bulks zero buf = parsed ([], buf)
parse_bulks (suc n) buf = do
  (arg, buf') ← parse_bulk buf
  (args, rest) ← parse_bulks n buf'
  parsed (arg ∷ args, rest)

-- `item` is the size of a `Bytes` in memory, which its crate decides.
items_of : ℕ → ℤ → Bytes → Parsed (List Bytes × Bytes)
items_of item (negsuc n) buf = parsed ([], buf)
items_of item (pos zero) buf = parsed ([], buf)
items_of item (pos (suc n)) buf =
    if leb (2 ^ 63) (suc n * item) then failed capacity_overflow else parse_bulks (suc n) buf

unfoldable pub parse_array : ℕ → Bytes → Parsed (List Bytes × Bytes)
unfolding items_of
parse_array item buf = do
  (line, rest) ← split_line buf
  count ← parse_int (trim_cr (drop 1 line))
  items_of item count rest

-- `u8::is_ascii_whitespace`
is_blank : ℕ → Bool
is_blank c = c == 32 || c == 9 || c == 10 || c == 12 || c == 13

unescape : ℕ → ℕ
unescape c =
    if c == b'n'
    then 10
    else if c == b'r'
    then 13
    else if c == b't'
    then 9
    else if c == b'b'
    then 8
    else if c == b'a'
    then 7
    else c

-- Where the loop stands in the line: between arguments, or in one, with its bytes so far.
pub data Mode : Type 0 where
  between : Mode
  bare double_quoted single_quoted : Bytes → Mode

pub split_inline : Mode → Bytes → Parsed (List Bytes)
unfolding is_blank unescape
split_inline between [] = parsed []
split_inline (bare cur) [] = parsed (cur ∷ [])
split_inline (double_quoted cur) [] = failed unbalanced_quotes
split_inline (single_quoted cur) [] = failed unbalanced_quotes
split_inline between (c ∷ line) =
    split_inline
      (if is_blank c
        then between
        else if c == b'"'
        then double_quoted []
        else if c == 39
        then single_quoted []
        else bare (c ∷ []))
      line
split_inline (bare cur) (c ∷ line) =
    let after = split_inline between line >>= λ args. parsed (cur ∷ args) in
    let onward = split_inline (bare (cur ++ (c ∷ []))) line in if is_blank c then after else onward
split_inline (double_quoted cur) (c ∷ []) =
    if c == b'"' then parsed (cur ∷ []) else failed unbalanced_quotes
split_inline (double_quoted cur) (c ∷ d ∷ line) =
    let closed = split_inline between (d ∷ line) >>= λ args. parsed (cur ∷ args) in
    let escaped = split_inline (double_quoted (cur ++ (unescape d ∷ []))) line in
    let onward = split_inline (double_quoted (cur ++ (c ∷ []))) (d ∷ line) in
    if c == b'"' then closed else if c == b'\\' then escaped else onward
split_inline (single_quoted cur) (c ∷ []) =
    if c == 39 then parsed (cur ∷ []) else failed unbalanced_quotes
split_inline (single_quoted cur) (c ∷ d ∷ line) =
    let closed = split_inline between (d ∷ line) >>= λ args. parsed (cur ∷ args) in
    let escaped = split_inline (single_quoted (cur ++ (39 ∷ []))) line in
    let onward = split_inline (single_quoted (cur ++ (c ∷ []))) (d ∷ line) in
    if c == 39 then closed else if c == b'\\' && d == 39 then escaped else onward

unfoldable pub parse_inline : Bytes → Parsed (List Bytes × Bytes)
unfolding split_inline
parse_inline buf = do
  (line, rest) ← split_line buf
  args ← split_inline between (trim_cr line)
  parsed (args, rest)

-- The result: `Ok(Some(args))`, `Ok(None)` or `Err(Protocol)`.
pub data Outcome : Type 0 where
  command : List Bytes → Outcome
  need_more : Outcome
  bad : Failure → Outcome

settle : Bytes → Parsed (List Bytes × Bytes) → Bytes × Outcome
settle buf (parsed (args, rest)) = (rest, command args)
settle buf incomplete = (buf, need_more)
settle buf (failed e) = (buf, bad e)

-- The buffer that is left, and the result.
unfoldable pub parse_command : ℕ → Bytes → Bytes × Outcome
unfolding settle
parse_command item [] = ([], need_more)
parse_command item (c ∷ buf) =
    settle (c ∷ buf) (if c == b'*' then parse_array item (c ∷ buf) else parse_inline (c ∷ buf))
