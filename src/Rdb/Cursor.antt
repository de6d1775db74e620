-- ===== src/Rdb/Cursor.antt =====
-- src/rdb/cursor.rs: the bounds-checked reader, the length encoding and the string encoding.
-- `string_double` is left out: it parses a decimal float.
pub mod Walk
use meebis.Base.{
  ℕ, zero, suc, ◌+◌, ◌-◌, ◌*◌, ◌/◌, ◌%◌, ◌^◌, ◌<◌, ◌≡◌, Bool, [], ◌∷◌, List, ◌++◌, String, ltb, leb,
  ◌==◌, if◌then◌else◌, Option, none, some, get_elem?, take as take_list, drop, length, bit_and,
  bit_or,
}
use meebis.Base.Bytes.{Bytes}
use meebis.Base.Decimal.{to_string}
use meebis.Rdb.Words.{from_le, from_be, signed}
use meebis.Rdb.Lzf.{decompress}

-- `Error::Corrupt` carries what is wrong and the offset.
pub data Result {ℓ} (A : Type ℓ) : Type ℓ where
  ok : A → Result A
  corrupt : String → ℕ → Result A

pub record Reader : Type 0 where
  pub buf : Bytes
  pub pos : ℕ

-- A method of the reader.
abbrev pub M : Type 0 → Type 0
M A = Reader → Result (A × Reader)

infixl 5 ◌>>=◌
abbrev pub ◌>>=◌ : {A B : Type 0} → M A → (A → M B) → M B
◌>>=◌ m f r = elim (m r) [ ok (a, r') ↦ f a r' | corrupt w p ↦ corrupt w p ]

abbrev pub pure : {A : Type 0} → A → M A
pure a r = ok (a, r)

-- `Err(self.corrupt(what))`
unfoldable pub fail : {A : Type 0} → String → M A
fail what r = corrupt what r.pos

unfoldable pub byte : M ℕ
byte r = elim (get_elem? r.buf r.pos) [
  | none ↦ corrupt "unexpected end of file" r.pos
  | some b ↦ ok (b, record r { pos = r.pos + 1 })
]

-- `pos.checked_add(n)` and `buf.get(pos..end)`
unfoldable pub take : ℕ → M Bytes
take n r =
    if leb (2 ^ 64) (r.pos + n)
    then corrupt "length overflow" r.pos
    else if ltb (length r.buf) (r.pos + n)
    then corrupt "unexpected end of file" r.pos
    else ok (take_list n (drop r.pos r.buf), record r { pos = r.pos + n })

unfoldable pub u32le : M ℕ
u32le = do bs ← take 4; pure (from_le bs)

unfoldable pub u64le : M ℕ
u64le = do bs ← take 8; pure (from_le bs)

pub data Len : Type 0 where
  plain : ℕ → Len
  special : ℕ → Len

-- The first byte's upper two bits select the form.
unfoldable pub wide_length : ℕ → M Len
wide_length b =
    if b == 0x80
    then (do bs ← take 4; pure (plain (from_be bs)))
    else if b == 0x81
    then (do bs ← take 8; pure (plain (from_be bs)))
    else fail "unknown length encoding"

unfoldable pub length_of : ℕ → M Len
unfolding wide_length
length_of b =
    if b / 64 == 0
    then pure (plain (b % 64))
    else if b / 64 == 1
    then (do lo ← byte; pure (plain (bit_or (b % 64 * 256) lo)))
    else if b / 64 == 3
    then pure (special (b % 64))
    else wide_length b

unfoldable pub read_length : M Len
unfolding length_of
read_length = do b ← byte; length_of b

-- `usize` has 64 bits, so a count always fits.
plain_only : Len → M ℕ
plain_only (plain n) = pure n
plain_only (special n) = fail "expected a length, found a string encoding"

unfoldable pub count : M ℕ
unfolding plain_only
count = do len ← read_length; plain_only len

unfoldable pub count_u64 : M ℕ
unfolding plain_only
count_u64 = do len ← read_length; plain_only len

expanded : Option Bytes → M Bytes
expanded none = fail "malformed LZF block"
expanded (some out) = pure out

compressed_string : M Bytes
unfolding expanded
compressed_string = do
  compressed ← count
  size ← count
  block ← take compressed
  expanded (decompress block size)

special_string : ℕ → M Bytes
unfolding compressed_string
special_string n =
    if n == 0
    then (do b ← byte; pure (to_string (signed 8 b)))
    else if n == 1
    then (do bs ← take 2; pure (to_string (signed 16 (from_le bs))))
    else if n == 2
    then (do bs ← take 4; pure (to_string (signed 32 (from_le bs))))
    else if n == 3
    then compressed_string
    else fail "unknown string encoding"

unfoldable pub string_of : Len → M Bytes
unfolding special_string
string_of (plain n) = take n
string_of (special n) = special_string n

unfoldable pub string : M Bytes
unfolding string_of
string = do len ← read_length; string_of len

unfoldable pub binary_double : M ℕ
binary_double = u64le
