-- ===== src/Commands/Args.antt =====
-- src/commands/mod.rs: the helpers that read arguments. An early return of a reply is `fail`.
use Prim.Native.String.{◌++◌}
use meebis.Base.{ℕ, ◌-◌, ◌^◌, Bool, String, Option, none, some, map, ltb, if◌then◌else◌}
use meebis.Base.Bytes.{Bytes, codes, bytes_eq, to_ascii_uppercase}
use meebis.Base.Int.{ℤ, pos, negsuc, ◌+ℤ◌, ◌-ℤ◌}
use meebis.Base.Decimal.{parse_i64}
use meebis.Resp.Frame.{Frame, error, err, wrongtype}
use meebis.Db.{Db}
use meebis.Db.Typed.{Typed, typed, wrong_type}

pub data Checked {ℓ} (A : Type ℓ) : Type ℓ where
  go : A → Checked A
  fail : Frame → Checked A

infixl 5 ◌>>=◌
abbrev pub ◌>>=◌ {ℓ κ} : {A : Type ℓ} {B : Type κ} → Checked A → (A → Checked B) → Checked B
go a >>= f = f a
fail e >>= f = fail e

-- The name is lower case at every call.
unfoldable pub wrong_args : String → Frame
wrong_args name = error ("ERR wrong number of arguments for '" ++ name ++ "' command")

unfoldable pub not_an_integer : Frame
not_an_integer = err "value is not an integer or out of range"

or_not_an_integer : Option ℤ → Checked ℤ
or_not_an_integer none = fail not_an_integer
or_not_an_integer (some n) = go n

-- The bytes of an `i64` literal are ASCII, so the test for UTF-8 adds nothing.
unfoldable pub parse_int : Bytes → Checked ℤ
unfolding or_not_an_integer
parse_int b = or_not_an_integer (parse_i64 b)

-- A byte that is not UTF-8 makes the text differ from every keyword, as it does here.
unfoldable pub upper : Bytes → Bytes
upper b = map to_ascii_uppercase b

-- `upper(arg) == "WORD"`
unfoldable pub is_word : Bytes → String → Bool
unfolding upper
is_word b w = bytes_eq (upper b) (codes w)

-- `n as u64`
unfoldable pub as_u64 : ℤ → ℕ
as_u64 (pos n) = n
as_u64 (negsuc n) = 2 ^ 64 - 1 - n

-- `n as i64` of a `u64`
unfoldable pub as_i64 : ℕ → ℤ
as_i64 n = if ltb n (2 ^ 63) then pos n else negsuc (2 ^ 64 - 1 - n)

-- The result may be out of range.
unfoldable pub norm_index : ℤ → ℕ → ℤ
norm_index (pos n) len = pos n
norm_index (negsuc n) len = negsuc n +ℤ pos len

-- `i64` arithmetic: the result if it fits.
abbrev pub in_i64 : ℤ → Bool
in_i64 (pos n) = ltb n (2 ^ 63)
in_i64 (negsuc n) = ltb n (2 ^ 63)

unfoldable pub checked_add : ℤ → ℤ → Option ℤ
checked_add a b = let sum = a +ℤ b in if in_i64 sum then some sum else none

unfoldable pub checked_neg : ℤ → Option ℤ
checked_neg a = let n = pos 0 -ℤ a in if in_i64 n then some n else none

-- An argument that does not parse, or a key of the wrong type, ends the command with that reply.
abbrev pub or_reply {ℓ} : {A : Type ℓ} → Db → Checked A → (A → Db × Frame) → Db × Frame
or_reply db (go a) k = k a
or_reply db (fail f) k = (db, f)

abbrev pub or_wrongtype {ℓ} : {A : Type ℓ} → Db → Typed A → (A → Db × Frame) → Db × Frame
or_wrongtype db (typed a) k = k a
or_wrongtype db wrong_type k = (db, wrongtype)
