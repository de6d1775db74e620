-- ===== src/Commands/Strings.antt =====
-- src/commands/string.rs: the string commands, INCRBYFLOAT left out.
pub mod Set
pub mod Range
pub mod Counter
pub mod Pairs
mod Tests
use meebis.Base.{
  ℕ, zero, suc, ◌+◌, ◌-◌, ◌*◌, ◌%◌, ◌^◌, Bool, true, false, not, ◌&&◌, ◌||◌, String, List, [], ◌∷◌,
  ◌++◌, Option, none, some, ltb, leb, ◌==◌, if◌then◌else◌, length, take, drop, replicate,
}
use meebis.Base.Bytes.{Bytes}
use meebis.Base.Int.{ℤ, pos, negsuc, pos_part}
use meebis.Base.Decimal.{parse_i64, to_string}
use meebis.Resp.Frame.{
  Frame, Frames, nil, cons, integer, bulk, null, array, ok, err, wrongtype, bulk_or_null, count,
}
use meebis.Db
use meebis.Db.{Db, string}
use meebis.Db.Typed.{Typed, typed, wrong_type, get_str}
use meebis.Commands.Args.{
  Checked, go, fail, ◌>>=◌, wrong_args, not_an_integer, parse_int, norm_index, checked_add,
  checked_neg, or_reply, or_wrongtype,
}

unfoldable pub get : ℕ → Db → List Bytes → Db × Frame
get now db (_ ∷ key ∷ []) =
    let (db', v) = get_str now db key in or_wrongtype db' v λ o. (db', bulk_or_null o)
get now db _ = (db, wrong_args "get")

unfoldable pub setnx : ℕ → Db → List Bytes → Db × Frame
setnx now db (_ ∷ key ∷ value ∷ []) =
    let (db', present) = Db.contains now db key in
    if present then (db', count 0) else (Db.set db' key (string value), count 1)
setnx now db _ = (db, wrong_args "setnx")

unfoldable pub getset : ℕ → Db → List Bytes → Db × Frame
getset now db (_ ∷ key ∷ value ∷ []) =
    let (db', v) = get_str now db key in
    or_wrongtype db' v λ o. (Db.set db' key (string value), bulk_or_null o)
getset now db _ = (db, wrong_args "getset")

-- `db.remove` of a key that the branch has just read.
delete_read : ℕ → Db → Bytes → Option Bytes → Db × Frame
delete_read now db key none = (db, null)
delete_read now db key (some s) = ((Db.remove now db key).0, bulk s)

unfoldable pub getdel : ℕ → Db → List Bytes → Db × Frame
unfolding delete_read
getdel now db (_ ∷ key ∷ []) =
    let (db', v) = get_str now db key in or_wrongtype db' v λ o. delete_read now db' key o
getdel now db _ = (db, wrong_args "getdel")

-- `s.to_vec()`, or an empty buffer.
unfoldable pub bytes_or_empty : Option Bytes → Bytes
bytes_or_empty none = []
bytes_or_empty (some s) = s

unfoldable pub append : ℕ → Db → List Bytes → Db × Frame
unfolding bytes_or_empty
append now db (_ ∷ key ∷ tail ∷ []) =
    let (db', v) = get_str now db key in
    or_wrongtype db' v λ o.
      let buf = bytes_or_empty o ++ tail in
      (Db.set_keep_ttl db' key (string buf), count (length buf))
append now db _ = (db, wrong_args "append")

unfoldable pub strlen : ℕ → Db → List Bytes → Db × Frame
unfolding bytes_or_empty
strlen now db (_ ∷ key ∷ []) =
    let (db', v) = get_str now db key in
    or_wrongtype db' v λ o. (db', count (length (bytes_or_empty o)))
strlen now db _ = (db, wrong_args "strlen")

-- The number that a counter holds: a missing key counts as 0.
pub counter_of : Option Bytes → Option ℤ
counter_of none = some (pos 0)
counter_of (some s) = parse_i64 s

store_sum : Db → Bytes → Option ℤ → Db × Frame
store_sum db key none = (db, err "increment or decrement would overflow")
store_sum db key (some next) = (Db.set_keep_ttl db key (string (to_string next)), integer next)

add_to : Db → Bytes → ℤ → Option ℤ → Db × Frame
unfolding store_sum
add_to db key delta none = (db, not_an_integer)
add_to db key delta (some cur) = store_sum db key (checked_add cur delta)

unfoldable pub do_incr : ℕ → Db → Bytes → ℤ → Db × Frame
unfolding counter_of add_to
do_incr now db key delta =
    let (db', v) = get_str now db key in or_wrongtype db' v λ o. add_to db' key delta (counter_of o)

unfoldable pub incr : ℕ → Db → List Bytes → ℤ → Db × Frame
unfolding do_incr
incr now db (_ ∷ key ∷ []) delta = do_incr now db key delta
incr now db _ delta = (db, wrong_args "incr")

negated : Option ℤ → Checked ℤ
negated none = fail (err "decrement would overflow")
negated (some d) = go d

unfoldable pub incrby : ℕ → Db → List Bytes → Bool → Db × Frame
unfolding negated do_incr
incrby now db (_ ∷ key ∷ by ∷ []) negate = or_reply db (parse_int by) λ n.
    or_reply db (if negate then negated (checked_neg n) else go n) λ delta. do_incr now db key delta
incrby now db _ negate = (db, wrong_args (if negate then "decrby" else "incrby"))

-- A key of another type reads as a missing one.
string_or_null : Typed (Option Bytes) → Frame
string_or_null wrong_type = null
string_or_null (typed o) = bulk_or_null o

read_all : ℕ → Db → List Bytes → Db × Frames
unfolding string_or_null
read_all now db [] = (db, nil)
read_all now db (key ∷ keys) =
    let (db', v) = get_str now db key in
    let (db'', rest) = read_all now db' keys in (db'', cons (string_or_null v) rest)

unfoldable pub mget : ℕ → Db → List Bytes → Db × Frame
unfolding read_all
mget now db (_ ∷ key ∷ keys) = let (db', out) = read_all now db (key ∷ keys) in (db', array out)
mget now db _ = (db, wrong_args "mget")

pub write_pairs : Db → List Bytes → Db
write_pairs db [] = db
write_pairs db (key ∷ []) = db
write_pairs db (key ∷ value ∷ rest) = write_pairs (Db.set db key (string value)) rest

unfoldable pub mset : ℕ → Db → List Bytes → Db × Frame
unfolding write_pairs
mset now db args =
    if ltb (length args) 3 || not (length args % 2 == 1)
    then (db, wrong_args "mset")
    else (write_pairs db (drop 1 args), ok)

-- Whether one of the keys, every second argument, is there.
pub any_present : ℕ → Db → List Bytes → Db × Bool
any_present now db [] = (db, false)
any_present now db (key ∷ []) = (db, false)
any_present now db (key ∷ value ∷ rest) =
    let (db', present) = Db.contains now db key in
    let later = any_present now db' rest in if present then (db', true) else later

unfoldable pub msetnx : ℕ → Db → List Bytes → Db × Frame
unfolding any_present write_pairs
msetnx now db args =
    if ltb (length args) 3 || not (length args % 2 == 1)
    then (db, wrong_args "msetnx")
    else let (db', present) = any_present now db (drop 1 args) in
      if present then (db', count 0) else (write_pairs db' (drop 1 args), count 1)
