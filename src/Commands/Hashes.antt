-- ===== src/Commands/Hashes.antt =====
-- src/commands/hash.rs: the hash commands, HINCRBYFLOAT left out. A hash's list is in
-- one of the orders in which the code may iterate over it.
pub mod Fields
pub mod Draws
mod Tests
use meebis.Base.{
  ℕ, zero, suc, ◌+◌, ◌%◌, Bool, true, false, not, ◌&&◌, ◌||◌, String, List, [], ◌∷◌, Option, none,
  some, ltb, ◌==◌, if◌then◌else◌, length, drop,
}
use meebis.Base.Bytes.{Bytes, codes}
use meebis.Base.HashMap
use meebis.Base.HashMap.{HashMap}
use meebis.Base.Int.{ℤ, pos}
use meebis.Base.Decimal.{parse_i64, to_string}
use meebis.Glob.{glob_match}
use meebis.Resp.Frame.{
  Frame, Frames, FramePairs, nil, cons, no_pairs, pair, integer, bulk, array, map, null, ok, err,
  bulk_or_null, count,
}
use meebis.Db
use meebis.Db.{Db, hash, is_some}
use meebis.Db.Typed.{Typed, typed, wrong_type, get_hash, get_or_create_hash}
use meebis.Commands.Args.{
  Checked, go, fail, wrong_args, parse_int, is_word, checked_add, or_reply, or_wrongtype,
}

-- A write through the reference that the typed accessor gave.
abbrev pub put_hash : Db → Bytes → HashMap Bytes → Db
put_hash db key h = Db.replace db key (hash h)

-- The loop over the pairs of HSET, with the number of new fields.
pub insert_pairs : HashMap Bytes → List Bytes → HashMap Bytes × ℕ
insert_pairs h [] = (h, 0)
insert_pairs h (f ∷ []) = (h, 0)
insert_pairs h (f ∷ v ∷ rest) =
    let (h', n) = insert_pairs (HashMap.insert f v h) rest in
    (h', if is_some (HashMap.get f h) then n else suc n)

pub write_fields : Db × Typed (HashMap Bytes) → Bytes → List Bytes → Bool → Db × Frame
unfolding insert_pairs
write_fields (db, t) key pairs hmset =
    or_wrongtype db t
      λ h. let (h', n) = insert_pairs h pairs in (put_hash db key h', if hmset then ok else count n)

unfoldable pub hset : ℕ → Db → List Bytes → Bool → Db × Frame
unfolding write_fields
hset now db (name ∷ key ∷ pairs) hmset =
    if ltb (length pairs) 2 || not (length pairs % 2 == 0)
    then (db, wrong_args (if hmset then "hmset" else "hset"))
    else write_fields (get_or_create_hash now db key) key pairs hmset
hset now db _ hmset = (db, wrong_args (if hmset then "hmset" else "hset"))

unfoldable pub hsetnx : ℕ → Db → List Bytes → Db × Frame
hsetnx now db (_ ∷ key ∷ field ∷ value ∷ []) =
    let (db1, t) = get_or_create_hash now db key in
    or_wrongtype db1 t λ h.
      if is_some (HashMap.get field h)
      then (db1, count 0)
      else (put_hash db1 key (HashMap.insert field value h), count 1)
hsetnx now db _ = (db, wrong_args "hsetnx")

-- A command that reads a hash: the reply for a missing key, and for the fields.
abbrev pub read_hash : ℕ → Db → Bytes → Frame → (HashMap Bytes → Frame) → Db × Frame
read_hash now db key missing f =
    let (db1, t) = get_hash now db key in
    or_wrongtype db1 t λ o. (db1, elim o [ none ↦ missing | some h ↦ f h ])

unfoldable pub hget : ℕ → Db → List Bytes → Db × Frame
hget now db (_ ∷ key ∷ field ∷ []) =
    read_hash now db key null λ h. bulk_or_null (HashMap.get field h)
hget now db _ = (db, wrong_args "hget")

values_at : HashMap Bytes → List Bytes → Frames
values_at h [] = nil
values_at h (f ∷ fs) = cons (bulk_or_null (HashMap.get f h)) (values_at h fs)

nulls : List Bytes → Frames
nulls [] = nil
nulls (f ∷ fs) = cons null (nulls fs)

unfoldable pub hmget : ℕ → Db → List Bytes → Db × Frame
unfolding values_at nulls
hmget now db (_ ∷ key ∷ f ∷ fs) =
    read_hash now db key (array (nulls (f ∷ fs))) λ h. array (values_at h (f ∷ fs))
hmget now db _ = (db, wrong_args "hmget")

-- `filter(|f| h.remove(*f).is_some()).count()`
pub remove_fields : HashMap Bytes → List Bytes → HashMap Bytes × ℕ
remove_fields h [] = (h, 0)
remove_fields h (f ∷ fs) =
    let (h', n) = remove_fields (HashMap.remove f h) fs in
    (h', if is_some (HashMap.get f h) then suc n else n)

-- The hash is looked up again before it is written.
pub delete_fields : ℕ → Db → Bytes → List Bytes → Option (HashMap Bytes) → Db × Frame
unfolding remove_fields
delete_fields now db key fs none = (db, count 0)
delete_fields now db key fs (some _) =
    let (db1, t) = get_or_create_hash now db key in
    or_wrongtype db1 t λ h.
      let (h', n) = remove_fields h fs in (Db.remove_if_empty (put_hash db1 key h') key, count n)

unfoldable pub hdel : ℕ → Db → List Bytes → Db × Frame
unfolding delete_fields
hdel now db (_ ∷ key ∷ f ∷ fs) =
    let (db1, t) = get_hash now db key in
    or_wrongtype db1 t λ o. delete_fields now db1 key (f ∷ fs) o
hdel now db _ = (db, wrong_args "hdel")

pairs_of : HashMap Bytes → FramePairs
pairs_of [] = no_pairs
pairs_of ((f, v) ∷ h) = pair (bulk f) (bulk v) (pairs_of h)

unfoldable pub hgetall : ℕ → Db → List Bytes → Db × Frame
unfolding pairs_of
hgetall now db (_ ∷ key ∷ []) = read_hash now db key (map no_pairs) λ h. map (pairs_of h)
hgetall now db _ = (db, wrong_args "hgetall")

collect : (Bytes → Bytes → Frame) → HashMap Bytes → Frames
collect f [] = nil
collect f ((k, v) ∷ h) = cons (f k v) (collect f h)

hcollect : ℕ → Db → List Bytes → String → (Bytes → Bytes → Frame) → Db × Frame
unfolding collect
hcollect now db (_ ∷ key ∷ []) name f = read_hash now db key (array nil) λ h. array (collect f h)
hcollect now db _ name f = (db, wrong_args name)

unfoldable pub hkeys : ℕ → Db → List Bytes → Db × Frame
unfolding hcollect
hkeys now db args = hcollect now db args "hkeys" λ k v. bulk k

unfoldable pub hvals : ℕ → Db → List Bytes → Db × Frame
unfolding hcollect
hvals now db args = hcollect now db args "hvals" λ k v. bulk v

unfoldable pub hlen : ℕ → Db → List Bytes → Db × Frame
hlen now db (_ ∷ key ∷ []) = read_hash now db key (count 0) λ h. count (length h)
hlen now db _ = (db, wrong_args "hlen")

unfoldable pub hexists : ℕ → Db → List Bytes → Db × Frame
hexists now db (_ ∷ key ∷ field ∷ []) =
    read_hash now db key (count 0) λ h. count (if is_some (HashMap.get field h) then 1 else 0)
hexists now db _ = (db, wrong_args "hexists")

length_or_zero : Option Bytes → ℕ
length_or_zero none = 0
length_or_zero (some v) = length v

unfoldable pub hstrlen : ℕ → Db → List Bytes → Db × Frame
unfolding length_or_zero
hstrlen now db (_ ∷ key ∷ field ∷ []) =
    read_hash now db key (count 0) λ h. count (length_or_zero (HashMap.get field h))
hstrlen now db _ = (db, wrong_args "hstrlen")

-- The number that a field holds: a missing field counts as 0.
pub field_number : Option Bytes → Option ℤ
field_number none = some (pos 0)
field_number (some v) = parse_i64 v

store_field : Db → Bytes → Bytes → HashMap Bytes → Option ℤ → Db × Frame
store_field db key field h none = (db, err "increment or decrement would overflow")
store_field db key field h (some next) =
    (put_hash db key (HashMap.insert field (to_string next) h), integer next)

add_to_field : Db → Bytes → Bytes → HashMap Bytes → ℤ → Option ℤ → Db × Frame
unfolding store_field
add_to_field db key field h incr none = (db, err "hash value is not an integer")
add_to_field db key field h incr (some cur) = store_field db key field h (checked_add cur incr)

unfoldable pub hincrby : ℕ → Db → List Bytes → Db × Frame
unfolding field_number add_to_field
hincrby now db (_ ∷ key ∷ field ∷ by ∷ []) = or_reply db (parse_int by) λ incr.
    let (db1, t) = get_or_create_hash now db key in
    or_wrongtype db1 t λ h. add_to_field db1 key field h incr (field_number (HashMap.get field h))
hincrby now db _ = (db, wrong_args "hincrby")

record ScanOptions : Type 0 where
  pattern_of : Option Bytes
  novalues : Bool

scan_options : ScanOptions → List Bytes → Checked ScanOptions
scan_options o [] = go o
scan_options o (a ∷ []) =
    if is_word a "NOVALUES" then go (record o { novalues = true }) else fail (err "syntax error")
scan_options o (a ∷ b ∷ rest) =
    let matched = scan_options (record o { pattern_of = some b }) rest in
    let counted = scan_options o rest in
    let bare = scan_options (record o { novalues = true }) (b ∷ rest) in
    if is_word a "MATCH"
    then matched
    else if is_word a "COUNT"
    then counted
    else if is_word a "NOVALUES"
    then bare
    else fail (err "syntax error")

allows : Option Bytes → Bytes → Bool
allows none k = true
allows (some p) k = glob_match p k

scanned : ScanOptions → HashMap Bytes → Frames
unfolding allows
scanned o [] = nil
scanned o ((k, v) ∷ h) =
    let rest = scanned o h in
    if allows o.pattern_of k
    then (if o.novalues then cons (bulk k) rest else cons (bulk k) (cons (bulk v) rest))
    else rest

scan_reply : Frames → Frame
scan_reply items = array (cons (bulk (codes "0")) (cons (array items) nil))

unfoldable pub hscan : ℕ → Db → List Bytes → Db × Frame
unfolding scan_options scanned scan_reply
hscan now db (_ ∷ key ∷ cursor ∷ opts) =
    or_reply db (scan_options (record { pattern_of = none; novalues = false }) opts)
      λ o. read_hash now db key (scan_reply nil) λ h. scan_reply (scanned o h)
hscan now db _ = (db, wrong_args "hscan")
