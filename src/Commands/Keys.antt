-- ===== src/Commands/Keys.antt =====
-- src/commands/generic.rs: existence, expiry, renaming and scanning, within one database.
pub mod Moving
pub mod Expiry
pub mod Removal
mod Tests
use meebis.Base.{
  ℕ, zero, suc, ◌+◌, ◌-◌, ◌/◌, ◌%◌, ◌^◌, Bool, true, false, not, ◌&&◌, ◌||◌, List, [], ◌∷◌, map,
  Option, none, some, String, ltb, ◌==◌, if◌then◌else◌, length, get_elem?,
}
use meebis.Base.Bytes.{Bytes, bytes_eq, codes, to_ascii_lowercase}
use meebis.Base.Int.{ℤ, pos, negsuc, ◌+ℤ◌, ◌*ℤ◌, ltb_ℤ, pos_part}
use meebis.Resp.Frame.{
  Frame, cons, nil, simple, integer, bulk, null, array, ok, err, bulks, bulk_or_null, count,
}
use meebis.Db
use meebis.Db.{Db, Value, string, list, set_of, hash, zset, stream, is_some}
use meebis.Commands.Args.{
  Checked, go, fail, ◌>>=◌, wrong_args, parse_int, is_word, upper, or_reply, as_i64,
}

-- `filter(|k| db.remove(k)).count()`
pub remove_all : ℕ → Db → List Bytes → Db × ℕ
remove_all now db [] = (db, 0)
remove_all now db (key ∷ keys) =
    let (db1, done) = Db.remove now db key in
    let (db2, n) = remove_all now db1 keys in (db2, if done then suc n else n)

unfoldable pub del : ℕ → Db → List Bytes → Db × Frame
unfolding remove_all
del now db (_ ∷ key ∷ keys) = let (db', n) = remove_all now db (key ∷ keys) in (db', count n)
del now db _ = (db, wrong_args "del")

-- Repeated keys are counted repeatedly.
pub count_present : ℕ → Db → List Bytes → Db × ℕ
count_present now db [] = (db, 0)
count_present now db (key ∷ keys) =
    let (db1, present) = Db.contains now db key in
    let (db2, n) = count_present now db1 keys in (db2, if present then suc n else n)

unfoldable pub exists : ℕ → Db → List Bytes → Db × Frame
unfolding count_present
exists now db (_ ∷ key ∷ keys) = let (db', n) = count_present now db (key ∷ keys) in (db', count n)
exists now db _ = (db, wrong_args "exists")

pub record ExpireOptions : Type 0 where
  pub nx : Bool
  pub xx : Bool
  pub gt : Bool
  pub lt : Bool

abbrev pub always : ExpireOptions
always = record { nx = false; xx = false; gt = false; lt = false }

pub expire_options : ExpireOptions → List Bytes → Checked ExpireOptions
expire_options o [] = go o
expire_options o (a ∷ rest) =
    let nx' = expire_options (record o { nx = true }) rest in
    let xx' = expire_options (record o { xx = true }) rest in
    let gt' = expire_options (record o { gt = true }) rest in
    let lt' = expire_options (record o { lt = true }) rest in
    if is_word a "NX"
    then nx'
    else if is_word a "XX"
    then xx'
    else if is_word a "GT"
    then gt'
    else if is_word a "LT"
    then lt'
    else fail (err "Unsupported option")

pub clash : ExpireOptions → Bool
clash o = (o.nx && (o.xx || (o.gt || o.lt))) || (o.gt && o.lt)

-- No current expiry counts as infinite.
pub allows : ExpireOptions → Option ℕ → ℤ → Bool
unfolding is_some
allows o current t =
    if o.nx
    then not (is_some current)
    else if o.xx
    then is_some current
    else if o.gt
    then elim current [ none ↦ false | some c ↦ ltb_ℤ (pos c) t ]
    else if o.lt
    then elim current [ none ↦ true | some c ↦ ltb_ℤ t (pos c) ]
    else true

-- `at.min(u64::MAX) as u64`, of a time later than now.
pub capped : ℤ → ℕ
capped (pos n) = if ltb n (2 ^ 64) then n else 2 ^ 64 - 1
capped (negsuc n) = 0

-- A time that is not in the future deletes the key.
pub expire_present : ℕ → Db → Bytes → ExpireOptions → ℤ → Db × Frame
unfolding allows capped
expire_present now db key o t =
    let (db1, current) = Db.expire_at now db key in
    if allows o current t
    then (
      if ltb_ℤ (pos now) t
          then (Db.set_expire now db1 key (capped t)).0
          else (Db.remove now db1 key).0,
      count 1,
    )
    else (db1, count 0)

pub expire_key : ℕ → Db → Bytes → ExpireOptions → ℤ → Db × Frame
unfolding expire_present
expire_key now db key o t =
    let (db1, present) = Db.contains now db key in
    if present then expire_present now db1 key o t else (db1, count 0)

-- The time that the argument stands for.
abbrev pub target_time : ℕ → ℤ → Bool → ℤ → ℤ
target_time now unit_ms relative n = if relative then pos now +ℤ n *ℤ unit_ms else n *ℤ unit_ms

unfoldable pub expire : ℕ → Db → List Bytes → ℤ → Bool → Db × Frame
unfolding expire_options clash expire_key
expire now db (_ ∷ key ∷ a ∷ opts) unit_ms relative = or_reply db (parse_int a) λ n.
    or_reply db (expire_options always opts) λ o.
      if clash o
      then (db, err "NX and XX, GT or LT options at the same time are not compatible")
      else expire_key now db key o (target_time now unit_ms relative n)
expire now db _ unit_ms relative = (db, wrong_args "expire")

-- The reply of TTL and PTTL for a key with an expiry, and of EXPIRETIME and PEXPIRETIME.
pub remaining_time : ℕ → Bool → ℕ → ℤ
remaining_time now seconds t =
    if seconds then as_i64 ((t - now + 500) % 2 ^ 64 / 1000) else as_i64 (t - now)

pub absolute_time : Bool → ℕ → ℤ
absolute_time seconds t = if seconds then as_i64 (t / 1000) else as_i64 t

-- -2 for a missing key, -1 for one without an expiry.
time_reply : ℕ → Db → Bytes → (ℕ → ℤ) → Db × Frame
time_reply now db key f =
    let (db1, present) = Db.contains now db key in
    let (db2, t) = Db.expire_at now db1 key in
    if present
    then (db2, integer (elim t [ none ↦ negsuc 0 | some t' ↦ f t' ]))
    else (db1, integer (negsuc 1))

unfoldable pub ttl : ℕ → Db → List Bytes → Bool → Db × Frame
unfolding time_reply remaining_time
ttl now db (_ ∷ key ∷ []) seconds = time_reply now db key (remaining_time now seconds)
ttl now db _ seconds = (db, wrong_args "ttl")

unfoldable pub expiretime : ℕ → Db → List Bytes → Bool → Db × Frame
unfolding time_reply absolute_time
expiretime now db (_ ∷ key ∷ []) seconds = time_reply now db key (absolute_time seconds)
expiretime now db _ seconds = (db, wrong_args "expiretime")

unfoldable pub persist : ℕ → Db → List Bytes → Db × Frame
persist now db (_ ∷ key ∷ []) =
    let (db', done) = Db.persist now db key in (db', count (if done then 1 else 0))
persist now db _ = (db, wrong_args "persist")

unfoldable pub keys : ℕ → Db → List Bytes → Db × Frame
keys now db (_ ∷ pattern' ∷ []) = (db, array (bulks (Db.keys_matching now db (some pattern'))))
keys now db _ = (db, wrong_args "keys")

unfoldable pub type_name : Value → String
type_name (string _) = "string"
type_name (list _) = "list"
type_name (set_of _) = "set"
type_name (hash _) = "hash"
type_name (zset _) = "zset"
type_name (stream _) = "stream"

name_or_none : Option Value → String
unfolding type_name
name_or_none none = "none"
name_or_none (some v) = type_name v

unfoldable pub type_cmd : ℕ → Db → List Bytes → Db × Frame
unfolding name_or_none
type_cmd now db (_ ∷ key ∷ []) = let (db', v) = Db.get now db key in (db', simple (name_or_none v))
type_cmd now db _ = (db, wrong_args "type")

pub record ScanOptions : Type 0 where
  pub matching : Option Bytes
  pub of_type : Option Bytes

-- No Unicode letter outside ASCII has one of the letters of the type names for its lower case.
scan_options : ScanOptions → List Bytes → Checked ScanOptions
scan_options o [] = go o
scan_options o (a ∷ []) = fail (err "syntax error")
scan_options o (a ∷ b ∷ rest) =
    let matched = scan_options (record o { matching = some b }) rest in
    let counted = parse_int b >>= λ _. scan_options o rest in
    let typed =
      scan_options (record o { of_type = some (map to_ascii_lowercase (upper b)) }) rest in
    if is_word a "MATCH"
    then matched
    else if is_word a "COUNT"
    then counted
    else if is_word a "TYPE"
    then typed
    else fail (err "syntax error")

has_type : Bytes → Option Value → Bool
has_type t none = false
has_type t (some v) = bytes_eq (codes (type_name v)) t

-- `keys.retain(..)`, which reads each key.
retain_type : ℕ → Db → Bytes → List Bytes → Db × List Bytes
unfolding has_type type_name
retain_type now db t [] = (db, [])
retain_type now db t (key ∷ keys) =
    let (db1, v) = Db.get now db key in
    let (db2, rest) = retain_type now db1 t keys in (db2, if has_type t v then key ∷ rest else rest)

filter_type : ℕ → Db → Option Bytes → List Bytes → Db × List Bytes
unfolding retain_type
filter_type now db none keys = (db, keys)
filter_type now db (some t) keys = retain_type now db t keys

-- One pass over the database, with the final cursor.
unfoldable pub scan : ℕ → Db → List Bytes → Db × Frame
unfolding scan_options filter_type
scan now db (_ ∷ cursor ∷ opts) =
    or_reply db (scan_options (record { matching = none; of_type = none }) opts) λ o.
      let (db', found) = filter_type now db o.of_type (Db.keys_matching now db o.matching) in
      (db', array (cons (bulk (codes "0")) (cons (array (bulks found)) nil)))
scan now db _ = (db, wrong_args "scan")
