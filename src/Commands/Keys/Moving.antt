-- ===== src/Commands/Keys/Moving.antt =====
-- src/commands/generic.rs: RENAME, RANDOMKEY, and the commands that span databases. `none` is a
-- panic of the keyspace; the connection's database is an argument.
pub mod Outcome
pub mod Copies
pub mod Totals
use meebis.Base.{
  ℕ, ◌%◌, Bool, true, false, not, ◌&&◌, List, [], ◌∷◌, Option, none, some, ◌==◌, if◌then◌else◌,
  length, get_elem?,
}
use meebis.Base.Bytes.{Bytes, bytes_eq}
use meebis.Base.Int.{ℤ, pos_part}
use meebis.Resp.Frame.{Frame, ok, err, bulk_or_null, count}
use meebis.Db
use meebis.Db.{Db, Value}
use meebis.Keyspace
use meebis.Keyspace.{Keyspace, put_db}
use meebis.Commands.Args.{Checked, go, fail, ◌>>=◌, wrong_args, parse_int, is_word}

renamed : ℕ → Db → Bytes → Bytes → Bool → Db × Frame
renamed now db src dst nx =
    let (db1, taken) = Db.contains now db dst in
    let moved = (Db.rename now db src dst).0 in
    let moved1 = (Db.rename now db1 src dst).0 in
    if nx then (if taken then (db1, count 0) else (moved1, count 1)) else (moved, ok)

unfoldable pub rename : ℕ → Db → List Bytes → Bool → Db × Frame
unfolding renamed
rename now db (_ ∷ src ∷ dst ∷ []) nx =
    let (db1, present) = Db.contains now db src in
    if present then renamed now db1 src dst nx else (db1, err "no such key")
rename now db _ nx = (db, wrong_args (if nx then "renamenx" else "rename"))

-- `random` is what `rand_u64` returns.
unfoldable pub randomkey : ℕ → ℕ → Db → List Bytes → Db × Frame
randomkey random now db (_ ∷ []) =
    let keys = Db.all_keys now db in (db, bulk_or_null (get_elem? keys (random % length keys)))
randomkey random now db _ = (db, wrong_args "randomkey")

pub record CopyOptions : Type 0 where
  pub replace : Bool
  pub dst_db : ℕ

checked_index : Keyspace → ℤ → Checked ℕ
checked_index ks n =
    if Keyspace.is_valid ks n then go (pos_part n) else fail (err "DB index is out of range")

copy_options : Keyspace → CopyOptions → List Bytes → Checked CopyOptions
unfolding checked_index
copy_options ks o [] = go o
copy_options ks o (a ∷ []) =
    if is_word a "REPLACE" then go (record o { replace = true }) else fail (err "syntax error")
copy_options ks o (a ∷ b ∷ rest) =
    let replaced = copy_options ks (record o { replace = true }) (b ∷ rest) in
    let indexed = parse_int b >>= λ n.
    checked_index ks n >>= λ i. copy_options ks (record o { dst_db = i }) rest in
    if is_word a "REPLACE"
    then replaced
    else if is_word a "DB"
    then indexed
    else fail (err "syntax error")

-- What is put into the destination.
copy_into :
    ℕ → Keyspace → ℕ → Bytes → Bool → Value → Option ℕ → Option Db → Option (Keyspace × Frame)
copy_into now ks i key replace v t none = none
copy_into now ks i key replace v t (some dst) =
    let (dst1, taken) = Db.contains now dst key in
    if taken && not replace
    then some (put_db ks i dst1, count 0)
    else some (put_db ks i (Db.put dst1 key v t), count 1)

copy_value : ℕ → Keyspace → ℕ → Bytes → Bool → Option Value → Option ℕ → Option (Keyspace × Frame)
unfolding copy_into
copy_value now ks i key replace none t = some (ks, count 0)
copy_value now ks i key replace (some v) t = copy_into now ks i key replace v t (Keyspace.db ks i)

copy_from : ℕ → Keyspace → ℕ → CopyOptions → Bytes → Bytes → Option Db → Option (Keyspace × Frame)
unfolding copy_value
copy_from now ks index o src_key dst_key none = none
copy_from now ks index o src_key dst_key (some src) =
    let (src1, v) = Db.get now src src_key in
    let (src2, t) = Db.expire_at now src1 src_key in
    copy_value now (put_db ks index src2) o.dst_db dst_key o.replace v t

pub copy_key : ℕ → Keyspace → ℕ → CopyOptions → Bytes → Bytes → Option (Keyspace × Frame)
unfolding copy_from
copy_key now ks index o src_key dst_key =
    if o.dst_db == index && bytes_eq src_key dst_key
    then some (ks, err "source and destination objects are the same")
    else copy_from now ks index o src_key dst_key (Keyspace.db ks index)

-- An argument that is refused ends the command.
abbrev or_refuse {ℓ} :
    {A : Type ℓ}
    → Keyspace
    → Checked A
    → (A → Option (Keyspace × Frame))
    → Option (Keyspace × Frame)
or_refuse ks (go a) k = k a
or_refuse ks (fail f) k = some (ks, f)

unfoldable pub copy : ℕ → Keyspace → ℕ → List Bytes → Option (Keyspace × Frame)
unfolding copy_options copy_key
copy now ks index (_ ∷ src_key ∷ dst_key ∷ opts) =
    or_refuse ks (copy_options ks (record { replace = false; dst_db = index }) opts)
      λ o. copy_key now ks index o src_key dst_key
copy now ks index _ = some (ks, wrong_args "copy")

put_taken : Keyspace → ℕ → ℕ → Bytes → Db → Db → Option (Value × Option ℕ) → Keyspace × Frame
put_taken ks i j key src dst none = (put_db (put_db ks i src) j dst, count 0)
put_taken ks i j key src dst (some (v, t)) =
    (put_db (put_db ks i src) j (Db.put dst key v t), count 1)

move_between : ℕ → Keyspace → ℕ → ℕ → Bytes → Db → Db → Keyspace × Frame
unfolding put_taken
move_between now ks i j key src dst =
    let (dst1, taken) = Db.contains now dst key in
    let (src1, e) = Db.take now src key in
    if taken then (put_db ks j dst1, count 0) else put_taken ks i j key src1 dst1 e

pub move_to : ℕ → Keyspace → ℕ → ℕ → Bytes → Option (Keyspace × Frame)
unfolding move_between
move_to now ks i j key =
    if j == i
    then some (ks, err "source and destination objects are the same")
    else elim (Keyspace.pair ks i j) [
      | none ↦ none
      | some (src, dst) ↦ some (move_between now ks i j key src dst)
    ]

unfoldable pub move_key : ℕ → Keyspace → ℕ → List Bytes → Option (Keyspace × Frame)
unfolding checked_index move_to
move_key now ks index (_ ∷ key ∷ a ∷ []) =
    or_refuse ks (parse_int a >>= checked_index ks) λ dst_db. move_to now ks index dst_db key
move_key now ks index _ = some (ks, wrong_args "move")

or_invalid : Frame → Checked ℤ → Checked ℤ
or_invalid f (go n) = go n
or_invalid f (fail _) = fail f

swap_reply : Option Keyspace → Option (Keyspace × Frame)
swap_reply none = none
swap_reply (some ks) = some (ks, ok)

swap_valid : Keyspace → ℤ → ℤ → Option (Keyspace × Frame)
unfolding swap_reply
swap_valid ks first second =
    if Keyspace.is_valid ks first && Keyspace.is_valid ks second
    then swap_reply (Keyspace.swap ks (pos_part first) (pos_part second))
    else some (ks, err "DB index is out of range")

unfoldable pub swapdb : Keyspace → List Bytes → Option (Keyspace × Frame)
unfolding or_invalid swap_valid
swapdb ks (_ ∷ a ∷ b ∷ []) =
    or_refuse ks (or_invalid (err "invalid first DB index") (parse_int a)) λ first.
      or_refuse ks (or_invalid (err "invalid second DB index") (parse_int b))
        λ second. swap_valid ks first second
swapdb ks _ = some (ks, wrong_args "swapdb")
