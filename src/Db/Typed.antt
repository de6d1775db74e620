-- ===== src/Db/Typed.antt =====
-- src/db.rs: the typed accessors. `WrongType` is the constructor `wrong_type`.
use meebis.Base.{ℕ, List, [], Option, none, some}
use meebis.Base.Bytes.{Bytes}
use meebis.Base.HashMap
use meebis.Base.HashMap.{HashMap}
use meebis.Base.HashSet.{HashSet}
use meebis.SortedSet.{ZSet}
use meebis.StreamLog.{Stream}
use meebis.Db.{Db, Entry, Value, string, list, set_of, hash, zset, stream, purge_if_expired, get}

pub data Typed {ℓ} (A : Type ℓ) : Type ℓ where
  typed : A → Typed A
  wrong_type : Typed A

abbrev pub as_str : Option Value → Typed (Option Bytes)
as_str none = typed none
as_str (some (string s)) = typed (some s)
as_str (some _) = wrong_type

abbrev pub as_list : Option Value → Typed (Option (List Bytes))
as_list none = typed none
as_list (some (list l)) = typed (some l)
as_list (some _) = wrong_type

abbrev pub as_set : Option Value → Typed (Option HashSet)
as_set none = typed none
as_set (some (set_of s)) = typed (some s)
as_set (some _) = wrong_type

abbrev pub as_hash : Option Value → Typed (Option (HashMap Bytes))
as_hash none = typed none
as_hash (some (hash h)) = typed (some h)
as_hash (some _) = wrong_type

abbrev pub as_zset : Option Value → Typed (Option ZSet)
as_zset none = typed none
as_zset (some (zset z)) = typed (some z)
as_zset (some _) = wrong_type

abbrev pub as_stream : Option Value → Typed (Option Stream)
as_stream none = typed none
as_stream (some (stream s)) = typed (some s)
as_stream (some _) = wrong_type

unfoldable pub get_str : ℕ → Db → Bytes → Db × Typed (Option Bytes)
get_str now db key = let (db', v) = get now db key in (db', as_str v)

-- `get_list` and `get_list_mut`
unfoldable pub get_list : ℕ → Db → Bytes → Db × Typed (Option (List Bytes))
get_list now db key = let (db', v) = get now db key in (db', as_list v)

unfoldable pub get_set : ℕ → Db → Bytes → Db × Typed (Option HashSet)
get_set now db key = let (db', v) = get now db key in (db', as_set v)

unfoldable pub get_hash : ℕ → Db → Bytes → Db × Typed (Option (HashMap Bytes))
get_hash now db key = let (db', v) = get now db key in (db', as_hash v)

unfoldable pub get_zset : ℕ → Db → Bytes → Db × Typed (Option ZSet)
get_zset now db key = let (db', v) = get now db key in (db', as_zset v)

-- `get_stream` and `get_stream_mut`
unfoldable pub get_stream : ℕ → Db → Bytes → Db × Typed (Option Stream)
get_stream now db key = let (db', v) = get now db key in (db', as_stream v)

-- `entry(key).or_insert_with(..)` with no expiry, and the value that is then there.
unfoldable pub or_insert : Db → Bytes → Value → Option Entry → Db × Value
or_insert db key empty none = (
  record db { table = HashMap.insert key (record { value = empty; expire_at = none }) db.table },
  empty,
)
or_insert db key empty (some e) = (db, e.value)

unfoldable pub get_or_create : ℕ → Db → Bytes → Value → Db × Value
unfolding or_insert
get_or_create now db key empty =
    let (db', _) = purge_if_expired now db key in
    or_insert db' key empty (HashMap.get key db'.table)

abbrev pub the_list : Value → Typed (List Bytes)
the_list (list l) = typed l
the_list _ = wrong_type

abbrev pub the_set : Value → Typed HashSet
the_set (set_of s) = typed s
the_set _ = wrong_type

abbrev pub the_hash : Value → Typed (HashMap Bytes)
the_hash (hash h) = typed h
the_hash _ = wrong_type

unfoldable pub get_or_create_list : ℕ → Db → Bytes → Db × Typed (List Bytes)
unfolding get_or_create
get_or_create_list now db key =
    let (db', v) = get_or_create now db key (list []) in (db', the_list v)

unfoldable pub get_or_create_set : ℕ → Db → Bytes → Db × Typed HashSet
unfolding get_or_create
get_or_create_set now db key =
    let (db', v) = get_or_create now db key (set_of []) in (db', the_set v)

unfoldable pub get_or_create_hash : ℕ → Db → Bytes → Db × Typed (HashMap Bytes)
unfolding get_or_create
get_or_create_hash now db key =
    let (db', v) = get_or_create now db key (hash []) in (db', the_hash v)
