-- ===== src/Db.antt =====
-- src/db.rs: values, entries with an expiry, and one numbered database. A method of `Db` returns the
-- new database and its result. The clock, `now_ms()`, is the first argument.
pub mod Typed
pub mod View
pub mod Laws
pub mod Purged
pub mod Refines
pub mod Writes
mod Tests
use meebis.Base.{
  ℕ, suc, ◌+◌, ◌==◌, Bool, true, false, not, ◌&&◌, List, [], ◌∷◌, map, Option, none, some, leb, ltb,
  if◌then◌else◌, length,
}
use meebis.Base.Bytes.{Bytes}
use meebis.Base.HashMap
use meebis.Base.HashMap.{HashMap}
use meebis.Base.HashSet.{HashSet}
use meebis.Glob.{glob_match}
use meebis.SortedSet.{ZSet}
use meebis.StreamLog.{Stream}

pub data Value : Type 0 where
  string : Bytes → Value
  list : List Bytes → Value
  set_of : HashSet → Value
  hash : HashMap Bytes → Value
  zset : ZSet → Value
  stream : Stream → Value

pub record Entry : Type 0 where
  pub value : Value
  pub expire_at : Option ℕ

pub record Db : Type 0 where
  pub table : HashMap Entry

abbrev pub new : Db
new = record { table = [] }

-- `matches!(e.expire_at, Some(at) if at <= now)`
unfoldable pub is_expired : ℕ → Entry → Bool
is_expired now e = elim e.expire_at [ none ↦ false | some t ↦ leb t now ]

expired_key : ℕ → Option Entry → Bool
unfolding is_expired
expired_key now none = false
expired_key now (some e) = is_expired now e

unfoldable pub purge_if_expired : ℕ → Db → Bytes → Db × Bool
unfolding expired_key
purge_if_expired now db key =
    let expired = expired_key now (HashMap.get key db.table) in
    (if expired then record db { table = HashMap.remove key db.table } else db, expired)

unfoldable pub value_of : Option Entry → Option Value
value_of none = none
value_of (some e) = some e.value

unfoldable pub expiry_of : Option Entry → Option ℕ
expiry_of none = none
expiry_of (some e) = e.expire_at

unfoldable pub is_some {ℓ} : {A : Type ℓ} → Option A → Bool
is_some none = false
is_some (some a) = true

-- `get` and `get_mut`; a write through the latter is `replace` below.
unfoldable pub get : ℕ → Db → Bytes → Db × Option Value
unfolding value_of
get now db key =
    let (db', _) = purge_if_expired now db key in (db', value_of (HashMap.get key db'.table))

unfoldable pub contains : ℕ → Db → Bytes → Db × Bool
unfolding is_some
contains now db key =
    let (db', _) = purge_if_expired now db key in (db', is_some (HashMap.get key db'.table))

unfoldable pub set : Db → Bytes → Value → Db
set db key v = record db {
  table = HashMap.insert key (record { value = v; expire_at = none }) db.table;
}

unfoldable pub set_keep_ttl : Db → Bytes → Value → Db
unfolding expiry_of
set_keep_ttl db key v =
    let t = expiry_of (HashMap.get key db.table) in
    record db { table = HashMap.insert key (record { value = v; expire_at = t }) db.table }

-- What a write through `get_mut` or `get_or_create_*` does to the entry.
unfoldable pub replace : Db → Bytes → Value → Db
unfolding set_keep_ttl
replace db key v = set_keep_ttl db key v

unfoldable pub remove : ℕ → Db → Bytes → Db × Bool
unfolding is_some
remove now db key =
    let (db', _) = purge_if_expired now db key in
    (record db' { table = HashMap.remove key db'.table }, is_some (HashMap.get key db'.table))

is_empty {ℓ} : {A : Type ℓ} → List A → Bool
is_empty [] = true
is_empty (x ∷ xs) = false

empty_value : Option Entry → Bool
unfolding is_empty
empty_value none = false
empty_value (some e) = elim e.value [
  | string b ↦ false
  | list l ↦ is_empty l
  | set_of s ↦ is_empty s
  | hash h ↦ is_empty h
  | zset z ↦ is_empty z.scores
  | stream s ↦ false
]

-- The key is looked up as it stands, expired or not.
unfoldable pub remove_if_empty : Db → Bytes → Db
unfolding empty_value
remove_if_empty db key =
    if empty_value (HashMap.get key db.table)
    then record db { table = HashMap.remove key db.table }
    else db

unfoldable pub expire_at : ℕ → Db → Bytes → Db × Option ℕ
unfolding expiry_of
expire_at now db key =
    let (db', _) = purge_if_expired now db key in (db', expiry_of (HashMap.get key db'.table))

with_expiry : Db → Bytes → Option ℕ → Option Entry → Db × Bool
with_expiry db key t none = (db, false)
with_expiry db key t (some e) =
    (record db { table = HashMap.insert key (record e { expire_at = t }) db.table }, true)

unfoldable pub set_expire : ℕ → Db → Bytes → ℕ → Db × Bool
unfolding with_expiry
set_expire now db key at_ms =
    let (db', _) = purge_if_expired now db key in
    with_expiry db' key (some at_ms) (HashMap.get key db'.table)

unfoldable pub persist : ℕ → Db → Bytes → Db × Bool
unfolding with_expiry is_some expiry_of
persist now db key =
    let (db', _) = purge_if_expired now db key in
    let entry = HashMap.get key db'.table in
    if is_some (expiry_of entry) then with_expiry db' key none entry else (db', false)

move_entry : Db → Bytes → Bytes → Option Entry → Db × Bool
move_entry db src dst none = (record db { table = HashMap.remove src db.table }, false)
move_entry db src dst (some e) =
    (record db { table = HashMap.insert dst e (HashMap.remove src db.table) }, true)

unfoldable pub rename : ℕ → Db → Bytes → Bytes → Db × Bool
unfolding move_entry
rename now db src dst =
    let (db', _) = purge_if_expired now db src in move_entry db' src dst (HashMap.get src db'.table)

count_where : (Entry → Bool) → HashMap Entry → ℕ
count_where p [] = 0
count_where p ((k, e) ∷ m) = if p e then suc (count_where p m) else count_where p m

-- The number of live keys.
unfoldable pub len : ℕ → Db → ℕ
unfolding count_where
len now db = count_where (λ e. not (is_expired now e)) db.table

unfoldable pub expires_count : ℕ → Db → ℕ
unfolding count_where
expires_count now db =
    count_where (λ e. elim e.expire_at [ none ↦ false | some t ↦ ltb now t ]) db.table

unfoldable pub clear : Db → Db
clear db = record db { table = [] }

unfoldable pub take : ℕ → Db → Bytes → Db × Option (Value × Option ℕ)
take now db key =
    let (db', _) = purge_if_expired now db key in
    (
      record db' { table = HashMap.remove key db'.table },
      elim (HashMap.get key db'.table) [ none ↦ none | some e ↦ some (e.value, e.expire_at) ],
    )

unfoldable pub put : Db → Bytes → Value → Option ℕ → Db
put db key v t = record db {
  table = HashMap.insert key (record { value = v; expire_at = t }) db.table;
}

unfoldable pub keys_where : (Bytes → Entry → Bool) → HashMap Entry → List Bytes
keys_where p [] = []
keys_where p ((k, e) ∷ m) = let rest = keys_where p m in if p k e then k ∷ rest else rest

pattern_allows : Option Bytes → Bytes → Bool
pattern_allows none key = true
pattern_allows (some p) key = glob_match p key

unfoldable pub keys_matching : ℕ → Db → Option Bytes → List Bytes
unfolding keys_where pattern_allows
keys_matching now db pattern =
    keys_where (λ k e. not (is_expired now e) && pattern_allows pattern k) db.table

unfoldable pub all_keys : ℕ → Db → List Bytes
unfolding keys_matching
all_keys now db = keys_matching now db none

live_entries : ℕ → HashMap Entry → List (Bytes × Value × Option ℕ)
live_entries now [] = []
live_entries now ((k, e) ∷ m) =
    let rest = live_entries now m in
    if is_expired now e then rest else (k, e.value, e.expire_at) ∷ rest

unfoldable pub iter_live : ℕ → Db → List (Bytes × Value × Option ℕ)
unfolding live_entries
iter_live now db = live_entries now db.table

unfoldable pub sweep_expired : ℕ → Db → Db
sweep_expired now db = record db { table = HashMap.retain (λ _ e. not (is_expired now e)) db.table }
