-- ===== src/Commands/Hashes/Fields.antt =====
-- src/commands/hash.rs: what HSET leaves, field by field.
use meebis.Base.{
  ℕ, suc, ◌+◌, ◌%◌, ◌≡◌, refl, ◌∙◌, Bool, true, false, not, ◌||◌, List, [], ◌∷◌, Option, none, some,
  arith, ltb, if◌then◌else◌, length, ◌==◌,
}
use meebis.Base.Bytes.{Bytes, bytes_eq}
use meebis.Base.HashMap
use meebis.Base.HashMap.{HashMap, get-insert}
use meebis.Resp.Frame.{count, ok}
use meebis.Db.{Db, Entry, hash, expiry_of, is_some}
use meebis.Db.Typed.{typed, get_or_create_hash}
use meebis.Db.View.{view}
use meebis.Db.Writes.{hash_or_empty, get_or_create_hash_result, view-get_or_create_hash}
use meebis.Commands.Strings.Pairs.{last_value}
use meebis.Commands.Hashes.{insert_pairs, write_fields, hset}

-- The value that comes later wins.
pub later : Option Bytes → Option Bytes → Option Bytes
later none old = old
later (some v) old = some v

one_more-later :
    (o : Option Bytes) (b : Bool) (v : Bytes) (old : Option Bytes)
    → later o (if b then some v else old)
      ≡ later (elim o [ some w ↦ some w | none ↦ if b then some v else none ]) old
unfolding later
one_more-later none true v old = refl
one_more-later none false v old = refl
one_more-later (some w) b v old = refl

pub get-insert_pairs :
    (h : HashMap Bytes) (pairs : List Bytes) (g : Bytes)
    → HashMap.get g (insert_pairs h pairs).0 ≡ later (last_value pairs g) (HashMap.get g h)
unfolding insert_pairs later
get-insert_pairs h [] g = refl
get-insert_pairs h (f ∷ []) g = refl
get-insert_pairs h (f ∷ v ∷ rest) g =
    get-insert_pairs (HashMap.insert f v h) rest g
    ∙ rw (get-insert f g v h)
        (one_more-later (last_value rest g) (bytes_eq f g) v (HashMap.get g h))

length-insert :
    (f v : Bytes) (h : HashMap Bytes)
    → length (HashMap.insert f v h)
      ≡ (if is_some (HashMap.get f h) then length h else suc (length h))
unfolding HashMap.insert HashMap.get is_some
length-insert f v [] = refl
length-insert f v ((k, w) ∷ h) = ground (arith, length-insert f v h)

pub length-insert_pairs :
    (h : HashMap Bytes) (pairs : List Bytes)
    → length (insert_pairs h pairs).0 ≡ length h + (insert_pairs h pairs).1
unfolding insert_pairs
length-insert_pairs h [] = omega arith
length-insert_pairs h (f ∷ []) = omega arith
length-insert_pairs h (f ∷ v ∷ rest) =
    ground (arith, length-insert_pairs (HashMap.insert f v h) rest, length-insert f v h)

-- The entry that HSET leaves.
abbrev pub hash_entry : HashMap Bytes → Option Entry → Option Entry
hash_entry h old = some (record { value = hash h; expire_at = expiry_of old })

typed-write_fields :
    (now : ℕ) (db : Db) (key : Bytes) (pairs : List Bytes) (hmset : Bool) (h : HashMap Bytes)
    → hash_or_empty (view now db key) ≡ typed h
    → ((write_fields (get_or_create_hash now db key) key pairs hmset).1
        ≡ (if hmset then ok else count (insert_pairs h pairs).1))
      × ((j : Bytes)
          → view now (write_fields (get_or_create_hash now db key) key pairs hmset).0 j ≡ (
              if bytes_eq key j
              then hash_entry (insert_pairs h pairs).0 (view now db key)
              else view now db j))
unfolding write_fields
typed-write_fields now db key pairs hmset h e = (
  rw (get_or_create_hash_result now db key, e) refl,
  λ j.
      rw (get_or_create_hash_result now db key, e)
        (view-get_or_create_hash now db key (hash (insert_pairs h pairs).0) j),
)

-- HSET and HMSET with pairs of a field and a value, on a hash or a missing key: the hash that is left
-- gives each field the last value given to it, or else its old one, it has grown by the number that
-- HSET replies with, it keeps its expiry, and no other key changes.
pub hset_lem :
    (now : ℕ) (db : Db) (command key : Bytes) (pairs : List Bytes) (hmset : Bool)
    (h : HashMap Bytes)
    → (ltb (length pairs) 2 || not (length pairs % 2 == 0)) ≡ false
    → hash_or_empty (view now db key) ≡ typed h
    → let (db', reply) = hset now db (command ∷ key ∷ pairs) hmset in
      (h' : HashMap Bytes) × (n : ℕ) × (reply ≡ (if hmset then ok else count n))
      × (length h' ≡ length h + n)
      × ((f : Bytes) → HashMap.get f h' ≡ later (last_value pairs f) (HashMap.get f h))
      × ((j : Bytes)
          → view now db' j
            ≡ (if bytes_eq key j then hash_entry h' (view now db key) else view now db j))
unfolding hset
hset_lem now db command key pairs hmset h p e =
    let (reply, sees) = typed-write_fields now db key pairs hmset h e in
    rw p (
      (insert_pairs h pairs).0,
      (insert_pairs h pairs).1,
      reply,
      length-insert_pairs h pairs,
      get-insert_pairs h pairs,
      sees,
    )
