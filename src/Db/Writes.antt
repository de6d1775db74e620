-- ===== src/Db/Writes.antt =====
-- Writes through the references that `get_mut` and `get_or_create_*` give, and the removal of a
-- collection that was emptied.
use meebis.Base.{
  ℕ, ◌≡◌, refl, ap, sym, ◌∙◌, Bool, true, false, ◌&&◌, List, [], ◌∷◌, Option, none, some, arith,
  if◌then◌else◌,
}
use meebis.Base.Bytes.{Bytes, bytes_eq, bytes_eq_refl}
use meebis.Base.HashSet.{HashSet}
use meebis.Base.HashMap
use meebis.Base.HashMap.{HashMap, get-insert, get-remove}
use meebis.Db.{
  Db, Entry, Value, string, list, set_of, hash, zset, stream, is_expired, purge_if_expired,
  set_keep_ttl, set, replace, remove_if_empty, empty_value, is_empty, expiry_of,
}
use meebis.Db.Typed.{
  Typed, wrong_type, the_list, get_or_create, get_or_create_list, get_or_create_hash, the_hash,
  the_set, get_or_create_set, or_insert,
}
use meebis.Db.View.{view, view-purge_if_expired}
use meebis.Db.Laws.{get-purge_self, view-set}
use meebis.Db.Purged.{IsPurged, view-set_keep_ttl}

-- An empty collection.
abbrev pub void : Value → Bool
void (list []) = true
void (set_of []) = true
void (hash []) = true
void (zset z) = elim z.scores [ [] ↦ true | _ ∷ _ ↦ false ]
void _ = false

empty_value-void :
    (v : Value) (t : Option ℕ) → empty_value (some (record { value = v; expire_at = t })) ≡ void v
unfolding empty_value is_empty
empty_value-void (string b) t = refl
empty_value-void (list []) t = refl
empty_value-void (list (x ∷ l)) t = refl
empty_value-void (set_of []) t = refl
empty_value-void (set_of (x ∷ l)) t = refl
empty_value-void (hash []) t = refl
empty_value-void (hash (x ∷ l)) t = refl
empty_value-void (zset z) t = refl
empty_value-void (stream s) t = refl

-- What a key holds after such a write: nothing where the collection was emptied, and else the value
-- with the expiry kept.
abbrev pub rewritten : Value → Option Entry → Option Entry
rewritten v old = if void v then none else some (record { value = v; expire_at = expiry_of old })

get-set_keep_ttl :
    (db : Db) (k : Bytes) (v : Value)
    → HashMap.get k (set_keep_ttl db k v).table
      ≡ some (record { value = v; expire_at = expiry_of (HashMap.get k db.table) })
unfolding set_keep_ttl
get-set_keep_ttl db k v = ground (
  arith,
  get-insert k k (record { value = v; expire_at = expiry_of (HashMap.get k db.table) }) db.table,
  bytes_eq_refl k,
)

-- By the value that stands at the key.
view-removed :
    (now : ℕ) (db : Db) (k : Bytes) (e : Entry) (j : Bytes)
    → HashMap.get k db.table ≡ some e
    → view now (remove_if_empty db k) j
      ≡ (if void e.value && bytes_eq k j then none else view now db j)
unfolding remove_if_empty
view-removed now db k e j h =
    rw (h, empty_value-void e.value e.expire_at)
      (unfold view in ground (arith, get-remove k j db.table))

pub view-remove_if_empty :
    (now : ℕ) (db : Db) (k : Bytes) (v : Value) (j : Bytes)
    → IsPurged now db k
    → view now (remove_if_empty (replace db k v) k) j
      ≡ (if bytes_eq k j then rewritten v (view now db k) else view now db j)
unfolding replace
view-remove_if_empty now db k v j h = ground (
  arith,
  view-removed now (set_keep_ttl db k v) k
      (record { value = v; expire_at = expiry_of (HashMap.get k db.table) }) j
      (get-set_keep_ttl db k v),
  view-set_keep_ttl now db k v j h,
)

set-IsPurged : (now : ℕ) (db : Db) (k : Bytes) (v : Value) → IsPurged now (set db k v) k
unfolding set view is_expired
set-IsPurged now db k v =
    ground
      (arith, get-insert k k (record { value = v; expire_at = none }) db.table, bytes_eq_refl k)

-- A write through `get_or_create_*`, at the key that it made sure of.
view-or_insert :
    (now : ℕ) (db : Db) (k : Bytes) (empty v : Value) (o : Option Entry) (j : Bytes)
    → HashMap.get k db.table ≡ o
    → IsPurged now db k
    → view now (replace (or_insert db k empty o).0 k v) j ≡ (
        if bytes_eq k j
        then some (record { value = v; expire_at = expiry_of o })
        else view now db j)
unfolding replace or_insert expiry_of
view-or_insert now db k empty v none j h p =
    let db1 : Db = set db k empty in
    let there : view now db1 k ≡ some (record { value = empty; expire_at = none }) =
      view-set now db k empty k ∙ rw (bytes_eq_refl k) in
    let kept : view now (set_keep_ttl db1 k v) j
        ≡ (if bytes_eq k j then some (record { value = v; expire_at = none }) else view now db1 j) =
      view-set_keep_ttl now db1 k v j (set-IsPurged now db k empty) ∙ rw there in
    unfold set in kept ∙ ground (arith, view-set now db k empty j)
view-or_insert now db k empty v (some e) j h p = view-set_keep_ttl now db k v j p ∙ rw (← p, h)

abbrev value_or : Value → Option Entry → Value
value_or empty none = empty
value_or empty (some e) = e.value

or_insert_result :
    (db : Db) (k : Bytes) (empty : Value) (o : Option Entry)
    → (or_insert db k empty o).1 ≡ value_or empty o
unfolding or_insert
or_insert_result db k empty none = refl
or_insert_result db k empty (some e) = refl

purge-IsPurged : (now : ℕ) (db : Db) (k : Bytes) → IsPurged now (purge_if_expired now db k).0 k
purge-IsPurged now db k = get-purge_self now db k ∙ sym (view-purge_if_expired now db k k)

abbrev pub list_or_empty : Option Entry → Typed (List Bytes)
list_or_empty o = the_list (value_or (list []) o)

or_insert_wrong :
    (db : Db) (k : Bytes) (o : Option Entry)
    → list_or_empty o ≡ wrong_type
    → (or_insert db k (list []) o).0 ≡ db
unfolding or_insert
or_insert_wrong db k none h = cc h
or_insert_wrong db k (some e) h = refl

module _ (now : ℕ) (db : Db) (k : Bytes) where
  pub get_or_create_list_result : (get_or_create_list now db k).1 ≡ list_or_empty (view now db k)
  unfolding get_or_create_list get_or_create
  get_or_create_list_result =
      rw (get-purge_self now db k)
        (rw (or_insert_result (purge_if_expired now db k).0 k (list []) (view now db k)))

  pub view-get_or_create_list :
      (v : Value) (j : Bytes)
      → view now (replace (get_or_create_list now db k).0 k v) j ≡ (
          if bytes_eq k j
          then some (record { value = v; expire_at = expiry_of (view now db k) })
          else view now db j)
  unfolding get_or_create_list get_or_create
  view-get_or_create_list v j = rw (get-purge_self now db k) (
      view-or_insert now (purge_if_expired now db k).0 k (list []) v (view now db k) j
        (get-purge_self now db k) (purge-IsPurged now db k)
      ∙ rw (view-purge_if_expired now db k j))

  -- A key of another type is left alone.
  pub view-get_or_create_wrong :
      (j : Bytes)
      → list_or_empty (view now db k) ≡ wrong_type
      → view now (get_or_create_list now db k).0 j ≡ view now db j
  unfolding get_or_create_list get_or_create
  view-get_or_create_wrong j h = rw (get-purge_self now db k) (
      ap (λ d. view now d j) (or_insert_wrong (purge_if_expired now db k).0 k (view now db k) h)
      ∙ view-purge_if_expired now db k j)

abbrev pub set_or_empty : Option Entry → Typed HashSet
set_or_empty o = the_set (value_or (set_of []) o)

module _ (now : ℕ) (db : Db) (k : Bytes) where
  pub get_or_create_set_result : (get_or_create_set now db k).1 ≡ set_or_empty (view now db k)
  unfolding get_or_create_set get_or_create
  get_or_create_set_result =
      rw (get-purge_self now db k)
        (rw (or_insert_result (purge_if_expired now db k).0 k (set_of []) (view now db k)))

  pub view-get_or_create_set :
      (v : Value) (j : Bytes)
      → view now (replace (get_or_create_set now db k).0 k v) j ≡ (
          if bytes_eq k j
          then some (record { value = v; expire_at = expiry_of (view now db k) })
          else view now db j)
  unfolding get_or_create_set get_or_create
  view-get_or_create_set v j = rw (get-purge_self now db k) (
      view-or_insert now (purge_if_expired now db k).0 k (set_of []) v (view now db k) j
        (get-purge_self now db k) (purge-IsPurged now db k)
      ∙ rw (view-purge_if_expired now db k j))

abbrev pub hash_or_empty : Option Entry → Typed (HashMap Bytes)
hash_or_empty o = the_hash (value_or (hash []) o)

module _ (now : ℕ) (db : Db) (k : Bytes) where
  pub get_or_create_hash_result : (get_or_create_hash now db k).1 ≡ hash_or_empty (view now db k)
  unfolding get_or_create_hash get_or_create
  get_or_create_hash_result =
      rw (get-purge_self now db k)
        (rw (or_insert_result (purge_if_expired now db k).0 k (hash []) (view now db k)))

  pub view-get_or_create_hash :
      (v : Value) (j : Bytes)
      → view now (replace (get_or_create_hash now db k).0 k v) j ≡ (
          if bytes_eq k j
          then some (record { value = v; expire_at = expiry_of (view now db k) })
          else view now db j)
  unfolding get_or_create_hash get_or_create
  view-get_or_create_hash v j = rw (get-purge_self now db k) (
      view-or_insert now (purge_if_expired now db k).0 k (hash []) v (view now db k) j
        (get-purge_self now db k) (purge-IsPurged now db k)
      ∙ rw (view-purge_if_expired now db k j))
