-- ===== src/Db/Purged.antt =====
-- A write to a key that was just read: an expired entry is gone by then, so a kept expiry is a
-- live one.
use meebis.Base.{ℕ, ◌≡◌, refl, sym, ◌∙◌, false, Option, none, some, arith, if◌then◌else◌}
use meebis.Base.Bytes.{Bytes, bytes_eq}
use meebis.Base.HashMap
use meebis.Base.HashMap.{get-insert}
use meebis.Db.{Db, Entry, Value, is_expired, get, contains, set_keep_ttl, value_of, expiry_of}
use meebis.Db.Typed.{get_str, get_list, get_set, get_hash, as_str, as_list, as_set, as_hash}
use meebis.Db.View.{live, view}
use meebis.Db.Laws.{get-purge_self, view-get, view-contains, get_result}

abbrev pub IsPurged : ℕ → Db → Bytes → Type 0
IsPurged now db k = HashMap.get k db.table ≡ view now db k

module _ (now : ℕ) (db : Db) (k : Bytes) where
  pub get-IsPurged : IsPurged now (get now db k).0 k
  unfolding get
  get-IsPurged = get-purge_self now db k ∙ sym (view-get now db k k)

  pub contains-IsPurged : IsPurged now (contains now db k).0 k
  unfolding contains
  contains-IsPurged = get-purge_self now db k ∙ sym (view-contains now db k k)

live-kept :
    (now : ℕ) (o : Option Entry) (v : Value)
    → is_expired now (record { value = v; expire_at = expiry_of (live now o) }) ≡ false
unfolding is_expired expiry_of
live-kept now none v = refl
live-kept now (some e) v = ground arith

-- The value is replaced and the live expiry kept; a new key has none.
pub view-set_keep_ttl :
    (now : ℕ) (db : Db) (k : Bytes) (v : Value) (j : Bytes)
    → IsPurged now db k
    → view now (set_keep_ttl db k v) j ≡ (
        if bytes_eq k j
        then some (record { value = v; expire_at = expiry_of (view now db k) })
        else view now db j)
unfolding set_keep_ttl
view-set_keep_ttl now db k v j h = rw h (
    unfold view in
    ground (
      arith,
      get-insert k j (record { value = v; expire_at = expiry_of (view now db k) }) db.table,
      live-kept now (HashMap.get k db.table) v,
    ))

-- The typed readers return what is visible and leave the view as it is.
module _ (now : ℕ) (db : Db) (k : Bytes) where
  pub get_str_result : (get_str now db k).1 ≡ as_str (value_of (view now db k))
  unfolding get_str
  get_str_result = rw (get_result now db k)

  pub get_list_result : (get_list now db k).1 ≡ as_list (value_of (view now db k))
  unfolding get_list
  get_list_result = rw (get_result now db k)

  pub get_set_result : (get_set now db k).1 ≡ as_set (value_of (view now db k))
  unfolding get_set
  get_set_result = rw (get_result now db k)

  pub get_hash_result : (get_hash now db k).1 ≡ as_hash (value_of (view now db k))
  unfolding get_hash
  get_hash_result = rw (get_result now db k)

  pub view-get_str : (j : Bytes) → view now (get_str now db k).0 j ≡ view now db j
  unfolding get_str
  view-get_str j = view-get now db k j

  pub get_str-IsPurged : IsPurged now (get_str now db k).0 k
  unfolding get_str
  get_str-IsPurged = get-IsPurged now db k

  pub view-get_list : (j : Bytes) → view now (get_list now db k).0 j ≡ view now db j
  unfolding get_list
  view-get_list j = view-get now db k j

  pub get_list-IsPurged : IsPurged now (get_list now db k).0 k
  unfolding get_list
  get_list-IsPurged = get-IsPurged now db k

  pub view-get_set : (j : Bytes) → view now (get_set now db k).0 j ≡ view now db j
  unfolding get_set
  view-get_set j = view-get now db k j

  pub get_set-IsPurged : IsPurged now (get_set now db k).0 k
  unfolding get_set
  get_set-IsPurged = get-IsPurged now db k

  pub view-get_hash : (j : Bytes) → view now (get_hash now db k).0 j ≡ view now db j
  unfolding get_hash
  view-get_hash j = view-get now db k j

  pub get_hash-IsPurged : IsPurged now (get_hash now db k).0 k
  unfolding get_hash
  get_hash-IsPurged = get-IsPurged now db k
