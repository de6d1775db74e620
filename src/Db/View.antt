-- ===== src/Db/View.antt =====
-- What a client can see of a database at a time: the entries that have not expired.
use meebis.Base.{ℕ, ◌≡◌, Option, none, some, arith, if◌then◌else◌}
use meebis.Base.Bytes.{Bytes, bytes_eq, bytes_eq_iff}
use meebis.Base.HashMap
use meebis.Base.HashMap.{get-insert, get-remove}
use meebis.Db.{Db, Entry, is_expired, purge_if_expired}

abbrev pub live : ℕ → Option Entry → Option Entry
live now none = none
live now (some e) = if is_expired now e then none else some e

unfoldable pub view : ℕ → Db → Bytes → Option Entry
view now db k = live now (HashMap.get k db.table)

-- After the purge of a key the table holds just what was visible there.
pub get-purge_if_expired :
    (now : ℕ) (db : Db) (k j : Bytes)
    → HashMap.get j (purge_if_expired now db k).0.table
      ≡ (if bytes_eq k j then view now db k else HashMap.get j db.table)
unfolding purge_if_expired view
get-purge_if_expired now db k j = ground (arith, get-remove k j db.table, bytes_eq_iff k j)

-- A purge takes away nothing that a client can see.
pub view-purge_if_expired :
    (now : ℕ) (db : Db) (k j : Bytes) → view now (purge_if_expired now db k).0 j ≡ view now db j
unfolding view purge_if_expired
view-purge_if_expired now db k j = ground (arith, get-remove k j db.table, bytes_eq_iff k j)
