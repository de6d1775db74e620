-- ===== src/Commands/Keys/Removal.antt =====
-- DEL: what it counts, and what a client sees afterwards.
use meebis.Base.{
  ℕ, suc, ◌+◌, ◌≡◌, refl, ap, Bool, false, not, ◌&&◌, ◌||◌, List, [], ◌∷◌, Option, none, arith,
  if◌then◌else◌,
}
use meebis.Base.Bytes.{Bytes, bytes_eq, bytes_eq_iff}
use meebis.Resp.Frame.{count}
use meebis.Db
use meebis.Db.{Db, Entry, is_some}
use meebis.Db.View.{view}
use meebis.Db.Laws.{remove_result, view-remove}
use meebis.Commands.Keys.{remove_all, del}

abbrev pub among : Bytes → List Bytes → Bool
among k [] = false
among k (j ∷ js) = bytes_eq j k || among k js

-- The number of different names in the list that name an entry.
abbrev pub count_named : (Bytes → Option Entry) → List Bytes → ℕ
count_named m [] = 0
count_named m (k ∷ ks) =
    let n = count_named m ks in if is_some (m k) && not (among k ks) then suc n else n

abbrev hidden : (Bytes → Option Entry) → Bytes → Bytes → Option Entry
hidden m k j = if bytes_eq k j then none else m j

count_named-hidden :
    (m : Bytes → Option Entry) (k : Bytes) (ks : List Bytes)
    → count_named m ks
      ≡ count_named (hidden m k) ks + (if is_some (m k) && among k ks then 1 else 0)
unfolding is_some
count_named-hidden m k [] = ground arith
count_named-hidden m k (j ∷ ks) =
    ground (arith, count_named-hidden m k ks, bytes_eq_iff k j, bytes_eq_iff j k)

count_named-ext :
    (m m' : Bytes → Option Entry) (ks : List Bytes)
    → ((j : Bytes) → m j ≡ m' j)
    → count_named m ks ≡ count_named m' ks
count_named-ext m m' [] h = refl
count_named-ext m m' (k ∷ ks) h = rw (h k, count_named-ext m m' ks h)

view-remove_all :
    (now : ℕ) (db : Db) (ks : List Bytes) (j : Bytes)
    → view now (remove_all now db ks).0 j ≡ (if among j ks then none else view now db j)
unfolding remove_all
view-remove_all now db [] j = refl
view-remove_all now db (k ∷ ks) j =
    ground (arith, view-remove_all now (Db.remove now db k).0 ks j, view-remove now db k j)

remove_all_count :
    (now : ℕ) (db : Db) (ks : List Bytes) → (remove_all now db ks).1 ≡ count_named (view now db) ks
unfolding remove_all
remove_all_count now db [] = refl
remove_all_count now db (k ∷ ks) =
    let db1 : Db = (Db.remove now db k).0 in
    rw
      (
        remove_all_count now db1 ks,
        count_named-ext (view now db1) (hidden (view now db) k) ks (view-remove now db k),
      )
      (ground (arith, remove_result now db k, count_named-hidden (view now db) k ks))

-- DEL replies with the number of different keys among its arguments that were visible, and takes
-- away just those.
pub del_lem :
    (now : ℕ) (db : Db) (command key : Bytes) (keys : List Bytes)
    → ((del now db (command ∷ key ∷ keys)).1 ≡ count (count_named (view now db) (key ∷ keys)))
      × ((j : Bytes)
          → view now (del now db (command ∷ key ∷ keys)).0 j
            ≡ (if among j (key ∷ keys) then none else view now db j))
unfolding del
del_lem now db command key keys =
    (ap count (remove_all_count now db (key ∷ keys)), view-remove_all now db (key ∷ keys))
