-- ===== src/Commands/Hashes/Tests.antt =====
-- The hash commands on concrete inputs.
use meebis.Base.{ℕ, ◌+◌, ◌≡◌, refl, false, List, [], ◌∷◌, some, if◌then◌else◌, length}
use meebis.Base.Bytes.{Bytes, codes, bytes_eq}
use meebis.Base.HashMap
use meebis.Base.HashMap.{HashMap}
use meebis.Base.Int.{pos, negsuc}
use meebis.Resp.Frame.{count, ok}
use meebis.Db.{Db, hash, is_expired}
use meebis.Db.View.{view}
use meebis.Commands.Strings.Pairs.{last_value}
use meebis.Commands.Hashes.{hset}
use meebis.Commands.Hashes.Draws.{pick}
use meebis.Commands.Hashes.Fields.{hset_lem, later, hash_entry}

abbrev fields : HashMap Bytes
fields = (codes "f", codes "1") ∷ []

abbrev store : Db
store = record { table = (codes "k", record { value = hash fields; expire_at = some 9 }) ∷ [] }

abbrev pairs : List Bytes
pairs = codes "f" ∷ codes "2" ∷ codes "g" ∷ codes "3" ∷ codes "g" ∷ codes "4" ∷ []

hset_lem_example :
    let (db', reply) = hset 5 store (codes "HSET" ∷ codes "k" ∷ pairs) false in
    (h' : HashMap Bytes) × (n : ℕ) × (reply ≡ (if false then ok else count n))
    × (length h' ≡ length fields + n)
    × ((f : Bytes) → HashMap.get f h' ≡ later (last_value pairs f) (HashMap.get f fields))
    × ((j : Bytes)
        → view 5 db' j ≡ (
            if bytes_eq (codes "k") j
            then hash_entry h' (view 5 store (codes "k"))
            else view 5 store j))
unfolding view HashMap.get bytes_eq is_expired
hset_lem_example = hset_lem 5 store (codes "HSET") (codes "k") pairs false fields refl refl

abbrev two_fields : HashMap Bytes
two_fields = (codes "f", codes "1") ∷ (codes "g", codes "2") ∷ []

-- A negative count may repeat a field, a positive one takes each at most once.
picked_again :
    pick (λ _. 4) two_fields (negsuc 1) ≡ (codes "f", codes "1") ∷ (codes "f", codes "1") ∷ []
unfolding pick
picked_again = refl

picked_once : pick (λ _. 4) two_fields (pos 3) ≡ two_fields
unfolding pick
picked_once = refl
