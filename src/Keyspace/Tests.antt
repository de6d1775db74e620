-- ===== src/Keyspace/Tests.antt =====
-- Instances of the theorems about the numbered databases.
use meebis.Base.{ℕ, ◌≡◌, refl, [], ◌∷◌, some, arith, length, if◌then◌else◌, ◌==◌}
use meebis.Base.Bytes.{codes}
use meebis.Db
use meebis.Db.{Db, string, set}
use meebis.Keyspace
use meebis.Keyspace.{Keyspace, both, pair, swap}
use meebis.Keyspace.Laws.{pair_lem, swap_lem}

abbrev filled : Db
filled = set Db.new (codes "k") (string (codes "v"))

abbrev three : Keyspace
three = Db.new ∷ filled ∷ Db.new ∷ []

at_least_one : Keyspace.new 0 ≡ Db.new ∷ []
unfolding Keyspace.new
at_least_one = refl

pair_lem_example : pair three 2 1 ≡ both (Keyspace.db three 2) (Keyspace.db three 1)
pair_lem_example = pair_lem three 2 1 (omega arith)

swap_lem_example :
    (ks' : Keyspace) × (swap three 0 1 ≡ some ks')
    × (length ks' ≡ 3)
    × ((j : ℕ)
        → Keyspace.db ks' j ≡ (
            if 1 == j
            then Keyspace.db three 0
            else if 0 == j
            then Keyspace.db three 1
            else Keyspace.db three j))
swap_lem_example = swap_lem three 0 1 (omega arith) (omega arith)
