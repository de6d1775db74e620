-- ===== src/Db/Tests.antt =====
-- Instances of the theorems about databases.
use meebis.Base.{◌≡◌, [], ◌∷◌, some, arith, List, ℕ}
use meebis.Base.Bytes.{Bytes, codes}
use meebis.Db
use meebis.Db.{Db, string}
use meebis.Db.Refines
use meebis.Db.Refines.{Call}
use meebis.Db.View.{view}

abbrev k : Bytes
k = codes "k"

abbrev script : List (ℕ × Call)
script =
    (10, Refines.put k (string (codes "v")) (some 20))
    ∷ (15, Refines.rename k (codes "j"))
    ∷ (16, Refines.update (codes "j") (string (codes "w")))
    ∷ (20, Refines.sweep_expired)
    ∷ (21, Refines.get (codes "j"))
    ∷ []

run-eq-run_spec_example : Refines.run Db.new script ≡ Refines.run_spec (view 5 Db.new) script
run-eq-run_spec_example = Refines.run-eq-run_spec 5 Db.new script tt (omega arith)
