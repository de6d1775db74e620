-- ===== src/Commands/Sets/Tests.antt =====
-- Instances of the theorems about the set commands.
use meebis.Base.{ℕ, some, if◌then◌else◌, ◌+◌, ◌≡◌, refl, ◌||◌, List, [], ◌∷◌, length}
use meebis.Base.Bytes.{Bytes, codes, bytes_eq}
use meebis.Base.HashSet
use meebis.Base.HashSet.{HashSet, IsSetOf}
use meebis.Commands.Sets.{compute_setop, diff, sadd}
use meebis.Commands.Sets.Sampling.{distinct_sample}
use meebis.Commands.Sets.Members.{Each, belongs, compute_setop_lem}
use meebis.Commands.Sets.Additions.{sadd_lem, set_entry}
use meebis.Base.HashMap
use meebis.Resp.Frame.{count}
use meebis.Db.{Db, set_of, is_expired}
use meebis.Db.View.{view}

abbrev a : Bytes
a = codes "a"

abbrev b : Bytes
b = codes "b"

abbrev sets : List HashSet
sets = (a ∷ b ∷ []) ∷ (b ∷ []) ∷ []

each : Each sets
unfolding HashSet.contains bytes_eq
each = ((refl, (refl, tt)), ((refl, tt), tt))

compute_setop_lem_example :
    ((m : Bytes) → HashSet.contains (compute_setop sets diff) m ≡ belongs sets diff m)
    × IsSetOf (compute_setop sets diff)
compute_setop_lem_example = compute_setop_lem sets diff each

abbrev store : Db
store = record { table = (codes "k", record { value = set_of (a ∷ []); expire_at = some 9 }) ∷ [] }

sadd_lem_example :
    let (db', reply) = sadd 5 store (codes "SADD" ∷ codes "k" ∷ b ∷ b ∷ []) in
    (s' : HashSet) × (n : ℕ) × (reply ≡ count n)
    × (length s' ≡ length (a ∷ []) + n)
    × IsSetOf s'
    × ((m : Bytes)
        → HashSet.contains s' m ≡ (HashSet.contains (a ∷ []) m || HashSet.contains (b ∷ b ∷ []) m))
    × ((j : Bytes)
        → view 5 db' j ≡ (
            if bytes_eq (codes "k") j
            then set_entry s' (view 5 store (codes "k"))
            else view 5 store j))
unfolding view HashMap.get bytes_eq is_expired HashSet.contains
sadd_lem_example = sadd_lem 5 store (codes "SADD") (codes "k") b (b ∷ []) (a ∷ []) refl (refl, tt)

-- A draw of two members takes two that differ, also where the numbers are equal.
drawn_twice : distinct_sample (λ _. 4) (a ∷ b ∷ []) 2 ≡ a ∷ b ∷ []
unfolding distinct_sample
drawn_twice = refl
