-- ===== src/SortedSet/Tests.antt =====
-- Instances of the theorems about sorted sets.
use meebis.Base.{List, [], ◌∷◌}
use meebis.Base.Bytes.{codes}
use meebis.SortedSet.{new}
use meebis.SortedSet.Indexed
use meebis.SortedSet.Indexed.{Change, IsIndexed, changed, changed-IsIndexed}

-- A member that is added, moved to another score and removed beside one that stays.
abbrev changes : List Change
changes =
    Indexed.put (codes "a") 7
    ∷ Indexed.put (codes "b") 7
    ∷ Indexed.put (codes "a") 3
    ∷ Indexed.drop (codes "b")
    ∷ []

changed-IsIndexed_example : IsIndexed (changed new changes)
changed-IsIndexed_example = changed-IsIndexed changes
