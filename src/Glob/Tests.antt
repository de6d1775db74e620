-- ===== src/Glob/Tests.antt =====
-- Runs of the matcher, the unit tests of src/db.rs among them.
use meebis.Base.{◌≡◌, ◌↔◌, refl, true, false}
use meebis.Base.Bytes.{codes}
use meebis.Glob.{glob_match}
use meebis.Glob.Matches.{Matches}
use meebis.Glob.Agree.{glob_match_iff}

stars :
    (glob_match (codes "h*o") (codes "hbthbtho") ≡ true)
    × (glob_match (codes "h*o") (codes "hbthbthx") ≡ false)
unfolding glob_match
stars = (refl, refl)

classes :
    (glob_match (codes "h[a-c]llo") (codes "hbllo") ≡ true)
    × (glob_match (codes "h[^e]llo") (codes "hello") ≡ false)
unfolding glob_match
classes = (refl, refl)

glob_match_iff_example :
    (glob_match (codes "h*[^x]o") (codes "hbtho") ≡ true)
    ↔ Matches (codes "h*[^x]o") (codes "hbtho")
glob_match_iff_example = glob_match_iff (codes "h*[^x]o") (codes "hbtho")
