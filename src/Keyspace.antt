-- ===== src/Keyspace.antt =====
-- src/db.rs: `Keyspace`, the numbered databases. `none` is a panic: an index out of range, or a pair
-- of equal ones.
pub mod Laws
mod Tests
use meebis.Base.{
  ℕ, Bool, false, List, map, Option, none, some, ltb, ◌==◌, if◌then◌else◌, length, get_elem?, set,
  replicate, drop, take,
}
use meebis.Base.Int.{ℤ, pos, negsuc}
use meebis.Db
use meebis.Db.{Db}

abbrev pub Keyspace : Type 0
Keyspace = List Db

-- `count.max(1)`
unfoldable pub new : ℕ → Keyspace
new count = replicate (if count == 0 then 1 else count) Db.new

unfoldable pub db : Keyspace → ℕ → Option Db
db ks index = get_elem? ks index

-- A write through `db` or `pair`.
abbrev pub put_db : Keyspace → ℕ → Db → Keyspace
put_db ks index d = set ks index d

pub both : Option Db → Option Db → Option (Db × Db)
both (some x) (some y) = some (x, y)
both _ _ = none

-- `split_at_mut` panics behind the end.
halves : Keyspace → ℕ → Option (Keyspace × Keyspace)
halves ks at = if ltb (length ks) at then none else some (take at ks, drop at ks)

unfoldable pub pair : Keyspace → ℕ → ℕ → Option (Db × Db)
unfolding both halves
pair ks a b =
    if a == b
    then none
    else if ltb a b
    then elim (halves ks b) [
      | none ↦ none
      | some (left, right) ↦ both (get_elem? left a) (get_elem? right 0)
    ]
    else elim (halves ks a) [
      | none ↦ none
      | some (left, right) ↦ both (get_elem? right 0) (get_elem? left b)
    ]

swapped : Keyspace → ℕ → ℕ → Option Db → Option Db → Option Keyspace
swapped ks a b (some x) (some y) = some (set (set ks a y) b x)
swapped ks a b _ _ = none

unfoldable pub swap : Keyspace → ℕ → ℕ → Option Keyspace
unfolding swapped
swap ks a b = swapped ks a b (get_elem? ks a) (get_elem? ks b)

unfoldable pub clear_all : Keyspace → Keyspace
clear_all ks = map Db.clear ks

unfoldable pub is_valid : Keyspace → ℤ → Bool
is_valid ks (pos n) = ltb n (length ks)
is_valid ks (negsuc n) = false

unfoldable pub len : Keyspace → ℕ
len ks = length ks
