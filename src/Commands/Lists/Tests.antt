-- ===== src/Commands/Lists/Tests.antt =====
-- Instances of the theorems about the list commands.
use meebis.Base.{◌+◌, ◌≡◌, refl, true, false, List, [], ◌∷◌, none, some, if◌then◌else◌, get_elem?}
use meebis.Base.HashMap
use meebis.Base.Bytes.{Bytes, codes, bytes_eq}
use meebis.Base.Int.{pos, negsuc, pos_part, ltb_ℤ}
use meebis.Base.Decimal.{parse_i64}
use meebis.Resp.Frame.{array, bulk, bulks, count, ok}
use meebis.Db
use meebis.Db.{Db, Entry, list, expiry_of, is_expired}
use meebis.Db.Typed.{typed}
use meebis.Db.View.{view}
use meebis.Db.Writes.{rewritten, list_or_empty}
use meebis.Commands.Args.{go, parse_int, norm_index}
use meebis.Commands.Lists.{push, pop, list_range}
use meebis.Commands.Lists.Pushes.{receiver, push_answer, after_push, push_lem}
use meebis.Commands.Lists.Pops.{pops, leftover, pop_lem}
use meebis.Commands.Lists.Ranges.{get_elem?-list_range}
use meebis.Commands.Lists.Search.{lrem}
use meebis.Commands.Lists.Search.Removals.{removal, removed_count, lrem_lem}
use meebis.Commands.Lists.Transfer.{ltrim, move_elem, rpoplpush}
use meebis.Commands.Lists.Transfer.Trims.{ltrim_lem}
use meebis.Commands.Lists.Transfer.Moves.{
  joined, without_elem, move_elem_lem, rpoplpush_rotates, rpoplpush_forgets,
}

abbrev key : Bytes
key = codes "k"

abbrev a : Bytes
a = codes "a"

abbrev b : Bytes
b = codes "b"

abbrev holding : List Bytes → Db
holding l = Db.put Db.new key (list l) (some 50)

abbrev aba : List Bytes
aba = a ∷ b ∷ a ∷ []

stored :
    (l : List Bytes)
    → view 20 (holding l) key ≡ some (record { value = list l; expire_at = some 50 })
unfolding view Db.put is_expired HashMap.get HashMap.insert bytes_eq
stored l = refl

one : parse_int (codes "1") ≡ go (pos 1)
unfolding parse_int parse_i64
one = refl

zero : parse_int (codes "0") ≡ go (pos 0)
unfolding parse_int parse_i64
zero = refl

push_lem_example :
    ((push 20 (holding aba) (codes "RPUSHX" ∷ key ∷ b ∷ []) false true).1
      ≡ push_answer false (b ∷ []) (receiver true (view 20 (holding aba) key)))
    × ((j : Bytes)
        → view 20 (push 20 (holding aba) (codes "RPUSHX" ∷ key ∷ b ∷ []) false true).0 j ≡ (
            if bytes_eq key j
            then after_push false
                (b ∷ [])
                (receiver true (view 20 (holding aba) key))
                (view 20 (holding aba) key)
            else view 20 (holding aba) j))
push_lem_example = push_lem 20 (holding aba) (codes "RPUSHX") key b [] false true

pop_lem_example :
    ((pop 20 (holding aba) (codes "RPOP" ∷ key ∷ codes "1" ∷ []) false).1
      ≡ array (bulks (pops false 1 aba)))
    × ((j : Bytes)
        → view 20 (pop 20 (holding aba) (codes "RPOP" ∷ key ∷ codes "1" ∷ []) false).0 j ≡ (
            if bytes_eq key j
            then rewritten (list (leftover false 1 aba)) (view 20 (holding aba) key)
            else view 20 (holding aba) j))
pop_lem_example =
    pop_lem 20 (holding aba) (codes "RPOP") key (codes "1") false 1 aba (some 50) (stored aba) one

-- LREM k 0 a, which leaves all three elements.
lrem_lem_example :
    ((lrem 20 (holding aba) (codes "LREM" ∷ key ∷ codes "0" ∷ a ∷ [])).1
      ≡ count (removed_count (pos 0) a aba))
    × ((j : Bytes)
        → view 20 (lrem 20 (holding aba) (codes "LREM" ∷ key ∷ codes "0" ∷ a ∷ [])).0 j ≡ (
            if bytes_eq key j
            then rewritten (list (removal (pos 0) a aba)) (view 20 (holding aba) key)
            else view 20 (holding aba) j))
lrem_lem_example =
    lrem_lem 20 (holding aba) (codes "LREM") key (codes "0") a (pos 0) aba (some 50) (stored aba)
      zero

ltrim_lem_example :
    ((ltrim 20 (holding aba) (codes "LTRIM" ∷ key ∷ codes "0" ∷ codes "1" ∷ [])).1 ≡ ok)
    × ((j : Bytes)
        → view 20 (ltrim 20 (holding aba) (codes "LTRIM" ∷ key ∷ codes "0" ∷ codes "1" ∷ [])).0 j
          ≡ (if bytes_eq key j
              then rewritten (list (list_range (pos 0) (pos 1) aba)) (view 20 (holding aba) key)
              else view 20 (holding aba) j))
ltrim_lem_example =
    ltrim_lem 20 (holding aba) (codes "LTRIM") key (codes "0") (codes "1") (pos 0) (pos 1) aba
      (some 50) (stored aba) zero one

get_elem?-list_range_example : get_elem? (list_range (negsuc 1) (negsuc 0) aba) 1 ≡ (
    if ltb_ℤ (norm_index (negsuc 0) 3) (pos (pos_part (norm_index (negsuc 1) 3) + 1))
    then none
    else get_elem? aba (pos_part (norm_index (negsuc 1) 3) + 1))
get_elem?-list_range_example = get_elem?-list_range (negsuc 1) (negsuc 0) aba 1

vacant :
    list_or_empty (without_elem (view 20 (holding aba)) key (b ∷ a ∷ []) (codes "d")) ≡ typed []
unfolding view Db.put is_expired HashMap.get HashMap.insert bytes_eq
vacant = refl

move_elem_lem_example :
    ((move_elem 20 (holding aba) key (codes "d") true false).1 ≡ bulk a)
    × ((j : Bytes)
        → view 20 (move_elem 20 (holding aba) key (codes "d") true false).0 j ≡ (
            if bytes_eq (codes "d") j
            then some (record {
              value = list (joined false a []);
              expire_at =
                  expiry_of (without_elem (view 20 (holding aba)) key (b ∷ a ∷ []) (codes "d"));
            })
            else without_elem (view 20 (holding aba)) key (b ∷ a ∷ []) j))
move_elem_lem_example =
    move_elem_lem 20 (holding aba) key (codes "d") a true false (b ∷ a ∷ []) [] (some 50)
      (stored aba) vacant

rpoplpush_rotates_example :
    ((rpoplpush 20 (holding aba) (codes "RPOPLPUSH" ∷ key ∷ key ∷ [])).1 ≡ bulk a)
    × (view 20 (rpoplpush 20 (holding aba) (codes "RPOPLPUSH" ∷ key ∷ key ∷ [])).0 key
        ≡ some (record { value = list (a ∷ a ∷ b ∷ []); expire_at = some 50 }))
rpoplpush_rotates_example =
    rpoplpush_rotates 20 (holding aba) (codes "RPOPLPUSH") key a a (b ∷ []) (some 50) (stored aba)

rpoplpush_forgets_example :
    ((rpoplpush 20 (holding (a ∷ [])) (codes "RPOPLPUSH" ∷ key ∷ key ∷ [])).1 ≡ bulk a)
    × (view 20 (rpoplpush 20 (holding (a ∷ [])) (codes "RPOPLPUSH" ∷ key ∷ key ∷ [])).0 key
        ≡ some (record { value = list (a ∷ []); expire_at = none }))
rpoplpush_forgets_example =
    rpoplpush_forgets 20 (holding (a ∷ [])) (codes "RPOPLPUSH") key a (some 50) (stored (a ∷ []))
