-- ===== src/Base/HashSet.antt =====
-- `HashSet<Bytes>` as a list, in one of the possible iteration orders. `insert` and `remove` also
-- return whether they changed the set.
use meebis.Base.{
  ◌≡◌, refl, Bool, true, false, ◌||◌, ◌&&◌, not, List, [], ◌∷◌, ◌++◌, arith, if◌then◌else◌,
}
use meebis.Base.Bytes.{Bytes, bytes_eq, bytes_eq_iff}

abbrev pub HashSet : Type 0
HashSet = List Bytes

unfoldable pub contains : HashSet → Bytes → Bool
contains [] a = false
contains (x ∷ xs) a = bytes_eq x a || contains xs a

erase : Bytes → HashSet → HashSet
erase a [] = []
erase a (x ∷ xs) = let rest = erase a xs in if bytes_eq x a then rest else x ∷ rest

unfoldable pub insert : HashSet → Bytes → HashSet × Bool
insert s a = if contains s a then (s, false) else (s ++ (a ∷ []), true)

unfoldable pub remove : HashSet → Bytes → HashSet × Bool
unfolding erase
remove s a = (erase a s, contains s a)

abbrev pub IsSetOf : HashSet → Type 0
IsSetOf [] = Unit
IsSetOf (x ∷ xs) = (contains xs x ≡ false) × IsSetOf xs

contains-append_one :
    (s : HashSet) (a b : Bytes) → contains (s ++ (a ∷ [])) b ≡ (contains s b || bytes_eq a b)
unfolding contains
contains-append_one [] a b = ground arith
contains-append_one (x ∷ s) a b = ground (arith, contains-append_one s a b)

contains-erase :
    (a b : Bytes) (s : HashSet) → contains (erase a s) b ≡ (not (bytes_eq a b) && contains s b)
unfolding contains erase
contains-erase a b [] = ground arith
contains-erase a b (x ∷ s) =
    ground (arith, contains-erase a b s, bytes_eq_iff x a, bytes_eq_iff x b, bytes_eq_iff a b)

pub contains-insert :
    (s : HashSet) (a b : Bytes) → contains (insert s a).0 b ≡ (contains s b || bytes_eq a b)
unfolding insert
contains-insert s a b = ground (arith, contains-append_one s a b, bytes_eq_iff a b)

pub contains-remove :
    (s : HashSet) (a b : Bytes) → contains (remove s a).0 b ≡ (not (bytes_eq a b) && contains s b)
unfolding remove
contains-remove s a b = contains-erase a b s

append_one-IsSetOf :
    (s : HashSet) (a : Bytes) → IsSetOf s → contains s a ≡ false → IsSetOf (s ++ (a ∷ []))
unfolding contains
append_one-IsSetOf [] a h n = (refl, tt)
append_one-IsSetOf (x ∷ s) a h n =
    ground
      (arith, contains-append_one s a x, bytes_eq_iff a x, bytes_eq_iff x a, append_one-IsSetOf s a)

erase-IsSetOf : (a : Bytes) (s : HashSet) → IsSetOf s → IsSetOf (erase a s)
unfolding erase
erase-IsSetOf a [] h = tt
erase-IsSetOf a (x ∷ s) h = ground (arith, contains-erase a x s, erase-IsSetOf a s)

pub insert-IsSetOf : (s : HashSet) (a : Bytes) → IsSetOf s → IsSetOf (insert s a).0
unfolding insert
insert-IsSetOf s a h = ground (arith, append_one-IsSetOf s a)

pub remove-IsSetOf : (s : HashSet) (a : Bytes) → IsSetOf s → IsSetOf (remove s a).0
unfolding remove
remove-IsSetOf s a h = erase-IsSetOf a s h
