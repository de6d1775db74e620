-- ===== src/Commands/Sets/Members.antt =====
-- The members of the sets that the commands build.
use meebis.Base.{
  ◌+◌, ◌≡◌, refl, ◌∙◌, Bool, false, not, ◌&&◌, ◌||◌, List, [], ◌∷◌, arith, if◌then◌else◌, length,
  length-append,
}
use meebis.Base.Bytes.{Bytes, bytes_eq_iff}
use meebis.Base.HashSet
use meebis.Base.HashSet.{HashSet, IsSetOf, contains-insert, insert-IsSetOf}
use meebis.Commands.Sets.{
  Op, union, inter, diff, collect, flatten, retain, in_all, in_any, compute_setop, insert_all,
}

collect-contains :
    (s : HashSet) (ms : List Bytes) (b : Bytes)
    → HashSet.contains (collect s ms) b ≡ (HashSet.contains s b || HashSet.contains ms b)
unfolding collect HashSet.contains
collect-contains s [] b = ground arith
collect-contains s (m ∷ ms) b =
    ground (arith, collect-contains (HashSet.insert s m).0 ms b, contains-insert s m b)

flatten-contains :
    (s : HashSet) (ts : List HashSet) (b : Bytes)
    → HashSet.contains (flatten s ts) b ≡ (HashSet.contains s b || in_any ts b)
unfolding flatten in_any
flatten-contains s [] b = ground arith
flatten-contains s (t ∷ ts) b =
    ground (arith, flatten-contains (collect s t) ts b, collect-contains s t b)

retain-contains :
    (p : Bytes → Bool) (s : HashSet) (b : Bytes)
    → HashSet.contains (retain p s) b ≡ (HashSet.contains s b && p b)
unfolding retain HashSet.contains
retain-contains p [] b = refl
retain-contains p (m ∷ s) b = ground (arith, retain-contains p s b, bytes_eq_iff m b)

-- Which members the operations give, by the sets in the order of their keys.
abbrev pub belongs : List HashSet → Op → Bytes → Bool
belongs [] op b = false
belongs (s ∷ ss) union b = HashSet.contains s b || belongs ss union b
belongs (s ∷ []) inter b = HashSet.contains s b
belongs (s ∷ t ∷ ss) inter b = HashSet.contains s b && belongs (t ∷ ss) inter b
belongs (s ∷ ss) diff b = HashSet.contains s b && not (belongs ss union b)

in_any-belongs : (ss : List HashSet) (b : Bytes) → in_any ss b ≡ belongs ss union b
unfolding in_any
in_any-belongs [] b = refl
in_any-belongs (s ∷ ss) b = rw (in_any-belongs ss b)

in_all-belongs :
    (s : HashSet) (ss : List HashSet) (b : Bytes)
    → (HashSet.contains s b && in_all ss b) ≡ belongs (s ∷ ss) inter b
unfolding in_all
in_all-belongs s [] b = ground arith
in_all-belongs s (t ∷ ss) b = rw (in_all-belongs t ss b)

setop_members :
    (sets : List HashSet) (op : Op) (b : Bytes)
    → HashSet.contains (compute_setop sets op) b ≡ belongs sets op b
unfolding compute_setop HashSet.contains
setop_members sets union b = flatten-contains [] sets b ∙ in_any-belongs sets b
setop_members [] inter b = refl
setop_members (s ∷ ss) inter b = retain-contains (in_all ss) s b ∙ in_all-belongs s ss b
setop_members [] diff b = refl
setop_members (s ∷ ss) diff b =
    retain-contains (λ m. not (in_any ss m)) s b ∙ rw (in_any-belongs ss b)

collect-IsSetOf : (s : HashSet) (ms : List Bytes) → IsSetOf s → IsSetOf (collect s ms)
unfolding collect
collect-IsSetOf s [] h = h
collect-IsSetOf s (m ∷ ms) h = collect-IsSetOf (HashSet.insert s m).0 ms (insert-IsSetOf s m h)

flatten-IsSetOf : (s : HashSet) (ts : List HashSet) → IsSetOf s → IsSetOf (flatten s ts)
unfolding flatten
flatten-IsSetOf s [] h = h
flatten-IsSetOf s (t ∷ ts) h = flatten-IsSetOf (collect s t) ts (collect-IsSetOf s t h)

retain-IsSetOf : (p : Bytes → Bool) (s : HashSet) → IsSetOf s → IsSetOf (retain p s)
unfolding retain
retain-IsSetOf p [] h = tt
retain-IsSetOf p (m ∷ s) h = ground (arith, retain-contains p s m, retain-IsSetOf p s)

abbrev pub Each : List HashSet → Type 0
Each [] = Unit
Each (s ∷ ss) = IsSetOf s × Each ss

setop-IsSetOf : (sets : List HashSet) (op : Op) → Each sets → IsSetOf (compute_setop sets op)
unfolding compute_setop
setop-IsSetOf sets union h = flatten-IsSetOf [] sets tt
setop-IsSetOf [] inter h = tt
setop-IsSetOf (s ∷ ss) inter h = retain-IsSetOf (in_all ss) s h.0
setop-IsSetOf [] diff h = tt
setop-IsSetOf (s ∷ ss) diff h = retain-IsSetOf (λ m. not (in_any ss m)) s h.0

-- SUNION, SINTER and SDIFF give just the members of any of the sets, of all of them, and of the first
-- but none of the others; each once, where each of the sets holds its members once.
pub compute_setop_lem :
    (sets : List HashSet) (op : Op)
    → Each sets
    → ((b : Bytes) → HashSet.contains (compute_setop sets op) b ≡ belongs sets op b)
      × IsSetOf (compute_setop sets op)
compute_setop_lem sets op h = (setop_members sets op, setop-IsSetOf sets op h)

length-insert :
    (s : HashSet) (m : Bytes)
    → length (HashSet.insert s m).0 ≡ length s + (if (HashSet.insert s m).1 then 1 else 0)
unfolding HashSet.insert
length-insert s m = ground (arith, length-append s (m ∷ []))

pub insert_all_lem :
    (s : HashSet) (ms : List Bytes)
    → ((b : Bytes)
        → HashSet.contains (insert_all s ms).0 b ≡ (HashSet.contains s b || HashSet.contains ms b))
      × (length (insert_all s ms).0 ≡ length s + (insert_all s ms).1)
unfolding insert_all HashSet.contains
insert_all_lem s [] = (λ b. ground arith, omega arith)
insert_all_lem s (m ∷ ms) =
    let s1 : HashSet = (HashSet.insert s m).0 in
    let (members, grown) = insert_all_lem s1 ms in
    (
      λ b. members b ∙ ground (arith, contains-insert s m b),
      grown ∙ ground (arith, length-insert s m),
    )
