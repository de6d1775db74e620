-- ===== src/SortedSet/Indexed.antt =====
-- The index of a sorted set: it is in order, and holds just the members at their scores.
use meebis.Base.{
  ℕ, ◌≡◌, refl, sym, ◌∙◌, Bool, true, false, not, ◌&&◌, ◌||◌, List, [], ◌∷◌, Option, none, some,
  arith, ◌==◌, if◌then◌else◌,
}
use meebis.Base.Bytes.{Bytes, bytes_eq, bytes_eq_iff}
use meebis.Base.HashMap
use meebis.Base.HashMap.{get-insert, get-remove}
use meebis.SortedSet.{
  ZSet, new, total_key, below, same, index_insert, index_remove, insert, insert_over, remove,
  remove_scored,
}
use meebis.SortedSet.Order.{
  below_irrefl, below_trans, below_total, same_sym, same_trans, below-same,
}

abbrev pub holds : ℕ × Bytes → List (ℕ × Bytes) → Bool
holds e [] = false
holds e (x ∷ l) = same x e || holds e l

-- Whether a member has this score.
abbrev pub scored : ℕ → Option ℕ → Bool
scored s none = false
scored s (some t) = total_key t == total_key s

abbrev pub Above : ℕ × Bytes → List (ℕ × Bytes) → Type 0
Above e [] = Unit
Above e (x ∷ l) = (below e x ≡ true) × Above e l

abbrev pub IsSorted : List (ℕ × Bytes) → Type 0
IsSorted [] = Unit
IsSorted (x ∷ l) = Above x l × IsSorted l

Above-trans : (d e : ℕ × Bytes) (l : List (ℕ × Bytes)) → below d e ≡ true → Above e l → Above d l
Above-trans d e [] h k = tt
Above-trans d e (x ∷ l) h k = (below_trans d e x h k.0, Above-trans d e l h k.1)

Above-same : (d e : ℕ × Bytes) (l : List (ℕ × Bytes)) → same d e ≡ true → Above d l → Above e l
Above-same d e [] h k = tt
Above-same d e (x ∷ l) h k = (sym (below-same d e x h) ∙ k.0, Above-same d e l h k.1)

Above-holds : (e : ℕ × Bytes) (l : List (ℕ × Bytes)) → Above e l → holds e l ≡ false
Above-holds e [] h = refl
Above-holds e (x ∷ l) h = ground (arith, below_irrefl e x, same_sym e x, Above-holds e l h.1)

holds-same : (d e : ℕ × Bytes) (l : List (ℕ × Bytes)) → same d e ≡ true → holds d l ≡ holds e l
holds-same d e [] h = refl
holds-same d e (x ∷ l) h =
    ground (arith, same_trans d e x, same_sym d x, same_sym e x, holds-same d e l h)

holds-index_insert :
    (e f : ℕ × Bytes) (l : List (ℕ × Bytes)) → holds f (index_insert e l) ≡ (same e f || holds f l)
unfolding index_insert
holds-index_insert e f [] = ground arith
holds-index_insert e f (x ∷ l) =
    ground (arith, same_trans e x f, same_sym e x, holds-index_insert e f l)

insert-Above :
    (d e : ℕ × Bytes) (l : List (ℕ × Bytes))
    → below d e ≡ true
    → Above d l
    → Above d (index_insert e l)
unfolding index_insert
insert-Above d e [] h k = (h, tt)
insert-Above d e (x ∷ l) h k = ground (arith, insert-Above d e l)

insert-IsSorted : (e : ℕ × Bytes) (l : List (ℕ × Bytes)) → IsSorted l → IsSorted (index_insert e l)
unfolding index_insert
insert-IsSorted e [] h = (tt, tt)
insert-IsSorted e (x ∷ l) h =
    ground (arith, Above-trans e x l, below_total e x, insert-Above x e l, insert-IsSorted e l)

holds-index_remove :
    (e f : ℕ × Bytes) (l : List (ℕ × Bytes))
    → IsSorted l
    → holds f (index_remove e l) ≡ (not (same e f) && holds f l)
unfolding index_remove
holds-index_remove e f [] h = ground arith
holds-index_remove e f (x ∷ l) h = ground (
  arith,
  same_trans e x f,
  same_sym e x,
  same_trans x f e,
  same_sym f e,
  Above-holds x l,
  holds-same x f l,
  holds-index_remove e f l,
)

remove-Above : (d e : ℕ × Bytes) (l : List (ℕ × Bytes)) → Above d l → Above d (index_remove e l)
unfolding index_remove
remove-Above d e [] h = tt
remove-Above d e (x ∷ l) h = ground (arith, remove-Above d e l)

remove-IsSorted : (e : ℕ × Bytes) (l : List (ℕ × Bytes)) → IsSorted l → IsSorted (index_remove e l)
unfolding index_remove
remove-IsSorted e [] h = tt
remove-IsSorted e (x ∷ l) h = ground (arith, remove-Above x e l, remove-IsSorted e l)

-- The index is in order, and holds an entry just where the map has its member with its score.
abbrev pub IsIndexed : ZSet → Type 0
IsIndexed z =
    IsSorted z.sorted
    × ((s : ℕ) (m : Bytes) → holds (s, m) z.sorted ≡ scored s (HashMap.get m z.scores))

new-IsIndexed : IsIndexed new
unfolding HashMap.get
new-IsIndexed = (tt, λ s m. refl)

-- After the old entry of a member is out of the index it holds none of that member.
holds_other :
    (z : ZSet) (m : Bytes) (old s : ℕ) (k : Bytes)
    → IsIndexed z
    → HashMap.get m z.scores ≡ some old
    → holds (s, k) (index_remove (old, m) z.sorted)
      ≡ (if bytes_eq m k then false else scored s (HashMap.get k z.scores))
unfolding same
holds_other z m old s k h e =
    ground (arith, holds-index_remove (old, m) (s, k) z.sorted h.0, h.1 s k, bytes_eq_iff m k)

insert_new :
    (z : ZSet) (m : Bytes) (s : ℕ)
    → IsIndexed z
    → HashMap.get m z.scores ≡ none
    → IsIndexed
        (record { sorted = index_insert (s, m) z.sorted; scores = HashMap.insert m s z.scores })
insert_new z m s h e = (
  insert-IsSorted (s, m) z.sorted h.0,
  λ t k.
      unfold same in
      ground (
        arith,
        holds-index_insert (s, m) (t, k) z.sorted,
        h.1 t k,
        get-insert m k s z.scores,
        bytes_eq_iff m k,
      ),
)

insert_again :
    (z : ZSet) (m : Bytes) (s old : ℕ)
    → IsIndexed z
    → HashMap.get m z.scores ≡ some old
    → IsIndexed (record {
      sorted = index_insert (s, m) (index_remove (old, m) z.sorted);
      scores = HashMap.insert m s z.scores;
    })
insert_again z m s old h e = (
  insert-IsSorted (s, m) (index_remove (old, m) z.sorted) (remove-IsSorted (old, m) z.sorted h.0),
  λ t k.
      unfold same in
      ground (
        arith,
        holds-index_insert (s, m) (t, k) (index_remove (old, m) z.sorted),
        holds_other z m old t k h e,
        get-insert m k s z.scores,
        bytes_eq_iff m k,
      ),
)

over-IsIndexed :
    (z : ZSet) (m : Bytes) (s : ℕ) (o : Option ℕ)
    → IsIndexed z
    → HashMap.get m z.scores ≡ o
    → IsIndexed (insert_over z m s o).0
unfolding insert_over
over-IsIndexed z m s none h e = insert_new z m s h e
over-IsIndexed z m s (some old) h e = insert_again z m s old h e

pub insert-IsIndexed : (z : ZSet) (m : Bytes) (s : ℕ) → IsIndexed z → IsIndexed (insert z m s).0
unfolding insert
insert-IsIndexed z m s h = over-IsIndexed z m s (HashMap.get m z.scores) h refl

removed-IsIndexed :
    (z : ZSet) (m : Bytes) (o : Option ℕ)
    → IsIndexed z
    → HashMap.get m z.scores ≡ o
    → IsIndexed (remove_scored z m o).0
unfolding remove_scored
removed-IsIndexed z m none h e = h
removed-IsIndexed z m (some old) h e = (
  remove-IsSorted (old, m) z.sorted h.0,
  λ t k. ground (arith, holds_other z m old t k h e, get-remove m k z.scores),
)

pub remove-IsIndexed : (z : ZSet) (m : Bytes) → IsIndexed z → IsIndexed (remove z m).0
unfolding remove
remove-IsIndexed z m h = removed-IsIndexed z m (HashMap.get m z.scores) h refl

-- The calls that change a sorted set.
pub data Change : Type 0 where
  put : Bytes → ℕ → Change
  drop : Bytes → Change

abbrev pub changed : ZSet → List Change → ZSet
changed z [] = z
changed z (put m s ∷ cs) = changed (insert z m s).0 cs
changed z (drop m ∷ cs) = changed (remove z m).0 cs

changed_from : (z : ZSet) (cs : List Change) → IsIndexed z → IsIndexed (changed z cs)
changed_from z [] h = h
changed_from z (put m s ∷ cs) h = changed_from (insert z m s).0 cs (insert-IsIndexed z m s h)
changed_from z (drop m ∷ cs) h = changed_from (remove z m).0 cs (remove-IsIndexed z m h)

-- After any calls of `insert` and `remove`, from the empty set, the index is strictly in order, and it
-- holds a score with a member just where the map gives that member that score.
pub changed-IsIndexed : (cs : List Change) → IsIndexed (changed new cs)
changed-IsIndexed cs = changed_from new cs new-IsIndexed
