-- ===== src/Commands/Lists/Ranges.antt =====
-- LRANGE and LTRIM: the elements of a range.
use meebis.Base.{
  ℕ, zero, suc, ◌+◌, ◌-◌, ◌≤◌, ◌≡◌, refl, sym, ◌∙◌, ap, List, [], ◌∷◌, none, some, arith,
  if◌then◌else◌, length, take, drop, get_elem?, ltb, Option-cases, inl, inr,
}
use meebis.Base.Bytes.{Bytes}
use meebis.Base.Int.{ℤ, pos, negsuc, pos_part, ltb_ℤ}
use meebis.Commands.Args.{norm_index}
use meebis.Commands.Lists.{clamp, clamp_to, between, keep_some, elements, list_range}

drop-some :
    (i : ℕ) (l : List Bytes) (v : Bytes) → get_elem? l i ≡ some v → drop i l ≡ v ∷ drop (suc i) l
drop-some i [] v h = cc h
drop-some zero (x ∷ l) v h = ground arith
drop-some (suc i) (x ∷ l) v h = drop-some i l v h

drop-none : (i : ℕ) (l : List Bytes) → get_elem? l i ≡ none → drop i l ≡ []
drop-none zero [] h = refl
drop-none zero (x ∷ l) h = cc h
drop-none (suc i) [] h = refl
drop-none (suc i) (x ∷ l) h = drop-none i l h

drop_more : (i : ℕ) (l : List Bytes) → drop i l ≡ [] → drop (suc i) l ≡ []
drop_more i [] h = refl
drop_more zero (x ∷ l) h = cc h
drop_more (suc i) (x ∷ l) h = drop_more i l h

take_nothing : (n : ℕ) → ◌≡◌ {A = List Bytes} (take n []) []
take_nothing zero = refl
take_nothing (suc n) = refl

elements-take : (l : List Bytes) (i n : ℕ) → elements l i n ≡ take n (drop i l)
unfolding elements keep_some
elements-take l i zero = refl
elements-take l i (suc n) = elim (Option-cases (get_elem? l i)) [
  | inl gone ↦
      let over : drop i l ≡ [] = drop-none i l gone in
      rw (gone, elements-take l (suc i) n, drop_more i l over, over, take_nothing n)
  | inr (v, found) ↦ rw (found, elements-take l (suc i) n, drop-some i l v found)
]

get_elem?-take :
    (n k : ℕ) (l : List Bytes) → get_elem? (take n l) k ≡ (if ltb k n then get_elem? l k else none)
get_elem?-take zero k l = ground arith
get_elem?-take (suc n) k [] = ground arith
get_elem?-take (suc n) zero (x ∷ l) = ground arith
get_elem?-take (suc n) (suc k) (x ∷ l) = ground (arith, get_elem?-take n k l)

get_elem?-drop : (i k : ℕ) (l : List Bytes) → get_elem? (drop i l) k ≡ get_elem? l (i + k)
get_elem?-drop zero k l = let e : k ≡ 0 + k = omega arith in ap (get_elem? l) e
get_elem?-drop (suc i) k [] = refl
get_elem?-drop (suc i) k (x ∷ l) =
    let e : suc (i + k) ≡ suc i + k = omega arith in get_elem?-drop i k l ∙ ap (get_elem? (x ∷ l)) e

get_elem?-end : (l : List Bytes) (i : ℕ) → length l ≤ i → get_elem? l i ≡ none
get_elem?-end [] i h = refl
get_elem?-end (x ∷ l) zero h = absurd (omega arith)
get_elem?-end (x ∷ l) (suc i) h = get_elem?-end l i (omega arith)

get_elem?-between :
    (l : List Bytes) (start stop i : ℕ)
    → get_elem? (between l (some (start, stop))) i
      ≡ (if ltb i (suc (stop - start)) then get_elem? l (start + i) else none)
unfolding between
get_elem?-between l start stop i =
    rw (elements-take l start (suc (stop - start)))
      (get_elem?-take (suc (stop - start)) i (drop start l) ∙ rw (get_elem?-drop start i l))

get_elem?-nothing : (l : List Bytes) (i : ℕ) → get_elem? (between l none) i ≡ none
unfolding between
get_elem?-nothing l i = refl

between-end :
    (l : List Bytes) (start i : ℕ) (b : ℤ)
    → get_elem? (between l (clamp_to start (length l) b)) i
      ≡ (if ltb_ℤ b (pos (start + i)) then none else get_elem? l (start + i))
unfolding clamp_to
between-end l start i (negsuc s) = unfold between in ground arith
between-end l start i (pos s) = ground (
  arith,
  get_elem?-nothing l i,
  get_elem?-between l start (length l - 1) i,
  get_elem?-between l start s i,
  get_elem?-end l (start + i),
)

-- Each element of the reply of LRANGE: it is the one so many places after the start, as long as that
-- is not behind the end; both count from the back of the list where they are negative.
pub get_elem?-list_range :
    (a b : ℤ) (l : List Bytes) (i : ℕ)
    → let start : ℕ = pos_part (norm_index a (length l)) in
      get_elem? (list_range a b l) i ≡ (
        if ltb_ℤ (norm_index b (length l)) (pos (start + i)) then none else get_elem? l (start + i))
unfolding list_range clamp
get_elem?-list_range a b l i =
    between-end l (pos_part (norm_index a (length l))) i (norm_index b (length l))

take-drop : (start n : ℕ) (l : List Bytes) → drop start (take (start + n) l) ≡ take n (drop start l)
take-drop zero n l = let e : 0 + n ≡ n = omega arith in ap (λ k. take k l) e
take-drop (suc start) n [] =
    ap (drop (suc start)) (take_nothing (suc start + n)) ∙ sym (take_nothing n)
take-drop (suc start) n (x ∷ l) =
    let e : suc start + n ≡ suc (start + n) = omega arith in rw e (take-drop start n l)

pub cut-between :
    (l : List Bytes) (start stop : ℕ)
    → start ≤ stop
    → drop start (take (suc stop) l) ≡ between l (some (start, stop))
unfolding between
cut-between l start stop h =
    let e : suc stop ≡ start + suc (stop - start) = omega arith in
    ap (λ k. drop start (take k l)) e
    ∙ take-drop start (suc (stop - start)) l
    ∙ sym (elements-take l start (suc (stop - start)))
