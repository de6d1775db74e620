-- ===== src/Commands/Lists/Pops.antt =====
-- LPOP and RPOP: what they return and leave.
use mathlib.Core.List.{reverse, reverse-cons, reverse-reverse}
use meebis.Base.{
  ℕ, zero, suc, ◌≤◌, ◌≡◌, refl, sym, ◌∙◌, ap, Bool, true, false, List, [], ◌∷◌, ◌++◌, Option, some,
  arith, if◌then◌else◌, length, take, drop, length-append,
}
use meebis.Base.Bytes.{Bytes, bytes_eq}
use meebis.Resp.Frame.{Frame, array, bulks}
use meebis.Db.{Db, list, value_of}
use meebis.Db.Typed.{typed, get_list}
use meebis.Db.View.{view}
use meebis.Db.Purged.{get_list_result, view-get_list, get_list-IsPurged}
use meebis.Db.Writes.{rewritten, view-remove_if_empty}
use meebis.Commands.Lists.{
  pop_back, pop_end, pop_loop, pop_round, popped, pop_from, min_length, pop, pop_count,
}
use meebis.Commands.Args.{go, parse_int}
use meebis.Base.Int.{pos}

pub pop_back-append : (v : Bytes) (l : List Bytes) → pop_back (l ++ (v ∷ [])) ≡ some (v, l)
unfolding pop_back
pop_back-append v [] = refl
pop_back-append v (x ∷ []) = refl
pop_back-append v (x ∷ y ∷ l) = rw (pop_back-append v (y ∷ l))

take-end : (n : ℕ) (l : List Bytes) → length l ≤ n → take n l ≡ l
take-end zero [] h = refl
take-end zero (x ∷ l) h = absurd (omega arith)
take-end (suc n) [] h = refl
take-end (suc n) (x ∷ l) h = ap (λ m. x ∷ m) (take-end n l (omega arith))

drop-end : (n : ℕ) (l : List Bytes) → length l ≤ n → drop n l ≡ []
drop-end zero [] h = refl
drop-end zero (x ∷ l) h = absurd (omega arith)
drop-end (suc n) [] h = refl
drop-end (suc n) (x ∷ l) h = drop-end n l (omega arith)

loop_left : (n : ℕ) (l : List Bytes) → pop_loop true n l ≡ (take n l, drop n l)
unfolding pop_loop pop_end pop_round
loop_left zero l = refl
loop_left (suc n) [] = loop_left n [] ∙ ground (arith, take-end n [], drop-end n [])
loop_left (suc n) (x ∷ l) = rw (loop_left n l)

loop_right :
    (n : ℕ) (l : List Bytes) → pop_loop false n (reverse l) ≡ (take n l, reverse (drop n l))
unfolding pop_loop pop_end pop_round
loop_right zero l = refl
loop_right (suc n) [] =
    loop_right n [] ∙ rw (take-end n [] (omega arith), drop-end n [] (omega arith))
loop_right (suc n) (x ∷ l) = rw (reverse-cons, pop_back-append x (reverse l), loop_right n l)

length-reverse : (l : List Bytes) → length (reverse l) ≡ length l
length-reverse [] = refl
length-reverse (x ∷ l) =
    rw reverse-cons (omega (arith, length-append (reverse l) (x ∷ []), length-reverse l))

-- The elements that `n` pops take from an end, in the order of the pops, and what they leave.
abbrev pub pops : Bool → ℕ → List Bytes → List Bytes
pops true n l = take n l
pops false n l = take n (reverse l)

abbrev pub leftover : Bool → ℕ → List Bytes → List Bytes
leftover true n l = drop n l
leftover false n l = reverse (drop n (reverse l))

loop_lem :
    (left : Bool) (n : ℕ) (l : List Bytes) → pop_loop left n l ≡ (pops left n l, leftover left n l)
loop_lem true n l = loop_left n l
loop_lem false n l = ap (pop_loop false n) (sym (reverse-reverse l)) ∙ loop_right n (reverse l)

-- Popping more often than there are elements is popping each of them.
min_length_lem :
    (left : Bool) (n : ℕ) (l : List Bytes)
    → (pops left (min_length n l) l ≡ pops left n l)
      × (leftover left (min_length n l) l ≡ leftover left n l)
min_length_lem true n l =
    ground (arith, take-end n l, take-end (length l) l, drop-end n l, drop-end (length l) l)
min_length_lem false n l = ground (
  arith,
  length-reverse l,
  take-end n (reverse l),
  take-end (length l) (reverse l),
  drop-end n (reverse l),
  drop-end (length l) (reverse l),
)

-- LPOP and RPOP with a count, on a visible list: the reply is the array of that many elements from the
-- end asked for, or of all where there are fewer. The list loses them and keeps its expiry, and is
-- gone where it was emptied; every other key is seen as before.
pub pop_lem :
    (now : ℕ) (db : Db) (command key a : Bytes) (left : Bool) (n : ℕ) (l : List Bytes)
    (t : Option ℕ)
    → view now db key ≡ some (record { value = list l; expire_at = t })
    → parse_int a ≡ go (pos n)
    → let run : Db × Frame = pop now db (command ∷ key ∷ a ∷ []) left in
      (run.1 ≡ array (bulks (pops left n l)))
      × ((j : Bytes)
          → view now run.0 j ≡ (
              if bytes_eq key j
              then rewritten (list (leftover left n l)) (view now db key)
              else view now db j))
unfolding pop pop_count pop_from popped
pop_lem now db command key a left n l t p q =
    let found : (get_list now db key).1 ≡ typed (some l) =
      get_list_result now db key ∙ rw p (unfold value_of in refl) in
    let db1 : Db = (get_list now db key).0 in
    let (taken, remain) = min_length_lem left n l in
    rw (q, found, loop_lem left (min_length n l) l, taken, remain)
      (
        refl,
        λ j.
            view-remove_if_empty now db1 key (list (leftover left n l)) j
              (get_list-IsPurged now db key)
            ∙ rw (view-get_list now db key key, view-get_list now db key j),
      )
