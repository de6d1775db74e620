-- ===== src/Commands/Lists/Search/Removals.antt =====
-- LREM: what is removed and counted.
use mathlib.Core.List.{reverse, reverse-cons}
use meebis.Base.{
  ℕ, zero, suc, ◌+◌, ◌≡◌, refl, ◌∙◌, ap, List, [], ◌∷◌, ◌++◌, Option, some, arith, min,
  if◌then◌else◌,
}
use meebis.Base.Bytes.{Bytes, bytes_eq}
use meebis.Base.Int.{ℤ, pos, negsuc}
use meebis.Resp.Frame.{Frame, count}
use meebis.Db.{Db, list, value_of}
use meebis.Db.Typed.{typed, get_list}
use meebis.Db.View.{view}
use meebis.Db.Purged.{get_list_result, view-get_list, get_list-IsPurged}
use meebis.Db.Writes.{rewritten, view-remove_if_empty}
use meebis.Commands.Args.{go, parse_int}
use meebis.Commands.Lists.Search.{remove_front, remove_matches, remove_from, lrem}

-- The list without the first `n` elements that equal the target.
abbrev pub drop_matches : ℕ → Bytes → List Bytes → List Bytes
drop_matches zero target l = l
drop_matches (suc n) target [] = []
drop_matches (suc n) target (x ∷ l) =
    if bytes_eq x target then drop_matches n target l else x ∷ drop_matches (suc n) target l

abbrev pub occurrences : Bytes → List Bytes → ℕ
occurrences target [] = 0
occurrences target (x ∷ l) = let n = occurrences target l in if bytes_eq x target then suc n else n

remove_front-drop :
    (target : Bytes) (n r : ℕ) (l : List Bytes)
    → remove_front target (pos (n + r)) r l
      ≡ (drop_matches n target l, r + min n (occurrences target l))
unfolding remove_front
remove_front-drop target zero r [] = ground arith
remove_front-drop target (suc n) r [] = ground arith
remove_front-drop target zero r (x ∷ l) = ground arith
remove_front-drop target (suc n) r (x ∷ l) =
    let shifted : remove_front target (pos (suc n + r)) (suc r) l
        ≡ (drop_matches n target l, suc r + min n (occurrences target l)) =
      ap (λ k. remove_front target (pos k) (suc r) l) (omega arith)
      ∙ remove_front-drop target n (suc r) l in
    rw (shifted, remove_front-drop target (suc n) r l) (ground arith)

occurrences-append :
    (target : Bytes) (l m : List Bytes)
    → occurrences target (l ++ m) ≡ occurrences target l + occurrences target m
occurrences-append target [] m = omega arith
occurrences-append target (x ∷ l) m = ground (arith, occurrences-append target l m)

occurrences-reverse :
    (target : Bytes) (l : List Bytes) → occurrences target (reverse l) ≡ occurrences target l
occurrences-reverse target [] = refl
occurrences-reverse target (x ∷ l) =
    rw (reverse-cons, occurrences-append target (reverse l) (x ∷ []), occurrences-reverse target l)
      (ground arith)

-- What LREM leaves of a list: without the first `n` matches, or without the last `n`.
abbrev pub removal : ℤ → Bytes → List Bytes → List Bytes
removal (pos n) target l = drop_matches n target l
removal (negsuc n) target l = reverse (drop_matches (suc n) target (reverse l))

abbrev pub removed_count : ℤ → Bytes → List Bytes → ℕ
removed_count (pos n) target l = min n (occurrences target l)
removed_count (negsuc n) target l = min (suc n) (occurrences target l)

from_zero :
    (target : Bytes) (n : ℕ) (l : List Bytes)
    → remove_front target (pos n) 0 l ≡ (drop_matches n target l, min n (occurrences target l))
from_zero target n l =
    ap (λ k. remove_front target (pos k) 0 l) (omega arith)
    ∙ remove_front-drop target n 0 l
    ∙ ap (λ k. (drop_matches n target l, k)) (omega arith)

front_zero : (target : Bytes) (l : List Bytes) → remove_front target (negsuc 0) 0 l ≡ (l, 0)
unfolding remove_front
front_zero target [] = refl
front_zero target (x ∷ l) = refl

pub remove_matches-removal :
    (n : ℤ) (target : Bytes) (l : List Bytes)
    → remove_matches n target l ≡ (removal n target l, removed_count n target l)
unfolding remove_matches
remove_matches-removal (pos zero) target l = front_zero target l ∙ ground arith
remove_matches-removal (pos (suc n)) target l = from_zero target (suc n) l
remove_matches-removal (negsuc n) target l =
    let found : remove_front target (pos (suc n)) 0 (reverse l)
        ≡ (drop_matches (suc n) target (reverse l), min (suc n) (occurrences target l)) =
      from_zero target (suc n) (reverse l) ∙ rw (occurrences-reverse target l) in
    rw found

-- LREM on a visible list removes the first `n` matches, or the last `n` where the count is negative,
-- or all of them where there are fewer; the reply is their number. A count of 0 removes nothing. The
-- list keeps its expiry, and is gone where it was emptied; every other key is seen as before.
pub lrem_lem :
    (now : ℕ) (db : Db) (command key a target : Bytes) (n : ℤ) (l : List Bytes) (t : Option ℕ)
    → view now db key ≡ some (record { value = list l; expire_at = t })
    → parse_int a ≡ go n
    → let run : Db × Frame = lrem now db (command ∷ key ∷ a ∷ target ∷ []) in
      (run.1 ≡ count (removed_count n target l))
      × ((j : Bytes)
          → view now run.0 j ≡ (
              if bytes_eq key j
              then rewritten (list (removal n target l)) (view now db key)
              else view now db j))
unfolding lrem remove_from
lrem_lem now db command key a target n l t p q =
    let found : (get_list now db key).1 ≡ typed (some l) =
      get_list_result now db key ∙ rw p (unfold value_of in refl) in
    let db1 : Db = (get_list now db key).0 in
    rw (q, found, remove_matches-removal n target l)
      (
        refl,
        λ j.
            view-remove_if_empty now db1 key (list (removal n target l)) j
              (get_list-IsPurged now db key)
            ∙ rw (view-get_list now db key key, view-get_list now db key j),
      )
