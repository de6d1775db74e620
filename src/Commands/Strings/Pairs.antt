-- ===== src/Commands/Strings/Pairs.antt =====
-- MSET and MSETNX: the last value of a key wins, and MSETNX writes all or nothing.
use meebis.Base.{
  ℕ, ◌≡◌, refl, Bool, true, false, ◌||◌, List, [], ◌∷◌, Option, none, some, arith, ltb,
  if◌then◌else◌, length, ◌%◌, ◌==◌, not, drop,
}
use meebis.Base.Bytes.{Bytes, bytes_eq}
use meebis.Resp.Frame.{Frame, count, ok}
use meebis.Db.{Db, Entry, string, is_some, contains, set}
use meebis.Db.View.{view}
use meebis.Db.Laws.{view-set, view-contains, contains_result}
use meebis.Commands.Strings.{write_pairs, any_present, mset, msetnx}

-- The last value that a list of keys and values gives to a key.
abbrev pub last_value : List Bytes → Bytes → Option Bytes
last_value [] j = none
last_value (k ∷ []) j = none
last_value (k ∷ v ∷ rest) j = elim (last_value rest j) [
  | some w ↦ some w
  | none ↦ if bytes_eq k j then some v else none
]

abbrev pub overlay : Option Bytes → Option Entry → Option Entry
overlay none old = old
overlay (some v) old = some (record { value = string v; expire_at = none })

pub view-write_pairs :
    (now : ℕ) (db : Db) (l : List Bytes) (j : Bytes)
    → view now (write_pairs db l) j ≡ overlay (last_value l j) (view now db j)
unfolding write_pairs
view-write_pairs now db [] j = refl
view-write_pairs now db (k ∷ []) j = refl
view-write_pairs now db (k ∷ v ∷ rest) j =
    ground
      (arith, view-set now db k (string v) j, view-write_pairs now (set db k (string v)) rest j)

abbrev pub is_pairs : List Bytes → Bool
is_pairs args = not (ltb (length args) 3 || not (length args % 2 == 1))

not-true : (b : Bool) → not b ≡ true → b ≡ false
not-true true h = cc
not-true false h = refl

-- MSET gives every key its last value, with no expiry, and leaves the other keys.
pub mset_lem :
    (now : ℕ) (db : Db) (args : List Bytes)
    → is_pairs args ≡ true
    → ((mset now db args).1 ≡ ok)
      × ((j : Bytes)
          → view now (mset now db args).0 j ≡ overlay (last_value (drop 1 args) j) (view now db j))
unfolding mset
mset_lem now db args h = rw (not-true _ h) (refl, λ j. view-write_pairs now db (drop 1 args) j)

-- One of the keys of a list of keys and values is visible.
abbrev pub present_among : ℕ → Db → List Bytes → Bool
present_among now db [] = false
present_among now db (k ∷ []) = false
present_among now db (k ∷ v ∷ rest) = is_some (view now db k) || present_among now db rest

pub view-any_present :
    (now : ℕ) (db : Db) (l : List Bytes) (j : Bytes)
    → view now (any_present now db l).0 j ≡ view now db j
unfolding any_present
view-any_present now db [] j = refl
view-any_present now db (k ∷ []) j = refl
view-any_present now db (k ∷ v ∷ rest) j =
    ground (arith, view-contains now db k j, view-any_present now (contains now db k).0 rest j)

present_among_cong :
    (now : ℕ) (a b : Db) (l : List Bytes)
    → ((j : Bytes) → view now a j ≡ view now b j)
    → present_among now a l ≡ present_among now b l
present_among_cong now a b [] h = refl
present_among_cong now a b (k ∷ []) h = refl
present_among_cong now a b (k ∷ v ∷ rest) h = rw (h k, present_among_cong now a b rest h)

any_present_result :
    (now : ℕ) (db : Db) (l : List Bytes) → (any_present now db l).1 ≡ present_among now db l
unfolding any_present
any_present_result now db [] = refl
any_present_result now db (k ∷ []) = refl
any_present_result now db (k ∷ v ∷ rest) = ground (
  arith,
  contains_result now db k,
  any_present_result now (contains now db k).0 rest,
  present_among_cong now (contains now db k).0 db rest (view-contains now db k),
)

msetnx_run :
    (now : ℕ) (db : Db) (l : List Bytes)
    → let (db', present) = any_present now db l in
      let r : Db × Frame = if present then (db', count 0) else (write_pairs db' l, count 1) in
      (r.1 ≡ count (if present_among now db l then 0 else 1))
      × ((j : Bytes)
          → view now r.0 j ≡ (
              if present_among now db l
              then view now db j
              else overlay (last_value l j) (view now db j)))
msetnx_run now db l = (
  ground (arith, any_present_result now db l),
  λ j. ground (
    arith,
    any_present_result now db l,
    view-any_present now db l j,
    view-write_pairs now (any_present now db l).0 l j,
  ),
)

-- MSETNX writes every pair if no key was there, and else nothing.
pub msetnx_lem :
    (now : ℕ) (db : Db) (args : List Bytes)
    → is_pairs args ≡ true
    → let present : Bool = present_among now db (drop 1 args) in
      ((msetnx now db args).1 ≡ count (if present then 0 else 1))
      × ((j : Bytes)
          → view now (msetnx now db args).0 j ≡ (
              if present
              then view now db j
              else overlay (last_value (drop 1 args) j) (view now db j)))
unfolding msetnx
msetnx_lem now db args h = rw (not-true _ h) (msetnx_run now db (drop 1 args))
