-- ===== src/SortedSet.antt =====
-- src/db.rs: `ZSet`, a map from members to scores with an index in the order of `(score, member)`.
-- A score is the bit pattern of an `f64`.
pub mod Order
pub mod Indexed
mod Tests
use meebis.Base.{
  ℕ, ◌+◌, ◌-◌, ◌*◌, ◌%◌, ◌^◌, Bool, true, false, not, ◌&&◌, ◌||◌, List, [], ◌∷◌, Option, none, some,
  ltb, ◌==◌, if◌then◌else◌, length, suc,
}
use meebis.Base.Bytes.{Bytes, bytes_eq}
use meebis.Base.HashMap
use meebis.Base.HashMap.{HashMap}

-- `f64::total_cmp` compares these keys: a sign bit reverses the order of the patterns.
unfoldable pub total_key : ℕ → ℕ
total_key bits = if ltb bits (2 ^ 63) then bits + 2 ^ 63 else 2 ^ 64 - 1 - bits

-- The order of byte strings.
unfoldable pub bytes_lt : Bytes → Bytes → Bool
bytes_lt [] [] = false
bytes_lt [] (y ∷ ys) = true
bytes_lt (x ∷ xs) [] = false
bytes_lt (x ∷ xs) (y ∷ ys) = ltb x y || (x == y && bytes_lt xs ys)

-- `(OrdF64, Bytes)` in the derived order of pairs.
unfoldable pub below : ℕ × Bytes → ℕ × Bytes → Bool
unfolding total_key
below (a, x) (b, y) =
    ltb (total_key a) (total_key b) || (total_key a == total_key b && bytes_lt x y)

unfoldable pub same : ℕ × Bytes → ℕ × Bytes → Bool
unfolding total_key
same (a, x) (b, y) = total_key a == total_key b && bytes_eq x y

pub record ZSet : Type 0 where
  pub scores : HashMap ℕ
  pub sorted : List (ℕ × Bytes)

abbrev pub new : ZSet
new = record { scores = []; sorted = [] }

-- `BTreeSet::insert` and `BTreeSet::remove`.
pub index_insert : ℕ × Bytes → List (ℕ × Bytes) → List (ℕ × Bytes)
index_insert e [] = e ∷ []
index_insert e (x ∷ xs) =
    if below e x then e ∷ x ∷ xs else if same e x then x ∷ xs else x ∷ index_insert e xs

pub index_remove : ℕ × Bytes → List (ℕ × Bytes) → List (ℕ × Bytes)
index_remove e [] = []
index_remove e (x ∷ xs) = if same e x then xs else x ∷ index_remove e xs

pub len : ZSet → ℕ
len z = length z.scores

pub score : ZSet → Bytes → Option ℕ
score z member = HashMap.get member z.scores

-- By the score that the map has for the member.
pub insert_over : ZSet → Bytes → ℕ → Option ℕ → ZSet × Bool
unfolding index_insert index_remove
insert_over z member s (some old) = (
  record {
    sorted = index_insert (s, member) (index_remove (old, member) z.sorted);
    scores = HashMap.insert member s z.scores;
  },
  false,
)
insert_over z member s none = (
  record { sorted = index_insert (s, member) z.sorted; scores = HashMap.insert member s z.scores },
  true,
)

-- Whether the member is new is the second result.
pub insert : ZSet → Bytes → ℕ → ZSet × Bool
unfolding insert_over
insert z member s = insert_over z member s (HashMap.get member z.scores)

pub remove_scored : ZSet → Bytes → Option ℕ → ZSet × Bool
unfolding index_remove
remove_scored z member none = (z, false)
remove_scored z member (some s) = (
  record { scores = HashMap.remove member z.scores; sorted = index_remove (s, member) z.sorted },
  true,
)

pub remove : ZSet → Bytes → ZSet × Bool
unfolding remove_scored
remove z member = remove_scored z member (HashMap.get member z.scores)

swap_pairs : List (ℕ × Bytes) → List (Bytes × ℕ)
swap_pairs [] = []
swap_pairs ((s, m) ∷ l) = (m, s) ∷ swap_pairs l

pub iter_asc : ZSet → List (Bytes × ℕ)
unfolding swap_pairs
iter_asc z = swap_pairs z.sorted

magnitude : ℕ → ℕ
magnitude bits = bits % 2 ^ 63

is_nan : ℕ → Bool
unfolding magnitude
is_nan bits = ltb (2047 * 2 ^ 52) (magnitude bits)

-- `==` on `f64`: the zeros are equal, and nothing equals a NaN.
pub float_eq : ℕ → ℕ → Bool
unfolding is_nan
float_eq a b =
    not (is_nan a) && not (is_nan b) && (a == b || (magnitude a == 0 && magnitude b == 0))

pub pair_eq : ℕ × Bytes → ℕ × Bytes → Bool
unfolding float_eq
pair_eq (a, x) (b, y) = float_eq a b && bytes_eq x y

-- `take_while(|e| **e != target).count()`, by the derived equality.
steps_to : ℕ × Bytes → List (ℕ × Bytes) → ℕ
unfolding pair_eq
steps_to e [] = 0
steps_to e (x ∷ xs) = let rest = steps_to e xs in if pair_eq x e then 0 else suc rest

pub rank : ZSet → Bytes → Option ℕ
unfolding steps_to
rank z member = elim (HashMap.get member z.scores) [
  | some s ↦ some (steps_to (s, member) z.sorted)
  | none ↦ none
]
