-- ===== src/Base/HashMap.antt =====
-- `HashMap<Bytes, V>` as an association list. The order of the list stands for the table's
-- iteration order, which `std` leaves open; where a result depends on it, it is one of the orders
-- that are possible.
use meebis.Base.{
  ◌≡◌, refl, Bool, true, false, List, [], ◌∷◌, Option, none, some, arith, if◌then◌else◌,
}
use meebis.Base.Bytes.{Bytes, bytes_eq, bytes_eq_iff}

abbrev pub HashMap {ℓ} : Type ℓ → Type ℓ
HashMap V = List (Bytes × V)

module _ {ℓ} {V : Type ℓ} where
  unfoldable pub get : Bytes → HashMap V → Option V
  get k [] = none
  get k ((j, v) ∷ m) = if bytes_eq j k then some v else get k m

  unfoldable pub insert : Bytes → V → HashMap V → HashMap V
  insert k v [] = (k, v) ∷ []
  insert k v ((j, w) ∷ m) = if bytes_eq j k then (k, v) ∷ m else (j, w) ∷ insert k v m

  unfoldable pub remove : Bytes → HashMap V → HashMap V
  remove k [] = []
  remove k ((j, v) ∷ m) = let rest = remove k m in if bytes_eq j k then rest else (j, v) ∷ rest

  -- Keep the entries for which the test holds.
  unfoldable pub retain : (Bytes → V → Bool) → HashMap V → HashMap V
  retain p [] = []
  retain p ((j, v) ∷ m) = let rest = retain p m in if p j v then (j, v) ∷ rest else rest

  abbrev pub contains_key : Bytes → HashMap V → Bool
  contains_key k m = elim (get k m) [ none ↦ false | some _ ↦ true ]

  abbrev pub Distinct : HashMap V → Type ℓ
  Distinct [] = Unit
  Distinct ((j, v) ∷ m) = (get j m ≡ none) × Distinct m

module _ {ℓ} {V : Type ℓ} where
  pub get-insert :
      (k j : Bytes) (v : V) (m : HashMap V)
      → get j (insert k v m) ≡ (if bytes_eq k j then some v else get j m)
  unfolding get insert
  get-insert k j v [] = refl
  get-insert k j v ((i, w) ∷ m) =
      ground (arith, bytes_eq_iff k j, bytes_eq_iff i k, bytes_eq_iff i j, get-insert k j v m)

  pub get-remove :
      (k j : Bytes) (m : HashMap V) → get j (remove k m) ≡ (if bytes_eq k j then none else get j m)
  unfolding get remove
  get-remove k j [] = ground arith
  get-remove k j ((i, w) ∷ m) =
      ground (arith, bytes_eq_iff k j, bytes_eq_iff i k, bytes_eq_iff i j, get-remove k j m)

  -- Keys occur once, so the test sees the one entry of its key.
  pub get-retain :
      (p : Bytes → V → Bool) (j : Bytes) (m : HashMap V)
      → Distinct m
      → get j (retain p m)
        ≡ elim (get j m) [ none ↦ none | some v ↦ if p j v then some v else none ]
  unfolding get retain
  get-retain p j [] h = refl
  get-retain p j ((i, w) ∷ m) h = ground (arith, bytes_eq_iff i j, get-retain p j m)

  get-retain-none :
      (p : Bytes → V → Bool) (j : Bytes) (m : HashMap V)
      → get j m ≡ none
      → get j (retain p m) ≡ none
  unfolding get retain
  get-retain-none p j [] h = refl
  get-retain-none p j ((i, w) ∷ m) h = ground (arith, get-retain-none p j m)

  pub insert-Distinct : (k : Bytes) (v : V) (m : HashMap V) → Distinct m → Distinct (insert k v m)
  unfolding get insert
  insert-Distinct k v [] h = (refl, tt)
  insert-Distinct k v ((i, w) ∷ m) h =
      ground (arith, bytes_eq_iff i k, bytes_eq_iff k i, get-insert k i v m, insert-Distinct k v m)

  pub remove-Distinct : (k : Bytes) (m : HashMap V) → Distinct m → Distinct (remove k m)
  unfolding get remove
  remove-Distinct k [] h = tt
  remove-Distinct k ((i, w) ∷ m) h = ground (arith, get-remove k i m, remove-Distinct k m)

  pub retain-Distinct : (p : Bytes → V → Bool) (m : HashMap V) → Distinct m → Distinct (retain p m)
  unfolding get retain
  retain-Distinct p [] h = tt
  retain-Distinct p ((i, w) ∷ m) h = ground (arith, get-retain-none p i m, retain-Distinct p m)

pub ruleset map_laws = (get-insert, get-remove)
