-- ===== src/SortedSet/Order.antt =====
-- The order of the index: a strict total order on scores and members.
use meebis.Base.{ℕ, ◌≡◌, refl, true, false, [], ◌∷◌, arith}
use meebis.Base.Bytes.{Bytes, bytes_eq, bytes_eq_iff}
use meebis.SortedSet.{bytes_lt, below, same}

bytes_lt_irrefl : (x : Bytes) → bytes_lt x x ≡ false
unfolding bytes_lt
bytes_lt_irrefl [] = refl
bytes_lt_irrefl (a ∷ x) = ground (arith, bytes_lt_irrefl x)

bytes_lt_trans : (x y z : Bytes) → bytes_lt x y ≡ true → bytes_lt y z ≡ true → bytes_lt x z ≡ true
unfolding bytes_lt
bytes_lt_trans [] [] z h k = k
bytes_lt_trans [] (b ∷ y) [] h k = cc k
bytes_lt_trans [] (b ∷ y) (c ∷ z) h k = refl
bytes_lt_trans (a ∷ x) [] z h k = cc h
bytes_lt_trans (a ∷ x) (b ∷ y) [] h k = cc k
bytes_lt_trans (a ∷ x) (b ∷ y) (c ∷ z) h k = ground (arith, bytes_lt_trans x y z)

bytes_lt_total : (x y : Bytes) → bytes_lt x y ≡ false → bytes_eq x y ≡ false → bytes_lt y x ≡ true
unfolding bytes_lt bytes_eq
bytes_lt_total [] [] h k = cc k
bytes_lt_total [] (b ∷ y) h k = cc h
bytes_lt_total (a ∷ x) [] h k = refl
bytes_lt_total (a ∷ x) (b ∷ y) h k = ground (arith, bytes_lt_total x y)

-- Equal members are one member.
pub below_irrefl : (e x : ℕ × Bytes) → same e x ≡ true → below e x ≡ false
unfolding below same
below_irrefl (a, x) (b, y) h = ground (arith, bytes_eq_iff x y, bytes_lt_irrefl x)

pub below_trans : (d e f : ℕ × Bytes) → below d e ≡ true → below e f ≡ true → below d f ≡ true
unfolding below
below_trans (a, x) (b, y) (c, z) h k = ground (arith, bytes_lt_trans x y z)

pub below_total : (e f : ℕ × Bytes) → below e f ≡ false → same e f ≡ false → below f e ≡ true
unfolding below same
below_total (a, x) (b, y) h k = ground (arith, bytes_lt_total x y)

pub same_sym : (e f : ℕ × Bytes) → same e f ≡ same f e
unfolding same
same_sym (a, x) (b, y) = ground (arith, bytes_eq_iff x y, bytes_eq_iff y x)

pub same_trans : (d e f : ℕ × Bytes) → same d e ≡ true → same d f ≡ same e f
unfolding same
same_trans (a, x) (b, y) (c, z) h = ground (arith, bytes_eq_iff x y)

-- The order does not tell entries with the same key apart.
pub below-same : (d e f : ℕ × Bytes) → same d e ≡ true → below d f ≡ below e f
unfolding below same
below-same (a, x) (b, y) (c, z) h = ground (arith, bytes_eq_iff x y)
