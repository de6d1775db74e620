-- ===== src/Session/Subscribe/Follows.antt =====
-- How a request may change the registry and the connection's own sets: together, and for this
-- connection only.
use meebis.Base.{ℕ, ◌≡◌, refl, ◌∙◌, false, not, arith, ◌==◌, ==_iff}
use meebis.Base.Bytes.{Bytes, bytes_eq_iff}
use meebis.Base.HashSet
use meebis.Base.HashSet.{HashSet, contains, contains-insert, contains-remove}
use meebis.PubSub.{Registry, add_to, remove_from}
use meebis.PubSub.Registry.{
  at, IsProper, at-add_to, at-remove_from, add_to-IsProper, remove_from-IsProper,
}

contains-insert_flag :
    (set : HashSet) (target : Bytes) → (HashSet.insert set target).1 ≡ not (contains set target)
unfolding HashSet.insert
contains-insert_flag set target = ground arith

contains-remove_flag :
    (set : HashSet) (target : Bytes) → (HashSet.remove set target).1 ≡ contains set target
unfolding HashSet.remove
contains-remove_flag set target = refl

-- From a registry and a set of the client `id` to the next ones.
pub record Follows (id : ℕ) (r : Registry) (set : HashSet) (r' : Registry) (set' : HashSet)
    : Type 0 where
  pub proper : IsProper r → IsProper r'
  pub others : (t : Bytes) (i : ℕ) → (id == i) ≡ false → at r' t i ≡ at r t i
  pub own : ((t : Bytes) → at r t id ≡ contains set t) → (t : Bytes) → at r' t id ≡ contains set' t

pub Follows-refl : (id : ℕ) (r : Registry) (set : HashSet) → Follows id r set r set
Follows-refl id r set = record { proper = λ h. h; others = λ t i h. refl; own = λ h. h }

pub Follows-trans :
    (id : ℕ) (r1 r2 r3 : Registry) (s1 s2 s3 : HashSet)
    → Follows id r1 s1 r2 s2
    → Follows id r2 s2 r3 s3
    → Follows id r1 s1 r3 s3
Follows-trans id r1 r2 r3 s1 s2 s3 f g = record {
  proper = λ h. g.proper (f.proper h);
  others = λ t i h. g.others t i h ∙ f.others t i h;
  own = λ h. g.own (f.own h);
}

pub add_to-Follows :
    (id : ℕ) (target : Bytes) (r : Registry) (set : HashSet)
    → Follows id r set (add_to target id r) (HashSet.insert set target).0
add_to-Follows id target r set = record {
  proper = add_to-IsProper target id r;
  others = λ t i h. ground (arith, at-add_to r target t id i);
  own = λ h t.
      ground (arith, at-add_to r target t id id, contains-insert set target t, h t, ==_iff id id);
}

pub remove_from-Follows :
    (id : ℕ) (target : Bytes) (r : Registry) (set : HashSet)
    → Follows id r set (remove_from target id r) (HashSet.remove set target).0
remove_from-Follows id target r set = record {
  proper = remove_from-IsProper target id r;
  others = λ t i h. ground (arith, at-remove_from r target t id i);
  own = λ h t.
      ground
        (arith, at-remove_from r target t id id, contains-remove set target t, h t, ==_iff id id);
}

-- Where the set says that nothing changed, the registry may stay as it is.
pub insert-Follows :
    (id : ℕ) (target : Bytes) (r : Registry) (set : HashSet)
    → (HashSet.insert set target).1 ≡ false
    → Follows id r set r (HashSet.insert set target).0
insert-Follows id target r set n = record {
  proper = λ h. h;
  others = λ t i h. refl;
  own = λ h t. ground (
    arith,
    contains-insert set target t,
    h t,
    bytes_eq_iff target t,
    contains-insert_flag set target,
  );
}

pub remove-Follows :
    (id : ℕ) (target : Bytes) (r : Registry) (set : HashSet)
    → (HashSet.remove set target).1 ≡ false
    → Follows id r set r (HashSet.remove set target).0
remove-Follows id target r set n = record {
  proper = λ h. h;
  others = λ t i h. refl;
  own = λ h t. ground (
    arith,
    contains-remove set target t,
    h t,
    bytes_eq_iff target t,
    contains-remove_flag set target,
  );
}
