-- ===== src/PubSub/Registry.antt =====
-- Who is registered where, after each change of a registry.
use meebis.Base.{
  ℕ, ◌≡◌, refl, ◌∙◌, Bool, false, not, ◌&&◌, ◌||◌, List, [], ◌∷◌, ◌++◌, Option, none, some, arith,
  ◌==◌, if◌then◌else◌, ==_iff, Bool-cases, inl, inr,
}
use meebis.Base.Bytes.{Bytes, bytes_eq, bytes_eq_iff}
use meebis.Base.HashMap
use meebis.Base.HashMap.{get-insert, get-remove, Distinct, insert-Distinct, remove-Distinct}
use meebis.PubSub.{
  Registry, has, subscribers, put_back, keep, with_id, without_id, add_to, remove_at, remove_from,
  remove_everywhere,
}

-- Whether a client is registered at a target.
unfoldable pub at : Registry → Bytes → ℕ → Bool
at r target id = has id (subscribers (HashMap.get target r))

has-append_one : (i id : ℕ) (subs : List ℕ) → has i (subs ++ (id ∷ [])) ≡ (has i subs || id == i)
unfolding has
has-append_one i id [] = ground arith
has-append_one i id (s ∷ subs) = ground (arith, has-append_one i id subs)

has-with_id : (i id : ℕ) (subs : List ℕ) → has i (with_id id subs) ≡ (has i subs || id == i)
unfolding with_id
has-with_id i id subs = ground (arith, has-append_one i id subs, ==_iff id i)

has-without_id :
    (i id : ℕ) (subs : List ℕ) → has i (without_id id subs) ≡ (has i subs && not (id == i))
unfolding has without_id
has-without_id i id [] = refl
has-without_id i id (s ∷ subs) = ground (arith, has-without_id i id subs)

pub at-add_to :
    (r : Registry) (target t : Bytes) (id i : ℕ)
    → at (add_to target id r) t i ≡ (at r t i || (bytes_eq target t && id == i))
unfolding at add_to
at-add_to r target t id i = ground (
  arith,
  get-insert target t (with_id id (subscribers (HashMap.get target r))) r,
  has-with_id i id (subscribers (HashMap.get target r)),
  bytes_eq_iff target t,
)

at-put_back :
    (r : Registry) (target t : Bytes) (i : ℕ) (subs : List ℕ)
    → at (put_back target subs r) t i ≡ (if bytes_eq target t then has i subs else at r t i)
unfolding at
at-put_back r target t i [] = unfold has in ground (arith, get-remove target t r)
at-put_back r target t i (s ∷ subs) = ground (arith, get-insert target t (s ∷ subs) r)

at-none : (r : Registry) (t : Bytes) (i : ℕ) → HashMap.get t r ≡ none → at r t i ≡ false
unfolding at has
at-none r t i h = rw h

at-some :
    (r : Registry) (t : Bytes) (i : ℕ) (subs : List ℕ)
    → HashMap.get t r ≡ some subs
    → at r t i ≡ has i subs
unfolding at
at-some r t i subs h = rw h

at-removed :
    (r : Registry) (target t : Bytes) (id i : ℕ) (o : Option (List ℕ))
    → HashMap.get target r ≡ o
    → at (remove_at target id r o) t i ≡ (at r t i && not (bytes_eq target t && id == i))
unfolding remove_at
at-removed r target t id i none h = ground (arith, bytes_eq_iff target t, at-none r t i)
at-removed r target t id i (some subs) h = ground (
  arith,
  bytes_eq_iff target t,
  at-put_back r target t i (without_id id subs),
  has-without_id i id subs,
  at-some r t i subs,
)

pub at-remove_from :
    (r : Registry) (target t : Bytes) (id i : ℕ)
    → at (remove_from target id r) t i ≡ (at r t i && not (bytes_eq target t && id == i))
unfolding remove_from
at-remove_from r target t id i = at-removed r target t id i (HashMap.get target r) refl

-- Targets occur once, and each has somebody registered, nobody twice.
unfoldable pub NoDup : List ℕ → Type 0
NoDup [] = Unit
NoDup (s ∷ subs) = (has s subs ≡ false) × NoDup subs

unfoldable pub AllNoDup : Registry → Type 0
AllNoDup [] = Unit
AllNoDup ((t, subs) ∷ r) = NoDup subs × AllNoDup r

pub record IsProper (r : Registry) : Type 0 where
  pub distinct : Distinct r
  pub no_dup : AllNoDup r

pub at_empty : (t : Bytes) (id : ℕ) → at [] t id ≡ false
unfolding at has HashMap.get
at_empty t id = refl

pub empty-IsProper : IsProper []
unfolding AllNoDup
empty-IsProper = record { distinct = tt; no_dup = tt }

append_one-NoDup :
    (id : ℕ) (subs : List ℕ) → NoDup subs → has id subs ≡ false → NoDup (subs ++ (id ∷ []))
unfolding NoDup has
append_one-NoDup id [] h n = (refl, tt)
append_one-NoDup id (s ∷ subs) h n =
    ground (arith, has-append_one s id subs, append_one-NoDup id subs, ==_iff id s, ==_iff s id)

with_id-NoDup : (id : ℕ) (subs : List ℕ) → NoDup subs → NoDup (with_id id subs)
unfolding with_id
with_id-NoDup id subs h = ground (arith, append_one-NoDup id subs)

without_id-NoDup : (id : ℕ) (subs : List ℕ) → NoDup subs → NoDup (without_id id subs)
unfolding NoDup without_id
without_id-NoDup id [] h = tt
without_id-NoDup id (s ∷ subs) h =
    ground (arith, has-without_id s id subs, without_id-NoDup id subs)

pub subscribers-NoDup :
    (t : Bytes) (r : Registry) → AllNoDup r → NoDup (subscribers (HashMap.get t r))
unfolding AllNoDup NoDup HashMap.get
subscribers-NoDup t [] h = tt
subscribers-NoDup t ((k, subs) ∷ r) h = ground (arith, subscribers-NoDup t r)

insert-AllNoDup :
    (t : Bytes) (subs : List ℕ) (r : Registry)
    → AllNoDup r
    → NoDup subs
    → AllNoDup (HashMap.insert t subs r)
unfolding AllNoDup HashMap.insert
insert-AllNoDup t subs [] h n = (n, tt)
insert-AllNoDup t subs ((k, l) ∷ r) h n = ground (arith, insert-AllNoDup t subs r)

remove-AllNoDup : (t : Bytes) (r : Registry) → AllNoDup r → AllNoDup (HashMap.remove t r)
unfolding AllNoDup HashMap.remove
remove-AllNoDup t [] h = tt
remove-AllNoDup t ((k, l) ∷ r) h = ground (arith, remove-AllNoDup t r)

pub add_to-IsProper :
    (target : Bytes) (id : ℕ) (r : Registry) → IsProper r → IsProper (add_to target id r)
unfolding add_to
add_to-IsProper target id r h =
    let subs : List ℕ = with_id id (subscribers (HashMap.get target r)) in
    record {
      distinct = insert-Distinct target subs r h.distinct;
      no_dup =
          insert-AllNoDup target subs r h.no_dup
            (with_id-NoDup id _ (subscribers-NoDup target r h.no_dup));
    }

put_back-IsProper :
    (target : Bytes) (subs : List ℕ) (r : Registry)
    → IsProper r
    → NoDup subs
    → IsProper (put_back target subs r)
put_back-IsProper target [] r h n = record {
  distinct = remove-Distinct target r h.distinct;
  no_dup = remove-AllNoDup target r h.no_dup;
}
put_back-IsProper target (s ∷ subs) r h n = record {
  distinct = insert-Distinct target (s ∷ subs) r h.distinct;
  no_dup = insert-AllNoDup target (s ∷ subs) r h.no_dup n;
}

removed-IsProper :
    (target : Bytes) (id : ℕ) (r : Registry) (o : Option (List ℕ))
    → IsProper r
    → NoDup (subscribers o)
    → IsProper (remove_at target id r o)
unfolding remove_at
removed-IsProper target id r none h n = h
removed-IsProper target id r (some subs) h n =
    put_back-IsProper target (without_id id subs) r h (without_id-NoDup id subs n)

pub remove_from-IsProper :
    (target : Bytes) (id : ℕ) (r : Registry) → IsProper r → IsProper (remove_from target id r)
unfolding remove_from
remove_from-IsProper target id r h =
    removed-IsProper target id r (HashMap.get target r) h (subscribers-NoDup target r h.no_dup)

-- The client leaves every target.
keep-none :
    (t k : Bytes) (subs : List ℕ) (r : Registry)
    → bytes_eq k t ≡ false
    → HashMap.get t r ≡ none
    → HashMap.get t (keep k subs r) ≡ none
unfolding HashMap.get
keep-none t k [] r n h = h
keep-none t k (s ∷ subs) r n h = rw n h

everywhere_none :
    (id : ℕ) (t : Bytes) (r : Registry)
    → HashMap.get t r ≡ none
    → HashMap.get t (remove_everywhere id r) ≡ none
unfolding HashMap.get remove_everywhere
everywhere_none id t [] h = refl
everywhere_none id t ((k, subs) ∷ r) h = elim (Bool-cases (bytes_eq k t)) [
  | inl y ↦ cc (rw y at h)
  | inr n ↦
      keep-none t k (without_id id subs) (remove_everywhere id r) n
        (everywhere_none id t r (rw n at h))
]

at-keep :
    (r : Registry) (k t : Bytes) (i : ℕ) (subs : List ℕ)
    → HashMap.get k r ≡ none
    → at (keep k subs r) t i ≡ (if bytes_eq k t then has i subs else at r t i)
unfolding at HashMap.get
at-keep r k t i [] h = unfold has in ground (arith, bytes_eq_iff k t)
at-keep r k t i (s ∷ subs) h = ground arith

pub at-remove_everywhere :
    (r : Registry) (t : Bytes) (id i : ℕ)
    → Distinct r
    → at (remove_everywhere id r) t i ≡ (at r t i && not (id == i))
unfolding remove_everywhere
at-remove_everywhere [] t id i d = unfold at has HashMap.get in refl
at-remove_everywhere ((k, subs) ∷ r) t id i d =
    at-keep (remove_everywhere id r) k t i (without_id id subs) (everywhere_none id k r d.0)
    ∙ rw (has-without_id i id subs, at-remove_everywhere r t id i d.1)
        (unfold at HashMap.get in ground arith)

keep-IsProper :
    (k : Bytes) (subs : List ℕ) (r : Registry)
    → IsProper r
    → HashMap.get k r ≡ none
    → NoDup subs
    → IsProper (keep k subs r)
unfolding AllNoDup
keep-IsProper k [] r h n d = h
keep-IsProper k (s ∷ subs) r h n d = record { distinct = (n, h.distinct); no_dup = (d, h.no_dup) }

pub remove_everywhere-IsProper :
    (id : ℕ) (r : Registry) → IsProper r → IsProper (remove_everywhere id r)
unfolding remove_everywhere AllNoDup
remove_everywhere-IsProper id [] h = h
remove_everywhere-IsProper id ((k, subs) ∷ r) h =
    keep-IsProper k (without_id id subs) (remove_everywhere id r)
      (remove_everywhere-IsProper id r (record { distinct = h.distinct.1; no_dup = h.no_dup.1 }))
      (everywhere_none id k r h.distinct.0) (without_id-NoDup id subs h.no_dup.0)
