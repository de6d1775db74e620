-- ===== src/Commands/Keys/Moving/Outcome.antt =====
-- MOVE: the reply, and what a client sees in each database afterwards.
use meebis.Base.{
  ℕ, ◌<◌, ◌≡◌, ◌≢◌, refl, ◌∙◌, ap, Bool, true, false, not, ◌&&◌, Option, none, some, arith, [], ◌∷◌,
  ◌==◌, if◌then◌else◌, Bool-cases, inl, inr, ==_iff, length,
}
use meebis.Base.Bytes.{Bytes, bytes_eq, bytes_eq_iff}
use meebis.Base.HashMap
use meebis.Base.Int.{pos}
use meebis.Resp.Frame.{count}
use meebis.Db
use meebis.Db.{Db, Entry, Value, is_some}
use meebis.Db.View.{view, live}
use meebis.Db.Laws.{contains_result, view-contains, take_result, view-take, view-put, live-live}
use meebis.Keyspace
use meebis.Keyspace.{Keyspace, put_db}
use meebis.Keyspace.Laws.{
  seen, seen-some, put_back, seen-put_db, pair-some, present, db-put_db, length-put_db,
}
use meebis.Commands.Args.{go, parse_int}
use meebis.Commands.Keys.Moving.{move_key, checked_index, move_to, move_between, put_taken}

and-true : (b : Bool) → (b && true) ≡ b
and-true b = ground arith

and-false : (b : Bool) → (b && false) ≡ false
and-false b = ground arith

-- A key moves where it is visible and its name is free in the other database.
abbrev pub moves : Option Entry → Option Entry → Bool
moves here there = is_some here && not (is_some there)

module _ (now : ℕ) (ks : Keyspace) (i j : ℕ) (key : Bytes) (x y : Db) where
  move_between_reply :
      (move_between now ks i j key x y).1
      ≡ count (if moves (view now x key) (view now y key) then 1 else 0)
  unfolding move_between put_taken is_some
  move_between_reply = ground (arith, contains_result now y key, take_result now x key)

module _ (now : ℕ) (ks : Keyspace) (i j : ℕ) (key : Bytes) (x y : Db) where
  -- Both databases are written back: the source without the key, the other with the entry.
  put_both :
      (src dst : Db) (e : Option Entry) (n k : _)
      → i ≢ j
      → i < length ks
      → j < length ks
      → Keyspace.db ks i ≡ some x
      → Keyspace.db ks j ≡ some y
      → view now src k ≡ (if bytes_eq key k then none else view now x k)
      → view now dst k ≡ (if bytes_eq key k then e else view now y k)
      → seen now (put_db (put_db ks i src) j dst) n k ≡ (
          if j == n && bytes_eq key k
          then e
          else if i == n && bytes_eq key k
          then none
          else seen now ks n k)
  put_both src dst e n k d h l p q s t =
      let l' : j < length (put_db ks i src) = omega (arith, length-put_db ks i src) in
      seen-put_db now (put_db ks i src) j n k dst l'
      ∙ rw (seen-put_db now ks i n k src h) (
          ground
            (arith, seen-some now ks i n k x p, seen-some now ks j n k y q, ==_iff i n, ==_iff j n))

  view-put_taken :
      (src dst : Db) (o : Option Entry) (n k : _)
      → i ≢ j
      → i < length ks
      → j < length ks
      → Keyspace.db ks i ≡ some x
      → Keyspace.db ks j ≡ some y
      → view now x key ≡ o
      → live now o ≡ o
      → view now src k ≡ (if bytes_eq key k then none else view now x k)
      → view now dst k ≡ view now y k
      → seen now
          (put_taken ks i j key src dst
            (elim o [ none ↦ none | some e ↦ some (e.value, e.expire_at) ])).0
          n
          k
        ≡ (if is_some o
            then (if j == n && bytes_eq key k
                then o
                else if i == n && bytes_eq key k
                then none
                else seen now ks n k)
            else seen now ks n k)
  unfolding put_taken is_some
  view-put_taken src dst none n k d h l p q a b s t =
      let ks1 : Keyspace = put_db ks i src in
      let kept : view now src k ≡ view now x k = ground (arith, bytes_eq_iff key k) in
      let there : Keyspace.db ks1 j ≡ some y =
        db-put_db ks i j src h ∙ ground (arith, ==_iff i j) in
      put_back now ks1 j y dst n k (omega (arith, length-put_db ks i src)) there t
      ∙ put_back now ks i x src n k h p kept
  view-put_taken src dst (some e) n k d h l p q a b s t =
      put_both src (Db.put dst key e.value e.expire_at) (some e) n k d h l p q s
        (view-put now dst key e.value e.expire_at k ∙ ground (arith, bytes_eq_iff key k))

  view-move_between :
      (n k : _)
      → i ≢ j
      → i < length ks
      → j < length ks
      → Keyspace.db ks i ≡ some x
      → Keyspace.db ks j ≡ some y
      → seen now (move_between now ks i j key x y).0 n k ≡ (
          if moves (view now x key) (view now y key)
          then (if j == n && bytes_eq key k
              then view now x key
              else if i == n && bytes_eq key k
              then none
              else seen now ks n k)
          else seen now ks n k)
  unfolding move_between
  view-move_between n k d h l p q =
      let dst : Db = (Db.contains now y key).0 in
      elim (Bool-cases (is_some (view now y key))) [
        | inl full ↦
            rw (contains_result now y key, full, and-false (is_some (view now x key)))
              (put_back now ks j y dst n k l q (view-contains now y key k))
        | inr free ↦
            rw
              (
                contains_result now y key,
                free,
                take_result now x key,
                and-true (is_some (view now x key)),
              )
              (view-put_taken (Db.take now x key).0 dst (view now x key) n k d h l p q refl
                (unfold view in live-live now (HashMap.get key x.table)) (view-take now x key k)
                (view-contains now y key k))
      ]

-- MOVE between two databases that exist never panics. It replies 1 just where the key is visible and
-- its name is free in the other database; then the entry, its expiry included, is seen there and no
-- longer here, and else nothing changes.
pub move_key_lem :
    (now : ℕ) (ks : Keyspace) (i j : ℕ) (command key a : Bytes)
    → i ≢ j
    → i < length ks
    → j < length ks
    → parse_int a ≡ go (pos j)
    → let done : Bool = moves (seen now ks i key) (seen now ks j key) in
      (ks' : Keyspace) × (move_key now ks i (command ∷ key ∷ a ∷ [])
        ≡ some (ks', count (if done then 1 else 0)))
      × ((n : ℕ) (k : Bytes)
          → seen now ks' n k ≡ (
              if done
              then (if j == n && bytes_eq key k
                  then seen now ks i key
                  else if i == n && bytes_eq key k
                  then none
                  else seen now ks n k)
              else seen now ks n k))
move_key_lem now ks i j command key a d h l e =
    let (x, p) = present ks i h in
    let (y, q) = present ks j l in
    let valid : Keyspace.is_valid ks (pos j) ≡ true = unfold Keyspace.is_valid in ground arith in
    let other : (j == i) ≡ false = ground (arith, ==_iff j i) in
    rw (p, q)
      (
        (move_between now ks i j key x y).0,
        unfold move_key checked_index move_to in
            rw (e, valid, other, pair-some ks i j x y d p q)
              (ap (λ f. some ((move_between now ks i j key x y).0, f))
                (move_between_reply now ks i j key x y)),
        λ n k. view-move_between now ks i j key x y n k d h l p q,
      )
