-- ===== src/Commands/Strings/Counter.antt =====
-- INCR, DECR, INCRBY and DECRBY: what the counter holds afterwards.
use meebis.Base.{ℕ, ◌≡◌, refl, sym, ◌∙◌, ap, true, Option, none, some, arith, if◌then◌else◌}
use meebis.Base.Bytes.{Bytes, bytes_eq, bytes_eq_iff, bytes_eq_refl}
use meebis.Base.Int.{ℤ, pos, negsuc, ◌+ℤ◌}
use meebis.Base.Decimal.{to_string, parse_i64, parse-to_string, IsI64}
use meebis.Resp.Frame.{Frame, integer, err, wrongtype}
use meebis.Db.{Db, Entry, string, value_of, expiry_of}
use meebis.Db.Typed.{Typed, typed, wrong_type, as_str, get_str}
use meebis.Db.View.{view}
use meebis.Db.Purged.{IsPurged, get_str-IsPurged, view-set_keep_ttl, get_str_result, view-get_str}
use meebis.Commands.Args.{Checked, go, fail, checked_add, not_an_integer, or_wrongtype, in_i64}
use meebis.Commands.Strings.{counter_of, add_to, store_sum, do_incr}

abbrev summed : Option ℤ → Checked ℤ
summed none = fail (err "increment or decrement would overflow")
summed (some next) = go next

abbrev added : Option ℤ → ℤ → Checked ℤ
added none delta = fail not_an_integer
added (some cur) delta = summed (checked_add cur delta)

abbrev computed : Typed (Option Bytes) → ℤ → Checked ℤ
computed wrong_type delta = fail wrongtype
computed (typed o) delta = added (counter_of o) delta

abbrev pub limited : ℤ → Checked ℤ
limited n = if in_i64 n then go n else fail (err "increment or decrement would overflow")

-- The counter that an increment leaves, or its error reply, from what was visible at the key: nothing
-- counts as 0, and a string by the number that it spells.
abbrev pub incremented : Typed (Option Bytes) → ℤ → Checked ℤ
incremented wrong_type delta = fail wrongtype
incremented (typed none) delta = limited (pos 0 +ℤ delta)
incremented (typed (some s)) delta = elim (parse_i64 s) [
  | none ↦ fail (err "value is not an integer or out of range")
  | some n ↦ limited (n +ℤ delta)
]

summed-limited : (a b : ℤ) → summed (checked_add a b) ≡ limited (a +ℤ b)
unfolding checked_add
summed-limited a b = ground arith

added-read :
    (o : Option ℤ) (delta : ℤ)
    → added o delta ≡ elim o [
      | none ↦ fail (err "value is not an integer or out of range")
      | some n ↦ limited (n +ℤ delta)
    ]
added-read none delta = unfold not_an_integer in refl
added-read (some n) delta = summed-limited n delta

computed_lem : (o : Typed (Option Bytes)) (delta : ℤ) → computed o delta ≡ incremented o delta
unfolding counter_of
computed_lem wrong_type delta = refl
computed_lem (typed none) delta = summed-limited (pos 0) delta
computed_lem (typed (some s)) delta = added-read (parse_i64 s) delta

abbrev pub reply_of : Checked ℤ → Frame
reply_of (go n) = integer n
reply_of (fail f) = f

abbrev pub stored : Checked ℤ → Option Entry → Option Entry
stored (fail f) old = old
stored (go n) old = some (record { value = string (to_string n); expire_at = expiry_of old })

module _ (now : ℕ) (db : Db) (key : Bytes) (delta : ℤ) where
  add_to_reply :
      (o : Typed (Option Bytes))
      → (or_wrongtype db o λ v. add_to db key delta (counter_of v)).1 ≡ reply_of (computed o delta)
  unfolding add_to store_sum
  add_to_reply o = ground arith

view-store_sum :
    (now : ℕ) (db : Db) (key : Bytes) (r : Option ℤ) (j : Bytes)
    → IsPurged now db key
    → view now (store_sum db key r).0 j
      ≡ (if bytes_eq key j then stored (summed r) (view now db key) else view now db j)
unfolding store_sum
view-store_sum now db key none j h = ground (arith, bytes_eq_iff key j)
view-store_sum now db key (some n) j h = view-set_keep_ttl now db key (string (to_string n)) j h

view-add_to :
    (now : ℕ) (db : Db) (key : Bytes) (delta : ℤ) (c : Option ℤ) (j : Bytes)
    → IsPurged now db key
    → view now (add_to db key delta c).0 j
      ≡ (if bytes_eq key j then stored (added c delta) (view now db key) else view now db j)
unfolding add_to
view-add_to now db key delta none j h = ground (arith, bytes_eq_iff key j)
view-add_to now db key delta (some n) j h = view-store_sum now db key (checked_add n delta) j h

view-typed_add :
    (now : ℕ) (db : Db) (key : Bytes) (delta : ℤ) (o : Typed (Option Bytes)) (j : Bytes)
    → IsPurged now db key
    → view now (or_wrongtype db o λ v. add_to db key delta (counter_of v)).0 j
      ≡ (if bytes_eq key j then stored (computed o delta) (view now db key) else view now db j)
view-typed_add now db key delta wrong_type j h = ground (arith, bytes_eq_iff key j)
view-typed_add now db key delta (typed o) j h = view-add_to now db key delta (counter_of o) j h

-- The reply and the new view of an increment, on every branch.
pub do_incr_lem :
    (now : ℕ) (db : Db) (key : Bytes) (delta : ℤ)
    → let result : Checked ℤ = incremented (as_str (value_of (view now db key))) delta in
      ((do_incr now db key delta).1 ≡ reply_of result)
      × ((j : Bytes)
          → view now (do_incr now db key delta).0 j
            ≡ (if bytes_eq key j then stored result (view now db key) else view now db j))
unfolding do_incr
do_incr_lem now db key delta =
    let db' : Db = (get_str now db key).0 in
    (
      add_to_reply now db' key delta (get_str now db key).1
          ∙ ap reply_of (computed_lem (get_str now db key).1 delta)
          ∙ ap (λ t. reply_of (incremented t delta)) (get_str_result now db key),
      λ j.
          rw (← get_str_result now db key, ← computed_lem (get_str now db key).1 delta)
            (view-typed_add now db' key delta (get_str now db key).1 j (get_str-IsPurged now db key)
              ∙ rw (view-get_str now db key key, view-get_str now db key j)),
    )

incremented_in_range :
    (o : Option Bytes) (cur d : ℤ)
    → counter_of o ≡ some cur
    → in_i64 (cur +ℤ d) ≡ true
    → incremented (typed o) d ≡ go (cur +ℤ d)
incremented_in_range o cur d c p =
    sym (computed_lem (typed o) d) ∙ rw c (unfold checked_add in rw p)

in_i64-IsI64 : (z : ℤ) → in_i64 z ≡ true → IsI64 z
in_i64-IsI64 (pos n) h = ground arith
in_i64-IsI64 (negsuc n) h = ground arith

counter-to_string : (z : ℤ) → in_i64 z ≡ true → counter_of (some (to_string z)) ≡ some z
unfolding counter_of
counter-to_string z h = parse-to_string z (in_i64-IsI64 z h)

module _ (now : ℕ) (db : Db) (key : Bytes) (o : Option Bytes) (cur d : ℤ) where
  -- After an increment in range the key holds the sum, in a form that the next one reads.
  string_after :
      as_str (value_of (view now db key)) ≡ typed o
      → counter_of o ≡ some cur
      → in_i64 (cur +ℤ d) ≡ true
      → as_str (value_of (view now (do_incr now db key d).0 key))
        ≡ typed (some (to_string (cur +ℤ d)))
  unfolding value_of
  string_after s c p =
      rw ((do_incr_lem now db key d).1 key, bytes_eq_refl key, s, incremented_in_range o cur d c p)

  -- Two increments in range reply as one by the sum.
  pub do_incr_twice :
      (e : ℤ)
      → as_str (value_of (view now db key)) ≡ typed o
      → counter_of o ≡ some cur
      → in_i64 (cur +ℤ d) ≡ true
      → in_i64 (cur +ℤ d +ℤ e) ≡ true
      → (do_incr now (do_incr now db key d).0 key e).1 ≡ integer (cur +ℤ d +ℤ e)
  do_incr_twice e s c p q =
      (do_incr_lem now (do_incr now db key d).0 key e).0
      ∙ rw (string_after s c p) (
          ap reply_of (
            incremented_in_range (some (to_string (cur +ℤ d))) (cur +ℤ d) e
              (counter-to_string (cur +ℤ d) p) q))
