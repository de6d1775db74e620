-- ===== src/Commands/Lists/Pushes.antt =====
-- LPUSH, RPUSH, LPUSHX and RPUSHX: the reply, and what the key holds afterwards.
use mathlib.Core.List.{reverse, reverse-cons, append_assoc, append-nil}
use meebis.Base.{
  ℕ, ◌≡◌, refl, sym, ◌∙◌, Bool, true, false, List, [], ◌∷◌, ◌++◌, Option, none, some, arith,
  if◌then◌else◌, length,
}
use meebis.Base.Bytes.{Bytes, bytes_eq, bytes_eq_iff}
use meebis.Resp.Frame.{Frame, count, wrongtype}
use meebis.Db.{Db, Entry, Value, string, list, set_of, hash, zset, stream, value_of, expiry_of}
use meebis.Db.Typed.{Typed, typed, wrong_type, as_list, the_list, get_list, get_or_create_list}
use meebis.Db.View.{view}
use meebis.Db.Purged.{get_list_result, view-get_list}
use meebis.Db.Writes.{
  list_or_empty, get_or_create_list_result, view-get_or_create_list, view-get_or_create_wrong,
}
use meebis.Commands.Args.{or_wrongtype}
use meebis.Commands.Lists.{push_values, push_into, push_existing, push, put_list}

-- A list with values at its left end, the last of them first, or at its right end in their order.
abbrev pub extended : Bool → List Bytes → List Bytes → List Bytes
extended true l vs = reverse vs ++ l
extended false l vs = l ++ vs

pub push_values-extended :
    (left : Bool) (l vs : List Bytes) → push_values left l vs ≡ extended left l vs
unfolding push_values
push_values-extended true l [] = refl
push_values-extended false l [] = sym (append-nil l)
push_values-extended true l (v ∷ vs) =
    push_values-extended true (v ∷ l) vs ∙ rw (reverse-cons, append_assoc (reverse vs) (v ∷ []) l)
push_values-extended false l (v ∷ vs) =
    push_values-extended false (l ++ (v ∷ [])) vs ∙ append_assoc l (v ∷ []) vs

-- The list that is pushed onto, if any, by the entry that was visible.
abbrev pub receiver : Bool → Option Entry → Typed (Option (List Bytes))
receiver true none = typed none
receiver false none = typed (some [])
receiver xx (some e) = as_list (some e.value)

abbrev pub push_answer : Bool → List Bytes → Typed (Option (List Bytes)) → Frame
push_answer left vs wrong_type = wrongtype
push_answer left vs (typed none) = count 0
push_answer left vs (typed (some l)) = count (length (extended left l vs))

abbrev pub after_push :
    Bool → List Bytes → Typed (Option (List Bytes)) → Option Entry → Option Entry
after_push left vs (typed (some l)) old =
    some (record { value = list (extended left l vs); expire_at = expiry_of old })
after_push left vs _ old = old

abbrev present : Typed (List Bytes) → Typed (Option (List Bytes))
present wrong_type = wrong_type
present (typed l) = typed (some l)

module _ (now : ℕ) (db : Db) (key : Bytes) (vs : List Bytes) (left : Bool) where
  abbrev onto : Db → Typed (List Bytes) → Db × Frame
  onto db1 t =
      or_wrongtype db1 t
        λ l. let l' = push_values left l vs in (put_list db1 key l', count (length l'))

  onto_reply :
      (db1 : Db) (t : Typed (List Bytes)) → (onto db1 t).1 ≡ push_answer left vs (present t)
  onto_reply db1 wrong_type = refl
  onto_reply db1 (typed l) = rw (push_values-extended left l vs)

  view-onto :
      (t : Typed (List Bytes)) (j : Bytes)
      → list_or_empty (view now db key) ≡ t
      → view now (onto (get_or_create_list now db key).0 t).0 j ≡ (
          if bytes_eq key j
          then after_push left vs (present t) (view now db key)
          else view now db j)
  view-onto wrong_type j h =
      view-get_or_create_wrong now db key j h ∙ ground (arith, bytes_eq_iff key j)
  view-onto (typed l) j h =
      rw (push_values-extended left l vs)
        (view-get_or_create_list now db key (list (extended left l vs)) j)

  into_reply :
      (push_into now db key vs left).1
      ≡ push_answer left vs (present (list_or_empty (view now db key)))
  unfolding push_into
  into_reply =
      rw (get_or_create_list_result now db key)
        (onto_reply (get_or_create_list now db key).0 (list_or_empty (view now db key)))

  view-into :
      (j : Bytes)
      → view now (push_into now db key vs left).0 j ≡ (
          if bytes_eq key j
          then after_push left vs (present (list_or_empty (view now db key))) (view now db key)
          else view now db j)
  unfolding push_into
  view-into j =
      rw (get_or_create_list_result now db key) (view-onto (list_or_empty (view now db key)) j refl)

list_value : (v : Value) → present (the_list v) ≡ as_list (some v)
list_value (string b) = refl
list_value (list l) = refl
list_value (set_of s) = refl
list_value (hash h) = refl
list_value (zset z) = refl
list_value (stream s) = refl

receiver-false : (o : Option Entry) → present (list_or_empty o) ≡ receiver false o
receiver-false none = refl
receiver-false (some e) = list_value e.value

receiver-true : (o : Option Entry) → receiver true o ≡ as_list (value_of o)
unfolding value_of
receiver-true none = refl
receiver-true (some e) = refl

present_list :
    (o : Option Entry) (l : List Bytes)
    → receiver true o ≡ typed (some l)
    → present (list_or_empty o) ≡ typed (some l)
present_list none l h = cc h
present_list (some e) l h = receiver-false (some e) ∙ h

-- The X variants have read the key, and found a list or nothing.
module _ (now : ℕ) (db : Db) (key : Bytes) (vs : List Bytes) (left : Bool) where
  abbrev onto_existing : Db → Typed (Option (List Bytes)) → Db × Frame
  onto_existing db1 t =
      or_wrongtype db1 t
        λ o. elim o [ none ↦ (db1, count 0) | some _ ↦ push_into now db1 key vs left ]

  existing_lem :
      (db1 : Db) (t : Typed (Option (List Bytes)))
      → ((j : Bytes) → view now db1 j ≡ view now db j)
      → receiver true (view now db key) ≡ t
      → ((onto_existing db1 t).1 ≡ push_answer left vs t)
        × ((j : Bytes)
            → view now (onto_existing db1 t).0 j
              ≡ (if bytes_eq key j then after_push left vs t (view now db key) else view now db j))
  existing_lem db1 wrong_type same h = (refl, λ j. same j ∙ ground (arith, bytes_eq_iff key j))
  existing_lem db1 (typed none) same h = (refl, λ j. same j ∙ ground (arith, bytes_eq_iff key j))
  existing_lem db1 (typed (some l)) same h =
      let found : present (list_or_empty (view now db1 key)) ≡ typed (some l) =
        rw (same key) (present_list (view now db key) l h) in
      (
        into_reply now db1 key vs left ∙ rw found,
        λ j. view-into now db1 key vs left j ∙ rw (found, same key, same j),
      )

-- A push onto a list or, unless it is one of the X variants, a missing key: the reply is the new
-- length, and the key has the values at the end that was asked for, with its expiry kept. On a key of
-- another type, and in the X variants on a missing one, nothing changes.
pub push_lem :
    (now : ℕ) (db : Db) (command key v : Bytes) (vs : List Bytes) (left xx : Bool)
    → let onto_list : Typed (Option (List Bytes)) = receiver xx (view now db key) in
      let run : Db × Frame = push now db (command ∷ key ∷ v ∷ vs) left xx in
      (run.1 ≡ push_answer left (v ∷ vs) onto_list)
      × ((j : Bytes)
          → view now run.0 j ≡ (
              if bytes_eq key j
              then after_push left (v ∷ vs) onto_list (view now db key)
              else view now db j))
unfolding push push_existing
push_lem now db command key v vs left false =
    rw (← receiver-false (view now db key))
      (into_reply now db key (v ∷ vs) left, view-into now db key (v ∷ vs) left)
push_lem now db command key v vs left true =
    rw (get_list_result now db key, ← receiver-true (view now db key))
      (existing_lem now db key (v ∷ vs) left (get_list now db key).0
        (receiver true (view now db key)) (view-get_list now db key) refl)
