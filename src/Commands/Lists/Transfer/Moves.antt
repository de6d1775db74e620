-- ===== src/Commands/Lists/Transfer/Moves.antt =====
-- RPOPLPUSH and LMOVE: the element, and what both keys hold afterwards.
use meebis.Base.{
  ℕ, ◌≡◌, refl, ◌∙◌, ap, Bool, true, false, List, [], ◌∷◌, ◌++◌, Option, none, some, if◌then◌else◌,
  Bool-cases, inl, inr,
}
use meebis.Base.Bytes.{Bytes, bytes_eq, bytes_eq_iff, bytes_eq_refl}
use meebis.Resp.Frame.{Frame, bulk}
use meebis.Db
use meebis.Db.{Db, Entry, Value, string, list, set_of, hash, zset, stream, value_of, expiry_of}
use meebis.Db.Typed.{typed, as_list, the_list, get_list}
use meebis.Db.View.{view}
use meebis.Db.Purged.{IsPurged, get_list_result, view-get_list, get_list-IsPurged}
use meebis.Db.Writes.{
  rewritten, list_or_empty, get_or_create_list_result, view-get_or_create_list,
  view-remove_if_empty,
}
use meebis.Commands.Args.{or_wrongtype}
use meebis.Commands.Lists.Pops.{pop_back-append}
use meebis.Commands.Lists.{push_values, pop_end, put_list}
use meebis.Commands.Lists.Transfer.{move_elem, take_from, put_popped, push_onto, rpoplpush}

-- A list with one more element at its left or right end.
abbrev pub joined : Bool → Bytes → List Bytes → List Bytes
joined true v l = v ∷ l
joined false v l = l ++ (v ∷ [])

push_values-joined :
    (left : Bool) (l : List Bytes) (v : Bytes) → push_values left l (v ∷ []) ≡ joined left v l
unfolding push_values
push_values-joined true l v = refl
push_values-joined false l v = refl

pub pop_end-joined :
    (left : Bool) (v : Bytes) (l : List Bytes) → pop_end left (joined left v l) ≡ some (v, l)
unfolding pop_end
pop_end-joined true v l = refl
pop_end-joined false v l = pop_back-append v l

-- The view once the source holds `rest`.
abbrev pub without_elem : (Bytes → Option Entry) → Bytes → List Bytes → Bytes → Option Entry
without_elem m src rest j = if bytes_eq src j then rewritten (list rest) (m src) else m j

module _ (now : ℕ) (db : Db) (dst v : Bytes) (left : Bool) (l : List Bytes) where
  onto_lem :
      list_or_empty (view now db dst) ≡ typed l
      → ((push_onto now db dst v left).1 ≡ bulk v)
        × ((j : Bytes)
            → view now (push_onto now db dst v left).0 j ≡ (
                if bytes_eq dst j
                then some (record {
                  value = list (joined left v l);
                  expire_at = expiry_of (view now db dst);
                })
                else view now db j))
  unfolding push_onto
  onto_lem h =
      rw (get_or_create_list_result now db dst, h, push_values-joined left l v)
        (refl, view-get_or_create_list now db dst (list (joined left v l)))

list_no_wrong :
    (db : Db) (v : Value) (l : List Bytes) (x : Db × Frame)
    → the_list v ≡ typed l
    → or_wrongtype db (as_list (some v)) (λ _. x) ≡ x
list_no_wrong db (list l') l x h = refl
list_no_wrong db (string _) l x h = cc h
list_no_wrong db (set_of _) l x h = cc h
list_no_wrong db (hash _) l x h = cc h
list_no_wrong db (zset _) l x h = cc h
list_no_wrong db (stream _) l x h = cc h

-- The check of the destination passes where it will be a list.
no_wrong_type :
    (db : Db) (o : Option Entry) (l : List Bytes) (x : Db × Frame)
    → list_or_empty o ≡ typed l
    → or_wrongtype db (as_list (value_of o)) (λ _. x) ≡ x
unfolding value_of
no_wrong_type db none l x h = refl
no_wrong_type db (some e) l x h = list_no_wrong db e.value l x h

module _ (now : ℕ) (db : Db) (src dst v : Bytes) (from_left to_left : Bool)
    (rest ld : List Bytes) where
  take_lem :
      IsPurged now db src
      → list_or_empty (without_elem (view now db) src rest dst) ≡ typed ld
      → let run : Db × Frame =
          take_from now db src dst from_left to_left (some (joined from_left v rest)) in
        (run.1 ≡ bulk v)
        × ((j : Bytes)
            → view now run.0 j ≡ (
                if bytes_eq dst j
                then some (record {
                  value = list (joined to_left v ld);
                  expire_at = expiry_of (without_elem (view now db) src rest dst);
                })
                else without_elem (view now db) src rest j))
  unfolding take_from put_popped
  take_lem p h =
      let db3 : Db = Db.remove_if_empty (put_list db src rest) src in
      let sees : (j : Bytes) → view now db3 j ≡ without_elem (view now db) src rest j =
        λ j. view-remove_if_empty now db src (list rest) j p in
      rw (pop_end-joined from_left v rest) (
        let (reply, after) = onto_lem now db3 dst v to_left ld (rw (sees dst) h) in
        (reply, λ j. after j ∙ rw (sees dst, sees j)))

-- The destination is already a list, or missing, before the source is written.
destination :
    (now : ℕ) (db : Db) (src dst : Bytes) (l rest ld : List Bytes) (t : Option ℕ)
    → view now db src ≡ some (record { value = list l; expire_at = t })
    → list_or_empty (without_elem (view now db) src rest dst) ≡ typed ld
    → (l' : List Bytes) × (list_or_empty (view now db dst) ≡ typed l')
destination now db src dst l rest ld t p h = elim (Bool-cases (bytes_eq src dst)) [
  | inl y ↦ let same : src ≡ dst = (bytes_eq_iff src dst).0 y in (l, rw (← same, p))
  | inr n ↦ (ld, rw n at h)
]

-- LMOVE and RPOPLPUSH, where the source is visible as a list and the destination, as it is once the
-- source was written, is a list or missing: the element at the end of the source is the reply. Then
-- the source lacks it, or is gone where it was the last one, and the destination has it at the end
-- asked for, each with the expiry that it then had; every other key is seen as before. So a list of one
-- element that is put back onto itself has no expiry.
pub move_elem_lem :
    (now : ℕ) (db : Db) (src dst v : Bytes) (from_left to_left : Bool) (rest ld : List Bytes)
    (t : Option ℕ)
    → view now db src ≡ some (record { value = list (joined from_left v rest); expire_at = t })
    → list_or_empty (without_elem (view now db) src rest dst) ≡ typed ld
    → let run : Db × Frame = move_elem now db src dst from_left to_left in
      (run.1 ≡ bulk v)
      × ((j : Bytes)
          → view now run.0 j ≡ (
              if bytes_eq dst j
              then some (record {
                value = list (joined to_left v ld);
                expire_at = expiry_of (without_elem (view now db) src rest dst);
              })
              else without_elem (view now db) src rest j))
unfolding move_elem
move_elem_lem now db src dst v from_left to_left rest ld t p h =
    let db1 : Db = (get_list now db dst).0 in
    let db2 : Db = (get_list now db1 src).0 in
    let same : (j : Bytes) → view now db2 j ≡ view now db j =
      λ j. view-get_list now db1 src j ∙ view-get_list now db dst j in
    let (l', there) = destination now db src dst (joined from_left v rest) rest ld t p h in
    let found : (get_list now db1 src).1 ≡ typed (some (joined from_left v rest)) =
      get_list_result now db1 src
      ∙ rw (view-get_list now db dst src, p) (unfold value_of in refl) in
    let x : Db × Frame =
      or_wrongtype db2 (get_list now db1 src).1
        λ o. take_from now db2 src dst from_left to_left o in
    let runs : move_elem now db src dst from_left to_left
        ≡ take_from now db2 src dst from_left to_left (some (joined from_left v rest)) =
      ap (λ d. or_wrongtype db1 d λ _. x) (get_list_result now db dst)
      ∙ no_wrong_type db1 (view now db dst) l' x there
      ∙ ap (λ d. or_wrongtype db2 d λ o. take_from now db2 src dst from_left to_left o) found in
    let (reply, after) =
      take_lem now db2 src dst v from_left to_left rest ld (get_list-IsPurged now db1 src)
        (rw (same src, same dst) h) in
    (
      ap (λ r. r.1) runs ∙ reply,
      λ j. ap (λ r. view now r.0 j) runs ∙ after j ∙ rw (same src, same dst, same j),
    )

-- A rotation within one list of at least two elements keeps its expiry.
pub rpoplpush_rotates :
    (now : ℕ) (db : Db) (command key v x : Bytes) (rest : List Bytes) (t : Option ℕ)
    → view now db key ≡ some (record { value = list ((x ∷ rest) ++ (v ∷ [])); expire_at = t })
    → let run : Db × Frame = rpoplpush now db (command ∷ key ∷ key ∷ []) in
      (run.1 ≡ bulk v)
      × (view now run.0 key ≡ some (record { value = list (v ∷ x ∷ rest); expire_at = t }))
unfolding rpoplpush
rpoplpush_rotates now db command key v x rest t p =
    let (reply, after) =
      move_elem_lem now db key key v false true (x ∷ rest) (x ∷ rest) t p
        (rw (bytes_eq_refl key)) in
    (reply, after key ∙ rw (bytes_eq_refl key, p) (unfold expiry_of in refl))

-- A list of one element that is rotated onto itself is seen as before, but without its expiry: the
-- emptied list was removed with it.
pub rpoplpush_forgets :
    (now : ℕ) (db : Db) (command key v : Bytes) (t : Option ℕ)
    → view now db key ≡ some (record { value = list (v ∷ []); expire_at = t })
    → let run : Db × Frame = rpoplpush now db (command ∷ key ∷ key ∷ []) in
      (run.1 ≡ bulk v)
      × (view now run.0 key ≡ some (record { value = list (v ∷ []); expire_at = none }))
unfolding rpoplpush
rpoplpush_forgets now db command key v t p =
    let (reply, after) =
      move_elem_lem now db key key v false true [] [] t p (rw (bytes_eq_refl key)) in
    (reply, after key ∙ rw (bytes_eq_refl key) (unfold expiry_of in refl))
