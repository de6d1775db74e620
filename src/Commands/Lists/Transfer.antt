-- ===== src/Commands/Lists/Transfer.antt =====
-- src/commands/list.rs: LTRIM, RPOPLPUSH and LMOVE.
pub mod Moves
pub mod Trims
use meebis.Base.{
  ℕ, suc, Bool, true, false, List, [], ◌∷◌, Option, none, some, if◌then◌else◌, length, take, drop,
}
use meebis.Base.Bytes.{Bytes}
use meebis.Base.Int.{ℤ}
use meebis.Resp.Frame.{Frame, bulk, null, ok, err, wrongtype}
use meebis.Db
use meebis.Db.{Db}
use meebis.Db.Typed.{Typed, typed, wrong_type, get_list, get_or_create_list}
use meebis.Commands.Args.{wrong_args, parse_int, is_word, or_reply, or_wrongtype}
use meebis.Commands.Lists.{put_list, clamp, pop_end, push_values}

-- `truncate(stop + 1)` and `drain(0..start)`, or `clear`.
pub cut : List Bytes → Option (ℕ × ℕ) → List Bytes
cut l none = []
cut l (some (start, stop)) = drop start (take (suc stop) l)

pub trimmed : ℤ → ℤ → List Bytes → List Bytes
unfolding clamp cut
trimmed a b l = cut l (clamp a b (length l))

pub trim_to : ℕ → Db → Bytes → ℤ → ℤ → Db × Frame
unfolding trimmed
trim_to now db key a b =
    let (db1, t) = get_list now db key in
    or_wrongtype db1 t λ o. elim o [
      | none ↦ (db1, ok)
      | some l ↦ (Db.remove_if_empty (put_list db1 key (trimmed a b l)) key, ok)
    ]

unfoldable pub ltrim : ℕ → Db → List Bytes → Db × Frame
unfolding trim_to
ltrim now db (_ ∷ key ∷ a ∷ b ∷ []) =
    or_reply db (parse_int a)
      λ start. or_reply db (parse_int b) λ stop. trim_to now db key start stop
ltrim now db _ = (db, wrong_args "ltrim")

-- The element goes onto the destination, which is looked up after the source was written.
pub push_onto : ℕ → Db → Bytes → Bytes → Bool → Db × Frame
push_onto now db dst v to_left =
    let (db1, t) = get_or_create_list now db dst in
    or_wrongtype db1 t λ l. (put_list db1 dst (push_values to_left l (v ∷ [])), bulk v)

-- What follows the pop from the source: the element and the rest of the list.
put_popped : ℕ → Db → Bytes → Bytes → Bool → Option (Bytes × List Bytes) → Db × Frame
unfolding push_onto
put_popped now db src dst to_left none = (db, null)
put_popped now db src dst to_left (some (v, rest)) =
    push_onto now (Db.remove_if_empty (put_list db src rest) src) dst v to_left

pub take_from : ℕ → Db → Bytes → Bytes → Bool → Bool → Option (List Bytes) → Db × Frame
unfolding put_popped
take_from now db src dst from_left to_left none = (db, null)
take_from now db src dst from_left to_left (some l) =
    put_popped now db src dst to_left (pop_end from_left l)

unfoldable pub move_elem : ℕ → Db → Bytes → Bytes → Bool → Bool → Db × Frame
unfolding take_from
move_elem now db src dst from_left to_left =
    let (db1, d) = get_list now db dst in
    or_wrongtype db1 d λ _.
      let (db2, t) = get_list now db1 src in
      or_wrongtype db2 t λ o. take_from now db2 src dst from_left to_left o

unfoldable pub rpoplpush : ℕ → Db → List Bytes → Db × Frame
rpoplpush now db (_ ∷ src ∷ dst ∷ []) = move_elem now db src dst false true
rpoplpush now db _ = (db, wrong_args "rpoplpush")

-- `LEFT` is true and `RIGHT` false.
side_of : Bytes → Option Bool
side_of a = if is_word a "LEFT" then some true else if is_word a "RIGHT" then some false else none

unfoldable pub lmove : ℕ → Db → List Bytes → Db × Frame
unfolding side_of
lmove now db (_ ∷ src ∷ dst ∷ a ∷ b ∷ []) = elim (side_of a) [
  | none ↦ (db, err "syntax error")
  | some from_left ↦ elim (side_of b) [
    | none ↦ (db, err "syntax error")
    | some to_left ↦ move_elem now db src dst from_left to_left
  ]
]
lmove now db _ = (db, wrong_args "lmove")
