-- ===== src/Commands/Sets.antt =====
-- src/commands/set.rs: membership, moves and the set operations. A set's list is in one of the
-- orders in which the code may iterate over it.
pub mod Members
pub mod Additions
pub mod Sampling
mod Tests
use meebis.Base.{
  ℕ, zero, suc, ◌+◌, Bool, true, false, not, ◌&&◌, ◌||◌, List, [], ◌∷◌, Option, none, some, ◌==◌,
  if◌then◌else◌, length,
}
use meebis.Base.Bytes.{Bytes}
use meebis.Base.HashSet
use meebis.Base.HashSet.{HashSet}
use meebis.Resp.Frame.{Frame, Frames, nil, cons, array, set, bulks, count}
use meebis.Db
use meebis.Db.{Db, set_of}
use meebis.Db.Typed.{Typed, typed, wrong_type, get_set, get_or_create_set}
use meebis.Commands.Args.{wrong_args, or_wrongtype}

-- A write through the reference that the typed accessor gave.
abbrev pub put_set : Db → Bytes → HashSet → Db
put_set db key s = Db.replace db key (set_of s)

-- `filter(|m| set.insert(m)).count()`
pub insert_all : HashSet → List Bytes → HashSet × ℕ
insert_all s [] = (s, 0)
insert_all s (m ∷ ms) =
    let (s1, added) = HashSet.insert s m in
    let (s2, n) = insert_all s1 ms in (s2, if added then suc n else n)

unfoldable pub sadd : ℕ → Db → List Bytes → Db × Frame
unfolding insert_all
sadd now db (_ ∷ key ∷ m ∷ ms) =
    let (db1, t) = get_or_create_set now db key in
    or_wrongtype db1 t λ s. let (s', n) = insert_all s (m ∷ ms) in (put_set db1 key s', count n)
sadd now db _ = (db, wrong_args "sadd")

-- `filter(|m| set.remove(m)).count()`
pub remove_each : HashSet → List Bytes → HashSet × ℕ
remove_each s [] = (s, 0)
remove_each s (m ∷ ms) =
    let (s1, removed) = HashSet.remove s m in
    let (s2, n) = remove_each s1 ms in (s2, if removed then suc n else n)

-- The set is looked up again before it is written.
remove_members : ℕ → Db → Bytes → List Bytes → Db × Frame
unfolding remove_each
remove_members now db key ms =
    let (db1, t) = get_or_create_set now db key in
    or_wrongtype db1 t
      λ s. let (s', n) = remove_each s ms in (Db.remove_if_empty (put_set db1 key s') key, count n)

unfoldable pub srem : ℕ → Db → List Bytes → Db × Frame
unfolding remove_members
srem now db (_ ∷ key ∷ m ∷ ms) =
    let (db1, t) = get_set now db key in
    or_wrongtype db1 t
      λ o. elim o [ none ↦ (db1, count 0) | some _ ↦ remove_members now db1 key (m ∷ ms) ]
srem now db _ = (db, wrong_args "srem")

abbrev pub read_set : ℕ → Db → Bytes → Frame → (HashSet → Frame) → Db × Frame
read_set now db key missing f =
    let (db1, t) = get_set now db key in
    or_wrongtype db1 t λ o. (db1, elim o [ none ↦ missing | some s ↦ f s ])

unfoldable pub smembers : ℕ → Db → List Bytes → Db × Frame
smembers now db (_ ∷ key ∷ []) = read_set now db key (set nil) λ s. set (bulks s)
smembers now db _ = (db, wrong_args "smembers")

-- `b as i64`
flag : Bool → Frame
flag b = count (if b then 1 else 0)

unfoldable pub sismember : ℕ → Db → List Bytes → Db × Frame
unfolding flag
sismember now db (_ ∷ key ∷ m ∷ []) = read_set now db key (count 0) λ s. flag (HashSet.contains s m)
sismember now db _ = (db, wrong_args "sismember")

flags : HashSet → List Bytes → Frames
unfolding flag
flags s [] = nil
flags s (m ∷ ms) = cons (flag (HashSet.contains s m)) (flags s ms)

zeros : List Bytes → Frames
zeros [] = nil
zeros (m ∷ ms) = cons (count 0) (zeros ms)

unfoldable pub smismember : ℕ → Db → List Bytes → Db × Frame
unfolding flags zeros
smismember now db (_ ∷ key ∷ m ∷ ms) =
    read_set now db key (array (zeros (m ∷ ms))) λ s. array (flags s (m ∷ ms))
smismember now db _ = (db, wrong_args "smismember")

unfoldable pub scard : ℕ → Db → List Bytes → Db × Frame
scard now db (_ ∷ key ∷ []) = read_set now db key (count 0) λ s. count (length s)
scard now db _ = (db, wrong_args "scard")

-- `if let Ok(s) = db.get_or_create_set(..)`
erase_from : ℕ → Db → Bytes → Bytes → Db
erase_from now db key m =
    let (db1, t) = get_or_create_set now db key in
    elim t [ wrong_type ↦ db1 | typed s ↦ put_set db1 key (HashSet.remove s m).0 ]

add_to : ℕ → Db → Bytes → Bytes → Db
add_to now db key m =
    let (db1, t) = get_or_create_set now db key in
    elim t [ wrong_type ↦ db1 | typed s ↦ put_set db1 key (HashSet.insert s m).0 ]

move_member : ℕ → Db → Bytes → Bytes → Bytes → Bool → Db × Frame
unfolding erase_from add_to
move_member now db src dst m false = (db, count 0)
move_member now db src dst m true =
    (add_to now (Db.remove_if_empty (erase_from now db src m) src) dst m, count 1)

-- The destination is checked before anything is written.
unfoldable pub smove : ℕ → Db → List Bytes → Db × Frame
unfolding move_member
smove now db (_ ∷ src ∷ dst ∷ m ∷ []) =
    let (db1, d) = get_set now db dst in
    or_wrongtype db1 d λ _.
      let (db2, t) = get_set now db1 src in
      or_wrongtype db2 t
        λ o. move_member now db2 src dst m (elim o [ none ↦ false | some s ↦ HashSet.contains s m ])
smove now db _ = (db, wrong_args "smove")

pub data Op : Type 0 where
  union inter diff : Op

-- `collect` of members into a set that is there.
collect : HashSet → List Bytes → HashSet
collect s [] = s
collect s (m ∷ ms) = collect (HashSet.insert s m).0 ms

pub flatten : HashSet → List HashSet → HashSet
unfolding collect
flatten s [] = s
flatten s (t ∷ ts) = flatten (collect s t) ts

pub retain : (Bytes → Bool) → HashSet → HashSet
retain p [] = []
retain p (m ∷ s) = let rest = retain p s in if p m then m ∷ rest else rest

pub in_all : List HashSet → Bytes → Bool
in_all [] m = true
in_all (s ∷ ss) m = HashSet.contains s m && in_all ss m

pub in_any : List HashSet → Bytes → Bool
in_any [] m = false
in_any (s ∷ ss) m = HashSet.contains s m || in_any ss m

-- `swap_remove(0)` leaves the other sets in another order, in which they are asked alike.
pub compute_setop : List HashSet → Op → HashSet
unfolding flatten retain in_all in_any
compute_setop sets union = flatten [] sets
compute_setop [] inter = []
compute_setop (base ∷ sets) inter = retain (in_all sets) base
compute_setop [] diff = []
compute_setop (base ∷ sets) diff = retain (λ m. not (in_any sets m)) base

set_or_empty : Option HashSet → HashSet
set_or_empty none = []
set_or_empty (some s) = s

-- `wrong_type` ends the command at the key.
pub gather : ℕ → Db → List Bytes → Db × Typed (List HashSet)
unfolding set_or_empty
gather now db [] = (db, typed [])
gather now db (key ∷ keys) =
    let (db1, t) = get_set now db key in
    let (db2, ts) = gather now db1 keys in
    elim t [
      | wrong_type ↦ (db1, wrong_type)
      | typed o ↦ elim ts [
        | wrong_type ↦ (db2, wrong_type)
        | typed ss ↦ (db2, typed (set_or_empty o ∷ ss))
      ]
    ]

store_set : ℕ → Db → Bytes → HashSet → Db × Frame
store_set now db dest [] = ((Db.remove now db dest).0, count 0)
store_set now db dest (m ∷ s) = (Db.set db dest (set_of (m ∷ s)), count (suc (length s)))

-- The commands without a destination, and those with one.
unfoldable pub setop : ℕ → Db → List Bytes → Op → Bool → Db × Frame
unfolding gather compute_setop store_set
setop now db (_ ∷ key ∷ keys) op false =
    let (db1, t) = gather now db (key ∷ keys) in
    or_wrongtype db1 t λ sets. (db1, set (bulks (compute_setop sets op)))
setop now db (_ ∷ dest ∷ key ∷ keys) op true =
    let (db1, t) = gather now db (key ∷ keys) in
    or_wrongtype db1 t λ sets. store_set now db1 dest (compute_setop sets op)
setop now db _ op store = (db, wrong_args "sunion")
