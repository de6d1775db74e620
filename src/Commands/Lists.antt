-- ===== src/Commands/Lists.antt =====
-- src/commands/list.rs: pushing, popping, reading and writing by index.
pub mod Search
pub mod Transfer
pub mod Pushes
pub mod Pops
pub mod Ranges
mod Tests
use meebis.Base.{
  ℕ, zero, suc, ◌+◌, ◌-◌, Bool, true, false, ◌||◌, List, [], ◌∷◌, ◌++◌, Option, none, some, leb,
  ltb, if◌then◌else◌, length, get_elem?, set,
}
use meebis.Base.Bytes.{Bytes}
use meebis.Base.Int.{ℤ, pos, negsuc, pos_part}
use meebis.Resp.Frame.{Frame, array, bulk, bulks, null, null_array, ok, err, count, bulk_or_null}
use meebis.Db
use meebis.Db.{Db, list}
use meebis.Db.Typed.{get_list, get_or_create_list}
use meebis.Commands.Args.{
  Checked, go, fail, ◌>>=◌, wrong_args, parse_int, norm_index, or_reply, or_wrongtype,
}

-- `push_front` or `push_back` for each value in turn.
unfoldable pub push_values : Bool → List Bytes → List Bytes → List Bytes
push_values left l [] = l
push_values true l (v ∷ vs) = push_values true (v ∷ l) vs
push_values false l (v ∷ vs) = push_values false (l ++ (v ∷ [])) vs

-- A write through the reference that the typed accessor gave.
abbrev pub put_list : Db → Bytes → List Bytes → Db
put_list db key l = Db.replace db key (list l)

pub push_into : ℕ → Db → Bytes → List Bytes → Bool → Db × Frame
push_into now db key values left =
    let (db1, t) = get_or_create_list now db key in
    or_wrongtype db1 t
      λ l. let l' = push_values left l values in (put_list db1 key l', count (length l'))

-- The X variants do nothing on a missing key.
pub push_existing : ℕ → Db → Bytes → List Bytes → Bool → Db × Frame
unfolding push_into
push_existing now db key values left =
    let (db1, t) = get_list now db key in
    or_wrongtype db1 t
      λ o. elim o [ none ↦ (db1, count 0) | some _ ↦ push_into now db1 key values left ]

unfoldable pub push : ℕ → Db → List Bytes → Bool → Bool → Db × Frame
unfolding push_existing push_into
push now db (_ ∷ key ∷ v ∷ vs) left true = push_existing now db key (v ∷ vs) left
push now db (_ ∷ key ∷ v ∷ vs) left false = push_into now db key (v ∷ vs) left
push now db _ left xx = (db, wrong_args "lpush")

pub pop_back : List Bytes → Option (Bytes × List Bytes)
pop_back [] = none
pop_back (x ∷ []) = some (x, [])
pop_back (x ∷ y ∷ l) = elim (pop_back (y ∷ l)) [ none ↦ none | some (v, l') ↦ some (v, x ∷ l') ]

-- `pop_front` or `pop_back`: what is popped, and what is left.
unfoldable pub pop_end : Bool → List Bytes → Option (Bytes × List Bytes)
unfolding pop_back
pop_end true [] = none
pop_end true (x ∷ l) = some (x, l)
pop_end false l = pop_back l

-- One round of the loop; `loop` is what follows.
pub pop_round :
    (List Bytes → List Bytes × List Bytes)
    → List Bytes
    → Option (Bytes × List Bytes)
    → List Bytes × List Bytes
pop_round loop l none = loop l
pop_round loop l (some (v, l')) = let (out, rest) = loop l' in (v ∷ out, rest)

-- The loop that pops `n` times.
pub pop_loop : Bool → ℕ → List Bytes → List Bytes × List Bytes
unfolding pop_round
pop_loop left zero l = ([], l)
pop_loop left (suc n) l = pop_round (pop_loop left n) l (pop_end left l)

abbrev min_length : ℕ → List Bytes → ℕ
min_length n l = if ltb (length l) n then length l else n

-- The reply, and what is left of the list.
pub popped : Bool → Option ℕ → List Bytes → Frame × List Bytes
unfolding pop_loop
popped left none l = elim (pop_end left l) [ none ↦ (null, l) | some (v, l') ↦ (bulk v, l') ]
popped left (some n) l =
    let (out, rest) = pop_loop left (min_length n l) l in (array (bulks out), rest)

pop_count : List Bytes → Checked (Option ℕ)
pop_count [] = go none
pop_count (a ∷ _) = parse_int a >>= λ n. elim n [
  | pos m ↦ go (some m)
  | negsuc _ ↦ fail (err "value is out of range, must be positive")
]

nothing_popped : Option ℕ → Frame
nothing_popped none = null
nothing_popped (some _) = null_array

pub pop_from : ℕ → Db → Bytes → Option ℕ → Bool → Db × Frame
unfolding popped nothing_popped
pop_from now db key n left =
    let (db1, t) = get_list now db key in
    or_wrongtype db1 t λ o. elim o [
      | none ↦ (db1, nothing_popped n)
      | some l ↦
          let (f, rest) = popped left n l in (Db.remove_if_empty (put_list db1 key rest) key, f)
    ]

unfoldable pub pop : ℕ → Db → List Bytes → Bool → Db × Frame
unfolding pop_count pop_from
pop now db (_ ∷ key ∷ []) left = pop_from now db key none left
pop now db (_ ∷ key ∷ a ∷ []) left =
    or_reply db (pop_count (a ∷ [])) λ n. pop_from now db key n left
pop now db _ left = (db, wrong_args "lpop")

-- What the commands that only read do with the list; a missing key has its own reply.
abbrev pub read_list : ℕ → Db → Bytes → Frame → (List Bytes → Frame) → Db × Frame
read_list now db key missing f =
    let (db1, t) = get_list now db key in
    or_wrongtype db1 t λ o. (db1, elim o [ none ↦ missing | some l ↦ f l ])

unfoldable pub llen : ℕ → Db → List Bytes → Db × Frame
llen now db (_ ∷ key ∷ []) = read_list now db key (count 0) λ l. count (length l)
llen now db _ = (db, wrong_args "llen")

pub clamp_to : ℕ → ℕ → ℤ → Option (ℕ × ℕ)
clamp_to start len (negsuc _) = none
clamp_to start len (pos s) =
    let stop = if leb len s then len - 1 else s in
    if ltb stop start || leb len start then none else some (start, stop)

-- The first and the last index of a range, or `none` where it is empty. In an empty list the start is
-- not below the length, whatever the last index.
pub clamp : ℤ → ℤ → ℕ → Option (ℕ × ℕ)
unfolding clamp_to
clamp a b len = clamp_to (pos_part (norm_index a len)) len (norm_index b len)

pub keep_some : Option Bytes → List Bytes → List Bytes
keep_some none rest = rest
keep_some (some v) rest = v ∷ rest

-- `(start..=stop).filter_map(|i| list.get(i))`, of `n` indices from `i`.
pub elements : List Bytes → ℕ → ℕ → List Bytes
unfolding keep_some
elements l i zero = []
elements l i (suc n) = keep_some (get_elem? l i) (elements l (suc i) n)

pub between : List Bytes → Option (ℕ × ℕ) → List Bytes
unfolding elements
between l none = []
between l (some (start, stop)) = elements l start (suc (stop - start))

pub list_range : ℤ → ℤ → List Bytes → List Bytes
unfolding clamp between
list_range a b l = between l (clamp a b (length l))

unfoldable pub lrange : ℕ → Db → List Bytes → Db × Frame
unfolding list_range
lrange now db (_ ∷ key ∷ a ∷ b ∷ []) = or_reply db (parse_int a) λ start.
    or_reply db (parse_int b)
      λ stop. read_list now db key (array (bulks [])) λ l. array (bulks (list_range start stop l))
lrange now db _ = (db, wrong_args "lrange")

at_index : List Bytes → ℤ → Option Bytes
at_index l (pos i) = get_elem? l i
at_index l (negsuc i) = none

unfoldable pub lindex : ℕ → Db → List Bytes → Db × Frame
unfolding at_index
lindex now db (_ ∷ key ∷ a ∷ []) =
    or_reply db (parse_int a)
      λ i. read_list now db key null λ l. bulk_or_null (at_index l (norm_index i (length l)))
lindex now db _ = (db, wrong_args "lindex")

written_at : Db → Bytes → List Bytes → Bytes → ℤ → Db × Frame
written_at db key l v (negsuc i) = (db, err "index out of range")
written_at db key l v (pos i) =
    if leb (length l) i then (db, err "index out of range") else (put_list db key (set l i v), ok)

pub set_at : ℕ → Db → Bytes → ℤ → Bytes → Db × Frame
unfolding written_at
set_at now db key i v =
    let (db1, t) = get_list now db key in
    or_wrongtype db1 t λ o. elim o [
      | none ↦ (db1, err "no such key")
      | some l ↦ written_at db1 key l v (norm_index i (length l))
    ]

unfoldable pub lset : ℕ → Db → List Bytes → Db × Frame
unfolding set_at
lset now db (_ ∷ key ∷ a ∷ v ∷ []) = or_reply db (parse_int a) λ i. set_at now db key i v
lset now db _ = (db, wrong_args "lset")
