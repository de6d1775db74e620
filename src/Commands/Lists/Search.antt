-- ===== src/Commands/Lists/Search.antt =====
-- src/commands/list.rs: LREM, LINSERT and LPOS.
pub mod Removals
use mathlib.Core.List.{reverse}
use meebis.Base.{
  ℕ, zero, suc, ◌+◌, ◌-◌, ◌^◌, Bool, true, false, not, ◌&&◌, List, [], ◌∷◌, ◌++◌, Option, none,
  some, leb, ltb, ◌==◌, if◌then◌else◌, length, take, drop,
}
use meebis.Base.Bytes.{Bytes, bytes_eq}
use meebis.Base.Int.{ℤ, pos, negsuc, ltb_ℤ}
use meebis.Resp.Frame.{Frame, Frames, array, bulk, integer, null, err, count, nil, cons}
use meebis.Db
use meebis.Db.{Db}
use meebis.Db.Typed.{get_list}
use meebis.Commands.Args.{
  Checked, go, fail, ◌>>=◌, wrong_args, parse_int, is_word, or_reply, or_wrongtype,
}
use meebis.Commands.Lists.{put_list, read_list}

-- The loop from the front: what is left of the list, and how many were removed.
pub remove_front : Bytes → ℤ → ℕ → List Bytes → List Bytes × ℕ
remove_front target limit removed [] = ([], removed)
remove_front target limit removed (x ∷ l) =
    let (without, n) = remove_front target limit (suc removed) l in
    let (later, m) = remove_front target limit removed l in
    if ltb_ℤ (pos removed) limit
    then (if bytes_eq x target then (without, n) else (x ∷ later, m))
    else (x ∷ l, removed)

-- `usize::MAX as i64` is -1.
abbrev front_limit : ℕ → ℤ
front_limit zero = negsuc 0
front_limit (suc n) = pos (suc n)

-- The loop from the back walks the reversed list.
pub remove_matches : ℤ → Bytes → List Bytes → List Bytes × ℕ
unfolding remove_front
remove_matches (pos n) target l = remove_front target (front_limit n) 0 l
remove_matches (negsuc n) target l =
    let (rest, removed) = remove_front target (pos (suc n)) 0 (reverse l) in (reverse rest, removed)

pub remove_from : ℕ → Db → Bytes → ℤ → Bytes → Db × Frame
unfolding remove_matches
remove_from now db key n target =
    let (db1, t) = get_list now db key in
    or_wrongtype db1 t λ o. elim o [
      | none ↦ (db1, count 0)
      | some l ↦
          let (rest, removed) = remove_matches n target l in
          (Db.remove_if_empty (put_list db1 key rest) key, count removed)
    ]

unfoldable pub lrem : ℕ → Db → List Bytes → Db × Frame
unfolding remove_from
lrem now db (_ ∷ key ∷ a ∷ target ∷ []) =
    or_reply db (parse_int a) λ n. remove_from now db key n target
lrem now db _ = (db, wrong_args "lrem")

-- `iter().position(|e| e == pivot)`
pub position : Bytes → List Bytes → Option ℕ
position target [] = none
position target (x ∷ l) =
    let later : Option ℕ = elim (position target l) [ none ↦ none | some i ↦ some (suc i) ] in
    if bytes_eq x target then some 0 else later

-- `BEFORE` is true and `AFTER` false.
side_of : Bytes → Option Bool
side_of a = if is_word a "BEFORE" then some true else if is_word a "AFTER" then some false else none

-- The list with the value beside its pivot.
pub inserted : Bool → Bytes → Bytes → List Bytes → Option (List Bytes)
unfolding position
inserted before pivot v l = elim (position pivot l) [
  | none ↦ none
  | some i ↦ let at = if before then i else i + 1 in some (take at l ++ (v ∷ drop at l))
]

insert_reply : Db → Bytes → Option (List Bytes) → Db × Frame
insert_reply db key none = (db, integer (negsuc 0))
insert_reply db key (some l) = (put_list db key l, count (length l))

pub insert_into : ℕ → Db → Bytes → Bool → Bytes → Bytes → Db × Frame
unfolding inserted insert_reply
insert_into now db key before pivot v =
    let (db1, t) = get_list now db key in
    or_wrongtype db1 t λ o. elim o [
      | none ↦ (db1, count 0)
      | some l ↦ insert_reply db1 key (inserted before pivot v l)
    ]

unfoldable pub linsert : ℕ → Db → List Bytes → Db × Frame
unfolding side_of insert_into
linsert now db (_ ∷ key ∷ side ∷ pivot ∷ v ∷ []) = elim (side_of side) [
  | none ↦ (db, err "syntax error")
  | some before ↦ insert_into now db key before pivot v
]
linsert now db _ = (db, wrong_args "linsert")

pub record PosOptions : Type 0 where
  pub rank : ℤ
  pub count : Option ℕ
  pub maxlen : ℕ

checked_rank : ℤ → Checked ℤ
checked_rank (pos zero) = fail (err "RANK can't be zero")
checked_rank n = go n

not_negative : Frame → ℤ → Checked ℕ
not_negative f (pos n) = go n
not_negative f (negsuc n) = fail f

pos_options : PosOptions → List Bytes → Checked PosOptions
unfolding checked_rank not_negative
pos_options o [] = go o
pos_options o (a ∷ []) = fail (err "syntax error")
pos_options o (a ∷ b ∷ rest) =
    let ranked = parse_int b >>= checked_rank >>= λ n. pos_options (record o { rank = n }) rest in
    let counted = parse_int b >>= not_negative (err "COUNT can't be negative") >>= λ n.
    pos_options (record o { count = some n }) rest in
    let bounded = parse_int b >>= not_negative (err "MAXLEN can't be negative") >>= λ n.
    pos_options (record o { maxlen = n }) rest in
    if is_word a "RANK"
    then ranked
    else if is_word a "COUNT"
    then counted
    else if is_word a "MAXLEN"
    then bounded
    else fail (err "syntax error")

-- The elements with their indices.
abbrev pub indexed : ℕ → List Bytes → List (ℕ × Bytes)
indexed i [] = []
indexed i (x ∷ l) = (i, x) ∷ indexed (suc i) l

-- Whether the search ends with so many found.
enough : Option ℕ → ℕ → Bool
enough none n = true
enough (some zero) n = leb (2 ^ 64 - 1) n
enough (some (suc w)) n = leb (suc w) n

-- `compared` and `skip` as in the code; `n` is the number found so far.
pub search : Bytes → ℕ → Option ℕ → ℕ → ℕ → ℕ → List (ℕ × Bytes) → List ℕ
unfolding enough
search target maxlen want compared skip n [] = []
search target maxlen want compared skip n ((i, x) ∷ l) =
    elim (not (maxlen == 0) && leb maxlen compared) [
      | true ↦ []
      | false ↦ elim (bytes_eq x target) [
        | false ↦ search target maxlen want (suc compared) skip n l
        | true ↦ elim (ltb 0 skip) [
          | true ↦ search target maxlen want (suc compared) (skip - 1) n l
          | false ↦ elim (enough want (suc n)) [
            | true ↦ i ∷ []
            | false ↦ i ∷ search target maxlen want (suc compared) skip (suc n) l
          ]
        ]
      ]
    ]

-- The rank is not zero.
pub positions : PosOptions → Bytes → List Bytes → List ℕ
unfolding search
positions o target l = elim o.rank [
  | pos r ↦ search target o.maxlen o.count 0 (r - 1) 0 (indexed 0 l)
  | negsuc r ↦ search target o.maxlen o.count 0 r 0 (reverse (indexed 0 l))
]

counts : List ℕ → Frames
counts [] = nil
counts (i ∷ is) = cons (Frame.integer (pos i)) (counts is)

first_or_null : List ℕ → Frame
first_or_null [] = null
first_or_null (i ∷ is) = integer (pos i)

positions_reply : Option ℕ → List ℕ → Frame
unfolding counts first_or_null
positions_reply none is = first_or_null is
positions_reply (some _) is = array (counts is)

unfoldable pub lpos : ℕ → Db → List Bytes → Db × Frame
unfolding pos_options positions positions_reply
lpos now db (_ ∷ key ∷ target ∷ opts) =
    or_reply db (pos_options (record { rank = pos 1; count = none; maxlen = 0 }) opts) λ o.
      read_list now db key (positions_reply o.count [])
        λ l. positions_reply o.count (positions o target l)
lpos now db _ = (db, wrong_args "lpos")
