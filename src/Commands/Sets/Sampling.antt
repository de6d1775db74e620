-- ===== src/Commands/Sets/Sampling.antt =====
-- src/commands/set.rs: SINTERCARD, SSCAN, and the commands that draw random members. The numbers that
-- `rand_u64` gives during one command are the argument `rand`, by the order of the calls.
use meebis.Base.{
  ℕ, zero, suc, ◌+◌, ◌-◌, ◌%◌, min, Bool, true, false, List, [], ◌∷◌, Option, none, some, ltb, ◌==◌,
  if◌then◌else◌, length, map, take, drop, get_or,
}
use meebis.Base.Bytes.{Bytes, codes}
use meebis.Base.HashSet.{HashSet}
use meebis.Base.Int.{ℤ, pos, negsuc}
use meebis.Glob.{glob_match}
use meebis.Resp.Frame.{Frame, nil, cons, bulk, array, set, null, err, wrongtype, bulks, count}
use meebis.Db
use meebis.Db.{Db}
use meebis.Db.Typed.{Typed, typed, wrong_type, get_set, get_or_create_set}
use meebis.Commands.Args.{
  Checked, go, fail, ◌>>=◌, wrong_args, parse_int, is_word, or_reply, or_wrongtype,
}
use meebis.Commands.Sets.{inter, compute_setop, retain, put_set, read_set, remove_each}

unfoldable pub indices : ℕ → ℕ → List ℕ
indices i zero = []
indices i (suc n) = i ∷ indices (suc i) n

put_at : List ℕ → ℕ → ℕ → List ℕ
put_at [] i x = []
put_at (y ∷ ys) zero x = x ∷ ys
put_at (y ∷ ys) (suc i) x = y ∷ put_at ys i x

-- `idx.swap(i, j)`
swap : List ℕ → ℕ → ℕ → List ℕ
unfolding put_at
swap idx i j = put_at (put_at idx i (get_or idx j 0)) j (get_or idx i 0)

-- The steps of the loop from `i` on.
unfoldable pub shuffle : (ℕ → ℕ) → ℕ → ℕ → ℕ → List ℕ → List ℕ
unfolding swap
shuffle rand len i zero idx = idx
shuffle rand len i (suc k) idx = shuffle rand len (suc i) k (swap idx i (i + rand i % (len - i)))

unfoldable pub distinct_sample : (ℕ → ℕ) → List Bytes → ℕ → List Bytes
unfolding indices shuffle
distinct_sample rand members n =
    let len = length members in
    let k = min n len in
    map (λ i. get_or members i []) (take k (shuffle rand len 0 k (indices 0 len)))

drawn : (ℕ → ℕ) → List Bytes → ℕ → Bytes
drawn rand members i = get_or members (rand i % length members) []

pop_count : Checked ℤ → Checked ℕ
pop_count (go (pos n)) = go n
pop_count (go (negsuc n)) = fail (err "value is out of range, must be positive")
pop_count (fail f) = fail f

-- "Remove the chosen members."
remove_chosen : ℕ → Db → Bytes → List Bytes → Db
unfolding remove_each
remove_chosen now db key chosen =
    let (db1, t) = get_or_create_set now db key in
    Db.remove_if_empty
      (elim t [ wrong_type ↦ db1 | typed s ↦ put_set db1 key (remove_each s chosen).0 ]) key

pop_one : (ℕ → ℕ) → ℕ → Db → Bytes → Option HashSet → Db × Frame
unfolding drawn remove_chosen
pop_one rand now db key none = (db, null)
pop_one rand now db key (some []) = (db, null)
pop_one rand now db key (some (m ∷ ms)) =
    let x = drawn rand (m ∷ ms) 0 in (remove_chosen now db key (x ∷ []), bulk x)

pop_many : (ℕ → ℕ) → ℕ → Db → Bytes → ℕ → Option HashSet → Db × Frame
unfolding distinct_sample remove_chosen
pop_many rand now db key n none = (db, set nil)
pop_many rand now db key n (some s) =
    let chosen = distinct_sample rand s n in (remove_chosen now db key chosen, set (bulks chosen))

unfoldable pub spop : (ℕ → ℕ) → ℕ → Db → List Bytes → Db × Frame
unfolding pop_count pop_one pop_many
spop rand now db (_ ∷ key ∷ []) =
    let (db1, t) = get_set now db key in or_wrongtype db1 t λ o. pop_one rand now db1 key o
spop rand now db (_ ∷ key ∷ a ∷ []) =
    or_reply db (pop_count (parse_int a)) λ n.
      let (db1, t) = get_set now db key in or_wrongtype db1 t λ o. pop_many rand now db1 key n o
spop rand now db _ = (db, wrong_args "spop")

repeated : (ℕ → ℕ) → List Bytes → ℕ → ℕ → List Bytes
unfolding drawn
repeated rand members i zero = []
repeated rand members i (suc k) = drawn rand members i ∷ repeated rand members (suc i) k

-- `none` is the panic of an index into no members.
picks : (ℕ → ℕ) → HashSet → ℤ → Option (List Bytes)
unfolding distinct_sample repeated
picks rand s (pos n) = some (distinct_sample rand s n)
picks rand [] (negsuc n) = none
picks rand (m ∷ ms) (negsuc n) = some (repeated rand (m ∷ ms) 0 (suc n))

one_member : (ℕ → ℕ) → HashSet → Frame
unfolding drawn
one_member rand [] = null
one_member rand (m ∷ ms) = bulk (drawn rand (m ∷ ms) 0)

picked : Db → Option (List Bytes) → Option (Db × Frame)
picked db none = none
picked db (some ms) = some (db, array (bulks ms))

many_members : (ℕ → ℕ) → Db → Bytes → Typed (Option HashSet) → Option (Db × Frame)
unfolding picks picked
many_members rand db a wrong_type = some (db, wrongtype)
many_members rand db a (typed none) = some (db, array nil)
many_members rand db a (typed (some s)) = elim (parse_int a) [
  | go n ↦ picked db (picks rand s n)
  | fail f ↦ some (db, f)
]

-- A key that is missing is answered before the count is read.
unfoldable pub srandmember : (ℕ → ℕ) → ℕ → Db → List Bytes → Option (Db × Frame)
unfolding one_member many_members
srandmember rand now db (_ ∷ key ∷ []) = some (read_set now db key null (one_member rand))
srandmember rand now db (_ ∷ key ∷ a ∷ []) =
    let (db1, t) = get_set now db key in many_members rand db1 a t
srandmember rand now db _ = some (db, wrong_args "srandmember")

positive : Checked ℤ → Checked ℕ
positive (go (pos (suc n))) = go (suc n)
positive (go (pos zero)) = fail (err "numkeys should be greater than 0")
positive (go (negsuc n)) = fail (err "numkeys should be greater than 0")
positive (fail f) = fail (err "numkeys should be greater than 0")

limit_arg : Checked ℤ → Checked ℕ
limit_arg (go (pos n)) = go n
limit_arg (go (negsuc n)) = fail (err "LIMIT can't be negative")
limit_arg (fail f) = fail (err "LIMIT can't be negative")

-- The last LIMIT counts, and 0 is no limit.
limit_of : ℕ → List Bytes → Checked ℕ
unfolding limit_arg
limit_of limit [] = go limit
limit_of limit (a ∷ []) = fail (err "syntax error")
limit_of limit (a ∷ b ∷ rest) = elim (is_word a "LIMIT") [
  | true ↦ limit_arg (parse_int b) >>= λ n. limit_of n rest
  | false ↦ fail (err "syntax error")
]

-- A missing key ends the command with the reply 0, whatever the later keys hold.
all_sets : ℕ → Db → List Bytes → Db × Typed (Option (List HashSet))
all_sets now db [] = (db, typed (some []))
all_sets now db (key ∷ keys) =
    let (db1, t) = get_set now db key in
    let (db2, ts) = all_sets now db1 keys in
    elim t [
      | wrong_type ↦ (db1, wrong_type)
      | typed none ↦ (db1, typed none)
      | typed (some s) ↦ elim ts [
        | wrong_type ↦ (db2, wrong_type)
        | typed none ↦ (db2, typed none)
        | typed (some ss) ↦ (db2, typed (some (s ∷ ss)))
      ]
    ]

cardinality : ℕ → Option (List HashSet) → Frame
unfolding compute_setop
cardinality limit none = count 0
cardinality limit (some sets) =
    let n = length (compute_setop sets inter) in count (if limit == 0 then n else min n limit)

intercard : ℕ → Db → List Bytes → ℕ → Db × Frame
unfolding limit_of all_sets cardinality
intercard now db rest n =
    if ltb (length rest) n
    then (db, err "Number of keys can't be greater than number of args")
    else or_reply db (limit_of 0 (drop n rest)) λ limit.
      let (db1, t) = all_sets now db (take n rest) in
      or_wrongtype db1 t λ o. (db1, cardinality limit o)

unfoldable pub sintercard : ℕ → Db → List Bytes → Db × Frame
unfolding positive intercard
sintercard now db (_ ∷ numkeys ∷ a ∷ rest) =
    or_reply db (positive (parse_int numkeys)) λ n. intercard now db (a ∷ rest) n
sintercard now db _ = (db, wrong_args "sintercard")

pattern_of : Option Bytes → List Bytes → Checked (Option Bytes)
pattern_of p [] = go p
pattern_of p (a ∷ []) = fail (err "syntax error")
pattern_of p (a ∷ b ∷ rest) =
    let matched = pattern_of (some b) rest in
    let counted = pattern_of p rest in
    if is_word a "MATCH"
    then matched
    else if is_word a "COUNT"
    then counted
    else fail (err "syntax error")

allows : Option Bytes → Bytes → Bool
allows none m = true
allows (some p) m = glob_match p m

scan_reply : List Bytes → Frame
scan_reply items = array (cons (bulk (codes "0")) (cons (array (bulks items)) nil))

unfoldable pub sscan : ℕ → Db → List Bytes → Db × Frame
unfolding pattern_of allows retain scan_reply
sscan now db (_ ∷ key ∷ cursor ∷ opts) =
    or_reply db (pattern_of none opts)
      λ p. read_set now db key (scan_reply []) λ s. scan_reply (retain (allows p) s)
sscan now db _ = (db, wrong_args "sscan")
