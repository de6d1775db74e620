-- ===== src/Commands/Hashes/Draws.antt =====
-- src/commands/hash.rs: HRANDFIELD. The numbers that `rand_u64` gives during the command are the
-- argument `rand`, by the order of the calls.
use meebis.Base.{
  ℕ, zero, suc, ◌%◌, min, Bool, true, false, List, [], ◌∷◌, Option, none, some, if◌then◌else◌,
  length, map, take, get_or,
}
use meebis.Base.Bytes.{Bytes}
use meebis.Base.HashMap.{HashMap}
use meebis.Base.Int.{ℤ, pos, negsuc}
use meebis.Resp.Frame.{
  Frame, Frames, FramePairs, nil, cons, no_pairs, pair, bulk, array, pairs, null, err,
}
use meebis.Db.{Db}
use meebis.Db.Typed.{get_hash}
use meebis.Commands.Args.{Checked, go, fail, wrong_args, parse_int, is_word, or_reply, or_wrongtype}
use meebis.Commands.Hashes.{read_hash}
use meebis.Commands.Sets.Sampling.{indices, shuffle}

-- The default of the lookups is never taken: every index is below the length.
entry_at : HashMap Bytes → ℕ → Bytes × Bytes
entry_at h i = get_or h i ([], [])

repeats : (ℕ → ℕ) → HashMap Bytes → ℕ → ℕ → HashMap Bytes
unfolding entry_at
repeats rand h i zero = []
repeats rand h i (suc k) = entry_at h (rand i % length h) ∷ repeats rand h (suc i) k

unfoldable pub pick : (ℕ → ℕ) → HashMap Bytes → ℤ → HashMap Bytes
unfolding entry_at repeats indices shuffle
pick rand [] n = []
pick rand (e ∷ h) (negsuc n) = repeats rand (e ∷ h) 0 (suc n)
pick rand (e ∷ h) (pos n) =
    let len = length (e ∷ h) in
    let k = min n len in map (entry_at (e ∷ h)) (take k (shuffle rand len 0 k (indices 0 len)))

fields : HashMap Bytes → Frames
fields [] = nil
fields ((k, v) ∷ h) = cons (bulk k) (fields h)

with_values : HashMap Bytes → FramePairs
with_values [] = no_pairs
with_values ((k, v) ∷ h) = pair (bulk k) (bulk v) (with_values h)

one_field : (ℕ → ℕ) → HashMap Bytes → Frame
unfolding entry_at
one_field rand [] = null
one_field rand (e ∷ h) = bulk (entry_at (e ∷ h) (rand 0 % length (e ∷ h))).0

values_word : List Bytes → Checked Bool
values_word [] = go false
values_word (w ∷ ws) = if is_word w "WITHVALUES" then go true else fail (err "syntax error")

shown : Bool → HashMap Bytes → Frame
unfolding fields with_values
shown false h = array (fields h)
shown true h = pairs (with_values h)

entries_of : Option (HashMap Bytes) → HashMap Bytes
entries_of none = []
entries_of (some h) = h

drawn : (ℕ → ℕ) → ℕ → Db → Bytes → Bytes → List Bytes → Db × Frame
unfolding pick values_word shown entries_of
drawn rand now db key a rest =
    let (db1, t) = get_hash now db key in
    or_wrongtype db1 t λ o.
      or_reply db1 (parse_int a)
        λ n. or_reply db1 (values_word rest) λ b. (db1, shown b (pick rand (entries_of o) n))

unfoldable pub hrandfield : (ℕ → ℕ) → ℕ → Db → List Bytes → Db × Frame
unfolding one_field drawn
hrandfield rand now db (_ ∷ key ∷ []) = read_hash now db key null (one_field rand)
hrandfield rand now db (_ ∷ key ∷ a ∷ []) = drawn rand now db key a []
hrandfield rand now db (_ ∷ key ∷ a ∷ w ∷ []) = drawn rand now db key a (w ∷ [])
hrandfield rand now db _ = (db, wrong_args "hrandfield")
