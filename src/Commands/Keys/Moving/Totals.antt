-- ===== src/Commands/Keys/Moving/Totals.antt =====
-- src/commands/generic.rs: panics of SWAPDB, MOVE and COPY, and the number of databases behind them.
use meebis.Base.{
  ℕ, ◌<◌, ◌≡◌, refl, sym, ◌∙◌, Bool, true, false, not, ◌&&◌, List, [], ◌∷◌, Option, none, some,
  arith, ◌==◌, if◌then◌else◌, length, Bool-cases, inl, inr, ==_iff, ltb, ltb→lt,
}
use meebis.Base.Bytes.{Bytes, bytes_eq}
use meebis.Base.Int.{ℤ, pos, negsuc, pos_part}
use meebis.Resp.Frame.{Frame, err}
use meebis.Db
use meebis.Db.{Db, Value}
use meebis.Keyspace
use meebis.Keyspace.{Keyspace, put_db}
use meebis.Keyspace.Laws.{swap_lem, present, pair-some, length-put_db}
use meebis.Commands.Args.{Checked, go, fail, ◌>>=◌, parse_int, is_word}
use meebis.Commands.Keys.Moving.{
  CopyOptions, checked_index, copy_options, copy_into, copy_value, copy_from, copy_key, copy,
  or_refuse, put_taken, move_between, move_to, move_key, or_invalid, swap_reply, swap_valid, swapdb,
}

-- A result that is there, on as many databases.
unfoldable pub IsTotal : ℕ → Option (Keyspace × Frame) → Type 0
IsTotal n none = ⊥
IsTotal n (some (ks, f)) = length ks ≡ n

-- An index that was read is in range.
InRange : ℕ → Checked ℕ → Type 0
InRange n (fail f) = Unit
InRange n (go i) = i < n

checked_index-InRange : (ks : Keyspace) (n : ℤ) → InRange (length ks) (checked_index ks n)
unfolding InRange checked_index Keyspace.is_valid
checked_index-InRange ks (pos n) = elim (Bool-cases (ltb n (length ks))) [
  | inl y ↦ rw y (ltb→lt n (length ks) y)
  | inr b ↦ rw b tt
]
checked_index-InRange ks (negsuc n) = tt

bound-InRange : (ks : Keyspace) (o : Checked ℤ) → InRange (length ks) (o >>= checked_index ks)
unfolding InRange
bound-InRange ks (go n) = checked_index-InRange ks n
bound-InRange ks (fail f) = tt

refuse-IsTotal :
    (ks : Keyspace) (o : Checked ℕ) (k : ℕ → Option (Keyspace × Frame))
    → InRange (length ks) o
    → ((i : ℕ) → i < length ks → IsTotal (length ks) (k i))
    → IsTotal (length ks) (or_refuse ks o k)
unfolding InRange IsTotal
refuse-IsTotal ks (fail f) k h t = refl
refuse-IsTotal ks (go i) k h t = t i h

put_taken-IsTotal :
    (ks : Keyspace) (i j : ℕ) (key : Bytes) (src dst : Db) (o : Option (Value × Option ℕ))
    → length (put_taken ks i j key src dst o).0 ≡ length ks
unfolding put_taken
put_taken-IsTotal ks i j key src dst none =
    length-put_db (put_db ks i src) j dst ∙ length-put_db ks i src
put_taken-IsTotal ks i j key src dst (some (v, t)) =
    length-put_db (put_db ks i src) j (Db.put dst key v t) ∙ length-put_db ks i src

move_between-IsTotal :
    (now : ℕ) (ks : Keyspace) (i j : ℕ) (key : Bytes) (src dst : Db)
    → length (move_between now ks i j key src dst).0 ≡ length ks
unfolding move_between
move_between-IsTotal now ks i j key src dst = elim (Bool-cases (Db.contains now dst key).1) [
  | inl y ↦ rw y (length-put_db ks j (Db.contains now dst key).0)
  | inr n ↦
      rw n (put_taken-IsTotal ks i j key (Db.take now src key).0 (Db.contains now dst key).0 _)
]

move_to-IsTotal :
    (now : ℕ) (ks : Keyspace) (i j : ℕ) (key : Bytes)
    → i < length ks
    → j < length ks
    → IsTotal (length ks) (move_to now ks i j key)
unfolding move_to IsTotal
move_to-IsTotal now ks i j key h k = elim (Bool-cases (j == i)) [
  | inl y ↦ rw y refl
  | inr n ↦
      let (src, p) = present ks i h in
      let (dst, q) = present ks j k in
      rw (n, pair-some ks i j src dst (λ e. cc (n, (==_iff j i).1 (sym e))) p q)
        (move_between-IsTotal now ks i j key src dst)
]

pub move_key-IsTotal :
    (now : ℕ) (ks : Keyspace) (i : ℕ) (args : List Bytes)
    → i < length ks
    → IsTotal (length ks) (move_key now ks i args)
unfolding move_key
move_key-IsTotal now ks i (_ ∷ key ∷ a ∷ []) h =
    refuse-IsTotal ks _ _ (bound-InRange ks (parse_int a)) λ j k. move_to-IsTotal now ks i j key h k
move_key-IsTotal now ks i _ h = unfold IsTotal in refl

OptionsIn : Keyspace → Checked CopyOptions → Type 0
OptionsIn ks (fail f) = Unit
OptionsIn ks (go o) = o.dst_db < length ks

index-OptionsIn :
    (ks : Keyspace) (i : Checked ℕ) (k : ℕ → Checked CopyOptions)
    → InRange (length ks) i
    → ((j : ℕ) → j < length ks → OptionsIn ks (k j))
    → OptionsIn ks (i >>= k)
unfolding OptionsIn InRange
index-OptionsIn ks (fail f) k h t = tt
index-OptionsIn ks (go i) k h t = t i h

int-OptionsIn :
    (ks : Keyspace) (n : Checked ℤ) (k : ℤ → Checked CopyOptions)
    → ((n : ℤ) → OptionsIn ks (k n))
    → OptionsIn ks (n >>= k)
unfolding OptionsIn
int-OptionsIn ks (fail f) k t = tt
int-OptionsIn ks (go n) k t = t n

copy_options-InRange :
    (ks : Keyspace) (o : CopyOptions) (opts : List Bytes)
    → o.dst_db < length ks
    → OptionsIn ks (copy_options ks o opts)
unfolding OptionsIn copy_options
copy_options-InRange ks o [] h = h
copy_options-InRange ks o (a ∷ []) h = elim (Bool-cases (is_word a "REPLACE")) [
  | inl y ↦ rw y h
  | inr n ↦ rw n tt
]
copy_options-InRange ks o (a ∷ b ∷ rest) h = elim (Bool-cases (is_word a "REPLACE")) [
  | inl y ↦ rw y (copy_options-InRange ks (record o { replace = true }) (b ∷ rest) h)
  | inr n ↦ elim (Bool-cases (is_word a "DB")) [
    | inl y ↦
        rw (n, y)
          (int-OptionsIn ks (parse_int b) _ λ n.
            index-OptionsIn ks (checked_index ks n) _ (checked_index-InRange ks n)
              λ i k. copy_options-InRange ks (record o { dst_db = i }) rest k)
    | inr m ↦ rw (n, m) tt
  ]
]

copy_into-IsTotal :
    (now : ℕ) (ks : Keyspace) (i : ℕ) (key : Bytes) (r : Bool) (v : Value) (t : Option ℕ)
    → i < length ks
    → IsTotal (length ks) (copy_into now ks i key r v t (Keyspace.db ks i))
unfolding IsTotal copy_into
copy_into-IsTotal now ks i key r v t h =
    let (d, p) = present ks i h in
    rw p (elim (Bool-cases ((Db.contains now d key).1 && not r)) [
      | inl y ↦ rw y (length-put_db ks i _)
      | inr n ↦ rw n (length-put_db ks i _)
    ])

copy_value-IsTotal :
    (now : ℕ) (ks : Keyspace) (i : ℕ) (key : Bytes) (r : Bool) (v : Option Value) (t : Option ℕ)
    → i < length ks
    → IsTotal (length ks) (copy_value now ks i key r v t)
unfolding copy_value
copy_value-IsTotal now ks i key r none t h = unfold IsTotal in refl
copy_value-IsTotal now ks i key r (some v) t h = copy_into-IsTotal now ks i key r v t h

copy_from-IsTotal :
    (now : ℕ) (ks : Keyspace) (i : ℕ) (o : CopyOptions) (src dst : Bytes) (d : Db)
    → o.dst_db < length ks
    → IsTotal (length ks) (copy_from now ks i o src dst (some d))
unfolding copy_from
copy_from-IsTotal now ks i o src dst d h =
    let d2 : Db = (Db.expire_at now (Db.get now d src).0 src).0 in
    rw (length-put_db ks i d2) at (
      copy_value-IsTotal now (put_db ks i d2) o.dst_db dst o.replace (Db.get now d src).1
        (Db.expire_at now (Db.get now d src).0 src).1 (rw (length-put_db ks i d2) h))

copy_key-IsTotal :
    (now : ℕ) (ks : Keyspace) (i : ℕ) (o : CopyOptions) (src dst : Bytes)
    → i < length ks
    → o.dst_db < length ks
    → IsTotal (length ks) (copy_key now ks i o src dst)
unfolding copy_key
copy_key-IsTotal now ks i o src dst h k =
    let (d, p) = present ks i h in
    elim (Bool-cases (o.dst_db == i && bytes_eq src dst)) [
      | inl y ↦ rw y (unfold IsTotal in refl)
      | inr n ↦ rw (n, p) (copy_from-IsTotal now ks i o src dst d k)
    ]

copied-IsTotal :
    (now : ℕ) (ks : Keyspace) (i : ℕ) (src dst : Bytes) (o : Checked CopyOptions)
    → i < length ks
    → OptionsIn ks o
    → IsTotal (length ks) (or_refuse ks o λ o. copy_key now ks i o src dst)
unfolding OptionsIn
copied-IsTotal now ks i src dst (fail f) h k = unfold IsTotal in refl
copied-IsTotal now ks i src dst (go o) h k = copy_key-IsTotal now ks i o src dst h k

pub copy-IsTotal :
    (now : ℕ) (ks : Keyspace) (i : ℕ) (args : List Bytes)
    → i < length ks
    → IsTotal (length ks) (copy now ks i args)
unfolding copy
copy-IsTotal now ks i (_ ∷ src ∷ dst ∷ opts) h =
    copied-IsTotal now ks i src dst _ h
      (copy_options-InRange ks (record { replace = false; dst_db = i }) opts h)
copy-IsTotal now ks i _ h = unfold IsTotal in refl

swapped-IsTotal :
    (ks : Keyspace) (a b : ℕ)
    → a < length ks
    → b < length ks
    → IsTotal (length ks) (swap_reply (Keyspace.swap ks a b))
unfolding swap_reply IsTotal
swapped-IsTotal ks a b h k = let (ks', e, l, _) = swap_lem ks a b h k in rw e l

valid-IsTotal :
    (ks : Keyspace) (first second : ℤ) (a b : Bool)
    → Keyspace.is_valid ks first ≡ a
    → Keyspace.is_valid ks second ≡ b
    → IsTotal (length ks) (
        if a && b
        then swap_reply (Keyspace.swap ks (pos_part first) (pos_part second))
        else some (ks, err "DB index is out of range"))
unfolding Keyspace.is_valid
valid-IsTotal ks (pos m) (pos n) true true h k =
    swapped-IsTotal ks m n (ltb→lt m (length ks) h) (ltb→lt n (length ks) k)
valid-IsTotal ks (negsuc m) second true b h k = absurd (ground arith)
valid-IsTotal ks (pos m) (negsuc n) true true h k = absurd (ground arith)
valid-IsTotal ks first second true false h k = unfold IsTotal in refl
valid-IsTotal ks first second false b h k = unfold IsTotal in refl

swap_valid-IsTotal :
    (ks : Keyspace) (first second : ℤ) → IsTotal (length ks) (swap_valid ks first second)
unfolding swap_valid
swap_valid-IsTotal ks first second = valid-IsTotal ks first second _ _ refl refl

or_refuse-IsTotal :
    (ks : Keyspace) (o : Checked ℤ) (k : ℤ → Option (Keyspace × Frame))
    → ((n : ℤ) → IsTotal (length ks) (k n))
    → IsTotal (length ks) (or_refuse ks o k)
unfolding IsTotal
or_refuse-IsTotal ks (go n) k h = h n
or_refuse-IsTotal ks (fail f) k h = refl

pub swapdb-IsTotal : (ks : Keyspace) (args : List Bytes) → IsTotal (length ks) (swapdb ks args)
unfolding swapdb
swapdb-IsTotal ks (_ ∷ a ∷ b ∷ []) =
    or_refuse-IsTotal ks (or_invalid (err "invalid first DB index") (parse_int a)) _ λ first.
      or_refuse-IsTotal ks (or_invalid (err "invalid second DB index") (parse_int b)) _
        λ second. swap_valid-IsTotal ks first second
swapdb-IsTotal ks _ = unfold IsTotal in refl
