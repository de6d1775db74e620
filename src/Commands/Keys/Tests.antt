-- ===== src/Commands/Keys/Tests.antt =====
-- Instances of the theorems about the keyspace commands.
use meebis.Base.{
  ℕ, ◌≡◌, refl, Bool, true, false, ◌&&◌, List, [], ◌∷◌, none, some, arith, if◌then◌else◌, ◌==◌,
}
use meebis.Base.Bytes.{Bytes, codes, bytes_eq, to_ascii_uppercase}
use meebis.Base.HashMap
use meebis.Base.Int.{pos, ◌+ℤ◌, ◌*ℤ◌}
use meebis.Base.Decimal.{parse_i64}
use meebis.Resp.Frame.{count, integer}
use meebis.Db
use meebis.Db.{Db, Entry, string, is_expired}
use meebis.Db.View.{view}
use meebis.Keyspace.{Keyspace}
use meebis.Keyspace.Laws.{seen}
use meebis.Commands.Args.{parse_int, go, is_word}
use meebis.Commands.Keys.{
  ExpireOptions, expire, expire_options, clash, always, expire_key, del, expiretime,
}
use meebis.Commands.Keys.Expiry.{applies, expiring, expire_lem, expiretime-expire_key}
use meebis.Commands.Keys.Removal.{among, count_named, del_lem}
use meebis.Commands.Keys.Moving.{CopyOptions, copy_key, move_key}
use meebis.Commands.Keys.Moving.Outcome.{moves, move_key_lem}
use meebis.Commands.Keys.Moving.Copies.{Copied, copies, copy_key_lem}

abbrev key : Bytes
key = codes "k"

-- A key that expires at 50.
abbrev db : Db
db = Db.put Db.new key (string (codes "v")) (some 50)

abbrev later : ExpireOptions
later = record always { gt = true }

one_is_1 : parse_int (codes "1") ≡ go (pos 1)
unfolding parse_int parse_i64
one_is_1 = refl

later_parsed : expire_options always (codes "gt" ∷ []) ≡ go later
unfolding expire_options is_word to_ascii_uppercase bytes_eq
later_parsed = refl

no_clash : clash later ≡ false
unfolding clash
no_clash = refl

-- EXPIRE k 1 GT at 20: to 1020, from 50.
abbrev words : List Bytes
words = codes "EXPIRE" ∷ key ∷ codes "1" ∷ codes "gt" ∷ []

expire_lem_example :
    ((expire 20 db words (pos 1000) true).1
      ≡ count (if applies later (view 20 db key) (pos 20 +ℤ pos 1 *ℤ pos 1000) then 1 else 0))
    × ((j : Bytes)
        → view 20 (expire 20 db words (pos 1000) true).0 j ≡ (
            if applies later (view 20 db key) (pos 20 +ℤ pos 1 *ℤ pos 1000) && bytes_eq key j
            then expiring 20 (pos 20 +ℤ pos 1 *ℤ pos 1000) (view 20 db key)
            else view 20 db j))
expire_lem_example =
    expire_lem 20 db (codes "EXPIRE") key (codes "1") (codes "gt" ∷ []) (pos 1000) (pos 1) true
      later (omega arith) one_is_1 later_parsed no_clash

del_lem_example :
    ((del 20 db (codes "DEL" ∷ key ∷ key ∷ [])).1
      ≡ count (count_named (view 20 db) (key ∷ key ∷ [])))
    × ((j : Bytes)
        → view 20 (del 20 db (codes "DEL" ∷ key ∷ key ∷ [])).0 j
          ≡ (if among j (key ∷ key ∷ []) then none else view 20 db j))
del_lem_example = del_lem 20 db (codes "DEL") key (key ∷ [])

abbrev two : Keyspace
two = db ∷ Db.new ∷ []

abbrev moved : Bool
moved = moves (seen 20 two 0 key) (seen 20 two 1 key)

move_key_lem_example :
    (ks' : Keyspace) × (move_key 20 two 0 (codes "MOVE" ∷ key ∷ codes "1" ∷ [])
      ≡ some (ks', count (if moved then 1 else 0)))
    × ((n : ℕ) (k : Bytes)
        → seen 20 ks' n k ≡ (
            if moved
            then (if 1 == n && bytes_eq key k
                then seen 20 two 0 key
                else if 0 == n && bytes_eq key k
                then none
                else seen 20 two n k)
            else seen 20 two n k))
move_key_lem_example =
    move_key_lem 20 two 0 1 (codes "MOVE") key (codes "1") (omega arith) (omega arith) (omega arith)
      one_is_1

abbrev across : CopyOptions
across = record { replace = false; dst_db = 1 }

copy_key_lem_example :
    Copied 20 two 1 key
      (seen 20 two 0 key)
      (copies false (seen 20 two 0 key) (seen 20 two 1 key))
      (copy_key 20 two 0 across key key)
copy_key_lem_example = copy_key_lem 20 two 0 across key key (omega arith) (omega arith) refl

later-applies : applies later (view 20 db key) (pos 90) ≡ true
unfolding view Db.put is_expired HashMap.get HashMap.insert bytes_eq
later-applies = refl

expiretime-expire_key_example :
    (expiretime 20 (expire_key 20 db key later (pos 90)).0 (codes "PEXPIRETIME" ∷ key ∷ []) false).1
    ≡ integer (pos 90)
expiretime-expire_key_example =
    expiretime-expire_key 20 90 db (codes "PEXPIRETIME") key later (omega arith) (omega arith)
      no_clash later-applies
