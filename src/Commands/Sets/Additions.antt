-- ===== src/Commands/Sets/Additions.antt =====
-- src/commands/set.rs: what SADD leaves.
use meebis.Base.{ℕ, ◌+◌, ◌≡◌, refl, ◌||◌, List, [], ◌∷◌, Option, some, if◌then◌else◌, length}
use meebis.Base.Bytes.{Bytes, bytes_eq}
use meebis.Base.HashSet
use meebis.Base.HashSet.{HashSet, IsSetOf, insert-IsSetOf}
use meebis.Resp.Frame.{count}
use meebis.Db.{Db, Entry, set_of, expiry_of}
use meebis.Db.Typed.{typed}
use meebis.Db.View.{view}
use meebis.Db.Writes.{set_or_empty, get_or_create_set_result, view-get_or_create_set}
use meebis.Commands.Sets.{insert_all, sadd}
use meebis.Commands.Sets.Members.{insert_all_lem}

insert_all-IsSetOf : (s : HashSet) (ms : List Bytes) → IsSetOf s → IsSetOf (insert_all s ms).0
unfolding insert_all
insert_all-IsSetOf s [] h = h
insert_all-IsSetOf s (m ∷ ms) h =
    insert_all-IsSetOf (HashSet.insert s m).0 ms (insert-IsSetOf s m h)

-- The entry that SADD leaves.
abbrev pub set_entry : HashSet → Option Entry → Option Entry
set_entry s old = some (record { value = set_of s; expire_at = expiry_of old })

-- SADD with at least one member, on a set or a missing key: the set that is left holds the old members
-- and the given ones, each once, it has grown by the number that SADD replies with, it keeps its
-- expiry, and no other key changes.
pub sadd_lem :
    (now : ℕ) (db : Db) (command key m : Bytes) (ms : List Bytes) (s : HashSet)
    → set_or_empty (view now db key) ≡ typed s
    → IsSetOf s
    → let (db', reply) = sadd now db (command ∷ key ∷ m ∷ ms) in
      (s' : HashSet) × (n : ℕ) × (reply ≡ count n)
      × (length s' ≡ length s + n)
      × IsSetOf s'
      × ((b : Bytes)
          → HashSet.contains s' b ≡ (HashSet.contains s b || HashSet.contains (m ∷ ms) b))
      × ((j : Bytes)
          → view now db' j
            ≡ (if bytes_eq key j then set_entry s' (view now db key) else view now db j))
unfolding sadd
sadd_lem now db command key m ms s e d =
    let s' : HashSet = (insert_all s (m ∷ ms)).0 in
    let (members, grown) = insert_all_lem s (m ∷ ms) in
    (
      s',
      (insert_all s (m ∷ ms)).1,
      rw (get_or_create_set_result now db key, e) refl,
      grown,
      insert_all-IsSetOf s (m ∷ ms) d,
      members,
      λ j.
          rw (get_or_create_set_result now db key, e)
            (view-get_or_create_set now db key (set_of s') j),
    )
