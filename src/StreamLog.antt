-- ===== src/StreamLog.antt =====
-- src/db.rs: stream ids and the stream type.
mod Tests
use meebis.Base.{
  ℕ, ◌+◌, ◌-◌, ◌^◌, ◌<◌, ◌≡◌, List, Option, none, some, arith, ◌==◌, if◌then◌else◌, ◌⊎◌,
}
use meebis.Base.Bytes.{Bytes}

-- Two `u64` values, ordered lexicographically.
pub record StreamId : Type 0 where
  pub ms : ℕ
  pub seq : ℕ

abbrev pub u64_max : ℕ
u64_max = 2 ^ 64 - 1

pub next : StreamId → Option StreamId
next s =
    if s.seq == u64_max
    then (if s.ms == u64_max then none else some (record { ms = s.ms + 1; seq = 0 }))
    else some (record { ms = s.ms; seq = s.seq + 1 })

-- The entries are in the order of their ids.
pub record Stream : Type 0 where
  pub entries : List (StreamId × List (Bytes × Bytes))
  pub last_id : StreamId
  pub max_deleted_id : StreamId

abbrev pub IsU64 : StreamId → Type 0
IsU64 s = (s.ms < 2 ^ 64) × (s.seq < 2 ^ 64)

-- `(ms, seq)` in lexicographic order.
abbrev pub Precedes : StreamId → StreamId → Type 0
Precedes a b = (a.ms < b.ms) ⊎ ((a.ms ≡ b.ms) × (a.seq < b.seq))

-- The next id is a pair of `u64`s, later than the id, and no other id stands between the two.
pub next_adjacent :
    (s t : StreamId)
    → IsU64 s
    → next s ≡ some t
    → IsU64 t × Precedes s t × ((r : StreamId) → IsU64 r → Precedes s r → ¬ Precedes r t)
unfolding next
next_adjacent s t h e = (ground arith, ground arith, λ r k p q. ground arith)

-- Only the largest id has no next one.
pub next-none : (s : StreamId) → IsU64 s → next s ≡ none → (s.ms ≡ u64_max) × (s.seq ≡ u64_max)
unfolding next
next-none s h e = ground arith
