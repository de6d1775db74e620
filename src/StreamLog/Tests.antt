-- ===== src/StreamLog/Tests.antt =====
-- Instances of the theorems about stream ids.
use meebis.Base.{arith, refl}
use meebis.StreamLog.{StreamId, IsU64, Precedes, u64_max, next, next_adjacent}

abbrev last_of_five : StreamId
last_of_five = record { ms = 5; seq = u64_max }

abbrev first_of_six : StreamId
first_of_six = record { ms = 6; seq = 0 }

next_adjacent_example :
    IsU64 first_of_six
    × Precedes last_of_five first_of_six
    × ((r : StreamId) → IsU64 r → Precedes last_of_five r → ¬ Precedes r first_of_six)
unfolding next
next_adjacent_example = next_adjacent last_of_five first_of_six (omega arith) refl
