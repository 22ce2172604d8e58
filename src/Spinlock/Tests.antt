-- ===== src/Spinlock/Tests.antt =====
-- A lock that another thread holds for two turns.
use coreinit_nx.Base.{ℕ, ◌*◌, ◌≡◌, Option, none, some, ltb, if◌then◌else◌, arith}
use coreinit_nx.Base.Int.{pos}
use coreinit_nx.Mutex.Owner.{owner_mutex}
use coreinit_nx.Spinlock.{TimedTurn, wait_until, try_acquire_timeout}
use coreinit_nx.Spinlock.Timed.{IsEnd, try_acquire_timeout_lem}

abbrev two_turns : ℕ → Option ℕ
two_turns k = if ltb k 2 then some 7 else none

try_acquire_timeout_lem_example :
    (r : TimedTurn (Option ℕ)) × (try_acquire_timeout owner_mutex 4 0
        (pos 3315)
        two_turns
        (λ k. k * 500)
        4
        16
      ≡ some r)
    × IsEnd owner_mutex 4 (wait_until owner_mutex 0 (pos 3315)) two_turns (λ k. k * 500) 0 3 r
try_acquire_timeout_lem_example =
    try_acquire_timeout_lem owner_mutex 4 0 (pos 3315) two_turns (λ k. k * 500) 3 16 (omega arith)
      (omega arith)
