-- ===== src/Semaphore/Tests.antt =====
-- A semaphore of two.
use coreinit_nx.Base.{arith, ◌≡◌, List, [], ◌∷◌}
use coreinit_nx.Base.Int.{pos, ◌+ℤ◌, ◌≤ℤ◌}
use coreinit_nx.Semaphore.{HostSemaphore}
use coreinit_nx.Semaphore.Counting.{
  Attempt, signals, waits, try_waits, run, signals_in, count_max, takes_in, Serves,
  run_count_bounds,
}

abbrev two : HostSemaphore
two = record { count = pos 2 }

abbrev attempts : List Attempt
attempts = waits ∷ try_waits ∷ waits ∷ try_waits ∷ signals ∷ waits ∷ []

in_range : two.count +ℤ pos (signals_in attempts) ≤ℤ count_max
unfolding ◌+ℤ◌
in_range = omega arith

run_count_bounds_example :
    (two.count +ℤ pos (signals_in attempts)
      ≡ (run two attempts).semaphore.count +ℤ pos (run two attempts).taken)
    × (pos 0 ≤ℤ (run two attempts).semaphore.count)
    × ((run two attempts).semaphore.count ≤ℤ count_max)
    × Serves two.count (takes_in attempts) (run two attempts).taken
run_count_bounds_example = run_count_bounds two attempts (omega arith) in_range
