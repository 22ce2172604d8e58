-- ===== src/Mutex/Tests.antt =====
-- Mutexes that a thread holds twice.
use coreinit_nx.Base.{ℕ, ◌+◌, ◌-◌, ◌≡◌, refl, Option, none, some, true, arith}
use coreinit_nx.Mutex.{HostMutex, lock_mutex, unlock_mutex, begin_wait, end_wait}
use coreinit_nx.Mutex.Recursion.{
  Models, Agrees, spec_lock, spec_unlock, lock_refines, unlock_refines,
}
use coreinit_nx.Mutex.Monitor.{
  Monitor, update, start, locks, unlocks, waits, wakes, Run, starts, goes_on,
}
use coreinit_nx.Mutex.Monitor.Runs.{monitor_excludes}
use coreinit_nx.Mutex.Owner.{owner_mutex, owner_mutex-MutexLaws}

-- Thread 4 holds it twice.
abbrev twice : HostMutex (Option ℕ)
twice = record { lock = some 4; count = 2 }

twice-Models : Models owner_mutex twice (some (4, 2))
twice-Models = (refl, refl, omega arith, omega arith)

lock_refines_example :
    Agrees owner_mutex (lock_mutex owner_mutex 4 twice) (spec_lock 4 (some (4, 2)))
lock_refines_example =
    lock_refines owner_mutex owner_mutex-MutexLaws 4 twice (some (4, 2)) twice-Models (omega arith)

unlock_refines_example :
    Models owner_mutex (unlock_mutex owner_mutex 4 twice) (spec_unlock 4 (some (4, 2)))
unlock_refines_example =
    unlock_refines owner_mutex owner_mutex-MutexLaws 4 twice (some (4, 2)) twice-Models

-- Thread 4 locks the mutex twice and waits, thread 5 locks it and gives it up, and thread 4 is woken.
abbrev one : HostMutex (Option ℕ) → Monitor owner_mutex
one h = record { host = h; held = update (λ t. 0) 4 1; asleep = λ t. none }

abbrev two : Monitor owner_mutex
two =
    let s = one (record { lock = some 4; count = 1 }) in
    record s { host = twice; held = update s.held 4 (s.held 4 + 1) }

abbrev waiting : Monitor owner_mutex
waiting = record two {
  host = (begin_wait owner_mutex 4 two.host).0;
  asleep = update two.asleep 4 (some (begin_wait owner_mutex 4 two.host).1);
}

abbrev lent : Monitor owner_mutex
lent = record waiting {
  host = record { lock = some 5; count = 1 };
  held = update waiting.held 5 (waiting.held 5 + 1);
}

abbrev back : Monitor owner_mutex
back = record lent {
  host = unlock_mutex owner_mutex 5 lent.host;
  held = update lent.held 5 (lent.held 5 - 1);
}

abbrev awake : Monitor owner_mutex
awake = record back { host = twice; asleep = update back.asleep 4 none }

awake-Run : Run owner_mutex awake
unfolding begin_wait unlock_mutex end_wait lock_mutex
awake-Run =
    let first =
      goes_on starts (
        locks (start owner_mutex) 4 (record { lock = some 4; count = 1 }) refl (omega arith)
          refl) in
    let second =
      goes_on first
        (locks (one (record { lock = some 4; count = 1 })) 4 twice refl (omega arith) refl) in
    let third = goes_on second (waits two 4 refl (omega arith)) in
    let fourth =
      goes_on third
        (locks waiting 5 (record { lock = some 5; count = 1 }) refl (omega arith) refl) in
    let fifth = goes_on fourth (unlocks lent 5 refl) in
    goes_on fifth (wakes back 4 2 twice refl refl)

monitor_excludes_example :
    (◌≡◌ {A = ℕ} 4 4)
    × (owner_mutex.is_locked_by awake.host.lock 4 ≡ true)
    × (awake.host.count ≡ awake.held 4)
monitor_excludes_example =
    monitor_excludes owner_mutex owner_mutex-MutexLaws awake 4 4 awake-Run refl (omega arith) refl
      (omega arith)
