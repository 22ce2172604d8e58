-- ===== src/Spinlock.antt =====
-- source/spinlock.cpp: spin locks, each a mutex of libnx that a thread does not take twice. A lock is
-- its address, with 0 for null; the uninterruptible calls are the same functions. In a wait with a
-- deadline other threads run between the turns, so that the lock and the counter of each turn are
-- arguments.
pub mod Timed
mod Tests
use coreinit_nx.Base.{
  ℕ, zero, suc, ◌+◌, ◌-◌, ◌*◌, ◌/◌, ◌%◌, ◌^◌, Bool, true, false, Option, none, some, ltb, leb, ◌==◌,
  if◌then◌else◌,
}
use coreinit_nx.Base.Int.{ℤ, pos, ltb_ℤ, pos_part}
use coreinit_nx.Handles.{HandleTable, with_host}
use coreinit_nx.Mutex.{KernelMutex}

-- What a turn of a timed wait ends with: the answer and the lock.
pub record TimedTurn (S : Type 0) : Type 0 where
  pub answer : ℕ
  pub lock : S

module _ (K : KernelMutex) where
  -- `HostSpinLock` holds only its lock.
  abbrev pub SpinLocks : Type 0
  SpinLocks = HandleTable K.State

  pub os_init_spin_lock : SpinLocks → ℕ → SpinLocks
  os_init_spin_lock locks l =
      if l == 0 then locks else (with_host {0, 0} K.created (λ s. (s, tt)) l locks).0

  -- `acquire`; without an answer the thread waits in `mutexLock`.
  pub acquire_spin_lock : ℕ → SpinLocks → ℕ → SpinLocks × Option ℕ
  acquire_spin_lock t locks l =
      if l == 0
      then (locks, some 0)
      else with_host K.created
          (λ s. elim (K.acquire t s) [ none ↦ (s, none) | some s' ↦ (s', some 1) ]) l locks

  -- `tryAcquire`.
  pub try_acquire_spin_lock : ℕ → SpinLocks → ℕ → SpinLocks × ℕ
  try_acquire_spin_lock t locks l =
      if l == 0
      then (locks, 0)
      else with_host K.created (λ s. elim (K.acquire t s) [ none ↦ (s, 0) | some s' ↦ (s', 1) ]) l
          locks

  -- `release`.
  pub release_spin_lock : ℕ → SpinLocks → ℕ → SpinLocks × ℕ
  release_spin_lock t locks l =
      if l == 0 then (locks, 0) else with_host K.created (λ s. (K.release t s, 1)) l locks

  -- `tryAcquireTimeout`: its deadline, and its turns from the k-th on, at most as many as there is fuel.
  abbrev pub wait_until : ℕ → ℤ → ℕ
  wait_until tick timeout = (tick + pos_part timeout * 1024 % 2 ^ 64 / 3315) % 2 ^ 64

  abbrev pub last_turn :
      Bool → TimedTurn K.State → Option (TimedTurn K.State) → Option (TimedTurn K.State)
  last_turn true stop go = some stop
  last_turn false stop go = go

  pub timed_turns : ℕ → ℕ → (ℕ → K.State) → (ℕ → ℕ) → ℕ → ℕ → Option (TimedTurn K.State)
  timed_turns t until locks clock zero k = none
  timed_turns t until locks clock (suc fuel) k =
      let later = timed_turns t until locks clock fuel (k + 1) in
      elim (K.acquire t (locks k)) [
        | some s ↦ some (record { answer = 1; lock = s })
        | none ↦ last_turn (leb until (clock k)) (record { answer = 0; lock = locks k }) later
      ]

  pub try_acquire_timeout : ℕ → ℕ → ℤ → (ℕ → K.State) → (ℕ → ℕ) → ℕ → ℕ → Option (TimedTurn K.State)
  try_acquire_timeout t tick timeout locks clock fuel l =
      if l == 0
      then some (record { answer = 0; lock = locks 0 })
      else timed_turns t (wait_until tick timeout) locks clock fuel 0
