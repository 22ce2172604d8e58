-- ===== src/Mutex.antt =====
-- source/mutex.cpp, source/cond.cpp and source/internal/mutex_internal.hpp: recursive mutexes and the
-- condition variables that wait with them. The mutex of libnx is a parameter; threads are numbers.
pub mod Recursion
pub mod Waiting
pub mod Owner
pub mod Monitor
mod Tests
use coreinit_nx.Base.{
  ℕ, ◌+◌, ◌-◌, ◌%◌, ◌^◌, ◌≡◌, ◌≢◌, Bool, true, false, Option, none, some, ◌==◌, if◌then◌else◌,
}
use coreinit_nx.Handles.{HandleTable, with_host}

-- What the code calls of libnx's `Mutex`. `acquire` answers at once: `none` is a mutex that is taken,
-- where `mutexTryLock` fails and `mutexLock` waits.
pub record KernelMutex : Type 1 where
  pub State : Type 0
  pub created : State
  pub is_locked_by : State → ℕ → Bool
  pub acquire : ℕ → State → Option State
  pub release : ℕ → State → State

abbrev pub IsFree : (K : KernelMutex) → K.State → Type 0
IsFree K s = (t : ℕ) → K.is_locked_by s t ≡ false

-- What libnx documents of them.
pub record MutexLaws (K : KernelMutex) : Type 0 where
  pub created-IsFree : IsFree K K.created
  pub acquire_free : (t : ℕ) (s : K.State) → IsFree K s → (s' : K.State) × (K.acquire t s ≡ some s')
  pub acquire_owned :
      (t : ℕ) (s s' : K.State) → K.acquire t s ≡ some s' → K.is_locked_by s' t ≡ true
  pub acquire_taken : (t u : ℕ) (s : K.State) → K.is_locked_by s u ≡ true → K.acquire t s ≡ none
  pub release-IsFree : (t : ℕ) (s : K.State) → K.is_locked_by s t ≡ true → IsFree K (K.release t s)
  pub owner_unique :
      (t u : ℕ) (s : K.State) → K.is_locked_by s t ≡ true → u ≢ t → K.is_locked_by s u ≡ false

pub record HostMutex (S : Type 0) : Type 0 where
  pub lock : S
  pub count : ℕ

module _ (K : KernelMutex) where
  -- `HostMutex::init`.
  abbrev pub fresh : HostMutex K.State
  fresh = record { lock = K.created; count = 0 }

  -- `OSLockMutex` by a thread: `none` is a thread that waits.
  unfoldable pub lock_mutex : ℕ → HostMutex K.State → Option (HostMutex K.State)
  lock_mutex t h =
      if K.is_locked_by h.lock t
      then some (record { lock = h.lock; count = (h.count + 1) % 2 ^ 32 })
      else elim (K.acquire t h.lock) [
        | none ↦ none
        | some s ↦ some (record { lock = s; count = 1 })
      ]

  pub unlock_mutex : ℕ → HostMutex K.State → HostMutex K.State
  unlock_mutex t h =
      if K.is_locked_by h.lock t
      then (let n = (h.count + (2 ^ 32 - 1)) % 2 ^ 32 in
          record { lock = if n == 0 then K.release t h.lock else h.lock; count = n })
      else h

  pub try_lock_mutex : ℕ → HostMutex K.State → HostMutex K.State × ℕ
  try_lock_mutex t h =
      if K.is_locked_by h.lock t
      then (record { lock = h.lock; count = (h.count + 1) % 2 ^ 32 }, 1)
      else elim (K.acquire t h.lock) [
        | none ↦ (h, 0)
        | some s ↦ (record { lock = s; count = 1 }, 1)
      ]

  -- `OSWaitCond` up to where the thread sleeps, with the depth it saves. `condvarWait` releases the mutex.
  pub begin_wait : ℕ → HostMutex K.State → HostMutex K.State × ℕ
  begin_wait t h = (record { lock = K.release t h.lock; count = 0 }, h.count)

  -- `OSWaitCond` from where it is woken: `condvarWait` takes the mutex anew. `none` waits for it.
  pub end_wait : ℕ → ℕ → HostMutex K.State → Option (HostMutex K.State)
  end_wait t saved h = elim (K.acquire t h.lock) [
    | none ↦ none
    | some s ↦ some (record { lock = s; count = saved })
  ]

  abbrev pub Mutexes : Type 0
  Mutexes = HandleTable (HostMutex K.State)

  -- `getHostMutex`, which `OSInitMutex` and `OSInitMutexEx` only call.
  unfoldable pub os_init_mutex : Mutexes → ℕ → Mutexes
  os_init_mutex table mutex = (with_host {0, 0} fresh (λ h. (h, tt)) mutex table).0

  -- Whether the thread gets through; if not, it waits and the mutex is as it was.
  unfoldable pub os_lock_mutex : ℕ → Mutexes → ℕ → Mutexes × Bool
  os_lock_mutex t table mutex =
      with_host fresh (λ h. elim (lock_mutex t h) [ none ↦ (h, false) | some h' ↦ (h', true) ])
        mutex table

  pub os_unlock_mutex : ℕ → Mutexes → ℕ → Mutexes
  os_unlock_mutex t table mutex =
      (with_host {0, 0} fresh (λ h. (unlock_mutex t h, tt)) mutex table).0

  pub os_try_lock_mutex : ℕ → Mutexes → ℕ → Mutexes × ℕ
  os_try_lock_mutex t table mutex = with_host fresh (try_lock_mutex t) mutex table
