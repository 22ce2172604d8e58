-- ===== src/Mutex/Monitor.antt =====
-- Threads that lock, unlock and wait with one mutex, in any order: the steps of each are the calls of
-- source/mutex.cpp and source/cond.cpp, as far as they go without waiting.
pub mod Exclusion
pub mod Runs
use coreinit_nx.Base.{
  ℕ, zero, suc, ◌+◌, ◌-◌, ◌^◌, ◌≤◌, ◌<◌, ◌≡◌, ◌≢◌, refl, sym, ap, ◌∙◌, subst, inl, inr, Bool, true,
  false, Option, none, some, ◌==◌, ==_self, if◌then◌else◌, Bool-cases, Option-cases, arith,
}
use coreinit_nx.Mutex.{
  KernelMutex, MutexLaws, HostMutex, fresh, lock_mutex, try_lock_mutex, unlock_mutex, begin_wait,
  end_wait,
}
use coreinit_nx.Mutex.Recursion.{
  Held, Models, Agrees, spec_lock, spec_unlock, depth, lock_refines, unlock_refines,
}
use coreinit_nx.Mutex.Waiting.{spec_wake, begin_wait_frees, end_wait_restores}

-- The mutex, how often each thread has locked it and not unlocked it, and, for a thread that waits for the
-- condition, the depth that its call saved.
pub record Monitor (K : KernelMutex) : Type 0 where
  pub host : HostMutex K.State
  pub held : ℕ → ℕ
  pub asleep : ℕ → Option ℕ

abbrev pub update : {A : Type 0} → (ℕ → A) → ℕ → A → ℕ → A
update f t v u = if u == t then v else f u

abbrev pub start : (K : KernelMutex) → Monitor K
start K = record { host = fresh K; held = λ t. 0; asleep = λ t. none }

-- A thread that is asleep makes no call; a signal, or none, may wake it at any time.
pub data Step (K : KernelMutex) : Monitor K → Monitor K → Type 0 where
  locks :
      (s : Monitor K) (t : ℕ) (h : HostMutex K.State)
      → s.asleep t ≡ none
      → s.held t + 1 < 2 ^ 32
      → lock_mutex K t s.host ≡ some h
      → Step K s (record s { host = h; held = update s.held t (s.held t + 1) })
  tries :
      (s : Monitor K) (t : ℕ)
      → s.asleep t ≡ none
      → s.held t + 1 < 2 ^ 32
      → Step K s (record s {
        host = (try_lock_mutex K t s.host).0;
        held = update s.held t (s.held t + (try_lock_mutex K t s.host).1);
      })
  unlocks :
      (s : Monitor K) (t : ℕ)
      → s.asleep t ≡ none
      → Step K s
          (record s { host = unlock_mutex K t s.host; held = update s.held t (s.held t - 1) })
  waits :
      (s : Monitor K) (t : ℕ)
      → s.asleep t ≡ none
      → 0 < s.held t
      → Step K s (record s {
        host = (begin_wait K t s.host).0;
        asleep = update s.asleep t (some (begin_wait K t s.host).1);
      })
  wakes :
      (s : Monitor K) (t saved : ℕ) (h : HostMutex K.State)
      → s.asleep t ≡ some saved
      → end_wait K t saved s.host ≡ some h
      → Step K s (record s { host = h; asleep = update s.asleep t none })

pub data Run (K : KernelMutex) : Monitor K → Type 0 where
  starts : Run K (start K)
  goes_on : {s s' : Monitor K} → Run K s → Step K s s' → Run K s'

-- How often a thread holds the mutex of the specification.
abbrev pub depth_of : Held → ℕ → ℕ
depth_of none t = 0
depth_of (some (u, n)) t = if u == t then n else 0

-- What a thread counts is what it holds; one that waits holds nothing and has its depth saved.
abbrev pub Counts : Held → ℕ → ℕ → Option ℕ → Type 0
Counts o t n none = n ≡ depth_of o t
Counts o t n (some saved) = (saved ≡ n) × (0 < n) × (n < 2 ^ 32) × (depth_of o t ≡ 0)

-- The mutex is as the specification's for some owner, and every thread's count is right.
abbrev pub IsRight : (K : KernelMutex) → Monitor K → Held → Type 0
IsRight K s o = Models K s.host o × ((t : ℕ) → Counts o t (s.held t) (s.asleep t))
