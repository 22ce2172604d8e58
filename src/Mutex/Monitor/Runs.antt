-- ===== src/Mutex/Monitor/Runs.antt =====
-- Runs of threads over one mutex.
use coreinit_nx.Base.{ℕ, ◌<◌, ◌≡◌, refl, subst, true, none, some}
use coreinit_nx.Mutex.{KernelMutex, MutexLaws}
use coreinit_nx.Mutex.Recursion.{Held, Models}
use coreinit_nx.Mutex.Monitor.{
  Monitor, Step, locks, tries, unlocks, waits, wakes, Run, starts, goes_on, IsRight,
}
use coreinit_nx.Mutex.Monitor.Exclusion.{
  locks-IsRight, tries-IsRight, unlocks-IsRight, waits-IsRight, wakes-IsRight, Counts-awake, owned,
}

module _ (K : KernelMutex) (laws : MutexLaws K) where
  abbrev SomeRight : Monitor K → Type 0
  SomeRight s = (o : Held) × IsRight K s o

  Step-SomeRight : {s s' : Monitor K} → Step K s s' → SomeRight s → SomeRight s'
  Step-SomeRight (locks s t h a d e) (o, r) = locks-IsRight K laws s t h o a d e r
  Step-SomeRight (tries s t a d) (o, r) = tries-IsRight K laws s t o a d r
  Step-SomeRight (unlocks s t a) (o, r) = unlocks-IsRight K laws s t o a r
  Step-SomeRight (waits s t a l) (o, r) = (none, waits-IsRight K laws s t o a l r)
  Step-SomeRight (wakes s t saved h a e) (o, r) =
      (some (t, saved), wakes-IsRight K laws s t saved h o a e r)

  Run-SomeRight : {s : Monitor K} → Run K s → SomeRight s
  Run-SomeRight starts = (none, (laws.created-IsFree, λ t. refl))
  Run-SomeRight (goes_on run step) = Step-SomeRight step (Run-SomeRight run)

  -- By the laws of libnx's mutex, in every state that threads reach from a fresh mutex by locking,
  -- trying, unlocking, waiting for a condition and being woken at any time, in any order and to at most
  -- 2 ^ 32 - 1 locks deep: of the threads that are awake and have locked it more often than they unlocked
  -- it there is at most one, it owns the mutex of libnx, and the count is the difference, also after it
  -- waited.
  pub monitor_excludes :
      (s : Monitor K) (t u : ℕ)
      → Run K s
      → s.asleep t ≡ none
      → 0 < s.held t
      → s.asleep u ≡ none
      → 0 < s.held u
      → (u ≡ t) × (K.is_locked_by s.host.lock t ≡ true) × (s.host.count ≡ s.held t)
  monitor_excludes s t u run a l b k =
      let (o, (m, c)) = Run-SomeRight run in
      let own : o ≡ some (t, s.held t) =
        owned K laws o t (s.held t) (Counts-awake K laws o t (s.held t) (s.asleep t) a (c t)) l in
      let other : o ≡ some (u, s.held u) =
        owned K laws o u (s.held u) (Counts-awake K laws o u (s.held u) (s.asleep u) b (c u)) k in
      let m' = subst (λ x. Models K s.host x) own m in (cc, m'.0, m'.1)
