-- ===== src/Mutex/Waiting.antt =====
-- Waiting on a condition variable with a mutex that the thread holds any number of times.
use coreinit_nx.Base.{ℕ, ◌^◌, ◌<◌, ◌≡◌, refl, sym, ap, subst, Option, none, some}
use coreinit_nx.Mutex.{KernelMutex, MutexLaws, HostMutex, begin_wait, end_wait}
use coreinit_nx.Mutex.Recursion.{Held, Models, Agrees}

-- A woken thread takes a free mutex at the depth it had, and waits for one that is held.
abbrev pub spec_wake : ℕ → ℕ → Held → Option Held
spec_wake t n none = some (some (t, n))
spec_wake t n (some x) = none

module _ (K : KernelMutex) (laws : MutexLaws K) where
  -- A thread that waits frees the mutex at whatever depth it holds it, and remembers the depth.
  pub begin_wait_frees :
      (t n : ℕ) (h : HostMutex K.State)
      → Models K h (some (t, n))
      → Models K (begin_wait K t h).0 none × ((begin_wait K t h).1 ≡ n)
  unfolding begin_wait
  begin_wait_frees t n h (own, c, l, b) = (laws.release-IsFree t h.lock own, c)

  abbrev woken : ℕ → Option K.State → Option (HostMutex K.State)
  woken n none = none
  woken n (some s) = some (record { lock = s; count = n })

  -- By the laws of libnx's mutex, a woken thread that had a positive depth gets on just when no
  -- thread holds the mutex, then at the depth it had, whatever depths other threads had meanwhile.
  pub end_wait_restores :
      (t n : ℕ) (h : HostMutex K.State) (o : Held)
      → Models K h o
      → 0 < n
      → n < 2 ^ 32
      → Agrees K (end_wait K t n h) (spec_wake t n o)
  unfolding end_wait
  end_wait_restores t n h none f l b =
      let (s, e) = laws.acquire_free t h.lock f in
      let step : end_wait K t n h ≡ some (record { lock = s; count = n }) = ap (woken n) e in
      subst (λ x. Agrees K x (some (some (t, n)))) (sym step)
        (laws.acquire_owned t h.lock s e, refl, l, b)
  end_wait_restores t n h (some (u, m)) (own, c, k, d) l b =
      let step : end_wait K t n h ≡ none = ap (woken n) (laws.acquire_taken t u h.lock own) in
      subst (λ x. Agrees K x none) (sym step) tt
