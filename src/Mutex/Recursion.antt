-- ===== src/Mutex/Recursion.antt =====
-- The mutex as one owner and a depth: the calls of the code do what those of this specification do.
use coreinit_nx.Base.{
  ℕ, zero, suc, ◌+◌, ◌-◌, ◌%◌, ◌^◌, ◌<◌, ◌≡◌, refl, sym, subst, Bool, true, false, Option, none,
  some, ◌==◌, if◌then◌else◌, arith,
}
use coreinit_nx.Mutex.{KernelMutex, IsFree, MutexLaws, HostMutex, lock_mutex, unlock_mutex}

-- The owner and how often it holds the mutex.
abbrev pub Held : Type 0
Held = Option (ℕ × ℕ)

-- A lock by a thread: `none` waits.
unfoldable pub spec_lock : ℕ → Held → Option Held
spec_lock t none = some (some (t, 1))
spec_lock t (some (u, n)) = if u == t then some (some (u, n + 1)) else none

unfoldable pub spec_unlock : ℕ → Held → Held
spec_unlock t none = none
spec_unlock t (some (u, n)) =
    if u == t then (if n == 1 then none else some (u, n - 1)) else some (u, n)

abbrev pub depth : Held → ℕ
depth none = 0
depth (some (u, n)) = n

module _ (K : KernelMutex) where
  -- A mutex of the code is as the specification's.
  abbrev pub Models : HostMutex K.State → Held → Type 0
  Models h none = IsFree K h.lock
  Models h (some (u, n)) = (K.is_locked_by h.lock u ≡ true) × (h.count ≡ n) × (0 < n) × (n < 2 ^ 32)

  -- Both wait, or both go on and agree.
  abbrev pub Agrees : Option (HostMutex K.State) → Option Held → Type 0
  Agrees none none = Unit
  Agrees (some h) (some o) = Models h o
  Agrees _ _ = ⊥

module _ (K : KernelMutex) (laws : MutexLaws K) where
  lock_free :
      (t : ℕ) (h : HostMutex K.State)
      → IsFree K h.lock
      → Agrees K (lock_mutex K t h) (some (some (t, 1)))
  unfolding lock_mutex
  lock_free t h f =
      let (s, e) = laws.acquire_free t h.lock f in
      let step : lock_mutex K t h ≡ some (record { lock = s; count = 1 }) = simp (f t, e) in
      subst (λ x. Agrees K x (some (some (t, 1)))) (sym step)
        (laws.acquire_owned t h.lock s e, refl, omega arith, omega arith)

  lock_own :
      (t n : ℕ) (h : HostMutex K.State)
      → K.is_locked_by h.lock t ≡ true
      → h.count ≡ n
      → suc n < 2 ^ 32
      → Agrees K (lock_mutex K t h) (some (some (t, n + 1)))
  unfolding lock_mutex
  lock_own t n h own c d =
      let step : lock_mutex K t h
          ≡ some (record { lock = h.lock; count = (h.count + 1) % 2 ^ 32 }) =
        simp own in
      subst (λ x. Agrees K x (some (some (t, n + 1)))) (sym step)
        (own, omega arith, omega arith, omega arith)

  -- A mutex that another thread holds.
  not_owner :
      (t u : ℕ) (h : HostMutex K.State)
      → K.is_locked_by h.lock u ≡ true
      → (u == t) ≡ false
      → K.is_locked_by h.lock t ≡ false
  not_owner t u h own e = laws.owner_unique u t h.lock own (λ p. absurd (ground (arith, e, p)))

  pub lock_taken :
      (t u : ℕ) (h : HostMutex K.State)
      → K.is_locked_by h.lock u ≡ true
      → (u == t) ≡ false
      → lock_mutex K t h ≡ none
  unfolding lock_mutex
  lock_taken t u h own e = simp (not_owner t u h own e, laws.acquire_taken t u h.lock own)

  lock_held :
      (t u n : ℕ) (h : HostMutex K.State) (same : Bool)
      → (u == t) ≡ same
      → K.is_locked_by h.lock u ≡ true
      → h.count ≡ n
      → suc n < 2 ^ 32
      → Agrees K (lock_mutex K t h) (if same then some (some (u, n + 1)) else none)
  lock_held t u n h true e own c d =
      let p : u ≡ t = ground (arith, e) in
      subst (λ x. Agrees K (lock_mutex K t h) (some (some (x, n + 1)))) (sym p)
        (lock_own t n h (subst (λ x. K.is_locked_by h.lock x ≡ true) p own) c d)
  lock_held t u n h false e own c d = subst (λ x. Agrees K x none) (sym (lock_taken t u h own e)) tt

  -- By the laws of libnx's mutex, a lock below the deepest recursion, 2 ^ 32 - 1, of a mutex that
  -- is as the specification's waits just where the specification waits, on a mutex that another
  -- thread holds; else the thread holds it once more.
  pub lock_refines :
      (t : ℕ) (h : HostMutex K.State) (o : Held)
      → Models K h o
      → suc (depth o) < 2 ^ 32
      → Agrees K (lock_mutex K t h) (spec_lock t o)
  unfolding spec_lock
  lock_refines t h none f d = lock_free t h f
  lock_refines t h (some (u, n)) (own, c, l, b) d = lock_held t u n h (u == t) refl own c d

  unlock_own :
      (t n : ℕ) (h : HostMutex K.State)
      → K.is_locked_by h.lock t ≡ true
      → h.count ≡ n
      → 0 < n
      → n < 2 ^ 32
      → Models K (unlock_mutex K t h) (if n == 1 then none else some (t, n - 1))
  unfolding unlock_mutex
  unlock_own t zero h own c l b = absurd (omega arith)
  unlock_own t (suc zero) h own c l b =
      let last : (h.count + (2 ^ 32 - 1)) % 2 ^ 32 ≡ 0 = omega arith in
      let step : unlock_mutex K t h ≡ record { lock = K.release t h.lock; count = 0 } =
        simp (own, last) in
      subst (λ x. IsFree K x.lock) (sym step) (laws.release-IsFree t h.lock own)
  unlock_own t (suc (suc n)) h own c l b =
      let more : (suc n == 0) ≡ false = ground arith in
      let left : (h.count + (2 ^ 32 - 1)) % 2 ^ 32 ≡ suc n = omega arith in
      let step : unlock_mutex K t h ≡ record { lock = h.lock; count = suc n } =
        simp (own, left, more) in
      let kept : if◌then◌else◌ {A = Held} (suc (suc n) == 1) none (some (t, suc (suc n) - 1))
          ≡ some (t, suc n) =
        ground arith in
      subst (λ o. Models K (unlock_mutex K t h) o) (sym kept)
        (subst (λ x. Models K x (some (t, suc n))) (sym step) (own, refl, omega arith, omega arith))

  unlock_other :
      (t : ℕ) (h : HostMutex K.State) (o : Held)
      → K.is_locked_by h.lock t ≡ false
      → Models K h o
      → Models K (unlock_mutex K t h) o
  unfolding unlock_mutex
  unlock_other t h o not m =
      let step : unlock_mutex K t h ≡ h = simp not in subst (λ x. Models K x o) (sym step) m

  unlock_held :
      (t u n : ℕ) (h : HostMutex K.State) (same : Bool)
      → (u == t) ≡ same
      → Models K h (some (u, n))
      → Models K
          (unlock_mutex K t h)
          (if same then (if n == 1 then none else some (u, n - 1)) else some (u, n))
  unlock_held t u n h true e (own, c, l, b) =
      let p : u ≡ t = ground (arith, e) in
      subst (λ x. Models K (unlock_mutex K t h) (if n == 1 then none else some (x, n - 1))) (sym p)
        (unlock_own t n h (subst (λ x. K.is_locked_by h.lock x ≡ true) p own) c l b)
  unlock_held t u n h false e (own, c, l, b) =
      unlock_other t h (some (u, n)) (not_owner t u h own e) (own, c, l, b)

  -- By the laws of libnx's mutex, an unlock of a mutex that is as the specification's takes one
  -- off the depth if the owner calls it and frees the mutex at the last; any other unlock changes
  -- nothing.
  pub unlock_refines :
      (t : ℕ) (h : HostMutex K.State) (o : Held)
      → Models K h o
      → Models K (unlock_mutex K t h) (spec_unlock t o)
  unfolding spec_unlock
  unlock_refines t h none f = unlock_other t h none (f t) f
  unlock_refines t h (some (u, n)) m = unlock_held t u n h (u == t) refl m
