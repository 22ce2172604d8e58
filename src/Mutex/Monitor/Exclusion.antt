-- ===== src/Mutex/Monitor/Exclusion.antt =====
-- The mutex of the specification and each thread's count, over each step.
use coreinit_nx.Base.{
  ℕ, ◌+◌, ◌-◌, ◌^◌, ◌<◌, ◌≡◌, ◌⊎◌, ◌%◌, refl, sym, subst, inl, inr, false, Option, none, some, ◌==◌,
  ==_self, Bool-cases, Option-cases, arith,
}
use coreinit_nx.Mutex.{
  KernelMutex, MutexLaws, HostMutex, lock_mutex, try_lock_mutex, unlock_mutex, begin_wait, end_wait,
}
use coreinit_nx.Mutex.Recursion.{
  Held, Models, Agrees, spec_lock, spec_unlock, lock_refines, lock_taken, unlock_refines,
}
use coreinit_nx.Mutex.Waiting.{spec_wake, begin_wait_frees, end_wait_restores}
use coreinit_nx.Mutex.Monitor.{Monitor, update, depth_of, Counts, IsRight}

locked_count :
    (o o' : Held) (t u n m : ℕ) (w : Option ℕ)
    → spec_lock t o ≡ some o'
    → m ≡ depth_of o t
    → Counts o u n w
    → (u == t) ≡ false
    → Counts o' u n w
unfolding spec_lock
locked_count none o' t u n m none e c d f = ground (arith, e, d, f)
locked_count none o' t u n m (some k) e c d f = ground (arith, e, d, f)
locked_count (some (v, k)) o' t u n m none e c d f = ground (arith, e, d, f)
locked_count (some (v, k)) o' t u n m (some j) e c d f = ground (arith, e, d, f)

locked_self :
    (o o' : Held) (t m : ℕ) → spec_lock t o ≡ some o' → m ≡ depth_of o t → m + 1 ≡ depth_of o' t
unfolding spec_lock
locked_self none o' t m e c = ground (arith, e, c)
locked_self (some (v, k)) o' t m e c = ground (arith, e, c)

unlocked_count :
    (o : Held) (t u n : ℕ) (w : Option ℕ)
    → Counts o u n w
    → (u == t) ≡ false
    → Counts (spec_unlock t o) u n w
unfolding spec_unlock
unlocked_count none t u n w c f = c
unlocked_count (some (v, k)) t u n none c f = ground (arith, c, f)
unlocked_count (some (v, k)) t u n (some j) c f = ground (arith, c, f)

unlocked_self : (o : Held) (t n : ℕ) → n ≡ depth_of o t → n - 1 ≡ depth_of (spec_unlock t o) t
unfolding spec_unlock
unlocked_self none t n c = ground (arith, c)
unlocked_self (some (v, k)) t n c = ground (arith, c)

module _ (K : KernelMutex) (laws : MutexLaws K) where
  Agrees-some :
      (h : HostMutex K.State) (x : Option Held)
      → Agrees K (some h) x
      → (o : Held) × (x ≡ some o) × Models K h o
  Agrees-some h none a = absurd a
  Agrees-some h (some o) a = (o, refl, a)

  lock_Agrees :
      (t : ℕ) (h : HostMutex K.State) (o : Held)
      → Models K h o
      → depth_of o t + 1 < 2 ^ 32
      → Agrees K (lock_mutex K t h) (spec_lock t o)
  unfolding spec_lock
  lock_Agrees t h none m d = lock_refines K laws t h none m (omega arith)
  lock_Agrees t h (some (v, n)) m d = elim (Bool-cases (v == t)) [
    | inl e ↦ lock_refines K laws t h (some (v, n)) m (ground (arith, e, d))
    | inr e ↦ rw (lock_taken K laws t v h m.0 e, e) tt
  ]

  locked :
      (t : ℕ) (h h' : HostMutex K.State) (o : Held)
      → Models K h o
      → depth_of o t + 1 < 2 ^ 32
      → lock_mutex K t h ≡ some h'
      → (o' : Held) × (spec_lock t o ≡ some o') × Models K h' o'
  locked t h h' o m d e =
      Agrees-some h' (spec_lock t o)
        (subst (λ x. Agrees K x (spec_lock t o)) e (lock_Agrees t h o m d))

  -- What holds at one thread and at the others holds after a change at the one.
  updated :
      {B : Type 0} (P : ℕ → B → Type 0) (f : ℕ → B) (t : ℕ) (v : B)
      → P t v
      → ((u : ℕ) → (u == t) ≡ false → P u (f u))
      → (u : ℕ) → P u (update f t v u)
  updated P f t v at others u = elim (Bool-cases (u == t)) [
    | inl e ↦ let same : u ≡ t = ground (arith, e) in rw e (subst (λ x. P x v) (sym same) at)
    | inr e ↦ rw e (others u e)
  ]

  pub Counts-awake :
      (o : Held) (t n : ℕ) (w : Option ℕ) → w ≡ none → Counts o t n w → n ≡ depth_of o t
  Counts-awake o t n w e c = subst (λ x. Counts o t n x) e c

  pub locks-IsRight :
      (s : Monitor K) (t : ℕ) (h : HostMutex K.State) (o : Held)
      → s.asleep t ≡ none
      → s.held t + 1 < 2 ^ 32
      → lock_mutex K t s.host ≡ some h
      → IsRight K s o
      → (o' : Held) × IsRight K (record s { host = h; held = update s.held t (s.held t + 1) }) o'
  locks-IsRight s t h o a d e (m, c) =
      let mine = Counts-awake o t (s.held t) (s.asleep t) a (c t) in
      let (o', step, m') = locked t s.host h o m (omega arith) e in
      (
        o',
        (
          m',
          updated (λ u n. Counts o' u n (s.asleep u)) s.held t (s.held t + 1)
              (subst (λ w. Counts o' t (s.held t + 1) w) (sym a)
                (locked_self o o' t (s.held t) step mine))
              (λ u f. locked_count o o' t u (s.held u) (s.held t) (s.asleep u) step mine (c u) f),
        ),
      )

  pub unlocks-IsRight :
      (s : Monitor K) (t : ℕ) (o : Held)
      → s.asleep t ≡ none
      → IsRight K s o
      → (o' : Held) × IsRight K
          (record s { host = unlock_mutex K t s.host; held = update s.held t (s.held t - 1) })
          o'
  unlocks-IsRight s t o a (m, c) =
      let mine = Counts-awake o t (s.held t) (s.asleep t) a (c t) in
      (
        spec_unlock t o,
        (
          unlock_refines K laws t s.host o m,
          updated (λ u n. Counts (spec_unlock t o) u n (s.asleep u)) s.held t (s.held t - 1)
              (subst (λ w. Counts (spec_unlock t o) t (s.held t - 1) w) (sym a)
                (unlocked_self o t (s.held t) mine))
              (λ u f. unlocked_count o t u (s.held u) (s.asleep u) (c u) f),
        ),
      )

  try_lock_lem :
      (t : ℕ) (h : HostMutex K.State)
      → (try_lock_mutex K t h ≡ (h, 0))
        ⊎ ((h' : HostMutex K.State) × (lock_mutex K t h ≡ some h')
            × (try_lock_mutex K t h ≡ (h', 1)))
  unfolding try_lock_mutex lock_mutex
  try_lock_lem t h = elim (Bool-cases (K.is_locked_by h.lock t)) [
    | inl e ↦ inr (record { lock = h.lock; count = (h.count + 1) % 2 ^ 32 }, simp e, simp e)
    | inr e ↦ elim (Option-cases (K.acquire t h.lock)) [
      | inl n ↦ inl (simp (e, n))
      | inr (x, n) ↦ inr (record { lock = x; count = 1 }, simp (e, n), simp (e, n))
    ]
  ]

  abbrev pub tried : Monitor K → ℕ → HostMutex K.State × ℕ → Monitor K
  tried s t (h, n) = record s { host = h; held = update s.held t (s.held t + n) }

  pub tries-IsRight :
      (s : Monitor K) (t : ℕ) (o : Held)
      → s.asleep t ≡ none
      → s.held t + 1 < 2 ^ 32
      → IsRight K s o
      → (o' : Held) × IsRight K (tried s t (try_lock_mutex K t s.host)) o'
  tries-IsRight s t o a d (m, c) = elim (try_lock_lem t s.host) [
    | inl e ↦
        let kept : (u : ℕ) → Counts o u (update s.held t (s.held t + 0) u) (s.asleep u) =
          updated (λ u n. Counts o u n (s.asleep u)) s.held t (s.held t + 0)
            (let same : s.held t + 0 ≡ s.held t = omega arith in
              subst (λ n. Counts o t n (s.asleep t)) (sym same) (c t))
            (λ u f. c u) in
        subst (λ x. (o' : Held) × IsRight K (tried s t x) o') (sym e) (o, (m, kept))
    | inr (h, l, e) ↦
        subst (λ x. (o' : Held) × IsRight K (tried s t x) o') (sym e)
          (locks-IsRight s t h o a d l (m, c))
  ]

  -- A thread that holds the mutex is its owner.
  pub owned : (o : Held) (t n : ℕ) → n ≡ depth_of o t → 0 < n → o ≡ some (t, n)
  owned none t n c l = absurd (omega arith)
  owned (some (v, k)) t n c l = elim (Bool-cases (v == t)) [
    | inl e ↦ ground (arith, e, c)
    | inr e ↦ absurd (ground (arith, e, c, l))
  ]

  freed_count :
      (t u k n : ℕ) (w : Option ℕ)
      → Counts (some (t, k)) u n w
      → (u == t) ≡ false
      → Counts none u n w
  freed_count t u k n none c f = ground (arith, c, f)
  freed_count t u k n (some j) (e, l, b, z) f = (e, l, b, refl)

  taken_count :
      (t u k n : ℕ) (w : Option ℕ)
      → Counts none u n w
      → (u == t) ≡ false
      → Counts (some (t, k)) u n w
  taken_count t u k n none c f = ground (arith, c, f)
  taken_count t u k n (some j) (e, l, b, z) f = (e, l, b, ground (arith, f))

  pub waits-IsRight :
      (s : Monitor K) (t : ℕ) (o : Held)
      → s.asleep t ≡ none
      → 0 < s.held t
      → IsRight K s o
      → IsRight K
          (record s {
            host = (begin_wait K t s.host).0;
            asleep = update s.asleep t (some (begin_wait K t s.host).1);
          })
          none
  waits-IsRight s t o a l (m, c) =
      let n = s.held t in
      let mine = Counts-awake o t n (s.asleep t) a (c t) in
      let own : o ≡ some (t, n) = owned o t n mine l in
      let m' = subst (λ x. Models K s.host x) own m in
      let (free, saved) = begin_wait_frees K laws t n s.host m' in
      (
        free,
        updated (λ u w. Counts none u (s.held u) w) s.asleep t (some (begin_wait K t s.host).1)
            (saved, l, m'.3, refl)
            (λ u f.
              freed_count t u n (s.held u) (s.asleep u)
                (subst (λ x. Counts x u (s.held u) (s.asleep u)) own (c u)) f),
      )

  woken_owner :
      (t n : ℕ) (o o' : Held) → spec_wake t n o ≡ some o' → (o ≡ none) × (some (t, n) ≡ o')
  woken_owner t n none o' e = (refl, cc)
  woken_owner t n (some x) o' e = absurd (cc)

  pub wakes-IsRight :
      (s : Monitor K) (t saved : ℕ) (h : HostMutex K.State) (o : Held)
      → s.asleep t ≡ some saved
      → end_wait K t saved s.host ≡ some h
      → IsRight K s o
      → IsRight K (record s { host = h; asleep = update s.asleep t none }) (some (t, saved))
  wakes-IsRight s t saved h o a e (m, c) =
      let (same, l, b, z) = subst (λ w. Counts o t (s.held t) w) a (c t) in
      let agrees = end_wait_restores K laws t saved s.host o m (omega arith) (omega arith) in
      let (o', step, m') =
        Agrees-some h (spec_wake t saved o)
          (subst (λ x. Agrees K x (spec_wake t saved o)) e agrees) in
      let (free, mine) = woken_owner t saved o o' step in
      (
        subst (λ x. Models K h x) (sym mine) m',
        updated (λ u w. Counts (some (t, saved)) u (s.held u) w) s.asleep t none
            (ground (arith, same, ==_self t))
            (λ u f.
              taken_count t u saved (s.held u) (s.asleep u)
                (subst (λ x. Counts x u (s.held u) (s.asleep u)) free (c u)) f),
      )
