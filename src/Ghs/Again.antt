-- ===== src/Ghs/Again.antt =====
-- What becomes of a file lock that is destroyed and created anew.
use coreinit_nx.Base.{
  ℕ, ◌<◌, ◌≡◌, ◌≢◌, refl, sym, ap, ◌∙◌, subst, Bool, true, false, ◌||◌, Option, none, some, leb,
  ◌==◌, if◌then◌else◌, get_or, set, get_or-set_self, arith,
}
use coreinit_nx.Handles.{find}
use coreinit_nx.Handles.Laws.{host_at, with_host_lem}
use coreinit_nx.Mutex.{
  KernelMutex, MutexLaws, HostMutex, Mutexes, fresh, os_init_mutex, os_lock_mutex, lock_mutex,
}
use coreinit_nx.Ghs.{
  flock_max, Ghs, ensure_init, find_unused, choose_flock, mark_flock, created_at, flock_create,
  flock_destroy, flock_file,
}
use coreinit_nx.Ghs.Flocks.{IsPool, fresh_pool, ensure_init-length, ensure_init-inited}

module _ (K : KernelMutex) (laws : MutexLaws K) (address : ℕ → ℕ) where
  lock_waits :
      (t u : ℕ) (h : HostMutex K.State)
      → K.is_locked_by h.lock u ≡ true
      → t ≢ u
      → lock_mutex K t h ≡ none
  unfolding lock_mutex
  lock_waits t u h own n =
      simp (laws.owner_unique u t h.lock own n, laws.acquire_taken t u h.lock own)

  init_keeps :
      (mutexes : Mutexes K) (a : ℕ) (h : HostMutex K.State)
      → find a mutexes ≡ some h
      → host_at (fresh K) a (os_init_mutex K mutexes a) ≡ h
  unfolding os_init_mutex
  init_keeps mutexes a h e =
      let (r, k) = with_host_lem {0, 0} (fresh K) (λ h. (h, tt)) a a mutexes in
      let self : (a == a) ≡ true = ground arith in
      ap (λ o. elim o [ some x ↦ x | none ↦ fresh K ])
        (k ∙ ap (λ b. if b then some (host_at (fresh K) a mutexes) else find a mutexes) self)
      ∙ ap (λ o. elim o [ some x ↦ x | none ↦ fresh K ]) e

  abbrev lock_result : ℕ → HostMutex K.State → HostMutex K.State × Bool
  lock_result t h = elim (lock_mutex K t h) [ none ↦ (h, false) | some h' ↦ (h', true) ]

  abbrev answered : HostMutex K.State → Option (HostMutex K.State) → HostMutex K.State × Bool
  answered h none = (h, false)
  answered h (some h') = (h', true)

  init_then_lock :
      (t u : ℕ) (mutexes : Mutexes K) (a : ℕ) (h : HostMutex K.State)
      → find a mutexes ≡ some h
      → K.is_locked_by h.lock u ≡ true
      → t ≢ u
      → (os_lock_mutex K t (os_init_mutex K mutexes a) a).1 ≡ false
  unfolding os_lock_mutex
  init_then_lock t u mutexes a h e own n =
      (with_host_lem (fresh K) (lock_result t) a a (os_init_mutex K mutexes a)).0
      ∙ ap (λ x. (lock_result t x).1) (init_keeps mutexes a h e)
      ∙ ap (λ o. (answered h o).1) (lock_waits t u h own n)

  -- The pool once an index is given back.
  abbrev given_back : ℕ → Ghs → Ghs
  given_back i g = record (ensure_init g) {
    flocks = set (ensure_init g).flocks i false;
    free_index = i;
  }

  destroyed : (i : ℕ) (g : Ghs) → i < flock_max → flock_destroy K address i g ≡ given_back i g
  unfolding flock_destroy
  destroyed i g l =
      let f : leb flock_max i ≡ false = ground arith in ap (λ b. if b then g else given_back i g) f

  given_back-ready : (i : ℕ) (g : Ghs) → ensure_init (given_back i g) ≡ given_back i g
  unfolding ensure_init
  given_back-ready i g = ap (λ b. if b then given_back i g else fresh_pool) (ensure_init-inited g)

  choose_given_back :
      (i : ℕ) (g : Ghs) → i < flock_max → IsPool g → choose_flock (given_back i g) ≡ i
  choose_given_back i g l p =
      let h = ensure_init-length g p in
      let u = get_or-set_self (ensure_init g).flocks i false false (omega arith) in
      let f : (leb flock_max i || get_or (set (ensure_init g).flocks i false) i false) ≡ false =
        ground (arith, u) in
      ap (λ b. if b then find_unused (set (ensure_init g).flocks i false) 0 else i) f

  create_again :
      (i : ℕ) (g : Ghs) (mutexes : Mutexes K)
      → i < flock_max
      → IsPool g
      → flock_create K address (flock_destroy K address i g) mutexes
        ≡ (mark_flock (given_back i g) i, os_init_mutex K mutexes (address i), some i)
  unfolding flock_create
  create_again i g mutexes l p =
      let f : leb flock_max i ≡ false = ground arith in
      ap (λ d. created_at K address (ensure_init d) mutexes (choose_flock (ensure_init d)))
        (destroyed i g l)
      ∙ ap (λ d. created_at K address d mutexes (choose_flock d)) (given_back-ready i g)
      ∙ ap (λ j. created_at K address (given_back i g) mutexes j) (choose_given_back i g l p)
      ∙ ap
          (λ b.
            if◌then◌else◌ {A = Ghs × Mutexes K × Option ℕ} b (given_back i g, mutexes, none)
              (mark_flock (given_back i g) i, os_init_mutex K mutexes (address i), some i))
          f

  file_result :
      (t i : ℕ) (g : Ghs) (mutexes : Mutexes K)
      → i < flock_max
      → (flock_file K address t i g mutexes).2 ≡ (os_lock_mutex K t mutexes (address i)).1
  unfolding flock_file
  file_result t i g mutexes l =
      let f : leb flock_max i ≡ false = ground arith in
      let (mutexes', through) = os_lock_mutex K t mutexes (address i) in
      ap
        (λ b.
          (if◌then◌else◌ {A = Ghs × Mutexes K × Bool} b (g, mutexes, true)
            (ensure_init g, mutexes', through)).2)
        f

  -- By the laws of libnx's mutex, on a pool of 100 places, initialised or not: when the mutex
  -- of a file lock, of an index below 100, is held by a thread, and the lock is destroyed and
  -- created, the index is given out again, and `__ghs_flock_file` makes any other thread wait,
  -- as if it had not been created anew.
  pub created_again_waits :
      (t u i : ℕ) (g : Ghs) (mutexes : Mutexes K) (h : HostMutex K.State)
      → i < flock_max
      → IsPool g
      → find (address i) mutexes ≡ some h
      → K.is_locked_by h.lock u ≡ true
      → t ≢ u
      → let r = flock_create K address (flock_destroy K address i g) mutexes in
        (r.2 ≡ some i) × ((flock_file K address t i r.0 r.1).2 ≡ false)
  created_again_waits t u i g mutexes h l p e own n =
      subst
        (λ (r : Ghs × Mutexes K × Option ℕ).
          (r.2 ≡ some i) × ((flock_file K address t i r.0 r.1).2 ≡ false))
        (sym (create_again i g mutexes l p))
        (refl, file_result t i _ _ l ∙ init_then_lock t u mutexes (address i) h e own n)
