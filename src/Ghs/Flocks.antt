-- ===== src/Ghs/Flocks.antt =====
-- The pool of file locks as a set of indices.
use coreinit_nx.Base.{
  ℕ, suc, zero, ◌+◌, ◌≤◌, ◌<◌, ◌≡◌, ◌⊎◌, refl, sym, ap, ◌∙◌, subst, inl, inr, Bool, true, false,
  ◌||◌, List, [], ◌∷◌, Option, none, some, leb, ◌==◌, if◌then◌else◌, length, get_or, set, replicate,
  length-set, length-replicate, get_or-set_self, get_or-set_ne, Bool-cases, arith,
}
use coreinit_nx.Mutex.{KernelMutex, Mutexes, os_init_mutex}
use coreinit_nx.Ghs.{
  flock_max, Ghs, ensure_init, find_unused, choose_flock, mark_flock, created_at, flock_create,
}

-- A pool that is not initialised is one in which nothing is in use; one that is has 100 places.
abbrev pub IsPool : Ghs → Type 0
IsPool g = g.inited ≡ true → length g.flocks ≡ flock_max

abbrev pub fresh_pool : Ghs
fresh_pool = record { flocks = replicate flock_max false; free_index = 0; inited = true }

all_used :
    (pool : List Bool)
    → ((k : ℕ) → k < length pool → get_or pool k false ≡ true)
    → (k : ℕ) → k < length (true ∷ pool)
    → get_or (true ∷ pool) k false ≡ true
all_used pool h zero l = refl
all_used pool h (suc k) l = h k (omega arith)

find_unused_lem :
    (pool : List Bool) (i : ℕ)
    → ((k : ℕ) × (k < length pool) × (find_unused pool i ≡ i + k) × (get_or pool k false ≡ false))
      ⊎ ((find_unused pool i ≡ i + length pool)
          × ((k : ℕ) → k < length pool → get_or pool k false ≡ true))
find_unused_lem [] i = inr (omega arith, λ k l. absurd (omega arith))
find_unused_lem (false ∷ pool) i = inl (0, omega arith, omega arith, refl)
find_unused_lem (true ∷ pool) i = elim (find_unused_lem pool (i + 1)) [
  | inl (k, l, e, u) ↦ inl (suc k, omega arith, omega arith, u)
  | inr (e, all) ↦ inr (omega arith, all_used pool all)
]

-- Is an index of the pool in use?
abbrev pub used_at : Ghs → ℕ → Bool
used_at g i = get_or (ensure_init g).flocks i false

pub ensure_init-length : (g : Ghs) → IsPool g → length (ensure_init g).flocks ≡ flock_max
unfolding ensure_init
ensure_init-length g h = elim (Bool-cases g.inited) [
  | inl t ↦ ap (λ b. length (if b then g else fresh_pool).flocks) t ∙ h t
  | inr f ↦
      ap (λ b. length (if b then g else fresh_pool).flocks) f ∙ length-replicate flock_max false
]

ensure_init_again : (g : Ghs) → ensure_init (ensure_init g) ≡ ensure_init g
unfolding ensure_init
ensure_init_again g = elim (Bool-cases g.inited) [
  | inl t ↦
      ap
        (λ b.
          if (if b then g else fresh_pool).inited
          then (if b then g else fresh_pool)
          else fresh_pool)
        t
      ∙ ap (λ b. if b then g else fresh_pool) t
      ∙ ap (λ b. if b then g else fresh_pool) (sym t)
  | inr f ↦
      ap
        (λ b.
          if (if b then g else fresh_pool).inited
          then (if b then g else fresh_pool)
          else fresh_pool)
        f
      ∙ ap (λ b. if b then g else fresh_pool) (sym f)
]

choose_flock_lem :
    (g : Ghs)
    → length g.flocks ≡ flock_max
    → ((choose_flock g < flock_max) × (get_or g.flocks (choose_flock g) false ≡ false))
      ⊎ ((flock_max ≤ choose_flock g) × ((k : ℕ) → k < flock_max → get_or g.flocks k false ≡ true))
choose_flock_lem g h =
    elim (Bool-cases (leb flock_max g.free_index || get_or g.flocks g.free_index false)) [
      | inl t ↦
          let e : choose_flock g ≡ find_unused g.flocks 0 =
            ap (λ b. if b then find_unused g.flocks 0 else g.free_index) t in
          elim (find_unused_lem g.flocks 0) [
            | inl (k, l, f, u) ↦
                let i : choose_flock g ≡ k = omega arith in
                inl (omega arith, ap (λ j. get_or g.flocks j false) i ∙ u)
            | inr (f, all) ↦ inr (omega arith, λ k l. all k (omega arith))
          ]
      | inr f ↦
          let e : choose_flock g ≡ g.free_index =
            ap (λ b. if b then find_unused g.flocks 0 else g.free_index) f in
          let (a, b) : (g.free_index < flock_max) × (get_or g.flocks g.free_index false ≡ false) =
            (ground (arith, f), ground (arith, f)) in
          inl (omega arith, ap (λ j. get_or g.flocks j false) e ∙ b)
    ]

-- What creating a file lock promises: an index that was not in use and is in use now, every other one as
-- before, or no index, where all 100 are in use.
pub data IsCreated (g new : Ghs) : Option ℕ → Type 0 where
  full : ((k : ℕ) → k < flock_max → used_at g k ≡ true) → new ≡ ensure_init g → IsCreated g new none
  given_out :
      (i : ℕ)
      → i < flock_max
      → used_at g i ≡ false
      → ((k : ℕ) → used_at new k ≡ (if k == i then true else used_at g k))
      → IsPool new
      → IsCreated g new (some i)

-- The indices of a pool that is initialised, after one of them is set.
used_at-set :
    (g : Ghs) (i free : ℕ) (b : Bool)
    → length g.flocks ≡ flock_max
    → i < flock_max
    → g.inited ≡ true
    → (k : ℕ)
    → used_at (record g { flocks = set g.flocks i b; free_index = free }) k
      ≡ (if k == i then b else get_or g.flocks k false)
unfolding ensure_init
used_at-set g i free b h l n k =
    let new : Ghs = record g { flocks = set g.flocks i b; free_index = free } in
    ap (λ c. get_or (if c then new else fresh_pool).flocks k false) n ∙ elim (Bool-cases (k == i)) [
      | inl t ↦
          let e : k ≡ i = ground (arith, t) in
          ap (λ j. get_or (set g.flocks i b) j false) e
          ∙ get_or-set_self g.flocks i b false (omega arith)
          ∙ ap (λ c. if c then b else get_or g.flocks k false) (sym t)
      | inr f ↦
          get_or-set_ne g.flocks i k b false (λ e. ground (arith, f, e))
          ∙ ap (λ c. if c then b else get_or g.flocks k false) (sym f)
    ]

pub ensure_init-inited : (g : Ghs) → (ensure_init g).inited ≡ true
unfolding ensure_init
ensure_init-inited g = elim (Bool-cases g.inited) [
  | inl t ↦ ap (λ b. (if b then g else fresh_pool).inited) t ∙ t
  | inr f ↦ ap (λ b. (if b then g else fresh_pool).inited) f
]

module _ (K : KernelMutex) (address : ℕ → ℕ) where
  created_at-IsCreated :
      (g : Ghs) (mutexes : Mutexes K)
      → IsPool g
      → let r = created_at K address (ensure_init g) mutexes (choose_flock (ensure_init g)) in
        IsCreated g r.0 r.2
  created_at-IsCreated g mutexes p =
      let e = ensure_init g in
      let i = choose_flock e in
      let h = ensure_init-length g p in
      let split = λ (b : Bool).
        if◌then◌else◌ {A = Ghs × Mutexes K × Option ℕ} b (e, mutexes, none)
          (mark_flock e i, os_init_mutex K mutexes (address i), some i) in
      elim (choose_flock_lem e h) [
        | inr (l, all) ↦
            let t : leb flock_max i ≡ true = ground arith in
            subst (λ b. IsCreated g (split b).0 (split b).2) (sym t) (full all refl)
        | inl (l, u) ↦
            let f : leb flock_max i ≡ false = ground arith in
            subst (λ b. IsCreated g (split b).0 (split b).2) (sym f)
              (given_out i l u (used_at-set e i (i + 1) true h l (ensure_init-inited g))
                (λ _. length-set e.flocks i true ∙ h))
      ]

  -- `__ghs_flock_create` on a pool of 100 places, initialised or not: it writes an index below
  -- 100 that was not in use, and from then on that index is in use and every other as before;
  -- or it panics, and then all 100 were in use and the pool, initialised, is as it was.
  pub flock_create-IsCreated :
      (g : Ghs) (mutexes : Mutexes K)
      → IsPool g
      → let r = flock_create K address g mutexes in IsCreated g r.0 r.2
  unfolding flock_create
  flock_create-IsCreated g mutexes p = created_at-IsCreated g mutexes p
