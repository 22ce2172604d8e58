-- ===== src/Ghs.antt =====
-- source/ghs.cpp: the pool of file locks of the C library, its lock and the mutexes of the C++ runtime.
-- Each call on the pool is one step: the pool's own mutex keeps it whole, but `__ghs_flock_destroy` takes
-- no lock, and its model is of a call that does not overlap with others. The addresses of the pool's mutexes are an
-- argument, and so is what the default heap answers; a place for an answer may be null.
pub mod Flocks
pub mod Again
mod Tests
use coreinit_nx.Base.{
  ℕ, suc, zero, ◌+◌, Bool, true, false, not, ◌||◌, List, [], ◌∷◌, Option, none, some, ltb, leb,
  ◌==◌, if◌then◌else◌, length, get_or, set, replicate,
}
use coreinit_nx.Mutex.{
  KernelMutex, Mutexes, os_init_mutex, os_lock_mutex, os_unlock_mutex, os_try_lock_mutex,
}
use coreinit_nx.Spinlock.{SpinLocks, os_init_spin_lock, acquire_spin_lock, release_spin_lock}

-- `kFlockMax`.
abbrev pub flock_max : ℕ
flock_max = 100

-- `g_flockInUse`, `g_freeFlockIdx` and `g_inited`.
pub record Ghs : Type 0 where
  pub flocks : List Bool
  pub free_index : ℕ
  pub inited : Bool

-- `ensureInit`, on the pool.
pub ensure_init : Ghs → Ghs
ensure_init g =
    if g.inited
    then g
    else record { flocks = replicate flock_max false; free_index = 0; inited = true }

-- The first index from `i` on that is not in use, or the one past the end.
abbrev pub find_unused : List Bool → ℕ → ℕ
find_unused [] i = i
find_unused (used ∷ pool) i = if used then find_unused pool (i + 1) else i

-- The index that `__ghs_flock_create` tries.
abbrev pub choose_flock : Ghs → ℕ
choose_flock g =
    if leb flock_max g.free_index || get_or g.flocks g.free_index false
    then find_unused g.flocks 0
    else g.free_index

abbrev pub mark_flock : Ghs → ℕ → Ghs
mark_flock g i = record g { flocks = set g.flocks i true; free_index = i + 1 }

module _ (K : KernelMutex) (address : ℕ → ℕ) where
  -- `__ghs_flock_create`, with the index that it writes; without one it panics. The caller's pointer is
  -- not null.
  abbrev pub created_at : Ghs → Mutexes K → ℕ → Ghs × Mutexes K × Option ℕ
  created_at g mutexes i =
      if leb flock_max i
      then (g, mutexes, none)
      else (mark_flock g i, os_init_mutex K mutexes (address i), some i)

  pub flock_create : Ghs → Mutexes K → Ghs × Mutexes K × Option ℕ
  flock_create g mutexes = created_at (ensure_init g) mutexes (choose_flock (ensure_init g))

  -- `__ghs_flock_destroy`.
  pub flock_destroy : ℕ → Ghs → Ghs
  flock_destroy i g =
      if leb flock_max i
      then g
      else record (ensure_init g) { flocks = set (ensure_init g).flocks i false; free_index = i }

  -- `__ghs_flock_file` by a thread, and whether it gets through; `__ghs_funlock_file`.
  pub flock_file : ℕ → ℕ → Ghs → Mutexes K → Ghs × Mutexes K × Bool
  flock_file t i g mutexes =
      if leb flock_max i
      then (g, mutexes, true)
      else (let (mutexes', through) = os_lock_mutex K t mutexes (address i) in
          (ensure_init g, mutexes', through))

  pub funlock_file : ℕ → ℕ → Ghs → Mutexes K → Ghs × Mutexes K
  funlock_file t i g mutexes =
      if leb flock_max i
      then (g, mutexes)
      else (ensure_init g, os_unlock_mutex K t mutexes (address i))

  -- `__ghs_ftrylock_file`.
  pub ftrylock_file : ℕ → ℕ → Ghs → Mutexes K → Ghs × Mutexes K × ℕ
  ftrylock_file t i g mutexes =
      if leb flock_max i
      then (g, mutexes, 1234)
      else (let (mutexes', got) = os_try_lock_mutex K t mutexes (address i) in
          (ensure_init g, mutexes', if got == 0 then 1234 else 0))

  -- `__ghs_mtx_init` on a place that is not null, with the answer of the default heap, 0 for null; it
  -- writes that answer.
  pub mtx_init : ℕ → Mutexes K → Mutexes K × ℕ
  mtx_init m mutexes = (if m == 0 then mutexes else os_init_mutex K mutexes m, m)

  -- `__ghs_mtx_dst` on a place that holds a mutex, 0 for null: what it gives back to the heap, if
  -- anything, and what the place holds then.
  pub mtx_dst : ℕ → Option ℕ × ℕ
  mtx_dst m = if m == 0 then (none, 0) else (some m, 0)

  pub mtx_lock : ℕ → ℕ → Mutexes K → Mutexes K × Bool
  mtx_lock t m mutexes = if m == 0 then (mutexes, true) else os_lock_mutex K t mutexes m

  pub mtx_unlock : ℕ → ℕ → Mutexes K → Mutexes K
  mtx_unlock t m mutexes = if m == 0 then mutexes else os_unlock_mutex K t mutexes m

  -- `__ghsLock` and `__ghsUnlock`, on the spin lock at an address, which `ensureInit` creates.
  pub ghs_lock : ℕ → ℕ → SpinLocks K → SpinLocks K × Option ℕ
  ghs_lock t lock locks = acquire_spin_lock K t (os_init_spin_lock K locks lock) lock

  pub ghs_unlock : ℕ → ℕ → SpinLocks K → SpinLocks K × ℕ
  ghs_unlock t lock locks = release_spin_lock K t (os_init_spin_lock K locks lock) lock
