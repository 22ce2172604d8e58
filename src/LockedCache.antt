-- ===== src/LockedCache.antt =====
-- source/lockedcache.cpp: the budget of the locked cache. The `std::map` of blocks is an association
-- list; the lock makes each call atomic. The answer of `aligned_alloc`, 0 for null, is an argument.
pub mod Budget
mod Tests
use coreinit_nx.Base.{
  ℕ, ◌+◌, ◌-◌, ◌*◌, ◌%◌, ◌^◌, Bool, true, false, List, [], ◌∷◌, Option, none, some, ltb, ◌==◌, ◌||◌,
  if◌then◌else◌,
}
use coreinit_nx.Handles.{find, erase}

-- `kLockedCacheSize`.
abbrev pub cache_size : ℕ
cache_size = 16 * 1024

pub record LockedCache : Type 0 where
  pub blocks : List (ℕ × ℕ)
  pub allocated : ℕ
  pub dma_enabled : Bool

abbrev pub start : LockedCache
start = record { blocks = []; allocated = 0; dma_enabled = true }

-- `map[key] = value`.
pub assign : ℕ → ℕ → List (ℕ × ℕ) → List (ℕ × ℕ)
assign key value [] = (key, value) ∷ []
assign key value ((k, v) ∷ t) =
    let rest = assign key value t in if k == key then (k, value) ∷ t else (k, v) ∷ rest

-- `LCAlloc`, with the address that `aligned_alloc` would give.
pub lc_alloc : LockedCache → ℕ → ℕ → LockedCache × ℕ
lc_alloc c size p =
    if size == 0
    then (c, 0)
    else if ltb cache_size ((c.allocated + size) % 2 ^ 32)
    then (c, 0)
    else if p == 0
    then (c, 0)
    else (
      record c { blocks = assign p size c.blocks; allocated = (c.allocated + size) % 2 ^ 32 },
      p,
    )

pub lc_dealloc : LockedCache → ℕ → LockedCache
lc_dealloc c addr = if addr == 0 then c else elim (find addr c.blocks) [
  | none ↦ c
  | some size ↦ record c {
    blocks = erase addr c.blocks;
    allocated = (c.allocated + (2 ^ 32 - size)) % 2 ^ 32;
  }
]

abbrev pub lc_get_max_size : ℕ
lc_get_max_size = cache_size

pub lc_get_allocatable_size : LockedCache → ℕ
lc_get_allocatable_size c = (cache_size + (2 ^ 32 - c.allocated)) % 2 ^ 32

pub lc_get_unallocated : LockedCache → ℕ
lc_get_unallocated c = lc_get_allocatable_size c

pub lc_is_dma_enabled : LockedCache → ℕ
lc_is_dma_enabled c = if c.dma_enabled then 1 else 0

pub lc_enable_dma : LockedCache → LockedCache × ℕ
lc_enable_dma c = (record c { dma_enabled = true }, 1)

pub lc_disable_dma : LockedCache → LockedCache
lc_disable_dma c = record c { dma_enabled = false }
