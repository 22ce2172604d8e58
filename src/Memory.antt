-- ===== src/Memory.antt =====
-- source/memory.cpp and source/cache.cpp: copies, fills and the maintenance of the caches. The bytes of
-- memory, memmove, memcpy and memset are a parameter. A call answers the bytes that it leaves and, in
-- order, what it asks of the processor's caches.
pub mod Copies
pub mod Zero
pub mod Heap
mod Tests
use coreinit_nx.Base.{
  ℕ, ◌+◌, ◌-◌, ◌%◌, ◌^◌, ◌≤◌, ◌≡◌, ◌⊎◌, Bool, List, [], ◌∷◌, ◌&&◌, ◌||◌, ltb, leb, ◌==◌,
  if◌then◌else◌, bit_and,
}

-- `memmove` and `memcpy` take the target, the source and the size, `memset` the target, the value and the
-- size.
pub record Memory : Type 1 where
  pub Bytes : Type 0
  pub read : Bytes → ℕ → ℕ
  pub memmove : ℕ → ℕ → ℕ → Bytes → Bytes
  pub memcpy : ℕ → ℕ → ℕ → Bytes → Bytes
  pub memset : ℕ → ℕ → ℕ → Bytes → Bytes

-- Whether an address lies in a range.
abbrev pub within : ℕ → ℕ → ℕ → Bool
within start size a = leb start a && ltb a (start + size)

abbrev pub IsDisjoint : ℕ → ℕ → ℕ → ℕ → Type 0
IsDisjoint p n q m = (p + n ≤ q) ⊎ (q + m ≤ p)

-- What the C library documents; `memcpy` says nothing of ranges that overlap.
pub record IsLawful (M : Memory) : Type 0 where
  pub moved :
      (dst src size a : ℕ) (m : M.Bytes)
      → M.read (M.memmove dst src size m) a
        ≡ (if within dst size a then M.read m (src + (a - dst)) else M.read m a)
  pub copied :
      (dst src size a : ℕ) (m : M.Bytes)
      → IsDisjoint dst size src size
      → M.read (M.memcpy dst src size m) a
        ≡ (if within dst size a then M.read m (src + (a - dst)) else M.read m a)
  pub filled :
      (dst value size a : ℕ) (m : M.Bytes)
      → M.read (M.memset dst value size m) a
        ≡ (if within dst size a then value % 2 ^ 8 else M.read m a)

-- `armDCacheFlush`, `armDCacheClean` and `armICacheInvalidate`.
pub data Maintenance : Type 0 where
  flush clean invalidate_code : ℕ → ℕ → Maintenance

-- A pointer or a size of nothing: the test at the head of every call.
abbrev pub is_empty : ℕ → ℕ → Bool
is_empty addr size = addr == 0 || size == 0

pub round_to_cache_line : ℕ → ℕ
round_to_cache_line size = bit_and ((size + 0x1f) % 2 ^ 32) (2 ^ 32 - 1 - 0x1f)

pub dc_flush_range : ℕ → ℕ → List Maintenance
dc_flush_range addr size = if is_empty addr size then [] else flush addr size ∷ []

pub dc_store_range : ℕ → ℕ → List Maintenance
dc_store_range addr size = if is_empty addr size then [] else clean addr size ∷ []

pub dc_invalidate_range : ℕ → ℕ → List Maintenance
dc_invalidate_range addr size =
    if is_empty addr size then [] else flush addr (round_to_cache_line size) ∷ []

pub ic_invalidate_range : ℕ → ℕ → List Maintenance
ic_invalidate_range addr size =
    if is_empty addr size then [] else invalidate_code addr (round_to_cache_line size) ∷ []

pub dc_flush_range_no_sync : ℕ → ℕ → List Maintenance
dc_flush_range_no_sync addr size =
    if is_empty addr size then [] else flush addr (round_to_cache_line size) ∷ []

pub dc_store_range_no_sync : ℕ → ℕ → List Maintenance
dc_store_range_no_sync addr size =
    if is_empty addr size then [] else clean addr (round_to_cache_line size) ∷ []

module _ (M : Memory) where
  open M use {Bytes, memmove, memcpy, memset}

  pub dc_zero_range : ℕ → ℕ → Bytes → Bytes × List Maintenance
  dc_zero_range addr size m =
      if is_empty addr size
      then (m, [])
      else let rounded = round_to_cache_line size in
        (memset addr 0 rounded m, flush addr rounded ∷ [])

  -- `OSBlockMove` answers its target; a flush is asked for by a number other than 0.
  pub os_block_move : ℕ → ℕ → ℕ → ℕ → Bytes → Bytes × ℕ × List Maintenance
  os_block_move dst src size flushes m =
      if is_empty dst size || src == 0
      then (m, dst, [])
      else (memmove dst src size m, dst, if flushes == 0 then [] else flush dst size ∷ [])

  pub os_block_set : ℕ → ℕ → ℕ → Bytes → Bytes × ℕ
  os_block_set dst value size m =
      if is_empty dst size then (m, dst) else (memset dst value size m, dst)

  -- `LCLoadDMABlocks` and `LCStoreDMABlocks` of source/lockedcache.cpp, which copy at once.
  pub lc_load_dma_blocks : ℕ → ℕ → ℕ → Bytes → Bytes
  lc_load_dma_blocks dst src size m =
      if is_empty dst size || src == 0 then m else memcpy dst src size m

  pub lc_store_dma_blocks : ℕ → ℕ → ℕ → Bytes → Bytes
  lc_store_dma_blocks dst src size m =
      if is_empty dst size || src == 0 then m else memcpy dst src size m
