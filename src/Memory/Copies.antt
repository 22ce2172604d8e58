-- ===== src/Memory/Copies.antt =====
-- The copies of source/memory.cpp and source/lockedcache.cpp, byte by byte.
use coreinit_nx.Base.{
  ℕ, ◌+◌, ◌-◌, ◌≡◌, ◌≢◌, inl, inr, refl, false, not, [], ◌∷◌, ◌&&◌, ◌||◌, ◌==◌, if◌then◌else◌,
  Bool-cases, arith,
}
use coreinit_nx.Memory.{
  Memory, IsLawful, IsDisjoint, within, is_empty, flush, os_block_move, lc_load_dma_blocks,
  lc_store_dma_blocks,
}

module _ (M : Memory) (lawful : IsLawful M) where
  open M use {Bytes, read, memmove, memcpy, memset}

  -- After `OSBlockMove` the target holds what the source held before, also where the two overlap, and all
  -- else is as it was; nothing changes for a null pointer or a size of 0. It answers the target, and asks
  -- for a flush of the target only for a copy that was made.
  pub os_block_move_lem :
      (dst src size flushes a : ℕ) (m : Bytes)
      → let moved = not (is_empty dst size || src == 0) in
        (read (os_block_move M dst src size flushes m).0 a
          ≡ (if moved && within dst size a then read m (src + (a - dst)) else read m a))
        × ((os_block_move M dst src size flushes m).1 ≡ dst)
        × ((os_block_move M dst src size flushes m).2
            ≡ (if moved && not (flushes == 0) then flush dst size ∷ [] else []))
  unfolding os_block_move
  os_block_move_lem dst src size flushes a m = elim (Bool-cases (is_empty dst size || src == 0)) [
    | inl none_moved ↦ simp (none_moved) (refl, refl, refl)
    | inr some_moved ↦ (rw some_moved (lawful.moved dst src size a m), rw some_moved, ground arith)
  ]

  -- A DMA copy between ranges that do not overlap.
  load_lem :
      (dst src size a : ℕ) (m : Bytes)
      → IsDisjoint dst size src size
      → read (lc_load_dma_blocks M dst src size m) a ≡ (
          if not (is_empty dst size || src == 0) && within dst size a
          then read m (src + (a - dst))
          else read m a)
  unfolding lc_load_dma_blocks
  load_lem dst src size a m apart = elim (Bool-cases (is_empty dst size || src == 0)) [
    | inl none_moved ↦ simp (none_moved)
    | inr some_moved ↦ rw some_moved (lawful.copied dst src size a m apart)
  ]

  store_lem :
      (dst src size a : ℕ) (m : Bytes)
      → IsDisjoint dst size src size
      → read (lc_store_dma_blocks M dst src size m) a ≡ (
          if not (is_empty dst size || src == 0) && within dst size a
          then read m (src + (a - dst))
          else read m a)
  unfolding lc_store_dma_blocks
  store_lem dst src size a m apart = elim (Bool-cases (is_empty dst size || src == 0)) [
    | inl none_moved ↦ simp (none_moved)
    | inr some_moved ↦ rw some_moved (lawful.copied dst src size a m apart)
  ]

  shift : (block src k : ℕ) (m : Bytes) → read m (src + (block + k - block)) ≡ read m (src + k)
  shift block src k m = let e : block + k - block ≡ k = omega arith in rw e

  -- By what the C library documents of memory: through a block of the locked cache that overlaps neither
  -- range, a load and a store of a source that is not null do to all memory but that block what one
  -- `OSBlockMove` does, also where the two ranges overlap.
  pub load_then_store :
      (block dst src size flushes a : ℕ) (m : Bytes)
      → block ≢ 0
      → src ≢ 0
      → IsDisjoint block size src size
      → IsDisjoint dst size block size
      → within block size a ≡ false
      → read (lc_store_dma_blocks M dst block size (lc_load_dma_blocks M block src size m)) a
        ≡ read (os_block_move M dst src size flushes m).0 a
  load_then_store block dst src size flushes a m b s from to out =
      let loaded = lc_load_dma_blocks M block src size m in
      rw (store_lem dst block size a loaded to, (os_block_move_lem dst src size flushes a m).0)
        (ground (
          arith,
          load_lem block src size a m from,
          load_lem block src size (block + (a - dst)) m from,
          shift block src (a - dst) m,
        ))
