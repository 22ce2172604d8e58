-- ===== src/Memory/Tests.antt =====
-- Memory as a function from addresses to bytes, which meets what the C library documents, and the
-- theorems at it.
use coreinit_nx.Base.{ℕ, ◌+◌, ◌-◌, ◌%◌, ◌^◌, ◌≡◌, ◌⊎◌, inl, inr, refl, if◌then◌else◌, All, arith}
use coreinit_nx.Base.Int.{pos}
use coreinit_nx.Memory.{
  Memory, IsLawful, within, os_block_move, os_block_set, dc_zero_range, lc_load_dma_blocks,
  lc_store_dma_blocks,
}
use coreinit_nx.Memory.Copies.{load_then_store}
use coreinit_nx.Memory.Heap.{Keeps, IsCleared, alloc_then_set, alloc_then_zero}
use coreinit_nx.ExpHeap.{HostExpHeap, fresh, alloc}
use coreinit_nx.ExpHeap.Carve.{allocations}
use coreinit_nx.ExpHeap.Heap.{IsHeap, alloc-IsHeap}
use coreinit_nx.ExpHeap.Api.{create}
use coreinit_nx.ExpHeap.Reach.{create_lem}

abbrev copy : ℕ → ℕ → ℕ → (ℕ → ℕ) → ℕ → ℕ
copy dst src size m a = if within dst size a then m (src + (a - dst)) else m a

abbrev plain : Memory
plain = record {
  Bytes = ℕ → ℕ;
  read = λ m a. m a;
  memmove = copy;
  memcpy = copy;
  memset = λ dst value size m a. if within dst size a then value % 2 ^ 8 else m a;
}

plain-IsLawful : IsLawful plain
plain-IsLawful = record {
  moved = λ dst src size a m. refl;
  copied = λ dst src size a m apart. refl;
  filled = λ dst value size a m. refl;
}

-- A byte that tells its address.
abbrev ramp : ℕ → ℕ
ramp a = a % 256

load_then_store_example :
    lc_store_dma_blocks plain 0x11 0x80 4 (lc_load_dma_blocks plain 0x80 0x10 4 ramp) 0x13
    ≡ (os_block_move plain 0x11 0x10 4 0 ramp).0 0x13
load_then_store_example =
    load_then_store plain plain-IsLawful 0x80 0x11 0x10 4 0 0x13 ramp (omega arith) (omega arith)
      (inr (omega arith)) (inl (omega arith)) refl

-- A heap on 4 KB that holds 100 bytes.
abbrev region : HostExpHeap
region = (create 0x1000 0x1000 1 fresh).0

abbrev used : HostExpHeap
used = (alloc region 100 (pos 8)).heap

used-IsHeap : IsHeap used
used-IsHeap =
    alloc-IsHeap region 100 (pos 8)
      (create_lem 0x1000 0x1000 1 fresh (omega arith) (omega arith) (omega arith)).0 (omega arith)

alloc_then_set_example :
    All
      (Keeps plain plain-IsLawful ramp
        (os_block_set plain (alloc used 60 (pos 32)).pointer 0xff 60 ramp).0)
      (allocations used.blocks)
alloc_then_set_example =
    alloc_then_set plain plain-IsLawful used 60 (pos 32) 0xff 60 ramp used-IsHeap (omega arith)
      (omega arith)

alloc_then_zero_example :
    let p = (alloc used 64 (pos 32)).pointer in
    let m' = (dc_zero_range plain p 64 ramp).0 in
    ((p ≡ 0) ⊎ IsCleared plain plain-IsLawful m' p 64)
    × All (Keeps plain plain-IsLawful ramp m') (allocations used.blocks)
alloc_then_zero_example =
    alloc_then_zero plain plain-IsLawful used 64 (pos 32) ramp used-IsHeap (omega arith)
      (omega arith) refl
