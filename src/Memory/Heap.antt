-- ===== src/Memory/Heap.antt =====
-- Fills of payloads of an expanded heap, with source/memexpheap.cpp.
use coreinit_nx.Base.{
  ℕ, ◌+◌, ◌%◌, ◌^◌, ◌<◌, ◌≤◌, ◌≡◌, ◌⊎◌, inl, inr, refl, ◌∙◌, false, not, List, [], ◌∷◌, ◌&&◌, ◌==◌,
  if◌then◌else◌, All, arith,
}
use coreinit_nx.Base.Int.{ℤ, nat_abs}
use coreinit_nx.Memory.{Memory, IsLawful, within, os_block_set, dc_zero_range}
use coreinit_nx.Memory.Zero.{dc_zero_range_lem}
use coreinit_nx.ExpHeap.{HostExpHeap, alloc}
use coreinit_nx.ExpHeap.Carve.{allocations}
use coreinit_nx.ExpHeap.Heap.{IsHeap}
use coreinit_nx.ExpHeap.Refine.{IsApart, request, alloc_refines}

module _ (M : Memory) (lawful : IsLawful M) where
  open M use {Bytes, read, memset}

  -- Two states of memory agree on a payload.
  abbrev pub Keeps : Bytes → Bytes → ℕ × ℕ → Type 0
  Keeps m m' (q, n) = (i : ℕ) → i < n → read m' (q + i) ≡ read m (q + i)

  set_lem :
      (dst value size a : ℕ) (m : Bytes)
      → within dst size a ≡ false
      → read (os_block_set M dst value size m).0 a ≡ read m a
  unfolding os_block_set
  set_lem dst value size a m out = ground (arith, lawful.filled dst value size a m)

  set-Keeps :
      (dst value n size : ℕ) (m : Bytes)
      → n ≤ size
      → (held : List (ℕ × ℕ)) → All (IsApart dst size) held
      → All (Keeps m (os_block_set M dst value n m).0) held
  set-Keeps dst value n size m le [] h = tt
  set-Keeps dst value n size m le ((q, k) ∷ r) (apart, h) =
      (λ i lt. set_lem dst value n (q + i) m (ground arith), set-Keeps dst value n size m le r h)

  null-Keeps :
      (value n : ℕ) (m : Bytes) (held : List (ℕ × ℕ))
      → All (Keeps m (os_block_set M 0 value n m).0) held
  unfolding os_block_set
  null-Keeps value n m [] = tt
  null-Keeps value n m ((q, k) ∷ r) = (λ i lt. refl, null-Keeps value n m r)

  -- By what the C library documents of memory: when a heap is sound, the answer of
  -- `MEMAllocFromExpHeapEx` with an alignment of 32 bits, null or not, may be filled by `OSBlockSet` for as
  -- many bytes as were asked for, and every byte of every payload that the heap held before keeps its value.
  pub alloc_then_set :
      (h : HostExpHeap) (size : ℕ) (alignment : ℤ) (value n : ℕ) (m : Bytes)
      → IsHeap h
      → nat_abs alignment ≤ 2 ^ 31
      → n ≤ size
      → All
          (Keeps m (os_block_set M (alloc h size alignment).pointer value n m).0)
          (allocations h.blocks)
  alloc_then_set h size alignment value n m v r le = elim (alloc_refines h size alignment v r) [
    | inl same ↦ rw same (null-Keeps value n m (allocations h.blocks))
    | inr grants ↦
        set-Keeps (alloc h size alignment).pointer value n (request size) m (ground arith)
          (allocations h.blocks) grants.apart
  ]

  -- A range that holds zeros.
  abbrev pub IsCleared : Bytes → ℕ → ℕ → Type 0
  IsCleared m p n = (i : ℕ) → i < n → read m (p + i) ≡ 0

  zero_lem :
      (addr size a : ℕ) (m : Bytes)
      → size < 2 ^ 32
      → size % 32 ≡ 0
      → read (dc_zero_range M addr size m).0 a
        ≡ (if not (addr == 0) && within addr size a then 0 else read m a)
  zero_lem addr size a m h e = ground (arith, (dc_zero_range_lem M lawful addr size a m h).0)

  zero-Keeps :
      (addr size n : ℕ) (m : Bytes)
      → size < 2 ^ 32
      → size % 32 ≡ 0
      → size ≤ n
      → (held : List (ℕ × ℕ)) → All (IsApart addr n) held
      → All (Keeps m (dc_zero_range M addr size m).0) held
  zero-Keeps addr size n m h e le [] a = tt
  zero-Keeps addr size n m h e le ((q, k) ∷ r) (apart, a) =
      (λ i lt. zero_lem addr size (q + i) m h e ∙ ground arith, zero-Keeps addr size n m h e le r a)

  null_zero-Keeps :
      (size : ℕ) (m : Bytes) (held : List (ℕ × ℕ))
      → size < 2 ^ 32
      → size % 32 ≡ 0
      → All (Keeps m (dc_zero_range M 0 size m).0) held
  null_zero-Keeps size m [] h e = tt
  null_zero-Keeps size m ((q, k) ∷ r) h e =
      (λ i lt. zero_lem 0 size (q + i) m h e, null_zero-Keeps size m r h e)

  -- By what the C library documents of memory: when a heap is sound and the bytes asked for are a multiple
  -- of 32 that 32 bits hold, `DCZeroRange` of the answer of `MEMAllocFromExpHeapEx` with an alignment of 32
  -- bits clears the payload, unless the answer is null, and every byte of every payload that the heap held
  -- before keeps its value.
  pub alloc_then_zero :
      (h : HostExpHeap) (size : ℕ) (alignment : ℤ) (m : Bytes)
      → IsHeap h
      → nat_abs alignment ≤ 2 ^ 31
      → size < 2 ^ 32
      → size % 32 ≡ 0
      → let p = (alloc h size alignment).pointer in
        let m' = (dc_zero_range M p size m).0 in
        ((p ≡ 0) ⊎ IsCleared m' p size) × All (Keeps m m') (allocations h.blocks)
  alloc_then_zero h size alignment m v r b e = elim (alloc_refines h size alignment v r) [
    | inl same ↦ rw same (inl refl, null_zero-Keeps size m (allocations h.blocks) b e)
    | inr grants ↦
        let p = (alloc h size alignment).pointer in
        let above = grants.above in
        (
          inr (λ i lt. zero_lem p size (p + i) m b e ∙ ground arith),
          zero-Keeps p size (request size) m b e (ground arith) (allocations h.blocks) grants.apart,
        )
  ]
