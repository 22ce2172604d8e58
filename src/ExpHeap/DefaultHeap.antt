-- ===== src/ExpHeap/DefaultHeap.antt =====
-- source/memdefaultheap.cpp: the default heap is the base heap MEM2. A game may put functions of its own
-- in place of these; those are not modelled.
use coreinit_nx.Base.{ℕ, ◌≡◌, refl, if◌then◌else◌, Option}
use coreinit_nx.Base.Int.{ℤ, pos, eqb_ℤ}
use coreinit_nx.ExpHeap.Api.{mem_alloc_from_exp_heap_ex, mem_free_to_exp_heap}
use coreinit_nx.ExpHeap.BaseHeaps.{BaseHeaps, mem2, mem_get_base_heap_handle}

-- `defaultAllocEx`, with the region that `malloc` would give; the pointer and the range it clears.
pub default_alloc_ex : ℕ → BaseHeaps → ℕ → ℤ → BaseHeaps × (ℕ × Option (ℕ × ℕ))
default_alloc_ex region s size alignment =
    let (s', heap) = mem_get_base_heap_handle region s mem2 in
    let (heaps, answer) =
      mem_alloc_from_exp_heap_ex s'.heaps heap size
        (if eqb_ℤ alignment (pos 0) then pos 4 else alignment) in
    (record s' { heaps = heaps }, answer)

pub default_alloc : ℕ → BaseHeaps → ℕ → BaseHeaps × (ℕ × Option (ℕ × ℕ))
default_alloc region s size =
    let (s', heap) = mem_get_base_heap_handle region s mem2 in
    let (heaps, answer) = mem_alloc_from_exp_heap_ex s'.heaps heap size (pos 4) in
    (record s' { heaps = heaps }, answer)

pub default_free : ℕ → BaseHeaps → ℕ → BaseHeaps
default_free region s block =
    let (s', heap) = mem_get_base_heap_handle region s mem2 in
    record s' { heaps = mem_free_to_exp_heap s'.heaps heap block }

-- Without an alignment `defaultAllocEx` does what `defaultAlloc` does.
pub default_alloc_ex-default_alloc :
    (region : ℕ) (s : BaseHeaps) (size : ℕ)
    → default_alloc_ex region s size (pos 0) ≡ default_alloc region s size
unfolding default_alloc_ex default_alloc
default_alloc_ex-default_alloc region s size = refl
