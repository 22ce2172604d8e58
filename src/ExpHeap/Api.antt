-- ===== src/ExpHeap/Api.antt =====
-- The exported calls of source/memexpheap.cpp: each finds its heap by handle. A handle is the
-- address of the region, 0 for null.
use coreinit_nx.Base.{
  ℕ, ◌+◌, ◌%◌, ◌^◌, true, false, ◌||◌, [], ◌∷◌, Option, none, leb, ◌==◌, if◌then◌else◌,
}
use coreinit_nx.Base.Int.{ℤ}
use coreinit_nx.Align.{align_up}
use coreinit_nx.Handles.{HandleTable, with_host}
use coreinit_nx.ExpHeap.{
  HostExpHeap, fresh, free_block, first_free, heap_header, block_header, add64, sub64, u32, alloc,
  free, total_free, allocatable,
}

abbrev pub ExpHeaps : Type 0
ExpHeaps = HandleTable HostExpHeap

-- `MEMCreateExpHeapEx` once its arguments are accepted: the bounds are written even if it fails.
unfoldable pub create : ℕ → ℕ → ℕ → HostExpHeap → HostExpHeap × ℕ
create heap size flags h =
    let data_start = align_up (add64 heap heap_header) 4 in
    let data_end = add64 heap size in
    if leb data_end data_start
    then (record h { data_start = data_start; data_end = data_end }, 0)
    else (
      record {
        data_start = data_start;
        data_end = data_end;
        flags = flags;
        mode = first_free;
        live = true;
        blocks = free_block data_start (u32 (sub64 data_end data_start)) ∷ [];
      },
      heap,
    )

unfoldable pub mem_create_exp_heap_ex : ExpHeaps → ℕ → ℕ → ℕ → ExpHeaps × ℕ
unfolding create
mem_create_exp_heap_ex t heap size flags =
    if heap == 0 || leb size (heap_header + block_header)
    then (t, 0)
    else with_host fresh (create heap size flags) heap t

-- A call on the live heap of a handle; it has one answer for null and for a heap that is not live.
-- Looking the handle up enters it in the table.
unfoldable pub on_live {κ} :
    {R : Type κ} → (HostExpHeap → HostExpHeap × R) → R → ExpHeaps → ℕ → ExpHeaps × R
on_live body dead t heap =
    if heap == 0
    then (t, dead)
    else with_host fresh (λ h. if h.live then body h else (h, dead)) heap t

unfoldable pub mem_destroy_exp_heap : ExpHeaps → ℕ → ExpHeaps × ℕ
unfolding on_live
mem_destroy_exp_heap t heap = on_live (λ h. (record h { live = false; blocks = [] }, heap)) 0 t heap

-- The pointer, and the range that the call clears.
unfoldable pub mem_alloc_from_exp_heap_ex : ExpHeaps → ℕ → ℕ → ℤ → ExpHeaps × (ℕ × Option (ℕ × ℕ))
unfolding on_live
mem_alloc_from_exp_heap_ex t heap size alignment =
    on_live (λ h. let r = alloc h size alignment in (r.heap, (r.pointer, r.cleared))) (0, none) t
      heap

unfoldable pub mem_free_to_exp_heap : ExpHeaps → ℕ → ℕ → ExpHeaps
unfolding on_live
mem_free_to_exp_heap t heap block = (on_live {0} (λ h. (free h block, tt)) (tt {0}) t heap).0

unfoldable pub mem_get_total_free_size_for_exp_heap : ExpHeaps → ℕ → ExpHeaps × ℕ
unfolding on_live
mem_get_total_free_size_for_exp_heap t heap = on_live (λ h. (h, total_free h.blocks 0)) 0 t heap

unfoldable pub mem_get_allocatable_size_for_exp_heap_ex : ExpHeaps → ℕ → ℤ → ExpHeaps × ℕ
unfolding on_live
mem_get_allocatable_size_for_exp_heap_ex t heap alignment =
    on_live (λ h. (h, allocatable h alignment)) 0 t heap

-- The mode that is set is cast to 8 bits.
unfoldable pub mem_set_alloc_mode_for_exp_heap : ExpHeaps → ℕ → ℕ → ExpHeaps × ℕ
unfolding on_live
mem_set_alloc_mode_for_exp_heap t heap mode =
    on_live (λ h. (record h { mode = mode % 2 ^ 8 }, h.mode)) first_free t heap

unfoldable pub mem_get_alloc_mode_for_exp_heap : ExpHeaps → ℕ → ExpHeaps × ℕ
unfolding on_live
mem_get_alloc_mode_for_exp_heap t heap = on_live (λ h. (h, h.mode)) first_free t heap
