-- ===== src/FrmHeap/Api.antt =====
-- The exported calls of source/memfrmheap.cpp: each finds its heap by handle. A handle is the
-- address of the region, 0 for null.
use coreinit_nx.Base.{
  ℕ, ◌+◌, ◌^◌, ◌≤◌, ◌<◌, ◌≡◌, refl, true, false, ◌||◌, Option, none, leb, lt→leb, ◌==◌,
  if◌then◌else◌, arith,
}
use coreinit_nx.Base.Int.{ℤ}
use coreinit_nx.Align.{align_up}
use coreinit_nx.Align.Laws.{align_up-least}
use coreinit_nx.Handles.{HandleTable, with_host}
use coreinit_nx.FrmHeap.{
  HostFrmHeap, fresh, heap_header, add64, create, destroy, alloc, free, record_state, free_by_state,
  adjust, allocatable,
}
use coreinit_nx.FrmHeap.Bounds.{IsBounded}

abbrev pub FrmHeaps : Type 0
FrmHeaps = HandleTable HostFrmHeap

pub mem_create_frm_heap_ex : FrmHeaps → ℕ → ℕ → ℕ → FrmHeaps × ℕ
mem_create_frm_heap_ex t heap size flags =
    if heap == 0 || leb size heap_header
    then (t, 0)
    else with_host fresh (create heap size flags) heap t

-- A call on the live heap of a handle; it has one answer for null and for a heap that is not live.
pub on_live {κ} : {R : Type κ} → (HostFrmHeap → HostFrmHeap × R) → R → FrmHeaps → ℕ → FrmHeaps × R
on_live body dead t heap =
    if heap == 0
    then (t, dead)
    else with_host fresh (λ h. if h.live then body h else (h, dead)) heap t

pub mem_destroy_frm_heap : FrmHeaps → ℕ → FrmHeaps × ℕ
mem_destroy_frm_heap t heap = on_live (λ h. (destroy h, heap)) 0 t heap

-- The pointer, and the range that the call clears.
pub mem_alloc_from_frm_heap_ex : FrmHeaps → ℕ → ℕ → ℤ → FrmHeaps × (ℕ × Option (ℕ × ℕ))
mem_alloc_from_frm_heap_ex t heap size alignment =
    on_live (λ h. let r = alloc h size alignment in (r.heap, (r.pointer, r.cleared))) (0, none) t
      heap

pub mem_free_to_frm_heap : FrmHeaps → ℕ → ℕ → FrmHeaps
mem_free_to_frm_heap t heap mode = (on_live {0} (λ h. (free h mode, tt)) (tt {0}) t heap).0

pub mem_record_state_for_frm_heap : FrmHeaps → ℕ → ℕ → FrmHeaps × ℕ
mem_record_state_for_frm_heap t heap tag = on_live (λ h. (record_state h tag, 1)) 0 t heap

pub mem_free_by_state_to_frm_heap : FrmHeaps → ℕ → ℕ → FrmHeaps × ℕ
mem_free_by_state_to_frm_heap t heap tag = on_live (λ h. free_by_state h tag) 0 t heap

pub mem_adjust_frm_heap : FrmHeaps → ℕ → FrmHeaps × ℕ
mem_adjust_frm_heap t heap = on_live (λ h. adjust h heap) 0 t heap

pub mem_get_allocatable_size_for_frm_heap_ex : FrmHeaps → ℕ → ℤ → FrmHeaps × ℕ
mem_get_allocatable_size_for_frm_heap_ex t heap alignment =
    on_live (λ h. (h, allocatable h alignment)) 0 t heap

-- `MEMCreateFrmHeapEx` on a region that can hold its header gives a live heap in bounds, empty at
-- both ends up to the end of its region, under its own address as its handle.
pub create-IsBounded :
    (heap size flags : ℕ) (h : HostFrmHeap)
    → heap_header + 4 ≤ size
    → size < 2 ^ 32
    → heap + size ≤ 2 ^ 63
    → IsBounded (create heap size flags h).0
      × ((create heap size flags h).0.live ≡ true)
      × ((create heap size flags h).0.tail ≡ heap + size)
      × ((create heap size flags h).1 ≡ heap)
unfolding create
create-IsBounded heap size flags h large small low =
    let no_wrap : add64 heap heap_header ≡ heap + heap_header = omega arith in
    let up = align_up-least (heap + heap_header) 4 (2, omega arith, refl) (omega arith) in
    let room : leb (add64 heap size) (align_up (add64 heap heap_header) 4) ≡ false =
      rw no_wrap (lt→leb _ _ (omega arith)) in
    rw room (record { heap = rw no_wrap (omega arith); states = tt }, refl, omega arith, refl)
