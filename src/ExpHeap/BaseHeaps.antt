-- ===== src/ExpHeap/BaseHeaps.antt =====
-- The base heaps of source/memexpheap.cpp: three handles, each of a heap that is made on first use, and
-- the search for the base heap that holds an address.
use coreinit_nx.Base.{
  ℕ, ◌*◌, Bool, false, ◌&&◌, List, [], ◌∷◌, Option, none, some, ltb, leb, ◌==◌, if◌then◌else◌,
  get_or, set,
}
use coreinit_nx.ExpHeap.Api.{ExpHeaps, on_live, mem_create_exp_heap_ex}

pub data BaseHeapType : Type 0 where
  mem1 mem2 fg other_type : BaseHeapType

pub base_index : BaseHeapType → Option ℕ
base_index mem1 = some 0
base_index mem2 = some 1
base_index fg = some 2
base_index other_type = none

-- `g_baseHeap`, three handles, beside the heaps.
pub record BaseHeaps : Type 0 where
  pub handles : List ℕ
  pub heaps : ExpHeaps

-- `MEMGetBaseHeapHandle`, with the region that `malloc` would give.
pub mem_get_base_heap_handle : ℕ → BaseHeaps → BaseHeapType → BaseHeaps × ℕ
unfolding base_index
mem_get_base_heap_handle region s type = elim (base_index type) [
  | none ↦ (s, 0)
  | some i ↦
      let known = get_or s.handles i 0 in
      if known == 0
      then (if region == 0
          then (s, 0)
          else (let r = mem_create_exp_heap_ex s.heaps region (8 * 1024 * 1024) 0 in
              (record { handles = set s.handles i r.1; heaps = r.0 }, r.1)))
      else (s, known)
]

-- `MEMSetBaseHeapHandle`: the handle from before.
pub mem_set_base_heap_handle : BaseHeaps → BaseHeapType → ℕ → BaseHeaps × ℕ
unfolding base_index
mem_set_base_heap_handle s type heap = elim (base_index type) [
  | none ↦ (s, 0)
  | some i ↦ (record s { handles = set s.handles i heap }, get_or s.handles i 0)
]

-- Is an address in the region of a live heap?
pub contains : ExpHeaps → ℕ → ℕ → ExpHeaps × Bool
contains t heap p = on_live (λ h. (h, leb h.data_start p && ltb p h.data_end)) false t heap

-- The loop of `MEMFindContainHeap` over the handles.
pub find_among : ExpHeaps → List ℕ → ℕ → ExpHeaps × ℕ
find_among t [] p = (t, 0)
find_among t (heap ∷ heaps) p =
    let (t', inside) = contains t heap p in
    let rest = find_among t' heaps p in
    if heap == 0 then find_among t heaps p else if inside then (t', heap) else rest

pub mem_find_contain_heap : BaseHeaps → ℕ → BaseHeaps × ℕ
mem_find_contain_heap s block =
    if block == 0
    then (s, 0)
    else (let r = find_among s.heaps s.handles block in (record s { heaps = r.0 }, r.1))
