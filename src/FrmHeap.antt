-- ===== src/FrmHeap.antt =====
-- source/memfrmheap.cpp: the frame heap, a stack that grows from both ends of a region. The state
-- of a heap is `HostFrmHeap`; its `std::vector<State>` of recorded states is a list with the latest
-- in front, so an index from the back is a position from the front. Addresses are 64-bit.
pub mod Bounds
pub mod States
pub mod Api
mod Tests
use coreinit_nx.Base.{
  ℕ, ◌+◌, ◌-◌, ◌%◌, ◌^◌, Bool, true, false, not, ◌&&◌, ◌||◌, List, [], ◌∷◌, Option, none, some, ltb,
  leb, ◌==◌, if◌then◌else◌, bit_and,
}
use coreinit_nx.Base.Int.{ℤ}
use coreinit_nx.Align.{align_up, align_down, normalise_alignment}
use coreinit_nx.Handles.{HandleTable, with_host}

pub record State : Type 0 where
  pub tag : ℕ
  pub head : ℕ
  pub tail : ℕ

pub record HostFrmHeap : Type 0 where
  pub data_start : ℕ
  pub data_end : ℕ
  pub head : ℕ
  pub tail : ℕ
  pub flags : ℕ
  pub live : Bool
  pub states : List State

-- COREINIT_NX_MEMFRMHEAP_SIZE, MEM_FRM_HEAP_FREE_ALL.
abbrev pub heap_header : ℕ
heap_header = 0x4c

abbrev pub free_all : ℕ
free_all = 3

abbrev pub add64 : ℕ → ℕ → ℕ
add64 x y = (x + y) % 2 ^ 64

abbrev pub sub64 : ℕ → ℕ → ℕ
sub64 x y = (x + 2 ^ 64 - y) % 2 ^ 64

-- `HostFrmHeap::init`.
abbrev pub fresh : HostFrmHeap
fresh = record {
  data_start = 0;
  data_end = 0;
  head = 0;
  tail = 0;
  flags = 0;
  live = false;
  states = [];
}

-- `MEMCreateFrmHeapEx` once its arguments are accepted: the bounds are written even if it fails.
pub create : ℕ → ℕ → ℕ → HostFrmHeap → HostFrmHeap × ℕ
create heap size flags h =
    let data_start = align_up (add64 heap heap_header) 4 in
    let data_end = add64 heap size in
    if leb data_end data_start
    then (record h { data_start = data_start; data_end = data_end }, 0)
    else (
      record {
        data_start = data_start;
        data_end = data_end;
        head = data_start;
        tail = data_end;
        flags = flags;
        live = true;
        states = [];
      },
      heap,
    )

pub destroy : HostFrmHeap → HostFrmHeap
destroy h = record h { live = false; states = [] }

pub alloc_tail : HostFrmHeap → ℕ → ℕ → Option (HostFrmHeap × ℕ)
alloc_tail h size a =
    let candidate = align_down (sub64 h.tail size) a in
    if ltb candidate h.head || ltb h.tail candidate
    then none
    else some (record h { tail = candidate }, candidate)

pub alloc_head : HostFrmHeap → ℕ → ℕ → Option (HostFrmHeap × ℕ)
alloc_head h size a =
    let candidate = align_up h.head a in
    if ltb h.tail (add64 candidate size) || ltb candidate h.head
    then none
    else some (record h { head = add64 candidate size }, candidate)

pub alloc_sized : HostFrmHeap → ℕ → Bool → ℕ → Option (HostFrmHeap × ℕ)
alloc_sized h size from_tail a = if from_tail then alloc_tail h size a else alloc_head h size a

-- The result of an allocation: the heap, the pointer (0 for null), and the range that is cleared.
pub record Allocated : Type 0 where
  pub heap : HostFrmHeap
  pub pointer : ℕ
  pub cleared : Option (ℕ × ℕ)

pub granted : HostFrmHeap → ℕ → Option (HostFrmHeap × ℕ) → Allocated
granted h size none = record { heap = h; pointer = 0; cleared = none }
granted h size (some (h', result)) = record {
  heap = h';
  pointer = result;
  cleared = if not (bit_and h'.flags 1 == 0) then some (result, size) else none;
}

-- The bytes that a request asks for: no bytes count as one.
abbrev pub request : ℕ → ℕ
request size = if size == 0 then 1 else size

-- The body of `MEMAllocFromFrmHeapEx` on a live heap.
pub alloc : HostFrmHeap → ℕ → ℤ → Allocated
unfolding granted
alloc h size alignment =
    let (from_tail, a) = normalise_alignment alignment in
    granted h (request size) (alloc_sized h (request size) from_tail a)

-- `MEMFreeToFrmHeap`: the bits of the mode are 1 for the head and 2 for the tail.
pub free : HostFrmHeap → ℕ → HostFrmHeap
free h mode = record h {
  head = if not (bit_and mode 1 == 0) then h.data_start else h.head;
  tail = if not (bit_and mode 2 == 0) then h.data_end else h.tail;
  states = if bit_and mode free_all == free_all then [] else h.states;
}

pub record_state : HostFrmHeap → ℕ → HostFrmHeap
record_state h tag = record h {
  states = record { tag = tag; head = h.head; tail = h.tail } ∷ h.states;
}

-- The latest state of a tag with those recorded before it; tag 0 is the latest of all.
pub find_state : ℕ → List State → Option (State × List State)
find_state tag [] = none
find_state tag (s ∷ below) =
    if tag == 0 || s.tag == tag then some (s, below) else find_state tag below

-- `MEMFreeByStateToFrmHeap`: back to a recorded state, which goes with all recorded after it.
pub free_by_state : HostFrmHeap → ℕ → HostFrmHeap × ℕ
unfolding find_state
free_by_state h tag = elim (find_state tag h.states) [
  | none ↦ (h, 0)
  | some (s, below) ↦ (record h { head = s.head; tail = s.tail; states = below }, 1)
]

-- `MEMAdjustFrmHeap`: the new size of the region, cut to 32 bits.
pub adjust : HostFrmHeap → ℕ → HostFrmHeap × ℕ
adjust h heap =
    if h.tail == h.data_end
    then (record h { data_end = h.head; tail = h.head }, sub64 h.head heap % 2 ^ 32)
    else (h, 0)

-- `MEMGetAllocatableSizeForFrmHeapEx`.
pub allocatable : HostFrmHeap → ℤ → ℕ
allocatable h alignment =
    let start = align_up h.head (normalise_alignment alignment).1 in
    if leb h.tail start then 0 else sub64 h.tail start % 2 ^ 32
