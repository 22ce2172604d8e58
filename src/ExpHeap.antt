-- ===== src/ExpHeap.antt =====
-- source/memexpheap.cpp: the expanded heap, a general allocator over a region that the guest
-- supplies. A heap's state is `HostExpHeap`; its `std::vector<Block>` is a list, sorted by start.
-- The functions of this file work on one heap; `ExpHeap/Api.antt` has the exported calls, which find
-- the heap by its handle. Addresses are 64-bit, sizes 32-bit: each sum, difference and cast keeps
-- its wrap-around. `size_t chosen = -1` is `none`.
use coreinit_nx.Base.{
  ℕ, ◌+◌, ◌-◌, ◌%◌, ◌^◌, Bool, true, false, not, ◌&&◌, List, [], ◌∷◌, ◌++◌, Option, none, some, ltb,
  leb, ◌==◌, if◌then◌else◌, bit_and, suc, zero, get_elem?,
}
pub mod Blocks
pub mod Carve
pub mod Choose
pub mod Free
pub mod Heap
pub mod Refine
pub mod Sizes
pub mod Api
pub mod Reach
pub mod BaseHeaps
pub mod DefaultHeap
mod Tests
use mathlib.Core.Option
use coreinit_nx.Base.Int.{ℤ}
use coreinit_nx.Align.{align_up, align_down, normalise_alignment}

pub data Direction : Type 0 where
  from_top from_bottom : Direction

pub record Block : Type 0 where
  pub start : ℕ
  pub size : ℕ
  pub payload : ℕ
  pub payload_size : ℕ
  pub used : Bool
  pub direction : Direction

-- `mode` is the number that the guest set, an 8-bit cast of a `MEMExpHeapMode`.
pub record HostExpHeap : Type 0 where
  pub data_start : ℕ
  pub data_end : ℕ
  pub flags : ℕ
  pub mode : ℕ
  pub live : Bool
  pub blocks : List Block

-- MEM_EXP_HEAP_MODE_FIRST_FREE, COREINIT_NX_MEMEXPHEAP_SIZE, COREINIT_NX_EXPBLOCK_SIZE.
abbrev pub first_free : ℕ
first_free = 0

abbrev pub heap_header : ℕ
heap_header = 0x54

abbrev pub block_header : ℕ
block_header = 0x14

abbrev pub add64 : ℕ → ℕ → ℕ
add64 x y = (x + y) % 2 ^ 64

abbrev pub sub64 : ℕ → ℕ → ℕ
sub64 x y = (x + 2 ^ 64 - y) % 2 ^ 64

abbrev pub u32 : ℕ → ℕ
u32 x = x % 2 ^ 32

-- `HostExpHeap::init`.
abbrev pub fresh : HostExpHeap
fresh = record {
  data_start = 0;
  data_end = 0;
  flags = 0;
  mode = first_free;
  live = false;
  blocks = [];
}

abbrev pub free_block : ℕ → ℕ → Block
free_block start size = record {
  start = start;
  size = size;
  payload = 0;
  payload_size = 0;
  used = false;
  direction = from_top;
}

abbrev pub used_block : ℕ → ℕ → ℕ → ℕ → Direction → Block
used_block start size payload payload_size direction = record {
  start = start;
  size = size;
  payload = payload;
  payload_size = payload_size;
  used = true;
  direction = direction;
}

-- The largest payload of an alignment that fits in a free block.
pub fit_in_free : Block → ℕ → ℕ
fit_in_free b a =
    let end = add64 b.start b.size in
    let lowest = align_up (add64 b.start block_header) a in
    if leb end lowest then 0 else u32 (sub64 end lowest)

-- One free block joined with the next.
pub merge : Block → Block → Block
merge b c = record b { size = u32 (b.size + c.size) }

-- `coalesce`, with the block at index `i` in hand and those behind it.
pub coalesce_from : Block → List Block → List Block
coalesce_from b [] = b ∷ []
coalesce_from b (c ∷ r) = elim (not b.used && not c.used) [
  | true ↦ coalesce_from (merge b c) r
  | false ↦ b ∷ coalesce_from c r
]

pub coalesce : List Block → List Block
unfolding coalesce_from
coalesce [] = []
coalesce (b ∷ r) = coalesce_from b r

-- Does this slack beat the block chosen so far?
abbrev pub beats : ℕ → Option (ℕ × ℕ) → Bool
beats slack none = true
beats slack (some (_, chosen_slack)) = ltb slack chosen_slack

abbrev pub fits : ℕ → ℕ → Block → Bool
fits a size b = not b.used && leb size (fit_in_free b a)

-- The search loop of `MEMAllocFromExpHeapEx` from index `i` on, with the index chosen so far and its
-- slack.
pub choose : ℕ → ℕ → ℕ → List Block → ℕ → Option (ℕ × ℕ) → Option (ℕ × ℕ)
choose mode a size [] i chosen = chosen
choose mode a size (b ∷ r) i chosen =
    let slack = fit_in_free b a - size in
    elim (fits a size b && mode == first_free) [
      | true ↦ some (i, 0)
      | false ↦
          choose mode a size r (i + 1)
            (if fits a size b && beats slack chosen then some (i, slack) else chosen)
    ]

-- What an allocation makes of the free block that it takes: the payload, and the blocks that
-- replace it.
pub record Carved : Type 0 where
  pub at : ℕ
  pub replacement : List Block

-- The smallest remainder that is split off.
abbrev pub min_split : ℕ
min_split = 0x14 + 4

pub carve_bottom : ℕ → ℕ → Block → Option Carved
carve_bottom a size free =
    let free_end = add64 free.start free.size in
    let payload = align_down (sub64 free_end size) a in
    let block_start = sub64 payload block_header in
    let before = u32 (sub64 block_start free.start) in
    let length = u32 (sub64 free_end block_start) in
    if ltb block_start free.start
    then none
    else some (record {
      at = payload;
      replacement =
          if leb min_split before
          then free_block free.start before
            ∷ used_block block_start length payload size from_bottom
            ∷ []
          else if ltb 0 before
          then used_block free.start (u32 (length + before)) payload size from_bottom ∷ []
          else used_block block_start length payload size from_bottom ∷ [];
    })

pub carve_top : ℕ → ℕ → Block → Option Carved
carve_top a size free =
    let free_end = add64 free.start free.size in
    let payload = align_up (add64 free.start block_header) a in
    let block_end = add64 payload size in
    let after = u32 (sub64 free_end block_end) in
    let length = u32 (sub64 block_end free.start) in
    if ltb free_end block_end
    then none
    else some (record {
      at = payload;
      replacement =
          if leb min_split after
          then used_block free.start length payload size from_top ∷ free_block block_end after ∷ []
          else used_block free.start (u32 (length + after)) payload size from_top ∷ [];
    })

pub carve : Bool → ℕ → ℕ → Block → Option Carved
unfolding carve_bottom carve_top
carve bottom a size free = if bottom then carve_bottom a size free else carve_top a size free

-- `erase` of the block at an index, and `insert` of others in its place.
pub splice : ℕ → List Block → List Block → List Block
splice i new [] = []
splice zero new (b ∷ r) = new ++ r
splice (suc i) new (b ∷ r) = b ∷ splice i new r

-- The result of an allocation: the heap, the pointer (0 for null), and the range that is cleared.
pub record Allocated : Type 0 where
  pub heap : HostExpHeap
  pub pointer : ℕ
  pub cleared : Option (ℕ × ℕ)

abbrev pub refused : HostExpHeap → Allocated
refused h = record { heap = h; pointer = 0; cleared = none }

-- `h->flags & MEM_HEAP_FLAG_ZERO_ALLOCATED`.
abbrev pub zero_allocated : HostExpHeap → Bool
zero_allocated h = not (bit_and h.flags 1 == 0)

-- The end of an allocation, with the block at index `i` carved up.
pub place : HostExpHeap → ℕ → ℕ → Option Carved → Allocated
place h size i none = refused h
place h size i (some c) = record {
  heap = record h { blocks = splice i c.replacement h.blocks };
  pointer = c.at;
  cleared = if zero_allocated h then some (c.at, size) else none;
}

pub take_free : HostExpHeap → Bool → ℕ → ℕ → ℕ → Option Block → Allocated
unfolding place
take_free h bottom a size i none = refused h
take_free h bottom a size i (some b) = place h size i (carve bottom a size b)

pub alloc_sized : HostExpHeap → ℕ → Bool → ℕ → Allocated
unfolding take_free
alloc_sized h size bottom a = elim (choose h.mode a size h.blocks 0 none) [
  | none ↦ refused h
  | some (i, _) ↦ take_free h bottom a size i (get_elem? h.blocks i)
]

-- The body of `MEMAllocFromExpHeapEx` on a live heap. A request for no bytes is one for one byte.
pub alloc : HostExpHeap → ℕ → ℤ → Allocated
unfolding alloc_sized
alloc h size alignment =
    let (bottom, a) = normalise_alignment alignment in
    alloc_sized h (if size == 0 then 1 else size) bottom a

-- The loop of `MEMFreeToExpHeap`: the used block of that payload marked free, if there is one.
pub mark_free : ℕ → List Block → Option (List Block)
mark_free p [] = none
mark_free p (b ∷ r) =
    if b.used && b.payload == p
    then some (record b { used = false; payload = 0; payload_size = 0 } ∷ r)
    else Option.map (λ s. b ∷ s) (mark_free p r)

-- The body of `MEMFreeToExpHeap` on a live heap. An unknown pointer is ignored.
pub free : HostExpHeap → ℕ → HostExpHeap
unfolding mark_free coalesce
free h p = if p == 0 then h else elim (mark_free p h.blocks) [
  | none ↦ h
  | some blocks ↦ record h { blocks = coalesce blocks }
]

-- `MEMGetTotalFreeSizeForExpHeap` adds up 32-bit sizes.
pub total_free : List Block → ℕ → ℕ
total_free [] total = total
total_free (b ∷ r) total = total_free r (if b.used then total else u32 (total + b.size))

-- `MEMGetAllocatableSizeForExpHeapEx`: the best fit of any free block.
pub best_fit : ℕ → List Block → ℕ → ℕ
best_fit a [] best = best
best_fit a (b ∷ r) best =
    best_fit a r (if not b.used && ltb best (fit_in_free b a) then fit_in_free b a else best)

pub allocatable : HostExpHeap → ℤ → ℕ
unfolding best_fit
allocatable h alignment = best_fit (normalise_alignment alignment).1 h.blocks 0
