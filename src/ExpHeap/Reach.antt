-- ===== src/ExpHeap/Reach.antt =====
-- Any sequence of calls on the expanded heaps, from the empty table on: every live heap is sound.
use coreinit_nx.Base.{
  ℕ, ◌+◌, ◌^◌, ◌≤◌, ◌<◌, ◌≡◌, refl, Bool, true, false, ◌||◌, List, [], ◌∷◌, arith, All, leb, lt→leb,
  ◌==◌, if◌then◌else◌, Bool-cases, inl, inr,
}
use coreinit_nx.Base.Int.{ℤ, nat_abs}
use coreinit_nx.Align.{align_up}
use coreinit_nx.Align.Laws.{align_up-least}
use coreinit_nx.Handles.{with_host}
use coreinit_nx.Handles.Laws.{AllHosts, with_host-AllHosts}
use coreinit_nx.ExpHeap.{HostExpHeap, fresh, add64, heap_header, block_header}
use coreinit_nx.ExpHeap.Heap.{IsHeap, alloc-IsHeap, free-IsHeap}
use coreinit_nx.ExpHeap.Api.{
  ExpHeaps, create, on_live, mem_create_exp_heap_ex, mem_destroy_exp_heap,
  mem_alloc_from_exp_heap_ex, mem_free_to_exp_heap, mem_set_alloc_mode_for_exp_heap,
}

-- The calls that change a heap.
pub data Call : Type 0 where
  creates : (heap size flags : ℕ) → Call
  destroys : (heap : ℕ) → Call
  allocs : (heap size : ℕ) (alignment : ℤ) → Call
  frees : (heap block : ℕ) → Call
  sets_mode : (heap mode : ℕ) → Call

pub step : ExpHeaps → Call → ExpHeaps
unfolding mem_create_exp_heap_ex mem_destroy_exp_heap mem_alloc_from_exp_heap_ex
    mem_free_to_exp_heap mem_set_alloc_mode_for_exp_heap
step t (creates heap size flags) = (mem_create_exp_heap_ex t heap size flags).0
step t (destroys heap) = (mem_destroy_exp_heap t heap).0
step t (allocs heap size alignment) = (mem_alloc_from_exp_heap_ex t heap size alignment).0
step t (frees heap block) = mem_free_to_exp_heap t heap block
step t (sets_mode heap mode) = (mem_set_alloc_mode_for_exp_heap t heap mode).0

pub run : ExpHeaps → List Call → ExpHeaps
run t [] = t
run t (c ∷ cs) = run (step t c) cs

-- The arguments are of their C types, and a region lies in the lower half of the address space.
abbrev pub InRange : Call → Type 0
InRange (creates heap size flags) = (size < 2 ^ 32) × (heap + size ≤ 2 ^ 63)
InRange (allocs heap size alignment) = (size < 2 ^ 32) × (nat_abs alignment ≤ 2 ^ 31)
InRange _ = Unit

abbrev pub IsGood : HostExpHeap → Type 0
IsGood h = h.live ≡ true → IsHeap h

-- `MEMCreateExpHeapEx` on a region that can hold the headers gives a live heap of one free block.
pub create_lem :
    (heap size flags : ℕ) (h : HostExpHeap)
    → heap_header + block_header < size
    → size < 2 ^ 32
    → heap + size ≤ 2 ^ 63
    → IsHeap (create heap size flags h).0
      × ((create heap size flags h).0.live ≡ true)
      × ((create heap size flags h).1 ≡ heap)
unfolding create
create_lem heap size flags h large small low =
    let no_wrap : add64 heap heap_header ≡ heap + heap_header = omega arith in
    let up = align_up-least (heap + heap_header) 4 (2, omega arith, refl) (omega arith) in
    let room : leb (add64 heap size) (align_up (add64 heap heap_header) 4) ≡ false =
      rw no_wrap (lt→leb _ _ (omega arith)) in
    rw room (
      record {
        low = omega arith;
        small = rw no_wrap (omega arith);
        tiles = rw no_wrap (refl, omega arith, omega arith);
        sound = ((λ u. absurd (cc)), tt);
        separated = (refl, tt);
      },
      refl,
      refl,
    )

fresh-IsGood : IsGood fresh
fresh-IsGood u = absurd (cc)

create-IsGood :
    (heap size flags : ℕ)
    → heap_header + block_header < size
    → size < 2 ^ 32
    → heap + size ≤ 2 ^ 63
    → (h : HostExpHeap) → IsGood h
    → IsGood (create heap size flags h).0
create-IsGood heap size flags large small low h g u =
    (create_lem heap size flags h large small low).0

on_live-IsGood {κ} :
    {R : Type κ} (body : HostExpHeap → HostExpHeap × R) (dead : R) (t : ExpHeaps) (heap : ℕ)
    → ((h : HostExpHeap) → IsHeap h → IsGood (body h).0)
    → AllHosts IsGood t
    → AllHosts IsGood (on_live body dead t heap).0
unfolding on_live
on_live-IsGood body dead t heap keep g = elim (Bool-cases (heap == 0)) [
  | inl z ↦ rw z g
  | inr nz ↦ rw nz (with_host-AllHosts IsGood fresh _ heap t fresh-IsGood each g)
]
  where
    branch :
        (h : HostExpHeap) (l : Bool)
        → h.live ≡ l
        → IsGood h
        → IsGood (if l then body h else (h, dead)).0
    branch h true e good = keep h (good e)
    branch h false e good = good

    each : (h : HostExpHeap) → IsGood h → IsGood (if h.live then body h else (h, dead)).0
    each h good = branch h h.live refl good

create-AllHosts :
    (t : ExpHeaps) (heap size flags : ℕ) (null : Bool)
    → (null ≡ false → heap_header + block_header < size)
    → size < 2 ^ 32
    → heap + size ≤ 2 ^ 63
    → AllHosts IsGood t
    → AllHosts IsGood (if null then (t, 0) else with_host fresh (create heap size flags) heap t).0
create-AllHosts t heap size flags true large small low g = g
create-AllHosts t heap size flags false large small low g =
    with_host-AllHosts IsGood fresh _ heap t fresh-IsGood
      (create-IsGood heap size flags (large refl) small low) g

mode-IsHeap : (h : HostExpHeap) (mode : ℕ) → IsHeap h → IsHeap (record h { mode = mode })
mode-IsHeap h mode v = record {
  low = v.low;
  small = v.small;
  tiles = v.tiles;
  sound = v.sound;
  separated = v.separated;
}

step-IsGood : (t : ExpHeaps) (c : Call) → InRange c → AllHosts IsGood t → AllHosts IsGood (step t c)
unfolding step
step-IsGood t (creates heap size flags) r g =
    create-AllHosts t heap size flags (heap == 0 || leb size (heap_header + block_header))
      (λ e. ground arith) r.0 r.1 g
step-IsGood t (destroys heap) r g = on_live-IsGood _ _ t heap (λ h v u. absurd (cc)) g
step-IsGood t (allocs heap size alignment) r g =
    on_live-IsGood _ _ t heap (λ h v u. alloc-IsHeap h size alignment v r.1) g
step-IsGood t (frees heap block) r g = on_live-IsGood _ _ t heap (λ h v u. free-IsHeap h block v) g
step-IsGood t (sets_mode heap mode) r g = on_live-IsGood _ _ t heap (λ h v u. mode-IsHeap h _ v) g

-- In every state that a sequence of calls, with arguments in range, reaches from a table whose live
-- heaps are sound, as the empty table, each live heap is sound: its blocks tile its region, used
-- blocks hold their payloads, and no two free blocks are neighbours.
pub run-IsGood :
    (cs : List Call) (t : ExpHeaps)
    → All InRange cs
    → AllHosts IsGood t
    → AllHosts IsGood (run t cs)
unfolding run
run-IsGood [] t r g = g
run-IsGood (c ∷ cs) t r g = run-IsGood cs (step t c) r.1 (step-IsGood t c r.0 g)
