-- ===== src/ExpHeap/Tests.antt =====
-- The expanded heap on a region of 4 KB at 0x1000: runs of the code, and its theorems at them.
use coreinit_nx.Base.{◌≤◌, ◌<◌, ◌≡◌, ◌≢◌, ◌⊎◌, refl, List, [], ◌∷◌, arith}
use coreinit_nx.Base.Int.{pos, negsuc}
use coreinit_nx.Align.{normalise_alignment, is_pow2, align_up, align_down}
use coreinit_nx.Handles.Laws.{AllHosts}
use coreinit_nx.ExpHeap.{
  HostExpHeap, fresh, refused, alloc, alloc_sized, choose, take_free, place, carve, carve_bottom,
  carve_top, splice, fit_in_free, free, mark_free, coalesce, coalesce_from, merge, allocatable,
}
use coreinit_nx.ExpHeap.Carve.{allocations}
use coreinit_nx.ExpHeap.Free.{remove}
use coreinit_nx.ExpHeap.Heap.{IsHeap, alloc-IsHeap}
use coreinit_nx.ExpHeap.Refine.{Grants, request, free_refines, alloc_refines}
use coreinit_nx.ExpHeap.Sizes.{allocatable_exact}
use coreinit_nx.ExpHeap.Api.{create}
use coreinit_nx.ExpHeap.Reach.{
  Call, creates, destroys, allocs, frees, run, IsGood, create_lem, run-IsGood,
}

-- A new heap, and the same with 100 bytes at its near end and 60 at its far end.
abbrev new_heap : HostExpHeap
new_heap = (create 0x1000 0x1000 1 fresh).0

abbrev one_held : HostExpHeap
one_held = (alloc new_heap 100 (pos 8)).heap

abbrev two_held : HostExpHeap
two_held = (alloc one_held 60 (negsuc 31)).heap

new_heap-IsHeap : IsHeap new_heap
new_heap-IsHeap = (create_lem 0x1000 0x1000 1 fresh (omega arith) (omega arith) (omega arith)).0

one_held-IsHeap : IsHeap one_held
one_held-IsHeap = alloc-IsHeap new_heap 100 (pos 8) new_heap-IsHeap (omega arith)

two_held-IsHeap : IsHeap two_held
two_held-IsHeap = alloc-IsHeap one_held 60 (negsuc 31) one_held-IsHeap (omega arith)

free_refines_example :
    allocations (free two_held (alloc new_heap 100 (pos 8)).pointer).blocks
    ≡ remove (alloc new_heap 100 (pos 8)).pointer (allocations two_held.blocks)
free_refines_example = free_refines two_held (alloc new_heap 100 (pos 8)).pointer two_held-IsHeap

alloc_refines_example :
    (alloc one_held 60 (negsuc 31) ≡ refused one_held)
    ⊎ Grants one_held
        (normalise_alignment (negsuc 31)).1
        (request 60)
        (alloc one_held 60 (negsuc 31))
alloc_refines_example = alloc_refines one_held 60 (negsuc 31) one_held-IsHeap (omega arith)

allocatable_exact_example :
    ((allocatable two_held (pos 16) < request 0x800)
      × (alloc two_held 0x800 (pos 16) ≡ refused two_held))
    ⊎ ((request 0x800 ≤ allocatable two_held (pos 16))
        × ((alloc two_held 0x800 (pos 16)).pointer ≢ 0))
allocatable_exact_example = allocatable_exact two_held 0x800 (pos 16) two_held-IsHeap (omega arith)

-- The far end is granted a multiple of 32 that leaves 84 bytes behind it.
two_held_pointer : (alloc one_held 60 (negsuc 31)).pointer ≡ 8128
unfolding alloc alloc_sized choose take_free place carve carve_bottom carve_top splice fit_in_free
    create normalise_alignment is_pow2 align_up align_down
two_held_pointer = refl

-- A heap with no block of 5000 bytes refuses them.
refused_pointer : (alloc two_held 5000 (pos 4)).pointer ≡ 0
unfolding alloc alloc_sized choose take_free place carve carve_bottom carve_top splice fit_in_free
    create normalise_alignment is_pow2 align_up align_down
refused_pointer = refl

-- Freeing both payloads leaves one free block.
freed_blocks : (free (free two_held 4200) 8128).blocks ≡ new_heap.blocks
unfolding alloc alloc_sized choose take_free place carve carve_bottom carve_top splice fit_in_free
    create free mark_free coalesce coalesce_from merge normalise_alignment is_pow2 align_up
    align_down
freed_blocks = refl

abbrev calls : List Call
calls =
    creates 0x1000 0x1000 1
    ∷ allocs 0x1000 100 (pos 8)
    ∷ allocs 0x1000 60 (negsuc 31)
    ∷ frees 0x1000 0x1068
    ∷ destroys 0x1000
    ∷ []

run-IsGood_example : AllHosts IsGood (run [] calls)
run-IsGood_example =
    run-IsGood calls []
      (
        (omega arith, omega arith),
        ((omega arith, omega arith), ((omega arith, omega arith), (tt, (tt, tt)))),
      )
      tt
