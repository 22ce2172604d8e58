-- ===== src/FrmHeap/Tests.antt =====
-- The frame heap on a region of 4 KB at 0x1000: runs of the code, and its theorems at them.
use coreinit_nx.Base.{◌≤◌, ◌<◌, ◌≡◌, ◌⊎◌, inl, refl, [], ◌∷◌, arith}
use coreinit_nx.Base.Int.{pos, negsuc}
use coreinit_nx.Align.{normalise_alignment, is_pow2, align_up, align_down}
use coreinit_nx.FrmHeap.{
  HostFrmHeap, fresh, create, alloc, alloc_sized, alloc_tail, alloc_head, granted, free_by_state,
  record_state, adjust, allocatable, request,
}
use coreinit_nx.FrmHeap.Bounds.{IsBounded, Grants, alloc_exact, alloc-IsBounded}
use coreinit_nx.FrmHeap.States.{alloc_all, free_by_state_restores, adjust_then_free_by_state}
use coreinit_nx.FrmHeap.Api.{create-IsBounded}

-- A new heap, and the same with 100 bytes at its near end.
abbrev new_heap : HostFrmHeap
new_heap = (create 0x1000 0x1000 0 fresh).0

abbrev one_held : HostFrmHeap
one_held = (alloc new_heap 100 (pos 8)).heap

new_heap-IsBounded : IsBounded new_heap
new_heap-IsBounded =
    (create-IsBounded 0x1000 0x1000 0 fresh (omega arith) (omega arith) (omega arith)).0

one_held-IsBounded : IsBounded one_held
one_held-IsBounded =
    alloc-IsBounded new_heap 100 (pos 8) new_heap-IsBounded (omega arith) (omega arith)

alloc_exact_example :
    ((allocatable one_held (negsuc 63) < request 60)
      × ((alloc one_held 60 (negsuc 63)).heap ≡ one_held)
      × ((alloc one_held 60 (negsuc 63)).pointer ≡ 0))
    ⊎ ((request 60 ≤ allocatable one_held (negsuc 63))
        × Grants one_held
            (normalise_alignment (negsuc 63)).1
            (request 60)
            (alloc one_held 60 (negsuc 63)).heap
            (alloc one_held 60 (negsuc 63)).pointer)
alloc_exact_example =
    alloc_exact one_held 60 (negsuc 63) one_held-IsBounded.heap (omega arith) (omega arith)

free_by_state_restores_example :
    free_by_state (alloc_all (record_state one_held 7) ((60, pos 4) ∷ (16, negsuc 15) ∷ [])) 7
    ≡ (one_held, 1)
free_by_state_restores_example =
    free_by_state_restores one_held 7 ((60, pos 4) ∷ (16, negsuc 15) ∷ []) 7 one_held-IsBounded
      ((omega arith, omega arith), ((omega arith, omega arith), tt)) (inl refl)

one_held_tops : (one_held.head ≡ 4276) × (one_held.tail ≡ 8192)
unfolding alloc alloc_sized alloc_tail alloc_head granted create normalise_alignment is_pow2
    align_up align_down
one_held_tops = (refl, refl)

adjust_then_free_by_state_example :
    (adjust (record_state one_held 7) 0x1000).0.data_end
    < (free_by_state (adjust (record_state one_held 7) 0x1000).0 7).0.tail
unfolding alloc alloc_sized alloc_tail alloc_head granted create normalise_alignment is_pow2
    align_up align_down
adjust_then_free_by_state_example = adjust_then_free_by_state one_held 0x1000 7 refl (omega arith)
