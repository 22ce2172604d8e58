-- ===== src/ExpHeap/Sizes.antt =====
-- The two size queries: the allocatable size is exactly what the next allocation can be granted,
-- and the total free size accounts for every byte that is not in a used block.
use coreinit_nx.Base.{
  ℕ, suc, zero, ◌+◌, ◌%◌, ◌^◌, ◌≤◌, ◌<◌, ◌≡◌, ◌≢◌, ap, ◌⊎◌, inl, inr, true, false, List, [], ◌∷◌,
  ◌++◌, some, arith, All, get_elem?, Bool-cases,
}
use coreinit_nx.Base.Int.{ℤ, nat_abs}
use coreinit_nx.Align.{normalise_alignment}
use coreinit_nx.Align.Laws.{normalise_alignment-IsAlignment}
use coreinit_nx.ExpHeap.{
  Block, HostExpHeap, refused, fits, fit_in_free, best_fit, allocatable, total_free, alloc, place,
  Carved, Allocated, splice, block_header,
}
use coreinit_nx.ExpHeap.Blocks.{Tiles}
use coreinit_nx.ExpHeap.Carve.{IsCarved, free_bytes, used_bytes}
use coreinit_nx.ExpHeap.Heap.{IsHeap, alloc-IsHeap, none_fits, carved, alloc_sized-Outcome}
use coreinit_nx.ExpHeap.Refine.{request}

best_fit-ge : (a : ℕ) (bs : List Block) (best : ℕ) → best ≤ best_fit a bs best
unfolding best_fit
best_fit-ge a [] best = omega arith
best_fit-ge a (b ∷ r) best = ground (arith, best_fit-ge a r best, best_fit-ge a r (fit_in_free b a))

best_fit-fits :
    (a size : ℕ) (bs : List Block) (best i : ℕ) {b : Block}
    → get_elem? bs i ≡ some b
    → fits a size b ≡ true
    → size ≤ best_fit a bs best
unfolding best_fit
best_fit-fits a size [] best i g f = absurd (cc)
best_fit-fits a size (x ∷ r) best zero g f =
    ground (arith, best_fit-ge a r best, best_fit-ge a r (fit_in_free x a))
best_fit-fits a size (x ∷ r) best (suc i) g f = best_fit-fits a size r _ i g f

best_fit_none :
    (a size : ℕ) (bs : List Block) (best : ℕ)
    → All (λ b. fits a size b ≡ false) bs
    → best < size
    → best_fit a bs best < size
unfolding best_fit
best_fit_none a size [] best w lt = lt
best_fit_none a size (b ∷ r) best w lt = best_fit_none a size r _ w.1 (ground (arith, w.0))

place-pointer :
    (h : HostExpHeap) (a size i : ℕ) (b : Block) (c : Carved)
    → IsCarved b a size c
    → (place h size i (some c)).pointer ≢ 0
unfolding place
place-pointer h a size i b c w e = omega (arith, w.behind_header)

-- On a sound heap, with an alignment of 32 bits, `MEMGetAllocatableSizeForExpHeapEx` is exact, at
-- both ends of the region: a request is refused just when it asks for more than that size, and
-- then the heap is as it was.
pub allocatable_exact :
    (h : HostExpHeap) (size : ℕ) (alignment : ℤ)
    → IsHeap h
    → nat_abs alignment ≤ 2 ^ 31
    → ((allocatable h alignment < request size) × (alloc h size alignment ≡ refused h))
      ⊎ ((request size ≤ allocatable h alignment) × ((alloc h size alignment).pointer ≢ 0))
unfolding alloc allocatable
allocatable_exact h size alignment v r =
    let w = normalise_alignment-IsAlignment alignment r in
    elim (alloc_sized-Outcome h (request size) (normalise_alignment alignment).0 _ v w
      (ground arith)) [
        | none_fits unfit same ↦
            inl (best_fit_none _ (request size) h.blocks 0 unfit (ground arith), same)
        | carved i b c g f isc same ↦ inr (
          best_fit-fits _ (request size) h.blocks 0 i g f,
          rw same (place-pointer h _ (request size) i b c isc),
        )
      ]

total_free-free_bytes :
    (bs : List Block) (total : ℕ)
    → total + free_bytes bs < 2 ^ 32
    → total_free bs total ≡ total + free_bytes bs
unfolding total_free
total_free-free_bytes [] total h = omega arith
total_free-free_bytes (b ∷ r) total h = elim (Bool-cases b.used) [
  | inl u ↦ rw u (omega (arith, total_free-free_bytes r total (ground arith)))
  | inr u ↦
      let small : total + b.size + free_bytes r < 2 ^ 32 = ground arith in
      let exact : (total + b.size) % 2 ^ 32 ≡ total + b.size = omega arith in
      rw (u, exact) (omega (arith, total_free-free_bytes r (total + b.size) small))
]

Tiles-bytes : (s e : ℕ) (bs : List Block) → Tiles s bs e → s + free_bytes bs + used_bytes bs ≡ e
Tiles-bytes s e [] t = omega arith
Tiles-bytes s e (b ∷ r) t = ground (arith, Tiles-bytes (s + b.size) e r t.2)

IsHeap-total_free : (h : HostExpHeap) → IsHeap h → total_free h.blocks 0 ≡ free_bytes h.blocks
IsHeap-total_free h v =
    let all = Tiles-bytes h.data_start h.data_end h.blocks v.tiles in
    omega (arith, total_free-free_bytes h.blocks 0 (omega (arith, all, v.small)))

-- On a sound heap `MEMGetTotalFreeSizeForExpHeap` makes up the region with the bytes in used
-- blocks, so that its 32-bit sum does not overflow.
pub total_free_accounts :
    (h : HostExpHeap)
    → IsHeap h
    → h.data_start + total_free h.blocks 0 + used_bytes h.blocks ≡ h.data_end
total_free_accounts h v =
    omega (arith, Tiles-bytes h.data_start h.data_end h.blocks v.tiles, IsHeap-total_free h v)

free_bytes-append : (xs ys : List Block) → free_bytes (xs ++ ys) ≡ free_bytes xs + free_bytes ys
free_bytes-append [] ys = omega arith
free_bytes-append (x ∷ xs) ys = omega (arith, free_bytes-append xs ys)

free_bytes-splice :
    (i : ℕ) (bs new : List Block) {b : Block}
    → get_elem? bs i ≡ some b
    → b.used ≡ false
    → free_bytes (splice i new bs) + b.size ≡ free_bytes bs + free_bytes new
unfolding splice
free_bytes-splice i [] new g u = absurd (cc)
free_bytes-splice zero (x ∷ r) new {b} g u =
    let same : x ≡ b = cc in rw (same, u) (omega (arith, free_bytes-append new r))
free_bytes-splice (suc i) (x ∷ r) new g u = omega (arith, free_bytes-splice i r new g u)

-- On a sound heap, with an alignment of 32 bits, a granted allocation takes its bytes and a header
-- of 0x14 at least from the total free size.
pub alloc_charges :
    (h : HostExpHeap) (size : ℕ) (alignment : ℤ)
    → IsHeap h
    → nat_abs alignment ≤ 2 ^ 31
    → (alloc h size alignment).pointer ≢ 0
    → total_free (alloc h size alignment).heap.blocks 0 + request size + block_header
      ≤ total_free h.blocks 0
unfolding alloc place
alloc_charges h size alignment v r granted =
    let w = normalise_alignment-IsAlignment alignment r in
    let before = IsHeap-total_free h v in
    let after = IsHeap-total_free _ (alloc-IsHeap h size alignment v r) in
    elim (alloc_sized-Outcome h (request size) (normalise_alignment alignment).0 _ v w
      (ground arith)) [
        | none_fits unfit same ↦ absurd (granted (ap (λ (r : Allocated). r.pointer) same))
        | carved i b c g f isc same ↦
            let unused : b.used ≡ false = ground arith in
            rw same (
              omega (
                arith,
                (rw same at after),
                free_bytes-splice i h.blocks c.replacement g unused,
                isc.spent,
                before,
              ))
      ]
