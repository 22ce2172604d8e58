-- ===== src/ExpHeap/Refine.antt =====
-- The abstract heap: the list of payloads that the guest holds, in address order. An allocation
-- inserts a payload that meets no other, and a free removes it.
use coreinit_nx.Base.{
  ℕ, suc, zero, ◌+◌, ◌^◌, ◌≤◌, ◌<◌, ◌≡◌, refl, sym, ap, ◌∙◌, ◌⊎◌, inl, inr, false, List, [], ◌∷◌,
  ◌++◌, some, arith, All, get_elem?, ltb, ◌==◌, if◌then◌else◌, Bool-cases,
}
use coreinit_nx.Base.Int.{ℤ, nat_abs}
use coreinit_nx.Align.{normalise_alignment}
use coreinit_nx.Align.Laws.{IsAligned, normalise_alignment-IsAlignment}
use coreinit_nx.ExpHeap.{Block, HostExpHeap, Carved, Allocated, refused, splice, place, alloc, free}
use coreinit_nx.ExpHeap.Blocks.{Tiles, Tiles-get, HoldsPayload, IsSound}
use coreinit_nx.ExpHeap.Carve.{IsCarved, allocations}
use coreinit_nx.ExpHeap.Heap.{IsHeap, none_fits, carved, alloc_sized-Outcome, free-cases}
use coreinit_nx.ExpHeap.Free.{remove, mark_free-allocations, mark_free-none, coalesce-allocations}

-- A new payload takes its place by address.
abbrev pub insert : ℕ → ℕ → List (ℕ × ℕ) → List (ℕ × ℕ)
insert p n [] = (p, n) ∷ []
insert p n ((q, m) ∷ r) = if ltb q p then (q, m) ∷ insert p n r else (p, n) ∷ (q, m) ∷ r

-- A range that meets none of the payloads.
abbrev pub IsApart : ℕ → ℕ → ℕ × ℕ → Type 0
IsApart p n (q, m) = (p + n ≤ q) ⊎ (q + m ≤ p)

allocations-append :
    (xs ys : List Block) → allocations (xs ++ ys) ≡ allocations xs ++ allocations ys
allocations-append [] ys = refl
allocations-append (x ∷ xs) ys = ground (arith, allocations-append xs ys)

-- Every payload in a range lies behind the start of the range.
insert_front :
    (p n s e : ℕ) (bs : List Block)
    → Tiles s bs e
    → All IsSound bs
    → p < s
    → insert p n (allocations bs) ≡ (p, n) ∷ allocations bs
insert_front p n s e [] t w lt = refl
insert_front p n s e (b ∷ r) t w lt = elim (Bool-cases b.used) [
  | inl u ↦ let holds : HoldsPayload b = w.0 u in rw u (ground (arith, holds.behind_header))
  | inr u ↦ rw u (insert_front p n (s + b.size) e r t.2 w.1 (omega arith))
]

allocations-splice :
    (p n s e i : ℕ) (bs new : List Block) {b : Block}
    → Tiles s bs e
    → All IsSound bs
    → get_elem? bs i ≡ some b
    → b.used ≡ false
    → b.start ≤ p
    → p < b.start + b.size
    → allocations new ≡ (p, n) ∷ []
    → allocations (splice i new bs) ≡ insert p n (allocations bs)
unfolding splice
allocations-splice p n s e i [] new t w g u lo hi a = absurd (cc)
allocations-splice p n s e zero (x ∷ r) new {b} t w g u lo hi a =
    let same : x ≡ b = cc in
    let unused : x.used ≡ false = ap (λ (c : Block). c.used) same ∙ u in
    let behind : p < s + x.size =
      omega (arith, ap (λ (c : Block). c.start) same, ap (λ (c : Block). c.size) same, t.0) in
    rw (allocations-append new r, a, unused, insert_front p n (s + x.size) e r t.2 w.1 behind)
allocations-splice p n s e (suc i) (x ∷ r) new {b} t w g u lo hi a =
    let ih = allocations-splice p n (s + x.size) e i r new t.2 w.1 g u lo hi a in
    let at = Tiles-get (s + x.size) e i r t.2 g in
    elim (Bool-cases x.used) [
      | inl v ↦
          let holds : HoldsPayload x = w.0 v in rw v (ground (arith, holds.inside, holds.not_empty))
      | inr v ↦ rw v ih
    ]

behind-IsApart :
    (p n s e : ℕ) (bs : List Block)
    → Tiles s bs e
    → All IsSound bs
    → p + n ≤ s
    → All (IsApart p n) (allocations bs)
behind-IsApart p n s e [] t w le = tt
behind-IsApart p n s e (b ∷ r) t w le = elim (Bool-cases b.used) [
  | inl u ↦
      let holds : HoldsPayload b = w.0 u in
      rw u (
        inl (omega (arith, holds.behind_header)),
        behind-IsApart p n (s + b.size) e r t.2 w.1 (omega arith),
      )
  | inr u ↦ rw u (behind-IsApart p n (s + b.size) e r t.2 w.1 (omega arith))
]

-- A range inside a free block meets no payload.
free-IsApart :
    (p n s e i : ℕ) (bs : List Block) {b : Block}
    → Tiles s bs e
    → All IsSound bs
    → get_elem? bs i ≡ some b
    → b.used ≡ false
    → b.start ≤ p
    → p + n ≤ b.start + b.size
    → All (IsApart p n) (allocations bs)
free-IsApart p n s e i [] t w g u lo hi = absurd (cc)
free-IsApart p n s e zero (x ∷ r) {b} t w g u lo hi =
    let same : x ≡ b = cc in
    let unused : x.used ≡ false = ap (λ (c : Block). c.used) same ∙ u in
    let behind : p + n ≤ s + x.size =
      omega (arith, ap (λ (c : Block). c.start) same, ap (λ (c : Block). c.size) same, t.0) in
    rw unused (behind-IsApart p n (s + x.size) e r t.2 w.1 behind)
free-IsApart p n s e (suc i) (x ∷ r) {b} t w g u lo hi =
    let ih = free-IsApart p n (s + x.size) e i r t.2 w.1 g u lo hi in
    let at = Tiles-get (s + x.size) e i r t.2 g in
    elim (Bool-cases x.used) [
      | inl v ↦
          let holds : HoldsPayload x = w.0 v in rw v (inr (omega (arith, holds.inside, at)), ih)
      | inr v ↦ rw v ih
    ]

remove-zero : (bs : List Block) → All IsSound bs → remove 0 (allocations bs) ≡ allocations bs
remove-zero [] w = refl
remove-zero (b ∷ r) w = elim (Bool-cases b.used) [
  | inl u ↦
      let holds : HoldsPayload b = w.0 u in
      rw u (ground (arith, holds.behind_header, remove-zero r w.1))
  | inr u ↦ rw u (remove-zero r w.1)
]

-- On a sound heap `MEMFreeToExpHeap` removes the payload at the pointer from the payloads that the
-- guest holds, and no other; at null or an unknown pointer it removes none.
pub free_refines :
    (h : HostExpHeap) (p : ℕ)
    → IsHeap h
    → allocations (free h p).blocks ≡ remove p (allocations h.blocks)
free_refines h p v = elim (free-cases h p) [
  | inl (same, inl z) ↦ rw (same, z) (sym (remove-zero h.blocks v.sound))
  | inl (same, inr e) ↦ rw same (sym (mark_free-none p h.blocks e))
  | inr (ds, _, m, same) ↦ rw same (coalesce-allocations ds ∙ mark_free-allocations p h.blocks ds m)
]

-- The bytes that a request asks for.
abbrev pub request : ℕ → ℕ
request size = if size == 0 then 1 else size

-- An allocation is granted a range that is aligned, inside the region and apart from every payload
-- held, and the payloads held gain it and no other.
pub record Grants (h : HostExpHeap) (a size : ℕ) (r : Allocated) : Type 0 where
  pub aligned : IsAligned a r.pointer
  pub above : h.data_start < r.pointer
  pub below : r.pointer + size ≤ h.data_end
  pub apart : All (IsApart r.pointer size) (allocations h.blocks)
  pub gains : allocations r.heap.blocks ≡ insert r.pointer size (allocations h.blocks)

place-Grants :
    (h : HostExpHeap) (a size i : ℕ) (b : Block) (c : Carved)
    → IsHeap h
    → 0 < size
    → get_elem? h.blocks i ≡ some b
    → b.used ≡ false
    → IsCarved b a size c
    → Grants h a size (place h size i (some c))
unfolding place
place-Grants h a size i b c v pos g u w =
    let at = Tiles-get h.data_start h.data_end i h.blocks v.tiles g in
    record {
      aligned = w.aligned;
      above = omega (arith, w.behind_header);
      below = omega (arith, w.inside);
      apart =
          free-IsApart c.at size h.data_start h.data_end i h.blocks v.tiles v.sound g u
            (omega (arith, w.behind_header)) w.inside;
      gains =
          allocations-splice c.at size h.data_start h.data_end i h.blocks c.replacement v.tiles
            v.sound g u (omega (arith, w.behind_header)) (omega (arith, w.inside)) w.allocated;
    }

-- On a sound heap, with an alignment of 32 bits, `MEMAllocFromExpHeapEx` either refuses, with the
-- heap left as it was, or grants a payload of the bytes asked for at the alignment asked for.
pub alloc_refines :
    (h : HostExpHeap) (size : ℕ) (alignment : ℤ)
    → IsHeap h
    → nat_abs alignment ≤ 2 ^ 31
    → (alloc h size alignment ≡ refused h)
      ⊎ Grants h (normalise_alignment alignment).1 (request size) (alloc h size alignment)
unfolding alloc
alloc_refines h size alignment v r =
    let w = normalise_alignment-IsAlignment alignment r in
    elim (alloc_sized-Outcome h (request size) (normalise_alignment alignment).0 _ v w
      (ground arith)) [
        | none_fits _ same ↦ inl same
        | carved i b c g f isc same ↦
            inr (
              rw same (place-Grants h _ (request size) i b c v (ground arith) g (ground arith) isc))
      ]
