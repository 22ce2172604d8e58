-- ===== src/ExpHeap/Heap.antt =====
-- A live expanded heap: its invariant, and what an allocation and a free do to it.
use coreinit_nx.Base.{
  ℕ, ◌+◌, ◌^◌, ◌≤◌, ◌<◌, ◌≡◌, ◌≢◌, ap, ◌⊎◌, inl, inr, Bool, true, false, List, none, some, arith,
  All, get_elem?, ◌==◌, ==_iff, if◌then◌else◌, Bool-cases, Option-cases,
}
use coreinit_nx.Base.Int.{ℤ, nat_abs}
use coreinit_nx.Align.{normalise_alignment}
use coreinit_nx.Align.Laws.{IsAlignment, normalise_alignment-IsAlignment}
use coreinit_nx.ExpHeap.{
  Block, HostExpHeap, Carved, Allocated, refused, fits, choose, place, take_free, alloc_sized,
  alloc, mark_free, coalesce, free,
}
use coreinit_nx.ExpHeap.Blocks.{
  Tiles, IsSound, Separated, Tiles-get, Tiles-splice, All-splice, Separated-splice,
}
use coreinit_nx.ExpHeap.Carve.{IsPlaced, IsCarved, carve_lem}
use coreinit_nx.ExpHeap.Choose.{choose-fits, choose-none}
use coreinit_nx.ExpHeap.Free.{
  coalesce-Tiles, coalesce-IsSound, coalesce-Separated, mark_free-Tiles, mark_free-IsSound,
}

-- The blocks tile a region of less than 4 GiB in the lower half of the address space, used blocks
-- hold their payloads, and no two free blocks are neighbours.
pub record IsHeap (h : HostExpHeap) : Type 0 where
  pub low : h.data_end ≤ 2 ^ 63
  pub small : h.data_end < h.data_start + 2 ^ 32
  pub tiles : Tiles h.data_start h.blocks h.data_end
  pub sound : All IsSound h.blocks
  pub separated : Separated false h.blocks

IsHeap-IsPlaced :
    (h : HostExpHeap) (i : ℕ) {b : Block} → IsHeap h → get_elem? h.blocks i ≡ some b → IsPlaced b
IsHeap-IsPlaced h i v g =
    let at = Tiles-get h.data_start h.data_end i h.blocks v.tiles g in
    omega (arith, v.low, v.small, at)

-- How an allocation ends: refused, with the request fitting in no free block, or with one free
-- block that has room carved up.
pub data Outcome (h : HostExpHeap) (a size : ℕ) (r : Allocated) : Type 0 where
  none_fits : All (λ b. fits a size b ≡ false) h.blocks → r ≡ refused h → Outcome h a size r
  carved :
      (i : ℕ) (b : Block) (c : Carved)
      → get_elem? h.blocks i ≡ some b
      → fits a size b ≡ true
      → IsCarved b a size c
      → r ≡ place h size i (some c)
      → Outcome h a size r

pub alloc_sized-Outcome :
    (h : HostExpHeap) (size : ℕ) (bottom : Bool) (a : ℕ)
    → IsHeap h
    → IsAlignment a
    → 0 < size
    → Outcome h a size (alloc_sized h size bottom a)
unfolding alloc_sized
alloc_sized-Outcome h size bottom a v w pos =
    elim (Option-cases (choose h.mode a size h.blocks 0 none)) [
      | inl e ↦ none_fits (choose-none h.mode a size h.blocks 0 e) (rw (e, alloc_sized))
      | inr ((i, s), e) ↦
          let (b, g, f, _) = choose-fits h.mode a size h.blocks e in
          let (c, made, isc) =
            carve_lem bottom a size b w (IsHeap-IsPlaced h i v g) pos (ground arith) in
          carved i b c g f isc (rw (e, alloc_sized) (rw (g, take_free) (ap (place h size i) made)))
    ]

pub free-cases :
    (h : HostExpHeap) (p : ℕ)
    → ((free h p ≡ h) × ((p ≡ 0) ⊎ (mark_free p h.blocks ≡ none)))
      ⊎ ((ds : List Block) × (p ≢ 0)
          × (mark_free p h.blocks ≡ some ds)
          × (free h p ≡ record h { blocks = coalesce ds }))
unfolding free
free-cases h p = elim (Bool-cases (p == 0)) [
  | inl z ↦ inl (rw z, inl ((==_iff p 0).0 z))
  | inr nz ↦ elim (Option-cases (mark_free p h.blocks)) [
    | inl e ↦ inl (rw nz (rw (e, free)), inr e)
    | inr (ds, e) ↦ inr (ds, ground arith, e, rw nz (rw (e, free)))
  ]
]

-- A free keeps the invariant, whatever pointer it is given.
pub free-IsHeap : (h : HostExpHeap) (p : ℕ) → IsHeap h → IsHeap (free h p)
free-IsHeap h p v = elim (free-cases h p) [
  | inl (same, _) ↦ rw same v
  | inr (ds, _, m, same) ↦ rw same (record {
    low = v.low;
    small = v.small;
    tiles =
        coalesce-Tiles h.data_start h.data_end ds v.small
          (mark_free-Tiles p h.data_start h.data_end h.blocks ds v.tiles m);
    sound = coalesce-IsSound ds (mark_free-IsSound p h.blocks ds v.sound m);
    separated = coalesce-Separated ds;
  })
]

place-IsHeap :
    (h : HostExpHeap) (a size i : ℕ) (b : Block) (c : Carved)
    → IsHeap h
    → get_elem? h.blocks i ≡ some b
    → b.used ≡ false
    → IsCarved b a size c
    → IsHeap (place h size i (some c)).heap
unfolding place
place-IsHeap h a size i b c v g u w = record {
  low = v.low;
  small = v.small;
  tiles = Tiles-splice h.data_start h.data_end i h.blocks c.replacement v.tiles g w.tiles;
  sound = All-splice IsSound i h.blocks c.replacement v.sound w.sound;
  separated = Separated-splice false i h.blocks c.replacement v.separated g u w.fills;
}

alloc_sized-IsHeap :
    (h : HostExpHeap) (size : ℕ) (bottom : Bool) (a : ℕ)
    → IsHeap h
    → IsAlignment a
    → 0 < size
    → IsHeap (alloc_sized h size bottom a).heap
alloc_sized-IsHeap h size bottom a v w pos = elim (alloc_sized-Outcome h size bottom a v w pos) [
  | none_fits _ same ↦ rw same v
  | carved i b c g f isc same ↦ rw same (place-IsHeap h a size i b c v g (ground arith) isc)
]

-- An allocation keeps the invariant, for every size and every 32-bit alignment, whether it is
-- granted or refused.
pub alloc-IsHeap :
    (h : HostExpHeap) (size : ℕ) (alignment : ℤ)
    → IsHeap h
    → nat_abs alignment ≤ 2 ^ 31
    → IsHeap (alloc h size alignment).heap
unfolding alloc
alloc-IsHeap h size alignment v r =
    alloc_sized-IsHeap h (if size == 0 then 1 else size) (normalise_alignment alignment).0
      (normalise_alignment alignment).1 v (normalise_alignment-IsAlignment alignment r)
      (ground arith)
