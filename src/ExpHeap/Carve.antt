-- ===== src/ExpHeap/Carve.antt =====
-- What an allocation makes of a free block in which the request fits: it succeeds in both
-- directions, and the blocks that replace the free one tile its range around the payload.
use coreinit_nx.Base.{
  ℕ, ◌+◌, ◌-◌, ◌^◌, ◌≤◌, ◌<◌, ◌≡◌, refl, Bool, true, false, List, [], ◌∷◌, some, arith, All, leb,
  leb→le, if◌then◌else◌, Bool-cases, inl, inr,
}
use coreinit_nx.Align.{align_up, align_down}
use coreinit_nx.Align.Laws.{
  IsAlignment, IsAligned, IsAlignment-bounds, align_up-least, align_down-greatest, aligned_gap,
}
use coreinit_nx.ExpHeap.{
  Block, Carved, fit_in_free, carve_bottom, carve_top, carve, free_block, used_block, block_header,
  from_top, from_bottom, sub64, add64,
}
use coreinit_nx.ExpHeap.Blocks.{Tiles, IsSound, Separated-weaken, Fills}

-- A block of at most 4 GiB in the lower half of the address space.
pub record IsPlaced (b : Block) : Type 0 where
  pub not_empty : 0 < b.size
  pub small : b.size < 2 ^ 32
  pub low : b.start + b.size ≤ 2 ^ 63

-- A request that fits in a free block leaves room for the header and an aligned payload.
pub fit_in_free-room :
    (b : Block) (a size : ℕ)
    → IsAlignment a
    → IsPlaced b
    → 0 < size
    → size ≤ fit_in_free b a
    → align_up (b.start + block_header) a + size ≤ b.start + b.size
unfolding fit_in_free
fit_in_free-room b a size w p pos h =
    let bounds = IsAlignment-bounds a w in
    let no_wrap : add64 b.start block_header ≡ b.start + block_header = omega arith in
    let up = align_up-least (b.start + block_header) a w (omega arith) in ground (arith, no_wrap)

-- The payloads that a block list holds, in address order: what the guest sees of the heap.
abbrev pub allocations : List Block → List (ℕ × ℕ)
allocations [] = []
allocations (b ∷ r) = if b.used then (b.payload, b.payload_size) ∷ allocations r else allocations r

-- The bytes in free blocks, and those in used blocks, header and padding included.
abbrev pub free_bytes : List Block → ℕ
free_bytes [] = 0
free_bytes (b ∷ r) = (if b.used then 0 else b.size) + free_bytes r

abbrev pub used_bytes : List Block → ℕ
used_bytes [] = 0
used_bytes (b ∷ r) = (if b.used then b.size else 0) + used_bytes r

-- The payload and the blocks, written without wrap-around.
abbrev top_blocks : Block → ℕ → ℕ → List Block
top_blocks b p size =
    if leb 24 (b.start + b.size - (p + size))
    then used_block b.start (p + size - b.start) p size from_top
      ∷ free_block (p + size) (b.start + b.size - (p + size))
      ∷ []
    else used_block b.start b.size p size from_top ∷ []

abbrev bottom_blocks : Block → ℕ → ℕ → List Block
bottom_blocks b p size =
    if leb 24 (p - 20 - b.start)
    then free_block b.start (p - 20 - b.start)
      ∷ used_block (p - 20) (b.start + b.size - (p - 20)) p size from_bottom
      ∷ []
    else used_block b.start b.size p size from_bottom ∷ []

carve_top_lem :
    (b : Block) (a size : ℕ)
    → IsPlaced b
    → b.start + block_header ≤ align_up (b.start + block_header) a
    → align_up (b.start + block_header) a + size ≤ b.start + b.size
    → carve_top a size b
      ≡ some (record {
        at = align_up (b.start + block_header) a;
        replacement = top_blocks b (align_up (b.start + block_header) a) size;
      })
unfolding carve_top
carve_top_lem b a size p lo hi =
    let no_wrap : add64 b.start block_header ≡ b.start + block_header = omega arith in
    ground (arith, no_wrap)

-- The payload of an allocation at the far end.
abbrev bottom_payload : Block → ℕ → ℕ → ℕ
bottom_payload b a size = align_down (b.start + b.size - size) a

carve_bottom_lem :
    (b : Block) (a size : ℕ)
    → IsPlaced b
    → size ≤ b.size
    → b.start + block_header ≤ bottom_payload b a size
    → bottom_payload b a size + size ≤ b.start + b.size
    → carve_bottom a size b
      ≡ some (record {
        at = bottom_payload b a size;
        replacement = bottom_blocks b (bottom_payload b a size) size;
      })
unfolding carve_bottom
carve_bottom_lem b a size p le lo hi =
    let no_wrap : sub64 (add64 b.start b.size) size ≡ b.start + b.size - size = omega arith in
    ground (arith, no_wrap)

-- The replacement of a free block by an allocation of a payload.
pub record IsCarved (b : Block) (a size : ℕ) (c : Carved) : Type 0 where
  pub aligned : IsAligned a c.at
  pub behind_header : b.start + block_header ≤ c.at
  pub inside : c.at + size ≤ b.start + b.size
  pub tiles : Tiles b.start c.replacement (b.start + b.size)
  pub sound : All IsSound c.replacement
  pub fills : Fills c.replacement
  pub allocated : allocations c.replacement ≡ (c.at, size) ∷ []
  pub spent : free_bytes c.replacement + size + block_header ≤ b.size

module _ (b : Block) (a size p : ℕ) where
  module _ (aligned : IsAligned a p) (placed : IsPlaced b) (pos : 0 < size)
      (lo : b.start + block_header ≤ p) (hi : p + size ≤ b.start + b.size) where
    top_IsCarved : IsCarved b a size (record { at = p; replacement = top_blocks b p size })
    top_IsCarved = elim (Bool-cases (leb 24 (b.start + b.size - (p + size)))) [
      | inl e ↦ record {
        aligned = aligned;
        behind_header = lo;
        inside = hi;
        tiles = rw e (ground (arith, leb→le _ _ e));
        sound = rw e ((λ _. omega arith), ((λ u. absurd (cc)), tt));
        fills = rw e (λ r h. (refl, (refl, h)));
        allocated = rw e;
        spent = rw e (omega arith);
      }
      | inr e ↦ record {
        aligned = aligned;
        behind_header = lo;
        inside = hi;
        tiles = rw e (ground arith);
        sound = rw e ((λ _. omega arith), tt);
        fills = rw e (λ r h. (refl, Separated-weaken true r h));
        allocated = rw e;
        spent = rw e (omega arith);
      }
    ]

    bottom_IsCarved : IsCarved b a size (record { at = p; replacement = bottom_blocks b p size })
    bottom_IsCarved = elim (Bool-cases (leb 24 (p - 20 - b.start))) [
      | inl e ↦ record {
        aligned = aligned;
        behind_header = lo;
        inside = hi;
        tiles = rw e (ground (arith, leb→le _ _ e));
        sound = rw e ((λ u. absurd (cc)), ((λ _. omega arith), tt));
        fills = rw e (λ r h. (refl, (refl, Separated-weaken true r h)));
        allocated = rw e;
        spent = rw e (omega arith);
      }
      | inr e ↦ record {
        aligned = aligned;
        behind_header = lo;
        inside = hi;
        tiles = rw e (ground arith);
        sound = rw e ((λ _. omega arith), tt);
        fills = rw e (λ r h. (refl, Separated-weaken true r h));
        allocated = rw e;
        spent = rw e (omega arith);
      }
    ]

-- In a free block in which a request fits, the allocation succeeds from both ends.
pub carve_lem :
    (bottom : Bool) (a size : ℕ) (b : Block)
    → IsAlignment a
    → IsPlaced b
    → 0 < size
    → size ≤ fit_in_free b a
    → (c : Carved) × (carve bottom a size b ≡ some c) × IsCarved b a size c
unfolding carve
carve_lem false a size b w p pos h =
    let bounds = IsAlignment-bounds a w in
    let up = align_up-least (b.start + block_header) a w (omega arith) in
    let room = fit_in_free-room b a size w p pos h in
    (_, carve_top_lem b a size p up.1 room, top_IsCarved b a size _ up.0 p pos up.1 room)
carve_lem true a size b w p pos h =
    let bounds = IsAlignment-bounds a w in
    let up = align_up-least (b.start + block_header) a w (omega arith) in
    let room = fit_in_free-room b a size w p pos h in
    let down = align_down-greatest (b.start + b.size - size) a w (omega arith) in
    let lo = aligned_gap a _ _ up.0 down.0 (omega arith) in
    (
      _,
      carve_bottom_lem b a size p (omega arith) (omega arith) (omega arith),
      bottom_IsCarved b a size _ down.0 p pos (omega arith) (omega arith),
    )
