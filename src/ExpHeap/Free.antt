-- ===== src/ExpHeap/Free.antt =====
-- `coalesce` and the marking loop of `MEMFreeToExpHeap`: the blocks still tile the region, no two
-- free neighbours are left, and the payloads that the heap holds lose the freed one and no other.
use coreinit_nx.Base.{
  ℕ, ◌+◌, ◌%◌, ◌^◌, ◌≤◌, ◌<◌, ◌≡◌, refl, subst, ◌⊎◌, inl, inr, Bool, true, false, not, ◌&&◌, List,
  [], ◌∷◌, none, some, arith, All, ◌==◌, if◌then◌else◌, Bool-cases, Option-cases,
}
use coreinit_nx.ExpHeap.{Block, merge, coalesce_from, coalesce, mark_free}
use coreinit_nx.ExpHeap.Blocks.{Tiles, Tiles-le, IsSound, Separated}
use coreinit_nx.ExpHeap.Carve.{allocations}

coalesce_from_both :
    (b c : Block) (r : List Block)
    → (not b.used && not c.used) ≡ true
    → coalesce_from b (c ∷ r) ≡ coalesce_from (merge b c) r
unfolding coalesce_from
coalesce_from_both b c r h = ground arith

coalesce_from_one :
    (b c : Block) (r : List Block)
    → (not b.used && not c.used) ≡ false
    → coalesce_from b (c ∷ r) ≡ b ∷ coalesce_from c r
unfolding coalesce_from
coalesce_from_one b c r h = ground arith

coalesce_from-Tiles :
    (s e : ℕ) (b : Block) (r : List Block)
    → e < s + 2 ^ 32
    → Tiles s (b ∷ r) e
    → Tiles s (coalesce_from b r) e
unfolding merge coalesce_from
coalesce_from-Tiles s e b [] small t = t
coalesce_from-Tiles s e b (c ∷ r) small t = elim (Bool-cases (not b.used && not c.used)) [
  | inl both ↦
      let end : c.start + c.size ≤ e = omega (arith, Tiles-le _ e r t.2.2) in
      let size : (b.size + c.size) % 2 ^ 32 ≡ b.size + c.size = omega arith in
      let behind : Tiles (s + (b.size + c.size) % 2 ^ 32) r e =
        subst (λ m. Tiles m r e) (omega arith) t.2.2 in
      rw (coalesce_from_both b c r both)
        (coalesce_from-Tiles s e (merge b c) r small (t.0, omega arith, behind))
  | inr one ↦
      rw (coalesce_from_one b c r one)
        (t.0, t.1, coalesce_from-Tiles (s + b.size) e c r (omega arith) t.2)
]

coalesce_from-IsSound :
    (b : Block) (r : List Block) → IsSound b → All IsSound r → All IsSound (coalesce_from b r)
unfolding coalesce_from merge
coalesce_from-IsSound b [] h k = (h, tt)
coalesce_from-IsSound b (c ∷ r) h k = elim (Bool-cases (not b.used && not c.used)) [
  | inl both ↦
      rw (coalesce_from_both b c r both)
        (coalesce_from-IsSound (merge b c) r (λ u. absurd (ground arith)) k.1)
  | inr one ↦ rw (coalesce_from_one b c r one) (h, coalesce_from-IsSound c r k.0 k.1)
]

coalesce_from-Separated :
    (f : Bool) (b : Block) (r : List Block)
    → (f && not b.used) ≡ false
    → Separated f (coalesce_from b r)
unfolding coalesce_from merge
coalesce_from-Separated f b [] h = (h, tt)
coalesce_from-Separated f b (c ∷ r) h = elim (Bool-cases (not b.used && not c.used)) [
  | inl both ↦ rw (coalesce_from_both b c r both) (coalesce_from-Separated f (merge b c) r h)
  | inr one ↦ rw (coalesce_from_one b c r one) (h, coalesce_from-Separated (not b.used) c r one)
]

coalesce_from-allocations :
    (b : Block) (r : List Block) → allocations (coalesce_from b r) ≡ allocations (b ∷ r)
unfolding coalesce_from merge
coalesce_from-allocations b [] = refl
coalesce_from-allocations b (c ∷ r) =
    ground (arith, coalesce_from-allocations (merge b c) r, coalesce_from-allocations c r)

-- The removal of a payload from the payloads that a heap holds.
abbrev pub remove : ℕ → List (ℕ × ℕ) → List (ℕ × ℕ)
remove p [] = []
remove p ((q, n) ∷ r) = if q == p then r else (q, n) ∷ remove p r

-- The block that a free call finds, as it leaves it.
abbrev unused : Block → Block
unused b = record b { used = false; payload = 0; payload_size = 0 }

mark_free_nil : (p : ℕ) {ds : List Block} → mark_free p [] ≡ some ds → ⊥
unfolding mark_free
mark_free_nil p m = cc

-- The marking loop either stops at the first block or leaves it and goes on.
mark_free_cases :
    (p : ℕ) (b : Block) (r ds : List Block)
    → mark_free p (b ∷ r) ≡ some ds
    → ((b.used ≡ true) × (b.payload ≡ p) × (ds ≡ unused b ∷ r))
      ⊎ ((rest : List Block) × ((b.used && b.payload == p) ≡ false)
          × (mark_free p r ≡ some rest)
          × (ds ≡ b ∷ rest))
unfolding mark_free
mark_free_cases p b r ds m = elim (Bool-cases (b.used && b.payload == p)) [
  | inl here ↦ inl (ground arith, ground arith, ground arith)
  | inr there ↦ elim (Option-cases (mark_free p r)) [
    | inl e ↦ absurd (ground arith)
    | inr (rest, e) ↦ inr (rest, there, e, ground arith)
  ]
]

pub mark_free-Tiles :
    (p s e : ℕ) (bs ds : List Block) → Tiles s bs e → mark_free p bs ≡ some ds → Tiles s ds e
mark_free-Tiles p s e [] ds t m = absurd (mark_free_nil p m)
mark_free-Tiles p s e (b ∷ r) ds t m = elim (mark_free_cases p b r ds m) [
  | inl (u, q, same) ↦ rw same t
  | inr (rest, _, m', same) ↦ rw same (t.0, t.1, mark_free-Tiles p (s + b.size) e r rest t.2 m')
]

pub mark_free-IsSound :
    (p : ℕ) (bs ds : List Block) → All IsSound bs → mark_free p bs ≡ some ds → All IsSound ds
mark_free-IsSound p [] ds h m = absurd (mark_free_nil p m)
mark_free-IsSound p (b ∷ r) ds h m = elim (mark_free_cases p b r ds m) [
  | inl (u, q, same) ↦ rw same ((λ v. absurd (cc)), h.1)
  | inr (rest, _, m', same) ↦ rw same (h.0, mark_free-IsSound p r rest h.1 m')
]

pub mark_free-allocations :
    (p : ℕ) (bs ds : List Block)
    → mark_free p bs ≡ some ds
    → allocations ds ≡ remove p (allocations bs)
mark_free-allocations p [] ds m = absurd (mark_free_nil p m)
mark_free-allocations p (b ∷ r) ds m = elim (mark_free_cases p b r ds m) [
  | inl (u, q, same) ↦ rw (same, u) (ground arith)
  | inr (rest, miss, m', same) ↦ rw same (ground (arith, mark_free-allocations p r rest m'))
]

-- A pointer that no used block has is the payload of none.
pub mark_free-none :
    (p : ℕ) (bs : List Block) → mark_free p bs ≡ none → remove p (allocations bs) ≡ allocations bs
unfolding mark_free
mark_free-none p [] m = refl
mark_free-none p (b ∷ r) m = elim (Option-cases (mark_free p r)) [
  | inl e ↦ ground (arith, mark_free-none p r e)
  | inr (rest, e) ↦ absurd (ground arith)
]

pub coalesce-Tiles :
    (s e : ℕ) (bs : List Block) → e < s + 2 ^ 32 → Tiles s bs e → Tiles s (coalesce bs) e
unfolding coalesce
coalesce-Tiles s e [] small t = t
coalesce-Tiles s e (b ∷ r) small t = coalesce_from-Tiles s e b r small t

pub coalesce-IsSound : (bs : List Block) → All IsSound bs → All IsSound (coalesce bs)
unfolding coalesce
coalesce-IsSound [] h = tt
coalesce-IsSound (b ∷ r) h = coalesce_from-IsSound b r h.0 h.1

pub coalesce-Separated : (bs : List Block) → Separated false (coalesce bs)
unfolding coalesce
coalesce-Separated [] = tt
coalesce-Separated (b ∷ r) = coalesce_from-Separated false b r refl

pub coalesce-allocations : (bs : List Block) → allocations (coalesce bs) ≡ allocations bs
unfolding coalesce
coalesce-allocations [] = refl
coalesce-allocations (b ∷ r) = coalesce_from-allocations b r
