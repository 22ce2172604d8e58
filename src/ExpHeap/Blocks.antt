-- ===== src/ExpHeap/Blocks.antt =====
-- The shape of a heap's block list: the blocks tile the region, a used block holds its payload
-- behind its header, and no two free blocks are neighbours. What `splice` does to each.
use coreinit_nx.Base.{
  ℕ, ◌+◌, ◌≤◌, ◌<◌, ◌≡◌, refl, sym, subst, ap, ◌∙◌, Bool, true, false, not, ◌&&◌, List, [], ◌∷◌,
  ◌++◌, some, suc, zero, get_elem?, All, All-append, arith,
}
use coreinit_nx.ExpHeap.{Block, splice, block_header}

-- The blocks lie one after the other from an address up to another, none of them empty.
abbrev pub Tiles : ℕ → List Block → ℕ → Type 0
Tiles s [] e = s ≡ e
Tiles s (b ∷ r) e = (b.start ≡ s) × (0 < b.size) × Tiles (s + b.size) r e

-- A used block holds its header and then its payload.
pub record HoldsPayload (b : Block) : Type 0 where
  pub behind_header : b.start + block_header ≤ b.payload
  pub inside : b.payload + b.payload_size ≤ b.start + b.size
  pub not_empty : 0 < b.payload_size

abbrev pub IsSound : Block → Type 0
IsSound b = b.used ≡ true → HoldsPayload b

-- No free block follows a free one; the flag says whether one stands in front of the list.
abbrev pub Separated : Bool → List Block → Type 0
Separated front_free [] = Unit
Separated front_free (b ∷ r) = ((front_free && not b.used) ≡ false) × Separated (not b.used) r

pub Tiles-le : (s e : ℕ) (bs : List Block) → Tiles s bs e → s ≤ e
Tiles-le s e [] t = omega arith
Tiles-le s e (b ∷ r) t = omega (arith, Tiles-le (s + b.size) e r t.2)

pub Tiles-append :
    (s m e : ℕ) (xs ys : List Block) → Tiles s xs m → Tiles m ys e → Tiles s (xs ++ ys) e
Tiles-append s m e [] ys h k = rw h k
Tiles-append s m e (x ∷ xs) ys h k = (h.0, h.1, Tiles-append (s + x.size) m e xs ys h.2 k)

-- A block lies in the region.
pub Tiles-get :
    (s e i : ℕ) (bs : List Block) {b : Block}
    → Tiles s bs e
    → get_elem? bs i ≡ some b
    → (s ≤ b.start) × (0 < b.size) × (b.start + b.size ≤ e)
Tiles-get s e i [] t g = absurd (cc g)
Tiles-get s e zero (x ∷ r) {b} t g = ground (arith, Tiles-le (s + x.size) e r t.2)
Tiles-get s e (suc i) (x ∷ r) {b} t g = omega (arith, Tiles-get (s + x.size) e i r t.2 g)

pub Tiles-splice :
    (s e i : ℕ) (bs new : List Block) {b : Block}
    → Tiles s bs e
    → get_elem? bs i ≡ some b
    → Tiles b.start new (b.start + b.size)
    → Tiles s (splice i new bs) e
unfolding splice
Tiles-splice s e i [] new t g k = absurd (cc g)
Tiles-splice s e zero (x ∷ r) new {b} t g k =
    let same : x ≡ b = cc in
    let k' : Tiles x.start new (x.start + x.size) =
      subst (λ (c : Block). Tiles c.start new (c.start + c.size)) (sym same) k in
    let k'' : Tiles s new (s + x.size) = subst (λ m. Tiles m new (m + x.size)) t.0 k' in
    Tiles-append s (s + x.size) e new r k'' t.2
Tiles-splice s e (suc i) (x ∷ r) new t g k = (t.0, t.1, Tiles-splice (s + x.size) e i r new t.2 g k)

pub All-splice :
    (P : Block → Type 0) (i : ℕ) (bs new : List Block)
    → All P bs
    → All P new
    → All P (splice i new bs)
unfolding splice
All-splice P i [] new h k = tt
All-splice P zero (x ∷ r) new h k = All-append P new r k h.1
All-splice P (suc i) (x ∷ r) new h k = (h.0, All-splice P i r new h.1 k)

pub All-get :
    (P : Block → Type 0) (i : ℕ) (bs : List Block) {b : Block}
    → All P bs
    → get_elem? bs i ≡ some b
    → P b
All-get P i [] h g = absurd (cc g)
All-get P zero (x ∷ r) {b} h g = let same : x ≡ b = cc in subst P same h.0
All-get P (suc i) (x ∷ r) h g = All-get P i r h.1 g

pub Separated-weaken : (f : Bool) (bs : List Block) → Separated f bs → Separated false bs
Separated-weaken f [] h = tt
Separated-weaken f (b ∷ r) h = (refl, h.1)

-- Blocks that may stand in the place of a free one: none that is free meets a free neighbour.
abbrev pub Fills : List Block → Type 0
Fills new = (r : List Block) → Separated true r → Separated false (new ++ r)

pub Separated-splice :
    (f : Bool) (i : ℕ) (bs new : List Block) {b : Block}
    → Separated f bs
    → get_elem? bs i ≡ some b
    → b.used ≡ false
    → Fills new
    → Separated f (splice i new bs)
unfolding splice
Separated-splice f i [] new h g u k = absurd (cc g)
Separated-splice f zero (x ∷ r) new {b} h g u k =
    let same : x ≡ b = cc in
    let unused : x.used ≡ false = ap (λ (c : Block). c.used) same ∙ u in
    let front : f ≡ false = ground (arith, unused) in
    let behind : Separated true r = subst (λ v. Separated (not v) r) unused h.1 in
    rw front (k r behind)
Separated-splice f (suc i) (x ∷ r) new h g u k =
    (h.0, Separated-splice (not x.used) i r new h.1 g u k)
