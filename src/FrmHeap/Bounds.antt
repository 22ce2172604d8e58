-- ===== src/FrmHeap/Bounds.antt =====
-- The bounds of a frame heap, kept by every call but one, and what an allocation returns.
use coreinit_nx.Base.{
  ℕ, ◌+◌, ◌-◌, ◌^◌, ◌≤◌, ◌<◌, ◌≡◌, refl, ◌⊎◌, inl, inr, Bool, true, false, [], Option, none, some,
  All, ltb, if◌then◌else◌, Bool-cases, arith, lt→ltb, le→ltb,
}
use native.Mathlib.Decide.{dec_lt}
use coreinit_nx.Base.Int.{ℤ, nat_abs}
use coreinit_nx.Align.{align_up, align_down, normalise_alignment}
use coreinit_nx.Align.Laws.{
  IsAlignment, IsAligned, IsAlignment-bounds, align_up-least, align_down-greatest, aligned_gap,
  normalise_alignment-IsAlignment,
}
use coreinit_nx.FrmHeap.{
  State, HostFrmHeap, alloc_tail, alloc_head, alloc_sized, alloc, request, free, allocatable, add64,
  sub64,
}

-- A pair of stack tops that lies in the region.
abbrev pub InRegion : HostFrmHeap → State → Type 0
InRegion h s = (h.data_start ≤ s.head) × (s.head ≤ s.tail) × (s.tail ≤ h.data_end)

pub record IsHeap (h : HostFrmHeap) : Type 0 where
  pub low : h.data_end ≤ 2 ^ 63
  pub small : h.data_end < h.data_start + 2 ^ 32
  pub start_le_head : h.data_start ≤ h.head
  pub head_le_tail : h.head ≤ h.tail
  pub tail_le_end : h.tail ≤ h.data_end
  pub positive : 0 < h.data_start

-- What an allocation is granted: an aligned range between the tops of the two stacks, which the top
-- on its side moves across; nothing else of the heap changes.
pub record Grants (h : HostFrmHeap) (a size : ℕ) (h' : HostFrmHeap) (p : ℕ) : Type 0 where
  pub aligned : IsAligned a p
  pub above : h.head ≤ p
  pub below : p + size ≤ h.tail
  pub moved : (h' ≡ record h { head = p + size }) ⊎ (h' ≡ record h { tail = p })

-- How an allocation ends: refused if the aligned request does not fit between the tops, and
-- granted if it does.
pub data Outcome (h : HostFrmHeap) (a size : ℕ) (r : Option (HostFrmHeap × ℕ)) : Type 0 where
  full : h.tail < align_up h.head a + size → r ≡ none → Outcome h a size r
  fits :
      (h' : HostFrmHeap) (p : ℕ)
      → align_up h.head a + size ≤ h.tail
      → r ≡ some (h', p)
      → Grants h a size h' p
      → Outcome h a size r

module _ (h : HostFrmHeap) (size a : ℕ) where
  module _ (v : IsHeap h) (w : IsAlignment a) (pos : 0 < size) (small : size < 2 ^ 32) where
    alloc_head-Outcome : Outcome h a size (alloc_head h size a)
    unfolding alloc_head
    alloc_head-Outcome =
        let b = IsAlignment-bounds a w in
        let up = align_up-least h.head a w (omega (arith, v.low)) in
        let no_wrap : add64 (align_up h.head a) size ≡ align_up h.head a + size = omega arith in
        elim (Bool-cases (ltb h.tail (align_up h.head a + size))) [
          | inl lt ↦ full (ground arith) (rw no_wrap (ground arith))
          | inr le ↦
              fits (record h { head = align_up h.head a + size }) (align_up h.head a) (ground arith)
                (rw no_wrap (ground arith))
                (record { aligned = up.0; above = up.1; below = ground arith; moved = inl refl })
        ]

    alloc_tail_short : h.tail < size → alloc_tail h size a ≡ none
    unfolding alloc_tail
    alloc_tail_short lt =
        let b = IsAlignment-bounds a w in
        let down = align_down-greatest (sub64 h.tail size) a w (omega arith) in
        let far : h.tail < align_down (sub64 h.tail size) a = omega (arith, v.low) in
        ground (arith, far)

    alloc_tail_lem :
        size ≤ h.tail
        → alloc_tail h size a ≡ (
            if ltb (align_down (h.tail - size) a) h.head
            then none
            else some
                (record h { tail = align_down (h.tail - size) a }, align_down (h.tail - size) a))
    unfolding alloc_tail
    alloc_tail_lem le =
        let no_wrap : sub64 h.tail size ≡ h.tail - size = omega (arith, v.low) in
        let down = align_down-greatest (h.tail - size) a w (omega (arith, v.low)) in
        rw no_wrap (ground (arith, down.1))

    alloc_tail-Outcome : Outcome h a size (alloc_tail h size a)
    alloc_tail-Outcome =
        let b = IsAlignment-bounds a w in
        let up = align_up-least h.head a w (omega (arith, v.low)) in
        elim (dec_lt h.tail size) [
          | yes lt ↦ full (omega arith) (alloc_tail_short lt)
          | no ge ↦
              let le : size ≤ h.tail = omega arith in
              let down = align_down-greatest (h.tail - size) a w (omega (arith, v.low)) in
              elim (dec_lt (align_down (h.tail - size) a) h.head) [
                | yes out ↦
                    full (past_head up.0 up.1 down.0 down.2 out le)
                      (rw (alloc_tail_lem le, lt→ltb _ _ out))
                | no above ↦
                    let gap = aligned_gap a _ _ up.0 down.0 (omega arith) in
                    fits (record h { tail = align_down (h.tail - size) a })
                      (align_down (h.tail - size) a) (omega arith)
                      (rw (
                        alloc_tail_lem le,
                        le→ltb (align_down (h.tail - size) a) h.head (omega arith),
                      ))
                      (record {
                        aligned = down.0;
                        above = omega arith;
                        below = omega arith;
                        moved = inr refl;
                      })
              ]
        ]
      where
        past_head :
            IsAligned a (align_up h.head a)
            → h.head ≤ align_up h.head a
            → IsAligned a (align_down (h.tail - size) a)
            → h.tail - size < align_down (h.tail - size) a + a
            → align_down (h.tail - size) a < h.head
            → size ≤ h.tail
            → h.tail < align_up h.head a + size
        past_head p q r s out le = elim (dec_lt h.tail (align_up h.head a + size)) [
          | yes lt ↦ lt
          | no room ↦ absurd (omega (arith, aligned_gap a _ _ p r (omega arith)))
        ]

pub alloc_sized-Outcome :
    (h : HostFrmHeap) (size : ℕ) (from_tail : Bool) (a : ℕ)
    → IsHeap h
    → IsAlignment a
    → 0 < size
    → size < 2 ^ 32
    → Outcome h a size (alloc_sized h size from_tail a)
unfolding alloc_sized
alloc_sized-Outcome h size true a v w pos small = alloc_tail-Outcome h size a v w pos small
alloc_sized-Outcome h size false a v w pos small = alloc_head-Outcome h size a v w pos small

allocatable_lem :
    (h : HostFrmHeap) (alignment : ℤ)
    → IsHeap h
    → nat_abs alignment ≤ 2 ^ 31
    → allocatable h alignment ≡ h.tail - align_up h.head (normalise_alignment alignment).1
unfolding allocatable
allocatable_lem h alignment v r =
    let w = normalise_alignment-IsAlignment alignment r in
    let b = IsAlignment-bounds _ w in
    let up = align_up-least h.head _ w (omega (arith, v.low)) in ground (arith, up.1)

request-pos : (size : ℕ) → size < 2 ^ 32 → (0 < request size) × (request size < 2 ^ 32)
request-pos size h = ground arith

-- On a heap in bounds, with arguments of their C types, `MEMAllocFromFrmHeapEx` at either end
-- refuses a request, with the heap left as it was, just when it asks for more than the allocatable
-- size, and otherwise grants an aligned range between the tops.
pub alloc_exact :
    (h : HostFrmHeap) (size : ℕ) (alignment : ℤ)
    → IsHeap h
    → size < 2 ^ 32
    → nat_abs alignment ≤ 2 ^ 31
    → ((allocatable h alignment < request size)
        × ((alloc h size alignment).heap ≡ h)
        × ((alloc h size alignment).pointer ≡ 0))
      ⊎ ((request size ≤ allocatable h alignment)
          × Grants h
              (normalise_alignment alignment).1
              (request size)
              (alloc h size alignment).heap
              (alloc h size alignment).pointer)
unfolding alloc
alloc_exact h size alignment v small r =
    let w = normalise_alignment-IsAlignment alignment r in
    let n = request-pos size small in
    let exact = allocatable_lem h alignment v r in
    elim (alloc_sized-Outcome h (request size) (normalise_alignment alignment).0 _ v w n.0 n.1) [
      | full lt e ↦ inl (omega (arith, exact, n.0), rw e refl, rw e refl)
      | fits h' p le e g ↦ inr (omega (arith, exact), rw e g)
    ]

-- The heap and the states that it has recorded lie in its region.
pub record IsBounded (h : HostFrmHeap) : Type 0 where
  pub heap : IsHeap h
  pub states : All (InRegion h) h.states

alloc-IsHeap :
    (h h' : HostFrmHeap) (a size p : ℕ)
    → IsHeap h
    → Grants h a size h' p
    → IsBounded h
    → IsBounded h'
alloc-IsHeap h h' a size p v g b = elim g.moved [
  | inl e ↦ rw e (record {
    heap = record {
      low = v.low;
      small = v.small;
      start_le_head = omega (arith, g.above, v.start_le_head);
      head_le_tail = g.below;
      tail_le_end = v.tail_le_end;
      positive = v.positive;
    };
    states = b.states;
  })
  | inr e ↦ rw e (record {
    heap = record {
      low = v.low;
      small = v.small;
      start_le_head = v.start_le_head;
      head_le_tail = g.above;
      tail_le_end = omega (arith, g.below, v.tail_le_end);
      positive = v.positive;
    };
    states = b.states;
  })
]

-- An allocation keeps the heap and its recorded states in bounds.
pub alloc-IsBounded :
    (h : HostFrmHeap) (size : ℕ) (alignment : ℤ)
    → IsBounded h
    → size < 2 ^ 32
    → nat_abs alignment ≤ 2 ^ 31
    → IsBounded (alloc h size alignment).heap
alloc-IsBounded h size alignment b small r = elim (alloc_exact h size alignment b.heap small r) [
  | inl (_, same, _) ↦ rw same b
  | inr (_, g) ↦ alloc-IsHeap h _ _ _ _ b.heap g b
]

reset-IsBounded :
    (h : HostFrmHeap) (x y z : Bool)
    → IsBounded h
    → IsBounded (record h {
      head = if x then h.data_start else h.head;
      tail = if y then h.data_end else h.tail;
      states = if z then [] else h.states;
    })
reset-IsBounded h x y true b = record { heap = ground arith; states = tt }
reset-IsBounded h x y false b = record { heap = ground arith; states = b.states }

-- `MEMFreeToFrmHeap` keeps the bounds of a heap and of its recorded states, in every mode.
pub free-IsBounded : (h : HostFrmHeap) (mode : ℕ) → IsBounded h → IsBounded (free h mode)
unfolding free
free-IsBounded h mode b = reset-IsBounded h _ _ _ b
