-- ===== src/FrmHeap/States.antt =====
-- Recorded states: `MEMRecordStateForFrmHeap`, `MEMFreeByStateToFrmHeap` and `MEMAdjustFrmHeap`.
use coreinit_nx.Base.{
  ℕ, ◌+◌, ◌^◌, ◌≤◌, ◌<◌, ◌≡◌, ◌≢◌, refl, ap, ◌∙◌, subst, ◌⊎◌, inl, inr, ◌||◌, List, [], ◌∷◌, some,
  All, ◌==◌, ==_iff, Bool-cases, Option-cases, arith,
}
use coreinit_nx.Base.Int.{ℤ, nat_abs}
use coreinit_nx.FrmHeap.{State, HostFrmHeap, alloc, record_state, find_state, free_by_state, adjust}
use coreinit_nx.FrmHeap.Bounds.{InRegion, IsBounded, alloc_exact, alloc-IsBounded}

-- Recording a state keeps the bounds.
pub record_state-IsBounded :
    (h : HostFrmHeap) (tag : ℕ) → IsBounded h → IsBounded (record_state h tag)
unfolding record_state
record_state-IsBounded h tag b = record {
  heap = ground arith;
  states = ((b.heap.start_le_head, b.heap.head_le_tail, b.heap.tail_le_end), b.states);
}

find_state-All :
    (P : State → Type 0) (tag : ℕ) (ss : List State) {s : State} {below : List State}
    → All P ss
    → find_state tag ss ≡ some (s, below)
    → P s × All P below
unfolding find_state
find_state-All P tag [] h e = absurd (cc)
find_state-All P tag (x ∷ r) {s} {below} h e = elim (Bool-cases (tag == 0 || x.tag == tag)) [
  | inl t ↦
      let same : x ≡ s = ground arith in
      let rest : r ≡ below = ground arith in (subst P same h.0, subst (All P) rest h.1)
  | inr t ↦ find_state-All P tag r h.1 (rw t at e)
]

restored-IsBounded :
    (h : HostFrmHeap) (s : State) (below : List State)
    → IsBounded h
    → InRegion h s
    → All (InRegion h) below
    → IsBounded (record h { head = s.head; tail = s.tail; states = below })
restored-IsBounded h s below b r w = record { heap = ground arith; states = w }

-- `MEMFreeByStateToFrmHeap` keeps the bounds, whether it finds a state or not.
pub free_by_state-IsBounded :
    (h : HostFrmHeap) (tag : ℕ) → IsBounded h → IsBounded (free_by_state h tag).0
unfolding free_by_state
free_by_state-IsBounded h tag b = elim (Option-cases (find_state tag h.states)) [
  | inl e ↦ rw (e, free_by_state) b
  | inr ((s, below), e) ↦
      let (r, w) = find_state-All (InRegion h) tag h.states b.states e in
      rw (e, free_by_state) (restored-IsBounded h s below b r w)
]

-- Allocations, one after the other.
pub alloc_all : HostFrmHeap → List (ℕ × ℤ) → HostFrmHeap
alloc_all h [] = h
alloc_all h ((size, alignment) ∷ rs) = alloc_all (alloc h size alignment).heap rs

-- A request with arguments of their C types.
abbrev pub InRange : ℕ × ℤ → Type 0
InRange (size, alignment) = (size < 2 ^ 32) × (nat_abs alignment ≤ 2 ^ 31)

-- An allocation changes nothing but the two tops.
abbrev SameBut : HostFrmHeap → HostFrmHeap → Type 0
SameBut h h' = h' ≡ record h { head = h'.head; tail = h'.tail }

alloc-SameBut :
    (h : HostFrmHeap) (r : ℕ × ℤ) → IsBounded h → InRange r → SameBut h (alloc h r.0 r.1).heap
alloc-SameBut h (size, alignment) b w = elim (alloc_exact h size alignment b.heap w.0 w.1) [
  | inl (_, same, _) ↦ ground (arith, same)
  | inr (_, g) ↦ elim g.moved [ inl e ↦ ground (arith, e) | inr e ↦ ground (arith, e) ]
]

alloc_all-SameBut :
    (h : HostFrmHeap) (rs : List (ℕ × ℤ))
    → IsBounded h
    → All InRange rs
    → SameBut h (alloc_all h rs)
unfolding alloc_all
alloc_all-SameBut h [] b w = refl
alloc_all-SameBut h ((size, alignment) ∷ rs) b w =
    let once = alloc-SameBut h (size, alignment) b w.0 in
    let more =
      alloc_all-SameBut (alloc h size alignment).heap rs
        (alloc-IsBounded h size alignment b w.0.0 w.0.1) w.1 in
    ground (arith, once, more)

pop_state :
    (h : HostFrmHeap) (tag tag' x y : ℕ)
    → (tag' ≡ tag) ⊎ (tag' ≡ 0)
    → free_by_state (record (record_state h tag) { head = x; tail = y }) tag' ≡ (h, 1)
unfolding free_by_state record_state
pop_state h tag tag' x y (inl e) = ground (arith, e)
pop_state h tag tag' x y (inr e) = ground (arith, e)

-- On a heap in bounds, whatever is allocated after a state was recorded, with arguments of their C
-- types, freeing by its tag, or by tag 0, restores the heap to what it was before the recording,
-- and reports success.
pub free_by_state_restores :
    (h : HostFrmHeap) (tag : ℕ) (rs : List (ℕ × ℤ)) (tag' : ℕ)
    → IsBounded h
    → All InRange rs
    → (tag' ≡ tag) ⊎ (tag' ≡ 0)
    → free_by_state (alloc_all (record_state h tag) rs) tag' ≡ (h, 1)
free_by_state_restores h tag rs tag' b w which =
    let same = alloc_all-SameBut (record_state h tag) rs (record_state-IsBounded h tag b) w in
    ap (λ g. free_by_state g tag') same ∙ pop_state h tag tag' _ _ which

adjusted-IsBounded :
    (h : HostFrmHeap)
    → IsBounded h
    → h.states ≡ []
    → IsBounded (record h { data_end = h.head; tail = h.head })
adjusted-IsBounded h b e = record { heap = ground arith; states = rw e tt }

-- `MEMAdjustFrmHeap` keeps the bounds of a heap in bounds that has recorded no state, in a region
-- of less than 4 GB from its handle on. It leaves a heap with allocations at the far end as it
-- was, and of any other it reports the size that is left.
pub adjust-IsBounded :
    (h : HostFrmHeap) (heap : ℕ)
    → IsBounded h
    → h.states ≡ []
    → heap ≤ h.data_start
    → h.data_end < heap + 2 ^ 32
    → IsBounded (adjust h heap).0
      × (((h.tail ≢ h.data_end) × (adjust h heap ≡ (h, 0)))
          ⊎ ((h.tail ≡ h.data_end) × (heap + (adjust h heap).1 ≡ (adjust h heap).0.data_end)))
unfolding adjust
adjust-IsBounded h heap b e lo hi = elim (Bool-cases (h.tail == h.data_end)) [
  | inl t ↦ (simp t (adjusted-IsBounded h b e), inr ((==_iff _ _).0 t, ground arith))
  | inr t ↦ (simp t b, inl (ground arith, ground arith))
]

-- On a heap with room between the tops and nothing held at the far end, a state that was recorded
-- before `MEMAdjustFrmHeap` restores a far top that lies past the end which `MEMAdjustFrmHeap`
-- set.
pub adjust_then_free_by_state :
    (h : HostFrmHeap) (heap tag : ℕ)
    → h.tail ≡ h.data_end
    → h.head < h.tail
    → (adjust (record_state h tag) heap).0.data_end
      < (free_by_state (adjust (record_state h tag) heap).0 tag).0.tail
unfolding adjust free_by_state record_state
adjust_then_free_by_state h heap tag e lt = ground arith
