-- ===== src/LockedCache/Budget.antt =====
-- The budget of the locked cache: what is allocated is the sum of the blocks' sizes and within the 16 KB.
use coreinit_nx.Base.{
  ℕ, ◌+◌, ◌-◌, ◌^◌, ◌≤◌, ◌<◌, ◌≡◌, ◌↔◌, inl, inr, List, [], ◌∷◌, none, some, ◌==◌, Bool-cases,
  Option-cases, arith,
}
use coreinit_nx.Handles.{find, erase}
use coreinit_nx.LockedCache.{
  LockedCache, cache_size, assign, lc_alloc, lc_dealloc, lc_get_allocatable_size,
}

abbrev pub total : List (ℕ × ℕ) → ℕ
total [] = 0
total ((k, v) ∷ t) = v + total t

total-assign :
    (key value : ℕ) (t : List (ℕ × ℕ))
    → find key t ≡ none
    → total (assign key value t) ≡ value + total t
unfolding assign find
total-assign key value [] h = omega arith
total-assign key value ((k, v) ∷ t) h = elim (Bool-cases (k == key)) [
  | inl e ↦ absurd (ground (arith, h, e))
  | inr e ↦
      let rest : find key t ≡ none = simp e at h in
      let l = total-assign key value t rest in ground (arith, e, l)
]

total-erase :
    (key size : ℕ) (t : List (ℕ × ℕ))
    → find key t ≡ some size
    → size + total (erase key t) ≡ total t
unfolding erase find
total-erase key size [] h = absurd (cc)
total-erase key size ((k, v) ∷ t) h = elim (Bool-cases (k == key)) [
  | inl e ↦ let same : some v ≡ some size = simp e at h in ground (arith, same, e)
  | inr e ↦
      let rest : find key t ≡ some size = simp e at h in
      let l = total-erase key size t rest in ground (arith, e, l)
]

-- Every counted byte is in a block, and the blocks are within the budget.
abbrev pub IsAccounted : LockedCache → Type 0
IsAccounted c = (c.allocated ≡ total c.blocks) × (c.allocated ≤ cache_size)

-- An allocation keeps the account when its size is short of 4 GB by the cache's size and the
-- address is a new one.
pub lc_alloc-IsAccounted :
    (c : LockedCache) (size p : ℕ)
    → IsAccounted c
    → size + cache_size < 2 ^ 32
    → find p c.blocks ≡ none
    → IsAccounted (lc_alloc c size p).0
unfolding lc_alloc
lc_alloc-IsAccounted c size p (a, b) s n = let l = total-assign p size c.blocks n in ground arith

-- A deallocation, of a block or of any other address, keeps the account.
pub lc_dealloc-IsAccounted :
    (c : LockedCache) (addr : ℕ) → IsAccounted c → IsAccounted (lc_dealloc c addr)
unfolding lc_dealloc
lc_dealloc-IsAccounted c addr (a, b) = elim (Option-cases (find addr c.blocks)) [
  | inl n ↦ ground (arith, n)
  | inr (size, f) ↦ let l = total-erase addr size c.blocks f in ground (arith, f, l)
]

-- With the account in order, for requests of some bytes short of 4 GB by the cache's size, the
-- budget is exact: an allocation that memory allows succeeds just when its size is at most what
-- `LCGetAllocatableSize` told.
pub lc_alloc_exact :
    (c : LockedCache) (size p : ℕ)
    → IsAccounted c
    → 0 < size
    → size + cache_size < 2 ^ 32
    → 0 < p
    → ((lc_alloc c size p).1 ≡ p) ↔ (size ≤ lc_get_allocatable_size c)
unfolding lc_alloc lc_get_allocatable_size
lc_alloc_exact c size p (a, b) s l m = ground arith

-- A request of nearly 4 GB passes the guard: with the account in order and anything allocated, the
-- request for what is left of 2 ^ 32, if memory allows it, succeeds and leaves the counter at 0.
pub lc_alloc_wraps :
    (c : LockedCache) (p : ℕ)
    → IsAccounted c
    → 0 < c.allocated
    → 0 < p
    → ((lc_alloc c (2 ^ 32 - c.allocated) p).1 ≡ p)
      × ((lc_alloc c (2 ^ 32 - c.allocated) p).0.allocated ≡ 0)
unfolding lc_alloc
lc_alloc_wraps c p (a, b) l m = ground arith
