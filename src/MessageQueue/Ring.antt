-- ===== src/MessageQueue/Ring.antt =====
-- The messages in a ring, from an index on and going round at the capacity, and what a write does to
-- them.
use native.Mathlib.Nat.{mod-eq_of_lt, mod-eq-sub-mod, mod-lt, mod-add-mod}
use native.Mathlib.Decide.{dec_lt}
use coreinit_nx.Base.{
  ℕ, suc, zero, ◌+◌, ◌-◌, ◌%◌, ◌≤◌, ◌<◌, ◌≡◌, ◌≢◌, refl, sym, ap, ap₂, ◌∙◌, List, [], ◌∷◌, ◌++◌,
  length, get_or, set, get_or-set_self, get_or-set_ne, arith,
}
use coreinit_nx.MessageQueue.{Message, no_message}

-- The `n` messages of a ring from index `h` on.
abbrev pub window : List Message → ℕ → ℕ → ℕ → List Message
window ring cap h zero = []
window ring cap h (suc n) = get_or ring (h % cap) no_message ∷ window ring cap (h + 1) n

-- Fewer steps than the capacity do not come back to the same index.
pub mod_ne : (cap h d : ℕ) → 0 < d → d < cap → (h + d) % cap ≢ h % cap
mod_ne cap h d lo hi e = elim (dec_lt (h % cap + d) cap) [
  | yes p ↦ omega (arith, mod-add-mod h cap d, mod-eq_of_lt p)
  | no p ↦ omega (
    arith,
    mod-add-mod h cap d,
    mod-eq-sub-mod {n = h % cap + d} {m = cap} (omega arith),
    mod-eq_of_lt {n = h % cap + d - cap} {m = cap}
        (omega (arith, mod-lt h {m = cap} (omega arith))),
  )
]

pub mod_suc : (cap h k : ℕ) → h % cap ≡ k % cap → (h + 1) % cap ≡ (k + 1) % cap
mod_suc cap h k e = sym (mod-add-mod h cap 1) ∙ ap (λ r. (r + 1) % cap) e ∙ mod-add-mod k cap 1

-- Only the index modulo the capacity matters.
pub window_mod :
    (ring : List Message) (cap h k n : ℕ)
    → h % cap ≡ k % cap
    → window ring cap h n ≡ window ring cap k n
window_mod ring cap h k zero e = refl
window_mod ring cap h k (suc n) e =
    ap₂ ◌∷◌ (ap (λ i. get_or ring i no_message) e)
      (window_mod ring cap (h + 1) (k + 1) n (mod_suc cap h k e))

-- A write at an index that lies `d` steps before the window leaves the window alone.
pub window-set_before :
    (ring : List Message) (cap i h d n : ℕ) (m : Message)
    → h ≡ i + d
    → 0 < d
    → d + n ≤ cap
    → window (set ring (i % cap) m) cap h n ≡ window ring cap h n
window-set_before ring cap i h d zero m e lo hi = refl
window-set_before ring cap i h d (suc n) m e lo hi =
    let apart : i % cap ≢ h % cap =
      λ q. mod_ne cap i d lo (omega arith) (ap (λ t. t % cap) (sym e) ∙ sym q) in
    ap₂ ◌∷◌ (get_or-set_ne ring (i % cap) (h % cap) m no_message apart)
      (window-set_before ring cap i (h + 1) (d + 1) n m (omega arith) (omega arith) (omega arith))

-- A write just behind the window extends it by the message written.
pub window-set_behind :
    (ring : List Message) (cap i h n : ℕ) (m : Message)
    → i ≡ h + n
    → n < cap
    → length ring ≡ cap
    → window (set ring (i % cap) m) cap h (suc n) ≡ window ring cap h n ++ (m ∷ [])
window-set_behind ring cap i h zero m e lt size =
    let same : h % cap ≡ i % cap = ap (λ t. t % cap) (omega arith) in
    let inside : i % cap < length ring = omega (arith, mod-lt i {m = cap} (omega arith)) in
    rw same (ap (λ x. x ∷ []) (get_or-set_self ring (i % cap) m no_message inside))
window-set_behind ring cap i h (suc n) m e lt size =
    let apart : i % cap ≢ h % cap =
      λ q. mod_ne cap h (suc n) (omega arith) lt (ap (λ t. t % cap) (sym e) ∙ q) in
    ap₂ ◌∷◌ (get_or-set_ne ring (i % cap) (h % cap) m no_message apart)
      (window-set_behind ring cap i (h + 1) n m (omega arith) (omega arith) size)
