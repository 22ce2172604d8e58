-- ===== src/Filesystem/Streams.antt =====
-- No slot that is in use is without a stream.
use coreinit_nx.Base.{
  ℕ, subst, suc, zero, ◌-◌, ◌≡◌, ◌≢◌, sym, ap, ◌∙◌, inl, inr, true, List, [], ◌∷◌, Option, none,
  some, if◌then◌else◌, get_elem?, All, All-append, All-set, Bool-cases,
}
use coreinit_nx.Filesystem.{Slot, used_slot, slot_for, open_slot, close_slot}
use coreinit_nx.Filesystem.Slots.{slot_for_lem, find_unused_lem, taken, open_slot_at, open_slot-set}

-- Every slot in use has a stream.
abbrev pub HasStream : Slot → Type 0
HasStream s = s.used ≡ true → s.stream ≢ 0

-- Tables in which every slot in use has a stream.
pub All-open_slot :
    (slots : List Slot) (stream : ℕ)
    → stream ≢ 0
    → All HasStream slots
    → All HasStream (open_slot slots stream).0
All-open_slot slots stream n h = elim (find_unused_lem slots 0) [
  | inl z ↦
      subst (λ r. All HasStream r.0) (sym (open_slot_at slots stream 0 z))
        (All-append HasStream slots (taken stream ∷ []) h ((λ _. n), tt))
  | inr (k, s, e, l, g, u) ↦
      subst (λ r. All HasStream r.0) (sym (open_slot-set slots stream k e))
        (All-set HasStream slots k (taken stream) h (λ _. n))
]

pub All-close_slot :
    (slots : List Slot) (h : ℕ) → All HasStream slots → All HasStream (close_slot slots h)
unfolding close_slot
All-close_slot slots h a = All-set HasStream slots (h - 1) _ a (λ e. absurd (cc))

-- What a handle resolves to is in use.
in_use_some : (o : Option Slot) (s : Slot) → used_slot o ≡ some s → (o ≡ some s) × (s.used ≡ true)
in_use_some none s e = absurd (cc)
in_use_some (some t) s e = elim (Bool-cases t.used) [
  | inl u ↦
      let f : some t ≡ some s = ap (λ b. if b then some t else none) (sym u) ∙ e in
      let g : t ≡ s = cc in (f, ap (λ x. x.used) (sym g) ∙ u)
  | inr u ↦
      let f : ◌≡◌ {A = Option Slot} none (some s) =
        ap (λ b. if b then some t else none) (sym u) ∙ e in
      absurd (cc)
]

All-get :
    {A : Type 0} (P : A → Type 0) (xs : List A) (i : ℕ) (x : A)
    → All P xs
    → get_elem? xs i ≡ some x
    → P x
All-get P [] i x h e = absurd (cc)
All-get P (y ∷ xs) zero x h e = let f : y ≡ x = cc in subst P f h.0
All-get P (y ∷ xs) (suc i) x h e = All-get P xs i x h.1 e

pub slot_for-HasStream :
    (slots : List Slot) (h : ℕ) (s : Slot)
    → All HasStream slots
    → slot_for slots h ≡ some s
    → s.stream ≢ 0
slot_for-HasStream slots zero s a e = let f = sym (slot_for_lem slots 0) ∙ e in absurd (cc)
slot_for-HasStream slots (suc i) s a e =
    let (g, u) = in_use_some (get_elem? slots i) s (sym (slot_for_lem slots (suc i)) ∙ e) in
    All-get HasStream slots i s a g u
