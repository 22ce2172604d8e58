-- ===== src/Filesystem/Slots.antt =====
-- The table of slots as a finite map from handles to streams.
use native.Mathlib.Decide.{dec_lt}
use coreinit_nx.Base.{
  ℕ, subst, suc, zero, ◌+◌, ◌-◌, ◌≤◌, ◌<◌, ◌≡◌, ◌⊎◌, refl, sym, ap, ◌∙◌, inl, inr, Bool, true,
  false, ◌||◌, List, [], ◌∷◌, ◌++◌, Option, none, some, ltb, ◌==◌, if◌then◌else◌, length, get_elem?,
  set, arith, Bool-cases,
}
use coreinit_nx.Filesystem.{Slot, used_slot, slot_for, find_unused, open_slot, close_slot}

get_elem?-set :
    {A : Type 0} (xs : List A) (i j : ℕ) (v : A)
    → i < length xs
    → get_elem? (set xs i v) j ≡ (if j == i then some v else get_elem? xs j)
get_elem?-set [] i j v l = absurd (omega arith)
get_elem?-set (x ∷ xs) zero zero v l = refl
get_elem?-set (x ∷ xs) zero (suc j) v l = ground arith
get_elem?-set (x ∷ xs) (suc i) zero v l = ground arith
get_elem?-set (x ∷ xs) (suc i) (suc j) v l = ground (arith, get_elem?-set xs i j v (omega arith))

get_elem?-append :
    {A : Type 0} (xs : List A) (v : A) (j : ℕ)
    → get_elem? (xs ++ (v ∷ [])) j ≡ (if j == length xs then some v else get_elem? xs j)
get_elem?-append [] v zero = refl
get_elem?-append [] v (suc j) = ground arith
get_elem?-append (x ∷ xs) v zero = ground arith
get_elem?-append (x ∷ xs) v (suc j) = ground (arith, get_elem?-append xs v j)

get_elem?-past : {A : Type 0} (xs : List A) (j : ℕ) → length xs ≤ j → get_elem? xs j ≡ none
get_elem?-past [] j l = refl
get_elem?-past (x ∷ xs) zero l = absurd (omega arith)
get_elem?-past (x ∷ xs) (suc j) l = get_elem?-past xs j (omega arith)

-- A handle is 1 more than an index, and 0 is none.
abbrev pub slot_at : List Slot → ℕ → Option Slot
slot_at slots zero = none
slot_at slots (suc i) = used_slot (get_elem? slots i)

pub slot_for_lem : (slots : List Slot) (h : ℕ) → slot_for slots h ≡ slot_at slots h
unfolding slot_for
slot_for_lem slots zero = refl
slot_for_lem slots (suc i) =
    let guarded = λ (b : Bool).
      if◌then◌else◌ {A = Option Slot} b none (used_slot (get_elem? slots (suc i - 1))) in
    elim (Bool-cases (ltb (length slots) (suc i))) [
      | inl t ↦
          let e : (suc i == 0 || ltb (length slots) (suc i)) ≡ true = ground (arith, t) in
          let n : length slots ≤ i = ground (arith, t) in
          ap guarded e ∙ ap used_slot (sym (get_elem?-past slots i n))
      | inr f ↦
          let e : (suc i == 0 || ltb (length slots) (suc i)) ≡ false = ground (arith, f) in
          let n : suc i - 1 ≡ i = omega arith in
          ap guarded e ∙ ap (λ k. used_slot (get_elem? slots k)) n
    ]

-- The search finds the first slot that is free, if there is one.
pub find_unused_lem :
    (slots : List Slot) (i : ℕ)
    → (find_unused slots i ≡ 0)
      ⊎ ((k : ℕ) × (s : Slot) × (find_unused slots i ≡ i + k + 1)
          × (k < length slots)
          × (get_elem? slots k ≡ some s)
          × (s.used ≡ false))
find_unused_lem [] i = inl refl
find_unused_lem (s ∷ slots) i = elim (Bool-cases s.used) [
  | inl t ↦
      let e : find_unused (s ∷ slots) i ≡ find_unused slots (i + 1) =
        ap (λ b. if b then find_unused slots (i + 1) else i + 1) t in
      elim (find_unused_lem slots (i + 1)) [
        | inl z ↦ inl (e ∙ z)
        | inr (k, s', f, l, g, u) ↦ inr (suc k, s', e ∙ f ∙ (omega arith), omega arith, g, u)
      ]
  | inr f ↦ inr (
    0,
    s,
    ap (λ b. if b then find_unused slots (i + 1) else i + 1) f ∙ (omega arith),
    omega arith,
    refl,
    f,
  )
]

-- A stream that is put into a table is found under its handle, which was free, and every other handle
-- resolves as before.
pub record IsOpened (slots new : List Slot) (h stream : ℕ) : Type 0 where
  pub handle : 1 ≤ h
  pub was_free : slot_for slots h ≡ none
  pub resolves :
      (k : ℕ)
      → slot_for new k
        ≡ (if k == h then some (record { stream = stream; used = true }) else slot_for slots k)

in_use_free : (s : Slot) → s.used ≡ false → used_slot (some s) ≡ none
in_use_free s e = ap (λ b. if b then some s else none) e

resolves_from :
    (slots new : List Slot) (i : ℕ) (v : Slot)
    → ((j : ℕ) → get_elem? new j ≡ (if j == i then some v else get_elem? slots j))
    → (k : ℕ) → slot_for new k ≡ (if k == i + 1 then used_slot (some v) else slot_for slots k)
resolves_from slots new i v h zero =
    let e : (0 == i + 1) ≡ false = ground arith in
    slot_for_lem new 0
    ∙ sym (slot_for_lem slots 0)
    ∙ ap (λ b. if b then used_slot (some v) else slot_for slots 0) (sym e)
resolves_from slots new i v h (suc k) =
    slot_for_lem new (suc k) ∙ ap used_slot (h k) ∙ elim (Bool-cases (k == i)) [
      | inl t ↦
          let e : (suc k == i + 1) ≡ true = ground (arith, t) in
          ap (λ b. used_slot (if b then some v else get_elem? slots k)) t
          ∙ ap (λ b. if b then used_slot (some v) else slot_for slots (suc k)) (sym e)
      | inr f ↦
          let e : (suc k == i + 1) ≡ false = ground (arith, f) in
          ap (λ b. used_slot (if b then some v else get_elem? slots k)) f
          ∙ sym (slot_for_lem slots (suc k))
          ∙ ap (λ b. if b then used_slot (some v) else slot_for slots (suc k)) (sym e)
    ]

abbrev pub taken : ℕ → Slot
taken stream = record { stream = stream; used = true }

pub open_slot_at :
    (slots : List Slot) (stream slot : ℕ)
    → find_unused slots 0 ≡ slot
    → open_slot slots stream ≡ (
        if slot == 0
        then (slots ++ (taken stream ∷ []), length slots + 1)
        else (set slots (slot - 1) (taken stream), slot))
unfolding open_slot
open_slot_at slots stream slot e =
    ap
      (λ n.
        if◌then◌else◌ {A = List Slot × ℕ} (n == 0) (slots ++ (taken stream ∷ []), length slots + 1)
          (set slots (n - 1) (taken stream), n))
      e

abbrev pub placed : List Slot → ℕ → ℕ → ℕ → List Slot × ℕ
placed slots i stream h = (set slots i (taken stream), h)

pub open_slot-set :
    (slots : List Slot) (stream k : ℕ)
    → find_unused slots 0 ≡ 0 + k + 1
    → open_slot slots stream ≡ (set slots k (taken stream), k + 1)
open_slot-set slots stream k e =
    let n : find_unused slots 0 ≡ k + 1 = omega arith in
    let p : (k + 1 == 0) ≡ false = ground arith in
    let q : k + 1 - 1 ≡ k = omega arith in
    open_slot_at slots stream (k + 1) n
    ∙ ap
        (λ b.
          if◌then◌else◌ {A = List Slot × ℕ} b (slots ++ (taken stream ∷ []), length slots + 1)
            (set slots (k + 1 - 1) (taken stream), k + 1))
        p
    ∙ ap (λ n. placed slots n stream (k + 1)) q

IsOpened-at :
    (slots new : List Slot) (i stream : ℕ)
    → used_slot (get_elem? slots i) ≡ none
    → ((j : ℕ) → get_elem? new j ≡ (if j == i then some (taken stream) else get_elem? slots j))
    → IsOpened slots new (i + 1) stream
IsOpened-at slots new i stream f h = record {
  handle = omega arith;
  was_free = ap (slot_for slots) (omega arith) ∙ slot_for_lem slots (suc i) ∙ f;
  resolves = resolves_from slots new i (taken stream) h;
}

pub open_slot-IsOpened :
    (slots : List Slot) (stream : ℕ)
    → let r = open_slot slots stream in IsOpened slots r.0 r.1 stream
open_slot-IsOpened slots stream = elim (find_unused_lem slots 0) [
  | inl z ↦
      subst (λ r. IsOpened slots r.0 r.1 stream) (sym (open_slot_at slots stream 0 z))
        (IsOpened-at slots _ (length slots) stream
          (ap used_slot (get_elem?-past slots (length slots) (omega arith)))
          (get_elem?-append slots (taken stream)))
  | inr (k, s, e, l, g, u) ↦
      subst (λ r. IsOpened slots r.0 r.1 stream) (sym (open_slot-set slots stream k e))
        (IsOpened-at slots (set slots k (taken stream)) k stream (ap used_slot g ∙ in_use_free s u)
          (λ j. get_elem?-set slots k j (taken stream) l))
]

abbrev closed : Slot
closed = record { stream = 0; used = false }

-- A handle that resolves is 1 more than an index of the table.
slot_index :
    (slots : List Slot) (h : ℕ) (s : Slot)
    → slot_for slots h ≡ some s
    → (i : ℕ) × (i < length slots) × (h ≡ i + 1)
slot_index slots zero s e = let f = sym (slot_for_lem slots 0) ∙ e in absurd (cc)
slot_index slots (suc i) s e =
    let f = sym (slot_for_lem slots (suc i)) ∙ e in
    (
      i,
      elim (dec_lt i (length slots)) [
        | yes l ↦ l
        | no l ↦ let g = ap used_slot (get_elem?-past slots i (omega arith)) in absurd (cc)
      ],
      omega arith,
    )

-- A handle that is closed resolves no more, every other one as before.
pub close_slot_lem :
    (slots : List Slot) (h : ℕ) (s : Slot)
    → slot_for slots h ≡ some s
    → (k : ℕ) → slot_for (close_slot slots h) k ≡ (if k == h then none else slot_for slots k)
unfolding close_slot
close_slot_lem slots h s e k =
    let (i, l, n) = slot_index slots h s e in
    let m : h - 1 ≡ i = omega arith in
    ap (λ j. slot_for (set slots j closed) k) m
    ∙ resolves_from slots (set slots i closed) i closed (λ j. get_elem?-set slots i j closed l) k
    ∙ ap (λ j. if k == j then none else slot_for slots k) (sym n)
