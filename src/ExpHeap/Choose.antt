-- ===== src/ExpHeap/Choose.antt =====
-- The search loop of `MEMAllocFromExpHeapEx`: it finds a free block in which the request fits
-- whenever there is one, the first of them or a tightest one.
use coreinit_nx.Base.{
  ℕ, suc, zero, ◌+◌, ◌-◌, ◌≤◌, ◌<◌, ◌≡◌, ◌≢◌, refl, subst, ◌⊎◌, inl, inr, Bool, true, false, ◌&&◌,
  List, [], ◌∷◌, Option, none, some, arith, get_elem?, All, ltb, ◌==◌, if◌then◌else◌, Bool-cases,
}
use coreinit_nx.ExpHeap.Blocks.{All-get}
use coreinit_nx.ExpHeap.{Block, fit_in_free, fits, beats, choose, first_free}

module _ (mode a size : ℕ) where
  -- The slack that the loop keeps for a block: it sets none where it stops at once.
  abbrev IsSlack : Block → ℕ → Type 0
  IsSlack b s = (s ≡ fit_in_free b a - size) ⊎ (mode ≡ first_free)

  -- Whatever holds of the choice so far and of each block where the request fits holds of the
  -- choice that the loop ends with.
  choose_inv :
      (Good : ℕ → ℕ → Type 0) (bs : List Block) (i : ℕ) (chosen : Option (ℕ × ℕ)) (j s : ℕ)
      → ((k s : ℕ) (b : Block)
          → get_elem? bs k ≡ some b
          → fits a size b ≡ true
          → IsSlack b s
          → Good (i + k) s)
      → ((j s : ℕ) → chosen ≡ some (j, s) → Good j s)
      → choose mode a size bs i chosen ≡ some (j, s)
      → Good j s
  unfolding choose
  choose_inv Good [] i chosen j s here before e = before j s e
  choose_inv Good (b ∷ r) i chosen j s here before e =
      elim (Bool-cases (fits a size b && mode == first_free)) [
        | inl t ↦
            let same : i ≡ j = ground arith in
            subst (λ n. Good n s) same (at_front s (ground arith) (inr (ground arith)))
        | inr t ↦
            choose_inv Good r (i + 1) _ j s
              (λ k s' c g f w. subst (λ n. Good n s') (omega arith) (here (suc k) s' c g f w))
              (λ j' s' q. keep j' s' (Bool-cases better) q) (rw (t, choose) at e)
      ]
    where
      slack : ℕ
      slack = fit_in_free b a - size

      better : Bool
      better = fits a size b && beats (fit_in_free b a - size) chosen

      at_front : (s' : ℕ) → fits a size b ≡ true → IsSlack b s' → Good i s'
      at_front s' f w = subst (λ n. Good n s') (omega arith) (here 0 s' b refl f w)

      keep :
          (j' s' : ℕ)
          → ((better ≡ true) ⊎ (better ≡ false))
          → (if better then some (i, slack) else chosen) ≡ some (j', s')
          → Good j' s'
      keep j' s' (inl t) q =
          let same : i ≡ j' = ground arith in
          subst (λ n. Good n s') same (at_front s' (ground arith) (inl (ground arith)))
      keep j' s' (inr t) q = before j' s' (rw t at q)

  -- The chosen index is that of a free block in which the request fits.
  pub choose-fits :
      (bs : List Block) {j s : ℕ}
      → choose mode a size bs 0 none ≡ some (j, s)
      → (b : Block) × (get_elem? bs j ≡ some b) × (fits a size b ≡ true) × IsSlack b s
  choose-fits bs {j} {s} e =
      choose_inv Good bs 0 none j s
        (λ k s' b g f w. subst (λ n. Good n s') (omega arith) (b, g, f, w)) (λ j s e. absurd (cc)) e
    where
      Good : ℕ → ℕ → Type 0
      Good i t = (b : Block) × (get_elem? bs i ≡ some b) × (fits a size b ≡ true) × IsSlack b t

  choose-some : (bs : List Block) (i : ℕ) (p : ℕ × ℕ) → choose mode a size bs i (some p) ≢ none
  unfolding choose
  choose-some [] i p e = cc
  choose-some (b ∷ r) i p e =
      ground (arith, choose-some r (i + 1) p, choose-some r (i + 1) (i, fit_in_free b a - size))

  skipped :
      (b : Block) (r : List Block) (i : ℕ)
      → choose mode a size (b ∷ r) i none ≡ none
      → (fits a size b ≡ false) × (choose mode a size r (i + 1) none ≡ none)
  unfolding choose
  skipped b r i e = ground (arith, choose-some r (i + 1) (i, fit_in_free b a - size))

  -- Nothing is chosen only if the request fits in no free block.
  pub choose-none :
      (bs : List Block) (i : ℕ)
      → choose mode a size bs i none ≡ none
      → All (λ b. fits a size b ≡ false) bs
  choose-none [] i e = tt
  choose-none (b ∷ r) i e = let (f, e') = skipped b r i e in (f, choose-none r (i + 1) e')

  pub choose_chosen :
      (bs : List Block) (i k : ℕ) {b : Block}
      → get_elem? bs k ≡ some b
      → fits a size b ≡ true
      → choose mode a size bs i none ≢ none
  choose_chosen bs i k {b} g f e =
      let out : fits a size b ≡ false =
        All-get (λ c. fits a size c ≡ false) k bs (choose-none bs i e) g in
      absurd (cc)

-- In the mode FIRST_FREE the request fits in no block before the chosen one.
pub choose_first :
    (a size : ℕ) (bs : List Block) (i j s k : ℕ) (b : Block)
    → choose first_free a size bs i none ≡ some (j, s)
    → get_elem? bs k ≡ some b
    → i + k < j
    → fits a size b ≡ false
unfolding choose
choose_first a size [] i j s k b e g lt = absurd (cc)
choose_first a size (x ∷ r) i j s zero b e g lt = ground arith
choose_first a size (x ∷ r) i j s (suc k) b e g lt =
    ground (arith, choose_first a size r (i + 1) j s k b)

-- A slack is at most the slack kept so far.
abbrev Within : ℕ → Option (ℕ × ℕ) → Type 0
Within s none = Unit
Within s (some (_, t)) = s ≤ t

-- In any other mode no block in which the request fits is a tighter fit than the chosen one.
pub choose_tight :
    (mode a size : ℕ) (bs : List Block) (i : ℕ) (chosen : Option (ℕ × ℕ)) (j s : ℕ)
    → mode ≢ first_free
    → choose mode a size bs i chosen ≡ some (j, s)
    → All (λ b. fits a size b ≡ true → s ≤ fit_in_free b a - size) bs × Within s chosen
unfolding choose
choose_tight mode a size [] i none j s m e = (tt, tt)
choose_tight mode a size [] i (some (k, t)) j s m e = (tt, ground arith)
choose_tight mode a size (b ∷ r) i none j s m e = elim (Bool-cases (fits a size b)) [
  | inl f ↦
      let ih =
        choose_tight mode a size r (i + 1) (some (i, fit_in_free b a - size)) j s m
          (ground arith) in
      ((λ _. ih.1, ih.0), tt)
  | inr f ↦
      let ih = choose_tight mode a size r (i + 1) none j s m (ground arith) in
      ((λ q. absurd (cc), ih.0), tt)
]
choose_tight mode a size (b ∷ r) i (some (k, t)) j s m e =
    elim (Bool-cases (fits a size b && ltb (fit_in_free b a - size) t)) [
      | inl f ↦
          let ih =
            choose_tight mode a size r (i + 1) (some (i, fit_in_free b a - size)) j s m
              (ground arith) in
          ((λ _. ih.1, ih.0), ground arith)
      | inr f ↦
          let ih = choose_tight mode a size r (i + 1) (some (k, t)) j s m (ground arith) in
          ((λ q. ground arith, ih.0), ih.1)
    ]
