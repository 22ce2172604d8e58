-- ===== src/Time/Floor.antt =====
-- Division towards minus infinity, as both date functions compute it: eras of 400 years.
use coreinit_nx.Base.{
  ℕ, suc, zero, ◌+◌, ◌*◌, ◌^◌, ◌<◌, ◌≡◌, ◌⊎◌, inl, inr, refl, sym, ◌∙◌, ap, arith,
}
use native.Mathlib.Nat.{zero-mul}
use coreinit_nx.Base.Int.{
  ℤ, pos, negsuc, pos_part, neg_part, ◌+ℤ◌, ◌-ℤ◌, scale, to_word, to_i32, neg_ℕ, nat_abs, +ℤ_parts,
  -ℤ_parts, eq_of_parts,
}
use coreinit_nx.Time.{floor_div}

neg_ℕ_parts : (n : ℕ) → (pos_part (neg_ℕ n) ≡ 0) × (neg_part (neg_ℕ n) ≡ n)
neg_ℕ_parts zero = (refl, refl)
neg_ℕ_parts (suc n) = (refl, refl)

-- A multiple of an era number, for the omega calls.
pub scale_parts :
    (e : ℤ) (k : ℕ)
    → (pos_part (scale e k) ≡ pos_part e * k) × (neg_part (scale e k) ≡ neg_part e * k)
scale_parts (pos n) k = (refl, sym (zero-mul k))
scale_parts (negsuc n) k =
    ((neg_ℕ_parts (suc n * k)).0 ∙ sym (zero-mul k), (neg_ℕ_parts (suc n * k)).1)

-- The quotient and the remainder by 400 years, and by the days of an era.
pub floor_400 :
    (z : ℤ)
    → (to_word 32 (z -ℤ scale (floor_div z 400) 400) < 400)
      × (z ≡ scale (floor_div z 400) 400 +ℤ pos (to_word 32 (z -ℤ scale (floor_div z 400) 400)))
unfolding ◌+ℤ◌ ◌-ℤ◌
floor_400 (pos n) = ground arith
floor_400 (negsuc n) = ground arith

pub floor_146097 :
    (z : ℤ)
    → (to_word 32 (z -ℤ scale (floor_div z 146097) 146097) < 146097)
      × (z
          ≡ scale (floor_div z 146097) 146097
            +ℤ pos (to_word 32 (z -ℤ scale (floor_div z 146097) 146097)))
unfolding ◌+ℤ◌ ◌-ℤ◌
floor_146097 (pos n) = ground arith
floor_146097 (negsuc n) = ground arith

-- They are the only ones.
pub unique_400 :
    (e e' : ℤ) (r r' : ℕ)
    → r < 400
    → r' < 400
    → scale e 400 +ℤ pos r ≡ scale e' 400 +ℤ pos r'
    → (e ≡ e') × (r ≡ r')
unique_400 e e' r r' l l' h =
    let a = scale_parts e 400 in
    let a' = scale_parts e' 400 in
    let b = +ℤ_parts (scale e 400) (pos r) in
    let b' = +ℤ_parts (scale e' 400) (pos r') in
    let p = ap pos_part h in let n = ap neg_part h in (eq_of_parts e e' (omega arith), omega arith)

pub unique_146097 :
    (e e' : ℤ) (r r' : ℕ)
    → r < 146097
    → r' < 146097
    → scale e 146097 +ℤ pos r ≡ scale e' 146097 +ℤ pos r'
    → (e ≡ e') × (r ≡ r')
unique_146097 e e' r r' l l' h =
    let a = scale_parts e 146097 in
    let a' = scale_parts e' 146097 in
    let b = +ℤ_parts (scale e 146097) (pos r) in
    let b' = +ℤ_parts (scale e' 146097) (pos r') in
    let p = ap pos_part h in let n = ap neg_part h in (eq_of_parts e e' (omega arith), omega arith)

-- The cast of a year to 32 bits keeps it.
pub to_i32_lem : (z : ℤ) → nat_abs z < 2 ^ 31 → to_i32 z ≡ z
to_i32_lem (pos n) l = ground arith
to_i32_lem (negsuc n) l = ground arith

pub -ℤ-+ℤ : (a : ℤ) (n : ℕ) → (a +ℤ pos n) -ℤ pos n ≡ a
-ℤ-+ℤ a n =
    let p = +ℤ_parts a (pos n) in
    let q = -ℤ_parts (a +ℤ pos n) (pos n) in eq_of_parts _ _ (omega arith)

pub +ℤ--ℤ : (a : ℤ) (n : ℕ) → (a -ℤ pos n) +ℤ pos n ≡ a
+ℤ--ℤ a n =
    let p = -ℤ_parts a (pos n) in
    let q = +ℤ_parts (a -ℤ pos n) (pos n) in eq_of_parts _ _ (omega arith)

pub one_part : (z : ℤ) → (pos_part z ≡ 0) ⊎ (neg_part z ≡ 0)
one_part (pos n) = inr refl
one_part (negsuc n) = inl refl

pub nat_abs_parts : (z : ℤ) → nat_abs z ≡ pos_part z + neg_part z
nat_abs_parts (pos n) = omega arith
nat_abs_parts (negsuc n) = omega arith
