-- ===== src/Align/Laws.antt =====
-- What `alignUp` and `alignDown` compute for the alignments that `normaliseAlignment` returns.
use native.Mathlib.Nat.{
  div-mul-le_self, lt-div-mul-add, pow-le-pow_right, one-le-pow, mul-le-mul_right,
  lt_of_mul-lt-mul_right,
}
use coreinit_nx.Base.{
  ℕ, suc, ◌+◌, ◌-◌, ◌*◌, ◌/◌, ◌^◌, ◌≤◌, ◌<◌, ◌≡◌, refl, ap, ◌∙◌, inl, inr, true, bit_and,
  Bool-cases, arith,
}
use coreinit_nx.Base.Bits.{high_mask, high_mask_lem, bit_and-high_mask, pow2_of_bit_and}
use coreinit_nx.Base.Int.{ℤ, nat_abs}
use coreinit_nx.Align.{pred32, not64, is_pow2, align_up, align_down, normalise_alignment}

-- A power of two that a 32-bit word holds.
abbrev pub IsAlignment : ℕ → Type 0
IsAlignment a = (k : ℕ) × (k < 32) × (a ≡ 2 ^ k)

-- A multiple of the alignment.
abbrev pub IsAligned : ℕ → ℕ → Type 0
IsAligned a p = (q : ℕ) × (p ≡ q * a)

pub IsAlignment-bounds : (a : ℕ) → IsAlignment a → (1 ≤ a) × (a ≤ 2 ^ 31)
IsAlignment-bounds a (k, lt, e) =
    let p : 2 ^ k ≤ 2 ^ 31 =
      pow-le-pow_right {n = 2} (omega arith) {i = k} {j = 31} (omega arith) in
    omega (arith, one-le-pow k 2 (omega arith))

is_pow2-IsAlignment : (a : ℕ) → a < 2 ^ 32 → is_pow2 a ≡ true → IsAlignment a
unfolding is_pow2
is_pow2-IsAlignment a h e =
    let pred : 0 < a → pred32 a ≡ a - 1 = λ p. omega arith in
    let p : 0 < a = ground arith in
    pow2_of_bit_and 32 a h p (ground (arith, ap (bit_and a) (pred p)))

-- `normaliseAlignment` returns a power of two below 2^32, whatever `int` it is given.
pub normalise_alignment-IsAlignment :
    (z : ℤ) → nat_abs z ≤ 2 ^ 31 → IsAlignment (normalise_alignment z).1
unfolding normalise_alignment
normalise_alignment-IsAlignment z h = elim (Bool-cases (is_pow2 (nat_abs z))) [
  | inl e ↦ rw e (is_pow2-IsAlignment (nat_abs z) (omega arith) e)
  | inr e ↦ rw e (2, omega arith, refl)
]

-- `alignDown` rounds down to a multiple of the alignment.
pub align_down_lem : (v a : ℕ) → IsAlignment a → v < 2 ^ 64 → align_down v a ≡ v / a * a
unfolding align_down
align_down_lem v a (k, lt, e) h =
    let mask : not64 (pred32 a) ≡ high_mask k (64 - k) =
      omega (arith, high_mask_lem k (64 - k) 64 (omega arith), IsAlignment-bounds a (k, lt, e)) in
    rw (mask, e) (bit_and-high_mask k (64 - k) 64 v (omega arith) h)

-- For a power of two of 32 bits and a 64-bit address, `alignDown` gives the greatest multiple of
-- the alignment that is at most the address.
pub align_down-greatest :
    (v a : ℕ)
    → IsAlignment a
    → v < 2 ^ 64
    → IsAligned a (align_down v a) × (align_down v a ≤ v) × (v < align_down v a + a)
align_down-greatest v a w h =
    let b = IsAlignment-bounds a w in
    let e = align_down_lem v a w h in
    (
      (v / a, e),
      omega (arith, e, div-mul-le_self v a),
      omega (arith, e, lt-div-mul-add {a = v} {b = a} (omega arith)),
    )

-- `alignUp` is `alignDown` of the address moved up by one less than the alignment.
align_up-align_down : (v a : ℕ) → 1 ≤ a → v + a ≤ 2 ^ 64 → align_up v a ≡ align_down (v + a - 1) a
unfolding align_up align_down
align_up-align_down v a p h = ap (λ t. bit_and t (not64 (pred32 a))) (omega arith)

-- For a power of two of 32 bits, while nothing wraps, `alignUp` gives a multiple of the alignment
-- that is not below the address and less than one alignment above it.
pub align_up-least :
    (v a : ℕ)
    → IsAlignment a
    → v + a ≤ 2 ^ 64
    → IsAligned a (align_up v a) × (v ≤ align_up v a) × (align_up v a < v + a)
align_up-least v a w h =
    let b = IsAlignment-bounds a w in
    let e = align_up-align_down v a b.0 h in
    let d = align_down-greatest (v + a - 1) a w (omega arith) in
    ((d.0.0, e ∙ d.0.1), omega arith, omega arith)

-- Two multiples of the same number are equal or at least that number apart.
pub aligned_gap : (a p q : ℕ) → IsAligned a p → IsAligned a q → p < q + a → p ≤ q
aligned_gap a p q (i, ei) (j, ej) h =
    let below : i * a < suc j * a = omega arith in
    let lt : i < suc j = lt_of_mul-lt-mul_right a below in
    let le : i ≤ j = omega arith in omega (arith, mul-le-mul_right a le)
