-- ===== src/Base/Bits.antt =====
-- Masks of high bits and the power-of-two test, by recursion on the binary digits.
use Prim.Native.Nat.{
  digits, bit_and-bitwise, ℕ, zero, suc, ◌+◌, ◌-◌, ◌*◌, ◌/◌, ◌%◌, ◌^◌, ◌≤◌, ◌<◌, min, bit_and,
}
use mathlib.Core.Path.{◌≡◌, refl, sym, ◌∙◌, ap}
use native.Mathlib.Omega.{arith}
use native.Mathlib.Decide.{dec_lt}
use native.Mathlib.Nat.{pow-suc, pow-succ', div-div-eq-div-mul}

-- What the native conjunction stands for, with the fuel as an argument.
abbrev conj : ℕ → ℕ → ℕ → ℕ
conj fuel x y = digits (λ d. zero) min fuel x y

conj_enough : (f g x y : ℕ) → x ≤ f → x ≤ g → conj f x y ≡ conj g x y
conj_enough zero zero x y p q = refl
conj_enough zero (suc g) zero y p q = refl
conj_enough zero (suc g) (suc x) y p q = elim p [ ]
conj_enough (suc f) zero zero y p q = refl
conj_enough (suc f) zero (suc x) y p q = elim q [ ]
conj_enough (suc f) (suc g) zero y p q = refl
conj_enough (suc f) (suc g) (suc x) y p q =
    omega (arith, conj_enough f g (suc x / 2) (y / 2) (omega arith) (omega arith))

-- The lowest digits meet in `min`, the rest below them.
pub bit_and-halves : (x y : ℕ) → bit_and x y ≡ bit_and (x / 2) (y / 2) * 2 + min (x % 2) (y % 2)
bit_and-halves zero y = omega (arith, bit_and-bitwise 0 y, bit_and-bitwise 0 (y / 2))
bit_and-halves (suc x) y = omega (
  arith,
  conj_enough x (suc x / 2) (suc x / 2) (y / 2) (omega arith) (omega arith),
  bit_and-bitwise (suc x / 2) (y / 2),
  bit_and-bitwise (suc x) y,
)

-- `j` ones, and the same with `k` zeros below them.
pub ones : ℕ → ℕ
ones zero = 0
ones (suc j) = 2 * ones j + 1

pub high_mask : ℕ → ℕ → ℕ
high_mask zero j = ones j
high_mask (suc k) j = 2 * high_mask k j

pub ones_lem : (j : ℕ) → ones j + 1 ≡ 2 ^ j
unfolding ones
ones_lem zero = refl
ones_lem (suc j) = omega (arith, ones_lem j, pow-suc 2 j)

pub high_mask_lem : (k j n : ℕ) → k + j ≡ n → high_mask k j + 2 ^ k ≡ 2 ^ n
unfolding high_mask
high_mask_lem zero j n e =
    let e' : j ≡ n = omega arith in omega (arith, ones_lem j, ap (λ (t : ℕ). 2 ^ t) e')
high_mask_lem (suc k) j zero e = absurd (omega arith)
high_mask_lem (suc k) j (suc n) e =
    omega (arith, high_mask_lem k j n (omega arith), pow-suc 2 k, pow-suc 2 n)

-- Masking with `j` ones keeps a number of `j` digits.
pub bit_and-ones : (j x : ℕ) → x < 2 ^ j → bit_and x (ones j) ≡ x
unfolding ones
bit_and-ones zero x h = let e : x ≡ 0 = omega arith in rw e (bit_and-bitwise 0 0)
bit_and-ones (suc j) x h =
    let half : (2 * ones j + 1) / 2 ≡ ones j = omega arith in
    omega (
      arith,
      bit_and-halves x (2 * ones j + 1),
      bit_and-ones j (x / 2) (omega (arith, pow-suc 2 j)),
      ap (bit_and (x / 2)) half,
    )

-- Masking with `k` zeros below `j` ones rounds down to a multiple of `2 ^ k`.
pub bit_and-high_mask :
    (k j n x : ℕ) → k + j ≡ n → x < 2 ^ n → bit_and x (high_mask k j) ≡ x / 2 ^ k * 2 ^ k
unfolding high_mask
bit_and-high_mask zero j n x e h =
    let e' : n ≡ j = omega arith in
    omega (arith, bit_and-ones j x (omega (arith, ap (λ (t : ℕ). 2 ^ t) e')))
bit_and-high_mask (suc k) j zero x e h = absurd (omega arith)
bit_and-high_mask (suc k) j (suc n) x e h =
    let half : 2 * high_mask k j / 2 ≡ high_mask k j = omega arith in
    let below : x / 2 < 2 ^ n = omega (arith, pow-suc 2 n) in
    let quotient : x / 2 ^ suc k ≡ x / 2 / 2 ^ k =
      ap (λ (t : ℕ). x / t) (pow-succ' 2 k) ∙ sym (div-div-eq-div-mul x 2 (2 ^ k)) in
    rw (quotient, pow-suc 2 k)
      (omega (
        arith,
        bit_and-halves x (2 * high_mask k j),
        bit_and-high_mask k j n (x / 2) (omega arith) below,
        ap (bit_and (x / 2)) half,
      ))

bit_and_self : (n x : ℕ) → x ≤ n → bit_and x x ≡ x
bit_and_self n zero h = bit_and-bitwise 0 0
bit_and_self zero (suc x) h = absurd (omega arith)
bit_and_self (suc n) (suc x) h =
    omega (arith, bit_and-halves (suc x) (suc x), bit_and_self n (suc x / 2) (omega arith))

-- The last step of such a number: it is even, and its half is another.
halve : (x : ℕ) → 1 < x → bit_and x (x - 1) ≡ 0 → (x % 2 ≡ 0) × (bit_and (x / 2) (x / 2 - 1) ≡ 0)
halve x h e = elim (dec_lt (x % 2) 1) [
  | yes even ↦
      let half : (x - 1) / 2 ≡ x / 2 - 1 = omega arith in
      (omega arith, omega (arith, bit_and-halves x (x - 1), ap (bit_and (x / 2)) half))
  | no odd ↦
      let half : (x - 1) / 2 ≡ x / 2 = omega arith in
      absurd (
        omega (
          arith,
          bit_and-halves x (x - 1),
          ap (bit_and (x / 2)) half,
          bit_and_self (x / 2) (x / 2) (omega arith),
        ))
]

-- A number that shares no digit with its predecessor is a power of two.
pub pow2_of_bit_and :
    (n x : ℕ) → x < 2 ^ n → 0 < x → bit_and x (x - 1) ≡ 0 → (k : ℕ) × (k < n) × (x ≡ 2 ^ k)
pow2_of_bit_and zero x h p e = absurd (omega arith)
pow2_of_bit_and (suc n) x h p e = elim (dec_lt 1 x) [
  | no small ↦ (0, omega arith, omega arith)
  | yes big ↦
      let (even, e') = halve x big e in
      let below : x / 2 < 2 ^ n = omega (arith, pow-suc 2 n) in
      let (k, lt, is) = pow2_of_bit_and n (x / 2) below (omega arith) e' in
      (suc k, omega arith, omega (arith, pow-suc 2 k))
]
