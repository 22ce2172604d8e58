-- ===== src/Thread/Mapping.antt =====
-- What a thread of the game gets of Horizon: its priority and its stack.
use coreinit_nx.Base.{
  ℕ, ◌+◌, ◌-◌, ◌*◌, ◌/◌, ◌^◌, ◌≤◌, ◌<◌, ◌≡◌, refl, ap, false, ltb, if◌then◌else◌, arith,
}
use native.Mathlib.Nat.{add-mul}
use coreinit_nx.Base.Int.{ℤ, pos, negsuc, ◌+ℤ◌, ◌-ℤ◌, ◌≤ℤ◌}
use coreinit_nx.Align.Laws.{IsAligned, align_up-least}
use coreinit_nx.Thread.{clamp, map_priority, host_stack_size, page_size, min_host_stack}

clamp-le : (p : ℤ) → clamp p ≤ 31
unfolding clamp
clamp-le (pos p) = ground arith
clamp-le (negsuc n) = omega arith

clamp_mono : (p p' : ℤ) → p ≤ℤ p' → clamp p ≤ clamp p'
unfolding clamp
clamp_mono (pos p) (pos p') l = ground arith
clamp_mono (pos p) (negsuc n) l = absurd (omega arith)
clamp_mono (negsuc n) p' l = omega arith

span_pos : (q : ℕ) → q ≤ 63 → pos 0x3F -ℤ pos q ≡ pos (63 - q)
unfolding ◌-ℤ◌
span_pos q l = ground arith

add_pos : (a b : ℕ) → pos a +ℤ pos b ≡ pos (a + b)
unfolding ◌+ℤ◌
add_pos a b = ground arith

map_priority_pos :
    (q : ℕ) (p : ℤ) → q ≤ 63 → map_priority (pos q) p ≡ pos (q + clamp p * (63 - q) / 31)
unfolding map_priority
map_priority_pos q p l =
    let up : ltb (63 - q + 0) 0 ≡ false = ground arith in
    rw (span_pos q l) (rw up (add_pos q (clamp p * (63 - q) / 31)))

mul_mono : (c d s : ℕ) → c ≤ d → c * s ≤ d * s
mul_mono c d s l =
    let split = add-mul c (d - c) s in
    let whole : (c + (d - c)) * s ≡ d * s = ap (λ x. x * s) (omega arith) in omega arith

-- Every priority of the game becomes one that Horizon allows a process whose own priority is at
-- most 0x3F: from the process's own to 0x3F.
pub map_priority-bounds :
    (q : ℕ) (p : ℤ)
    → q ≤ 63
    → (pos q ≤ℤ map_priority (pos q) p) × (map_priority (pos q) p ≤ℤ pos 63)
map_priority-bounds q p l =
    let scaled = mul_mono (clamp p) 31 (63 - q) (clamp-le p) in
    rw (map_priority_pos q p l) (omega arith, omega arith)

-- For a process whose priority is at most 0x3F, a lower number of the game's never becomes a
-- higher number of Horizon's.
pub map_priority_mono :
    (q : ℕ) (p p' : ℤ) → q ≤ 63 → p ≤ℤ p' → map_priority (pos q) p ≤ℤ map_priority (pos q) p'
map_priority_mono q p p' l k =
    let scaled = mul_mono (clamp p) (clamp p') (63 - q) (clamp_mono p p' k) in
    rw (map_priority_pos q p l) (rw (map_priority_pos q p' l) (omega arith))

-- A stack of Horizon is whole pages, and no smaller than the game's or than 64 KB.
pub host_stack_size_lem :
    (n : ℕ)
    → n < 2 ^ 32
    → IsAligned page_size (host_stack_size n)
      × (n ≤ host_stack_size n)
      × (min_host_stack ≤ host_stack_size n)
unfolding host_stack_size
host_stack_size_lem n l =
    let m = if ltb n min_host_stack then min_host_stack else n in
    let bound : (n ≤ m) × (min_host_stack ≤ m) × (m + page_size ≤ 2 ^ 64) = ground arith in
    let (whole, least, _) = align_up-least m page_size (12, omega arith, refl) bound.2 in
    (whole, omega (arith, least, bound.0), omega (arith, least, bound.1))
