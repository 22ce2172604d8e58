-- ===== src/Align.antt =====
-- The alignment helpers that source/memexpheap.cpp and source/memfrmheap.cpp both define:
-- `isPow2`, `alignUp`, `alignDown` and `normaliseAlignment`, on 64-bit addresses and 32-bit
-- alignments. The two files hold the same text, so one definition serves both.
pub mod Laws
mod Tests
use coreinit_nx.Base.{ℕ, ◌+◌, ◌-◌, ◌%◌, ◌^◌, Bool, not, ◌&&◌, bit_and, ◌==◌, if◌then◌else◌}
use coreinit_nx.Base.Int.{ℤ, nat_abs, is_neg}

-- `v - 1` on a 32-bit word.
abbrev pub pred32 : ℕ → ℕ
pred32 v = (v + 2 ^ 32 - 1) % 2 ^ 32

-- `~x` on a 64-bit word.
abbrev pub not64 : ℕ → ℕ
not64 x = 2 ^ 64 - 1 - x

unfoldable pub is_pow2 : ℕ → Bool
is_pow2 v = not (v == 0) && bit_and v (pred32 v) == 0

unfoldable pub align_up : ℕ → ℕ → ℕ
align_up v a = bit_and ((v + a + 2 ^ 64 - 1) % 2 ^ 64) (not64 (pred32 a))

unfoldable pub align_down : ℕ → ℕ → ℕ
align_down v a = bit_and v (not64 (pred32 a))

-- The alignment to use, behind whether the request is from the far end of the region.
unfoldable pub normalise_alignment : ℤ → Bool × ℕ
normalise_alignment alignment =
    let a = nat_abs alignment in (is_neg alignment, if is_pow2 a then a else 4)
