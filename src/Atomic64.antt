-- ===== src/Atomic64.antt =====
-- source/atomic64.cpp: each call is one atomic intrinsic on a 64-bit word, given as the word before and
-- the word and the answer after. Signed words are taken by their bits.
use coreinit_nx.Base.{ℕ, ◌+◌, ◌-◌, ◌%◌, ◌^◌, not, bit_and, bit_or, bit_xor, ◌==◌, if◌then◌else◌}

pub os_get_atomic64 : ℕ → ℕ × ℕ
os_get_atomic64 x = (x, x)

pub os_set_atomic64 : ℕ → ℕ → ℕ × ℕ
os_set_atomic64 value x = (value, x)

pub os_compare_and_swap_atomic64 : ℕ → ℕ → ℕ → ℕ × ℕ
os_compare_and_swap_atomic64 compared value x = if x == compared then (value, 1) else (x, 0)

pub os_swap_atomic64 : ℕ → ℕ → ℕ × ℕ
os_swap_atomic64 value x = (value, x)

pub os_add_atomic64 : ℕ → ℕ → ℕ × ℕ
os_add_atomic64 value x = ((x + value) % 2 ^ 64, (x + value) % 2 ^ 64)

pub os_and_atomic64 : ℕ → ℕ → ℕ × ℕ
os_and_atomic64 value x = (bit_and x value, bit_and x value)

pub os_or_atomic64 : ℕ → ℕ → ℕ × ℕ
os_or_atomic64 value x = (bit_or x value, bit_or x value)

pub os_xor_atomic64 : ℕ → ℕ → ℕ × ℕ
os_xor_atomic64 value x = (bit_xor x value, bit_xor x value)

-- `1ull << (bit & 63)`.
abbrev pub mask_of : ℕ → ℕ
mask_of bit = 2 ^ bit_and bit 63

abbrev pub was_set : ℕ → ℕ → ℕ
was_set mask x = if not (bit_and x mask == 0) then 1 else 0

pub os_test_and_clear_atomic64 : ℕ → ℕ → ℕ × ℕ
os_test_and_clear_atomic64 bit x = (bit_and x (2 ^ 64 - 1 - mask_of bit), was_set (mask_of bit) x)

pub os_test_and_set_atomic64 : ℕ → ℕ → ℕ × ℕ
os_test_and_set_atomic64 bit x = (bit_or x (mask_of bit), was_set (mask_of bit) x)
