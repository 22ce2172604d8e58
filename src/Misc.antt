-- ===== src/Misc.antt =====
-- source/misc.cpp: the flag of the HOME button, the callbacks for exceptions, the compare and swap that
-- reports what it found, and the environment. The calls with no effect on a state (a yield, a barrier, the
-- foreground) have no model. What `getenv` answers is an argument.
pub mod Chains
mod Tests
use coreinit_nx.Base.{
  ℕ, ◌+◌, ◌-◌, Bool, true, false, not, ◌||◌, List, [], ◌∷◌, Option, none, some, leb, ltb, ◌==◌,
  if◌then◌else◌, get_or, set, take, replicate,
}
use coreinit_nx.Base.Int.{ℤ, pos, negsuc, eqb_ℤ}

-- `OSCompareAndSwapAtomicEx64` on a word: what it holds then, whether it was swapped, and what was found.
pub os_compare_and_swap_atomic_ex64 : ℕ → ℕ → ℕ → ℕ × ℕ × ℕ
os_compare_and_swap_atomic_ex64 compared value x =
    if x == compared then (value, 1, compared) else (x, 0, x)

pub os_enable_home_button_menu : Bool → ℤ → Bool × ℕ
os_enable_home_button_menu enabled enable = (not (eqb_ℤ enable (pos 0)), if enabled then 1 else 0)

pub os_is_home_button_menu_enabled : Bool → ℕ
os_is_home_button_menu_enabled enabled = if enabled then 1 else 0

-- `kExceptionTypes` and `g_exceptionHandlers`, where 0 is null.
abbrev pub exception_types : ℕ
exception_types = 15

abbrev pub no_handlers : List ℕ
no_handlers = replicate exception_types 0

-- `OSSetExceptionCallback`, with the callback that was there before.
pub os_set_exception_callback : List ℕ → ℤ → ℕ → List ℕ × ℕ
os_set_exception_callback handlers (negsuc n) callback = (handlers, 0)
os_set_exception_callback handlers (pos i) callback =
    if leb exception_types i then (handlers, 0) else (set handlers i callback, get_or handlers i 0)

-- `ENVGetEnvironmentVariable`, with whether the name and the buffer are there: its answer, and the text
-- that it leaves in the buffer, if it touches it.
pub env_get_environment_variable : Bool → Bool → ℕ → Option (List ℕ) → ℕ × Option (List ℕ)
env_get_environment_variable name buffer size found =
    if not name || not buffer || size == 0
    then (0, none)
    else elim found [ none ↦ (0, some []) | some value ↦ (1, some (take (size - 1) value)) ]
