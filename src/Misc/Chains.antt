-- ===== src/Misc/Chains.antt =====
-- Setting callbacks for exceptions, one after the other.
use coreinit_nx.Base.{ℕ, Bool, false, List, [], ◌∷◌, ltb, if◌then◌else◌}
use coreinit_nx.Base.Int.{ℤ, pos, negsuc, eqb_ℤ}
use coreinit_nx.Misc.{os_set_exception_callback}

-- Whether a type is one of the 15.
abbrev pub is_known : ℤ → Bool
is_known (pos i) = ltb i 15
is_known (negsuc n) = false

abbrev pub set_all : List ℕ → List (ℤ × ℕ) → List ℕ
set_all handlers [] = handlers
set_all handlers ((type, callback) ∷ calls) =
    set_all (os_set_exception_callback handlers type callback).0 calls

-- The last callback that was set for a type, or one given.
abbrev pub last_set : ℤ → ℕ → List (ℤ × ℕ) → ℕ
last_set type current [] = current
last_set type current ((t, callback) ∷ calls) =
    last_set type (if eqb_ℤ t type then callback else current) calls
