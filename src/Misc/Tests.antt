-- ===== src/Misc/Tests.antt =====
-- Two callbacks for one type, with others in between.
use coreinit_nx.Base.{ℕ, List, [], ◌∷◌}
use coreinit_nx.Base.Int.{ℤ, pos}

abbrev earlier : List (ℤ × ℕ)
earlier = (pos 3, 0x40) ∷ (pos 14, 0x50) ∷ (pos 15, 0x60) ∷ []
