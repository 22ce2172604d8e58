-- ===== src/Base/Text.antt =====
-- Text literals of the source as lists of characters.
use Prim.Native.Char.{code}
use Prim.Native.String.{String}
use coreinit_nx.Base.{ℕ, List, [], ◌∷◌}

abbrev pub codes : String → List ℕ
codes String.[] = []
codes (String.◌∷◌ c s) = code c ∷ codes s
