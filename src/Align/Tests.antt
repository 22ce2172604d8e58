-- ===== src/Align/Tests.antt =====
-- The alignment helpers at some addresses.
use coreinit_nx.Base.{◌≡◌, refl, true}
use coreinit_nx.Base.Int.{negsuc}
use coreinit_nx.Align.{normalise_alignment, is_pow2}

-- A number that is no power of two counts as 4.
normalise_alignment_odd : normalise_alignment (negsuc 11) ≡ (true, 4)
unfolding normalise_alignment is_pow2
normalise_alignment_odd = refl
