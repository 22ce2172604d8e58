-- ===== src/LockedCache/Tests.antt =====
-- The locked cache with one block of 256 bytes.
use coreinit_nx.Base.{◌≡◌, refl, true, [], ◌∷◌}
use coreinit_nx.LockedCache.{LockedCache, lc_alloc}

abbrev held : LockedCache
held = record { blocks = (0x8000, 256) ∷ []; allocated = 256; dma_enabled = true }

too_much : lc_alloc held 0x4000 0x9000 ≡ (held, 0)
unfolding lc_alloc
too_much = refl
