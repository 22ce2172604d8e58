-- ===== src/Debug/Tests.antt =====
-- A report that is longer than the buffer, and a panic.
use coreinit_nx.Base.{◌≡◌, refl, some, none, [], ◌∷◌}
use coreinit_nx.Base.Int.{pos}
use coreinit_nx.Debug.{to_sink, emit}

long_report :
    emit (record { sink = none; fatal = none }) (pos 3000) (104 ∷ [])
    ≡ some (to_sink none (104 ∷ []) 1023)
unfolding emit
long_report = refl
