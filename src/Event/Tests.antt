-- ===== src/Event/Tests.antt =====
-- An event that a wait resets.
use coreinit_nx.Base.{◌≡◌, refl, true, false, List, [], ◌∷◌}
use coreinit_nx.Event.{HostEvent, signal_all}
use coreinit_nx.Event.Waking.{Attempt, signals_all, resets, waits, run, signal_all_strands}

abbrev automatic : HostEvent
automatic = record { signalled = false; auto_reset = true }

abbrev attempts : List Attempt
attempts = waits ∷ waits ∷ signals_all ∷ waits ∷ resets ∷ waits ∷ []

signal_all_strands_example :
    ((run (signal_all automatic) attempts).passed ≡ 0)
    × ((run (signal_all automatic) attempts).event.signalled ≡ false)
signal_all_strands_example =
    signal_all_strands automatic attempts refl (tt, (tt, (tt, (tt, (tt, (tt, tt))))))
