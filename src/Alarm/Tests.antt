-- ===== src/Alarm/Tests.antt =====
-- Three alarms: one due, one that repeats and one that is off.
use coreinit_nx.Base.{◌≡◌, ◌⊎◌, inl, refl, true, [], ◌∷◌, All, arith}
use coreinit_nx.Base.Int.{pos}
use coreinit_nx.Alarm.{HostAlarm, Alarms, fresh, scan}
use coreinit_nx.Alarm.Passes.{IsBy, IsServed, AnyDue, scan_nearest}

abbrev once : HostAlarm
once = record fresh { due = pos 5; callback = 1; armed = true }

abbrev repeats : HostAlarm
repeats = record fresh { due = pos 9; interval = pos 3; callback = 2; armed = true }

abbrev three : Alarms
three = (0x10, once) ∷ (0x20, repeats) ∷ (0x30, fresh) ∷ []

scan_nearest_example :
    let p = scan (pos 7) (pos 0) three in
    IsBy p.nearest (pos 0)
    × All (λ e. IsServed p.nearest e.1) p.alarms
    × ((p.nearest ≡ pos 0) ⊎ AnyDue p.nearest p.alarms)
scan_nearest_example = scan_nearest (pos 7) three (pos 0) (omega arith) (inl refl)
