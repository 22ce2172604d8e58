-- ===== src/Alarm/Scheduler/Tests.antt =====
-- An alarm that is set at 5 for 2 ticks on, fires, and is set again; one that is cancelled too late.
use coreinit_nx.Base.{length, replicate, arith, ℕ, false, ◌<◌, ◌≤◌, ◌≡◌, refl, true, List, [], ◌∷◌}
use coreinit_nx.Base.Int.{pos, leb_ℤ, ◌+ℤ◌}
use coreinit_nx.Alarm.{fresh}
use coreinit_nx.Alarm.Scheduler.{
  Scheduler, Event, sets, passes, calls_next, cancels, tags, ends, shuts_down, idle, call_next,
  start, step, run, pass, end_thread, alarm_shutdown, shutdown_begins, shutdown_joins,
  shutdown_clears,
}
use coreinit_nx.Alarm.Scheduler.Runs.{times_set}
use coreinit_nx.Alarm.Counts.{count_at}
use coreinit_nx.Alarm.Scheduler.Fires.{set_alarm_fires}
use coreinit_nx.Alarm.Scheduler.Leaving.{known_calls}
use coreinit_nx.Alarm.Scheduler.Pending.{count_call}
use coreinit_nx.Alarm.Scheduler.Once.{run_once}

abbrev twice : List Event
twice =
    sets true (pos 5) 0x10 (pos 2) 0x40
    ∷ passes (pos 6) (pos 6)
    ∷ passes (pos 7) (pos 7)
    ∷ calls_next
    ∷ passes (pos 8) (pos 8)
    ∷ sets true (pos 9) 0x10 (pos 2) 0x40
    ∷ passes (pos 11) (pos 11)
    ∷ calls_next
    ∷ []

run_once_example : count_at 0x10 (run start twice).called ≤ times_set 0x10 twice
run_once_example = run_once 0x10 twice (tt, (tt, (tt, (tt, (tt, (tt, (tt, (tt, tt))))))))

abbrev busy : Scheduler
busy = record {
  alarms = (0x10, record fresh { due = pos 5; callback = 0x40; armed = true }) ∷ (0x20, fresh) ∷ [];
  inited = true;
  started = true;
  running = true;
  stop = false;
  stage = idle;
  due = [];
  called = [];
}

abbrev late : Scheduler
late = record busy { due = (0x10, 0x40) ∷ [] }

called_after_cancel : (run late (cancels 0x10 ∷ calls_next ∷ [])).called ≡ (0x10, 0x40) ∷ []
unfolding run step call_next
called_after_cancel = refl

set_alarm_due : leb_ℤ (pos 5 +ℤ pos 2) (pos 8) ≡ true
unfolding ◌+ℤ◌
set_alarm_due = refl

-- A pass too early, which calls the other alarm, and calls on that one.
abbrev meanwhile : List Event
meanwhile =
    passes (pos 6) (pos 6)
    ∷ sets true (pos 6) 0x10 (pos 9) 0x40
    ∷ tags 0x20 3
    ∷ calls_next
    ∷ cancels 0x10
    ∷ ends
    ∷ []

set_alarm_fires_example :
    let c : ℕ × ℕ = (0x20, 0x50) in
    let s1 = run (step busy (sets true (pos 5) 0x20 (pos 2) 0x50)) meanwhile in
    let s2 = run s1 (replicate (length s1.due) calls_next) in
    let s3 = step s2 (passes (pos 8) (pos 8)) in
    let s4 = run s3 (replicate (length s3.due) calls_next) in
    known_calls c busy < count_call c s4.called
set_alarm_fires_example =
    set_alarm_fires busy (pos 5) (pos 2) (pos 8) (pos 8) 0x20 0x50 meanwhile (omega arith)
      (omega arith) refl refl (tt, (omega arith, (tt, (tt, (omega arith, (tt, tt)))))) set_alarm_due

-- A shutdown waits for the thread, which ends first, and a thread that is told to stop makes no pass.
abbrev stopping : List Event
stopping = shuts_down ∷ shuts_down ∷ passes (pos 8) (pos 8) ∷ ends ∷ shuts_down ∷ shuts_down ∷ []

stopped :
    ((run busy stopping).called ≡ [])
    × ((run busy stopping).alarms ≡ [])
    × ((run busy stopping).started ≡ false)
unfolding run step pass end_thread alarm_shutdown shutdown_begins shutdown_joins shutdown_clears
stopped = (refl, refl, refl)
