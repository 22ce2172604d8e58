-- ===== src/Alarm/Scheduler.antt =====
-- The thread of source/alarm.cpp beside the guest: it collects what is due under the lock and makes the
-- calls without it, so that guest calls may come in between. Each event is a section of the lock, one call, or
-- the end of the thread; `ensureThread`, which takes no lock, belongs to the call that makes it. One shutdown
-- runs at a time.
pub mod Runs
pub mod Once
pub mod Due
pub mod Pending
pub mod Leaving
pub mod Awaiting
pub mod Fires
mod Tests
use coreinit_nx.Base.{
  ℕ, zero, suc, ◌+◌, Bool, true, false, not, ◌&&◌, List, [], ◌∷◌, ◌++◌, Option, none, some, ◌==◌,
  if◌then◌else◌,
}
use coreinit_nx.Base.Int.{ℤ}
use coreinit_nx.Alarm.{
  Alarms, Turn, calls, waits, sleeps, turn, os_create_alarm, os_set_alarm, os_set_periodic_alarm,
  os_cancel_alarm, os_cancel_alarms, os_set_alarm_tag, os_set_alarm_user_data, os_wait_alarm,
}

-- Where `coreinitNxAlarmShutdown` is: not called, about to wait for the thread, or about to clear the map.
pub data Stage : Type 0 where
  idle joining clearing : Stage

-- The globals, whether the thread is in its loop, and where a shutdown is; `due` holds the calls of the vector that are still to be made, `called` those made so far.
pub record Scheduler : Type 0 where
  pub alarms : Alarms
  pub inited : Bool
  pub started : Bool
  pub running : Bool
  pub stop : Bool
  pub stage : Stage
  pub due : List (ℕ × ℕ)
  pub called : List (ℕ × ℕ)

abbrev pub start : Scheduler
start = record {
  alarms = [];
  inited = false;
  started = false;
  running = false;
  stop = false;
  stage = idle;
  due = [];
  called = [];
}

-- `ensureThread`, with whether Horizon creates and starts the thread.
pub ensure_thread : Bool → Scheduler → Scheduler
ensure_thread starts s = if s.started then s else record s { started = starts; running = starts }

-- What the guest calls, with the reading of the clock where the call reads it, and what the thread does.
pub data Event : Type 0 where
  creates : (alarm : ℕ) → Event
  sets : (starts : Bool) (now : ℤ) (alarm : ℕ) (time : ℤ) (callback : ℕ) → Event
  repeats : (starts : Bool) (now : ℤ) (alarm : ℕ) (first interval : ℤ) (callback : ℕ) → Event
  cancels : (alarm : ℕ) → Event
  cancels_group : (group : ℕ) → Event
  tags : (alarm group : ℕ) → Event
  puts_user_data : (alarm value : ℕ) → Event
  passes : (now later : ℤ) → Event
  calls_next : Event
  ends : Event
  shuts_down : Event

-- A guest call on an alarm: a null pointer changes nothing, any other sets up the lock.
abbrev pub guest : ℕ → Scheduler → Alarms → Scheduler
guest alarm s t = if alarm == 0 then s else record s { alarms = t; inited = true }

abbrev pub collected : Turn → List (ℕ × ℕ)
collected (calls d) = d
collected waits = []
collected (sleeps ns) = []

-- A pass of the thread, once it runs and has made the calls of the pass before, and is not to stop.
pub pass : ℤ → ℤ → Scheduler → Scheduler
pass now later s = elim s.due [
  | d ∷ ds ↦ s
  | [] ↦
      if not (s.running && not s.stop)
      then s
      else let (t, next) = turn now later s.alarms in record s { alarms = t; due = collected next }
]

abbrev pub calling : ℕ × ℕ → List (ℕ × ℕ)
calling (alarm, callback) = if callback == 0 then [] else (alarm, callback) ∷ []

-- The next call of the vector, if its callback is not null.
pub call_next : Scheduler → Scheduler
call_next s = elim s.due [ [] ↦ s | d ∷ ds ↦ record s { due = ds; called = s.called ++ calling d } ]

-- The end of the thread: once it is to stop, after the calls that it collected.
pub end_thread : Scheduler → Scheduler
end_thread s = elim s.due [
  | d ∷ ds ↦ s
  | [] ↦ if s.running && s.stop then record s { running = false } else s
]

-- The three parts of `coreinitNxAlarmShutdown`, which gives up the lock after each.
pub shutdown_begins : Scheduler → Scheduler
shutdown_begins s = if not s.inited then s else record s { stop = true; stage = joining }

-- A shutdown waits here for a thread that runs.
pub shutdown_joins : Scheduler → Scheduler
shutdown_joins s =
    if s.started
    then (if s.running then s else record s { started = false; stage = clearing })
    else record s { stage = clearing }

pub shutdown_clears : Scheduler → Scheduler
shutdown_clears s = record s { alarms = []; stop = false; stage = idle }

-- The next part of a shutdown.
pub alarm_shutdown : Scheduler → Scheduler
alarm_shutdown s = elim s.stage [
  | idle ↦ shutdown_begins s
  | joining ↦ shutdown_joins s
  | clearing ↦ shutdown_clears s
]

pub step : Scheduler → Event → Scheduler
step s (creates alarm) = guest alarm s (os_create_alarm s.alarms alarm)
step s (sets starts now alarm time callback) =
    if alarm == 0
    then s
    else ensure_thread starts (guest alarm s (os_set_alarm s.alarms now alarm time callback).0)
step s (repeats starts now alarm first interval callback) =
    if alarm == 0
    then s
    else ensure_thread starts
        (guest alarm s (os_set_periodic_alarm s.alarms now alarm first interval callback).0)
step s (cancels alarm) = guest alarm s (os_cancel_alarm s.alarms alarm).0
step s (cancels_group group) = record s { alarms = os_cancel_alarms s.alarms group; inited = true }
step s (tags alarm group) = guest alarm s (os_set_alarm_tag s.alarms alarm group)
step s (puts_user_data alarm value) = guest alarm s (os_set_alarm_user_data s.alarms alarm value)
step s (passes now later) = pass now later s
step s calls_next = call_next s
step s ends = end_thread s
step s shuts_down = alarm_shutdown s

pub run : Scheduler → List Event → Scheduler
run s [] = s
run s (e ∷ es) = run (step s e) es

-- `OSWaitAlarm` over what it finds each time that it looks: with none left it still waits.
pub wait_alarm : ℕ → List Alarms → Option ℕ
wait_alarm alarm [] = none
wait_alarm alarm (t ∷ ts) =
    let rest = wait_alarm alarm ts in
    elim (os_wait_alarm t alarm) [ some answer ↦ some answer | none ↦ rest ]
