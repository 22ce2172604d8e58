-- ===== src/Alarm.antt =====
-- source/alarm.cpp: the alarms and one pass of the thread that fires them. The `std::map` is an
-- association list in the order of its keys; `g_lock` makes each call and each pass atomic. Times
-- are `int64_t` ticks, taken as integers; the clock's reading is an argument.
pub mod Passes
pub mod Cancels
pub mod Scheduler
pub mod Counts
mod Tests
use coreinit_nx.Base.{
  ℕ, ◌*◌, ◌/◌, ◌%◌, ◌^◌, Bool, true, false, ◌&&◌, List, [], ◌∷◌, Option, none, some, ltb, ◌==◌,
  if◌then◌else◌, map,
}
use coreinit_nx.Base.Int.{ℤ, pos, negsuc, ◌+ℤ◌, ◌-ℤ◌, ltb_ℤ, leb_ℤ, eqb_ℤ}
use coreinit_nx.Handles.{find}

pub record HostAlarm : Type 0 where
  pub due : ℤ
  pub interval : ℤ
  pub callback : ℕ
  pub user_data : ℕ
  pub group : ℕ
  pub armed : Bool

abbrev pub fresh : HostAlarm
fresh = record {
  due = pos 0;
  interval = pos 0;
  callback = 0;
  user_data = 0;
  group = 0;
  armed = false;
}

abbrev pub Alarms : Type 0
Alarms = List (ℕ × HostAlarm)

-- `g_alarms[key]`, made on first use, changed in place.
pub at_key : ℕ → (HostAlarm → HostAlarm) → Alarms → Alarms
at_key key f [] = (key, f fresh) ∷ []
at_key key f ((k, h) ∷ t) =
    let rest = at_key key f t in
    if k == key
    then (k, f h) ∷ t
    else if ltb key k
    then (key, f fresh) ∷ (k, h) ∷ t
    else (k, h) ∷ rest

-- The alarm after a pass came by, and whether it fires.
pub visit : ℤ → HostAlarm → HostAlarm × Bool
visit now h =
    if h.armed && leb_ℤ h.due now
    then (
      if ltb_ℤ (pos 0) h.interval
          then record h { due = now +ℤ h.interval }
          else record h { armed = false },
      true,
    )
    else (h, false)

-- The nearest due time so far, 0 for none, with one more alarm.
pub nearer : ℤ → HostAlarm → ℤ
nearer nearest h =
    if h.armed
    then (if eqb_ℤ nearest (pos 0) then h.due else if ltb_ℤ h.due nearest then h.due else nearest)
    else nearest

-- What a pass over the alarms leaves: the alarms, those to call, in order, and the nearest due time.
pub record Pass : Type 0 where
  pub alarms : Alarms
  pub due : List (ℕ × ℕ)
  pub nearest : ℤ

pub scan : ℤ → ℤ → Alarms → Pass
unfolding visit
scan now nearest [] = record { alarms = []; due = []; nearest = nearest }
scan now nearest ((k, h) ∷ t) =
    let (h', fires) = visit now h in
    let rest = scan now (nearer nearest h') t in
    record {
      alarms = (k, h') ∷ rest.alarms;
      due = if fires then (k, h.callback) ∷ rest.due else rest.due;
      nearest = rest.nearest;
    }

-- What the thread does after a pass: calls the alarms, waits to be woken, or sleeps for nanoseconds.
pub data Turn : Type 0 where
  calls : (due : List (ℕ × ℕ)) → Turn
  waits : Turn
  sleeps : (ns : ℕ) → Turn

pub sleep_time : ℤ → ℕ
sleep_time (pos delta) = delta * 32000 % 2 ^ 64 / 1989
sleep_time (negsuc n) = 0

-- One turn of `schedulerLoop`, with the two readings of the clock.
pub turn : ℤ → ℤ → Alarms → Alarms × Turn
turn now later t =
    let p = scan now (pos 0) t in
    elim p.due [
      | d ∷ ds ↦ (p.alarms, calls (d ∷ ds))
      | [] ↦
          if eqb_ℤ p.nearest (pos 0)
          then (p.alarms, waits)
          else (p.alarms, sleeps (sleep_time (p.nearest -ℤ later)))
    ]

pub os_create_alarm : Alarms → ℕ → Alarms
os_create_alarm t alarm = if alarm == 0 then t else at_key alarm (λ h. fresh) t

pub os_set_periodic_alarm : Alarms → ℤ → ℕ → ℤ → ℤ → ℕ → Alarms × ℕ
os_set_periodic_alarm t now alarm first interval callback = if alarm == 0 then (t, 0) else (
  at_key alarm
      (λ h. record h { due = now +ℤ first; interval = interval; callback = callback; armed = true })
      t,
  1,
)

pub os_set_alarm : Alarms → ℤ → ℕ → ℤ → ℕ → Alarms × ℕ
os_set_alarm t now alarm time callback = if alarm == 0 then (t, 0) else (
  at_key alarm
      (λ h. record h { due = now +ℤ time; interval = pos 0; callback = callback; armed = true }) t,
  1,
)

pub os_cancel_alarm : Alarms → ℕ → Alarms × ℕ
os_cancel_alarm t alarm = if alarm == 0 then (t, 0) else elim (find alarm t) [
  | none ↦ (t, 0)
  | some h ↦ (at_key alarm (λ h. record h { armed = false }) t, if h.armed then 1 else 0)
]

pub disarm_group : ℕ → ℕ × HostAlarm → ℕ × HostAlarm
disarm_group group (k, h) = (k, if h.group == group then record h { armed = false } else h)

pub os_cancel_alarms : Alarms → ℕ → Alarms
os_cancel_alarms t group = map (disarm_group group) t

pub os_set_alarm_tag : Alarms → ℕ → ℕ → Alarms
os_set_alarm_tag t alarm group =
    if alarm == 0 then t else at_key alarm (λ h. record h { group = group }) t

pub os_set_alarm_user_data : Alarms → ℕ → ℕ → Alarms
os_set_alarm_user_data t alarm data' =
    if alarm == 0 then t else at_key alarm (λ h. record h { user_data = data' }) t

pub os_get_alarm_user_data : Alarms → ℕ → ℕ
os_get_alarm_user_data t alarm =
    if alarm == 0 then 0 else elim (find alarm t) [ none ↦ 0 | some h ↦ h.user_data ]

-- One turn of the loop of `OSWaitAlarm`: `none` is a thread that sleeps a millisecond and looks anew.
pub os_wait_alarm : Alarms → ℕ → Option ℕ
os_wait_alarm t alarm =
    if alarm == 0
    then some 0
    else elim (find alarm t) [ none ↦ some 1 | some h ↦ if h.armed then none else some 1 ]
