-- ===== src/Alarm/Scheduler/Runs.antt =====
-- What each event does to the calls of an alarm: those made, those to make and those it may still lead to.
use coreinit_nx.Base.{
  ℕ, ◌+◌, ◌≤◌, ◌≡◌, refl, inl, inr, Bool, true, false, List, [], ◌∷◌, ◌==◌, if◌then◌else◌,
  Bool-cases, Option-cases, arith,
}
use coreinit_nx.Base.Int.{ℤ, pos, ltb_ℤ, eqb_ℤ, ◌+ℤ◌, ◌-ℤ◌}
use coreinit_nx.Handles.{find}
use coreinit_nx.Alarm.{
  HostAlarm, Alarms, fresh, at_key, scan, Turn, calls, waits, sleeps, turn, sleep_time,
  os_create_alarm, os_set_alarm, os_set_periodic_alarm, os_cancel_alarm, os_set_alarm_tag,
  os_set_alarm_user_data,
}
use coreinit_nx.Alarm.Cancels.{AllAt}
use coreinit_nx.Alarm.Scheduler.{Scheduler, Event, sets, repeats, guest, ensure_thread, collected}
use coreinit_nx.Alarm.Counts.{
  one_if, count_at, armed_at, IsOnce, IsDisarming, armed_at-at_key, armed_at-disarming, AllAt-kept,
}

-- The times that a run sets an alarm.
abbrev pub set_by : ℕ → Event → ℕ
set_by a (sets starts now alarm time callback) = one_if (alarm == a)
set_by a (repeats starts now alarm first interval callback) = one_if (alarm == a)
set_by a _ = 0

abbrev pub times_set : ℕ → List Event → ℕ
times_set a [] = 0
times_set a (e ∷ es) = set_by a e + times_set a es

-- It never sets the alarm to repeat.
abbrev pub NeverRepeats : ℕ → Event → Type 0
NeverRepeats a (repeats starts now alarm first interval callback) =
    alarm ≡ a → ltb_ℤ (pos 0) interval ≡ false
NeverRepeats a _ = Unit

-- The calls made, those to make, and the one that an armed alarm may still lead to.
abbrev pub total : ℕ → Scheduler → ℕ
total a s = count_at a s.called + (count_at a s.due + armed_at a s.alarms)

abbrev pub OnceAt : ℕ → Scheduler → Type 0
OnceAt a s = AllAt a IsOnce s.alarms

-- What a step may do: the total grows by at most a number, and the alarm still does not repeat.
abbrev pub Grows : ℕ → ℕ → Scheduler → Scheduler → Type 0
Grows a n s s' = (total a s' ≤ total a s + n) × OnceAt a s'

pub guest-Grows :
    (a n alarm : ℕ) (s : Scheduler) (t : Alarms)
    → OnceAt a s
    → armed_at a t ≤ armed_at a s.alarms + n
    → AllAt a IsOnce t
    → Grows a n s (guest alarm s t)
guest-Grows a n alarm s t o le k = elim (Bool-cases (alarm == 0)) [
  | inl e ↦ rw e (omega arith, o)
  | inr e ↦ rw e (omega arith, k)
]

ensured :
    (starts : Bool) (a n : ℕ) (s s' : Scheduler)
    → Grows a n s s'
    → Grows a n s (ensure_thread starts s')
unfolding ensure_thread
ensured starts a n s s' g = elim (Bool-cases s'.started) [ inl e ↦ rw e g | inr e ↦ rw e g ]

-- A call that changes one alarm, without arming it.
pub quiet-Grows :
    (a alarm : ℕ) (f : HostAlarm → HostAlarm) (s : Scheduler)
    → IsDisarming f
    → ((h : HostAlarm) → IsOnce h → IsOnce (f h))
    → OnceAt a s
    → Grows a 0 s (guest alarm s (at_key alarm f s.alarms))
quiet-Grows a alarm f s d k o =
    guest-Grows a 0 alarm s (at_key alarm f s.alarms) o
      (omega (arith, armed_at-disarming a alarm f s.alarms d))
      (AllAt-kept a alarm IsOnce f s.alarms refl (λ h e. k h) o)

-- One that sets it.
pub set-Grows :
    (a alarm : ℕ) (f : HostAlarm → HostAlarm) (s : Scheduler)
    → ((h : HostAlarm) → alarm ≡ a → IsOnce h → IsOnce (f h))
    → OnceAt a s
    → Grows a (one_if (alarm == a)) s (guest alarm s (at_key alarm f s.alarms))
set-Grows a alarm f s k o =
    guest-Grows a (one_if (alarm == a)) alarm s (at_key alarm f s.alarms) o
      (armed_at-at_key a alarm f s.alarms) (AllAt-kept a alarm IsOnce f s.alarms refl k o)

pub cancel-Grows :
    (a alarm : ℕ) (s : Scheduler)
    → OnceAt a s
    → Grows a 0 s (guest alarm s (os_cancel_alarm s.alarms alarm).0)
unfolding os_cancel_alarm
cancel-Grows a alarm s o = elim (Bool-cases (alarm == 0)) [
  | inl e ↦ rw e (omega arith, o)
  | inr e ↦ elim (Option-cases (find alarm s.alarms)) [
    | inl n ↦ rw (e, n) (omega arith, o)
    | inr (h, g) ↦
        let (le, k) =
          quiet-Grows a alarm (λ h. record h { armed = false }) s (λ h x. absurd (cc)) (λ h x. x)
            o in
        rw (e, g) (simp e at le, simp e at k)
  ]
]

pub create_lem :
    (s : Scheduler) (alarm : ℕ)
    → guest alarm s (os_create_alarm s.alarms alarm)
      ≡ guest alarm s (at_key alarm (λ h. fresh) s.alarms)
unfolding os_create_alarm
create_lem s alarm = ground arith

pub tag_lem :
    (s : Scheduler) (alarm group : ℕ)
    → guest alarm s (os_set_alarm_tag s.alarms alarm group)
      ≡ guest alarm s (at_key alarm (λ h. record h { group = group }) s.alarms)
unfolding os_set_alarm_tag
tag_lem s alarm group = ground arith

pub user_data_lem :
    (s : Scheduler) (alarm value : ℕ)
    → guest alarm s (os_set_alarm_user_data s.alarms alarm value)
      ≡ guest alarm s (at_key alarm (λ h. record h { user_data = value }) s.alarms)
unfolding os_set_alarm_user_data
user_data_lem s alarm value = ground arith

pub set_lem :
    (s : Scheduler) (now : ℤ) (alarm : ℕ) (time : ℤ) (callback : ℕ)
    → guest alarm s (os_set_alarm s.alarms now alarm time callback).0
      ≡ guest alarm s (
          at_key alarm
            (λ h. record h {
              due = now +ℤ time;
              interval = pos 0;
              callback = callback;
              armed = true;
            })
            s.alarms)
unfolding os_set_alarm
set_lem s now alarm time callback = ground arith

pub repeat_lem :
    (s : Scheduler) (now : ℤ) (alarm : ℕ) (first interval : ℤ) (callback : ℕ)
    → guest alarm s (os_set_periodic_alarm s.alarms now alarm first interval callback).0
      ≡ guest alarm s (
          at_key alarm
            (λ h. record h {
              due = now +ℤ first;
              interval = interval;
              callback = callback;
              armed = true;
            })
            s.alarms)
unfolding os_set_periodic_alarm
repeat_lem s now alarm first interval callback = ground arith

-- Null or not, a call that sets an alarm.
pub started_by :
    (a n alarm : ℕ) (starts : Bool) (s s' : Scheduler)
    → OnceAt a s
    → Grows a n s s'
    → Grows a n s (if alarm == 0 then s else ensure_thread starts s')
started_by a n alarm starts s s' o g = elim (Bool-cases (alarm == 0)) [
  | inl e ↦ rw e (omega arith, o)
  | inr e ↦ rw e (ensured starts a n s s' g)
]

-- A turn makes the list of calls that its pass found.
pub turned :
    (P : Alarms → List (ℕ × ℕ) → Type 0) (now later : ℤ) (t : Alarms)
    → P (scan now (pos 0) t).alarms (scan now (pos 0) t).due
    → P (turn now later t).0 (collected (turn now later t).1)
unfolding turn
turned P now later t h =
    let p = scan now (pos 0) t in
    elim p.due
        as (λ ds.
          P p.alarms ds
          → let r : Alarms × Turn = elim ds [
            | d ∷ ds ↦ (p.alarms, calls (d ∷ ds))
            | [] ↦
                if eqb_ℤ p.nearest (pos 0)
                then (p.alarms, waits)
                else (p.alarms, sleeps (sleep_time (p.nearest -ℤ later)))
          ] in
            P r.0 (collected r.1)) [
              | d ∷ ds ↦ λ g. g
              | [] ↦ λ g.
                  elim (eqb_ℤ p.nearest (pos 0))
                    as (λ b.
                      let r : Alarms × Turn =
                        if b
                        then (p.alarms, waits)
                        else (p.alarms, sleeps (sleep_time (p.nearest -ℤ later))) in
                      P r.0 (collected r.1)) [ true ↦ g | false ↦ g ]
            ]
      h
