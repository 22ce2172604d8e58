-- ===== src/Alarm/Scheduler/Due.antt =====
-- What a pass collects, and how a wait for an alarm ends.
use coreinit_nx.Base.{
  ℕ, ◌≡◌, ◌≢◌, refl, sym, subst, inl, inr, Bool, true, false, ◌&&◌, List, [], ◌∷◌, Option, none,
  some, if◌then◌else◌, Option-cases, arith,
}
use coreinit_nx.Base.Int.{ℤ, pos, leb_ℤ}
use coreinit_nx.Handles.{find}
use coreinit_nx.Alarm.{HostAlarm, Alarms, visit, nearer, scan, os_wait_alarm}
use coreinit_nx.Alarm.Scheduler.{Scheduler, pass, wait_alarm}
use coreinit_nx.Alarm.Scheduler.Runs.{turned}

-- The alarms that are armed and due, in the order of the map, with their callbacks.
abbrev pub due_now : ℤ → Alarms → List (ℕ × ℕ)
due_now now [] = []
due_now now ((k, h) ∷ t) =
    if h.armed && leb_ℤ h.due now then (k, h.callback) ∷ due_now now t else due_now now t

visit_fires : (now : ℤ) (h : HostAlarm) → (visit now h).1 ≡ (h.armed && leb_ℤ h.due now)
unfolding visit
visit_fires now h = ground arith

pub scan_due : (now m : ℤ) (t : Alarms) → (scan now m t).due ≡ due_now now t
unfolding scan
scan_due now m [] = refl
scan_due now m ((k, h) ∷ t) = rw (visit_fires now h, scan_due now (nearer m (visit now h).0) t)

-- When the thread runs, is not to stop and has made the calls of the pass before, a pass collects just the alarms that are
-- armed and due at its reading of the clock, each with its callback, in the order of their addresses.
pub pass_collects :
    (now later : ℤ) (s : Scheduler)
    → s.running ≡ true
    → s.stop ≡ false
    → s.due ≡ []
    → (pass now later s).due ≡ due_now now s.alarms
unfolding pass
pass_collects now later s r q d =
    rw (d, r, q)
      (turned (λ t ds. ds ≡ due_now now s.alarms) now later s.alarms
        (scan_due now (pos 0) s.alarms))

abbrev pub is_armed : ℕ → Alarms → Bool
is_armed alarm t = elim (find alarm t) [ none ↦ false | some h ↦ h.armed ]

abbrev pub some_unarmed : ℕ → List Alarms → Bool
some_unarmed alarm [] = false
some_unarmed alarm (t ∷ ts) = if is_armed alarm t then some_unarmed alarm ts else true

wait_once :
    (alarm : ℕ) (t : Alarms)
    → alarm ≢ 0
    → os_wait_alarm t alarm ≡ (if is_armed alarm t then none else some 1)
unfolding os_wait_alarm
wait_once alarm t n = elim (Option-cases (find alarm t)) [
  | inl e ↦ rw e (ground arith)
  | inr (h, e) ↦ rw e (ground arith)
]

looked :
    (rest : Option ℕ) (armed later : Bool)
    → rest ≡ (if later then some 1 else none)
    → let found : Option ℕ = if armed then none else some 1 in
      elim found [ some answer ↦ some answer | none ↦ rest ]
      ≡ (if (if armed then later else true) then some 1 else none)
looked rest true later e = e
looked rest false later e = refl

-- Of an alarm that is not null, `OSWaitAlarm` answers 1 if it finds the alarm not armed one of the times
-- that it looks, and waits on if it does not.
pub wait_alarm_lem :
    (alarm : ℕ) (looks : List Alarms)
    → alarm ≢ 0
    → wait_alarm alarm looks ≡ (if some_unarmed alarm looks then some 1 else none)
unfolding wait_alarm
wait_alarm_lem alarm [] n = refl
wait_alarm_lem alarm (t ∷ ts) n =
    subst
      (λ (o : Option ℕ).
        elim o [ some answer ↦ some answer | none ↦ wait_alarm alarm ts ]
        ≡ (if some_unarmed alarm (t ∷ ts) then some 1 else none))
      (sym (wait_once alarm t n))
      (looked (wait_alarm alarm ts) (is_armed alarm t) (some_unarmed alarm ts)
        (wait_alarm_lem alarm ts n))
