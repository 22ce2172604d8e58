-- ===== src/Alarm/Scheduler/Fires.antt =====
-- An alarm from its setting to its call.
use coreinit_nx.Base.{
  ℕ, zero, suc, ◌≤◌, ◌<◌, ◌≡◌, ◌≢◌, refl, sym, ap, subst, inl, inr, true, false, not, ◌&&◌,
  if◌then◌else◌, List, [], ◌∷◌, ◌++◌, All, ◌==◌, Bool-cases, length, replicate, arith,
}
use coreinit_nx.Base.Int.{ℤ, pos, leb_ℤ, ◌+ℤ◌}
use coreinit_nx.Alarm.{HostAlarm, at_key, turn, os_set_alarm}
use coreinit_nx.Alarm.Scheduler.{
  Scheduler, Event, sets, passes, calls_next, step, run, ensure_thread, pass, call_next, calling,
  collected,
}
use coreinit_nx.Alarm.Scheduler.Due.{scan_due, pass_collects}
use coreinit_nx.Alarm.Scheduler.Pending.{
  count_call, count_call-append, Waits-set, scan_due_Waits, count_call-calling,
}
use coreinit_nx.Alarm.Scheduler.Leaving.{known_calls, IsPending, LeavesBe}
use coreinit_nx.Alarm.Scheduler.Awaiting.{run-IsPending}

-- As many calls as there are to make are made.
drained :
    (c : ℕ × ℕ) (s : Scheduler) (ds : List (ℕ × ℕ))
    → c.1 ≢ 0
    → s.due ≡ ds
    → let s' = run s (replicate (length ds) calls_next) in
      (s'.due ≡ []) × (count_call c s'.called ≡ known_calls c s)
unfolding run step call_next
drained c s [] z e = (e, rw e (omega arith))
drained c s (d ∷ ds) z e =
    let s' : Scheduler = record s { due = ds; called = s.called ++ calling d } in
    let first : call_next s ≡ s' = rw e in
    let (empty, all_made) = drained c s' ds z refl in
    let before : count_call c s.due ≡ count_call c (d ∷ ds) = ap (count_call c) e in
    let made = count_call-append c s.called (calling d) in
    let one = count_call-calling c d z in
    let done : count_call c (run s' (replicate (length ds) calls_next)).called ≡ known_calls c s =
      omega (arith, all_made, before, made, one) in
    subst
      (λ x.
        ((run x (replicate (length ds) calls_next)).due ≡ [])
        × (count_call c (run x (replicate (length ds) calls_next)).called ≡ known_calls c s))
      (sym first) (empty, done)

All-leave : (a n : ℕ) → All (LeavesBe a) (replicate n calls_next)
All-leave a zero = tt
All-leave a (suc n) = (tt, All-leave a n)

abbrev alarm_for : ℤ → ℤ → ℕ → HostAlarm → HostAlarm
alarm_for now time callback h = record h {
  due = now +ℤ time;
  interval = pos 0;
  callback = callback;
  armed = true;
}

set_step :
    (s : Scheduler) (now time : ℤ) (alarm callback : ℕ)
    → alarm ≢ 0
    → s.running ≡ s.started
    → step s (sets true now alarm time callback) ≡ record s {
      alarms = at_key alarm (alarm_for now time callback) s.alarms;
      inited = true;
      started = true;
      running = true;
    }
unfolding step ensure_thread os_set_alarm
set_step s now time alarm callback n r =
    let set : (alarm == 0) ≡ false = ground (arith, n) in
    elim (Bool-cases s.started) [
      | inl e ↦ rw (set, e) (ground (arith, e, r))
      | inr e ↦ rw (set, e) refl
    ]

set_IsPending :
    (s : Scheduler) (now time : ℤ) (alarm callback : ℕ)
    → alarm ≢ 0
    → s.running ≡ s.started
    → s.stop ≡ false
    → let c : ℕ × ℕ = (alarm, callback) in
      IsPending (now +ℤ time) c (known_calls c s) (step s (sets true now alarm time callback))
set_IsPending s now time alarm callback n r q =
    let c : ℕ × ℕ = (alarm, callback) in
    subst (IsPending (now +ℤ time) c (known_calls c s))
      (sym (set_step s now time alarm callback n r))
      (record {
        running = refl;
        started = refl;
        stop = q;
        pending = inl (
          Waits-set (now +ℤ time) c (alarm_for now time callback) s.alarms
              (λ h. (refl, refl, refl)),
          omega arith,
        );
      })

pass_called : (now later : ℤ) (s : Scheduler) → (pass now later s).called ≡ s.called
unfolding pass
pass_called now later s =
    let turned_to : Scheduler = record s {
      alarms = (turn now later s.alarms).0;
      due = collected (turn now later s.alarms).1;
    } in
    elim s.due
      as (λ ds.
        let r : Scheduler = elim ds [
          | d ∷ ds ↦ s
          | [] ↦ if not (s.running && not s.stop) then s else turned_to
        ] in
        r.called ≡ s.called) [
          | d ∷ ds ↦ refl
          | [] ↦
              elim (not (s.running && not s.stop))
                as (λ b. let r : Scheduler = if b then s else turned_to in r.called ≡ s.called) [
                  | true ↦ refl
                  | false ↦ refl
                ]
        ]

-- A pass that comes when the alarm is due collects it, if it was not collected before.
pass_knows :
    (due now later : ℤ) (c : ℕ × ℕ) (n : ℕ) (s : Scheduler)
    → leb_ℤ due now ≡ true
    → s.due ≡ []
    → IsPending due c n s
    → suc n ≤ known_calls c (pass now later s)
pass_knows due now later c n s l e p =
    let calls = ap (count_call c) (pass_called now later s) in
    let none_left : count_call c s.due ≡ 0 = ap (count_call c) e in
    let found = ap (count_call c) (pass_collects now later s p.running p.stop e) in
    let scanned = ap (count_call c) (scan_due now (pos 0) s.alarms) in
    elim p.pending [
      | inr k ↦ omega (arith, k, calls, none_left)
      | inl (w, k) ↦
          let one = scan_due_Waits due now (pos 0) c s.alarms l w in
          omega (arith, k, calls, none_left, found, scanned, one)
    ]

-- Where the alarm thread runs or can be started and no shutdown has begun, an alarm is set, at an address
-- and with a callback that are not null; guest calls, passes at any times and calls of callbacks follow, in
-- any order, that neither cancel this alarm nor set or create it anew, cancel no group and shut nothing
-- down. Once the thread has made the calls that it collected, a pass at the due time or later and the calls
-- which that pass collected, this alarm was called with this callback at least once more than what was
-- called or collected before it was set.
pub set_alarm_fires :
    (s : Scheduler) (now time now' later : ℤ) (alarm callback : ℕ) (between : List Event)
    → alarm ≢ 0
    → callback ≢ 0
    → s.running ≡ s.started
    → s.stop ≡ false
    → All (LeavesBe alarm) between
    → leb_ℤ (now +ℤ time) now' ≡ true
    → let c : ℕ × ℕ = (alarm, callback) in
      let s1 = run (step s (sets true now alarm time callback)) between in
      let s2 = run s1 (replicate (length s1.due) calls_next) in
      let s3 = step s2 (passes now' later) in
      let s4 = run s3 (replicate (length s3.due) calls_next) in
      known_calls c s < count_call c s4.called
unfolding step
set_alarm_fires s now time now' later alarm callback between n z r q h l =
    let c : ℕ × ℕ = (alarm, callback) in
    let m = known_calls c s in
    let s1 = run (step s (sets true now alarm time callback)) between in
    let s2 = run s1 (replicate (length s1.due) calls_next) in
    let s3 = pass now' later s2 in
    let p1 =
      run-IsPending (now +ℤ time) c m _ between z h
        (set_IsPending s now time alarm callback n r q) in
    let p2 =
      run-IsPending (now +ℤ time) c m s1 (replicate (length s1.due) calls_next) z
        (All-leave alarm (length s1.due)) p1 in
    let (empty, _) = drained c s1 s1.due z refl in
    let knows = pass_knows (now +ℤ time) now' later c m s2 l empty p2 in
    let (_, made) = drained c s3 s3.due z refl in omega (arith, knows, made)
