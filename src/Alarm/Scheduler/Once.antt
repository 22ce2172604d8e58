-- ===== src/Alarm/Scheduler/Once.antt =====
-- The steps and runs of the alarm thread and the guest, and how often an alarm is called in them.
use coreinit_nx.Base.{
  ℕ, ◌+◌, ◌≤◌, ◌≡◌, ◌≢◌, refl, inl, inr, true, false, not, ◌&&◌, List, [], ◌∷◌, ◌++◌, All, ◌==◌,
  if◌then◌else◌, Bool-cases, arith,
}
use coreinit_nx.Base.Int.{ℤ, pos}
use coreinit_nx.Alarm.{turn, os_cancel_alarms}
use coreinit_nx.Alarm.Cancels.{AllAt}
use coreinit_nx.Alarm.Scheduler.{
  Scheduler, Event, creates, sets, repeats, cancels, cancels_group, tags, puts_user_data, passes,
  calls_next, ends, shuts_down, start, step, run, pass, collected, call_next, calling, end_thread,
  idle, joining, clearing, shutdown_begins, shutdown_joins, shutdown_clears, alarm_shutdown,
}
use coreinit_nx.Alarm.Counts.{
  one_if, count_at, armed_at, IsOnce, count_at-append, scan_moves, scan-IsOnce, disarmed_group,
}
use coreinit_nx.Alarm.Scheduler.Runs.{
  set_by, times_set, NeverRepeats, total, OnceAt, Grows, quiet-Grows, set-Grows, cancel-Grows,
  started_by, turned, create_lem, tag_lem, user_data_lem, set_lem, repeat_lem,
}

pass-Grows : (a : ℕ) (now later : ℤ) (s : Scheduler) → OnceAt a s → Grows a 0 s (pass now later s)
unfolding pass
pass-Grows a now later s o =
    elim s.due
        as (λ ds.
          let turned_to : Scheduler = record s {
            alarms = (turn now later s.alarms).0;
            due = collected (turn now later s.alarms).1;
          } in
          let r : Scheduler = elim ds [
            | d ∷ ds ↦ s
            | [] ↦ if not (s.running && not s.stop) then s else turned_to
          ] in
          (total a r ≤ count_at a s.called + (count_at a ds + armed_at a s.alarms)
            → total a r ≤ total a s + 0)
          → Grows a 0 s r) [
            | d ∷ ds ↦ λ k. (omega arith, o)
            | [] ↦ λ k.
                elim (s.running && not s.stop)
                    as (λ b.
                      let turned_to : Scheduler = record s {
                        alarms = (turn now later s.alarms).0;
                        due = collected (turn now later s.alarms).1;
                      } in
                      let r : Scheduler = if not b then s else turned_to in
                      (total a r ≤ count_at a s.called + (0 + armed_at a s.alarms)
                        → total a r ≤ total a s + 0)
                      → Grows a 0 s r) [
                        | false ↦ λ k. (omega arith, o)
                        | true ↦ λ k.
                            let (le, once) =
                              turned
                                (λ t ds.
                                  (count_at a ds + armed_at a t ≤ armed_at a s.alarms)
                                  × AllAt a IsOnce t)
                                now later s.alarms
                                (
                                  omega (arith, scan_moves a now (pos 0) s.alarms o),
                                  scan-IsOnce a now (pos 0) s.alarms o,
                                ) in
                            (k (omega arith), once)
                      ]
                  k
          ]
      (λ le. omega arith)

calling-le : (a : ℕ) (d : ℕ × ℕ) → count_at a (calling d) ≤ one_if (d.0 == a)
calling-le a (k, c) = ground arith

call_next-Grows : (a : ℕ) (s : Scheduler) → OnceAt a s → Grows a 0 s (call_next s)
unfolding call_next
call_next-Grows a s o =
    elim s.due
        as (λ ds.
          let r : Scheduler = elim ds [
            | [] ↦ s
            | d ∷ ds ↦ record s { due = ds; called = s.called ++ calling d }
          ] in
          (count_at a ds ≤ count_at a s.due) → Grows a 0 s r) [
            | [] ↦ λ k. (omega arith, o)
            | d ∷ ds ↦
                λ k. (omega (arith, count_at-append a s.called (calling d), calling-le a d), o)
          ]
      (omega arith)

end_thread-Grows : (a : ℕ) (s : Scheduler) → OnceAt a s → Grows a 0 s (end_thread s)
unfolding end_thread
end_thread-Grows a s o =
    elim s.due
      as (λ ds.
        let r : Scheduler = elim ds [
          | d ∷ ds ↦ s
          | [] ↦ if s.running && s.stop then record s { running = false } else s
        ] in
        Grows a 0 s r) [
          | d ∷ ds ↦ (omega arith, o)
          | [] ↦ elim (Bool-cases (s.running && s.stop)) [
            | inl e ↦ rw e (omega arith, o)
            | inr e ↦ rw e (omega arith, o)
          ]
        ]

shutdown_joins-Grows : (a : ℕ) (s : Scheduler) → OnceAt a s → Grows a 0 s (shutdown_joins s)
unfolding shutdown_joins
shutdown_joins-Grows a s o = elim (Bool-cases s.started) [
  | inr e ↦ rw e (omega arith, o)
  | inl e ↦ elim (Bool-cases s.running) [
    | inl f ↦ rw (e, f) (omega arith, o)
    | inr f ↦ rw (e, f) (omega arith, o)
  ]
]

shutdown-Grows : (a : ℕ) (s : Scheduler) → OnceAt a s → Grows a 0 s (alarm_shutdown s)
unfolding alarm_shutdown shutdown_begins shutdown_clears
shutdown-Grows a s o =
    elim s.stage
      as (λ x.
        let r : Scheduler = elim x [
          | idle ↦ shutdown_begins s
          | joining ↦ shutdown_joins s
          | clearing ↦ shutdown_clears s
        ] in
        Grows a 0 s r) [
          | idle ↦ elim (Bool-cases s.inited) [
            | inl e ↦ rw e (omega arith, o)
            | inr e ↦ rw e (omega arith, o)
          ]
          | joining ↦ shutdown_joins-Grows a s o
          | clearing ↦ (omega arith, tt)
        ]

step-Grows :
    (a : ℕ) (s : Scheduler) (e : Event)
    → NeverRepeats a e
    → OnceAt a s
    → Grows a (set_by a e) s (step s e)
unfolding step os_cancel_alarms
step-Grows a s (creates alarm) h o =
    rw (create_lem s alarm) (quiet-Grows a alarm _ s (λ h x. absurd (cc)) (λ h x. refl) o)
step-Grows a s (sets starts now alarm time callback) h o =
    started_by a _ alarm starts s _ o
      (rw (set_lem s now alarm time callback) (set-Grows a alarm _ s (λ h e x. refl) o))
step-Grows a s (repeats starts now alarm first interval callback) h o =
    started_by a _ alarm starts s _ o
      (rw (repeat_lem s now alarm first interval callback) (set-Grows a alarm _ s (λ g e x. h e) o))
step-Grows a s (cancels alarm) h o = cancel-Grows a alarm s o
step-Grows a s (cancels_group group) h o =
    let (le, k) = disarmed_group a group s.alarms o in (omega arith, k)
step-Grows a s (tags alarm group) h o =
    rw (tag_lem s alarm group) (quiet-Grows a alarm _ s (λ h x. x) (λ h x. x) o)
step-Grows a s (puts_user_data alarm value) h o =
    rw (user_data_lem s alarm value) (quiet-Grows a alarm _ s (λ h x. x) (λ h x. x) o)
step-Grows a s (passes now later) h o = pass-Grows a now later s o
step-Grows a s calls_next h o = call_next-Grows a s o
step-Grows a s ends h o = end_thread-Grows a s o
step-Grows a s shuts_down h o = shutdown-Grows a s o

total-run :
    (a : ℕ) (s : Scheduler) (es : List Event)
    → All (NeverRepeats a) es
    → OnceAt a s
    → total a (run s es) ≤ total a s + times_set a es
unfolding run
total-run a s [] h o = omega arith
total-run a s (e ∷ es) (h, hs) o =
    let (le, o') = step-Grows a s e h o in omega (arith, total-run a (step s e) es hs o')

-- In a run of guest calls and of turns of the alarm thread, in any order, that starts before the first
-- call and never sets the alarm with an interval above 0, the alarm is called at most as often as the run
-- sets it.
pub run_once :
    (alarm : ℕ) (events : List Event)
    → All (NeverRepeats alarm) events
    → count_at alarm (run start events).called ≤ times_set alarm events
run_once alarm events h = omega (arith, total-run alarm start events h tt)

-- A call that the thread collected, with a callback that is not null, is still made after the guest
-- cancelled the alarm.
pub cancelled_is_called :
    (s : Scheduler) (alarm callback : ℕ) (rest : List (ℕ × ℕ))
    → s.due ≡ (alarm, callback) ∷ rest
    → callback ≢ 0
    → (run s (cancels alarm ∷ calls_next ∷ [])).called ≡ s.called ++ (alarm, callback) ∷ []
unfolding run step call_next
cancelled_is_called s alarm callback rest d n = elim (Bool-cases (alarm == 0)) [
  | inl e ↦ rw (e, d) (ground arith)
  | inr e ↦ rw (e, d) (ground arith)
]
