-- ===== src/Alarm/Scheduler/Awaiting.antt =====
-- An alarm that is set stays so, or is collected, whatever happens that leaves it be.
use coreinit_nx.Base.{
  ℕ, ◌≤◌, ◌≡◌, ◌≢◌, ◌⊎◌, refl, sym, ap, subst, inl, inr, true, false, not, ◌&&◌, List, [], ◌∷◌,
  ◌++◌, All, if◌then◌else◌, Bool-cases, arith,
}
use coreinit_nx.Base.Int.{ℤ, pos, leb_ℤ}
use coreinit_nx.Alarm.{Alarms, scan, turn}
use coreinit_nx.Alarm.Scheduler.{
  Scheduler, Event, creates, sets, repeats, cancels, cancels_group, tags, puts_user_data, passes,
  calls_next, ends, shuts_down, step, run, pass, collected, call_next, calling, end_thread,
}
use coreinit_nx.Alarm.Scheduler.Runs.{
  turned, create_lem, tag_lem, user_data_lem, set_lem, repeat_lem,
}
use coreinit_nx.Alarm.Scheduler.Pending.{
  count_call, count_call-append, count_call-calling, Waits, scan_due_Waits, scan-Waits,
}
use coreinit_nx.Alarm.Scheduler.Leaving.{
  IsPending, LeavesBe, guest-IsPending, ensured-IsPending, cancel-IsPending,
}

module _ (due : ℤ) (c : ℕ × ℕ) (n : ℕ) where
  pub scan-pending :
      (now m : ℤ) (t : Alarms)
      → Waits due c t
      → Waits due c (scan now m t).alarms ⊎ (1 ≤ count_call c (scan now m t).due)
  scan-pending now m t w = elim (Bool-cases (leb_ℤ due now)) [
    | inl l ↦ inr (scan_due_Waits due now m c t l w)
    | inr l ↦ inl (scan-Waits due now m c t l w)
  ]

  turn-IsPending :
      (now later : ℤ) (s : Scheduler)
      → s.due ≡ []
      → IsPending due c n s
      → IsPending due c n (record s {
        alarms = (turn now later s.alarms).0;
        due = collected (turn now later s.alarms).1;
      })
  turn-IsPending now later s e p =
      let none_left : count_call c s.due ≡ 0 = ap (count_call c) e in
      record {
        running = p.running;
        started = p.started;
        stop = p.stop;
        pending = elim p.pending [
          | inr l ↦ inr (omega (arith, l, none_left))
          | inl (w, l) ↦
              elim (turned (λ t ds. Waits due c t ⊎ (1 ≤ count_call c ds)) now later s.alarms
                (scan-pending now (pos 0) s.alarms w)) [
                  | inl w' ↦ inl (w', omega (arith, l, none_left))
                  | inr k ↦ inr (omega (arith, k, l, none_left))
                ]
        ];
      }

  pass-IsPending :
      (now later : ℤ) (s : Scheduler) → IsPending due c n s → IsPending due c n (pass now later s)
  unfolding pass
  pass-IsPending now later s p =
      let turned_to : Scheduler = record s {
        alarms = (turn now later s.alarms).0;
        due = collected (turn now later s.alarms).1;
      } in
      let runs : (s.running && not s.stop) ≡ true = rw (p.running, p.stop) refl in
      elim s.due
          as (λ ds.
            let r : Scheduler = elim ds [
              | d ∷ ds ↦ s
              | [] ↦ if not (s.running && not s.stop) then s else turned_to
            ] in
            s.due ≡ ds → IsPending due c n r) [
              | d ∷ ds ↦ λ e. p
              | [] ↦ λ e.
                  subst
                    (λ b. let r : Scheduler = if not b then s else turned_to in IsPending due c n r)
                    (sym runs) (turn-IsPending now later s e p)
            ]
        refl

  call_next-IsPending :
      (s : Scheduler) → c.1 ≢ 0 → IsPending due c n s → IsPending due c n (call_next s)
  unfolding call_next
  call_next-IsPending s z p =
      elim s.due
          as (λ ds.
            let r : Scheduler = elim ds [
              | [] ↦ s
              | d ∷ ds ↦ record s { due = ds; called = s.called ++ calling d }
            ] in
            s.due ≡ ds → IsPending due c n r) [
              | [] ↦ λ e. p
              | d ∷ ds ↦ λ e.
                  let before : count_call c s.due ≡ count_call c (d ∷ ds) = ap (count_call c) e in
                  let made = count_call-append c s.called (calling d) in
                  let one = count_call-calling c d z in
                  record {
                    running = p.running;
                    started = p.started;
                    stop = p.stop;
                    pending = elim p.pending [
                      | inl (w, l) ↦ inl (w, omega (arith, l, before, made, one))
                      | inr l ↦ inr (omega (arith, l, before, made, one))
                    ];
                  }
            ]
        refl

  end_thread-IsPending : (s : Scheduler) → IsPending due c n s → IsPending due c n (end_thread s)
  unfolding end_thread
  end_thread-IsPending s p =
      let goes_on : (s.running && s.stop) ≡ false = rw (p.running, p.stop) refl in
      elim s.due
        as (λ ds.
          let r : Scheduler = elim ds [
            | d ∷ ds ↦ s
            | [] ↦ if s.running && s.stop then record s { running = false } else s
          ] in
          IsPending due c n r) [ d ∷ ds ↦ p | [] ↦ rw goes_on p ]

  step-IsPending :
      (s : Scheduler) (e : Event)
      → c.1 ≢ 0
      → LeavesBe c.0 e
      → IsPending due c n s
      → IsPending due c n (step s e)
  unfolding step
  step-IsPending s (creates alarm) z h p =
      rw (create_lem s alarm)
        (guest-IsPending due c n s alarm alarm _ (λ x same. absurd (h same)) p)
  step-IsPending s (sets starts now alarm time callback) z h p =
      ensured-IsPending due c n starts alarm s _ p (
        rw (set_lem s now alarm time callback)
          (guest-IsPending due c n s alarm alarm _ (λ x same. absurd (h same)) p))
  step-IsPending s (repeats starts now alarm first interval callback) z h p =
      ensured-IsPending due c n starts alarm s _ p (
        rw (repeat_lem s now alarm first interval callback)
          (guest-IsPending due c n s alarm alarm _ (λ x same. absurd (h same)) p))
  step-IsPending s (cancels alarm) z h p = cancel-IsPending due c n s alarm h p
  step-IsPending s (cancels_group group) z h p = absurd h
  step-IsPending s (tags alarm group) z h p =
      rw (tag_lem s alarm group) (guest-IsPending due c n s alarm alarm _ (λ x same i. i) p)
  step-IsPending s (puts_user_data alarm value) z h p =
      rw (user_data_lem s alarm value) (guest-IsPending due c n s alarm alarm _ (λ x same i. i) p)
  step-IsPending s (passes now later) z h p = pass-IsPending now later s p
  step-IsPending s calls_next z h p = call_next-IsPending s z p
  step-IsPending s ends z h p = end_thread-IsPending s p
  step-IsPending s shuts_down z h p = absurd h

  pub run-IsPending :
      (s : Scheduler) (es : List Event)
      → c.1 ≢ 0
      → All (LeavesBe c.0) es
      → IsPending due c n s
      → IsPending due c n (run s es)
  unfolding run
  run-IsPending s [] z h p = p
  run-IsPending s (e ∷ es) z (h, hs) p = run-IsPending (step s e) es z hs (step-IsPending s e z h p)
