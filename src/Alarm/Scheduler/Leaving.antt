-- ===== src/Alarm/Scheduler/Leaving.antt =====
-- What it is that an alarm is set and not yet called, over guest calls that leave it be.
use coreinit_nx.Base.{
  ℕ, suc, ◌+◌, ◌≤◌, ◌≡◌, ◌≢◌, ◌⊎◌, refl, sym, subst, inl, inr, Bool, true, false, ◌==◌,
  if◌then◌else◌, Bool-cases, Option-cases,
}
use coreinit_nx.Base.Int.{ℤ}
use coreinit_nx.Handles.{find}
use coreinit_nx.Alarm.{HostAlarm, at_key, os_cancel_alarm}
use coreinit_nx.Alarm.Scheduler.{
  Scheduler, Event, creates, sets, repeats, cancels, cancels_group, shuts_down, guest,
  ensure_thread,
}
use coreinit_nx.Alarm.Scheduler.Pending.{count_call, IsArmedFor, Waits, Waits-at_key}

-- The calls of an alarm with a callback that were made or collected.
abbrev pub known_calls : ℕ × ℕ → Scheduler → ℕ
known_calls c s = count_call c s.called + count_call c s.due

-- The thread is in its loop, and the alarm is set for a time or was collected since a number of calls.
pub record IsPending (due : ℤ) (c : ℕ × ℕ) (n : ℕ) (s : Scheduler) : Type 0 where
  pub running : s.running ≡ true
  pub started : s.started ≡ true
  pub stop : s.stop ≡ false
  pub pending : (Waits due c s.alarms × (n ≤ known_calls c s)) ⊎ (suc n ≤ known_calls c s)

-- An event that neither cancels an alarm nor sets or creates it anew, cancels no group and shuts nothing
-- down.
abbrev pub LeavesBe : ℕ → Event → Type 0
LeavesBe a (creates alarm) = alarm ≢ a
LeavesBe a (sets starts now alarm time callback) = alarm ≢ a
LeavesBe a (repeats starts now alarm first interval callback) = alarm ≢ a
LeavesBe a (cancels alarm) = alarm ≢ a
LeavesBe a (cancels_group group) = ⊥
LeavesBe a shuts_down = ⊥
LeavesBe a _ = Unit

module _ (due : ℤ) (c : ℕ × ℕ) (n : ℕ) where
  -- A guest call that changes one alarm.
  pub guest-IsPending :
      (s : Scheduler) (alarm key : ℕ) (f : HostAlarm → HostAlarm)
      → ((h : HostAlarm) → key ≡ c.0 → IsArmedFor due c.1 h → IsArmedFor due c.1 (f h))
      → IsPending due c n s
      → IsPending due c n (guest alarm s (at_key key f s.alarms))
  guest-IsPending s alarm key f k p = elim (Bool-cases (alarm == 0)) [
    | inl e ↦ rw e p
    | inr e ↦ rw e (record {
      running = p.running;
      started = p.started;
      stop = p.stop;
      pending = elim p.pending [
        | inl (w, l) ↦ inl (Waits-at_key due c key f s.alarms k w, l)
        | inr l ↦ inr l
      ];
    })
  ]

  pub ensured-IsPending :
      (starts : Bool) (alarm : ℕ) (s s' : Scheduler)
      → IsPending due c n s
      → IsPending due c n s'
      → IsPending due c n (if alarm == 0 then s else ensure_thread starts s')
  unfolding ensure_thread
  ensured-IsPending starts alarm s s' p p' = elim (Bool-cases (alarm == 0)) [
    | inl e ↦ rw e p
    | inr e ↦
        let same : ensure_thread starts s' ≡ s' = rw p'.started refl in
        rw e (subst (IsPending due c n) (sym same) p')
  ]

  pub cancel-IsPending :
      (s : Scheduler) (alarm : ℕ)
      → alarm ≢ c.0
      → IsPending due c n s
      → IsPending due c n (guest alarm s (os_cancel_alarm s.alarms alarm).0)
  unfolding os_cancel_alarm
  cancel-IsPending s alarm other p = elim (Bool-cases (alarm == 0)) [
    | inl e ↦ rw e p
    | inr e ↦ elim (Option-cases (find alarm s.alarms)) [
      | inl g ↦
          rw (e, g)
            (record {
              running = p.running;
              started = p.started;
              stop = p.stop;
              pending = p.pending;
            })
      | inr (h, g) ↦
          let q =
            guest-IsPending s alarm alarm (λ h. record h { armed = false })
              (λ h same. absurd (other same)) p in
          rw (e, g) (simp e at q)
    ]
  ]
