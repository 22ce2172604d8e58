-- ===== src/Alarm/Scheduler/Pending.antt =====
-- An alarm that is set and not yet called, over the operations on the map.
use coreinit_nx.Base.{
  ℕ, ◌+◌, ◌≤◌, ◌≡◌, ◌≢◌, ◌⊎◌, refl, sym, subst, ap, ◌∙◌, inl, inr, true, false, ◌&&◌, List, [], ◌∷◌,
  ◌++◌, ltb, ◌==◌, Bool-cases, arith,
}
use coreinit_nx.Base.Int.{ℤ, leb_ℤ}
use coreinit_nx.Alarm.{HostAlarm, Alarms, fresh, at_key, visit, nearer, scan}
use coreinit_nx.Alarm.Scheduler.{calling}
use coreinit_nx.Alarm.Counts.{one_if}

-- The calls of an alarm with a callback in a list.
abbrev pub count_call : ℕ × ℕ → List (ℕ × ℕ) → ℕ
count_call c [] = 0
count_call c (d ∷ ds) = one_if (d.0 == c.0 && d.1 == c.1) + count_call c ds

pub count_call-append :
    (c : ℕ × ℕ) (xs ys : List (ℕ × ℕ)) → count_call c (xs ++ ys) ≡ count_call c xs + count_call c ys
count_call-append c [] ys = omega arith
count_call-append c (d ∷ xs) ys = omega (arith, count_call-append c xs ys)

pub count_call-calling :
    (c d : ℕ × ℕ) → c.1 ≢ 0 → count_call c (calling d) ≡ one_if (d.0 == c.0 && d.1 == c.1)
count_call-calling c (k, callback) z = ground (arith, z)

-- An alarm that is armed for a time with a callback.
abbrev pub IsArmedFor : ℤ → ℕ → HostAlarm → Type 0
IsArmedFor due callback h = (h.armed ≡ true) × (h.due ≡ due) × (h.callback ≡ callback)

-- One of the entries of an alarm is armed for a time with a callback.
abbrev pub Waits : ℤ → ℕ × ℕ → Alarms → Type 0
Waits due c [] = ⊥
Waits due c ((k, h) ∷ t) = ((k ≡ c.0) × IsArmedFor due c.1 h) ⊎ Waits due c t

pub Waits-set :
    (due : ℤ) (c : ℕ × ℕ) (f : HostAlarm → HostAlarm) (t : Alarms)
    → ((h : HostAlarm) → IsArmedFor due c.1 (f h))
    → Waits due c (at_key c.0 f t)
unfolding at_key
Waits-set due c f [] s = inl (refl, s fresh)
Waits-set due c f ((k, h) ∷ t) s =
    let rest = Waits-set due c f t s in
    elim (Bool-cases (k == c.0)) [
      | inl e ↦ rw e (inl (ground (arith, e), s h))
      | inr e ↦ elim (Bool-cases (ltb c.0 k)) [
        | inl l ↦ rw (e, l) (inl (refl, s fresh))
        | inr l ↦ rw (e, l) (inr rest)
      ]
    ]

-- A change of an alarm that keeps what it is set for.
pub Waits-at_key :
    (due : ℤ) (c : ℕ × ℕ) (key : ℕ) (f : HostAlarm → HostAlarm) (t : Alarms)
    → ((h : HostAlarm) → key ≡ c.0 → IsArmedFor due c.1 h → IsArmedFor due c.1 (f h))
    → Waits due c t
    → Waits due c (at_key key f t)
unfolding at_key
Waits-at_key due c key f [] s w = absurd w
Waits-at_key due c key f ((k, h) ∷ t) s (inl (same, i)) = elim (Bool-cases (k == key)) [
  | inl e ↦ rw e (inl (same, s h (ground (arith, e, same)) i))
  | inr e ↦ elim (Bool-cases (ltb key k)) [
    | inl l ↦ rw (e, l) (inr (inl (same, i)))
    | inr l ↦ rw (e, l) (inl (same, i))
  ]
]
Waits-at_key due c key f ((k, h) ∷ t) s (inr w) =
    let rest = Waits-at_key due c key f t s w in
    elim (Bool-cases (k == key)) [
      | inl e ↦ rw e (inr w)
      | inr e ↦ elim (Bool-cases (ltb key k)) [
        | inl l ↦ rw (e, l) (inr (inr w))
        | inr l ↦ rw (e, l) (inr rest)
      ]
    ]

visit_fires :
    (due now : ℤ) (callback : ℕ) (h : HostAlarm)
    → IsArmedFor due callback h
    → (visit now h).1 ≡ leb_ℤ due now
unfolding visit
visit_fires due now callback h (a, d, c) =
    let same : leb_ℤ h.due now ≡ leb_ℤ due now = ap (λ x. leb_ℤ x now) d in ground (arith, a, same)

visit_passes : (now : ℤ) (h : HostAlarm) → (visit now h).1 ≡ false → (visit now h).0 ≡ h
unfolding visit
visit_passes now h e = ground (arith, e)

-- A pass that comes at its due time collects an alarm that is set, an earlier one leaves it as it is.
pub scan_due_Waits :
    (due now m : ℤ) (c : ℕ × ℕ) (t : Alarms)
    → leb_ℤ due now ≡ true
    → Waits due c t
    → 1 ≤ count_call c (scan now m t).due
unfolding scan
scan_due_Waits due now m c [] l w = absurd w
scan_due_Waits due now m c ((k, h) ∷ t) l (inl (same, i)) =
    let fires = visit_fires due now c.1 h i ∙ l in
    let (a, d, e) = i in
    let one : one_if (k == c.0 && h.callback == c.1) ≡ 1 = ground (arith, same, e) in
    rw fires (omega (arith, one))
scan_due_Waits due now m c ((k, h) ∷ t) l (inr w) =
    let rest = scan_due_Waits due now (nearer m (visit now h).0) c t l w in
    elim (Bool-cases (visit now h).1) [ inl f ↦ rw f (omega (arith, rest)) | inr f ↦ rw f rest ]

pub scan-Waits :
    (due now m : ℤ) (c : ℕ × ℕ) (t : Alarms)
    → leb_ℤ due now ≡ false
    → Waits due c t
    → Waits due c (scan now m t).alarms
unfolding scan
scan-Waits due now m c [] l w = absurd w
scan-Waits due now m c ((k, h) ∷ t) l (inl (same, i)) =
    let quiet = visit_passes now h (visit_fires due now c.1 h i ∙ l) in
    inl (same, subst (λ x. IsArmedFor due c.1 x) (sym quiet) i)
scan-Waits due now m c ((k, h) ∷ t) l (inr w) =
    inr (scan-Waits due now (nearer m (visit now h).0) c t l w)
