-- ===== src/Alarm/Passes.antt =====
-- A pass of the alarm thread: what it leaves armed, when it wakes next, and how often an alarm fires.
use coreinit_nx.Base.{
  ℕ, suc, ◌≡◌, ◌≢◌, ◌⊎◌, refl, sym, ◌∙◌, inl, inr, Bool, true, false, List, [], ◌∷◌, All,
  if◌then◌else◌, Bool-cases, arith,
}
use coreinit_nx.Base.Int.{ℤ, pos, ◌≤ℤ◌, ◌<ℤ◌, leb_ℤ, +ℤ_parts}
use coreinit_nx.Alarm.{HostAlarm, Alarms, visit, nearer, scan}

-- An alarm that is armed is due after a time.
abbrev pub IsAhead : ℤ → HostAlarm → Type 0
IsAhead now h = h.armed ≡ true → now <ℤ h.due

visit-IsAhead : (now : ℤ) (h : HostAlarm) → IsAhead now (visit now h).0
unfolding visit
visit-IsAhead now h a = let l = +ℤ_parts now h.interval in ground arith

-- Whatever a pass leaves armed is due after the time of the pass.
pub scan-AllAhead :
    (now : ℤ) (t : Alarms) (nearest : ℤ) → All (λ e. IsAhead now e.1) (scan now nearest t).alarms
unfolding scan
scan-AllAhead now [] nearest = tt
scan-AllAhead now ((k, h) ∷ t) nearest =
    (visit-IsAhead now h, scan-AllAhead now t (nearer nearest (visit now h).0))

-- An armed alarm is not due before a wake time, where 0 is no wake time.
abbrev pub IsServed : ℤ → HostAlarm → Type 0
IsServed n h = h.armed ≡ true → (n ≢ pos 0) × (n ≤ℤ h.due)

-- A wake time that a time of its own allows: 0 allows any.
abbrev pub IsBy : ℤ → ℤ → Type 0
IsBy n m = (m ≡ pos 0) ⊎ ((n ≢ pos 0) × (n ≤ℤ m))

-- Some armed alarm is due at a time.
abbrev pub AnyDue : ℤ → Alarms → Type 0
AnyDue n [] = ⊥
AnyDue n ((k, h) ∷ t) = ((h.armed ≡ true) × (h.due ≡ n)) ⊎ AnyDue n t

IsBy-trans : (a b c : ℤ) → IsBy a b → IsBy b c → IsBy a c
IsBy-trans a b c x (inl e) = inl e
IsBy-trans a b c (inl e) (inr (n, l)) = absurd (n e)
IsBy-trans a b c (inr (m, k)) (inr (n, l)) = inr (m, omega arith)

abbrev pub IsLater : ℤ → ℤ → Type 0
IsLater now m = (m ≡ pos 0) ⊎ (now <ℤ m)

nearer_lem :
    (now m : ℤ) (h : HostAlarm)
    → pos 0 ≤ℤ now
    → IsAhead now h
    → IsLater now m
    → IsBy (nearer m h) m
      × IsServed (nearer m h) h
      × IsLater now (nearer m h)
      × ((nearer m h ≡ m) ⊎ ((h.armed ≡ true) × (h.due ≡ nearer m h)))
unfolding nearer
nearer_lem now m h z a l = elim (Bool-cases h.armed) [
  | inl e ↦ ground (arith, e, a e)
  | inr e ↦ ground (arith, e)
]

IsBy-refl : (m : ℤ) → IsBy m m
IsBy-refl m = ground arith

served_by :
    (n m : ℤ) (h : HostAlarm) → IsBy n m → (m ≢ pos 0) → m ≤ℤ h.due → (n ≢ pos 0) × (n ≤ℤ h.due)
served_by n m h (inl e) z l = absurd (z e)
served_by n m h (inr (e, k)) z l = (e, omega arith)

-- Where a wake time comes from, when it is the one so far or an alarm's, twice over.
attained :
    (m : ℤ) (a : Bool) (d m' n : ℤ) (t : Alarms)
    → (m' ≡ m) ⊎ ((a ≡ true) × (d ≡ m'))
    → (n ≡ m') ⊎ AnyDue n t
    → (n ≡ m) ⊎ ((a ≡ true) × (d ≡ n)) ⊎ AnyDue n t
attained m a d m' n t (inl e) (inl e') = inl (e' ∙ e)
attained m a d m' n t (inr (l, e)) (inl e') = inr (inl (l, e ∙ sym e'))
attained m a d m' n t from (inr x) = inr (inr x)

-- The wake time of a pass at a time from 0 on, from a wake time so far that is none, written 0, or
-- later than the pass: it is no later than the one so far, every alarm left armed is due then or
-- after, and it is the one so far or the due time of an alarm left armed.
pub scan_nearest :
    (now : ℤ) (t : Alarms) (m : ℤ)
    → pos 0 ≤ℤ now
    → IsLater now m
    → let p = scan now m t in
      IsBy p.nearest m
      × All (λ e. IsServed p.nearest e.1) p.alarms
      × ((p.nearest ≡ m) ⊎ AnyDue p.nearest p.alarms)
unfolding scan
scan_nearest now [] m z l = (IsBy-refl m, tt, inl refl)
scan_nearest now ((k, h) ∷ t) m z l =
    let h' = (visit now h).0 in
    let m' = nearer m h' in
    let (by, served, later, from) = nearer_lem now m h' z (visit-IsAhead now h) l in
    let (by', all, from') = scan_nearest now t m' z later in
    (
      IsBy-trans _ m' m by' by,
      ((λ e. let (n, b) = served e in served_by _ m' h' by' n b), all),
      attained m h'.armed h'.due m' _ _ from from',
    )

-- How often an alarm fires in passes at given times.
pub fired : HostAlarm → List ℤ → ℕ
fired h [] = 0
fired h (now ∷ times) =
    let (h', fires) = visit now h in let rest = fired h' times in if fires then suc rest else rest

abbrev pub any_reaches : ℤ → List ℤ → Bool
any_reaches due [] = false
any_reaches due (now ∷ times) = if leb_ℤ due now then true else any_reaches due times

disarmed_silent : (h : HostAlarm) (times : List ℤ) → h.armed ≡ false → fired h times ≡ 0
unfolding fired visit
disarmed_silent h [] d = refl
disarmed_silent h (now ∷ times) d = let r = disarmed_silent h times d in simp (d, r)

-- An armed alarm without an interval fires once if a pass comes at its due time or after, else never.
pub one_shot_fires_once :
    (h : HostAlarm) (times : List ℤ)
    → h.armed ≡ true
    → h.interval ≡ pos 0
    → fired h times ≡ (if any_reaches h.due times then 1 else 0)
unfolding fired visit
one_shot_fires_once h [] a i = refl
one_shot_fires_once h (now ∷ times) a i =
    let later = one_shot_fires_once h times a i in
    let done = disarmed_silent (record h { interval = pos 0; armed = false }) times refl in
    elim (Bool-cases (leb_ℤ h.due now)) [
      | inl l ↦ simp (a, i, l, done)
      | inr l ↦ simp (a, l, later)
    ]
