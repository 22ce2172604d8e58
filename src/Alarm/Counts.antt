-- ===== src/Alarm/Counts.antt =====
-- Counting the calls and the armed entries of an alarm over the operations on the map.
use coreinit_nx.Base.{
  ℕ, ◌+◌, ◌≤◌, ◌≡◌, refl, inl, inr, Bool, true, false, ◌&&◌, List, [], ◌∷◌, ◌++◌, ltb, ◌==◌,
  if◌then◌else◌, Bool-cases, map, arith,
}
use coreinit_nx.Base.Int.{ℤ, pos, ltb_ℤ}
use coreinit_nx.Alarm.{HostAlarm, Alarms, fresh, at_key, visit, nearer, scan, disarm_group}
use coreinit_nx.Alarm.Cancels.{AllAt}

abbrev pub one_if : Bool → ℕ
one_if b = if b then 1 else 0

-- The calls of an alarm in a list, and its armed entries in the map.
abbrev pub count_at : ℕ → List (ℕ × ℕ) → ℕ
count_at a [] = 0
count_at a ((k, callback) ∷ ds) = one_if (k == a) + count_at a ds

abbrev pub armed_at : ℕ → Alarms → ℕ
armed_at a [] = 0
armed_at a ((k, h) ∷ t) = one_if (k == a && h.armed) + armed_at a t

abbrev pub IsOnce : HostAlarm → Type 0
IsOnce h = ltb_ℤ (pos 0) h.interval ≡ false

pub count_at-append :
    (a : ℕ) (xs ys : List (ℕ × ℕ)) → count_at a (xs ++ ys) ≡ count_at a xs + count_at a ys
count_at-append a [] ys = omega arith
count_at-append a ((k, c) ∷ xs) ys = omega (arith, count_at-append a xs ys)

-- A change of one alarm arms at most that one.
pub armed_at-at_key :
    (a key : ℕ) (f : HostAlarm → HostAlarm) (t : Alarms)
    → armed_at a (at_key key f t) ≤ armed_at a t + one_if (key == a)
unfolding at_key
armed_at-at_key a key f [] = ground arith
armed_at-at_key a key f ((k, h) ∷ t) = ground (arith, armed_at-at_key a key f t)

-- One that never arms an alarm arms none.
abbrev pub IsDisarming : (HostAlarm → HostAlarm) → Type 0
IsDisarming f = (h : HostAlarm) → (f h).armed ≡ true → h.armed ≡ true

pub armed_at-disarming :
    (a key : ℕ) (f : HostAlarm → HostAlarm) (t : Alarms)
    → IsDisarming f
    → armed_at a (at_key key f t) ≤ armed_at a t
unfolding at_key
armed_at-disarming a key f [] d = let n = d fresh in ground arith
armed_at-disarming a key f ((k, h) ∷ t) d =
    let n = d fresh in let m = d h in ground (arith, armed_at-disarming a key f t d)

-- What holds of every entry of an alarm is kept by a change that keeps it.
pub AllAt-kept :
    (a key : ℕ) (P : HostAlarm → Type 0) (f : HostAlarm → HostAlarm) (t : Alarms)
    → P fresh
    → ((h : HostAlarm) → key ≡ a → P h → P (f h))
    → AllAt a P t
    → AllAt a P (at_key key f t)
unfolding at_key
AllAt-kept a key P f [] z p h = ((λ e. p fresh e z), tt)
AllAt-kept a key P f ((k, h) ∷ t) z p (i, j) =
    let rest = AllAt-kept a key P f t z p j in
    elim (Bool-cases (k == key)) [
      | inl e ↦ rw e ((λ e'. p h (ground (arith, e, e')) (i e')), j)
      | inr e ↦ elim (Bool-cases (ltb key k)) [
        | inl l ↦ rw (e, l) ((λ e'. p fresh e' z), (i, j))
        | inr l ↦ rw (e, l) (i, rest)
      ]
    ]

visit-IsOnce :
    (now : ℤ) (h : HostAlarm)
    → IsOnce h
    → (one_if (visit now h).0.armed + one_if (visit now h).1 ≡ one_if h.armed)
      × IsOnce (visit now h).0
unfolding visit
visit-IsOnce now h o = ground arith

visit_interval : (now : ℤ) (h : HostAlarm) → (visit now h).0.interval ≡ h.interval
unfolding visit
visit_interval now h = ground arith

-- A pass moves what it fires from the armed to the called.
pub scan_moves :
    (a : ℕ) (now m : ℤ) (t : Alarms)
    → AllAt a IsOnce t
    → armed_at a (scan now m t).alarms + count_at a (scan now m t).due ≡ armed_at a t
unfolding scan
scan_moves a now m [] h = refl
scan_moves a now m ((k, h) ∷ t) (i, j) =
    let rest = scan_moves a now (nearer m (visit now h).0) t j in
    elim (Bool-cases (k == a)) [
      | inl e ↦
          let (v, o) = visit-IsOnce now h (i (ground (arith, e))) in
          elim (Bool-cases (visit now h).1) [
            | inl f ↦ simp (e, f) (ground (arith, v, f, rest))
            | inr f ↦ simp (e, f) (ground (arith, v, f, rest))
          ]
      | inr e ↦ elim (Bool-cases (visit now h).1) [
        | inl f ↦ simp (e, f) (ground (arith, rest))
        | inr f ↦ simp (e, f) (ground (arith, rest))
      ]
    ]

pub scan-IsOnce :
    (a : ℕ) (now m : ℤ) (t : Alarms) → AllAt a IsOnce t → AllAt a IsOnce (scan now m t).alarms
unfolding scan
scan-IsOnce a now m [] h = tt
scan-IsOnce a now m ((k, h) ∷ t) (i, j) =
    ((λ e. (visit-IsOnce now h (i e)).1), scan-IsOnce a now (nearer m (visit now h).0) t j)

pub disarmed_group :
    (a group : ℕ) (t : Alarms)
    → AllAt a IsOnce t
    → (armed_at a (map (disarm_group group) t) ≤ armed_at a t)
      × AllAt a IsOnce (map (disarm_group group) t)
unfolding disarm_group
disarmed_group a group [] h = (omega arith, tt)
disarmed_group a group ((k, h) ∷ t) (i, j) =
    let (le, k') = disarmed_group a group t j in
    elim (Bool-cases (h.group == group)) [
      | inl e ↦ simp e (ground (arith, le), (i, k'))
      | inr e ↦ simp e (ground (arith, le), (i, k'))
    ]
