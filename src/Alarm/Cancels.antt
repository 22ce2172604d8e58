-- ===== src/Alarm/Cancels.antt =====
-- The map of alarms keeps its keys in order and apart, so that one entry decides on an alarm: one that
-- is cancelled is not called by the passes that follow.
use coreinit_nx.Base.{
  ℕ, ◌<◌, ◌≡◌, ◌≢◌, refl, sym, subst, inl, inr, Bool, true, false, List, [], ◌∷◌, Option, none,
  some, All, ltb, ◌==◌, if◌then◌else◌, Bool-cases, arith,
}
use coreinit_nx.Base.Int.{ℤ}
use coreinit_nx.Handles.{find}
use coreinit_nx.Alarm.{HostAlarm, Alarms, at_key, fresh, visit, scan, os_cancel_alarm}

-- The keys go up.
abbrev pub IsSorted : Alarms → Type 0
IsSorted [] = Unit
IsSorted ((k, h) ∷ t) = All (λ e. k < e.0) t × IsSorted t

AllAbove-at_key :
    (lo key : ℕ) (f : HostAlarm → HostAlarm) (t : Alarms)
    → lo < key
    → All (λ e. lo < e.0) t
    → All (λ e. lo < e.0) (at_key key f t)
unfolding at_key
AllAbove-at_key lo key f [] l a = (l, tt)
AllAbove-at_key lo key f ((k, h) ∷ t) l (b, a) =
    let rest = AllAbove-at_key lo key f t l a in ground arith

AllAbove_to : (lo k : ℕ) (t : Alarms) → lo ≡ k → All (λ e. k < e.0) t → All (λ e. lo < e.0) t
AllAbove_to lo k t e a = subst (λ x. All (λ y. x < y.0) t) (sym e) a

AllAbove_trans : (lo k : ℕ) (t : Alarms) → lo < k → All (λ e. k < e.0) t → All (λ e. lo < e.0) t
AllAbove_trans lo k [] l a = tt
AllAbove_trans lo k ((k', h) ∷ t) l (b, a) = (omega arith, AllAbove_trans lo k t l a)

-- Any change of one alarm, or its first use, keeps the map in the order of its keys.
pub at_key-IsSorted :
    (key : ℕ) (f : HostAlarm → HostAlarm) (t : Alarms) → IsSorted t → IsSorted (at_key key f t)
unfolding at_key
at_key-IsSorted key f [] s = (tt, tt)
at_key-IsSorted key f ((k, h) ∷ t) (a, s) =
    let rest = at_key-IsSorted key f t s in
    elim (Bool-cases (k == key)) [
      | inl e ↦ ground (arith, e)
      | inr e ↦ elim (Bool-cases (ltb key k)) [
        | inl l ↦ let above = AllAbove_trans key k t (ground (arith, l)) a in ground (arith, e, l)
        | inr l ↦
            let above = AllAbove-at_key k key f t (ground (arith, e, l)) a in ground (arith, e, l)
      ]
    ]

-- Every entry of an alarm has a property.
abbrev pub AllAt : ℕ → (HostAlarm → Type 0) → Alarms → Type 0
AllAt key P t = All (λ e. e.0 ≡ key → P e.1) t

AllAt-above :
    (key : ℕ) (P : HostAlarm → Type 0) (t : Alarms) → All (λ e. key < e.0) t → AllAt key P t
AllAt-above key P [] a = tt
AllAt-above key P ((k, h) ∷ t) (b, a) = (λ e. absurd (omega arith), AllAt-above key P t a)

-- The place of a key before, at or after the first entry.
AllAt-placed :
    (key k : ℕ) (h : HostAlarm) (f : HostAlarm → HostAlarm) (P : HostAlarm → Type 0)
    (t rest : Alarms) (here before : Bool)
    → (k == key) ≡ here
    → ltb key k ≡ before
    → ((h : HostAlarm) → P (f h))
    → All (λ e. k < e.0) t
    → AllAt key P rest
    → AllAt key P (
        if here
        then (k, f h) ∷ t
        else if before
        then (key, f fresh) ∷ (k, h) ∷ t
        else (k, h) ∷ rest)
AllAt-placed key k h f P t rest true before e l p a r =
    let above = AllAbove_to key k t (ground (arith, e)) a in
    ((λ e'. p h), AllAt-above key P t above)
AllAt-placed key k h f P t rest false true e l p a r =
    let above = AllAbove_trans key k t (ground (arith, l)) a in
    ((λ e'. p fresh), ((λ e'. absurd (ground (arith, e, e'))), AllAt-above key P t above))
AllAt-placed key k h f P t rest false false e l p a r = ((λ e'. absurd (ground (arith, e, e'))), r)

AllAt-at_key :
    (key : ℕ) (f : HostAlarm → HostAlarm) (P : HostAlarm → Type 0) (t : Alarms)
    → ((h : HostAlarm) → P (f h))
    → IsSorted t
    → AllAt key P (at_key key f t)
unfolding at_key
AllAt-at_key key f P [] p s = ((λ e. p fresh), tt)
AllAt-at_key key f P ((k, h) ∷ t) p (a, s) =
    AllAt-placed key k h f P t _ _ _ refl refl p a (AllAt-at_key key f P t p s)

AllAt-none : (key : ℕ) (P : HostAlarm → Type 0) (t : Alarms) → find key t ≡ none → AllAt key P t
unfolding find
AllAt-none key P [] n = tt
AllAt-none key P ((k, h) ∷ t) n = elim (Bool-cases (k == key)) [
  | inl e ↦ absurd (ground (arith, e, n))
  | inr e ↦ ((λ e'. absurd (ground (arith, e, e'))), AllAt-none key P t (simp e at n))
]

abbrev pub IsIdle : HostAlarm → Type 0
IsIdle h = h.armed ≡ false

visit_idle :
    (now : ℤ) (key k : ℕ) (h : HostAlarm) → (k ≡ key → IsIdle h) → (visit now h).1 ≡ true → k ≢ key
unfolding visit
visit_idle now key k h j f e = let idle = j e in ground (arith, idle, f)

called_if :
    (key : ℕ) (d : ℕ × ℕ) (ds : List (ℕ × ℕ)) (b : Bool)
    → (b ≡ true → d.0 ≢ key)
    → All (λ d. d.0 ≢ key) ds
    → All (λ d. d.0 ≢ key) (if b then d ∷ ds else ds)
called_if key d ds true f a = (f refl, a)
called_if key d ds false f a = a

-- The alarms that a pass calls are not those whose entries are all idle.
scan_silent :
    (now : ℤ) (key : ℕ) (t : Alarms) (m : ℤ)
    → AllAt key IsIdle t
    → All (λ d. d.0 ≢ key) (scan now m t).due
unfolding scan visit
scan_silent now key [] m i = tt
scan_silent now key ((k, h) ∷ t) m (j, i) =
    called_if key (k, h.callback) _ (visit now h).1 (visit_idle now key k h j)
      (scan_silent now key t _ i)

cancelled_by :
    (t : Alarms) (alarm : ℕ)
    → IsSorted t
    → (null : Bool) (found : Option HostAlarm) → null ≡ false
    → find alarm t ≡ found
    → AllAt alarm IsIdle
        (if◌then◌else◌ {A = Alarms × ℕ} null
          (t, 0)
          (elim found [
            | none ↦ (t, 0)
            | some h ↦ (at_key alarm (λ h. record h { armed = false }) t, if h.armed then 1 else 0)
          ])).0
cancelled_by t alarm s true found n f = absurd (cc)
cancelled_by t alarm s false none n f = AllAt-none alarm IsIdle t f
cancelled_by t alarm s false (some h) n f =
    AllAt-at_key alarm (λ h. record h { armed = false }) IsIdle t (λ h. refl) s

cancelled-IsIdle :
    (t : Alarms) (alarm : ℕ)
    → IsSorted t
    → 0 < alarm
    → AllAt alarm IsIdle (os_cancel_alarm t alarm).0
unfolding os_cancel_alarm
cancelled-IsIdle t alarm s l =
    cancelled_by t alarm s (alarm == 0) (find alarm t) (ground arith) refl

-- In a map in the order of its keys, an alarm that was cancelled, at an address that is not null,
-- is not among those that a pass calls.
pub cancelled_is_silent :
    (t : Alarms) (alarm : ℕ) (now m : ℤ)
    → IsSorted t
    → 0 < alarm
    → All (λ d. d.0 ≢ alarm) (scan now m (os_cancel_alarm t alarm).0).due
cancelled_is_silent t alarm now m s l = scan_silent now alarm _ m (cancelled-IsIdle t alarm s l)
