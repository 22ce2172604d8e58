-- ===== src/Time/Days.antt =====
-- The calendar day by day: a reference definition for `civilFromDays`.
use native.Mathlib.Decide.{dec_lt, ℕ_discrete}
use coreinit_nx.Base.{
  ℕ, ◌+◌, ◌≤◌, ◌<◌, ◌≡◌, ◌≢◌, ◌⊎◌, refl, sym, ap, ap₂, ◌∙◌, inl, inr, true, false, ltb, ◌==◌,
  if◌then◌else◌, arith,
}
use coreinit_nx.Base.Int.{ℤ, pos, ◌+ℤ◌, scale, +ℤ_parts, eq_of_parts}
use coreinit_nx.Time.{CivilDate}
use coreinit_nx.Time.Months.{month_in, day_in, month_days, month_in_bounds}
use coreinit_nx.Time.Civil.{early}
use coreinit_nx.Time.Gregorian.{is_leap, days_in_month, day_within, days_in_month_lem}
use coreinit_nx.Time.Inverse.{year_at}

-- The day after a date.
pub next_date : CivilDate → CivilDate
next_date c =
    if ltb c.day (days_in_month c.year c.month)
    then record c { day = c.day + 1 }
    else if c.month == 12
    then record { year = c.year +ℤ pos 1; month = 1; day = 1 }
    else record c { month = c.month + 1; day = 1 }

abbrev pub date_at : ℤ → ℕ → ℕ → CivilDate
date_at era yoe doy = record {
  year = year_at era yoe (month_in doy);
  month = month_in doy;
  day = day_in doy;
}

next_date_within :
    (c : CivilDate)
    → c.day < days_in_month c.year c.month
    → next_date c ≡ record c { day = c.day + 1 }
unfolding next_date
next_date_within c l =
    let e : ltb c.day (days_in_month c.year c.month) ≡ true = ground arith in
    ap
      (λ b.
        if b
        then record c { day = c.day + 1 }
        else if c.month == 12
        then record { year = c.year +ℤ pos 1; month = 1; day = 1 }
        else record c { month = c.month + 1; day = 1 })
      e

next_date_after :
    (c : CivilDate)
    → days_in_month c.year c.month ≤ c.day
    → next_date c ≡ (
        if c.month == 12
        then record { year = c.year +ℤ pos 1; month = 1; day = 1 }
        else record c { month = c.month + 1; day = 1 })
unfolding next_date
next_date_after c l =
    let e : ltb c.day (days_in_month c.year c.month) ≡ false = ground arith in
    ap
      (λ b.
        if b
        then record c { day = c.day + 1 }
        else if c.month == 12
        then record { year = c.year +ℤ pos 1; month = 1; day = 1 }
        else record c { month = c.month + 1; day = 1 })
      e

-- The month and the day after a day of the year that is not its last.
month_step :
    (doy : ℕ)
    → doy < 365
    → ((month_in (doy + 1) ≡ month_in doy)
        × (day_in (doy + 1) ≡ day_in doy + 1)
        × (day_in doy < month_days (month_in doy))
        × (month_in doy ≡ 2 → day_in doy ≡ 28 → doy ≡ 364))
      ⊎ ((day_in doy ≡ month_days (month_in doy))
          × (day_in (doy + 1) ≡ 1)
          × (month_in doy ≢ 2)
          × (month_in (doy + 1) ≡ (if month_in doy == 12 then 1 else month_in doy + 1)))
month_step doy l = elim (dec_lt (day_in doy) (month_days (month_in doy))) [
  | yes h ↦ inl (ground arith, ground arith, h, λ a b. ground arith)
  | no h ↦ inr (ground arith, ground arith, (λ a. ground arith), ground arith)
]

year_at-early_eq :
    (era : ℤ) (yoe m n : ℕ) → early m ≡ early n → year_at era yoe m ≡ year_at era yoe n
unfolding year_at
year_at-early_eq era yoe m n h = ap (λ x. (pos yoe +ℤ scale era 400) +ℤ pos x) h

year_at-december : (era : ℤ) (yoe : ℕ) → year_at era yoe 12 +ℤ pos 1 ≡ year_at era yoe 1
unfolding year_at
year_at-december era yoe =
    let a = +ℤ_parts (pos yoe +ℤ scale era 400) (pos 0) in
    let b = +ℤ_parts (pos yoe +ℤ scale era 400) (pos 1) in
    let c = +ℤ_parts ((pos yoe +ℤ scale era 400) +ℤ pos 0) (pos 1) in eq_of_parts _ _ (omega arith)

date_eq :
    {y y' : ℤ} {m m' d d' : ℕ}
    → y ≡ y'
    → m ≡ m'
    → d ≡ d'
    → ◌≡◌ {A = CivilDate}
        (record { year = y; month = m; day = d })
        (record { year = y'; month = m'; day = d' })
date_eq {y' = y'} {m = m} {d = d} a b c =
    ap (λ y. record { year = y; month = m; day = d }) a
    ∙ ap₂ (λ x z. record { year = y'; month = x; day = z }) b c

-- A month that ends, within a year that begins in March.
next_date-turn :
    (era : ℤ) (yoe doy m n : ℕ)
    → month_in doy ≡ m
    → m ≢ 2
    → 1 ≤ m
    → days_in_month (year_at era yoe m) m ≤ day_in doy
    → n ≡ (if m == 12 then 1 else m + 1)
    → next_date (record { year = year_at era yoe m; month = m; day = day_in doy })
      ≡ record { year = year_at era yoe n; month = n; day = 1 }
next_date-turn era yoe doy m n h k a l e = elim (ℕ_discrete m 12) [
  | yes b ↦
      let t : (m == 12) ≡ true = ground arith in
      let one : n ≡ 1 = ground arith in
      next_date_after _ l
      ∙ ap
          (λ c.
            if c
            then record { year = year_at era yoe m +ℤ pos 1; month = 1; day = 1 }
            else record { year = year_at era yoe m; month = m + 1; day = 1 })
          t
      ∙ date_eq
          (ap (λ x. year_at era yoe x +ℤ pos 1) b
            ∙ year_at-december era yoe
            ∙ ap (year_at era yoe) (sym one))
          (sym one) refl
  | no b ↦
      let t : (m == 12) ≡ false = ground arith in
      let next : n ≡ m + 1 = ground arith in
      next_date_after _ l
      ∙ ap
          (λ c.
            if c
            then record { year = year_at era yoe m +ℤ pos 1; month = 1; day = 1 }
            else record { year = year_at era yoe m; month = m + 1; day = 1 })
          t
      ∙ date_eq (year_at-early_eq era yoe m n (ground arith)) (sym next) refl
]

-- Within a year that begins in March.
pub next_date-date_at :
    (era : ℤ) (yoe doy : ℕ)
    → doy < 365
    → (doy ≡ 364 → is_leap (year_at era yoe 2) ≡ true)
    → next_date (date_at era yoe doy) ≡ date_at era yoe (doy + 1)
next_date-date_at era yoe doy l h =
    let (one, top, first, last) = month_in_bounds doy (omega arith) in
    elim (month_step doy l) [
      | inl (m, d, k, f) ↦
          next_date_within (date_at era yoe doy)
            (day_within _ _ _ k (λ a b. ap (λ x. is_leap (year_at era yoe x)) a ∙ h (f a b)))
          ∙ date_eq (ap (year_at era yoe) (sym m)) (sym m) (sym d)
      | inr (k, d, f, m) ↦
          let i = days_in_month_lem (year_at era yoe (month_in doy)) (month_in doy) f in
          next_date-turn era yoe doy (month_in doy) _ refl f one (omega arith) m
          ∙ date_eq refl refl (sym d)
    ]

-- The 28th of February of a year that is not a leap year, and a 29th.
pub next_date-last :
    (era era' : ℤ) (yoe yoe' doy : ℕ)
    → month_in doy ≡ 2
    → days_in_month (year_at era yoe 2) 2 ≤ day_in doy
    → year_at era yoe 2 ≡ year_at era' yoe' 3
    → next_date (date_at era yoe doy) ≡ date_at era' yoe' 0
next_date-last era era' yoe yoe' doy m l y =
    ap (λ x. next_date (record { year = year_at era yoe x; month = x; day = day_in doy })) m
    ∙ next_date_after _ l
    ∙ date_eq y refl refl
