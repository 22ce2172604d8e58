-- ===== src/Time/Gregorian.antt =====
-- The rules of the Gregorian calendar: leap years and the lengths of months.
use coreinit_nx.Base.{
  ℕ, ◌+◌, ◌*◌, ◌%◌, ◌≤◌, ◌<◌, ◌≡◌, ◌≢◌, ◌↔◌, refl, ap, Bool, true, false, not, ◌&&◌, ◌||◌, ◌==◌,
  if◌then◌else◌, arith,
}
use coreinit_nx.Base.Int.{ℤ, pos, negsuc, pos_part, neg_part, ◌+ℤ◌, scale, tmod, eqb_ℤ, +ℤ_parts}
use coreinit_nx.Time.{CivilDate}
use coreinit_nx.Time.Era.{IsLong}
use coreinit_nx.Time.Floor.{scale_parts}
use coreinit_nx.Time.Months.{month_in, day_in, month_days}

-- Is a number a multiple of another?
abbrev pub divides : ℕ → ℤ → Bool
divides k y = eqb_ℤ (tmod y k) (pos 0)

unfoldable pub is_leap : ℤ → Bool
is_leap y = divides 4 y && (not (divides 100 y) || divides 400 y)

-- February has a day less in a year that is not a leap year.
unfoldable pub days_in_month : ℤ → ℕ → ℕ
days_in_month y m = if m == 2 && not (is_leap y) then 28 else month_days m

-- A date of the calendar.
pub record IsDate (c : CivilDate) : Type 0 where
  pub month_in : (1 ≤ c.month) × (c.month ≤ 12)
  pub day_in : (1 ≤ c.day) × (c.day ≤ days_in_month c.year c.month)

divides_at :
    (era : ℤ) (yoe : ℕ) (y : ℤ)
    → yoe < 400
    → pos_part y + neg_part era * 400 ≡ neg_part y + pos_part era * 400 + yoe + 1
    → (divides 4 y ≡ ((yoe + 1) % 4 == 0))
      × (divides 100 y ≡ ((yoe + 1) % 100 == 0))
      × (divides 400 y ≡ (yoe == 399))
divides_at era yoe (pos n) l h = (ground arith, ground arith, ground arith)
divides_at era yoe (negsuc n) l h = (ground arith, ground arith, ground arith)

-- A year that ends an early month is a leap year if the year that began in March is long.
pub is_leap-IsLong :
    (era : ℤ) (yoe : ℕ) (y : ℤ)
    → yoe < 400
    → y ≡ scale era 400 +ℤ pos (yoe + 1)
    → (is_leap y ≡ true) ↔ IsLong yoe
unfolding is_leap
is_leap-IsLong era yoe y l e =
    let s = scale_parts era 400 in
    let a = +ℤ_parts (scale era 400) (pos (yoe + 1)) in
    let p = ap pos_part e in
    let n = ap neg_part e in
    let (four, hundred, all) = divides_at era yoe y l (omega arith) in
    rw (four, hundred, all) (ground arith)

-- The last day of a month in two parts: 29 in February, less one day unless the year is a leap year.
pub day_bound :
    (y : ℤ) (m d : ℕ)
    → d ≤ month_days m
    → (m ≡ 2 → d ≡ 29 → is_leap y ≡ true)
    → d ≤ days_in_month y m
unfolding days_in_month
day_bound y m d l h = ground arith

pub day_bound_parts :
    (y : ℤ) (m d : ℕ)
    → d ≤ days_in_month y m
    → (d ≤ month_days m) × (m ≡ 2 → d ≡ 29 → is_leap y ≡ true)
unfolding days_in_month
day_bound_parts y m d l = (ground arith, λ a b. ground arith)

-- The 29th of February is the last day of a year that begins in March.
pub last_day : (doy : ℕ) → doy ≤ 365 → month_in doy ≡ 2 → day_in doy ≡ 29 → doy ≡ 365
last_day doy l m d = ground arith

pub day_within :
    (y : ℤ) (m d : ℕ)
    → d < month_days m
    → (m ≡ 2 → d ≡ 28 → is_leap y ≡ true)
    → d < days_in_month y m
unfolding days_in_month
day_within y m d l h = ground arith

pub days_in_month_lem : (y : ℤ) (m : ℕ) → m ≢ 2 → days_in_month y m ≡ month_days m
unfolding days_in_month
days_in_month_lem y m h = ground arith

pub february : (y : ℤ) → days_in_month y 2 ≡ (if is_leap y then 29 else 28)
unfolding days_in_month
february y =
    elim (is_leap y) as (λ b. if◌then◌else◌ {A = ℕ} (not b) 28 29 ≡ (if b then 29 else 28)) [
      | true ↦ refl
      | false ↦ refl
    ]
