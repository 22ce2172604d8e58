-- ===== src/Time/Months.antt =====
-- Months of a year that begins in March, and the days of each.
use coreinit_nx.Base.{ℕ, ◌+◌, ◌-◌, ◌*◌, ◌/◌, ◌%◌, ◌≤◌, ◌≡◌, ltb, ◌==◌, if◌then◌else◌, arith}
use coreinit_nx.Time.{day_of_year}
use coreinit_nx.Time.Era.{month_start}

-- The month and the day of it, from 1, of a day of the year.
abbrev pub month_in : ℕ → ℕ
month_in doy = let mp = (5 * doy + 2) / 153 in if ltb mp 10 then mp + 3 else mp - 9

abbrev pub day_in : ℕ → ℕ
day_in doy = doy - month_start ((5 * doy + 2) / 153) + 1

-- The days of a month, 29 for the second: the others have 31 and 30 in turn, and July and August both 31.
abbrev pub month_days : ℕ → ℕ
month_days m = if m == 2 then 29 else 30 + (m + m / 8) % 2

pub month_in_bounds :
    (doy : ℕ)
    → doy ≤ 365
    → (1 ≤ month_in doy)
      × (month_in doy ≤ 12)
      × (1 ≤ day_in doy)
      × (day_in doy ≤ month_days (month_in doy))
month_in_bounds doy l = ground arith

pub day_of_year-month_in : (doy : ℕ) → doy ≤ 365 → day_of_year (month_in doy) (day_in doy) ≡ doy
unfolding day_of_year
day_of_year-month_in doy l = ground arith

pub month_in-day_of_year :
    (m d : ℕ)
    → 1 ≤ m
    → m ≤ 12
    → 1 ≤ d
    → d ≤ month_days m
    → (month_in (day_of_year m d) ≡ m) × (day_in (day_of_year m d) ≡ d) × (day_of_year m d ≤ 365)
unfolding day_of_year
month_in-day_of_year m d a b c e = ground arith
