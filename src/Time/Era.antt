-- ===== src/Time/Era.antt =====
-- Years and months of an era of 400 years: the arithmetic of both date functions, which nothing wraps.
use coreinit_nx.Base.{ℕ, ◌+◌, ◌-◌, ◌*◌, ◌/◌, ◌%◌, ◌≤◌, ◌<◌, ◌≡◌, ◌≢◌, ◌⊎◌, inl, inr, arith}
use native.Mathlib.Decide.{dec_lt, ℕ_discrete}
use coreinit_nx.Time.{year_of_era, days_before_year, day_of_year}

-- The last year of an era, and a year that ends with a 29th of February. Years begin in March.
abbrev pub IsLong : ℕ → Type 0
IsLong yoe = ((yoe + 1) % 4 ≡ 0) × (((yoe + 1) % 100 ≢ 0) ⊎ (yoe ≡ 399))

-- A year of an era and a day of it, from 0.
abbrev pub IsDay : ℕ → ℕ → Type 0
IsDay yoe doy = (yoe < 400) × ((doy < 365) ⊎ ((doy ≡ 365) × IsLong yoe))

-- The closed forms of both.
abbrev pub year_in : ℕ → ℕ
year_in doe = (doe - doe / 1460 + doe / 36524 - doe / 146096) / 365

abbrev pub year_start : ℕ → ℕ
year_start yoe = 365 * yoe + yoe / 4 - yoe / 100

pub days_before_year_lem : (yoe : ℕ) → yoe ≤ 400 → days_before_year yoe ≡ year_start yoe
unfolding days_before_year
days_before_year_lem yoe l = omega arith

pub year_of_era_lem : (doe : ℕ) → doe < 146097 → year_of_era doe ≡ year_in doe
unfolding year_of_era
year_of_era_lem doe l = omega arith

pub year_in-year_start :
    (doe : ℕ)
    → doe < 146097
    → (year_in doe < 400)
      × (year_start (year_in doe) ≤ doe)
      × (doe ≤ year_start (year_in doe) + 365)
year_in-year_start doe l = (omega arith, omega arith, omega arith)

year_in-IsLong :
    (doe : ℕ) → doe < 146097 → doe ≡ year_start (year_in doe) + 365 → IsLong (year_in doe)
year_in-IsLong doe l e = (
  omega arith,
  elim (ℕ_discrete ((year_in doe + 1) % 100) 0) [ yes h ↦ inr (omega arith) | no h ↦ inl h ],
)

-- The year that `civilFromDays` finds holds the day.
pub year_in-IsDay : (doe : ℕ) → doe < 146097 → IsDay (year_in doe) (doe - year_start (year_in doe))
year_in-IsDay doe l =
    let (y, lo, hi) = year_in-year_start doe l in
    (
      y,
      elim (dec_lt (doe - year_start (year_in doe)) 365) [
        | yes h ↦ inl h
        | no h ↦ inr (omega arith, year_in-IsLong doe l (omega arith))
      ],
    )

-- No other year does.
pub IsDay-year_in :
    (yoe doy : ℕ)
    → IsDay yoe doy
    → (year_start yoe + doy < 146097) × (year_in (year_start yoe + doy) ≡ yoe)
IsDay-year_in yoe doy (l, inl d) = (omega arith, omega arith)
IsDay-year_in yoe doy (l, inr (d, (four, inl hundred))) = (omega arith, omega arith)
IsDay-year_in yoe doy (l, inr (d, (four, inr last))) = (omega arith, omega arith)

-- A month counted from March, and a day of it from 1.
abbrev pub month_start : ℕ → ℕ
month_start mp = (153 * mp + 2) / 5

pub day_of_year_lem :
    (m d : ℕ)
    → 1 ≤ m
    → m ≤ 12
    → 1 ≤ d
    → d ≤ 31
    → day_of_year m d + 1 ≡ month_start ((m + 9) % 12) + d
unfolding day_of_year
day_of_year_lem m d = ground arith
