-- ===== src/Time/Civil.antt =====
-- `civilFromDays` and `daysFromCivil` are inverse to one another, on every date of the Gregorian
-- calendar whose year fits in 32 bits.
use coreinit_nx.Base.{
  ℕ, ◌+◌, ◌-◌, ◌*◌, ◌/◌, ◌^◌, ◌≤◌, ◌<◌, ◌≡◌, sym, ap, ap₂, ◌∙◌, inl, inr, leb, if◌then◌else◌, arith,
}
use coreinit_nx.Base.Int.{ℤ, pos, ◌+ℤ◌, ◌-ℤ◌, scale, to_word, to_i32}
use coreinit_nx.Time.{
  u32, floor_div, day_of_year, days_from_civil, year_of_era, days_before_year, civil_from_days,
  day_number, civil_month, civil_day, civil_on, civil_of_era,
}
use coreinit_nx.Time.Era.{IsDay, year_start, year_of_era_lem, days_before_year_lem, IsDay-year_in}
use coreinit_nx.Time.Floor.{floor_400, floor_146097, unique_400, unique_146097}
use coreinit_nx.Time.Months.{month_in, day_in}

-- 1 for January and February, which belong to the year before that begins in March.
abbrev pub early : ℕ → ℕ
early m = if leb m 2 then 1 else 0

doe_sum :
    (yoe doy : ℕ)
    → yoe < 400
    → doy ≤ 365
    → u32 (u32 (yoe * 365 + yoe / 4) + (2 ^ 32 - yoe / 100) + doy) ≡ year_start yoe + doy
doe_sum yoe doy l k = omega arith

-- `daysFromCivil`, for a year of an era and a day of that year.
pub days_from_civil_at :
    (era : ℤ) (yoe doy : ℕ) (y : ℤ) (m d : ℕ)
    → yoe < 400
    → doy ≤ 365
    → y -ℤ pos (early m) ≡ scale era 400 +ℤ pos yoe
    → day_of_year m d ≡ doy
    → days_from_civil y m d ≡ (scale era 146097 +ℤ pos (year_start yoe + doy)) -ℤ pos 719468
unfolding days_from_civil
days_from_civil_at era yoe doy y m d l k hy hd =
    let y' = y -ℤ pos (early m) in
    let (r, s) = floor_400 y' in
    let rest = to_word 32 (y' -ℤ scale (floor_div y' 400) 400) in
    let (e, o) = unique_400 (floor_div y' 400) era rest yoe r l (sym s ∙ hy) in
    ap (λ x. day_number x rest (day_of_year m d)) e
    ∙ ap₂ (λ x z. day_number era x z) o hd
    ∙ ap (λ x. (scale era 146097 +ℤ pos x) -ℤ pos 719468) (doe_sum yoe doy l k)

civil_month_lem : (doy : ℕ) → doy ≤ 365 → civil_month doy ≡ month_in doy
civil_month_lem doy l = ground arith

civil_day_lem : (doy : ℕ) → doy ≤ 365 → civil_day doy ≡ day_in doy
civil_day_lem doy l = omega arith

day_left :
    (yoe doy : ℕ)
    → yoe < 400
    → doy ≤ 365
    → u32 (year_start yoe + doy + (2 ^ 32 - days_before_year yoe)) ≡ doy
day_left yoe doy l k = omega (arith, days_before_year_lem yoe (omega arith))

pub IsDay-le : (yoe doy : ℕ) → IsDay yoe doy → (yoe < 400) × (doy ≤ 365)
IsDay-le yoe doy (l, inl d) = (l, omega arith)
IsDay-le yoe doy (l, inr (d, h)) = (l, omega arith)

-- `civilFromDays`, in the same way.
pub civil_from_days_at :
    (era : ℤ) (yoe doy : ℕ) (z : ℤ)
    → IsDay yoe doy
    → z +ℤ pos 719468 ≡ scale era 146097 +ℤ pos (year_start yoe + doy)
    → civil_from_days z ≡ record {
      year = to_i32 ((pos yoe +ℤ scale era 400) +ℤ pos (early (month_in doy)));
      month = month_in doy;
      day = day_in doy;
    }
unfolding civil_from_days
civil_from_days_at era yoe doy z v h =
    let z' = z +ℤ pos 719468 in
    let (b, k) = IsDay-le yoe doy v in
    let (c, y) = IsDay-year_in yoe doy v in
    let (r, s) = floor_146097 z' in
    let rest = to_word 32 (z' -ℤ scale (floor_div z' 146097) 146097) in
    let doe = year_start yoe + doy in
    let (e, o) = unique_146097 (floor_div z' 146097) era rest doe r c (sym s ∙ h) in
    let year : year_of_era doe ≡ yoe = year_of_era_lem doe c ∙ y in
    ap₂ (λ x w. civil_of_era x w) e o
    ∙ ap (λ x. civil_on era x (u32 (doe + (2 ^ 32 - days_before_year x)))) year
    ∙ ap (λ x. civil_on era yoe x) (day_left yoe doy b k)
    ∙ ap₂
        (λ m d. record {
          year = to_i32 ((pos yoe +ℤ scale era 400) +ℤ pos (early m));
          month = m;
          day = d;
        })
        (civil_month_lem doy k) (civil_day_lem doy k)
