-- ===== src/Time/Inverse.antt =====
-- `daysFromCivil` and `civilFromDays` are inverse to one another.
use coreinit_nx.Base.{
  ℕ, ◌+◌, ◌-◌, ◌^◌, ◌≤◌, ◌<◌, ◌≡◌, ◌↔◌, refl, sym, ap, ap₂, ◌∙◌, subst, inl, inr, true, arith,
}
use native.Mathlib.Decide.{dec_lt}
use coreinit_nx.Base.Int.{
  ℤ, pos, pos_part, neg_part, ◌+ℤ◌, ◌-ℤ◌, scale, to_word, to_i32, nat_abs, +ℤ_parts, -ℤ_parts,
  eq_of_parts,
}
use coreinit_nx.Time.{days_from_civil, CivilDate, civil_from_days, day_of_year, floor_div}
use coreinit_nx.Time.Era.{IsLong, IsDay, year_in, year_start, year_in-year_start, year_in-IsDay}
use coreinit_nx.Time.Floor.{
  scale_parts, floor_400, floor_146097, to_i32_lem, -ℤ-+ℤ, +ℤ--ℤ, one_part, nat_abs_parts,
}
use coreinit_nx.Time.Months.{
  month_in, day_in, month_in_bounds, day_of_year-month_in, month_in-day_of_year,
}
use coreinit_nx.Time.Civil.{early, days_from_civil_at, civil_from_days_at, IsDay-le}
use coreinit_nx.Time.Gregorian.{
  is_leap, is_leap-IsLong, IsDate, day_bound, day_bound_parts, last_day,
}

-- What `civilFromDays` finds: an era, a year of it and a day of that, which make up the date.
pub record Found (z : ℤ) : Type 0 where
  pub era : ℤ
  pub yoe : ℕ
  pub doy : ℕ
  pub is_day : IsDay yoe doy
  pub days : z +ℤ pos 719468 ≡ scale era 146097 +ℤ pos (year_start yoe + doy)

pub find : (z : ℤ) → Found z
find z =
    let z' = z +ℤ pos 719468 in
    let (r, s) = floor_146097 z' in
    let doe = to_word 32 (z' -ℤ scale (floor_div z' 146097) 146097) in
    let (y, lo, hi) = year_in-year_start doe r in
    let whole : doe ≡ year_start (year_in doe) + (doe - year_start (year_in doe)) = omega arith in
    record {
      era = floor_div z' 146097;
      yoe = year_in doe;
      doy = doe - year_start (year_in doe);
      is_day = year_in-IsDay doe r;
      days = s ∙ ap (λ x. scale (floor_div z' 146097) 146097 +ℤ pos x) whole;
    }

-- The year of a date, from its era, its year of that and its month.
unfoldable pub year_at : ℤ → ℕ → ℕ → ℤ
year_at era yoe m = (pos yoe +ℤ scale era 400) +ℤ pos (early m)

year_at-early :
    (era : ℤ) (yoe m : ℕ) → year_at era yoe m -ℤ pos (early m) ≡ scale era 400 +ℤ pos yoe
unfolding year_at
year_at-early era yoe m =
    let a = +ℤ_parts (pos yoe) (scale era 400) in
    let b = +ℤ_parts (scale era 400) (pos yoe) in
    -ℤ-+ℤ (pos yoe +ℤ scale era 400) (early m) ∙ eq_of_parts _ _ (omega arith)

year_at_bound :
    (z era : ℤ) (yoe doy m : ℕ)
    → nat_abs z < 2 ^ 38
    → IsDay yoe doy
    → z +ℤ pos 719468 ≡ scale era 146097 +ℤ pos (year_start yoe + doy)
    → nat_abs (year_at era yoe m) < 2 ^ 31
unfolding year_at
year_at_bound z era yoe doy m l v h =
    let (b, k) = IsDay-le yoe doy v in
    let s = scale_parts era 400 in
    let t = scale_parts era 146097 in
    let a = +ℤ_parts (pos yoe) (scale era 400) in
    let c = +ℤ_parts (pos yoe +ℤ scale era 400) (pos (early m)) in
    let d = +ℤ_parts z (pos 719468) in
    let f = +ℤ_parts (scale era 146097) (pos (year_start yoe + doy)) in
    let p = ap pos_part h in
    let n = ap neg_part h in
    let i = one_part z in
    let j = one_part era in
    let o = one_part (year_at era yoe m) in
    let q = nat_abs_parts z in
    let r = nat_abs_parts (year_at era yoe m) in let w : early m ≤ 1 = ground arith in omega arith

pub civil_found :
    (z : ℤ) (f : Found z)
    → nat_abs z < 2 ^ 38
    → civil_from_days z ≡ record {
      year = year_at f.era f.yoe (month_in f.doy);
      month = month_in f.doy;
      day = day_in f.doy;
    }
unfolding year_at
civil_found z f l =
    civil_from_days_at f.era f.yoe f.doy z f.is_day f.days
    ∙ ap (λ y. record { year = y; month = month_in f.doy; day = day_in f.doy })
        (to_i32_lem _ (year_at_bound z f.era f.yoe f.doy (month_in f.doy) l f.is_day f.days))

days-found :
    (z : ℤ) (f : Found z)
    → days_from_civil (year_at f.era f.yoe (month_in f.doy)) (month_in f.doy) (day_in f.doy) ≡ z
days-found z f =
    let (b, k) = IsDay-le f.yoe f.doy f.is_day in
    days_from_civil_at f.era f.yoe f.doy _ (month_in f.doy) (day_in f.doy) b k
      (year_at-early f.era f.yoe (month_in f.doy)) (day_of_year-month_in f.doy k)
    ∙ ap (λ x. x -ℤ pos 719468) (sym f.days)
    ∙ -ℤ-+ℤ z 719468

-- For a day number within 2 ^ 38 of 1970, `daysFromCivil` of the date that `civilFromDays` gives is
-- that number.
pub days_from_civil-civil_from_days :
    (z : ℤ)
    → nat_abs z < 2 ^ 38
    → let c = civil_from_days z in days_from_civil c.year c.month c.day ≡ z
days_from_civil-civil_from_days z l =
    ap (λ c. days_from_civil c.year c.month c.day) (civil_found z (find z) l)
    ∙ days-found z (find z)

IsDay-IsLong : (yoe doy : ℕ) → IsDay yoe doy → doy ≡ 365 → IsLong yoe
IsDay-IsLong yoe doy (l, inl d) e = omega arith
IsDay-IsLong yoe doy (l, inr (d, h)) e = h

pub is_leap-year_at :
    (era : ℤ) (yoe m : ℕ) → yoe < 400 → m ≡ 2 → (is_leap (year_at era yoe m) ≡ true) ↔ IsLong yoe
unfolding year_at
is_leap-year_at era yoe m l e =
    let a = +ℤ_parts (pos yoe) (scale era 400) in
    let b = +ℤ_parts (pos yoe +ℤ scale era 400) (pos (early m)) in
    let c = +ℤ_parts (scale era 400) (pos (yoe + 1)) in
    let w : early m ≡ 1 = ground arith in
    is_leap-IsLong era yoe (year_at era yoe m) l (eq_of_parts _ _ (omega arith))

IsDate-found :
    (z : ℤ) (f : Found z)
    → IsDate (record {
      year = year_at f.era f.yoe (month_in f.doy);
      month = month_in f.doy;
      day = day_in f.doy;
    })
IsDate-found z f =
    let (b, k) = IsDay-le f.yoe f.doy f.is_day in
    let (m1, m2, d1, d2) = month_in_bounds f.doy k in
    record {
      month_in = (m1, m2);
      day_in = (
        d1,
        day_bound _ _ _ d2 (λ m d.
            (is_leap-year_at f.era f.yoe (month_in f.doy) b m).1
              (IsDay-IsLong f.yoe f.doy f.is_day (last_day f.doy k m d))),
      );
    }

-- For a day number within 2 ^ 38 of 1970, `civilFromDays` gives a date of the Gregorian calendar: a
-- month from 1 to 12 and a day from 1 to the length that the rules of leap years give that month.
pub civil_from_days-IsDate : (z : ℤ) → nat_abs z < 2 ^ 38 → IsDate (civil_from_days z)
civil_from_days-IsDate z l = subst IsDate (sym (civil_found z (find z) l)) (IsDate-found z (find z))

-- A date lies in an era, a year of it that begins in March and a day of that.
record Placed (c : CivilDate) : Type 0 where
  pub era : ℤ
  pub yoe : ℕ
  is_day : IsDay yoe (day_of_year c.month c.day)
  year_is : c.year -ℤ pos (early c.month) ≡ scale era 400 +ℤ pos yoe
  month_is : month_in (day_of_year c.month c.day) ≡ c.month
  day_is : day_in (day_of_year c.month c.day) ≡ c.day

year_at-year :
    (era y : ℤ) (yoe m : ℕ) → y -ℤ pos (early m) ≡ scale era 400 +ℤ pos yoe → year_at era yoe m ≡ y
unfolding year_at
year_at-year era y yoe m h =
    let a = +ℤ_parts (pos yoe) (scale era 400) in
    let b = +ℤ_parts (pos yoe +ℤ scale era 400) (pos (early m)) in
    let c = +ℤ_parts (scale era 400) (pos yoe) in
    let d = -ℤ_parts y (pos (early m)) in
    let p = ap pos_part h in let n = ap neg_part h in eq_of_parts _ _ (omega arith)

day_of_year-IsDay :
    (yoe m d : ℕ)
    → yoe < 400
    → month_in (day_of_year m d) ≡ m
    → day_in (day_of_year m d) ≡ d
    → day_of_year m d ≤ 365
    → (m ≡ 2 → d ≡ 29 → IsLong yoe)
    → IsDay yoe (day_of_year m d)
day_of_year-IsDay yoe m d l a b k h = (
  l,
  elim (dec_lt (day_of_year m d) 365) [
    | yes r ↦ inl r
    | no r ↦
        let e : day_of_year m d ≡ 365 = omega arith in
        inr (e, h (sym a ∙ ap (λ x. month_in x) e) (sym b ∙ ap (λ x. day_in x) e))
  ],
)

locate : (c : CivilDate) → IsDate c → Placed c
locate c h =
    let y' = c.year -ℤ pos (early c.month) in
    let (r, s) = floor_400 y' in
    let era = floor_div y' 400 in
    let yoe = to_word 32 (y' -ℤ scale era 400) in
    let (m1, m2) = h.month_in in
    let (d1, d2) = h.day_in in
    let (l, leap) = day_bound_parts c.year c.month c.day d2 in
    let (a, b, k) = month_in-day_of_year c.month c.day m1 m2 d1 l in
    record {
      era = era;
      yoe = yoe;
      is_day = day_of_year-IsDay yoe c.month c.day r a b k (λ m d.
          (is_leap-year_at era yoe c.month r m).0
            (ap is_leap (year_at-year era c.year yoe c.month s) ∙ leap m d));
      year_is = s;
      month_is = a;
      day_is = b;
    }

civil-Placed :
    (c : CivilDate)
    → Placed c
    → nat_abs c.year < 2 ^ 31
    → civil_from_days (days_from_civil c.year c.month c.day) ≡ c
unfolding year_at
civil-Placed c p l =
    let doy = day_of_year c.month c.day in
    let x = scale p.era 146097 +ℤ pos (year_start p.yoe + doy) in
    let (b, k) = IsDay-le p.yoe doy p.is_day in
    let z = days_from_civil_at p.era p.yoe doy c.year c.month c.day b k p.year_is refl in
    civil_from_days_at p.era p.yoe doy _ p.is_day (ap (λ w. w +ℤ pos 719468) z ∙ +ℤ--ℤ x 719468)
    ∙ ap₂
        (λ m d. record {
          year = to_i32 ((pos p.yoe +ℤ scale p.era 400) +ℤ pos (early m));
          month = m;
          day = d;
        })
        p.month_is p.day_is
    ∙ ap (λ y. record { year = to_i32 y; month = c.month; day = c.day })
        (year_at-year p.era c.year p.yoe c.month p.year_is)
    ∙ ap (λ y. record { year = y; month = c.month; day = c.day }) (to_i32_lem c.year l)

-- For a date of the Gregorian calendar whose year is less than 2 ^ 31 away from 0, `civilFromDays` of
-- the day number that `daysFromCivil` gives is that date.
pub civil_from_days-days_from_civil :
    (c : CivilDate)
    → IsDate c
    → nat_abs c.year < 2 ^ 31
    → civil_from_days (days_from_civil c.year c.month c.day) ≡ c
civil_from_days-days_from_civil c h l = civil-Placed c (locate c h) l
