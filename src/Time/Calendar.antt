-- ===== src/Time/Calendar.antt =====
-- Ticks to a calendar time and back.
use coreinit_nx.Base.{
  ℕ, suc, ◌+◌, ◌-◌, ◌*◌, ◌/◌, ◌%◌, ◌^◌, ◌≤◌, ◌<◌, ◌≡◌, refl, sym, subst, ap, ap₂, ◌∙◌, some, arith,
}
use coreinit_nx.Base.Int.{
  ℤ, pos, negsuc, pos_part, neg_part, ◌+ℤ◌, ◌-ℤ◌, ◌≤ℤ◌, scale, tmod, nat_abs, +ℤ_parts,
}
use coreinit_nx.Time.{
  timer_hz, unix_to_cafe_epoch, days_from_civil, CivilDate, civil_from_days, CalendarTime,
  floor_quot, calendar_on, microseconds, os_ticks_to_calendar_time, whole_ticks,
  os_calendar_time_to_ticks,
}
use coreinit_nx.Time.Floor.{one_part, nat_abs_parts, -ℤ-+ℤ, +ℤ--ℤ}
use coreinit_nx.Time.Gregorian.{IsDate}
use coreinit_nx.Time.Inverse.{days_from_civil-civil_from_days, civil_from_days-IsDate}
use coreinit_nx.Time.Parts.{
  IsFloor-timer_hz, IsFloor-day, usec_ticks, unix_seconds-calendar_on, part_ticks-calendar_on,
  days_of_bound, calendar_lem, unix_secs, days_of, second_of_day, rem_of,
}

abbrev written : ℤ → CalendarTime
written time =
    calendar_on (days_of time) (pos (second_of_day time)) (microseconds (pos (rem_of time)))

whole_ticks-written :
    (time : ℤ)
    → nat_abs time < 2 ^ 63
    → whole_ticks (written time) ≡ scale (floor_quot time timer_hz) timer_hz
whole_ticks-written time l =
    let (d, e, f) = IsFloor-day (unix_secs time) in
    ap (λ x. scale (x -ℤ unix_to_cafe_epoch) timer_hz)
      (unix_seconds-calendar_on (days_of time) (second_of_day time)
          (microseconds (pos (rem_of time))) (days_of_bound time l) d
        ∙ sym (f ∙ ap (λ x. scale (days_of time) 86400 +ℤ x) e))
    ∙ ap (λ x. scale x timer_hz) (-ℤ-+ℤ (floor_quot time timer_hz) 946684800)

-- For a time at least a second of ticks away from both ends of the 64-bit range, `OSTicksToCalendarTime`
-- writes a calendar time of which `OSCalendarTimeToTicks` makes a time that is not after the one given,
-- and before it by at most 63 ticks, about a microsecond; the product of its whole seconds and the rate of
-- the timer stays in 64 bits.
pub os_calendar_time_to_ticks-os_ticks_to_calendar_time :
    (time : ℤ) (ct : CalendarTime)
    → nat_abs time + timer_hz ≤ 2 ^ 63
    → (new : CalendarTime) × (os_ticks_to_calendar_time time (some ct) ≡ some new)
      × (nat_abs (whole_ticks new) < 2 ^ 63)
      × (os_calendar_time_to_ticks (some new) ≤ℤ time)
      × (time ≤ℤ os_calendar_time_to_ticks (some new) +ℤ pos 63)
unfolding os_calendar_time_to_ticks
os_calendar_time_to_ticks-os_ticks_to_calendar_time time ct l =
    let u = microseconds (pos (rem_of time)) in
    let t = (u / 1000 * 1000 + u % 1000) * timer_hz / 1000000 in
    let whole = scale (floor_quot time timer_hz) timer_hz in
    let (a, b, c) = IsFloor-timer_hz time in
    let product = whole_ticks-written time (omega arith) in
    let ticks : os_calendar_time_to_ticks (some (written time)) ≡ whole +ℤ pos t =
      ap₂ (λ x y. x +ℤ y) product (part_ticks-calendar_on (days_of time) (second_of_day time) u) in
    let (lo, hi, m) = usec_ticks (rem_of time) a in
    let v = c ∙ ap (λ x. whole +ℤ x) b in
    let p = ap pos_part v in
    let n = ap neg_part v in
    let p' = ap pos_part ticks in
    let n' = ap neg_part ticks in
    let x = +ℤ_parts whole (pos (rem_of time)) in
    let y = +ℤ_parts whole (pos t) in
    let z = +ℤ_parts (os_calendar_time_to_ticks (some (written time))) (pos 63) in
    let i = nat_abs_parts whole in
    let j = nat_abs_parts time in
    let k = one_part whole in
    let o = one_part time in
    let fits : nat_abs whole < 2 ^ 63 = omega arith in
    (
      written time,
      calendar_lem time ct,
      subst (λ w. nat_abs w < 2 ^ 63) (sym product) fits,
      omega arith,
      omega arith,
    )

-- A calendar time: a date of the calendar, its day of the week and a time of day.
pub record IsCalendarTime (ct : CalendarTime) (c : CivilDate) : Type 0 where
  pub is_date : IsDate c
  pub date : (ct.tm_year ≡ c.year) × (ct.tm_mon +ℤ pos 1 ≡ pos c.month) × (ct.tm_mday ≡ pos c.day)
  pub weekday :
      (w : ℕ) × (ct.tm_wday ≡ pos w)
      × (w < 7)
      × (q : ℤ) × (days_from_civil c.year c.month c.day +ℤ pos 4 ≡ scale q 7 +ℤ pos w)
  pub hour : (h : ℕ) × (ct.tm_hour ≡ pos h) × (h < 24)
  pub minute : (m : ℕ) × (ct.tm_min ≡ pos m) × (m < 60)
  pub second : (s : ℕ) × (ct.tm_sec ≡ pos s) × (s < 60)
  pub micro : (m u : ℕ) × (ct.tm_msec ≡ pos m) × (ct.tm_usec ≡ pos u) × (m < 1000) × (u < 1000)

-- The day of the week, from Sunday: the first of January 1970 was a Thursday.
weekday_lem :
    (days : ℤ)
    → (w : ℕ) × (tmod (tmod days 7 +ℤ pos 11) 7 ≡ pos w)
      × (w < 7)
      × (q : ℤ) × (days +ℤ pos 4 ≡ scale q 7 +ℤ pos w)
unfolding ◌+ℤ◌ ◌-ℤ◌
weekday_lem (pos n) = ((n + 4) % 7, ground arith, ground arith, pos ((n + 4) / 7), ground arith)
weekday_lem (negsuc n) = (
  (7 - (suc n % 7) + 4) % 7,
  ground arith,
  ground arith,
  floor_quot (negsuc n +ℤ pos 4) 7,
  ground arith,
)

month_back : (m : ℕ) → (pos m -ℤ pos 1) +ℤ pos 1 ≡ pos m
month_back m = +ℤ--ℤ (pos m) 1

-- For a time of less than 2 ^ 63 ticks, what `OSTicksToCalendarTime` writes, whatever the object held,
-- is a calendar time: a date of the Gregorian calendar, the day of the week of that date, hour, minute,
-- second, millisecond and microsecond in their ranges.
pub os_ticks_to_calendar_time-IsCalendarTime :
    (time : ℤ) (ct : CalendarTime)
    → nat_abs time < 2 ^ 63
    → (new : CalendarTime) × (c : CivilDate) × (os_ticks_to_calendar_time time (some ct) ≡ some new)
      × IsCalendarTime new c
os_ticks_to_calendar_time-IsCalendarTime time ct l =
    let days = days_of time in
    let s = second_of_day time in
    let u = microseconds (pos (rem_of time)) in
    let (a, b, c) = IsFloor-timer_hz time in
    let (d, e, f) = IsFloor-day (unix_secs time) in
    let k = days_of_bound time l in
    let (lo, hi, m) = usec_ticks (rem_of time) a in
    let (w, w1, w2, q, w3) = weekday_lem days in
    let back = days_from_civil-civil_from_days days k in
    (
      calendar_on days (pos s) u,
      civil_from_days days,
      calendar_lem time ct,
      record {
        is_date = civil_from_days-IsDate days k;
        date = (refl, month_back (civil_from_days days).month, refl);
        weekday = (w, w1, w2, q, ap (λ x. x +ℤ pos 4) back ∙ w3);
        hour = (s / 3600, refl, omega arith);
        minute = (s % 3600 / 60, refl, omega arith);
        second = (s % 60, refl, omega arith);
        micro = (u / 1000, u % 1000, refl, refl, omega arith, omega arith);
      },
    )
