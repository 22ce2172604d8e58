-- ===== src/Time/Parts.antt =====
-- The parts of a time: whole seconds, days, the second of a day and what is left.
use coreinit_nx.Base.{ℕ, ◌+◌, ◌*◌, ◌/◌, ◌%◌, ◌^◌, ◌≤◌, ◌<◌, ◌≡◌, ap, ap₂, ◌∙◌, some, arith}
use coreinit_nx.Base.Int.{
  ℤ, pos, negsuc, pos_part, neg_part, ◌+ℤ◌, ◌-ℤ◌, scale, to_word, nat_abs, +ℤ_parts, eq_of_parts,
}
use coreinit_nx.Time.{
  timer_hz, unix_to_cafe_epoch, days_from_civil, CivilDate, civil_from_days, CalendarTime,
  floor_quot, floor_rest, calendar_on, microseconds, os_ticks_to_calendar_time, unix_seconds,
  part_ticks,
}
use coreinit_nx.Time.Floor.{scale_parts, one_part, nat_abs_parts}
use coreinit_nx.Time.Gregorian.{IsDate, day_bound_parts}
use coreinit_nx.Time.Inverse.{days_from_civil-civil_from_days, civil_from_days-IsDate}

-- The corrected quotient and remainder are those of the division towards minus infinity.
abbrev pub IsFloor : ℤ → ℕ → Type 0
IsFloor z k =
    (pos_part (floor_rest z k) < k)
    × (floor_rest z k ≡ pos (pos_part (floor_rest z k)))
    × (z ≡ scale (floor_quot z k) k +ℤ floor_rest z k)

pub IsFloor-timer_hz : (z : ℤ) → IsFloor z timer_hz
unfolding ◌+ℤ◌ ◌-ℤ◌
IsFloor-timer_hz (pos n) = (ground arith, ground arith, ground arith)
IsFloor-timer_hz (negsuc n) = (ground arith, ground arith, ground arith)

pub IsFloor-day : (z : ℤ) → IsFloor z 86400
unfolding ◌+ℤ◌ ◌-ℤ◌
IsFloor-day (pos n) = (ground arith, ground arith, ground arith)
IsFloor-day (negsuc n) = (ground arith, ground arith, ground arith)

-- The clock and the seconds of a day say the same.
pub day_seconds : (s : ℕ) → s < 86400 → s / 3600 * 3600 + s % 3600 / 60 * 60 + s % 60 ≡ s
day_seconds s l = omega arith

-- A remainder of ticks loses at most 63 of them as microseconds.
pub usec_ticks :
    (r : ℕ)
    → r < timer_hz
    → let u = microseconds (pos r) in
      let t = (u / 1000 * 1000 + u % 1000) * timer_hz / 1000000 in
      (t ≤ r) × (r ≤ t + 63) × (u < 1000000)
usec_ticks r l = (omega arith, omega arith, omega arith)

pub date_words :
    (c : CivilDate)
    → IsDate c
    → (to_word 32 ((pos c.month -ℤ pos 1) +ℤ pos 1) ≡ c.month) × (to_word 32 (pos c.day) ≡ c.day)
unfolding ◌+ℤ◌ ◌-ℤ◌
date_words c h =
    let (a, b) = h.month_in in
    let (d, e) = h.day_in in
    let f = (day_bound_parts c.year c.month c.day e).0 in (ground arith, ground arith)

pub unix_seconds-calendar_on :
    (days : ℤ) (s usec : ℕ)
    → nat_abs days < 2 ^ 38
    → s < 86400
    → unix_seconds (calendar_on days (pos s) usec) ≡ scale days 86400 +ℤ pos s
unix_seconds-calendar_on days s usec l k =
    let c = civil_from_days days in
    let (m, d) = date_words c (civil_from_days-IsDate days l) in
    let clock = λ (x : ℤ).
      scale x 86400 +ℤ pos (s / 3600 * 3600) +ℤ pos (s % 3600 / 60 * 60) +ℤ pos (s % 60) in
    let a = scale days 86400 in
    let b = a +ℤ pos (s / 3600 * 3600) in
    let h = +ℤ_parts a (pos (s / 3600 * 3600)) in
    let i = +ℤ_parts b (pos (s % 3600 / 60 * 60)) in
    let j = +ℤ_parts (b +ℤ pos (s % 3600 / 60 * 60)) (pos (s % 60)) in
    let n = +ℤ_parts a (pos s) in
    let o = day_seconds s k in
    ap₂ (λ x y. clock (days_from_civil c.year x y)) m d
    ∙ ap clock (days_from_civil-civil_from_days days l)
    ∙ eq_of_parts _ _ (omega arith)

pub part_ticks-calendar_on :
    (days : ℤ) (s usec : ℕ)
    → part_ticks (calendar_on days (pos s) usec)
      ≡ pos ((usec / 1000 * 1000 + usec % 1000) * timer_hz / 1000000)
unfolding ◌+ℤ◌
part_ticks-calendar_on days s usec = ground arith

-- The days of a time in 64 bits are within 2 ^ 38.
pub days_bound :
    (time secs days r s : ℤ)
    → nat_abs time < 2 ^ 63
    → time ≡ scale secs timer_hz +ℤ r
    → secs +ℤ unix_to_cafe_epoch ≡ scale days 86400 +ℤ s
    → (pos_part r < timer_hz) × (neg_part r ≡ 0)
    → (pos_part s < 86400) × (neg_part s ≡ 0)
    → nat_abs days < 2 ^ 38
days_bound time secs days r s l h k (r1, r2) (s1, s2) =
    let a = scale_parts secs timer_hz in
    let b = scale_parts days 86400 in
    let c = +ℤ_parts (scale secs timer_hz) r in
    let d = +ℤ_parts (scale days 86400) s in
    let e = +ℤ_parts secs unix_to_cafe_epoch in
    let p = ap pos_part h in
    let n = ap neg_part h in
    let q = ap pos_part k in
    let o = ap neg_part k in
    let x = nat_abs_parts time in
    let y = nat_abs_parts days in
    let z = one_part days in let w = one_part time in let v = one_part secs in omega arith

-- The parts of a time: whole seconds since 1970, their days, and what is left of both.
abbrev pub unix_secs : ℤ → ℤ
unix_secs time = floor_quot time timer_hz +ℤ unix_to_cafe_epoch

abbrev pub days_of : ℤ → ℤ
days_of time = floor_quot (unix_secs time) 86400

abbrev pub second_of_day : ℤ → ℕ
second_of_day time = pos_part (floor_rest (unix_secs time) 86400)

abbrev pub rem_of : ℤ → ℕ
rem_of time = pos_part (floor_rest time timer_hz)

pub days_of_bound : (time : ℤ) → nat_abs time < 2 ^ 63 → nat_abs (days_of time) < 2 ^ 38
days_of_bound time l =
    let (a, b, c) = IsFloor-timer_hz time in
    let (d, e, f) = IsFloor-day (unix_secs time) in
    days_bound time (floor_quot time timer_hz) (days_of time) _ _ l c f (a, ap neg_part b)
      (d, ap neg_part e)

pub calendar_lem :
    (time : ℤ) (ct : CalendarTime)
    → os_ticks_to_calendar_time time (some ct)
      ≡ some
          (calendar_on (days_of time) (pos (second_of_day time)) (microseconds (pos (rem_of time))))
unfolding os_ticks_to_calendar_time
calendar_lem time ct =
    let (a, b, c) = IsFloor-timer_hz time in
    let (d, e, f) = IsFloor-day (unix_secs time) in
    ap₂ (λ x y. some (calendar_on (days_of time) x (microseconds y))) e b
