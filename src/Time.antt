-- ===== src/Time.antt =====
-- source/time.cpp and the base time of source/systeminfo.cpp: ticks, days and calendar times. Signed
-- 64-bit values, whose overflow C++ leaves undefined, are integers, with its division towards 0; the
-- unsigned sums of the two date functions keep their wrap-around in 32 bits. The system's counter and
-- its clock are arguments.
pub mod Era
pub mod Floor
pub mod Months
pub mod Civil
pub mod Gregorian
pub mod Inverse
pub mod Days
pub mod Succession
pub mod Parts
pub mod Calendar
mod Tests
use coreinit_nx.Base.{
  ℕ, zero, suc, ◌+◌, ◌-◌, ◌*◌, ◌/◌, ◌%◌, ◌^◌, Bool, true, false, Option, none, some, ltb, leb, ◌==◌,
  if◌then◌else◌,
}
use coreinit_nx.Base.Int.{
  ℤ, pos, negsuc, ◌+ℤ◌, ◌-ℤ◌, ltb_ℤ, leb_ℤ, scale, tdiv, tmod, to_word, to_i32, nat_abs,
}

-- `kWiiUTimerHz`, a quarter of `kWiiUBusClockHz`, and `kUnixToCafeEpoch`.
abbrev pub timer_hz : ℕ
timer_hz = 62156250

abbrev pub unix_to_cafe_epoch : ℤ
unix_to_cafe_epoch = pos 946684800

abbrev pub u32 : ℕ → ℕ
u32 x = x % 2 ^ 32

-- `systemTimeTicks` at a reading of the counter.
pub system_time_ticks : ℕ → ℕ
system_time_ticks tick = tick * 3315 % 2 ^ 64 / 1024

-- `computeBaseTime`, with what the clock tells, if it does.
pub compute_base_time : Option ℕ → ℕ → ℤ
compute_base_time none tick = pos 0
compute_base_time (some unix) tick =
    scale (pos unix -ℤ unix_to_cafe_epoch) timer_hz -ℤ pos (system_time_ticks tick)

pub os_get_system_time : ℕ → ℤ
os_get_system_time tick = pos (system_time_ticks tick)

-- With the base time of `OSGetSystemInfo`.
pub os_get_time : ℤ → ℕ → ℤ
unfolding os_get_system_time
os_get_time base_time tick = base_time +ℤ os_get_system_time tick

-- `OSSystemInfo`: the members that are not zeroed.
pub record SystemInfo : Type 0 where
  pub bus_clock_speed : ℕ
  pub core_clock_speed : ℕ
  pub base_time : ℤ

-- `OSGetSystemInfo`: filled in by the first call.
pub os_get_system_info : Option ℕ → ℕ → Option SystemInfo → Option SystemInfo × SystemInfo
os_get_system_info unix tick none =
    let info : SystemInfo = record {
      bus_clock_speed = 248625000;
      core_clock_speed = 1243125000;
      base_time = compute_base_time unix tick;
    } in
    (some info, info)
os_get_system_info unix tick (some info) = (some info, info)

-- `__OSSetAbsoluteSystemTime` on the structure that `OSGetSystemInfo` answers.
pub set_absolute_system_time : ℤ → ℕ → SystemInfo → SystemInfo
unfolding os_get_system_time
set_absolute_system_time time tick info = record info {
  base_time = time -ℤ os_get_system_time tick;
}

-- Days before a month, counted from March, and the day in it: `m + (m > 2 ? -3 : 9)`.
pub day_of_year : ℕ → ℕ → ℕ
day_of_year m d =
    let mp = u32 (m + (if ltb 2 m then 2 ^ 32 - 3 else 9)) in
    u32 (u32 (u32 (153 * mp + 2) / 5 + d) + (2 ^ 32 - 1))

-- `y - era * 400` for the era below.
abbrev pub floor_div : ℤ → ℕ → ℤ
floor_div z k = tdiv (if leb_ℤ (pos 0) z then z else z -ℤ pos (k - 1)) k

-- The days of an era, a year of it and a day of that.
abbrev pub day_number : ℤ → ℕ → ℕ → ℤ
day_number era yoe doy =
    let doe = u32 (u32 (yoe * 365 + yoe / 4) + (2 ^ 32 - yoe / 100) + doy) in
    (scale era 146097 +ℤ pos doe) -ℤ pos 719468

pub days_from_civil : ℤ → ℕ → ℕ → ℤ
days_from_civil year m d =
    let y = year -ℤ pos (if leb m 2 then 1 else 0) in
    let era = floor_div y 400 in day_number era (to_word 32 (y -ℤ scale era 400)) (day_of_year m d)

pub record CivilDate : Type 0 where
  pub year : ℤ
  pub month : ℕ
  pub day : ℕ

-- The year of an era and the days before it, from a day of the era.
pub year_of_era : ℕ → ℕ
year_of_era doe = u32 (doe + (2 ^ 32 - doe / 1460) + doe / 36524 + (2 ^ 32 - doe / 146096)) / 365

pub days_before_year : ℕ → ℕ
days_before_year yoe = u32 (365 * yoe + yoe / 4 + (2 ^ 32 - yoe / 100))

-- The date of a year of an era and a day of that.
abbrev pub civil_month : ℕ → ℕ
civil_month doy =
    let mp = u32 (5 * doy + 2) / 153 in u32 (mp + (if ltb mp 10 then 3 else 2 ^ 32 - 9))

abbrev pub civil_day : ℕ → ℕ
civil_day doy =
    let mp = u32 (5 * doy + 2) / 153 in u32 (doy + (2 ^ 32 - u32 (153 * mp + 2) / 5) + 1)

abbrev pub civil_on : ℤ → ℕ → ℕ → CivilDate
civil_on era yoe doy = record {
  year = to_i32 ((pos yoe +ℤ scale era 400) +ℤ pos (if leb (civil_month doy) 2 then 1 else 0));
  month = civil_month doy;
  day = civil_day doy;
}

abbrev pub civil_of_era : ℤ → ℕ → CivilDate
civil_of_era era doe =
    let yoe = year_of_era doe in civil_on era yoe (u32 (doe + (2 ^ 32 - days_before_year yoe)))

pub civil_from_days : ℤ → CivilDate
civil_from_days days =
    let z = days +ℤ pos 719468 in
    let era = floor_div z 146097 in civil_of_era era (to_word 32 (z -ℤ scale era 146097))

pub os_get_system_tick : ℕ → ℕ
unfolding os_get_system_time
os_get_system_tick tick = to_word 32 (os_get_system_time tick)

pub os_get_tick : ℤ → ℕ → ℕ
unfolding os_get_time
os_get_tick base_time tick = to_word 32 (os_get_time base_time tick)

-- `OSCalendarTime`. Months count from 0, days of the week from Sunday, days of the year from 0.
pub record CalendarTime : Type 0 where
  pub tm_sec : ℤ
  pub tm_min : ℤ
  pub tm_hour : ℤ
  pub tm_mday : ℤ
  pub tm_mon : ℤ
  pub tm_year : ℤ
  pub tm_wday : ℤ
  pub tm_yday : ℤ
  pub tm_msec : ℤ
  pub tm_usec : ℤ

-- The quotient and the remainder towards 0, and the two corrected where the remainder is negative.
abbrev pub floor_quot : ℤ → ℕ → ℤ
floor_quot z k = if ltb_ℤ (tmod z k) (pos 0) then tdiv z k -ℤ pos 1 else tdiv z k

abbrev pub floor_rest : ℤ → ℕ → ℤ
floor_rest z k = if ltb_ℤ (tmod z k) (pos 0) then tmod z k +ℤ pos k else tmod z k

-- What is written for a day, a second of it and a microsecond of that.
abbrev pub calendar_on : ℤ → ℤ → ℕ → CalendarTime
calendar_on days sod usec = record {
  tm_sec = tmod sod 60;
  tm_min = tdiv (tmod sod 3600) 60;
  tm_hour = tdiv sod 3600;
  tm_mday = pos (civil_from_days days).day;
  tm_mon = pos (civil_from_days days).month -ℤ pos 1;
  tm_year = (civil_from_days days).year;
  tm_wday = tmod (tmod days 7 +ℤ pos 11) 7;
  tm_yday = to_i32 (days -ℤ days_from_civil (civil_from_days days).year 1 1);
  tm_msec = pos (usec / 1000);
  tm_usec = pos (usec % 1000);
}

abbrev pub microseconds : ℤ → ℕ
microseconds rem = to_word 64 rem * 1000000 % 2 ^ 64 / timer_hz

-- `OSTicksToCalendarTime` on the object that the caller passes.
pub os_ticks_to_calendar_time : ℤ → Option CalendarTime → Option CalendarTime
os_ticks_to_calendar_time time none = none
os_ticks_to_calendar_time time (some ct) =
    let unix_secs = floor_quot time timer_hz +ℤ unix_to_cafe_epoch in
    some (
      calendar_on (floor_quot unix_secs 86400) (floor_rest unix_secs 86400)
        (microseconds (floor_rest time timer_hz)))

-- `OSCalendarTimeToTicks`.
abbrev pub unix_seconds : CalendarTime → ℤ
unix_seconds ct =
    let days =
      days_from_civil ct.tm_year (to_word 32 (ct.tm_mon +ℤ pos 1)) (to_word 32 ct.tm_mday) in
    scale days 86400 +ℤ scale ct.tm_hour 3600 +ℤ scale ct.tm_min 60 +ℤ ct.tm_sec

abbrev pub part_ticks : CalendarTime → ℤ
part_ticks ct = tdiv (scale (scale ct.tm_msec 1000 +ℤ ct.tm_usec) timer_hz) 1000000

-- The product that the whole seconds of a calendar time make. Where it
-- leaves 64 bits, C++ leaves the result undefined.
abbrev pub whole_ticks : CalendarTime → ℤ
whole_ticks ct = scale (unix_seconds ct -ℤ unix_to_cafe_epoch) timer_hz

pub os_calendar_time_to_ticks : Option CalendarTime → ℤ
os_calendar_time_to_ticks none = pos 0
os_calendar_time_to_ticks (some ct) = whole_ticks ct +ℤ part_ticks ct

-- `OSSleepTicks`: the nanoseconds of the call to `svcSleepThread`, if it is made.
pub os_sleep_ticks : ℤ → Option ℕ
os_sleep_ticks ticks =
    if leb_ℤ ticks (pos 0) then none else some (to_word 64 ticks * 32000 % 2 ^ 64 / 1989)
