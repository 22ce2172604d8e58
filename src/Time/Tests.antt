-- ===== src/Time/Tests.antt =====
-- The last of February 2000 and a time before it.
use coreinit_nx.Base.{◌<◌, ◌^◌, ◌≡◌, some, arith}
use coreinit_nx.Base.Int.{pos, negsuc, nat_abs, ◌+ℤ◌, ◌≤ℤ◌}
use coreinit_nx.Time.{
  CivilDate, CalendarTime, days_from_civil, civil_from_days, os_ticks_to_calendar_time, whole_ticks,
  os_calendar_time_to_ticks,
}
use coreinit_nx.Time.Gregorian.{is_leap, days_in_month, IsDate}
use coreinit_nx.Time.Inverse.{days_from_civil-civil_from_days, civil_from_days-days_from_civil}
use coreinit_nx.Time.Days.{next_date}
use coreinit_nx.Time.Succession.{civil_from_days-next_date}
use coreinit_nx.Time.Calendar.{
  IsCalendarTime, os_calendar_time_to_ticks-os_ticks_to_calendar_time,
  os_ticks_to_calendar_time-IsCalendarTime,
}

abbrev leap_day : CivilDate
leap_day = record { year = pos 2000; month = 2; day = 29 }

abbrev no_time : CalendarTime
no_time = record {
  tm_sec = pos 0;
  tm_min = pos 0;
  tm_hour = pos 0;
  tm_mday = pos 0;
  tm_mon = pos 0;
  tm_year = pos 0;
  tm_wday = pos 0;
  tm_yday = pos 0;
  tm_msec = pos 0;
  tm_usec = pos 0;
}

leap_day-IsDate : IsDate leap_day
unfolding days_in_month is_leap
leap_day-IsDate = record {
  month_in = (omega arith, omega arith);
  day_in = (omega arith, omega arith);
}

days_from_civil-civil_from_days_example :
    days_from_civil
      (civil_from_days (pos 11016)).year
      (civil_from_days (pos 11016)).month
      (civil_from_days (pos 11016)).day
    ≡ pos 11016
days_from_civil-civil_from_days_example = days_from_civil-civil_from_days (pos 11016) (omega arith)

civil_from_days-days_from_civil_example :
    civil_from_days (days_from_civil (pos 2000) 2 29) ≡ leap_day
civil_from_days-days_from_civil_example =
    civil_from_days-days_from_civil leap_day leap_day-IsDate (omega arith)

civil_from_days-next_date_example :
    (civil_from_days (negsuc 11 +ℤ pos 1) ≡ next_date (civil_from_days (negsuc 11)))
    × (civil_from_days (pos 0) ≡ record { year = pos 1970; month = 1; day = 1 })
civil_from_days-next_date_example = civil_from_days-next_date (negsuc 11) (omega arith)

os_calendar_time_to_ticks-os_ticks_to_calendar_time_example :
    (new : CalendarTime) × (os_ticks_to_calendar_time (negsuc 99) (some no_time) ≡ some new)
    × (nat_abs (whole_ticks new) < 2 ^ 63)
    × (os_calendar_time_to_ticks (some new) ≤ℤ negsuc 99)
    × (negsuc 99 ≤ℤ os_calendar_time_to_ticks (some new) +ℤ pos 63)
os_calendar_time_to_ticks-os_ticks_to_calendar_time_example =
    os_calendar_time_to_ticks-os_ticks_to_calendar_time (negsuc 99) no_time (omega arith)

os_ticks_to_calendar_time-IsCalendarTime_example :
    (new : CalendarTime) × (c : CivilDate) × (os_ticks_to_calendar_time (negsuc 99) (some no_time)
      ≡ some new)
    × IsCalendarTime new c
os_ticks_to_calendar_time-IsCalendarTime_example =
    os_ticks_to_calendar_time-IsCalendarTime (negsuc 99) no_time (omega arith)
