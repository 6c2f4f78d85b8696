-- ===== src/Clock/Tests.antt =====
-- The clock on concrete dates.
use freedos_micro_python.Prelude.{◌≡◌, ◌+◌, ◌-◌, ◌^◌, refl, some, arith}
use freedos_micro_python.Clock.{Tm, mktime, time, days_from_civil}
use freedos_micro_python.Clock.Calendar.{IsDate, days, next_day, days-next_day}
use freedos_micro_python.Clock.Seconds.{IsTm, date_of}

epoch : days_from_civil 1970 1 1 ≡ 0
unfolding days_from_civil
epoch = refl

millennium :
    mktime (
      some (record { tm_year = 100; tm_mon = 0; tm_mday = 1; tm_hour = 0; tm_min = 0; tm_sec = 1 }))
    ≡ 946684801
unfolding mktime days_from_civil
millennium = refl

-- The counter wraps around, and the sign bit is masked out.
time_wraps : time (2 ^ 31 - 1) ≡ (2 ^ 31, 0)
unfolding time
time_wraps = refl

-- 29 February 2024, one second before midnight.
abbrev leap_day : Tm
leap_day = record {
  tm_year = 124;
  tm_mon = 1;
  tm_mday = 29;
  tm_hour = 23;
  tm_min = 59;
  tm_sec = 59;
}

leap_day-IsDate : IsDate (date_of leap_day)
leap_day-IsDate = record {
  since = omega arith;
  before = omega arith;
  month_from = omega arith;
  month_to = omega arith;
  day_from = omega arith;
  day_to = omega arith;
}

leap_day-IsTm : IsTm leap_day
leap_day-IsTm = record {
  date = leap_day-IsDate;
  hour = omega arith;
  min = omega arith;
  sec = omega arith;
}

-- The last day that DOS can count.
abbrev last_day : Tm
last_day = record { tm_year = 199; tm_mon = 11; tm_mday = 31; tm_hour = 12; tm_min = 0; tm_sec = 0 }

last_day-IsTm : IsTm last_day
last_day-IsTm = record {
  date = record {
    since = omega arith;
    before = omega arith;
    month_from = omega arith;
    month_to = omega arith;
    day_from = omega arith;
    day_to = omega arith;
  };
  hour = omega arith;
  min = omega arith;
  sec = omega arith;
}

days-next_day_example : days (next_day (date_of leap_day)) ≡ days (date_of leap_day) + 1
days-next_day_example = days-next_day (date_of leap_day) leap_day-IsDate
