-- ===== src/Clock/Seconds.antt =====
-- `mktime` and `gettimeofday` of time_real_uc386dos.c as counts of seconds.
use freedos_micro_python.Prelude.{
  ℕ, ◌+◌, ◌-◌, ◌*◌, ◌/◌, ◌%◌, ◌^◌, ◌≤◌, ◌<◌, ◌≡◌, arith, ltb, if◌then◌else◌, Bool-cases, inl, inr,
  some, ◌∷◌, [],
}
use freedos_micro_python.Clock.{word, Tm, mktime, epoch_now, Timeval, gettimeofday}
use freedos_micro_python.Clock.Calendar.{
  Date, IsDate, days, next_day, days_exact, days-next_day, next_day-since,
}

-- The calendar day of a broken-down time.
abbrev pub date_of : Tm → Date
date_of tm = record { year = tm.tm_year + 1900; month = tm.tm_mon + 1; day = tm.tm_mday }

pub record IsTm (tm : Tm) : Type 0 where
  pub date : IsDate (date_of tm)
  pub hour : tm.tm_hour < 24
  pub min : tm.tm_min < 60
  pub sec : tm.tm_sec < 60

abbrev pub seconds : Tm → ℕ
seconds tm = days (date_of tm) * 86400 + (tm.tm_hour * 3600 + tm.tm_min * 60 + tm.tm_sec)

day_bounds :
    (d : Date)
    → IsDate d
    → ((d.year < 2038 → days d < 24837)
        × (2039 ≤ d.year → 25202 ≤ days d)
        × (d.year < 2100 → days d < 47482))
day_bounds d v = (
  λ h. ground (arith, days_exact d.year d.month d.day),
  λ h. ground (arith, days_exact d.year d.month d.day),
  λ h. ground (arith, days_exact d.year d.month d.day),
)

-- The first second of a day, as a broken-down time.
abbrev pub midnight : Date → Tm
midnight d = record {
  tm_year = d.year - 1900;
  tm_mon = d.month - 1;
  tm_mday = d.day;
  tm_hour = 0;
  tm_min = 0;
  tm_sec = 0;
}

-- The second after.
abbrev pub next_second : Tm → Tm
next_second tm =
    if ltb tm.tm_sec 59
    then record tm { tm_sec = tm.tm_sec + 1 }
    else if ltb tm.tm_min 59
    then record tm { tm_min = tm.tm_min + 1; tm_sec = 0 }
    else if ltb tm.tm_hour 23
    then record tm { tm_hour = tm.tm_hour + 1; tm_min = 0; tm_sec = 0 }
    else midnight (next_day (date_of tm))

-- A month that is counted from 1 fits its register.
month_kept : (tm : Tm) → IsTm tm → (tm.tm_mon + 1) % word ≡ tm.tm_mon + 1
month_kept tm v = omega (arith, v.date.month_to)

-- For a valid time from 1970 to 2037 `mktime` returns the seconds of the days since 1970-01-01 and of
-- the day, and that number is below 2 ^ 31.
pub mktime_exact :
    (tm : Tm) → IsTm tm → tm.tm_year < 138 → (mktime (some tm) ≡ seconds tm) × (seconds tm < 2 ^ 31)
unfolding mktime
mktime_exact tm v h =
    let b = (day_bounds (date_of tm) v.date).0 (omega arith) in
    rw (month_kept tm v) (omega (arith, v.hour, v.min, v.sec, b))

seconds-midnight : (d : Date) → 1970 ≤ d.year → 1 ≤ d.month → seconds (midnight d) ≡ days d * 86400
seconds-midnight d h k =
    let e : d.year - 1900 + 1900 ≡ d.year = omega arith in
    let f : d.month - 1 + 1 ≡ d.month = omega arith in rw (e, f) (omega arith)

-- Between 1970 and the year 99999 the count of seconds goes up by one with every second, also across the
-- ends of minutes, hours and days.
pub seconds-next : (tm : Tm) → IsTm tm → seconds (next_second tm) ≡ seconds tm + 1
seconds-next tm v = elim (Bool-cases (ltb tm.tm_sec 59)) [
  | inl e ↦ rw e (omega arith)
  | inr e ↦ elim (Bool-cases (ltb tm.tm_min 59)) [
    | inl f ↦ rw (e, f) (ground arith)
    | inr f ↦ elim (Bool-cases (ltb tm.tm_hour 23)) [
      | inl g ↦ rw (e, f, g) (ground arith)
      | inr g ↦
          let (since, month, _) = next_day-since (date_of tm) v.date in
          let midnight = seconds-midnight (next_day (date_of tm)) since month in
          let tomorrow = days-next_day (date_of tm) v.date in
          rw (e, f, g) (ground (arith, midnight, tomorrow))
    ]
  ]
]

-- For a valid time from 2039 to 2099, the end of the DOS calendar, the pattern that `mktime` returns
-- has its sign bit set.
pub mktime_late :
    (tm : Tm) → IsTm tm → 139 ≤ tm.tm_year → tm.tm_year < 200 → 2 ^ 31 ≤ mktime (some tm)
unfolding mktime
mktime_late tm v h k =
    let (_, b, c) = day_bounds (date_of tm) v.date in
    let b' = b (omega arith) in
    let c' = c (omega arith) in rw (month_kept tm v) (omega (arith, v.hour, v.min, v.sec, b', c'))

-- On the seven bytes of the DOS clock for a valid time from 1970 to 2037, `gettimeofday` returns 0 and
-- stores what `mktime` gives for that time, with no microseconds.
pub gettimeofday-mktime :
    (tm : Tm) (tv : Timeval)
    → IsTm tm
    → tm.tm_year < 138
    → let y = tm.tm_year + 1900 in
      gettimeofday
        ((y % 256)
          ∷ (y / 256)
          ∷ (tm.tm_mon + 1)
          ∷ tm.tm_mday
          ∷ tm.tm_hour
          ∷ tm.tm_min
          ∷ tm.tm_sec
          ∷ [])
        (some tv)
      ≡ (0, some (record { tv_sec = mktime (some tm); tv_usec = 0 }))
unfolding gettimeofday epoch_now mktime
gettimeofday-mktime tm tv v h =
    let e : (tm.tm_year + 1900) % 256 + (tm.tm_year + 1900) / 256 * 2 ^ 8 ≡ tm.tm_year + 1900 =
      omega arith in
    rw (e, month_kept tm v)
