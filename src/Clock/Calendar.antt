-- ===== src/Clock/Calendar.antt =====
-- `days_from_civil` of time_real_uc386dos.c and the Gregorian calendar.
use freedos_micro_python.Prelude.{
  ℕ, ◌+◌, ◌-◌, ◌*◌, ◌/◌, ◌%◌, ◌≤◌, ◌<◌, ◌≡◌, refl, Bool, false, not, ◌&&◌, ◌||◌, arith, leb, ltb,
  ◌==◌, if◌then◌else◌, Bool-cases, inl, inr,
}
use freedos_micro_python.Clock.{days_from_civil}

abbrev pub is_leap : ℕ → Bool
is_leap y = y % 4 == 0 && (not (y % 100 == 0) || y % 400 == 0)

abbrev pub days_in_month : ℕ → ℕ → ℕ
days_in_month y m =
    if m == 2
    then if is_leap y then 29 else 28
    else if m == 4 || m == 6 || m == 9 || m == 11
    then 30
    else 31

pub record Date : Type 0 where
  pub year : ℕ
  pub month : ℕ
  pub day : ℕ

-- A day of the calendar from 1970 on; the bound on the year keeps every `long` of the code in range.
pub record IsDate (d : Date) : Type 0 where
  pub since : 1970 ≤ d.year
  pub before : d.year < 100000
  pub month_from : 1 ≤ d.month
  pub month_to : d.month ≤ 12
  pub day_from : 1 ≤ d.day
  pub day_to : d.day ≤ days_in_month d.year d.month

abbrev pub days : Date → ℕ
days d = days_from_civil d.year d.month d.day

-- The day after.
pub next_day : Date → Date
next_day d =
    if ltb d.day (days_in_month d.year d.month)
    then record d { day = d.day + 1 }
    else if d.month == 12
    then record { year = d.year + 1; month = 1; day = 1 }
    else record { year = d.year; month = d.month + 1; day = 1 }

-- The days before 1 March of a year.
abbrev year_days : ℕ → ℕ
year_days y = y * 365 + y / 4 - y / 100 + y / 400

-- The formula with no wrap-around.
pub days_exact :
    (y m d : ℕ)
    → 1970 ≤ y
    → y < 100001
    → 1 ≤ m
    → m ≤ 12
    → 1 ≤ d
    → d ≤ 31
    → days_from_civil y m d + 719469
      ≡ year_days (if leb m 2 then y - 1 else y)
        + ((153 * (if ltb 2 m then m - 3 else m + 9) + 2) / 5 + d)
unfolding days_from_civil
days_exact y m d h1 h2 h3 h4 h5 h6 = ground arith

leap_step : (y : ℕ) → 1970 ≤ y → year_days y ≡ year_days (y - 1) + (if is_leap y then 366 else 365)
leap_step y h = ground arith

same_month :
    (y m d : ℕ)
    → IsDate (record { year = y; month = m; day = d })
    → d < days_in_month y m
    → days_from_civil y m (d + 1) ≡ days_from_civil y m d + 1
same_month y m d v h = ground (arith, days_exact y m d, days_exact y m (d + 1))

next_year :
    (y : ℕ) → 1970 ≤ y → y < 100000 → days_from_civil (y + 1) 1 1 ≡ days_from_civil y 12 31 + 1
next_year y h k = omega (arith, days_exact y 12 31, days_exact (y + 1) 1 1)

february :
    (y : ℕ)
    → 1970 ≤ y
    → y < 100000
    → days_from_civil y 3 1 ≡ days_from_civil y 2 (if is_leap y then 29 else 28) + 1
february y h k = ground (arith, leap_step y, days_exact y 3 1, days_exact y 2 29, days_exact y 2 28)

other_month :
    (y m : ℕ)
    → 1970 ≤ y
    → y < 100000
    → 1 ≤ m
    → m < 12
    → (m == 2) ≡ false
    → days_from_civil y (m + 1) 1 ≡ days_from_civil y m (days_in_month y m) + 1
other_month y m h k a b c =
    ground (arith, days_exact y (m + 1) 1, days_exact y m 30, days_exact y m 31)

-- The count starts at 0 on 1970-01-01.
pub days_epoch : days_from_civil 1970 1 1 ≡ 0
unfolding days_from_civil
days_epoch = refl

-- The first day of the next month or year, after the last day of a month.
month_end :
    (y m : ℕ)
    → 1970 ≤ y
    → y < 100000
    → 1 ≤ m
    → m ≤ 12
    → (if m == 12 then days_from_civil (y + 1) 1 1 else days_from_civil y (m + 1) 1)
      ≡ days_from_civil y m (days_in_month y m) + 1
month_end y m h k a b = elim (Bool-cases (m == 12)) [
  | inl f ↦ let e : m ≡ 12 = ground arith in rw e (next_year y h k)
  | inr f ↦ elim (Bool-cases (m == 2)) [
    | inl g ↦ let e : m ≡ 2 = ground arith in rw e (february y h k)
    | inr g ↦ rw f (other_month y m h k a (ground arith) g)
  ]
]

-- From 1970 to the year 99999 the day after a calendar day has the next number: across the ends of
-- months, of leap Februaries, and of years and centuries.
pub days-next_day : (d : Date) → IsDate d → days (next_day d) ≡ days d + 1
unfolding next_day
days-next_day d v = elim (Bool-cases (ltb d.day (days_in_month d.year d.month))) [
  | inl e ↦ rw e (same_month d.year d.month d.day v (ground arith))
  | inr e ↦
      let last : d.day ≡ days_in_month d.year d.month = ground arith in
      let turn = month_end d.year d.month v.since v.before v.month_from v.month_to in
      elim (Bool-cases (d.month == 12)) [
        | inl f ↦ rw (e, f, last) (rw f at turn)
        | inr f ↦ rw (e, f, last) (rw f at turn)
      ]
]

pub next_day-since :
    (d : Date)
    → IsDate d
    → (1970 ≤ (next_day d).year) × (1 ≤ (next_day d).month) × ((next_day d).year ≤ d.year + 1)
unfolding next_day
next_day-since d v = ground arith
