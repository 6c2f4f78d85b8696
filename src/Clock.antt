-- ===== src/Clock.antt =====
-- Calendar time, src/freedos_micro_python/port/time_real_uc386dos.c.
-- `long`, `unsigned` and `time_t` have 32 bits; a value is its bit pattern, below 2 ^ 32, and a
-- subtraction adds the modulus first. A year is at least 1;
-- the source assumes that none is negative.
pub mod Calendar
pub mod Seconds
mod Tests
use freedos_micro_python.Prelude.{
  ℕ, ◌+◌, ◌-◌, ◌*◌, ◌/◌, ◌%◌, ◌^◌, ◌≡◌, refl, Bool, true, false, Option, none, some, Bytes, get_or,
  leb, ltb, if◌then◌else◌,
}

abbrev pub word : ℕ
word = 2 ^ 32

-- Days since 1970-01-01.
pub days_from_civil : ℕ → ℕ → ℕ → ℕ
days_from_civil year m d =
    let y = if leb m 2 then year - 1 else year in
    let era = y / 400 in
    let yoe = y - era * 400 in
    let m_adj = if ltb 2 m then m - 3 else m + 9 in
    let doy = ((153 * m_adj + 2) % word / 5 + d + (word - 1)) % word in
    let doe = (yoe * 365 + yoe / 4 + (word - yoe / 100) + doy) % word in
    (era * 146097 + doe + (word - 719468)) % word

-- The seven bytes that `dos_get_datetime` writes.
pub epoch_now : Bytes → ℕ
epoch_now raw =
    let year = get_or raw 0 0 + get_or raw 1 0 * 2 ^ 8 in
    let days = days_from_civil year (get_or raw 2 0) (get_or raw 3 0) in
    let secs_today = get_or raw 4 0 * 3600 + get_or raw 5 0 * 60 + get_or raw 6 0 in
    (days * 86400 + secs_today) % word

-- `time`: the counter before and after, and the result, which is also stored through `t`.
pub time : ℕ → ℕ × ℕ
time counter = let counter' = (counter + 1) % word in (counter', counter' % 2 ^ 31)

-- The fields of `struct tm` that `mktime` reads.
pub record Tm : Type 0 where
  pub tm_year : ℕ
  pub tm_mon : ℕ
  pub tm_mday : ℕ
  pub tm_hour : ℕ
  pub tm_min : ℕ
  pub tm_sec : ℕ

-- A null pointer gives -1.
pub mktime : Option Tm → ℕ
mktime none = word - 1
mktime (some tm) =
    let days = days_from_civil (tm.tm_year + 1900) ((tm.tm_mon + 1) % word) tm.tm_mday in
    let secs_today = tm.tm_hour * 3600 + tm.tm_min * 60 + tm.tm_sec in
    (days * 86400 + secs_today) % word

pub record Timeval : Type 0 where
  pub tv_sec : ℕ
  pub tv_usec : ℕ

-- `gettimeofday`: what it returns, and what it stores for a `tv` that is not null.
pub gettimeofday : Bytes → Option Timeval → ℕ × Option Timeval
gettimeofday raw none = (0, none)
gettimeofday raw (some tv) = (0, some (record { tv_sec = epoch_now raw; tv_usec = 0 }))
