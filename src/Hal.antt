-- ===== src/Hal.antt =====
-- Ticks and delays, src/freedos_micro_python/port/mphal_uc386dos.c, the clock of `time.time()` in
-- modtime_uc386dos.c, and `sys_now` of lwip_uc386dos.c. Every C integer here has 32 bits, but for the
-- 64 of `mp_hal_time_ns`. What `bios_ticks` returns, read after read, is a list.
pub mod Waiting
mod Tests
use freedos_micro_python.Prelude.{
  ℕ, ◌+◌, ◌-◌, ◌*◌, ◌/◌, ◌%◌, ◌^◌, ◌≡◌, refl, Bool, true, false, Option, none, some, List, [], ◌∷◌,
  Bytes, get_or, leb, ltb, ◌==◌, if◌then◌else◌,
}

abbrev pub word : ℕ
word = 2 ^ 32

abbrev pub bios_tick_ms : ℕ
bios_tick_ms = 55

pub ticks_ms : ℕ → ℕ
ticks_ms bios = bios * bios_tick_ms % word

pub ticks_us : ℕ → ℕ
ticks_us bios = bios * (bios_tick_ms * 1000) % word

pub ticks_cpu : ℕ → ℕ
ticks_cpu bios = ticks_us bios

pub sys_now : ℕ → ℕ
sys_now bios = bios * 55 % word

-- `ticks_to_wait`, for a delay that is not 0.
pub ticks_to_wait : ℕ → ℕ
ticks_to_wait ms =
    let ticks = (ms + bios_tick_ms + (word - 1)) % word / bios_tick_ms in
    if ticks == 0 then 1 else ticks

-- `while ((bios_ticks() - start) < n) {}`: the readings that are left after the loop, or none if it
-- still runs after the last of them.
pub poll : ℕ → ℕ → List ℕ → Option (List ℕ)
poll start n [] = none
poll start n (now ∷ readings) =
    let rest = poll start n readings in
    if ltb ((now + word - start) % word) n then rest else some readings

pub delay_ms : ℕ → List ℕ → Option (List ℕ)
delay_ms ms [] = if ms == 0 then some [] else none
delay_ms ms (start ∷ readings) =
    if ms == 0 then some (start ∷ readings) else poll start (ticks_to_wait ms) readings

pub delay_us : ℕ → List ℕ → Option (List ℕ)
delay_us us readings =
    if us == 0 then some readings else delay_ms ((us + 999) % word / 1000) readings

pub stdio_poll : ℕ → ℕ
stdio_poll poll_flags = 0

-- The date and time fields of `timeutils_struct_time_t`, from the seven bytes of the DOS clock.
pub record StructTime : Type 0 where
  pub tm_year : ℕ
  pub tm_mon : ℕ
  pub tm_mday : ℕ
  pub tm_hour : ℕ
  pub tm_min : ℕ
  pub tm_sec : ℕ
  pub tm_wday : ℕ
  pub tm_yday : ℕ

pub read_datetime : Bytes → StructTime
read_datetime raw = record {
  tm_year = (get_or raw 0 0 + get_or raw 1 0 * 2 ^ 8) % 2 ^ 16;
  tm_mon = get_or raw 2 0;
  tm_mday = get_or raw 3 0;
  tm_hour = get_or raw 4 0;
  tm_min = get_or raw 5 0;
  tm_sec = get_or raw 6 0;
  tm_wday = 0;
  tm_yday = 0;
}

-- `since_epoch` is MicroPython's `timeutils_seconds_since_epoch`, a 32-bit count.
module _ (since_epoch : ℕ → ℕ → ℕ → ℕ → ℕ → ℕ → ℕ) where
  pub time_get : Bytes → ℕ
  time_get raw =
      let tm = read_datetime raw in
      since_epoch tm.tm_year tm.tm_mon tm.tm_mday tm.tm_hour tm.tm_min tm.tm_sec

  pub time_ns : Bytes → ℕ
  time_ns raw =
      let year = get_or raw 0 0 + get_or raw 1 0 * 2 ^ 8 in
      let secs =
        since_epoch year (get_or raw 2 0) (get_or raw 3 0) (get_or raw 4 0) (get_or raw 5 0)
          (get_or raw 6 0) in
      secs * 1000000000 % 2 ^ 64

pub localtime_get : Bytes → StructTime
localtime_get raw = read_datetime raw
