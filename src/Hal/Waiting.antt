-- ===== src/Hal/Waiting.antt =====
-- How long the delays of mphal_uc386dos.c last.
use freedos_micro_python.Prelude.{
  ℕ, ◌+◌, ◌-◌, ◌*◌, ◌%◌, ◌^◌, ◌≤◌, ◌<◌, ◌≡◌, refl, Bool, true, false, some, List, [], ◌∷◌, ◌++◌,
  All, arith, ltb, ap, Bool-cases, inl, inr,
}
use freedos_micro_python.Hal.{word, ticks_to_wait, poll, delay_ms}

-- The ticks between two readings of a 32-bit counter.
abbrev pub elapsed : ℕ → ℕ → ℕ
elapsed start now = (now + word - start) % word

-- How the polling loop ends: readings too early, then one that is late enough.
pub record Waited (start n : ℕ) (readings rest : List ℕ) : Type 0 where
  pub early : List ℕ
  pub last : ℕ
  pub order : early ++ last ∷ rest ≡ readings
  pub too_early : All (λ r. elapsed start r < n) early
  pub late_enough : n ≤ elapsed start last

-- The loop stops at the first reading that is late enough.
poll-Waited :
    (start n : ℕ) (readings rest : List ℕ)
    → poll start n readings ≡ some rest
    → Waited start n readings rest
unfolding poll
poll-Waited start n [] rest h = cc
poll-Waited start n (r ∷ rs) rest h =
    go (ltb (elapsed start r) n) refl (poll-Waited start n rs rest)
  where
    go :
        (b : Bool)
        → ltb (elapsed start r) n ≡ b
        → (poll start n rs ≡ some rest → Waited start n rs rest)
        → Waited start n (r ∷ rs) rest
    go true e ih =
        let w = ih (ground arith) in
        record {
          early = r ∷ w.early;
          last = w.last;
          order = ap (λ t. r ∷ t) w.order;
          too_early = (ground arith, w.too_early);
          late_enough = w.late_enough;
        }
    go false e ih = record {
      early = [];
      last = r;
      order = ground arith;
      too_early = tt;
      late_enough = ground arith;
    }

-- The rounding up, for a delay that leaves room for it.
ticks_bounds :
    (ms : ℕ)
    → 0 < ms
    → ms + 54 < word
    → (ms ≤ ticks_to_wait ms * 55) × (ticks_to_wait ms * 55 < ms + 55)
unfolding ticks_to_wait
ticks_bounds ms h k = ground arith

-- For a delay that is not 0 and at most 2 ^ 32 - 55 milliseconds: where `delay_ms` returns, it does so at
-- the first reading that lies `ticks_to_wait` ticks after the first one, and those ticks of 55 ms last
-- at least as long as the delay, and less than a tick longer.
pub delay_ms-Waited :
    (ms start : ℕ) (readings rest : List ℕ)
    → 0 < ms
    → ms + 54 < word
    → delay_ms ms (start ∷ readings) ≡ some rest
    → Waited start (ticks_to_wait ms) readings rest
      × (ms ≤ ticks_to_wait ms * 55)
      × (ticks_to_wait ms * 55 < ms + 55)
unfolding delay_ms
delay_ms-Waited ms start readings rest h k e =
    let (a, b) = ticks_bounds ms h k in (poll-Waited start _ readings rest (ground arith), a, b)

-- It does return, once such a reading comes.
poll_ends :
    (start n now : ℕ) (before later : List ℕ)
    → n ≤ elapsed start now
    → (rest : List ℕ) × (poll start n (before ++ now ∷ later) ≡ some rest)
unfolding poll
poll_ends start n now [] later h = (later, ground arith)
poll_ends start n now (r ∷ before) later h = elim (Bool-cases (ltb (elapsed start r) n)) [
  | inl e ↦ rw e (poll_ends start n now before later h)
  | inr e ↦ (before ++ now ∷ later, rw e)
]

-- How a delay ends: at the first reading at which its milliseconds are over, at 55 ms a tick.
pub record Delayed (start ms : ℕ) (readings rest : List ℕ) : Type 0 where
  pub early : List ℕ
  pub last : ℕ
  pub order : early ++ last ∷ rest ≡ readings
  pub too_early : All (λ r. elapsed start r * 55 < ms) early
  pub late_enough : ms ≤ elapsed start last * 55

early_ms :
    (start n ms : ℕ) (early : List ℕ)
    → n * 55 < ms + 55
    → All (λ r. elapsed start r < n) early
    → All (λ r. elapsed start r * 55 < ms) early
early_ms start n ms [] h a = tt
early_ms start n ms (r ∷ early) h (a, as_) = (omega arith, early_ms start n ms early h as_)

-- A delay that is not 0 and at most 2 ^ 32 - 55 milliseconds, on readings of the counter of which one lies
-- at least that long behind the first one, at 55 ms a tick, returns, and does so at the first such
-- reading, neither before nor after it.
pub delay_ms_ends :
    (ms start now : ℕ) (before later : List ℕ)
    → 0 < ms
    → ms + 54 < word
    → ms ≤ elapsed start now * 55
    → (rest : List ℕ) × (delay_ms ms (start ∷ before ++ now ∷ later) ≡ some rest)
      × Delayed start ms (before ++ now ∷ later) rest
unfolding delay_ms
delay_ms_ends ms start now before later h k late =
    let n = ticks_to_wait ms in
    let (up, down) = ticks_bounds ms h k in
    let (rest, e) = poll_ends start n now before later (omega (arith, down)) in
    let w = poll-Waited start n (before ++ now ∷ later) rest e in
    (
      rest,
      ground arith,
      record {
        early = w.early;
        last = w.last;
        order = w.order;
        too_early = early_ms start n ms w.early down w.too_early;
        late_enough = omega (arith, up, w.late_enough);
      },
    )

-- A delay that is not 0 and below 2 ^ 31 milliseconds ends at once at a reading below the first one, as
-- the BIOS counter gives when it starts again at midnight, 1573040 ticks.
delay_ms_midnight :
    (ms start now : ℕ) (readings : List ℕ)
    → 0 < ms
    → ms + 54 < word
    → now < start
    → start < 1573040
    → ms < 2 ^ 31
    → delay_ms ms (start ∷ now ∷ readings) ≡ some readings
unfolding delay_ms poll
delay_ms_midnight ms start now readings h k l m n = ground (arith, ticks_bounds ms h k)

-- A delay of any of the last 54 numbers of milliseconds below 2 ^ 32 waits for a single tick.
pub ticks_to_wait-overflow : (ms : ℕ) → word ≤ ms + 54 → ms < word → ticks_to_wait ms ≡ 1
unfolding ticks_to_wait
ticks_to_wait-overflow ms h k = ground arith
