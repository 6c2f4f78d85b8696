-- ===== src/Hal/Tests.antt =====
-- Delays on concrete readings of the BIOS counter.
use freedos_micro_python.Prelude.{◌≡◌, ◌++◌, ◌∷◌, [], List, ℕ, refl, some, none, arith}
use freedos_micro_python.Hal.{ticks_to_wait, delay_ms, delay_us, poll}
use freedos_micro_python.Hal.Waiting.{Delayed, delay_ms_ends}

hundred_ms : delay_ms 100 (7 ∷ 7 ∷ 8 ∷ 9 ∷ 9 ∷ []) ≡ some (9 ∷ [])
unfolding delay_ms poll ticks_to_wait
hundred_ms = refl

still_waiting : delay_us 1 (7 ∷ 7 ∷ []) ≡ none
unfolding delay_us delay_ms poll ticks_to_wait
still_waiting = refl

delay_ms_ends_example :
    (rest : List ℕ) × (delay_ms 100 (7 ∷ (7 ∷ []) ++ 9 ∷ []) ≡ some rest)
    × Delayed 7 100 ((7 ∷ []) ++ 9 ∷ []) rest
delay_ms_ends_example = delay_ms_ends 100 7 9 (7 ∷ []) [] (omega arith) (omega arith) (omega arith)
