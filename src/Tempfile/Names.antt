-- ===== src/Tempfile/Names.antt =====
-- The names that `mktemp` of tempfile_uc386dos.c returns.
use freedos_micro_python.Prelude.{
  ℕ, zero, suc, ◌+◌, ◌-◌, ◌*◌, ◌%◌, ◌^◌, ◌≤◌, ◌<◌, ◌≡◌, ◌≢◌, refl, sym, ◌∙◌, Bool, true, false, not,
  ◌&&◌, Option, some, [], ◌∷◌, ◌++◌, arith, Bytes, get_or, length, length-append, length-take, take,
  ltb, ◌==◌, if◌then◌else◌, Result, ok, raised, os_error, e2big,
}
use freedos_micro_python.Tempfile.{
  digits_loop, reverse_onto, counter_text, stem, mktemp_loop, mktemp,
}

-- The number that a text of decimal digits spells, behind those of `acc`.
pub value_of_digits : ℕ → Bytes → ℕ
value_of_digits acc [] = acc
value_of_digits acc (c ∷ s) = value_of_digits (acc * 10 + (c - b'0')) s

-- The text of the counter has five digits, which spell the counter modulo 100000.
pub counter_text-value :
    (n : ℕ) → (length (counter_text n) ≡ 5) × (value_of_digits 0 (counter_text n) ≡ n % 100000)
unfolding counter_text digits_loop reverse_onto value_of_digits
counter_text-value n = (refl, omega arith)

length-gap : (b : Bool) → length {A = ℕ} (if b then b'\\' ∷ [] else []) ≤ 1
length-gap true = omega arith
length-gap false = omega arith

length-stem : (dir prefix : Bytes) (n : ℕ) → length (stem dir prefix n) ≤ 74
unfolding stem
length-stem dir prefix n =
    let head = take 60 dir in
    let last = get_or head (length head - 1) 0 in
    let b = ltb 0 (length head) && not (last == b'\\') && not (last == b'/') in
    let gap : Bytes = if b then b'\\' ∷ [] else [] in
    omega (
      arith,
      length-append {0} head (gap ++ (take 8 prefix ++ counter_text n)),
      length-append {0} gap (take 8 prefix ++ counter_text n),
      length-append {0} (take 8 prefix) (counter_text n),
      length-take 60 dir,
      length-take 8 prefix,
      length-gap b,
      (counter_text-value n).0,
    )

-- A name that the loop may return at a counter value.
pub record IsName (stat : Bytes → Bool) (dir prefix suffix : Bytes) (counter : ℕ) (name : Bytes)
    : Type 0 where
  pub spelled : name ≡ stem dir prefix counter ++ suffix
  pub fresh : stat name ≡ false
  pub fits : length name + 1 ≤ 80

-- One attempt, by the outcome of its two tests.
attempt-IsName :
    (stat : Bytes → Bool) (dir prefix suffix tried name : Bytes) (n : ℕ) (rest : Result Bytes × ℕ)
    (long taken : Bool)
    → ltb 80 (length tried + 1) ≡ long
    → stat tried ≡ taken
    → tried ≡ stem dir prefix n ++ suffix
    → (rest.0 ≡ ok name → IsName stat dir prefix suffix rest.1 name)
    → (if long then (raised (os_error e2big), n) else if taken then rest else (ok tried, n)).0
      ≡ ok name
    → IsName stat dir prefix suffix
        (if long then (raised (os_error e2big), n) else if taken then rest else (ok tried, n)).1
        name
attempt-IsName stat dir prefix suffix tried name n rest true taken e f t ih h = cc
attempt-IsName stat dir prefix suffix tried name n rest false true e f t ih h = ih h
attempt-IsName stat dir prefix suffix tried name n rest false false e f t ih h =
    let same : tried ≡ name = cc in
    record { spelled = cc (same, t); fresh = rw⁻¹ same f; fits = rw⁻¹ same (ground arith) }

loop-IsName :
    (stat : Bytes → Bool) (dir prefix suffix : Bytes) (attempts counter : ℕ) (name : Bytes)
    → (mktemp_loop stat dir prefix suffix attempts counter).0 ≡ ok name
    → IsName stat dir prefix suffix (mktemp_loop stat dir prefix suffix attempts counter).1 name
unfolding mktemp_loop
loop-IsName stat dir prefix suffix zero counter name h = cc
loop-IsName stat dir prefix suffix (suc attempts) counter name h =
    let n = (counter + 1) % 2 ^ 32 in
    let tried = stem dir prefix n ++ suffix in
    attempt-IsName stat dir prefix suffix tried name n
      (mktemp_loop stat dir prefix suffix attempts n) (ltb 80 (length tried + 1)) (stat tried) refl
      refl refl (loop-IsName stat dir prefix suffix attempts n name) h

true-false : true ≢ false
true-false e = cc

attempt_finds :
    (tried : Bytes) (n : ℕ) (rest : Result Bytes × ℕ) (long taken : Bool)
    → long ≡ false
    → (taken ≡ true → (name : Bytes) × (rest.0 ≡ ok name))
    → (name : Bytes) × ((if long
          then (raised (os_error e2big), n)
          else if taken
          then rest
          else (ok tried, n)).0
        ≡ ok name)
attempt_finds tried n rest true taken e ih = cc
attempt_finds tried n rest false true e ih = ih refl
attempt_finds tried n rest false false e ih = (tried, refl)

tried_fits :
    (dir prefix suffix : Bytes) (n : ℕ)
    → length suffix ≤ 5
    → ltb 80 (length (stem dir prefix n ++ suffix) + 1) ≡ false
tried_fits dir prefix suffix n h =
    ground (arith, length-append {0} (stem dir prefix n) suffix, length-stem dir prefix n)

-- The loop finds a name where one of those that it may try is free.
loop_finds :
    (stat : Bytes → Bool) (dir prefix suffix : Bytes) (attempts counter k : ℕ)
    → length suffix ≤ 5
    → k < attempts
    → stat (stem dir prefix ((counter + 1 + k) % 2 ^ 32) ++ suffix) ≡ false
    → (name : Bytes) × ((mktemp_loop stat dir prefix suffix attempts counter).0 ≡ ok name)
unfolding mktemp_loop
loop_finds stat dir prefix suffix zero counter k hs hk hf = absurd (omega arith)
loop_finds stat dir prefix suffix (suc attempts) counter k hs hk hf =
    let n = (counter + 1) % 2 ^ 32 in
    attempt_finds (stem dir prefix n ++ suffix) n (mktemp_loop stat dir prefix suffix attempts n) _
      (stat (stem dir prefix n ++ suffix)) (tried_fits dir prefix suffix n hs)
      (later (λ j. loop_finds stat dir prefix suffix attempts n j hs) k hk hf)
  where
    later :
        ((j : ℕ)
          → j < attempts
          → stat (stem dir prefix (((counter + 1) % 2 ^ 32 + 1 + j) % 2 ^ 32) ++ suffix) ≡ false
          → (name : Bytes) × ((mktemp_loop stat dir prefix suffix attempts
                ((counter + 1) % 2 ^ 32)).0
              ≡ ok name))
        → (k : ℕ) → k < suc attempts
        → stat (stem dir prefix ((counter + 1 + k) % 2 ^ 32) ++ suffix) ≡ false
        → stat (stem dir prefix ((counter + 1) % 2 ^ 32) ++ suffix) ≡ true
        → (name : Bytes) × ((mktemp_loop stat dir prefix suffix attempts ((counter + 1) % 2 ^ 32)).0
            ≡ ok name)
    later again zero h f g =
        let base : counter + 1 + 0 ≡ counter + 1 = omega arith in
        absurd (true-false (sym g ∙ (rw base at f)))
    later again (suc k) h f g =
        let same : ((counter + 1) % 2 ^ 32 + 1 + k) % 2 ^ 32 ≡ (counter + 1 + suc k) % 2 ^ 32 =
          omega arith in
        again k (omega arith) (rw same f)

-- In a given directory, with a suffix of at most five bytes, and where one of the 1024 names behind the counter is free,
-- `mktemp` returns a name: made of the directory, the prefix, the counter it leaves and the suffix, of no
-- file that is there, and short enough for the 80 bytes of the buffer with its terminator.
pub mktemp-IsName :
    (getenv : Bytes → Option Bytes) (stat : Bytes → Bool) (suffix prefix dir : Bytes)
    (counter k : ℕ)
    → length suffix ≤ 5
    → k < 1024
    → stat (stem dir prefix ((counter + 1 + k) % 2 ^ 32) ++ suffix) ≡ false
    → (name : Bytes) × ((mktemp getenv stat suffix prefix (some dir) counter).0 ≡ ok name)
      × IsName stat dir prefix suffix (mktemp getenv stat suffix prefix (some dir) counter).1 name
unfolding mktemp
mktemp-IsName getenv stat suffix prefix dir counter k hs hk hf =
    let (name, e) = loop_finds stat dir prefix suffix 1024 counter k hs hk hf in
    (name, e, loop-IsName stat dir prefix suffix 1024 counter name e)
