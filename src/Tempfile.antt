-- ===== src/Tempfile.antt =====
-- The `tempfile` module, src/freedos_micro_python/port/tempfile_uc386dos.c. libc's `getenv` and `stat`
-- are parameters. A C string is its bytes without the terminator; the buffer `name` has 80 bytes.
pub mod Names
mod Tests
use freedos_micro_python.Prelude.{
  ℕ, zero, suc, ◌+◌, ◌-◌, ◌*◌, ◌/◌, ◌%◌, ◌^◌, ◌≡◌, refl, Bool, true, false, not, ◌&&◌, ◌||◌, Option,
  none, some, List, [], ◌∷◌, ◌++◌, Bytes, codes, get_or, length, take, ltb, leb, ◌==◌,
  if◌then◌else◌, Result, ok, raised, os_error, e2big, eexist,
}

-- The directory where none is given: `getenv` of TEMP, or of TMP; neither, or an empty value, gives C:\.
pub gettempdir : (Bytes → Option Bytes) → Bytes
gettempdir getenv =
    let t : Option Bytes = elim (getenv (codes "TEMP")) [
      | none ↦ getenv (codes "TMP")
      | some v ↦ some v
    ] in
    elim t [ none ↦ codes "C:\\" | some v ↦ (if length v == 0 then codes "C:\\" else v) ]

-- `digits`, after the padding: the first is the lowest.
pub digits_loop : ℕ → ℕ → Bytes
digits_loop zero v = []
digits_loop (suc dlen) v = (b'0' + v % 10) ∷ digits_loop dlen (v / 10)

-- The loop that reads `digits` from its end.
pub reverse_onto : Bytes → Bytes → Bytes
reverse_onto [] out = out
reverse_onto (c ∷ s) out = reverse_onto s (c ∷ out)

pub counter_text : ℕ → Bytes
counter_text n = reverse_onto (digits_loop 5 n) []

-- What is in `name` in front of the suffix.
pub stem : Bytes → Bytes → ℕ → Bytes
stem dir prefix n =
    let head = take 60 dir in
    let last = get_or head (length head - 1) 0 in
    let gap =
      if ltb 0 (length head) && not (last == b'\\') && not (last == b'/') then b'\\' ∷ [] else [] in
    head ++ (gap ++ (take 8 prefix ++ counter_text n))

-- The loop over the attempts that are left: the result, and `tmp_counter` after it.
pub mktemp_loop : (Bytes → Bool) → Bytes → Bytes → Bytes → ℕ → ℕ → Result Bytes × ℕ
mktemp_loop stat dir prefix suffix zero counter = (raised (os_error eexist), counter)
mktemp_loop stat dir prefix suffix (suc attempts) counter =
    let n = (counter + 1) % 2 ^ 32 in
    let name = stem dir prefix n ++ suffix in
    let rest = mktemp_loop stat dir prefix suffix attempts n in
    if ltb 80 (length name + 1)
    then (raised (os_error e2big), n)
    else if stat name
    then rest
    else (ok name, n)

-- `stat` says whether a file of that name is there; `dir` is None or a text.
pub mktemp :
    (Bytes → Option Bytes) → (Bytes → Bool) → Bytes → Bytes → Option Bytes → ℕ → Result Bytes × ℕ
mktemp getenv stat suffix prefix dir counter =
    mktemp_loop stat (elim dir [ none ↦ gettempdir getenv | some d ↦ d ]) prefix suffix 1024 counter
