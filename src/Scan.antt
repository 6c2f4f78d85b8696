-- ===== src/Scan.antt =====
-- The scanning loop `while (pos < n && !stop(url[pos])) pos++` of urllib_parse_uc386dos.c. A position
-- in a text is the pair of what stands before it and what stands from it on.
use freedos_micro_python.Prelude.{
  ℕ, ◌≡◌, ◌≤◌, refl, Bool, true, false, [], ◌∷◌, ◌++◌, arith, Bytes, length, All, if◌then◌else◌,
  inl, inr, Bool-cases,
}

unfoldable pub span : (ℕ → Bool) → Bytes → Bytes × Bytes
span stop [] = ([], [])
span stop (c ∷ s) =
    let (before, rest) = span stop s in if stop c then ([], c ∷ s) else (c ∷ before, rest)

-- The text ends, or a byte follows at which the scan stops.
abbrev pub Stops : (ℕ → Bool) → Bytes → Type 0
Stops stop [] = Unit
Stops stop (c ∷ s) = stop c ≡ true

abbrev pub Passes : (ℕ → Bool) → Bytes → Type 0
Passes stop = All (λ c. stop c ≡ false)

pub append-span : (stop : ℕ → Bool) (s : Bytes) → (span stop s).0 ++ (span stop s).1 ≡ s
unfolding span
append-span stop [] = refl
append-span stop (c ∷ s) = ground (arith, append-span stop s)

pub span-Passes : (stop : ℕ → Bool) (s : Bytes) → Passes stop (span stop s).0
unfolding span
span-Passes stop [] = tt
span-Passes stop (c ∷ s) = elim (Bool-cases (stop c)) [
  | inl e ↦ rw e tt
  | inr e ↦ rw e (e, span-Passes stop s)
]

pub span-Stops : (stop : ℕ → Bool) (s : Bytes) → Stops stop (span stop s).1
unfolding span
span-Stops stop [] = tt
span-Stops stop (c ∷ s) = elim (Bool-cases (stop c)) [
  | inl e ↦ rw e e
  | inr e ↦ rw e (span-Stops stop s)
]

-- A scan stops where it should.
pub span_exact :
    (stop : ℕ → Bool) (p rest : Bytes)
    → Passes stop p
    → Stops stop rest
    → span stop (p ++ rest) ≡ (p, rest)
unfolding span
span_exact stop [] [] hp hr = refl
span_exact stop [] (c ∷ rest) hp hr = rw hr
span_exact stop (c ∷ p) rest (hc, hp) hr = rw (span_exact stop p rest hp hr, hc)

pub length-span : (stop : ℕ → Bool) (s : Bytes) → length (span stop s).1 ≤ length s
unfolding span
length-span stop [] = omega arith
length-span stop (c ∷ s) = ground (arith, length-span stop s)
