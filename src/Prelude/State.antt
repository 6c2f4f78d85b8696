-- ===== src/Prelude/State.antt =====
-- Code that reads and writes a state of the world: what it returns, and the state after it.
use Prim.Native.Nat.{ℕ, ◌+◌, ◌/◌, ◌%◌, ◌^◌}
use mathlib.Core.Bool.{Bool}
use freedos_micro_python.Prelude.Tests.{◌==◌, if◌then◌else◌}

abbrev pub State : Type 0 → Type 0 → Type 0
State S A = S → A × S

abbrev pub pure : {S A : Type 0} → A → State S A
pure a s = (a, s)

infixl 5 ◌>>=◌
abbrev pub ◌>>=◌ : {S A B : Type 0} → State S A → (A → State S B) → State S B
(m >>= f) s = f (m s).0 (m s).1

-- `x >> k & 1`, and `x | 1 << k`.
abbrev pub bit : ℕ → ℕ → Bool
bit k x = x / 2 ^ k % 2 == 1

abbrev pub set_bit : ℕ → ℕ → ℕ
set_bit k x = if bit k x then x else x + 2 ^ k
