-- ===== src/Dos21/Memory.antt =====
-- Loads and stores of dosint21_uc386dos.c.
use freedos_micro_python.Prelude.{
  ℕ, zero, suc, ◌+◌, ◌≤◌, ◌<◌, ◌≡◌, refl, Bool, true, [], ◌∷◌, arith, Bytes, length, ◌⊎◌, inl,
}
use freedos_micro_python.Dos21.{Ram, poke, poke_all, peek_all}

-- Every byte of a stretch can be written.
abbrev pub IsWritable : (ℕ → Bool) → ℕ → ℕ → Type 0
IsWritable writable a n = (x : ℕ) → a ≤ x → x < a + n → writable x ≡ true

pub poke_all_outside :
    (writable : ℕ → Bool) (vs : Bytes) (a x : ℕ) (ram : Ram)
    → (x < a) ⊎ (a + length vs ≤ x)
    → poke_all writable a vs ram x ≡ ram x
unfolding poke_all poke
poke_all_outside writable [] a x ram h = refl
poke_all_outside writable (v ∷ vs) a x ram h =
    ground (arith, poke_all_outside writable vs (a + 1) x (poke writable a v ram))

pub peek_all-outside :
    (writable : ℕ → Bool) (vs : Bytes) (n a b : ℕ) (ram : Ram)
    → (b + n ≤ a) ⊎ (a + length vs ≤ b)
    → peek_all n b (poke_all writable a vs ram) ≡ peek_all n b ram
unfolding peek_all
peek_all-outside writable vs zero a b ram h = refl
peek_all-outside writable vs (suc n) a b ram h =
    ground
      (arith, poke_all_outside writable vs a b ram, peek_all-outside writable vs n a (b + 1) ram)

-- What is stored is loaded.
pub peek_all-poke_all :
    (writable : ℕ → Bool) (vs : Bytes) (a : ℕ) (ram : Ram)
    → IsWritable writable a (length vs)
    → peek_all (length vs) a (poke_all writable a vs ram) ≡ vs
unfolding poke_all peek_all poke
peek_all-poke_all writable [] a ram h = refl
peek_all-poke_all writable (v ∷ vs) a ram h =
    let first =
      poke_all_outside writable vs (a + 1) a (poke writable a v ram) (inl (omega arith)) in
    let rest =
      peek_all-poke_all writable vs (a + 1) (poke writable a v ram)
        (λ x lo hi. h x (omega arith) (omega arith)) in
    let here = h a (omega arith) (omega arith) in ground (arith, first, rest, here)
