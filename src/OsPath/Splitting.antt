-- ===== src/OsPath/Splitting.antt =====
-- `split`, `splitext`, `basename` and `dirname` of path_uc386dos.c.
use freedos_micro_python.Prelude.{
  ℕ, zero, suc, ◌≤◌, ◌<◌, ◌≡◌, ◌≢◌, refl, true, false, ◌&&◌, ◌||◌, some, [], ◌∷◌, ◌++◌, arith,
  Bytes, get_or, take, drop, length, take-append-drop, All, ◌==◌, Bool-cases, Option-cases, inl,
  inr, ◌⊎◌,
}
use native.Mathlib.Numerals.{add-one}
use freedos_micro_python.OsPath.{is_sep, last_sep, head_len, split, basename, dirname}
use freedos_micro_python.OsPath.Search.{NoSep, NoDot, last_sep_found, last_sep-none}

take-get-drop : (i : ℕ) (s : Bytes) → i < length s → take i s ++ get_or s i 0 ∷ drop (suc i) s ≡ s
take-get-drop i [] h = absurd (omega arith)
take-get-drop zero (c ∷ s) h = refl
take-get-drop (suc i) (c ∷ s) h = rw (take-get-drop i s (omega arith))

-- How a path falls apart: the head, at most one separator, and a tail with none.
pub record IsSplit (p : Bytes) (mid : Bytes) (parts : Bytes × Bytes) : Type 0 where
  pub spells : parts.0 ++ (mid ++ parts.1) ≡ p
  pub short : length mid ≤ 1
  pub seps : All (λ c. is_sep c ≡ true) mid
  pub tail : NoSep parts.1

IsSplit-at :
    (p : Bytes) (i : ℕ)
    → last_sep p ≡ some i
    → (mid : Bytes) × IsSplit p mid (take (head_len p i) p, drop (suc i) p)
unfolding head_len
IsSplit-at p i h =
    let (inside, sep, behind) = last_sep_found p i h in
    elim (Bool-cases (i == 0 || i == 2 && get_or p 1 0 == b':')) [
      | inl root ↦ (
        [],
        record {
          spells = rw (root, add-one) (take-append-drop (suc i) p);
          short = omega arith;
          seps = tt;
          tail = behind;
        },
      )
      | inr inner ↦ (
        get_or p i 0 ∷ [],
        record {
          spells = rw inner (take-get-drop i p inside);
          short = omega arith;
          seps = (sep, tt);
          tail = behind;
        },
      )
    ]

-- `split` loses at most one separator, and its tail holds none.
pub split-IsSplit : (p : Bytes) → (mid : Bytes) × IsSplit p mid (split p)
unfolding split
split-IsSplit p = elim (Option-cases (last_sep p)) [
  | inl e ↦
      rw (e, split)
        ([], record { spells = refl; short = omega arith; seps = tt; tail = last_sep-none p e })
  | inr (i, e) ↦ rw (e, split) (rw add-one (IsSplit-at p i e))
]

-- `dirname` and `basename` are the two components of `split`, on every path.
pub split-dirname-basename : (p : Bytes) → split p ≡ (dirname p, basename p)
unfolding split dirname basename
split-dirname-basename p = elim (Option-cases (last_sep p)) [
  | inl e ↦ rw (e, split, dirname, basename)
  | inr (i, e) ↦ rw (e, split, dirname, basename)
]

-- What `splitext` may return for a path whose name starts at `start`: an extension that begins with
-- the last dot, behind at least one byte of the name, or none if no such dot stands in the name.
abbrev pub IsExtension : Bytes → ℕ → Bytes × Bytes → Type 0
IsExtension p start (root, ext) =
    ((ext ≡ []) × NoDot (drop (suc start) p))
    ⊎ ((e : Bytes) × (ext ≡ b'.' ∷ e)
        × All (λ c. (c ≢ b'.') × (is_sep c ≡ false)) e
        × (start < length root))
