-- ===== src/OsPath/Normal.antt =====
-- The normal form of a path, `normpath`, and the scan that it shares with `abspath`, in path_uc386dos.c.
use freedos_micro_python.Prelude.{
  ℕ, zero, suc, ◌-◌, ◌<◌, ◌≡◌, ◌≢◌, refl, ap, Bool, true, false, [], ◌∷◌, ◌++◌, arith, Bytes,
  get_or, length, All, ◌==◌, Bool-cases, inl, inr,
}
use freedos_micro_python.OsPath.{is_sep, backslash, norm_loop, normpath}

abbrev pub IsAscii : Bytes → Type 0
IsAscii = All (λ c. c < 128)

-- No `/`, and no separator behind another; `prev` says whether one stands in front.
abbrev pub Normal : Bool → Bytes → Type 0
Normal prev [] = Unit
Normal prev (c ∷ s) = (c ≢ b'/') × (is_sep c ≡ true → prev ≡ false) × Normal (is_sep c) s

-- Whether a text ends with a separator, if one stands in front or not.
unfoldable pub ends : Bool → Bytes → Bool
ends prev [] = prev
ends prev (c ∷ s) = ends (is_sep c) s

pub Normal-append :
    (prev : Bool) (s t : Bytes) → Normal prev s → Normal (ends prev s) t → Normal prev (s ++ t)
unfolding ends
Normal-append prev [] t hs ht = ht
Normal-append prev (c ∷ s) t (h1, h2, hs) ht = (h1, h2, Normal-append (is_sep c) s t hs ht)

last_at-ends :
    (prev : Bool) (s : Bytes) (i : ℕ) → suc i ≡ length s → is_sep (get_or s i 0) ≡ ends prev s
unfolding ends
last_at-ends prev [] i h = absurd (omega arith)
last_at-ends prev (c ∷ []) zero h = refl
last_at-ends prev (c ∷ []) (suc i) h = absurd (omega arith)
last_at-ends prev (c ∷ d ∷ s) zero h = absurd (omega arith)
last_at-ends prev (c ∷ d ∷ s) (suc i) h = last_at-ends (is_sep c) (d ∷ s) i (omega arith)

-- The test of the code on the last byte.
pub last-ends :
    (prev : Bool) (s : Bytes) → 0 < length s → is_sep (get_or s (length s - 1) 0) ≡ ends prev s
last-ends prev s h = last_at-ends prev s (length s - 1) (omega arith)

abbrev pub Clean : Bool → Bytes → Type 0
Clean prev s = Normal prev s × IsAscii s

module _ (add_char : ℕ → Bytes) (ascii : (c : ℕ) → c < 128 → add_char c ≡ c ∷ []) where
  pub loop_again :
      (c : ℕ) (s : Bytes)
      → is_sep c ≡ true
      → norm_loop add_char true (c ∷ s) ≡ norm_loop add_char true s
  unfolding norm_loop
  loop_again c s e = rw e

  pub loop_first :
      (c : ℕ) (s : Bytes)
      → is_sep c ≡ true
      → norm_loop add_char false (c ∷ s) ≡ backslash ∷ norm_loop add_char true s
  unfolding norm_loop
  loop_first c s e = rw (e, ascii backslash (omega arith))

  pub loop_other :
      (prev : Bool) (c : ℕ) (s : Bytes)
      → is_sep c ≡ false
      → c < 128
      → norm_loop add_char prev (c ∷ s) ≡ c ∷ norm_loop add_char false s
  unfolding norm_loop
  loop_other prev c s e h = rw (e, ascii c h)

  slash-sep : is_sep b'/' ≡ true
  unfolding is_sep
  slash-sep = refl

  Clean-byte :
      (prev : Bool) (c : ℕ) (s : Bytes)
      → is_sep c ≡ false
      → c < 128
      → Clean false s
      → Clean prev (c ∷ s)
  Clean-byte prev c s e h (n, a) = ((λ q. cc (slash-sep, ap is_sep q), λ f. cc, rw e n), (h, a))

  Clean-sep : (s : Bytes) → Clean true s → Clean false (backslash ∷ s)
  unfolding is_sep
  Clean-sep s (n, a) = ((omega arith, λ f. refl, n), (omega arith, a))

  pub loop-Clean : (prev : Bool) (s : Bytes) → IsAscii s → Clean prev (norm_loop add_char prev s)
  unfolding norm_loop
  loop-Clean prev [] h = (tt, tt)
  loop-Clean prev (c ∷ s) (hc, hs) =
      go prev (is_sep c) refl (loop-Clean true s hs) (loop-Clean false s hs)
    where
      go :
          (p b : Bool)
          → is_sep c ≡ b
          → Clean true (norm_loop add_char true s)
          → Clean false (norm_loop add_char false s)
          → Clean p (norm_loop add_char p (c ∷ s))
      go p false e t f = rw (loop_other p c s e hc) (Clean-byte p c _ e hc f)
      go true true e t f = rw (loop_again c s e) t
      go false true e t f = rw (loop_first c s e) (Clean-sep _ t)

  sep-backslash : (c : ℕ) → is_sep c ≡ true → c ≢ b'/' → c ≡ backslash
  unfolding is_sep
  sep-backslash c e h = ground arith

  -- The scan leaves a clean text as it is.
  pub loop_fixed : (prev : Bool) (s : Bytes) → Clean prev s → norm_loop add_char prev s ≡ s
  unfolding norm_loop
  loop_fixed prev [] h = refl
  loop_fixed prev (c ∷ s) ((n1, n2, ns), (ac, as_)) =
      go prev (is_sep c) refl n2 (loop_fixed (is_sep c) s (ns, as_))
    where
      go :
          (p b : Bool)
          → is_sep c ≡ b
          → (is_sep c ≡ true → p ≡ false)
          → norm_loop add_char (is_sep c) s ≡ s
          → norm_loop add_char p (c ∷ s) ≡ c ∷ s
      go p false e f ih = rw (loop_other p c s e ac) (ap (λ t. c ∷ t) (rw e at ih))
      go true true e f ih = cc (f e)
      go false true e f ih =
          rw (loop_first c s e) (rw (← sep-backslash c e n1) (ap (λ t. c ∷ t) (rw e at ih)))

  pub normpath-Clean : (p : Bytes) → IsAscii p → Clean false (normpath add_char p)
  unfolding normpath
  normpath-Clean p h = elim (Bool-cases (length (norm_loop add_char false p) == 0)) [
    | inl e ↦ rw (e, ascii b'.' (omega arith)) dot
    | inr e ↦ rw e (loop-Clean false p h)
  ]
    where
      dot : Clean false (b'.' ∷ [])
      dot = ((omega arith, λ f. refl, tt), (omega arith, tt))

  pub normpath-nonempty : (p : Bytes) → 0 < length (normpath add_char p)
  unfolding normpath
  normpath-nonempty p = elim (Bool-cases (length (norm_loop add_char false p) == 0)) [
    | inl e ↦ rw (e, ascii b'.' (omega arith)) (omega arith)
    | inr e ↦ rw e (ground arith)
  ]

  pub normpath_fixed : (s : Bytes) → Clean false s → 0 < length s → normpath add_char s ≡ s
  unfolding normpath
  normpath_fixed s c h = rw (loop_fixed false s c) (ground arith)
