-- ===== src/OsPath/Squeezed.antt =====
-- Runs of separators in the scan that `abspath` and `normpath` of path_uc386dos.c share, and what that scan
-- keeps of a text.
use freedos_micro_python.Prelude.{
  ℕ, ◌<◌, ◌≡◌, ◌≢◌, ◌∙◌, sym, refl, ap, Bool, true, false, [], ◌∷◌, ◌++◌, arith, Bytes, length, All,
  ◌==◌, Bool-cases, inl, inr,
}
use freedos_micro_python.OsPath.{is_sep, backslash, norm_loop, normpath}
use freedos_micro_python.OsPath.Normal.{
  IsAscii, Normal, ends, loop_first, loop_again, loop_other, normpath-Clean, normpath-nonempty,
  normpath_fixed,
}

unfoldable pub starts_sep : Bytes → Bool
starts_sep [] = false
starts_sep (c ∷ s) = is_sep c

pub data IsSqueezed : Bytes → Bytes → Type 0 where
  nothing : IsSqueezed [] []
  name_byte : (c : ℕ) (s t : Bytes) → is_sep c ≡ false → IsSqueezed s t → IsSqueezed (c ∷ s) (c ∷ t)
  seps :
      (run s t : Bytes)
      → 0 < length run
      → All (λ c. is_sep c ≡ true) run
      → starts_sep s ≡ false
      → IsSqueezed s t
      → IsSqueezed (run ++ s) (backslash ∷ t)

module _ (add_char : ℕ → Bytes) (ascii : (c : ℕ) → c < 128 → add_char c ≡ c ∷ []) where
  -- A text behind a separator: the rest of the run, and what follows it.
  record Behind (s : Bytes) : Type 0 where
    passed : Bytes
    rest : Bytes
    spells : passed ++ rest ≡ s
    all_seps : All (λ c. is_sep c ≡ true) passed
    ended : starts_sep rest ≡ false
    loop : norm_loop add_char true s ≡ norm_loop add_char false rest
    squeezed : IsSqueezed rest (norm_loop add_char false rest)

  loop-IsSqueezed-Behind :
      (s : Bytes) → IsAscii s → IsSqueezed s (norm_loop add_char false s) × Behind s
  unfolding norm_loop starts_sep
  loop-IsSqueezed-Behind [] h = (
    nothing,
    record {
      passed = [];
      rest = [];
      spells = refl;
      all_seps = tt;
      ended = refl;
      loop = refl;
      squeezed = nothing;
    },
  )
  loop-IsSqueezed-Behind (c ∷ s) (hc, hs) =
      let (inner, behind) = loop-IsSqueezed-Behind s hs in
      elim (Bool-cases (is_sep c)) [
        | inr e ↦
            let kept = name_byte c s _ e inner in
            let out = loop_other add_char ascii false c s e hc in
            let all : IsSqueezed (c ∷ s) (norm_loop add_char false (c ∷ s)) = rw out kept in
            (
              all,
              record {
                passed = [];
                rest = c ∷ s;
                spells = refl;
                all_seps = tt;
                ended = e;
                loop = loop_other add_char ascii true c s e hc ∙ sym out;
                squeezed = all;
              },
            )
        | inl e ↦
            let longer : (c ∷ behind.passed) ++ behind.rest ≡ c ∷ s =
              ap (λ t. c ∷ t) behind.spells in
            let whole : IsSqueezed (c ∷ s) (backslash ∷ norm_loop add_char false behind.rest) =
              rw longer at (
                seps (c ∷ behind.passed) behind.rest _ (omega arith) (e, behind.all_seps)
                  behind.ended behind.squeezed) in
            (
              rw (loop_first add_char ascii c s e, behind.loop) whole,
              record {
                passed = c ∷ behind.passed;
                rest = behind.rest;
                spells = longer;
                all_seps = (e, behind.all_seps);
                ended = behind.ended;
                loop = loop_again add_char ascii c s e ∙ behind.loop;
                squeezed = behind.squeezed;
              },
            )
      ]

  pub loop-IsSqueezed : (s : Bytes) → IsAscii s → IsSqueezed s (norm_loop add_char false s)
  loop-IsSqueezed s h = (loop-IsSqueezed-Behind s h).0

  -- The scan of a text in two parts.
  pub loop-append :
      (prev : Bool) (a b : Bytes)
      → IsAscii a
      → norm_loop add_char prev (a ++ b)
        ≡ norm_loop add_char prev a ++ norm_loop add_char (ends prev a) b
  unfolding norm_loop ends
  loop-append prev [] b h = refl
  loop-append prev (c ∷ a) b (hc, ha) =
      let ih = loop-append (is_sep c) a b ha in
      elim (Bool-cases (is_sep c)) [
        | inr e ↦ rw (ih, ascii c hc, e) refl
        | inl e ↦ elim (Bool-cases prev) [
          | inl p ↦ rw (ih, e, p) refl
          | inr p ↦ rw (ih, ascii backslash (omega arith), e, p) refl
        ]
      ]

  normpath_full : (p : Bytes) → IsAscii p → p ≢ [] → IsSqueezed p (normpath add_char p)
  unfolding normpath
  normpath_full [] h full = absurd (full refl)
  normpath_full (c ∷ s) h full =
      let some_byte : (length (norm_loop add_char false (c ∷ s)) == 0) ≡ false =
        elim (Bool-cases (is_sep c)) [
          | inl e ↦ rw (loop_first add_char ascii c s e) (ground arith)
          | inr e ↦ rw (loop_other add_char ascii false c s e h.0) (ground arith)
        ] in
      rw some_byte (loop-IsSqueezed (c ∷ s) h)

  -- On an ASCII path `normpath` returns a dot where the path is empty, and otherwise the path with each run of
  -- separators made one backslash and every other byte kept, in order. What it returns is not empty, has no `/`
  -- and no separator behind another, and stays as it is when `normpath` is called on it.
  pub normpath-IsSqueezed :
      (p : Bytes)
      → IsAscii p
      → (p ≡ [] → normpath add_char p ≡ b'.' ∷ [])
        × (p ≢ [] → IsSqueezed p (normpath add_char p))
        × (0 < length (normpath add_char p))
        × Normal false (normpath add_char p)
        × (normpath add_char (normpath add_char p) ≡ normpath add_char p)
  unfolding normpath norm_loop
  normpath-IsSqueezed p h = (
    λ e. rw e (ascii b'.' (omega arith)),
    normpath_full p h,
    normpath-nonempty add_char ascii p,
    (normpath-Clean add_char ascii p h).0,
    normpath_fixed add_char ascii _ (normpath-Clean add_char ascii p h)
        (normpath-nonempty add_char ascii p),
  )
