-- ===== src/OsPath/Absolute.antt =====
-- `abspath` of path_uc386dos.c, for absolute and relative paths.
use freedos_micro_python.Prelude.{
  ℕ, ◌<◌, ◌≡◌, ◌∙◌, sym, append_assoc, refl, Bool, true, false, Option, some, [], ◌∷◌, ◌++◌, arith,
  Bytes, length, length-append, All-append, if◌then◌else◌, Bool-cases, inl, inr, ok,
}
use freedos_micro_python.OsPath.{
  is_sep, backslash, is_absolute, isabs, norm_loop, abs_prefix, abspath,
}
use freedos_micro_python.OsPath.Normal.{
  IsAscii, Normal, ends, Clean, Normal-append, last-ends, loop_first, loop_other, loop-Clean,
  loop_fixed, loop_again,
}
use freedos_micro_python.OsPath.Squeezed.{IsSqueezed, loop-append, loop-IsSqueezed}

isabs-is_absolute : (p : Bytes) → isabs p ≡ is_absolute p
unfolding isabs is_absolute
isabs-is_absolute p = ground arith

absolute-append : (a b : Bytes) → is_absolute a ≡ true → is_absolute (a ++ b) ≡ true
unfolding is_absolute
absolute-append [] b h = cc
absolute-append (c ∷ []) b h = ground arith
absolute-append (c ∷ d ∷ a) b h = ground arith

backslash-absolute : (t : Bytes) → is_absolute (backslash ∷ t) ≡ true
unfolding is_absolute is_sep
backslash-absolute t = ground arith

drive-absolute : (c : ℕ) (t : Bytes) → is_absolute (c ∷ b':' ∷ t) ≡ true
unfolding is_absolute
drive-absolute c t = ground arith

drive_colon : (c d : ℕ) (s : Bytes) → is_sep c ≡ false → is_absolute (c ∷ d ∷ s) ≡ true → d ≡ b':'
unfolding is_absolute
drive_colon c d s f g = ground arith

colon-not_sep : (d : ℕ) → d ≡ b':' → is_sep d ≡ false
unfolding is_sep
colon-not_sep d e = ground arith

alone-relative : (c : ℕ) → is_sep c ≡ false → is_absolute (c ∷ []) ≡ false
unfolding is_absolute
alone-relative c f = ground arith

-- The directory part, with a separator behind it.
prefix_dir : (dir : Bytes) → Bytes
prefix_dir dir = if ends false dir then dir else dir ++ backslash ∷ []

prefix-Clean : (dir : Bytes) → Clean false dir → Clean false (prefix_dir dir)
unfolding prefix_dir
prefix-Clean dir (n, a) = elim (Bool-cases (ends false dir)) [
  | inl e ↦ rw e (n, a)
  | inr e ↦ rw e (
    Normal-append false dir (backslash ∷ []) n (omega arith, λ f. e, tt),
    All-append _ dir _ a (omega arith, tt),
  )
]

ends-append : (prev : Bool) (s t : Bytes) → ends prev (s ++ t) ≡ ends (ends prev s) t
unfolding ends
ends-append prev [] t = refl
ends-append prev (c ∷ s) t = ends-append (is_sep c) s t

prefix-ends : (dir : Bytes) → ends false (prefix_dir dir) ≡ true
unfolding prefix_dir
prefix-ends dir = elim (Bool-cases (ends false dir)) [
  | inl e ↦ rw e e
  | inr e ↦ rw e (rw ends-append (unfold ends is_sep in refl))
]

prefix-nonempty : (dir : Bytes) → 0 < length dir → 0 < length (prefix_dir dir)
unfolding prefix_dir
prefix-nonempty dir h = ground (arith, length-append dir (backslash ∷ []))

prefix-absolute : (dir : Bytes) → is_absolute dir ≡ true → is_absolute (prefix_dir dir) ≡ true
unfolding prefix_dir
prefix-absolute dir h = ground (arith, absolute-append dir (backslash ∷ []) h)

absolute-nonempty : (p : Bytes) → is_absolute p ≡ true → 0 < length p
unfolding is_absolute
absolute-nonempty p h = ground arith

-- The text that `abspath` works on.
abbrev pub joined : Bytes → Bytes → Bytes
joined p dir = if is_absolute p then p else dir ++ backslash ∷ p

module _ (add_char : ℕ → Bytes) (ascii : (c : ℕ) → c < 128 → add_char c ≡ c ∷ []) where
  absolute-loop :
      (p : Bytes)
      → IsAscii p
      → is_absolute p ≡ true
      → is_absolute (norm_loop add_char false p) ≡ true
  absolute-loop [] h e = unfold is_absolute in cc
  absolute-loop (c ∷ s) (hc, hs) e = go (is_sep c) refl s hs e
    where
      go :
          (b : Bool)
          → is_sep c ≡ b
          → (s : Bytes) → IsAscii s
          → is_absolute (c ∷ s) ≡ true
          → is_absolute (norm_loop add_char false (c ∷ s)) ≡ true
      go true f s a g = rw (loop_first add_char ascii c s f) (backslash-absolute _)
      go false f [] a g = cc (alone-relative c f)
      go false f (d ∷ s) (ad, as_) g =
          let colon = drive_colon c d s f g in
          rw (loop_other add_char ascii false c (d ∷ s) f hc) (
            rw (loop_other add_char ascii false d s (colon-not_sep d colon) ad)
              (rw colon (drive-absolute c _)))

  -- What `abspath` returns: an absolute path in normal form, which it leaves as it is from then on,
  -- whatever the current directory.
  abbrev pub IsAbspath : Bytes → Type 0
  IsAbspath q =
      (is_absolute q ≡ true)
      × Normal false q
      × ((cwd : Option Bytes) → abspath add_char q cwd ≡ ok q)

  abspath_again :
      (q : Bytes)
      → Clean false q
      → is_absolute q ≡ true
      → (cwd : Option Bytes) → abspath add_char q cwd ≡ ok q
  unfolding abspath abs_prefix
  abspath_again q c a cwd = rw (a, abspath, abs_prefix) (rw (loop_fixed add_char ascii false q c))

  abs_prefix-dir :
      (p dir : Bytes)
      → is_absolute p ≡ false
      → 0 < length dir
      → abs_prefix add_char p (some dir) ≡ ok (prefix_dir dir)
  unfolding abs_prefix prefix_dir
  abs_prefix-dir p dir e h =
      rw (e, last-ends false dir h, ascii backslash (omega arith)) (ground arith)

  abspath_relative :
      (p dir : Bytes)
      → is_absolute p ≡ false
      → 0 < length dir
      → abspath add_char p (some dir) ≡ ok (prefix_dir dir ++ norm_loop add_char true p)
  unfolding abspath
  abspath_relative p dir e h =
      rw (abs_prefix-dir p dir e h, abspath)
        (rw (last-ends false (prefix_dir dir) (prefix-nonempty dir h), prefix-ends dir)
          (ground (arith, prefix-nonempty dir h)))

  abspath_absolute :
      (p : Bytes)
      → is_absolute p ≡ true
      → (cwd : Option Bytes) → abspath add_char p cwd ≡ ok (norm_loop add_char false p)
  unfolding abspath abs_prefix
  abspath_absolute p e cwd = rw (e, abspath, abs_prefix)

  -- A relative path: its directory is absolute and in normal form.
  relative-IsAbspath :
      (p dir : Bytes)
      → IsAscii p
      → is_absolute p ≡ false
      → Clean false dir
      → is_absolute dir ≡ true
      → IsAbspath (prefix_dir dir ++ norm_loop add_char true p)
  relative-IsAbspath p dir hp e c a =
      let (n, as_) = prefix-Clean dir c in
      let (m, bs) = loop-Clean add_char ascii true p hp in
      let joined = Normal-append false (prefix_dir dir) _ n (rw (prefix-ends dir) m) in
      let absolute =
        absolute-append (prefix_dir dir) (norm_loop add_char true p) (prefix-absolute dir a) in
      (absolute, joined, abspath_again _ (joined, All-append _ (prefix_dir dir) _ as_ bs) absolute)

  prefix-loop :
      (p dir : Bytes)
      → Clean false dir
      → norm_loop add_char false (dir ++ backslash ∷ p)
        ≡ prefix_dir dir ++ norm_loop add_char true p
  unfolding prefix_dir
  prefix-loop p dir (n, a) =
      let sep : is_sep backslash ≡ true = unfold is_sep in refl in
      loop-append add_char ascii false dir (backslash ∷ p) a
      ∙ rw (loop_fixed add_char ascii false dir (n, a)) (elim (Bool-cases (ends false dir)) [
        | inl e ↦ rw (e, loop_again add_char ascii backslash p sep) refl
        | inr e ↦
            rw (e, loop_first add_char ascii backslash p sep)
              (sym (append_assoc dir (backslash ∷ []) (norm_loop add_char true p)))
      ])

  relative-IsSqueezed :
      (p dir : Bytes)
      → IsAscii p
      → Clean false dir
      → IsSqueezed (dir ++ backslash ∷ p) (prefix_dir dir ++ norm_loop add_char true p)
  relative-IsSqueezed p dir h c = rw (← prefix-loop p dir c) (
      loop-IsSqueezed add_char ascii (dir ++ backslash ∷ p)
        (All-append _ dir (backslash ∷ p) c.1 (omega arith, h)))

  -- On an ASCII path, in an absolute directory in normal form, `abspath` returns an absolute path: the path itself
  -- where it is absolute, and otherwise the directory, a separator and the path, with each run of
  -- separators made one backslash and every other byte kept, in order. That path is in
  -- normal form, and `abspath` does not change it when it is called on it, in any directory.
  pub abspath-IsAbspath :
      (p dir : Bytes)
      → IsAscii p
      → IsAscii dir
      → Normal false dir
      → is_absolute dir ≡ true
      → (q : Bytes) × (abspath add_char p (some dir) ≡ ok q)
        × IsAbspath q
        × IsSqueezed (joined p dir) q
  abspath-IsAbspath p dir hp hd n a = elim (Bool-cases (is_absolute p)) [
    | inl e ↦
        let (m, as_) = loop-Clean add_char ascii false p hp in
        let absolute = absolute-loop p hp e in
        (
          norm_loop add_char false p,
          abspath_absolute p e _,
          (absolute, m, abspath_again _ (m, as_) absolute),
          rw e (loop-IsSqueezed add_char ascii p hp),
        )
    | inr e ↦ (
      prefix_dir dir ++ norm_loop add_char true p,
      abspath_relative p dir e (absolute-nonempty dir a),
      relative-IsAbspath p dir hp e (n, hd) a,
      rw e (relative-IsSqueezed p dir hp (n, hd)),
    )
  ]
