-- ===== src/OsModule/Listing.antt =====
-- `os.listdir` of os_uc386dos.c, on a directory whose entries DOS gives one by one.
use freedos_micro_python.Prelude.{
  ℕ, zero, suc, ◌+◌, ◌≤◌, ◌<◌, ◌≡◌, ◌≢◌, ap, refl, true, false, ◌&&◌, not, ◌-◌, Option, none, some,
  List, [], ◌∷◌, ◌++◌, arith, Bytes, codes, length, ltb, ◌==◌, Lacks, All, Result, ok, raised,
  os_error, e2big, ◌⊎◌, inl, inr, Bool-cases, length-append, get_or,
}
use freedos_micro_python.OsModule.{Libc, separator, mask_of, is_dots, listed, listing, listdir}

-- What a list of entries becomes.
pub data Listed : List Bytes → List Bytes → Type 0 where
  empty : Listed [] []
  skipped :
      (n : Bytes) (ns rs : List Bytes)
      → (n ≡ 46 ∷ []) ⊎ (n ≡ 46 ∷ 46 ∷ [])
      → Listed ns rs
      → Listed (n ∷ ns) rs
  shown :
      (n : Bytes) (ns rs : List Bytes)
      → n ≢ 46 ∷ []
      → n ≢ 46 ∷ 46 ∷ []
      → Listed ns rs
      → Listed (n ∷ ns) (n ∷ rs)

-- A search that has found an entry, and goes on to give those that follow.
pub data Streams {W : Type 0} (libc : Libc W) : Option Bytes → W → List Bytes → W → Type 0 where
  over : (w : W) → Streams libc none w [] w
  entry :
      (n : Bytes) (w : W) (ns : List Bytes) (w' : W)
      → Streams libc (libc.dos_find_next w).0 (libc.dos_find_next w).1 ns w'
      → Streams libc (some n) w (n ∷ ns) w'

is_dots_found : (n : Bytes) → Lacks 0 n → is_dots n ≡ true → (n ≡ 46 ∷ []) ⊎ (n ≡ 46 ∷ 46 ∷ [])
unfolding is_dots
is_dots_found [] l h = absurd (ground arith)
is_dots_found (a ∷ []) l h = inl (ap (λ x. x ∷ []) (ground arith))
is_dots_found (a ∷ b ∷ []) l h =
    (let a46 : a ≡ 46 = ground arith in let b46 : b ≡ 46 = ground arith in inr (rw (a46, b46) refl))
is_dots_found (a ∷ b ∷ c ∷ n) l h = absurd (ground arith)

is_dots_other : (n : Bytes) → is_dots n ≡ false → (n ≢ 46 ∷ []) × (n ≢ 46 ∷ 46 ∷ [])
unfolding is_dots
is_dots_other n h = (
  (λ e. let t : true ≡ false = rw e at h in absurd (ground arith)),
  (λ e. let t : true ≡ false = rw e at h in absurd (ground arith)),
)

-- What the search of a call shows, of the entries that DOS gives.
pub record IsListing (names : List Bytes) (r : Option (List Bytes)) : Type 0 where
  pub result : List Bytes
  pub returned : r ≡ some result
  pub right : Listed names result

module _ {W : Type 0} (libc : Libc W) where
  listed-Listed :
      (n : Bytes) (ns rs : List Bytes) → Lacks 0 n → Listed ns rs → Listed (n ∷ ns) (listed n rs)
  unfolding listed
  listed-Listed n ns rs l h = elim (Bool-cases (is_dots n)) [
    | inl e ↦ rw e (skipped n ns rs (is_dots_found n l e) h)
    | inr e ↦ rw e (let (a, b) = is_dots_other n e in shown n ns rs a b h)
  ]

  listing-IsListing :
      (fuel : ℕ) (found : Option Bytes) (w : W) (w' : W) (names : List Bytes)
      → Streams libc found w names w'
      → All (Lacks 0) names
      → length names ≤ fuel
      → IsListing names (listing libc fuel found w).0 × ((listing libc fuel found w).1 ≡ w')
  unfolding listing
  listing-IsListing fuel _ _ _ _ (over w) l enough =
      (record { result = []; returned = refl; right = empty }, refl)
  listing-IsListing zero _ _ _ _ (entry n w ns w' s) l enough = absurd (omega arith)
  listing-IsListing (suc fuel) _ _ _ _ (entry n w ns w' s) (ln, l) enough =
      let (i, after) =
        listing-IsListing fuel (libc.dos_find_next w).0 (libc.dos_find_next w).1 w' ns s l
          (omega arith) in
      (
        record {
          result = listed n i.result;
          returned = rw i.returned refl;
          right = listed-Listed n ns i.result ln i.right;
        },
        after,
      )

  -- What `listdir` returns, and the state behind it.
  pub record IsListdir (path : Option Bytes) (names : List Bytes) (w' : W)
      (r : Option (Result (List Bytes)) × W) : Type 0 where
    pub result : List Bytes
    pub returned : r.0 ≡ some (ok result)
    pub right : Listed names result
    pub after : r.1 ≡ w'

  -- Where the path leaves room for the mask, and DOS, asked for that mask, gives entries one by one and
  -- then no more, `listdir` ends with a round for each entry and returns the names of all of them, in DOS's order,
  -- less "." and "..", and less nothing else.
  pub listdir-IsListdir :
      (fuel : ℕ) (path : Option Bytes) (mask : Bytes) (w w' : W) (names : List Bytes)
      → mask_of path ≡ ok mask
      → Streams libc (libc.dos_find_first mask w).0 (libc.dos_find_first mask w).1 names w'
      → All (Lacks 0) names
      → length names ≤ fuel
      → IsListdir path names w' (listdir libc fuel path w)
  unfolding listdir
  listdir-IsListdir fuel path mask w w' names e s l enough =
      let (i, after) =
        listing-IsListing fuel (libc.dos_find_first mask w).0 (libc.dos_find_first mask w).1 w'
          names s l enough in
      record {
        result = i.result;
        returned = rw (listdir, e, i.returned) refl;
        right = i.right;
        after = rw (listdir, e) after;
      }

separator-cases : (path : Bytes) → (separator path ≡ []) ⊎ (separator path ≡ 92 ∷ [])
unfolding separator
separator-cases path =
    let last = get_or path (length path - 1) 0 in
    elim (Bool-cases (ltb 0 (length path) && not (last == 92) && not (last == 47))) [
      | inl e ↦ inr (rw e refl)
      | inr e ↦ inl (rw e refl)
    ]

-- The mask of `listdir` for a path is refused with E2BIG where the path has more than 75 bytes; otherwise it is
-- the path, an optional backslash and `*.*`, and fits the buffer of 80 bytes with its terminator.
pub mask_of-path :
    (path : Bytes)
    → ((75 < length path) × (mask_of (some path) ≡ raised (os_error e2big)))
      ⊎ ((sep : Bytes) × ((mask_of (some path) ≡ ok (path ++ (sep ++ codes "*.*")))
            × ((length (path ++ (sep ++ codes "*.*")) + 1 ≤ 80) × ((sep ≡ []) ⊎ (sep ≡ 92 ∷ [])))))
unfolding mask_of
mask_of-path path = elim (Bool-cases (ltb 80 (length path + 5))) [
  | inl e ↦ inl (ground arith, rw e refl)
  | inr e ↦
      let cases = separator-cases path in
      let short : length (separator path ++ codes "*.*") ≤ 4 = elim cases [
        | inl c ↦ rw c (omega arith)
        | inr c ↦ rw c (omega arith)
      ] in
      let size = length-append path (separator path ++ codes "*.*") in
      inr (separator path, (rw e refl, (ground (arith, size, short), cases)))
]
