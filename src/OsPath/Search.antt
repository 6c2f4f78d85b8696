-- ===== src/OsPath/Search.antt =====
-- What the backward searches of path_uc386dos.c find.
use freedos_micro_python.Prelude.{
  ℕ, zero, suc, ◌≤◌, ◌<◌, ◌≡◌, ◌≢◌, refl, Bool, true, false, none, some, [], ◌∷◌, arith, Bytes,
  get_or, drop, length, All,
}
use freedos_micro_python.OsPath.{is_sep, last_sep_loop, last_sep, last_dot_loop, last_dot}

abbrev pub NoSep : Bytes → Type 0
NoSep = All (λ c. is_sep c ≡ false)

-- A found separator: it is one, it is inside, and none stands between it and the end of the search.
pub record Found (s : Bytes) (n i : ℕ) : Type 0 where
  pub inside : i < n
  pub sep : is_sep (get_or s i 0) ≡ true
  pub last : (j : ℕ) → i < j → j < n → is_sep (get_or s j 0) ≡ false

loop-Found : (s : Bytes) (n i : ℕ) → last_sep_loop s n ≡ some i → Found s n i
unfolding last_sep_loop
loop-Found s zero i h = cc
loop-Found s (suc n) i h = go (is_sep (get_or s n 0)) refl (loop-Found s n i)
  where
    go :
        (b : Bool)
        → is_sep (get_or s n 0) ≡ b
        → (last_sep_loop s n ≡ some i → Found s n i)
        → Found s (suc n) i
    go true e ih =
        let ei : n ≡ i = ground arith in
        record { inside = omega arith; sep = rw (← ei) e; last = λ j p q. absurd (omega arith) }
    go false e ih =
        let f = ih (ground arith) in
        record {
          inside = omega (arith, f.inside);
          sep = f.sep;
          last = λ j p q. ground (arith, f.last j p);
        }

loop_none :
    (s : Bytes) (n : ℕ) → last_sep_loop s n ≡ none → (j : ℕ) → j < n → is_sep (get_or s j 0) ≡ false
unfolding last_sep_loop
loop_none s zero h j p = absurd (omega arith)
loop_none s (suc n) h j p = go (is_sep (get_or s n 0)) refl (loop_none s n)
  where
    go :
        (b : Bool)
        → is_sep (get_or s n 0) ≡ b
        → (last_sep_loop s n ≡ none → (j : ℕ) → j < n → is_sep (get_or s j 0) ≡ false)
        → is_sep (get_or s j 0) ≡ false
    go true e ih = ground arith
    go false e ih = ground (arith, ih (ground arith) j)

-- From every index to every byte behind it.
drop-All :
    (P : ℕ → Type 0) (s : Bytes) (k : ℕ)
    → ((j : ℕ) → k ≤ j → j < length s → P (get_or s j 0))
    → All P (drop k s)
drop-All P [] zero h = tt
drop-All P [] (suc k) h = tt
drop-All P (c ∷ s) zero h = (
  h 0 (omega arith) (omega arith),
  drop-All P s 0 (λ j p q. h (suc j) (omega arith) (omega arith)),
)
drop-All P (c ∷ s) (suc k) h = drop-All P s k (λ j p q. h (suc j) (omega arith) (omega arith))

get-drop-All :
    (P : ℕ → Type 0) (s : Bytes) (k j : ℕ)
    → All P (drop k s)
    → k ≤ j
    → j < length s
    → P (get_or s j 0)
get-drop-All P [] k j h p q = absurd (omega arith)
get-drop-All P (c ∷ s) zero zero (hc, hs) p q = hc
get-drop-All P (c ∷ s) zero (suc j) (hc, hs) p q =
    get-drop-All P s 0 j hs (omega arith) (omega arith)
get-drop-All P (c ∷ s) (suc k) zero h p q = absurd (omega arith)
get-drop-All P (c ∷ s) (suc k) (suc j) h p q = get-drop-All P s k j h (omega arith) (omega arith)

-- `last_sep` finds a separator behind which there is none.
pub last_sep_found :
    (s : Bytes) (i : ℕ)
    → last_sep s ≡ some i
    → (i < length s) × (is_sep (get_or s i 0) ≡ true) × NoSep (drop (suc i) s)
unfolding last_sep
last_sep_found s i h =
    let f = loop-Found s (length s) i h in
    (f.inside, f.sep, drop-All (λ c. is_sep c ≡ false) s (suc i) (λ j p q. f.last j p q))

-- It returns -1 only for a text with no separator.
pub last_sep-none : (s : Bytes) → last_sep s ≡ none → NoSep s
unfolding last_sep
last_sep-none s h = drop-All (λ c. is_sep c ≡ false) s 0 (λ j p q. loop_none s (length s) h j q)

abbrev pub NoDot : Bytes → Type 0
NoDot = All (λ c. c ≢ b'.')

dot_found :
    (s : Bytes) (start n i : ℕ)
    → last_dot_loop s start n ≡ some i
    → (start < i) × (i < n) × (get_or s i 0 ≡ b'.')
unfolding last_dot_loop
dot_found s start zero i h = cc
dot_found s start (suc n) i h = ground (arith, dot_found s start n i)

-- The dot that `last_dot` finds stands inside, behind the first byte of the name.
pub last_dot_found :
    (s : Bytes) (start i : ℕ)
    → last_dot s start ≡ some i
    → (start < i) × (i < length s) × (get_or s i 0 ≡ b'.')
unfolding last_dot
last_dot_found s start i h = dot_found s start (length s) i h

-- No dot and no separator stands behind it.
dot_last :
    (s : Bytes) (start n i j : ℕ)
    → last_dot_loop s start n ≡ some i
    → i < j
    → j < n
    → (get_or s j 0 ≢ b'.') × (is_sep (get_or s j 0) ≡ false)
unfolding last_dot_loop
dot_last s start zero i j h p q = cc
dot_last s start (suc n) i j h p q = ground (arith, dot_last s start n i j)

-- -1 is returned for a name with no dot behind its first byte, or a name that a separator cuts.
dot_none :
    (s : Bytes) (start n j : ℕ)
    → ((k : ℕ) → start < k → k < n → is_sep (get_or s k 0) ≡ false)
    → last_dot_loop s start n ≡ none
    → start < j
    → j < n
    → get_or s j 0 ≢ b'.'
unfolding last_dot_loop
dot_none s start zero j f h p q = absurd (omega arith)
dot_none s start (suc n) j f h p q =
    ground (arith, f n, dot_none s start n j (λ k a b. f k a (omega arith)))

-- No dot and no separator stands behind the dot that `last_dot` finds.
pub last_dot_behind :
    (s : Bytes) (start i : ℕ)
    → last_dot s start ≡ some i
    → All (λ c. (c ≢ b'.') × (is_sep c ≡ false)) (drop (suc i) s)
unfolding last_dot
last_dot_behind s start i h = drop-All _ s (suc i) (λ j p q. dot_last s start (length s) i j h p q)

-- In a name with no separator, -1 says that no dot stands behind its first byte.
pub last_dot-none :
    (s : Bytes) (start : ℕ)
    → NoSep (drop start s)
    → last_dot s start ≡ none
    → NoDot (drop (suc start) s)
unfolding last_dot
last_dot-none s start f h = drop-All _ s (suc start) (λ j p q.
    dot_none s start (length s) j (λ k a b. get-drop-All _ s start k f (omega arith) b) h p q)
