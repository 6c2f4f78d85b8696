-- ===== src/Urlsplit/Printed.antt =====
-- `urlsplit` of urllib_parse_uc386dos.c on a URL that is put together from parts.
use freedos_micro_python.Prelude.{
  ◌≡◌, refl, Bool, true, false, some, [], ◌∷◌, ◌++◌, arith, Bytes, All,
}
use freedos_micro_python.Quote.{is_letter}
use freedos_micro_python.Scan.{Stops, Passes, span_exact}
use freedos_micro_python.Urlsplit.{
  SplitResult, is_scheme_char, scheme_loop, find_scheme, stop_netloc, stop_path, stop_query,
  find_netloc, find_query, find_fragment, split_rest, urlsplit,
}
use freedos_micro_python.Urlsplit.Parts.{mark, Delimiters, assemble}

-- `letter *( letter / digit / "+" / "-" / "." )`, as in RFC 3986.
abbrev pub IsScheme : Bytes → Type 0
IsScheme [] = ⊥
IsScheme (c ∷ s) = (is_letter c ≡ true) × All (λ b. is_scheme_char b ≡ true) s

-- A path is empty or starts with `/`.
abbrev pub IsRooted : Bytes → Type 0
IsRooted [] = Unit
IsRooted (c ∷ s) = c ≡ b'/'

-- The parts of an absolute URL, with or without a query and a fragment.
pub record IsUrl (d : Delimiters) (r : SplitResult) : Type 0 where
  pub colon : d.colon ≡ true
  pub slashes : d.slashes ≡ true
  pub scheme : IsScheme r.scheme
  pub netloc : Passes stop_netloc r.netloc
  pub rooted : IsRooted r.path
  pub path : Passes stop_path r.path
  pub query : Passes stop_query r.query
  pub no_query : d.question ≡ false → r.query ≡ []
  pub no_fragment : d.hash ≡ false → r.fragment ≡ []

scheme_loop_exact :
    (a s : Bytes) → All (λ b. is_scheme_char b ≡ true) a → scheme_loop (a ++ b':' ∷ s) ≡ some (a, s)
unfolding scheme_loop is_scheme_char
scheme_loop_exact [] s h = refl
scheme_loop_exact (c ∷ a) s (hc, ha) = rw (scheme_loop_exact a s ha) (ground arith)

find_scheme_exact : (a s : Bytes) → IsScheme a → find_scheme (a ++ b':' ∷ s) ≡ some (a, s)
unfolding find_scheme
find_scheme_exact [] s h = absurd h
find_scheme_exact (c ∷ a) s (hc, ha) = rw (hc, scheme_loop_exact a s ha)

netloc_exact :
    (n s : Bytes)
    → Passes stop_netloc n
    → Stops stop_netloc s
    → find_netloc (b'/' ∷ b'/' ∷ (n ++ s)) ≡ (n, s)
unfolding find_netloc
netloc_exact n s hn hs = span_exact stop_netloc n s hn hs

fragment_exact :
    (h : Bool) (f : Bytes) → (h ≡ false → f ≡ []) → find_fragment (mark h (b'#' ∷ []) ++ f) ≡ f
unfolding find_fragment
fragment_exact true f e = refl
fragment_exact false f e = rw (e refl)

hash-Stops :
    (h : Bool) (f : Bytes) → (h ≡ false → f ≡ []) → Stops stop_query (mark h (b'#' ∷ []) ++ f)
hash-Stops true f e = refl
hash-Stops false f e = rw (e refl) tt

query_exact :
    (q : Bool) (s t : Bytes)
    → (q ≡ false → s ≡ [])
    → Passes stop_query s
    → Stops stop_query t
    → find_query (mark q (b'?' ∷ []) ++ (s ++ t)) ≡ (s, t)
unfolding find_query
query_exact true s t e hs ht = span_exact stop_query s t hs ht
query_exact false s [] e hs ht = rw (e refl)
query_exact false s (c ∷ t) e hs ht = rw (e refl) (ground arith)

-- What follows the path stops a scan over it, and what follows the netloc too.
query-Stops :
    (q : Bool) (s t : Bytes)
    → (q ≡ false → s ≡ [])
    → Stops stop_query t
    → Stops stop_path (mark q (b'?' ∷ []) ++ (s ++ t))
query-Stops true s t e ht = refl
query-Stops false s [] e ht = rw (e refl) tt
query-Stops false s (c ∷ t) e ht = rw (e refl) (ground arith)

path-Stops : (p s : Bytes) → IsRooted p → Stops stop_path s → Stops stop_netloc (p ++ s)
path-Stops [] [] hp hs = tt
path-Stops [] (c ∷ s) hp hs = ground arith
path-Stops (c ∷ p) s hp hs = ground arith

-- The parts that a URL was put together from are the parts that `urlsplit` finds, whatever the
-- query, the fragment and the path hold beyond their delimiters.
pub urlsplit-assemble : (d : Delimiters) (r : SplitResult) → IsUrl d r → urlsplit (assemble d r) ≡ r
unfolding urlsplit split_rest
urlsplit-assemble d r u =
    let tail = mark d.hash (b'#' ∷ []) ++ r.fragment in
    let tail_stops = hash-Stops d.hash r.fragment u.no_fragment in
    let more = mark d.question (b'?' ∷ []) ++ (r.query ++ tail) in
    let more_stops = query-Stops d.question r.query tail u.no_query tail_stops in
    rw (u.colon, u.slashes)
      (rw (find_scheme_exact r.scheme _ u.scheme, urlsplit)
        (rw
          (netloc_exact r.netloc (r.path ++ more) u.netloc
            (path-Stops r.path more u.rooted more_stops))
          (rw (span_exact stop_path r.path more u.path more_stops) (
            rw (query_exact d.question r.query tail u.no_query u.query tail_stops)
              (rw (fragment_exact d.hash r.fragment u.no_fragment))))))
