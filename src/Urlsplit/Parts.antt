-- ===== src/Urlsplit/Parts.antt =====
-- The parts of any text that `urlsplit` of urllib_parse_uc386dos.c is given.
use freedos_micro_python.Prelude.{
  ◌≡◌, refl, Bool, true, false, ◌&&◌, Option, none, some, [], ◌∷◌, ◌++◌, arith, Bytes, ◌==◌,
  Bool-cases, inl, inr,
}
use freedos_micro_python.Scan.{span, Stops, Passes, append-span, span-Passes, span-Stops}
use freedos_micro_python.Urlsplit.{
  SplitResult, scheme_loop, find_scheme, stop_netloc, stop_path, stop_query, find_netloc,
  find_query, find_fragment, split_rest, urlsplit,
}

-- A delimiter that is there or not.
abbrev pub mark : Bool → Bytes → Bytes
mark true s = s
mark false s = []

-- A text with its parts, given which delimiters it has.
pub record Delimiters : Type 0 where
  pub colon : Bool
  pub slashes : Bool
  pub question : Bool
  pub hash : Bool

abbrev pub assemble : Delimiters → SplitResult → Bytes
assemble d r =
    r.scheme
    ++ (mark d.colon (b':' ∷ [])
        ++ (mark d.slashes (b'/' ∷ b'/' ∷ [])
            ++ (r.netloc
                ++ (r.path
                    ++ (mark d.question (b'?' ∷ [])
                        ++ (r.query ++ (mark d.hash (b'#' ∷ []) ++ r.fragment)))))))

scheme_loop-append : (s a b : Bytes) → scheme_loop s ≡ some (a, b) → a ++ b':' ∷ b ≡ s
unfolding scheme_loop
scheme_loop-append [] a b h = cc
scheme_loop-append (c ∷ s) a b h = go (scheme_loop s) refl (scheme_loop-append s)
  where
    go :
        (x : Option (Bytes × Bytes))
        → scheme_loop s ≡ x
        → ((a b : Bytes) → scheme_loop s ≡ some (a, b) → a ++ b':' ∷ b ≡ s)
        → a ++ b':' ∷ b ≡ c ∷ s
    go none e ih = ground arith
    go (some (a', b')) e ih = ground (arith, ih a' b' e)

find_scheme-append : (s a b : Bytes) → find_scheme s ≡ some (a, b) → a ++ b':' ∷ b ≡ s
unfolding find_scheme
find_scheme-append [] a b h = cc
find_scheme-append (c ∷ s) a b h = go (scheme_loop s) refl
  where
    go : (x : Option (Bytes × Bytes)) → scheme_loop s ≡ x → a ++ b':' ∷ b ≡ c ∷ s
    go none e = ground arith
    go (some (a', b')) e = ground (arith, scheme_loop-append s a' b' e)

netloc_parts :
    (s : Bytes)
    → (f : Bool) × (mark f (b'/' ∷ b'/' ∷ []) ++ ((find_netloc s).0 ++ (find_netloc s).1) ≡ s)
      × Passes stop_netloc (find_netloc s).0
unfolding find_netloc
netloc_parts [] = (false, refl, tt)
netloc_parts (a ∷ []) = (false, refl, tt)
netloc_parts (a ∷ b ∷ s) = elim (Bool-cases (a == b'/' && b == b'/')) [
  | inl e ↦ rw e (true, ground (arith, append-span stop_netloc s), span-Passes stop_netloc s)
  | inr e ↦ rw e (false, refl, tt)
]

query_parts :
    (s : Bytes)
    → Stops stop_path s
    → (f : Bool) × (mark f (b'?' ∷ []) ++ ((find_query s).0 ++ (find_query s).1) ≡ s)
      × Passes stop_query (find_query s).0
      × Stops stop_query (find_query s).1
unfolding find_query
query_parts [] h = (false, refl, tt, tt)
query_parts (c ∷ s) h = elim (Bool-cases (c == b'?')) [
  | inl e ↦ rw e (
    true,
    ground (arith, append-span stop_query s),
    span-Passes stop_query s,
    span-Stops stop_query s,
  )
  | inr e ↦ rw e (false, refl, tt, ground arith)
]

fragment_parts :
    (s : Bytes) → Stops stop_query s → (f : Bool) × (mark f (b'#' ∷ []) ++ find_fragment s ≡ s)
unfolding find_fragment
fragment_parts [] h = (false, refl)
fragment_parts (c ∷ s) h = (true, ground arith)

-- What the parts of a split are: no part holds a delimiter that would have ended it.
pub record IsSplit (url : Bytes) (r : SplitResult) (d : Delimiters) : Type 0 where
  pub spells : assemble d r ≡ url
  pub in_netloc : Passes stop_netloc r.netloc
  pub in_path : Passes stop_path r.path
  pub in_query : Passes stop_query r.query

split_rest-IsSplit :
    (scheme s : Bytes) (colon : Bool)
    → (d : Delimiters) × IsSplit (scheme ++ (mark colon (b':' ∷ []) ++ s)) (split_rest scheme s) d
unfolding split_rest
split_rest-IsSplit scheme s colon =
    let (fn, en, pn) = netloc_parts s in
    let s1 = (find_netloc s).1 in
    let s2 = (span stop_path s1).1 in
    let (fq, eq, pq, sq) = query_parts s2 (span-Stops stop_path s1) in
    let (fh, eh) = fragment_parts (find_query s2).1 sq in
    (
      record { colon = colon; slashes = fn; question = fq; hash = fh },
      record {
        spells = rw (eh, eq, append-span stop_path s1, en);
        in_netloc = pn;
        in_path = span-Passes stop_path s1;
        in_query = pq;
      },
    )

-- Every text is spelled by the five parts of its split and the delimiters between them: nothing is
-- lost and nothing is invented. A netloc holds no `/`, `?` or `#`, a path no `?` or `#`, and a query
-- no `#`.
pub urlsplit-IsSplit : (url : Bytes) → (d : Delimiters) × IsSplit url (urlsplit url) d
unfolding urlsplit
urlsplit-IsSplit url = go (find_scheme url) refl
  where
    go :
        (x : Option (Bytes × Bytes))
        → find_scheme url ≡ x
        → (d : Delimiters) × IsSplit url (urlsplit url) d
    go none e = rw (e, urlsplit) (split_rest-IsSplit [] url false)
    go (some (a, b)) e =
        let spelled = find_scheme-append url a b e in
        rw (e, urlsplit) (rw spelled at (split_rest-IsSplit a b true))
