-- ===== src/Urlsplit.antt =====
-- `urlsplit` of src/freedos_micro_python/port/urllib_parse_uc386dos.c.
pub mod Parts
pub mod Printed
mod Tests
use freedos_micro_python.Prelude.{
  ℕ, ◌≡◌, refl, Bool, true, false, ◌&&◌, ◌||◌, Option, none, some, List, [], ◌∷◌, ◌++◌, Bytes, ◌==◌,
  in_range, if◌then◌else◌,
}
use freedos_micro_python.Quote.{is_letter}
use freedos_micro_python.Scan.{span}

pub record SplitResult : Type 0 where
  pub scheme : Bytes
  pub netloc : Bytes
  pub path : Bytes
  pub query : Bytes
  pub fragment : Bytes

pub is_scheme_char : ℕ → Bool
is_scheme_char c = is_letter c || in_range b'0' b'9' c || c == b'+' || c == b'-' || c == b'.'

-- The loop that looks for the colon: the text before it and behind it.
pub scheme_loop : Bytes → Option (Bytes × Bytes)
scheme_loop [] = none
scheme_loop (c ∷ s) =
    let found = scheme_loop s in
    if c == b':'
    then some ([], s)
    else if is_scheme_char c
    then elim found [ none ↦ none | some (a, b) ↦ some (c ∷ a, b) ]
    else none

-- `has_scheme`, as an option.
pub find_scheme : Bytes → Option (Bytes × Bytes)
find_scheme [] = none
find_scheme (c ∷ s) =
    if is_letter c
    then elim (scheme_loop s) [ none ↦ none | some (a, b) ↦ some (c ∷ a, b) ]
    else none

abbrev pub stop_netloc : ℕ → Bool
stop_netloc c = c == b'/' || c == b'?' || c == b'#'

abbrev pub stop_path : ℕ → Bool
stop_path c = c == b'?' || c == b'#'

abbrev pub stop_query : ℕ → Bool
stop_query c = c == b'#'

-- From here on, each piece is what was passed over and what is left.
pub find_netloc : Bytes → Bytes × Bytes
find_netloc [] = ([], [])
find_netloc (a ∷ []) = ([], a ∷ [])
find_netloc (a ∷ b ∷ s) = if a == b'/' && b == b'/' then span stop_netloc s else ([], a ∷ b ∷ s)

pub find_query : Bytes → Bytes × Bytes
find_query [] = ([], [])
find_query (c ∷ s) = if c == b'?' then span stop_query s else ([], c ∷ s)

pub find_fragment : Bytes → Bytes
find_fragment [] = []
find_fragment (c ∷ s) = if c == b'#' then s else c ∷ s

pub split_rest : Bytes → Bytes → SplitResult
split_rest scheme s =
    let (netloc, s1) = find_netloc s in
    let (path, s2) = span stop_path s1 in
    let (query, s3) = find_query s2 in
    record {
      scheme = scheme;
      netloc = netloc;
      path = path;
      query = query;
      fragment = find_fragment s3;
    }

pub urlsplit : Bytes → SplitResult
urlsplit url = elim (find_scheme url) [
  | none ↦ split_rest [] url
  | some (scheme, s) ↦ split_rest scheme s
]
