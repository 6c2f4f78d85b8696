-- ===== src/Query/Tests.antt =====
-- Runs of `urlencode` and `parse_qsl` on concrete pairs.
use freedos_micro_python.Prelude.{
  ◌≡◌, refl, true, false, some, ok, raised, value_error, List, [], ◌∷◌, Bytes, codes, arith,
}
use freedos_micro_python.Quote.{Object, text}
use freedos_micro_python.Query.{iterable, urlencode, urlencode_items, parse_qsl}
use freedos_micro_python.Query.RoundTrip.{arrays, parse_qsl_total, parse_qsl-urlencode}

-- Python's `str`, for a model in which every object is a text.
abbrev str_text : Object ⊥ → Bytes
str_text (text s) = s
str_text (Object.buffer s) = s
str_text (Object.other x) = absurd x

abbrev two_pairs : List (Bytes × Bytes)
two_pairs = (codes "a b", codes "1&2") ∷ (codes "k", codes "=") ∷ []

not_a_pair : urlencode str_text (iterable ((text (codes "a") ∷ []) ∷ [])) ≡ raised value_error
unfolding urlencode urlencode_items
not_a_pair = refl

parse_qsl_total_example : (r : List (Bytes × Bytes)) × (parse_qsl true (codes "a=&&b") ≡ some r)
parse_qsl_total_example = parse_qsl_total true (codes "a=&&b")

parse_qsl-urlencode_example :
    (qs : Bytes) × (urlencode str_text (iterable (arrays two_pairs)) ≡ ok qs)
    × (parse_qsl false qs ≡ some two_pairs)
parse_qsl-urlencode_example = parse_qsl-urlencode str_text false two_pairs (
  (
    (omega arith, (omega arith, (omega arith, tt))),
    (omega arith, (omega arith, (omega arith, tt))),
    omega arith,
    refl,
  ),
  (((omega arith, tt), (omega arith, tt), omega arith, refl), tt),
)
