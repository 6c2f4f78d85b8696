-- ===== src/Tempfile/Tests.antt =====
-- Names that `mktemp` makes.
use freedos_micro_python.Prelude.{
  ◌≡◌, ◌==◌, ◌%◌, refl, Bool, false, Option, none, ok, raised, os_error, e2big, Bytes, codes,
  length, replicate,
}
use freedos_micro_python.Tempfile.{
  gettempdir, digits_loop, reverse_onto, counter_text, stem, mktemp_loop, mktemp,
}

abbrev no_env : Bytes → Option Bytes
no_env v = none

-- A disk that holds only names of the wrong length.
abbrev odd_stat : Bytes → Bool
odd_stat name = length name % 2 == 1

first_name :
    mktemp no_env (λ s. false) (codes ".x") (codes "tmp") none 41
    ≡ (ok (codes "C:\\tmp00042.x"), 42)
unfolding mktemp mktemp_loop stem counter_text digits_loop reverse_onto gettempdir
first_name = refl

too_long :
    (mktemp no_env (λ s. false) (replicate 70 0) (codes "tmp") none 41).0 ≡ raised (os_error e2big)
unfolding mktemp mktemp_loop stem counter_text digits_loop reverse_onto gettempdir
too_long = refl
