-- ===== src/Urlsplit/Tests.antt =====
-- Runs of `urlsplit` on concrete URLs.
use freedos_micro_python.Prelude.{◌≡◌, refl, none, true, codes}
use freedos_micro_python.Urlsplit.{SplitResult, urlsplit, find_scheme, is_scheme_char}
use freedos_micro_python.Urlsplit.Parts.{Delimiters, IsSplit, urlsplit-IsSplit}
use freedos_micro_python.Urlsplit.Printed.{urlsplit-assemble}

abbrev page : SplitResult
page = record {
  scheme = codes "ftp";
  netloc = codes "h:1";
  path = codes "/p";
  query = codes "q?";
  fragment = codes "f#";
}

abbrev all_marks : Delimiters
all_marks = record { colon = true; slashes = true; question = true; hash = true }

-- A path with a colon in it has no scheme when a digit comes first.
no_scheme : find_scheme (codes "1a:b") ≡ none
unfolding find_scheme
no_scheme = refl

urlsplit-IsSplit_example :
    (d : Delimiters) × IsSplit (codes "a:b/c#d") (urlsplit (codes "a:b/c#d")) d
urlsplit-IsSplit_example = urlsplit-IsSplit (codes "a:b/c#d")

urlsplit-assemble_example : urlsplit (codes "ftp://h:1/p?q?#f#") ≡ page
unfolding is_scheme_char
urlsplit-assemble_example = urlsplit-assemble all_marks page (record {
  colon = refl;
  slashes = refl;
  scheme = (refl, (refl, (refl, tt)));
  netloc = (refl, (refl, (refl, tt)));
  rooted = refl;
  path = (refl, (refl, tt));
  query = (refl, (refl, tt));
  no_query = λ e. cc;
  no_fragment = λ e. cc;
})
