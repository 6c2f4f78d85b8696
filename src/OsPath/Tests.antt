-- ===== src/OsPath/Tests.antt =====
-- Runs of the path functions on concrete paths.
use freedos_micro_python.Prelude.{
  ◌≢◌, ◌≡◌, ◌<◌, refl, Option, false, some, none, ok, raised, os_error, eio, ◌∷◌, [], Bytes, ℕ,
  codes, length, arith, enoent,
}
use freedos_micro_python.OsPath.{
  is_sep, last_sep, last_sep_loop, last_dot, last_dot_loop, head_len, name_start, split, splitext,
  is_absolute, join, join_part, join_loop, norm_loop, normpath, abs_prefix, abspath, Stat, getsize,
}
use freedos_micro_python.OsPath.Normal.{Normal}
use freedos_micro_python.OsPath.Squeezed.{IsSqueezed, normpath-IsSqueezed}
use freedos_micro_python.OsPath.Absolute.{IsAbspath, joined, abspath-IsAbspath}

split_root : split (codes "c:\\name") ≡ (codes "c:\\", codes "name")
unfolding split last_sep last_sep_loop is_sep head_len
split_root = refl

splitext_dots : splitext (codes "a.b\\x.tar.gz") ≡ (codes "a.b\\x.tar", codes ".gz")
unfolding splitext last_dot last_dot_loop name_start last_sep last_sep_loop is_sep
splitext_dots = refl

splitext_hidden : splitext (codes ".rc") ≡ (codes ".rc", [])
unfolding splitext last_dot last_dot_loop name_start last_sep last_sep_loop is_sep
splitext_hidden = refl

join_drive : join (codes "a" ∷ codes "c:" ∷ codes "b" ∷ []) ≡ codes "c:\\b"
unfolding join join_loop join_part is_absolute is_sep
join_drive = refl

-- `vstr_add_char` on ASCII.
abbrev one_byte : ℕ → Bytes
one_byte c = c ∷ []

ascii_one_byte : (c : ℕ) → c < 128 → one_byte c ≡ c ∷ []
ascii_one_byte c h = refl

normpath_slashes : normpath one_byte (codes "a//b\\/c") ≡ codes "a\\b\\c"
unfolding normpath norm_loop is_sep
normpath_slashes = refl

abspath_no_cwd : abspath one_byte (codes "a") none ≡ raised (os_error eio)
unfolding abspath abs_prefix is_absolute is_sep
abspath_no_cwd = refl

-- A file system with a single file.
abbrev one_file : Bytes → Option Stat
one_file (_ ∷ []) = some (record { mode = 32768; size = 7 })
one_file _ = none

getsize_missing : getsize one_file [] ≡ raised (os_error enoent)
unfolding getsize
getsize_missing = refl

getsize_found : getsize one_file (codes "f") ≡ ok 7
unfolding getsize
getsize_found = refl

normpath-IsSqueezed_example :
    (codes "a//" ≡ [] → normpath one_byte (codes "a//") ≡ b'.' ∷ [])
    × (codes "a//" ≢ [] → IsSqueezed (codes "a//") (normpath one_byte (codes "a//")))
    × (0 < length (normpath one_byte (codes "a//")))
    × Normal false (normpath one_byte (codes "a//"))
    × (normpath one_byte (normpath one_byte (codes "a//")) ≡ normpath one_byte (codes "a//"))
normpath-IsSqueezed_example =
    normpath-IsSqueezed one_byte ascii_one_byte (codes "a//")
      (omega arith, (omega arith, (omega arith, tt)))

abspath-IsAbspath_example :
    (q : Bytes) × (abspath one_byte (codes "a/") (some (codes "c:\\")) ≡ ok q)
    × IsAbspath one_byte ascii_one_byte q
    × IsSqueezed (joined (codes "a/") (codes "c:\\")) q
unfolding is_sep is_absolute
abspath-IsAbspath_example =
    abspath-IsAbspath one_byte ascii_one_byte (codes "a/") (codes "c:\\")
      (omega arith, (omega arith, tt)) (omega arith, (omega arith, (omega arith, tt)))
      (omega arith, λ e. cc, (omega arith, λ e. cc, (omega arith, λ e. refl, tt))) refl
