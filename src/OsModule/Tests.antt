-- ===== src/OsModule/Tests.antt =====
-- Runs of the os functions on a small C library.
use freedos_micro_python.Prelude.{
  ℕ, zero, suc, ◌≡◌, refl, true, false, Option, none, some, List, [], ◌∷◌, arith, Bytes, codes,
  raised, ok, os_error, eio, enoent,
}
use freedos_micro_python.OsModule.{Libc, mask_of, separator, mkdir, stat, getenv, done_or, listdir}
use freedos_micro_python.OsModule.Listing.{IsListdir, listdir-IsListdir, over, entry, Streams}

-- A directory of two entries, and an environment of two.
abbrev next_name : ℕ → Option Bytes × ℕ
next_name zero = (some (codes "A.TXT"), 1)
next_name (suc n) = (none, suc n)

abbrev variable : ℕ → Option Bytes
variable zero = some (codes "junk")
variable (suc zero) = some (codes "A=b=c")
variable (suc (suc i)) = none

abbrev small : Libc ℕ
small = record {
  c_mkdir = λ path w. (false, w);
  c_rmdir = λ path w. (false, w);
  c_unlink = λ path w. (true, w);
  c_rename = λ old new w. (true, w);
  c_chdir = λ path w. (true, w);
  c_getcwd = λ w. (some (codes "C:\\"), w);
  c_stat = λ path w. (none, w);
  c_system = λ cmd w. (0, w);
  c_getenv = λ name. none;
  dos_env_iter = variable;
  dos_find_first = λ mask w. (some (codes "."), 0);
  dos_find_next = next_name;
}

mkdir_fails : mkdir small (codes "D") 0 ≡ (raised (os_error eio), 0)
unfolding mkdir done_or
mkdir_fails = refl

stat_fails : stat small (codes "X") 0 ≡ (raised (os_error enoent), 0)
unfolding stat
stat_fails = refl

mask_root : mask_of (some (codes "C:\\")) ≡ ok (codes "C:\\*.*")
unfolding mask_of separator
mask_root = refl

getenv_default : getenv small (codes "N") (some (codes "d")) ≡ some (codes "d")
unfolding getenv
getenv_default = refl

mask_one : mask_of (some (codes "D")) ≡ ok (codes "D\\*.*")
unfolding mask_of separator
mask_one = refl

abbrev entries : List Bytes
entries = codes "." ∷ codes "A.TXT" ∷ []

abbrev found : Streams small (some (codes ".")) 0 entries 1
found = entry (codes ".") 0 (codes "A.TXT" ∷ []) 1 (entry (codes "A.TXT") 1 [] 1 (over 1))

listdir-IsListdir_example :
    IsListdir small (some (codes "D")) entries 1 (listdir small 2 (some (codes "D")) 0)
listdir-IsListdir_example =
    listdir-IsListdir small 2 (some (codes "D")) (codes "D\\*.*") 0 1 entries mask_one found
      (ground arith) (omega arith)
