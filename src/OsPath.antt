-- ===== src/OsPath.antt =====
-- `os.path`, src/freedos_micro_python/port/path_uc386dos.c. A path is its list of bytes; an index
-- that a C function returns as an `int` is an option, `none` for -1.
pub mod Search
pub mod Splitting
pub mod Joining
pub mod Normal
pub mod Squeezed
pub mod Absolute
mod Tests
use freedos_micro_python.Prelude.{
  ℕ, zero, suc, ◌+◌, ◌-◌, ◌*◌, ◌/◌, ◌%◌, ◌^◌, ◌<◌, ◌≡◌, refl, Bool, true, false, not, ◌&&◌, ◌||◌,
  Option, none, some, List, [], ◌∷◌, ◌++◌, arith, Bytes, codes, get_or, take, drop, length, ltb,
  leb, ◌==◌, if◌then◌else◌, Result, ok, raised, os_error, eio, enoent,
}

abbrev pub backslash : ℕ
backslash = b'\\'

pub is_sep : ℕ → Bool
is_sep c = c == backslash || c == b'/'

-- `for (i = len - 1; i >= 0; i--)`: the argument is the number of bytes not yet looked at.
pub last_sep_loop : Bytes → ℕ → Option ℕ
last_sep_loop s zero = none
last_sep_loop s (suc i) =
    let rest = last_sep_loop s i in if is_sep (get_or s i 0) then some i else rest

pub last_sep : Bytes → Option ℕ
last_sep s = last_sep_loop s (length s)

-- `for (i = len - 1; i > start; i--)`.
pub last_dot_loop : Bytes → ℕ → ℕ → Option ℕ
last_dot_loop s start zero = none
last_dot_loop s start (suc i) =
    let rest = last_dot_loop s start i in
    if ltb start i
    then if get_or s i 0 == b'.' then some i else if is_sep (get_or s i 0) then none else rest
    else none

pub last_dot : Bytes → ℕ → Option ℕ
last_dot s start = last_dot_loop s start (length s)

-- A separator in front, or a second byte `:`.
pub is_absolute : Bytes → Bool
is_absolute p =
    leb 1 (length p) && is_sep (get_or p 0 0) || leb 2 (length p) && get_or p 1 0 == b':'

-- One round of `join`: the buffer, and the next part.
pub join_part : Bytes → Bytes → Bytes
join_part buf p =
    if length p == 0
    then buf
    else if is_absolute p
    then p
    else if ltb 0 (length buf) && not (is_sep (get_or buf (length buf - 1) 0))
    then buf ++ backslash ∷ p
    else buf ++ p

pub join_loop : Bytes → List Bytes → Bytes
join_loop buf [] = buf
join_loop buf (p ∷ ps) = join_loop (join_part buf p) ps

pub join : List Bytes → Bytes
join ps = join_loop [] ps

-- How much of the path is the head, for a last separator at `sep`.
pub head_len : Bytes → ℕ → ℕ
head_len p sep = if sep == 0 || sep == 2 && get_or p 1 0 == b':' then sep + 1 else sep

pub split : Bytes → Bytes × Bytes
split p = elim (last_sep p) [
  | none ↦ ([], p)
  | some sep ↦ (take (head_len p sep) p, drop (sep + 1) p)
]

-- Where the last component starts.
pub name_start : Bytes → ℕ
name_start p = elim (last_sep p) [ none ↦ 0 | some sep ↦ sep + 1 ]

pub splitext : Bytes → Bytes × Bytes
splitext p = elim (last_dot p (name_start p)) [
  | none ↦ (p, [])
  | some dot ↦ (take dot p, drop dot p)
]

pub basename : Bytes → Bytes
basename p = elim (last_sep p) [ none ↦ p | some sep ↦ drop (sep + 1) p ]

pub dirname : Bytes → Bytes
dirname p = elim (last_sep p) [ none ↦ [] | some sep ↦ take (head_len p sep) p ]

pub isabs : Bytes → Bool
isabs p =
    if leb 1 (length p) && is_sep (get_or p 0 0)
    then true
    else if leb 2 (length p) && get_or p 1 0 == b':'
    then true
    else false

-- `add_char c` is what MicroPython's `vstr_add_char` appends for `c`.
module _ (add_char : ℕ → Bytes) where
  -- The scan that `abspath` and `normpath` share, from `prev_sep` on: what it appends.
  pub norm_loop : Bool → Bytes → Bytes
  norm_loop prev_sep [] = []
  norm_loop prev_sep (c ∷ s) =
      let rest = norm_loop (is_sep c) s in
      if is_sep c then if prev_sep then rest else add_char backslash ++ rest else add_char c ++ rest

  pub normpath : Bytes → Bytes
  normpath p = let out = norm_loop false p in if length out == 0 then add_char b'.' else out

  -- The buffer before the scan; the argument is what `getcwd` gives.
  pub abs_prefix : Bytes → Option Bytes → Result Bytes
  abs_prefix p cwd = if is_absolute p then ok [] else elim cwd [
    | none ↦ raised (os_error eio)
    | some dir ↦ ok (
        if ltb 0 (length dir) && not (is_sep (get_or dir (length dir - 1) 0))
        then dir ++ add_char backslash
        else dir)
  ]

  pub abspath : Bytes → Option Bytes → Result Bytes
  abspath p cwd = elim (abs_prefix p cwd) [
    | raised e ↦ raised e
    | ok dir ↦
        ok (dir ++ norm_loop (ltb 0 (length dir) && is_sep (get_or dir (length dir - 1) 0)) p)
  ]

-- The fields of `struct stat` that the module reads.
pub record Stat : Type 0 where
  pub mode : ℕ
  pub size : ℕ

-- `stat` is libc's: `none` where it fails.
module _ (stat : Bytes → Option Stat) where
  pub exists : Bytes → Bool
  exists p = elim (stat p) [ none ↦ false | some st ↦ true ]

  -- `(st_mode & 0xF000) == 0x8000`
  pub isfile : Bytes → Bool
  isfile p = elim (stat p) [ none ↦ false | some st ↦ st.mode / 2 ^ 12 % 16 == 8 ]

  -- The size is cast to an `unsigned`.
  pub getsize : Bytes → Result ℕ
  getsize p = elim (stat p) [ none ↦ raised (os_error enoent) | some st ↦ ok (st.size % 2 ^ 32) ]
