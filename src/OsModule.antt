-- ===== src/OsModule.antt =====
-- The functions of src/freedos_micro_python/port/os_uc386dos.c over the C library, which is a parameter:
-- its functions say whether they succeeded, or give a string where there is one, and `W` is the state
-- that they share. A path is the bytes of a C string. `dos_find_first` and `dos_find_next` give the
-- filename in the DTA, or nothing where their result is not 0.
pub mod Listing
pub mod Environment
mod Tests
use freedos_micro_python.Prelude.{
  ℕ, zero, suc, ◌+◌, ◌-◌, ◌≡◌, refl, Bool, true, false, ◌&&◌, ◌||◌, not, Option, none, some, List,
  [], ◌∷◌, ◌++◌, Bytes, codes, get_or, length, ltb, ◌==◌, if◌then◌else◌, Errno, eio, enoent, e2big,
  Result, ok, raised, os_error,
}
use freedos_micro_python.Prelude.State.{State}
use freedos_micro_python.Scan.{span}

-- The fields of `struct stat` that the module reads.
pub record StatFields : Type 0 where
  pub st_mode : ℕ
  pub st_size : ℕ
  pub st_atime : ℕ
  pub st_mtime : ℕ
  pub st_ctime : ℕ

pub record Libc (W : Type 0) : Type 0 where
  pub c_mkdir : Bytes → State W Bool
  pub c_rmdir : Bytes → State W Bool
  pub c_unlink : Bytes → State W Bool
  pub c_rename : Bytes → Bytes → State W Bool
  pub c_chdir : Bytes → State W Bool
  pub c_getcwd : State W (Option Bytes)
  pub c_stat : Bytes → State W (Option StatFields)
  pub c_system : Bytes → State W ℕ
  pub c_getenv : Bytes → Option Bytes
  pub dos_env_iter : ℕ → Option Bytes
  pub dos_find_first : Bytes → State W (Option Bytes)
  pub dos_find_next : State W (Option Bytes)

-- `None`, or the error.
pub done_or : {W : Type 0} → Errno → Bool × W → Result {0} Unit × W
done_or e (success, w) = (if success then ok tt else raised (os_error e), w)

pub found_or : {W A : Type 0} → Errno → Option A × W → Result A × W
found_or e (none, w) = (raised (os_error e), w)
found_or e (some a, w) = (ok a, w)

-- The backslash before `*.*`, where the path does not end with a separator.
pub separator : Bytes → Bytes
separator path =
    let last = get_or path (length path - 1) 0 in
    if ltb 0 (length path) && not (last == 92) && not (last == 47) then 92 ∷ [] else []

-- The 80 bytes of `mask`, without the terminator.
pub mask_of : Option Bytes → Result Bytes
mask_of none = ok (codes "*.*")
mask_of (some path) =
    if ltb 80 (length path + 5)
    then raised (os_error e2big)
    else ok (path ++ (separator path ++ codes "*.*"))

-- The entries that are passed over.
pub is_dots : Bytes → Bool
is_dots fname =
    get_or fname 0 0 == 46
    && (get_or fname 1 0 == 0 || get_or fname 1 0 == 46 && get_or fname 2 0 == 0)

-- An entry of the list, unless it is passed over.
pub listed : Bytes → List Bytes → List Bytes
listed fname list = if is_dots fname then list else fname ∷ list

-- One entry of the environment, cut at its first equals sign, as the pair that is stored.
pub split_entry : Bytes × Bytes → List (Bytes × Bytes) → List (Bytes × Bytes)
split_entry (entry, []) stores = stores
split_entry (key, eq ∷ val) stores = (key, val) ∷ stores

pub env_entry : Bytes → List (Bytes × Bytes) → List (Bytes × Bytes)
env_entry entry stores = split_entry (span (λ c. c == 61) entry) stores

module _ {W : Type 0} (libc : Libc W) where
  pub mkdir : Bytes → State W (Result {0} Unit)
  mkdir path w = done_or eio (libc.c_mkdir path w)

  pub rmdir : Bytes → State W (Result {0} Unit)
  rmdir path w = done_or eio (libc.c_rmdir path w)

  pub unlink : Bytes → State W (Result {0} Unit)
  unlink path w = done_or enoent (libc.c_unlink path w)

  pub rename : Bytes → Bytes → State W (Result {0} Unit)
  rename old_path new_path w = done_or eio (libc.c_rename old_path new_path w)

  pub chdir : Bytes → State W (Result {0} Unit)
  chdir path w = done_or enoent (libc.c_chdir path w)

  pub getcwd : State W (Result Bytes)
  getcwd w = found_or eio (libc.c_getcwd w)

  -- `while (rc == 0)`; `none` where the fuel is too small.
  pub listing : ℕ → Option Bytes → State W (Option (List Bytes))
  listing fuel none w = (some [], w)
  listing zero (some fname) w = (none, w)
  listing (suc fuel) (some fname) w =
      let (next, w1) = libc.dos_find_next w in
      let (rest, w2) = listing fuel next w1 in
      (elim rest [ none ↦ none | some list ↦ some (listed fname list) ], w2)

  pub listdir : ℕ → Option Bytes → State W (Option (Result (List Bytes)))
  listdir fuel path w = elim (mask_of path) [
    | raised e ↦ (some (raised e), w)
    | ok mask ↦
        let (rc, w1) = libc.dos_find_first mask w in
        let (list, w2) = listing fuel rc w1 in
        (elim list [ none ↦ none | some names ↦ some (ok names) ], w2)
  ]

  -- The ten fields of the tuple.
  pub stat : Bytes → State W (Result (List ℕ))
  stat path w =
      let (r, w1) = libc.c_stat path w in
      (
        elim r [
          | none ↦ raised (os_error enoent)
          | some st ↦ ok (
              st.st_mode ∷ 0 ∷ 0 ∷ 1 ∷ 0 ∷ 0 ∷ st.st_size ∷ st.st_atime ∷ st.st_mtime ∷ st.st_ctime
              ∷ [])
        ],
        w1,
      )

  -- The exit code's bit pattern.
  pub system : Bytes → State W ℕ
  system cmd w = libc.c_system cmd w

  -- `None` is `none`.
  pub getenv : Bytes → Option Bytes → Option Bytes
  getenv name default = elim (libc.c_getenv name) [ none ↦ default | some val ↦ some val ]

  -- The pairs that are stored in the dict, in that order.
  pub environ_loop : ℕ → ℕ → Option (List (Bytes × Bytes))
  environ_loop zero i = elim (libc.dos_env_iter i) [ none ↦ some [] | some entry ↦ none ]
  environ_loop (suc fuel) i =
      let rest = environ_loop fuel (i + 1) in
      elim (libc.dos_env_iter i) [
        | none ↦ some []
        | some entry ↦ elim rest [ none ↦ none | some stores ↦ some (env_entry entry stores) ]
      ]

  pub environ : ℕ → Option (List (Bytes × Bytes))
  environ fuel = environ_loop fuel 0
