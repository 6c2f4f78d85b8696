-- ===== src/Files/Opening.antt =====
-- `open()` of file_uc386dos.c: its mode letters, and what it makes of the answer of DOS.
use freedos_micro_python.Prelude.{
  ℕ, ◌+◌, ◌%◌, ◌^◌, Bool, false, ◌||◌, Option, none, some, [], ◌∷◌, Bytes, ◌==◌, if◌then◌else◌, eio,
  enoent, emfile, eacces, Result, ok, raised, os_error, codes,
}
use freedos_micro_python.Prelude.State.{bit}
use freedos_micro_python.Dos21.{Rmcs, zero_rmcs, Answer, done, failed}
use freedos_micro_python.Files.{Kind, File, textio, fileio, open_errno}

-- Whether a letter occurs.
unfoldable pub has : ℕ → Bytes → Bool
has letter [] = false
has letter (c ∷ s) = c == letter || has letter s

-- The last of some letters that occurs.
unfoldable pub last_of : Bytes → Bytes → Option ℕ
last_of letters [] = none
last_of letters (c ∷ s) = elim (last_of letters s) [
  | some d ↦ some d
  | none ↦ if has c letters then some c else none
]

-- The access that a mode asks for by the last of its letters r, w and +: 0 is reading, 1 writing, 2 both.
unfoldable pub access_of : Option ℕ → ℕ
access_of none = 0
access_of (some c) = if c == b'+' then 2 else if c == b'w' then 1 else 0

-- The type that it asks for by the last of its letters b and t.
unfoldable pub kind_of : Option ℕ → Kind
kind_of none = textio
kind_of (some c) = if c == b'b' then fileio else textio

abbrev pub access_mode : Bytes → ℕ
access_mode s = access_of (last_of (codes "rw+") s)

abbrev pub kind : Bytes → Kind
kind s = kind_of (last_of (codes "bt") s)

-- What DOS documents of the answer: the carry flag with a code, or the handle; `none` if the gate failed.
pub outcome : Kind → Option Rmcs → Result File
outcome kind none = raised (os_error eio)
outcome kind (some rm) =
    let ax = rm.eax % 2 ^ 16 in
    if bit 0 rm.flags
    then raised (
        os_error
          (if ax == 0 then eio else if ax == 4 then emfile else if ax == 5 then eacces else enoent))
    else ok (record { kind = kind; fd = some ax })

-- What `open` makes of an answer.
abbrev of_answer : Kind → Answer → Result File
of_answer kind (failed err) = raised (os_error (open_errno err))
of_answer kind (done fd) = ok (record { kind = kind; fd = some fd })

-- The registers of the call.
abbrev pub open_regs : Bytes → Rmcs
open_regs s = record zero_rmcs { eax = if has 119 s then 0x3C00 else 0x3D00 + access_mode s }
