-- ===== src/Files.antt =====
-- File objects, src/freedos_micro_python/port/file_uc386dos.c, over the calls of Dos21. A stream method
-- returns a value, or `MP_STREAM_ERROR` with a code; `open` raises. `mp_lexer_new_from_str_len` gets
-- the bytes that are the result here. Printing a file object is left out.
pub mod Stretches
pub mod Reading
pub mod Writing
pub mod Opening
pub mod Closing
mod Tests
use freedos_micro_python.Prelude.{
  ℕ, zero, suc, ◌+◌, ◌-◌, ◌^◌, ◌≡◌, refl, Bool, true, false, Option, none, some, List, [], ◌∷◌,
  ◌++◌, Bytes, length, drop, ltb, ◌==◌, if◌then◌else◌, Errno, eio, enoent, ebadf, einval, emfile,
  eacces, Result, ok, raised, os_error,
}
use freedos_micro_python.Prelude.State.{State}
use freedos_micro_python.Dos21.{
  Machine, Dos, Answer, done, failed, negative, dos_open, dos_creat, dos_read, dos_write, dos_close,
  dos_lseek, dos_fsize,
}

-- The type of the object: `FileIO` or `TextIOWrapper`.
pub data Kind : Type 0 where
  fileio textio : Kind

-- The object, with `none` for the fd -1 of a closed file.
pub record File : Type 0 where
  pub kind : Kind
  pub fd : Option ℕ

pub data Stream {ℓ} (A : Type ℓ) : Type ℓ where
  streamed : A → Stream A
  stream_error : Errno → Stream A

-- What the letters of the mode set.
pub record Mode : Type 0 where
  pub dos_mode : ℕ
  pub want_create : Bool
  pub want_trunc : Bool
  pub type_ : Kind

abbrev pub default_mode : Mode
default_mode = record { dos_mode = 0; want_create = false; want_trunc = false; type_ = textio }

-- The switch on a letter: r, w, a, +, b, t.
pub mode_letter : Mode → ℕ → Mode
mode_letter m c =
    if c == 114
    then record m { dos_mode = 0 }
    else if c == 119
    then record m { dos_mode = 1; want_create = true; want_trunc = true }
    else if c == 97
    then record m { dos_mode = 1; want_create = true }
    else if c == 43
    then record m { dos_mode = 2 }
    else if c == 98
    then record m { type_ = fileio }
    else if c == 116
    then record m { type_ = textio }
    else m

-- The loop over `mode_s`.
pub mode_loop : Mode → Bytes → Mode
mode_loop m [] = m
mode_loop m (c ∷ mode_s) = mode_loop (mode_letter m c) mode_s

-- The errno of a failed open.
pub open_errno : ℕ → Errno
open_errno err =
    if err == 0 then eio else if err == 4 then emfile else if err == 5 then eacces else enoent

pub data ImportStat : Type 0 where
  no_exist file : ImportStat

module _ {D : Type 0} (machine : Machine D) where
  -- Append: open, else create, then seek to the end.
  pub open_append : Bytes → ℕ → State (Dos D) Answer
  open_append fname dos_mode w =
      let (r, w1) = dos_open machine fname dos_mode w in
      let created : Answer × Dos D = elim r [
        | failed err ↦ dos_creat machine fname w1
        | done fd ↦ (done fd, w1)
      ] in
      let (r2, w2) = created in
      elim r2 [
        | failed err ↦ (failed err, w2)
        | done fd ↦ (let (pos, w3) = dos_lseek machine fd 0 2 w2 in (done fd, w3))
      ]

  -- The calls that the mode selects.
  pub open_fd : Bytes → Mode → State (Dos D) Answer
  open_fd fname m w =
      if m.want_trunc
      then dos_creat machine fname w
      else if m.want_create
      then open_append fname m.dos_mode w
      else dos_open machine fname m.dos_mode w

  -- `open(fname, mode)`; without a mode, `mode_s` is "r".
  pub builtin_open : Bytes → Option Bytes → State (Dos D) (Result File)
  builtin_open fname mode w =
      let mode_s : Bytes = elim mode [ none ↦ 114 ∷ [] | some s ↦ s ] in
      let m = mode_loop default_mode mode_s in
      let (r, w1) = open_fd fname m w in
      (
        elim r [
          | failed err ↦ raised (os_error (open_errno err))
          | done fd ↦ ok (record { kind = m.type_; fd = some fd })
        ],
        w1,
      )

  -- `while (total < size)` of the read, whose buffer holds `got`; `none` where the fuel is too small.
  pub read_loop : ℕ → ℕ → ℕ → Bytes → State (Dos D) (Option (Stream Bytes))
  read_loop zero fd size got w =
      if ltb (length got) size then (none, w) else (some (streamed got), w)
  read_loop (suc fuel) fd size got w = elim (ltb (length got) size) [
    | false ↦ (some (streamed got), w)
    | true ↦
        let (r, w1) = dos_read machine fd (size - length got) w in
        elim r.0 [
          | none ↦ (some (stream_error eio), w1)
          | some [] ↦ (some (streamed got), w1)
          | some (c ∷ cs) ↦ read_loop fuel fd size (got ++ c ∷ cs) w1
        ]
  ]

  -- The bytes are those stored at `buf`.
  pub file_read : File → ℕ → State (Dos D) (Option (Stream Bytes))
  file_read o size w = elim o.fd [
    | none ↦ (some (stream_error ebadf), w)
    | some fd ↦ read_loop size fd size [] w
  ]

  -- `while (total < size)` of the write.
  pub write_loop : ℕ → ℕ → Bytes → ℕ → ℕ → State (Dos D) (Option (Stream ℕ))
  write_loop zero fd buf size total w =
      if ltb total size then (none, w) else (some (streamed total), w)
  write_loop (suc fuel) fd buf size total w = elim (ltb total size) [
    | false ↦ (some (streamed total), w)
    | true ↦
        let (r, w1) = dos_write machine fd (drop total buf) (size - total) w in
        elim r [
          | failed err ↦ (some (stream_error eio), w1)
          | done zero ↦ (some (streamed total), w1)
          | done (suc n) ↦ write_loop fuel fd buf size (total + suc n) w1
        ]
  ]

  -- `buf` has at least `size` bytes.
  pub file_write : File → Bytes → ℕ → State (Dos D) (Option (Stream ℕ))
  file_write o buf size w = elim o.fd [
    | none ↦ (some (stream_error ebadf), w)
    | some fd ↦ write_loop size fd buf size 0 w
  ]

  -- The requests of `file_ioctl`: seek, whose answer is the new offset, flush, close, and the rest.
  pub seek : File → ℕ → ℕ → State (Dos D) (Stream ℕ)
  seek o offset whence w = elim o.fd [
    | none ↦ (stream_error ebadf, w)
    | some fd ↦
        let (pos, w1) = dos_lseek machine fd offset whence w in
        (if negative pos then stream_error eio else streamed pos, w1)
  ]

  pub file_close : File → State (Dos D) File
  file_close o w = elim o.fd [
    | none ↦ (o, w)
    | some fd ↦ (let (r, w1) = dos_close machine fd w in (record o { fd = none }, w1))
  ]

  -- The loop that fills the lexer's buffer: an error ends it as the end of the file does.
  pub slurp : ℕ → ℕ → ℕ → Bytes → State (Dos D) (Option Bytes)
  slurp zero fd size got w = if ltb (length got) size then (none, w) else (some got, w)
  slurp (suc fuel) fd size got w = elim (ltb (length got) size) [
    | false ↦ (some got, w)
    | true ↦
        let (r, w1) = dos_read machine fd (size - length got) w in
        elim r.0 [
          | none ↦ (some got, w1)
          | some [] ↦ (some got, w1)
          | some (c ∷ cs) ↦ slurp fuel fd size (got ++ c ∷ cs) w1
        ]
  ]

  -- The bytes for the lexer.
  pub lexer_new_from_file : Bytes → State (Dos D) (Option (Result Bytes))
  lexer_new_from_file fname w =
      let (r, w1) = dos_open machine fname 0 w in
      elim r [
        | failed err ↦ (some (raised (os_error enoent)), w1)
        | done fd ↦
            let (fsize, w2) = dos_fsize machine fd w1 in
            elim (negative fsize) [
              | true ↦ (let (_, w3) = dos_close machine fd w2 in (some (raised (os_error eio)), w3))
              | false ↦
                  let (got, w3) = slurp fsize fd fsize [] w2 in
                  let (_, w4) = dos_close machine fd w3 in
                  (elim got [ none ↦ none | some bytes ↦ some (ok bytes) ], w4)
            ]
      ]

  pub import_stat : Bytes → State (Dos D) ImportStat
  import_stat path w =
      let (r, w1) = dos_open machine path 0 w in
      elim r [
        | failed err ↦ (no_exist, w1)
        | done fd ↦ (let (_, w2) = dos_close machine fd w1 in (file, w2))
      ]

-- The methods of an open or closed object, as the stream layer calls them.
pub data Request : Type 0 where
  read_request : ℕ → Request
  write_request : Bytes → Request
  seek_request : ℕ → ℕ → Request
  flush_request close_request other_request : Request

pub data Reply : Type 0 where
  bytes_reply : Bytes → Reply
  count_reply : ℕ → Reply
  error_reply : Errno → Reply
  endless : Reply

pub bytes_of : Option (Stream Bytes) → Reply
bytes_of none = endless
bytes_of (some (streamed b)) = bytes_reply b
bytes_of (some (stream_error e)) = error_reply e

pub count_of : Option (Stream ℕ) → Reply
count_of none = endless
count_of (some (streamed n)) = count_reply n
count_of (some (stream_error e)) = error_reply e

pub serve : {D : Type 0} → Machine D → Request → State (File × Dos D) Reply
serve machine (read_request size) (o, w) =
    (let (r, w1) = file_read machine o size w in (bytes_of r, (o, w1)))
serve machine (write_request buf) (o, w) =
    (let (r, w1) = file_write machine o buf (length buf) w in (count_of r, (o, w1)))
serve machine (seek_request offset whence) (o, w) =
    (let (r, w1) = seek machine o offset whence w in (count_of (some r), (o, w1)))
serve machine flush_request s = (count_reply 0, s)
serve machine close_request (o, w) =
    (let (o1, w1) = file_close machine o w in (count_reply 0, (o1, w1)))
serve machine other_request s = (error_reply einval, s)
