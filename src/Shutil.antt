-- ===== src/Shutil.antt =====
-- The functions of src/freedos_micro_python/port/shutil_uc386dos.c over the C library's file calls, which
-- are a parameter: `none` stands for a negative result, and `W` is the state of files and handles. The
-- buffer is the bytes that a read gives. The loops run on fuel.
pub mod Copying
mod Tests
use freedos_micro_python.Prelude.{
  ℕ, zero, suc, ◌≡◌, refl, Bool, true, false, Option, none, some, List, [], ◌∷◌, Bytes, length,
  drop, Errno, eio, enoent, Result, ok, raised, os_error,
}
use freedos_micro_python.Prelude.State.{State}

-- `open`, `close`, `read` with the bytes stored, `write`, and whether `rename` and `unlink` return 0.
pub record Libc (W : Type 0) : Type 0 where
  pub c_open : Bytes → ℕ → State W (Option ℕ)
  pub c_close : ℕ → State W Unit
  pub c_read : ℕ → ℕ → State W (Option Bytes)
  pub c_write : ℕ → Bytes → State W (Option ℕ)
  pub c_rename : Bytes → Bytes → State W Bool
  pub c_unlink : Bytes → State W Bool

abbrev pub copy_buf_size : ℕ
copy_buf_size = 4096

abbrev pub fail : {A : Type 0} → Errno → Option (Result A)
fail e = some (raised (os_error e))

module _ {W : Type 0} (libc : Libc W) where
  -- `while (written < n)`, on what is left of the buffer.
  pub write_all : ℕ → ℕ → Bytes → State W (Option (Result {0} Unit))
  write_all fuel dst_fd [] w = (some (ok tt), w)
  write_all zero dst_fd (c ∷ buf) w = (none, w)
  write_all (suc fuel) dst_fd (c ∷ buf) w =
      let (r, w1) = libc.c_write dst_fd (c ∷ buf) w in
      elim r [
        | none ↦ (fail eio, w1)
        | some zero ↦ (fail eio, w1)
        | some (suc n) ↦ write_all fuel dst_fd (drop n buf) w1
      ]

  pub copy_stream : ℕ → ℕ → ℕ → State W (Option (Result {0} Unit))
  copy_stream zero src_fd dst_fd w = (none, w)
  copy_stream (suc fuel) src_fd dst_fd w =
      let (r, w1) = libc.c_read src_fd copy_buf_size w in
      elim r [
        | none ↦ (fail eio, w1)
        | some [] ↦ (some (ok tt), w1)
        | some (c ∷ buf) ↦
            let (written, w2) = write_all (length (c ∷ buf)) dst_fd (c ∷ buf) w1 in
            elim written [
              | none ↦ (none, w2)
              | some (raised e) ↦ (some (raised e), w2)
              | some (ok done_) ↦ copy_stream fuel src_fd dst_fd w2
            ]
      ]

  -- The name of the destination is the result.
  pub copyfile : ℕ → Bytes → Bytes → State W (Option (Result Bytes))
  copyfile fuel src dst w =
      let (r, w1) = libc.c_open src 0 w in
      elim r [
        | none ↦ (fail enoent, w1)
        | some src_fd ↦
            let (r2, w2) = libc.c_open dst 0x241 w1 in
            elim r2 [
              | none ↦ (let (_, w3) = libc.c_close src_fd w2 in (fail eio, w3))
              | some dst_fd ↦
                  let (copied, w3) = copy_stream fuel src_fd dst_fd w2 in
                  elim copied [
                    | none ↦ (none, w3)
                    | some (raised e) ↦ (some (raised e), w3)
                    | some (ok done_) ↦
                        let (_, w4) = libc.c_close src_fd w3 in
                        let (_, w5) = libc.c_close dst_fd w4 in (some (ok dst), w5)
                  ]
            ]
      ]

  pub copy : ℕ → Bytes → Bytes → State W (Option (Result Bytes))
  copy fuel src dst = copyfile fuel src dst

  pub move : ℕ → Bytes → Bytes → State W (Option (Result Bytes))
  move fuel src dst w =
      let (renamed, w1) = libc.c_rename src dst w in
      elim renamed [
        | true ↦ (some (ok dst), w1)
        | false ↦
            let (copied, w2) = copyfile fuel src dst w1 in
            elim copied [
              | none ↦ (none, w2)
              | some (raised e) ↦ (some (raised e), w2)
              | some (ok name) ↦
                  let (unlinked, w3) = libc.c_unlink src w2 in
                  elim unlinked [ true ↦ (some (ok dst), w3) | false ↦ (fail eio, w3) ]
            ]
      ]
