-- ===== src/Pktdrv.antt =====
-- The receive side of src/freedos_micro_python/port/pktdrv_uc386dos.c: the bounce buffer and the thunk
-- that `main` allocates, the receiver callback, its DPMI worker, and the two calls that drain a frame.
-- Conventional memory is what the record holds of it: the bytes at `pktdrv_bounce_linear` and the thunk
-- paragraph. The diagnostic writes are left out.
pub mod Receive
pub mod Bounds
mod Tests
use freedos_micro_python.Prelude.{
  ℕ, zero, suc, ◌+◌, ◌-◌, ◌*◌, ◌/◌, ◌%◌, ◌^◌, ◌≡◌, refl, Bool, true, false, not, ◌&&◌, ◌||◌, Option,
  none, some, List, [], ◌∷◌, ◌++◌, Bytes, length, take, drop, ltb, leb, min, ◌==◌, if◌then◌else◌,
}
use freedos_micro_python.Prelude.State.{State, pure, ◌>>=◌}
use freedos_micro_python.Rmstub.{Thunk, fill_thunk}
use freedos_micro_python.Ne2k.{Ports, Nic, poll_rx}

abbrev pub pktdrv_max_frame : ℕ
pktdrv_max_frame = 1518

abbrev pub pktdrv_bounce_size : ℕ
pktdrv_bounce_size = 2048

-- `pktdrv_int_num` is -1 for the NE2000 driver, here `none`.
pub record Driver : Type 0 where
  pub nic : Nic
  pub int_num : Option ℕ
  pub rx_buf : Bytes
  pub rx_pending : Bool
  pub rx_len : ℕ
  pub bounce_seg : ℕ
  pub bounce_linear : ℕ
  pub bounce : Bytes
  pub thunk_seg : ℕ
  pub thunk : Thunk

-- `memcpy`
abbrev pub memcpy : Bytes → Bytes → ℕ → Bytes
memcpy dst src n = take n src ++ drop n dst

-- Whether it returns 0; the arguments are what `main` has allocated.
unfoldable pub alloc_bounce : ℕ → ℕ → Driver → Bool × Driver
alloc_bounce preallocated_seg preallocated_linear d =
    if not (d.bounce_seg == 0)
    then (true, d)
    else if preallocated_seg == 0
    then (false, d)
    else (true, record d { bounce_seg = preallocated_seg; bounce_linear = preallocated_linear })

unfoldable pub alloc_thunk : ℕ → Driver → Bool × Driver
alloc_thunk preallocated_seg d =
    if not (d.thunk_seg == 0) then (true, d) else if preallocated_seg == 0 then (false, d) else (
      true,
      record d { thunk_seg = preallocated_seg; thunk = fill_thunk d.thunk.code d.bounce_seg },
    )

-- What the receiver answers with: NULL, the bounce buffer or `pktdrv_rx_buf`.
pub data Buffer : Type 0 where
  null at_bounce at_rx_buf : Buffer

pub receiver : ℕ → ℕ → Driver → Buffer × Driver
receiver phase len d =
    if phase == 0
    then if d.rx_pending || ltb pktdrv_max_frame len then (null, d) else (
      if not (d.bounce_seg == 0) && leb len pktdrv_bounce_size then at_bounce else at_rx_buf,
      record d { rx_len = len },
    )
    else (
      null,
      record d {
        rx_buf =
            if not (d.bounce_seg == 0) && leb d.rx_len pktdrv_max_frame
            then memcpy d.rx_buf d.bounce d.rx_len
            else d.rx_buf;
        rx_pending = true;
      },
    )

-- The registers of the real-mode call structure that the worker reads and writes.
pub record Rmcs : Type 0 where
  pub eax : ℕ
  pub ecx : ℕ
  pub es : ℕ
  pub edi : ℕ

-- The three counters of calls.
pub record Counters : Type 0 where
  pub invocations : ℕ
  pub phase0_count : ℕ
  pub phase1_count : ℕ

-- Where a buffer lies: `rx_linear` is the address of `pktdrv_rx_buf`.
pub linear_of : ℕ → Driver → Buffer → Option ℕ
linear_of rx_linear d null = none
linear_of rx_linear d at_bounce = some d.bounce_linear
linear_of rx_linear d at_rx_buf = some rx_linear

pub dpmi_thunk_c : ℕ → Counters → Rmcs → Driver → Counters × Rmcs × Driver
dpmi_thunk_c rx_linear n rm d =
    let phase = rm.eax % 2 ^ 16 in
    let (buf, d') = receiver phase (rm.ecx % 2 ^ 16) d in
    (
      record {
        invocations = (n.invocations + 1) % 2 ^ 32;
        phase0_count = if phase == 0 then (n.phase0_count + 1) % 2 ^ 32 else n.phase0_count;
        phase1_count = if phase == 1 then (n.phase1_count + 1) % 2 ^ 32 else n.phase1_count;
      },
      (if phase == 0
          then elim (linear_of rx_linear d' buf) [
            | none ↦ rm
            | some linear ↦ record rm {
              es = linear / 2 ^ 4 % 2 ^ 16;
              edi = linear % 2 ^ 4 + rm.edi / 2 ^ 16 * 2 ^ 16;
            }
          ]
          else rm),
      d',
    )

-- The stub's two words, once the frame is taken or thrown away.
abbrev pub clear_pending : Thunk → Thunk
clear_pending t = record t { pending = 0 }

pub poll_rmstub : Driver → Driver
poll_rmstub d =
    if d.thunk_seg == 0 || d.rx_pending || d.thunk.pending == 0
    then d
    else if d.thunk.length == 0 || ltb pktdrv_max_frame d.thunk.length
    then record d { thunk = clear_pending d.thunk }
    else record d {
      rx_buf = if d.bounce_linear == 0 then d.rx_buf else memcpy d.rx_buf d.bounce d.thunk.length;
      rx_len = d.thunk.length;
      rx_pending = true;
      thunk = clear_pending d.thunk;
    }

-- `pktdrv_recv` without the NE2000 driver: the length returned and what is stored at `out`.
pub recv_slot : ℕ → Driver → (ℕ × Bytes) × Driver
recv_slot maxlen d0 =
    let d = poll_rmstub d0 in
    if not d.rx_pending
    then ((0, []), d)
    else let n = if ltb maxlen d.rx_len then maxlen else d.rx_len in
      ((n, take n d.rx_buf), record d { rx_pending = false; rx_len = 0 })

module _ {S : Type 0} (ports : Ports S) where
  pub recv : ℕ → Driver → S → ((ℕ × Bytes) × Driver) × S
  recv maxlen d s =
      if d.nic.ne2k_initialized
      then (let (r, s') = poll_rx ports d.nic maxlen s in ((r, d), s'))
      else (recv_slot maxlen d, s)

unfoldable pub is_active : Driver → Bool
is_active d = d.nic.ne2k_initialized || elim d.int_num [ none ↦ false | some n ↦ not (n == 0) ]
