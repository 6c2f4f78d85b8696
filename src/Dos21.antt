-- ===== src/Dos21.antt =====
-- INT 21h by way of DPMI, src/freedos_micro_python/port/dosint21_uc386dos.c. The INT instruction
-- (`pktdrv_int_invoke`), the call gate (`dpmi0301_call_shallow`) and the data selector are assembly
-- routines of the C library, and parameters here, with which addresses of memory can be written.
-- Memory is a function of the linear address; what else the machine holds is `D`. An `unsigned` has 32
-- bits. `dos_use_libc_io` is 0 and static, and nothing sets it, so the branches under it are left out,
-- like the debug output, which the macros compile to nothing.
pub mod Memory
pub mod Calls
pub mod Disk
pub mod Paths
pub mod Simulator
mod Tests
use freedos_micro_python.Prelude.{
  ℕ, zero, suc, ◌+◌, ◌-◌, ◌*◌, ◌/◌, ◌%◌, ◌^◌, ◌≡◌, refl, Bool, true, false, not, ◌&&◌, ◌||◌, Option,
  none, some, List, [], ◌∷◌, ◌++◌, Bytes, length, take, ltb, leb, ◌==◌, if◌then◌else◌,
}
use freedos_micro_python.Prelude.State.{State, pure, ◌>>=◌, bit}

-- `dos_rmcs_t`, and the registers of `pktdrv_int_invoke`: those that the code reads or writes.
pub record Rmcs : Type 0 where
  pub eax : ℕ
  pub ebx : ℕ
  pub ecx : ℕ
  pub edx : ℕ
  pub esi : ℕ
  pub flags : ℕ
  pub ds : ℕ
  pub cs : ℕ
  pub ip : ℕ
  pub ss : ℕ
  pub sp : ℕ

pub record Regs : Type 0 where
  pub eax : ℕ
  pub ebx : ℕ
  pub ecx : ℕ
  pub edx : ℕ

abbrev pub zero_rmcs : Rmcs
zero_rmcs = record {
  eax = 0;
  ebx = 0;
  ecx = 0;
  edx = 0;
  esi = 0;
  flags = 0;
  ds = 0;
  cs = 0;
  ip = 0;
  ss = 0;
  sp = 0;
}

abbrev pub Ram : Type 0
Ram = ℕ → ℕ

-- The machine's routines: `gate` answers with the carry flag of DPMI and the registers.
pub record Machine (D : Type 0) : Type 0 where
  pub writable : ℕ → Bool
  pub ds_selector : ℕ
  pub int_invoke : ℕ → Regs → State D (Bool × Regs)
  pub gate : Rmcs → State (Ram × D) (Bool × Rmcs)

-- The globals of the file and those that `main` fills, with memory and the rest of the machine.
pub record Dos (D : Type 0) : Type 0 where
  pub bounce_seg : ℕ
  pub bounce_linear : ℕ
  pub preallocated_thunk_seg : ℕ
  pub thunk_seg : ℕ
  pub thunk_linear : ℕ
  pub thunk_ready : Bool
  pub rm_stack_seg : ℕ
  pub rm_stack_bytes : ℕ
  pub ram : Ram
  pub dev : D

-- A call's answer: the value, or -1 with what is stored at `err_out`.
pub data Answer : Type 0 where
  done failed : ℕ → Answer

-- A store through a pointer, which only changes memory that can be written; and a load of several bytes.
pub poke : (ℕ → Bool) → ℕ → ℕ → Ram → Ram
poke writable a v ram x = if x == a && writable a then v else ram x

pub poke_all : (ℕ → Bool) → ℕ → Bytes → Ram → Ram
poke_all writable a [] ram = ram
poke_all writable a (v ∷ vs) ram = poke_all writable (a + 1) vs (poke writable a v ram)

pub peek_all : ℕ → ℕ → Ram → Bytes
peek_all zero a ram = []
peek_all (suc n) a ram = ram a ∷ peek_all n (a + 1) ram

abbrev pub int21_code : Bytes
int21_code = 0xCD ∷ 0x21 ∷ 0xCB ∷ []

abbrev pub same_code : ℕ → Ram → Bool
same_code a ram = ram a == 0xCD && ram (a + 1) == 0x21 && ram (a + 2) == 0xCB

-- The address of the bounce buffer, rebased; `none` where it lies below the segment's base.
abbrev pub rebase : ℕ → ℕ → Option ℕ
rebase chosen base =
    if base == 0 then some chosen else if ltb chosen base then none else some (chosen - base)

-- What the calls make of the registers: the carry flag, and AX.
abbrev pub answer : Option Rmcs → Answer
answer none = failed 0
answer (some rm) = if bit 0 rm.flags then failed (rm.eax % 2 ^ 16) else done (rm.eax % 2 ^ 16)

-- Whether the bounce buffer is there.
abbrev pub has_bounce : {D : Type 0} → Dos D → Bool
has_bounce w = not (w.bounce_seg == 0 || w.bounce_linear == 0)

abbrev pub bounce_data_offset : ℕ
bounce_data_offset = 1024

abbrev pub bounce_data_max : ℕ
bounce_data_max = 1024

-- The count, clamped.
abbrev pub clamp : ℕ → ℕ
clamp count = if ltb bounce_data_max count then bounce_data_max else count

-- `x < 0` on a `long`.
abbrev pub negative : ℕ → Bool
negative x = leb (2 ^ 31) x

-- What a read gives: the bytes stored at `buf`, or the error code.
pub read_answer : {D : Type 0} → ℕ → Dos D → Answer → Option Bytes × ℕ
read_answer count w (failed err) = (none, err)
read_answer count w (done ax) =
    let n = if ltb count ax then count else ax in
    (some (peek_all n (w.bounce_linear + bounce_data_offset) w.ram), 0)

module _ {D : Type 0} (machine : Machine D) where
  -- `pktdrv_int_invoke`, on the whole state.
  pub invoke : ℕ → Regs → State (Dos D) (Bool × Regs)
  invoke int_num regs w =
      let (r, dev) = machine.int_invoke int_num regs w.dev in (r, record w { dev = dev })

  -- A selector's base, by fn 0x0006; 0 where the call fails.
  pub selector_base : ℕ → State (Dos D) ℕ
  selector_base sel = do
    (carry, r) ← invoke 0x31 (record { eax = 0x0006; ebx = sel; ecx = 0; edx = 0 })
    pure (if carry then 0 else r.ecx % 2 ^ 16 * 2 ^ 16 + r.edx % 2 ^ 16)

  pub client_base : State (Dos D) ℕ
  client_base = selector_base machine.ds_selector

  -- `linear_dpmi`: the descriptor of a segment by fn 0x0002, and its base.
  pub linear_dpmi : ℕ → State (Dos D) ℕ
  linear_dpmi seg = do
    (carry, r) ← invoke 0x31 (record { eax = 0x0002; ebx = seg; ecx = 0; edx = 0 })
    if carry then pure 0 else selector_base (r.eax % 2 ^ 16)

  -- The loop over the candidates, which have been filtered: write, read back, and take the first that holds.
  pub arm : ℕ → List ℕ → State (Dos D) Bool
  arm seg [] w = (false, w)
  arm seg (linear ∷ candidates) w =
      let ram = poke_all machine.writable linear int21_code w.ram in
      elim (same_code linear ram) [
        | true ↦ (
          true,
          record w { ram = ram; thunk_seg = seg; thunk_linear = linear; thunk_ready = true },
        )
        | false ↦ arm seg candidates (record w { ram = ram })
      ]

  -- Whether it returns 0.
  pub thunk_init : State (Dos D) Bool
  thunk_init w =
      if w.thunk_ready
      then (true, w)
      else if w.preallocated_thunk_seg == 0
      then (false, w)
      else let seg = w.preallocated_thunk_seg in
        let (dpmi, w') = linear_dpmi seg w in
        let shift = seg * 16 % 2 ^ 32 in
        arm seg
          ((if dpmi == 0 then [] else dpmi ∷ [])
            ++ (if shift == 0 || shift == dpmi then [] else shift ∷ []))
          w'

  pub bounce_resolve : State (Dos D) Bool
  bounce_resolve w =
      if w.bounce_seg == 0
      then (false, w)
      else let (dpmi, w1) = linear_dpmi w.bounce_seg w in
        let chosen = if dpmi == 0 then w.bounce_seg * 16 % 2 ^ 32 else dpmi in
        let (base, w2) = client_base w1 in
        elim (rebase chosen base) [
          | none ↦ (false, w2)
          | some linear ↦
              let ram =
                poke machine.writable (linear + 1) 0xAA
                  (poke machine.writable linear 0x55 w2.ram) in
              let kept = ram linear == 0x55 && ram (linear + 1) == 0xAA in
              (
                kept,
                record w2 { ram = ram; bounce_linear = if kept then linear else w2.bounce_linear },
              )
        ]

  -- The real-mode stack: the first of the sizes that DPMI grants.
  pub alloc_stack : List ℕ → State (Dos D) Unit
  alloc_stack [] w = (tt, w)
  alloc_stack (paras ∷ sizes) w =
      let (r, w') = invoke 0x31 (record { eax = 0x0100; ebx = paras; ecx = 0; edx = 0 }) w in
      elim r.0 [
        | true ↦ alloc_stack sizes w'
        | false ↦ (tt, record w' { rm_stack_seg = r.1.eax % 2 ^ 16; rm_stack_bytes = paras * 16 })
      ]

  -- The thunk's bytes are put back where something has overwritten them.
  pub repair : State (Dos D) Unit
  repair w =
      if w.thunk_linear == 0 || same_code w.thunk_linear w.ram
      then (tt, w)
      else (tt, record w { ram = poke_all machine.writable w.thunk_linear int21_code w.ram })

  -- The registers with which the gate is entered.
  pub enter : Rmcs → Dos D → Rmcs
  enter rm w = record rm {
    cs = w.thunk_seg % 2 ^ 16;
    ip = 0;
    ss = if w.rm_stack_seg == 0 then 0 else w.rm_stack_seg % 2 ^ 16;
    sp = if w.rm_stack_seg == 0 then 0 else (w.rm_stack_bytes + (2 ^ 32 - 2)) % 2 ^ 16;
    flags = 0x0202;
  }

  -- `none` for -1; otherwise the registers behind the call.
  pub int21_call : Rmcs → State (Dos D) (Option Rmcs)
  int21_call rm w =
      let (armed, w1) = thunk_init w in
      if not armed
      then (none, w1)
      else let (_, w2) = repair w1 in
        let (r, (ram, dev)) = machine.gate (enter rm w2) (w2.ram, w2.dev) in
        (if r.0 then none else some r.1, record w2 { ram = ram; dev = dev })

  -- `dos_int21_thunk_preinit`; the last call fills the bounce buffer with 0xEE and asks DOS for the current
  -- directory, to which only debug output looks.
  pub thunk_preinit : State (Dos D) Unit
  thunk_preinit w =
      let (_, w1) = bounce_resolve w in
      let (_, w2) = alloc_stack (256 ∷ 128 ∷ 64 ∷ 32 ∷ []) w1 in
      let (armed, w3) = thunk_init w2 in
      if not armed || w3.bounce_linear == 0 || not w3.thunk_ready
      then (tt, w3)
      else let poison = 0xEE ∷ 0xEE ∷ 0xEE ∷ 0xEE ∷ 0xEE ∷ 0xEE ∷ 0xEE ∷ 0xEE ∷ [] in
        let w4 = record w3 { ram = poke_all machine.writable w3.bounce_linear poison w3.ram } in
        let (_, w5) =
          int21_call (record zero_rmcs { eax = 0x4700; ds = w4.bounce_seg % 2 ^ 16 }) w4 in
        (tt, w5)

  -- The calls that take a path, which goes to the start of the bounce buffer with its terminator.
  pub path_call : Rmcs → Bytes → State (Dos D) Answer
  path_call rm path w =
      if not (has_bounce w) || leb 1024 (length path)
      then (failed 0, w)
      else let w1 = record w {
        ram = poke_all machine.writable w.bounce_linear (path ++ 0 ∷ []) w.ram;
      } in
        let (r, w2) = int21_call (record rm { ds = w.bounce_seg % 2 ^ 16; edx = 0 }) w1 in
        (answer r, w2)

  -- `dos_int21_open`; the access mode is 0, 1 or 2.
  unfoldable pub dos_open : Bytes → ℕ → State (Dos D) Answer
  dos_open path mode = path_call (record zero_rmcs { eax = 0x3D00 + mode % 2 ^ 8 }) path

  unfoldable pub dos_creat : Bytes → State (Dos D) Answer
  dos_creat path = path_call (record zero_rmcs { eax = 0x3C00 }) path

  -- What is stored at `buf`, or the error code.
  pub dos_read : ℕ → ℕ → State (Dos D) (Option Bytes × ℕ)
  dos_read fd count_in w =
      if not (has_bounce w)
      then ((none, 0), w)
      else if count_in == 0
      then ((some [], 0), w)
      else let count = clamp count_in in
        let (r, w1) =
          int21_call
            (record zero_rmcs {
              eax = 0x3F00;
              ebx = fd;
              ecx = count;
              ds = w.bounce_seg % 2 ^ 16;
              edx = bounce_data_offset;
            })
            w in
        (read_answer count w1 (answer r), w1)

  -- `buf` has at least `count` bytes.
  pub dos_write : ℕ → Bytes → ℕ → State (Dos D) Answer
  dos_write fd buf count_in w =
      if not (has_bounce w)
      then (failed 0, w)
      else if count_in == 0
      then (done 0, w)
      else let count = clamp count_in in
        let w1 = record w {
          ram =
              poke_all machine.writable (w.bounce_linear + bounce_data_offset) (take count buf)
                w.ram;
        } in
        let (r, w2) =
          int21_call
            (record zero_rmcs {
              eax = 0x4000;
              ebx = fd;
              ecx = count;
              ds = w.bounce_seg % 2 ^ 16;
              edx = bounce_data_offset;
            })
            w1 in
        (answer r, w2)

  pub dos_close : ℕ → State (Dos D) Answer
  dos_close fd w =
      let (r, w1) = int21_call (record zero_rmcs { eax = 0x3E00; ebx = fd }) w in
      (elim (answer r) [ failed err ↦ failed err | done ax ↦ done 0 ], w1)

  -- The position's bit pattern, all ones for -1. `offset` is a bit pattern too.
  pub dos_lseek : ℕ → ℕ → ℕ → State (Dos D) ℕ
  dos_lseek fd offset whence w =
      let (r, w1) =
        int21_call
          (record zero_rmcs {
            eax = 0x4200 + whence % 2 ^ 8;
            ebx = fd;
            ecx = offset / 2 ^ 16 % 2 ^ 16;
            edx = offset % 2 ^ 16;
          })
          w in
      elim r [
        | none ↦ (2 ^ 32 - 1, w1)
        | some rm ↦
            (if bit 0 rm.flags then 2 ^ 32 - 1 else rm.edx % 2 ^ 16 * 2 ^ 16 + rm.eax % 2 ^ 16, w1)
      ]

  pub dos_fsize : ℕ → State (Dos D) ℕ
  dos_fsize fd w =
      let (cur, w1) = dos_lseek fd 0 1 w in
      if negative cur
      then (2 ^ 32 - 1, w1)
      else let (end, w2) = dos_lseek fd 0 2 w1 in
        if negative end
        then (2 ^ 32 - 1, w2)
        else (let (_, w3) = dos_lseek fd cur 0 w2 in (end, w3))
