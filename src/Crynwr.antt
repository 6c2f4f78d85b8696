-- ===== src/Crynwr.antt =====
-- Attaching to a packet driver and sending, src/freedos_micro_python/port/pktdrv_uc386dos.c. The INT
-- instruction is an assembly routine of the C library and a parameter; its two uses on a real-mode call
-- structure, the DPMI functions 0x0301 and 0x0300, stand apart, as they reach the bounce buffer and the
-- thunk, and `S` holds all other memory and the ports. The addresses that are passed to the driver and
-- the segments that `main` allocates are parameters too. `pktdrv_rmcs_t` is kept without the fields that
-- are always 0; a handle is the bit pattern of the `int`. Of the diagnostic writes none is kept, and the
-- build is the default one, without PKTDRV_FORCE_CRYNWR.
pub mod Attach
pub mod Send
mod Tests
use freedos_micro_python.Prelude.{
  ℕ, zero, suc, ◌+◌, ◌-◌, ◌*◌, ◌/◌, ◌%◌, ◌^◌, ◌≡◌, refl, Bool, true, false, not, ◌&&◌, ◌||◌, Option,
  none, some, List, [], ◌∷◌, ◌++◌, Bytes, codes, length, take, drop, ltb, leb, ◌==◌, if◌then◌else◌,
}
use freedos_micro_python.Prelude.State.{State, bit, set_bit}
use freedos_micro_python.Rmstub.{Thunk}
use freedos_micro_python.Ne2k.{Ports, Nic, init_direct, send_direct}
use freedos_micro_python.Pktdrv.{Driver, alloc_bounce, alloc_thunk, memcpy, pktdrv_bounce_size}

pub record Rmcs : Type 0 where
  pub edi : ℕ
  pub esi : ℕ
  pub ebx : ℕ
  pub edx : ℕ
  pub ecx : ℕ
  pub eax : ℕ
  pub flags : ℕ
  pub es : ℕ
  pub ds : ℕ
  pub ip : ℕ
  pub cs : ℕ
  pub sp : ℕ
  pub ss : ℕ

abbrev pub blank : Rmcs
blank = record {
  edi = 0;
  esi = 0;
  ebx = 0;
  edx = 0;
  ecx = 0;
  eax = 0;
  flags = 0;
  es = 0;
  ds = 0;
  ip = 0;
  cs = 0;
  sp = 0;
  ss = 0;
}

-- The registers of `pktdrv_int_invoke`.
pub record Regs : Type 0 where
  pub eax : ℕ
  pub ebx : ℕ
  pub ecx : ℕ
  pub edx : ℕ
  pub esi : ℕ
  pub edi : ℕ

abbrev pub no_regs : Regs
no_regs = record { eax = 0; ebx = 0; ecx = 0; edx = 0; esi = 0; edi = 0 }

-- The conventional memory that a real-mode call reaches.
pub record Low : Type 0 where
  pub bounce : Bytes
  pub thunk : Thunk

-- Each call gives the carry flag of DPMI, or of the interrupt, and the registers.
pub record RealMode (S : Type 0) : Type 0 where
  pub int_invoke : ℕ → Regs → State S (Bool × Regs)
  pub call_far : Rmcs → State (Low × S) (Bool × Rmcs)
  pub simulate_int : ℕ → Rmcs → State (Low × S) (Bool × Rmcs)
  pub peek : ℕ → S → ℕ

-- `&mac`, `&buf` and the rest, and the segments from `main`.
pub record Places : Type 0 where
  pub mac_at : ℕ
  pub buf_at : ℕ
  pub rx_buf_at : ℕ
  pub rx_pending_at : ℕ
  pub rx_len_at : ℕ
  pub dpmi_thunk_at : ℕ
  pub rmcs_at : ℕ
  pub receiver_at : ℕ
  pub preallocated_bounce_seg : ℕ
  pub preallocated_bounce_linear : ℕ
  pub preallocated_thunk_seg : ℕ

-- The globals: those of the receive side, and those that only attaching and sending use.
pub record Link : Type 0 where
  pub driver : Driver
  pub handle : ℕ
  pub handle_arp : ℕ
  pub last_handle : ℕ
  pub mac_cache : Bytes
  pub dpmi_seg : ℕ
  pub dpmi_off : ℕ

abbrev pub int_number : Driver → ℕ
int_number d = elim d.int_num [ none ↦ 2 ^ 32 - 1 | some n ↦ n ]

abbrev pub low_of : Link → Low
low_of l = record { bounce = l.driver.bounce; thunk = l.driver.thunk }

abbrev pub with_low : Low → Link → Link
with_low low l = record l { driver = record l.driver { bounce = low.bounce; thunk = low.thunk } }

abbrev pub set_int_num : Option ℕ → Link → Link
set_int_num n l = record l { driver = record l.driver { int_num = n } }

-- What `pktdrv_init` returns: 0 with the MAC, or the negated number.
pub data Init : Type 0 where
  attached : Bytes → Init
  init_failed : ℕ → Init

-- A call that DPMI and the driver carried out; `none` where the carry flag of either is set.
abbrev pub accepted : Option Rmcs → Option Rmcs
accepted none = none
accepted (some rm) = if bit 0 rm.flags then none else some rm

module _ {S : Type 0} (real : RealMode S) where
  -- Bytes in memory.
  pub same_bytes : Bytes → ℕ → S → Bool
  same_bytes [] a s = true
  same_bytes (c ∷ cs) a s = real.peek a s == c && same_bytes cs (a + 1) s

  pub load_bytes : ℕ → ℕ → S → Bytes
  load_bytes zero a s = []
  load_bytes (suc n) a s = real.peek a s ∷ load_bytes n (a + 1) s

  pub invoke : ℕ → Regs → State (Link × S) (Bool × Regs)
  invoke int_num regs (l, s) = (let (r, s') = real.int_invoke int_num regs s in (r, (l, s')))

  -- `none` for -1.
  pub call_int60_thunk : Rmcs → State (Link × S) (Option Rmcs)
  call_int60_thunk rm (l, s) =
      if l.driver.thunk_seg == 0
      then (none, (l, s))
      else let (r, (low, s')) =
          real.call_far (record rm { cs = l.driver.thunk_seg % 2 ^ 16; ip = 0; ss = 0; sp = 0 })
            (low_of l, s) in
        (if r.0 then none else some r.1, (with_low low l, s'))

  -- DPMI function 0x0300 on a call structure.
  pub simulate : ℕ → Rmcs → State (Link × S) (Option Rmcs)
  simulate int_num rm (l, s) =
      let (r, (low, s')) = real.simulate_int (int_num % 2 ^ 8) rm (low_of l, s) in
      (if r.0 then none else some r.1, (with_low low l, s'))

  -- The call of the driver that four functions share: by the thunk where there is one.
  pub dispatch : Rmcs → State (Link × S) (Option Rmcs)
  dispatch rm (l, s) =
      if l.driver.thunk_seg == 0
      then simulate (int_number l.driver) rm (l, s)
      else call_int60_thunk rm (l, s)

  pub simulate_real_int : ℕ → Regs → State (Link × S) (Bool × Regs)
  simulate_real_int int_num regs st =
      let rm = record blank {
        edi = regs.edi;
        esi = regs.esi;
        ebx = regs.ebx;
        edx = regs.edx;
        ecx = regs.ecx;
        eax = regs.eax;
      } in
      let (r, st') = simulate int_num rm st in
      (
        elim r [
          | none ↦ (true, regs)
          | some rm' ↦ (
            bit 0 rm'.flags,
            record {
              eax = rm'.eax;
              ebx = rm'.ebx;
              ecx = rm'.ecx;
              edx = rm'.edx;
              esi = rm'.esi;
              edi = rm'.edi;
            },
          )
        ],
        st',
      )

  -- `driver_info`, and whether its answer looks like a driver's.
  pub answers : ℕ → State (Link × S) Bool
  answers int_num st =
      let (r, st') = simulate_real_int int_num (record no_regs { eax = 0x0100; ebx = 0xFFFF }) st in
      let bx = r.1.ebx % 2 ^ 16 in
      let dh = r.1.edx / 2 ^ 8 % 2 ^ 8 in
      (not r.0 && leb 0x0100 bx && leb bx 0x01FF && leb 0x01 dh && leb dh 0x20, st')

  -- The signature "PKT DRVR" behind the interrupt vector.
  pub has_signature : ℕ → State (Link × S) ℕ
  has_signature int_num st =
      let (r, (l, s)) = invoke 0x31 (record no_regs { eax = 0x0200; ebx = int_num % 2 ^ 8 }) st in
      let linear = r.1.ecx % 2 ^ 16 * 16 + r.1.edx % 2 ^ 16 in
      (
        if r.0
              || linear == 0
              || leb 0x110000 linear
              || not (same_bytes (codes "PKT DRVR") (linear + 3) s)
            then 0
            else linear,
        (l, s),
      )

  -- Not 0 on a hit.
  pub probe_slot : ℕ → State (Link × S) ℕ
  probe_slot int_num st =
      let (found, st1) = answers int_num st in
      elim found [ true ↦ (int_num + 2 ^ 31, st1) | false ↦ has_signature int_num st1 ]

  -- The loop over the vectors, with how many are left.
  pub detect_loop : ℕ → ℕ → State (Link × S) ℕ
  detect_loop zero i st = (0, st)
  detect_loop (suc n) i st =
      let (r, (l, s)) = probe_slot i st in
      elim (r == 0) [
        | true ↦ detect_loop n (i + 1) (l, s)
        | false ↦ (i, (set_int_num (some i) l, s))
      ]

  pub detect : State (Link × S) ℕ
  detect (l, s) =
      if int_number l.driver == 0 then detect_loop 32 0x60 (l, s) else (int_number l.driver, (l, s))
