-- ===== src/Crynwr/Attach.antt =====
-- `pktdrv_get_addr`, `pktdrv_access`, `pktdrv_register_polling_rx` and `pktdrv_init` of pktdrv_uc386dos.c.
pub mod Unchanged
pub mod Outcome
use freedos_micro_python.Prelude.{
  ℕ, ◌+◌, ◌-◌, ◌*◌, ◌/◌, ◌%◌, ◌^◌, Bool, true, false, not, ◌||◌, Option, none, some, Bytes, take,
  leb, ◌==◌, if◌then◌else◌,
}
use freedos_micro_python.Prelude.State.{State, bit}
use freedos_micro_python.Ne2k.{Ports, init_direct}
use freedos_micro_python.Pktdrv.{alloc_bounce, alloc_thunk}
use freedos_micro_python.Crynwr.{
  Rmcs, blank, no_regs, RealMode, Places, Link, int_number, set_int_num, Init, attached,
  init_failed, accepted, load_bytes, dispatch, call_int60_thunk, detect,
}

module _ {S : Type 0} (real : RealMode S) (places : Places) where
  -- Where the MAC comes from: the caller's buffer, or the bounce buffer.
  pub fetch_addr : State (Link × S) (Option Bytes)
  fetch_addr (l, s) =
      if l.driver.bounce_seg == 0
      then (let (r, s') =
            real.int_invoke (int_number l.driver)
              (record no_regs { eax = 0x0600; ebx = l.handle; ecx = 6; edi = places.mac_at }) s in
          (if r.0 then none else some (load_bytes real 6 places.mac_at s'), (l, s')))
      else let (r, (l', s')) =
          dispatch real
            (record blank {
              ebx = l.handle;
              ecx = 6;
              eax = 0x0600;
              es = l.driver.bounce_seg % 2 ^ 16;
            })
            (l, s) in
        (elim (accepted r) [ none ↦ none | some rm ↦ some (take 6 l'.driver.bounce) ], (l', s'))

  -- The MAC; `none` for -1.
  pub get_addr : State (Link × S) (Option Bytes)
  get_addr (l, s) =
      if int_number l.driver == 0 || leb (2 ^ 31) l.handle
      then (none, (l, s))
      else let (r, (l', s')) = fetch_addr (l, s) in
        (r, (elim r [ none ↦ l' | some mac ↦ record l' { mac_cache = mac } ], s'))

  -- The handle; `none` for -1.
  pub access_one : ℕ → ℕ → State (Link × S) (Option ℕ)
  access_one linear_receiver type_off (l, s) =
      if int_number l.driver == 0
      then (none, (l, s))
      else let rm = record blank {
        edi = linear_receiver % 2 ^ 16;
        esi = type_off;
        ebx = 0xFFFF;
        ecx = 2;
        eax = 0x0201;
        es = linear_receiver / 2 ^ 16 % 2 ^ 16;
        ds = l.driver.thunk_seg % 2 ^ 16;
      } in
        let (r, (l1, s1)) = dispatch real rm (l, s) in
        elim r [
          | none ↦
              let (r2, s2) =
                real.int_invoke (int_number l1.driver)
                  (record no_regs { eax = 0x0201; edi = linear_receiver }) s1 in
              if r2.0
              then (none, (l1, s2))
              else (some (r2.1.eax % 2 ^ 16), (record l1 { last_handle = r2.1.eax }, s2))
          | some rm1 ↦
              if bit 0 rm1.flags
              then (none, (l1, s1))
              else (some (rm1.eax % 2 ^ 16), (record l1 { last_handle = rm1.eax }, s1))
        ]

  -- Whether it returns 0.
  pub access : ℕ → State (Link × S) Bool
  access linear_receiver st =
      let (ip, (l1, s1)) = access_one linear_receiver 6 st in
      elim ip [
        | none ↦ (false, (l1, s1))
        | some handle ↦
            let (arp, (l2, s2)) =
              access_one linear_receiver 4 (record l1 { handle = handle }, s1) in
            (true, (record l2 { handle_arp = elim arp [ none ↦ 2 ^ 32 - 1 | some h ↦ h ] }, s2))
      ]

  -- Whether it returns 0.
  pub alloc_dpmi_callback : State (Link × S) Bool
  alloc_dpmi_callback (l, s) =
      let (r, s') =
        real.int_invoke 0x31
          (record no_regs { eax = 0x0303; esi = places.dpmi_thunk_at; edi = places.rmcs_at }) s in
      if r.0
      then (false, (l, s'))
      else (true, (record l { dpmi_seg = r.1.ecx % 2 ^ 16; dpmi_off = r.1.edx % 2 ^ 16 }, s'))

  pub register_polling_rx : State (Link × S) Unit
  register_polling_rx (l, s) =
      if l.driver.thunk_seg == 0
      then (let (_, s') =
            real.int_invoke (int_number l.driver)
              (record no_regs {
                eax = 0x9900;
                edi = places.rx_buf_at;
                esi = places.rx_pending_at;
                ecx = places.rx_len_at;
              })
              s in
          (tt, (l, s')))
      else let (r, st1) =
          call_int60_thunk real (record blank { ebx = 0xFFFF; eax = 0x0100 }) (l, s) in
        elim (accepted r) [
          | none ↦ (tt, st1)
          | some info ↦
              if info.ecx % 2 ^ 16 == 0x0202
              then (let (_, st2) =
                    call_int60_thunk real
                      (record blank {
                        edi = places.rx_buf_at;
                        esi = places.rx_pending_at;
                        ecx = places.rx_len_at;
                        eax = 0x9900;
                      })
                      st1 in
                  (tt, st2))
              else (tt, st1)
        ]

  -- Real-mode segment and offset of the receiver, packed.
  pub choose_receiver : State (Link × S) ℕ
  choose_receiver st =
      let (got, (l, s)) = alloc_dpmi_callback st in
      (
        if not (l.driver.thunk_seg == 0)
            then l.driver.thunk_seg * 2 ^ 16 % 2 ^ 32 + 0x0010
            else if got
            then l.dpmi_seg * 2 ^ 16 + l.dpmi_off
            else places.receiver_at,
        (l, s),
      )

  -- A call whose answer is not looked at, where there is a thunk.
  pub tell : Rmcs → State (Link × S) Unit
  tell rm st = (let (_, st') = call_int60_thunk real rm st in (tt, st'))

  -- `pktdrv_init` from the point where the driver has given a handle: the receive mode, the MAC, and polling.
  pub finish : State (Link × S) Init
  finish st3 =
      let (_, st4) = tell (record blank { ebx = st3.0.handle; ecx = 3; eax = 0x1400 }) st3 in
      let (r, st5) = get_addr st4 in
      elim r [
        | none ↦ (init_failed 3, (set_int_num (some 0) st5.0, st5.1))
        | some mac ↦ (let (_, st6) = register_polling_rx st5 in (attached mac, st6))
      ]

  -- `pktdrv_init` from the point where a driver has been detected.
  pub attach : State (Link × S) Init
  attach (l0, s0) =
      let (_, d1) =
        alloc_bounce places.preallocated_bounce_seg places.preallocated_bounce_linear l0.driver in
      let (_, d2) = alloc_thunk places.preallocated_thunk_seg d1 in
      let (receiver_linear, st1) = choose_receiver (record l0 { driver = d2 }, s0) in
      let (_, st2) = tell (record blank { ebx = 0xFFFF; eax = 0x0300 }) st1 in
      let (granted, st3) = access receiver_linear st2 in
      elim granted [
        | false ↦ (init_failed 2, (set_int_num (some 0) st3.0, st3.1))
        | true ↦ finish st3
      ]

  module _ (ports : Ports S) where
    pub init : State (Link × S) Init
    init (l, s) =
        let (r, s1) = init_direct ports s in
        elim r [
          | some (mac, nic) ↦ (
            attached mac,
            (record l { driver = record l.driver { nic = nic; int_num = none } }, s1),
          )
          | none ↦
              let (n, st2) = detect real (l, s1) in
              elim (n == 0) [ true ↦ (init_failed 1, st2) | false ↦ attach st2 ]
        ]
