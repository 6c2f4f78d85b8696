-- ===== src/Crynwr/Send.antt =====
-- `pktdrv_send` of pktdrv_uc386dos.c.
pub mod Masking
use freedos_micro_python.Prelude.{
  ℕ, ◌%◌, ◌^◌, Bool, true, false, not, ◌||◌, Option, none, some, Bytes, ltb, ◌==◌, if◌then◌else◌,
}
use freedos_micro_python.Prelude.State.{State, set_bit}
use freedos_micro_python.Ne2k.{Ports, send_direct}
use freedos_micro_python.Pktdrv.{memcpy, pktdrv_bounce_size}
use freedos_micro_python.Crynwr.{
  blank, no_regs, RealMode, Places, Link, int_number, accepted, dispatch,
}

module _ {S : Type 0} (real : RealMode S) (places : Places) (ports : Ports S) where
  -- The frame goes to the bounce buffer, and interrupts 9 and 11 are masked for the call.
  pub send_bounced : Bytes → ℕ → State (Link × S) Bool
  send_bounced buf len (l, s) =
      let l1 = record l { driver = record l.driver { bounce = memcpy l.driver.bounce buf len } } in
      let (saved_mask, s1) = ports.inb 0xA1 s in
      let (_, s2) = ports.outb 0xA1 (set_bit 1 (set_bit 3 saved_mask)) s1 in
      let (r, (l3, s3)) =
        dispatch real
          (record blank {
            ebx = l.handle;
            ecx = len;
            eax = 0x0400;
            ds = l.driver.bounce_seg % 2 ^ 16;
          })
          (l1, s2) in
      let (_, s4) = ports.outb 0xA1 saved_mask s3 in
      (elim (accepted r) [ none ↦ false | some rm ↦ true ], (l3, s4))

  -- Whether it returns 0; `none` where the fuel for the card's wait runs out.
  pub send : ℕ → Bytes → ℕ → State (Link × S) (Option Bool)
  send fuel buf len (l, s) =
      if l.driver.nic.ne2k_initialized
      then (let (r, s') = send_direct ports fuel l.driver.nic buf len s in (r, (l, s')))
      else if int_number l.driver == 0 || ltb pktdrv_bounce_size len
      then (some false, (l, s))
      else if l.driver.bounce_seg == 0
      then (let (r, s') =
            real.int_invoke (int_number l.driver)
              (record no_regs { eax = 0x0400; ecx = len; esi = places.buf_at }) s in
          (some (not r.0), (l, s')))
      else (let (r, st') = send_bounced buf len (l, s) in (some r, st'))
