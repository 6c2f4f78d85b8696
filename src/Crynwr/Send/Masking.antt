-- ===== src/Crynwr/Send/Masking.antt =====
-- The interrupt mask and the bounce buffer around `pktdrv_send` of pktdrv_uc386dos.c.
use freedos_micro_python.Prelude.{
  ℕ, ◌%◌, ◌^◌, ◌≤◌, ◌≡◌, ◌≢◌, ◌∙◌, ap, refl, Bool, true, false, ◌||◌, none, some, Bytes, ltb, ◌==◌,
  arith, inl, inr, Bool-cases,
}
use freedos_micro_python.Prelude.State.{set_bit}
use freedos_micro_python.Ne2k.{Ports}
use freedos_micro_python.Pktdrv.{memcpy, pktdrv_bounce_size}
use freedos_micro_python.Crynwr.{
  blank, Regs, RealMode, Places, Link, int_number, dispatch, accepted,
}
use freedos_micro_python.Crynwr.Send.{send_bounced, send}

module _ {S : Type 0} (real : RealMode S) (places : Places) (ports : Ports S) (mask : S → ℕ) where
  -- Port 0xA1 as the slave interrupt controller has it: its mask is read and written there, and an INT
  -- leaves it alone. What a real-mode call does to it is open.
  pub record IsMasked : Type 0 where
    pub read : (s : S) → (ports.inb 0xA1 s).0 ≡ mask s
    pub written : (v : ℕ) (s : S) → mask (ports.outb 0xA1 v s).1 ≡ v
    pub kept : (n : ℕ) (regs : Regs) (s : S) → mask (real.int_invoke n regs s).1 ≡ mask s

  -- The state in which the driver is called, and how it is called.
  abbrev pub before : ℕ → S → S
  before saved s = (ports.outb 0xA1 (set_bit 1 (set_bit 3 saved)) s).1

  -- What a send through the bounce buffer does: nothing besides the accesses of port 0xA1 and one call.
  pub record IsSend (buf : Bytes) (len : ℕ) (l : Link) (s : S) (r : Bool × (Link × S))
      : Type 0 where
    pub at_call : S
    pub entered : at_call ≡ before (mask s) (ports.inb 0xA1 s).1
    pub masked : mask at_call ≡ set_bit 1 (set_bit 3 (mask s))
    pub restored : mask r.1.1 ≡ mask s
    pub answered :
        let rm = record blank {
          ebx = l.handle;
          ecx = len;
          eax = 0x0400;
          ds = l.driver.bounce_seg % 2 ^ 16;
        } in
        let out = dispatch real rm (
          record l { driver = record l.driver { bounce = memcpy l.driver.bounce buf len } },
          at_call,
        ) in
        (r.1.0 ≡ out.1.0)
        × (r.1.1 ≡ (ports.outb 0xA1 (mask s) out.1.1).1)
        × (r.0 ≡ elim (accepted out.0) [ none ↦ false | some rm' ↦ true ])

  send_bounced-IsSend :
      (buf : Bytes) (len : ℕ) (l : Link) (s : S)
      → IsMasked
      → IsSend buf len l s (send_bounced real places ports buf len (l, s))
  unfolding send_bounced
  send_bounced-IsSend buf len l s laws =
      let s1 = (ports.inb 0xA1 s).1 in
      record {
        at_call = before (ports.inb 0xA1 s).0 s1;
        masked = laws.written _ s1 ∙ ap (λ m. set_bit 1 (set_bit 3 m)) (laws.read s);
        restored = laws.written _ _ ∙ laws.read s;
        entered = rw (laws.read s) refl;
        answered = (refl, rw (laws.read s) refl, refl);
      }

  -- Where no NE2000 card is in use, `send` leaves the mask of the slave interrupt controller as it found it, on every
  -- path and whatever a real-mode call does to it, if port 0xA1 keeps what is written to it and a plain INT
  -- leaves it alone.
  send_restores :
      (fuel : ℕ) (buf : Bytes) (len : ℕ) (l : Link) (s : S)
      → IsMasked
      → l.driver.nic.ne2k_initialized ≡ false
      → mask (send real places ports fuel buf len (l, s)).1.1 ≡ mask s
  unfolding send
  send_restores fuel buf len l s laws no_card =
      elim (Bool-cases (int_number l.driver == 0 || ltb pktdrv_bounce_size len)) [
        | inl e ↦ simp (no_card, e) refl
        | inr e ↦ elim (Bool-cases (l.driver.bounce_seg == 0)) [
          | inl b ↦ simp (no_card, e, b) (laws.kept _ _ s)
          | inr b ↦ simp (no_card, e, b) ((send_bounced-IsSend buf len l s laws).restored)
        ]
      ]

  -- Where a packet driver is in use, and no NE2000 card, and there is a bounce buffer that the frame fits, `send` makes one call of
  -- the driver, in a state in which interrupts 9 and 11 are masked besides those that were, with the frame in the
  -- bounce buffer and with the registers of send_pkt; besides that call it only reads the mask, sets it and writes
  -- the old one back, so that the mask afterwards is the old one. It succeeds just where DPMI and the driver both
  -- leave the carry flag clear.
  pub send-IsSend :
      (fuel : ℕ) (buf : Bytes) (len : ℕ) (l : Link) (s : S)
      → IsMasked
      → l.driver.nic.ne2k_initialized ≡ false
      → int_number l.driver ≢ 0
      → len ≤ pktdrv_bounce_size
      → l.driver.bounce_seg ≢ 0
      → (r : Bool × (Link × S)) × ((send real places ports fuel buf len (l, s) ≡ (some r.0, r.1))
          × IsSend buf len l s r)
  unfolding send
  send-IsSend fuel buf len l s laws no_card driver fits bounce =
      let e : (int_number l.driver == 0 || ltb pktdrv_bounce_size len) ≡ false = ground arith in
      let b : (l.driver.bounce_seg == 0) ≡ false = ground arith in
      (
        send_bounced real places ports buf len (l, s),
        (rw (no_card, e, b) refl, send_bounced-IsSend buf len l s laws),
      )
