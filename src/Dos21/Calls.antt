-- ===== src/Dos21/Calls.antt =====
-- How the call gate of dosint21_uc386dos.c is entered.
use freedos_micro_python.Prelude.{
  ℕ, ◌+◌, ◌%◌, ◌^◌, ◌≤◌, ◌<◌, ◌≡◌, true, none, some, arith, if◌then◌else◌, ◌⊎◌, inl, inr,
  Bool-cases,
}
use freedos_micro_python.Dos21.{
  Machine, Dos, Rmcs, Ram, has_bounce, poke_all, peek_all, same_code, int21_code, thunk_init,
  repair, enter, int21_call,
}
use freedos_micro_python.Dos21.Memory.{IsWritable, peek_all-outside, peek_all-poke_all}

-- `linear_of` is where a real-mode segment lies in linear memory.
module _ {D : Type 0} (machine : Machine D) (linear_of : ℕ → ℕ) where
  -- The state that `dos_int21_thunk_preinit` leaves where all goes well: the thunk and the bounce buffer
  -- can be written, and lie apart.
  pub record IsReady (w : Dos D) : Type 0 where
    pub thunk_ready : w.thunk_ready ≡ true
    pub thunk_linear : 0 < w.thunk_linear
    pub thunk : IsWritable machine.writable w.thunk_linear 3
    pub bounce_seg : 0 < w.bounce_seg
    pub bounce_linear : 0 < w.bounce_linear
    pub thunk_maps : linear_of (w.thunk_seg % 2 ^ 16) ≡ w.thunk_linear
    pub bounce_maps : linear_of (w.bounce_seg % 2 ^ 16) ≡ w.bounce_linear
    pub bounce : IsWritable machine.writable w.bounce_linear 2048
    pub apart : (w.thunk_linear + 3 ≤ w.bounce_linear) ⊎ (w.bounce_linear + 2048 ≤ w.thunk_linear)

  -- Memory at the call: the thunk's bytes are in place.
  pub armed : Dos D → Ram
  armed w =
      if same_code w.thunk_linear w.ram
      then w.ram
      else poke_all machine.writable w.thunk_linear int21_code w.ram

  -- Readiness does not depend on memory or the devices.
  pub kept :
      (w : Dos D) (ram : Ram) (dev : D) → IsReady w → IsReady (record w { ram = ram; dev = dev })
  kept w ram dev v = record {
    thunk_ready = v.thunk_ready;
    thunk_linear = v.thunk_linear;
    thunk = v.thunk;
    bounce_seg = v.bounce_seg;
    bounce_linear = v.bounce_linear;
    thunk_maps = v.thunk_maps;
    bounce_maps = v.bounce_maps;
    bounce = v.bounce;
    apart = v.apart;
  }

  pub has_bounce-ready : (w : Dos D) → IsReady w → has_bounce w ≡ true
  has_bounce-ready w v = ground (arith, v.bounce_seg, v.bounce_linear)

  repair-armed : (w : Dos D) → IsReady w → repair machine w ≡ (tt, record w { ram = armed w })
  unfolding repair armed
  repair-armed w v = elim (Bool-cases (same_code w.thunk_linear w.ram)) [
    | inl e ↦ rw e (ground arith)
    | inr e ↦ rw e (ground (arith, v.thunk_linear))
  ]

  thunk_init-ready : (w : Dos D) → IsReady w → thunk_init machine w ≡ (true, w)
  unfolding thunk_init
  thunk_init-ready w v = ground (arith, v.thunk_ready)

  -- The call, on a ready state: what the gate makes of the registers, memory and the devices.
  pub int21_call-gate :
      (rm : Rmcs) (w : Dos D)
      → IsReady w
      → int21_call machine rm w ≡ (
          let out = machine.gate (enter machine rm w) (armed w, w.dev) in
          (if out.0.0 then none else some out.0.1, record w { ram = out.1.0; dev = out.1.1 }))
  unfolding int21_call enter
  int21_call-gate rm w v = rw (thunk_init-ready w v, repair-armed w v)

  pub armed-code : (w : Dos D) → IsReady w → peek_all 3 w.thunk_linear (armed w) ≡ int21_code
  unfolding armed peek_all
  armed-code w v = elim (Bool-cases (same_code w.thunk_linear w.ram)) [
    | inl e ↦ rw e (ground arith)
    | inr e ↦ rw e (peek_all-poke_all machine.writable int21_code w.thunk_linear w.ram v.thunk)
  ]

  -- Memory outside the thunk is as it was.
  pub armed_outside :
      (n b : ℕ) (w : Dos D)
      → (b + n ≤ w.thunk_linear) ⊎ (w.thunk_linear + 3 ≤ b)
      → peek_all n b (armed w) ≡ peek_all n b w.ram
  unfolding armed
  armed_outside n b w h = elim (Bool-cases (same_code w.thunk_linear w.ram)) [
    | inl e ↦ rw e
    | inr e ↦ rw e (peek_all-outside machine.writable int21_code n w.thunk_linear b w.ram h)
  ]
