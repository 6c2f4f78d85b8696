-- ===== src/Pktdrv/Receive.antt =====
-- The way of a frame from the packet driver's upcall of the stub to `pktdrv_recv`, in
-- pktdrv_uc386dos.c.
use freedos_micro_python.Prelude.{
  ℕ, zero, suc, ◌^◌, ◌≤◌, ◌<◌, ◌≡◌, refl, ◌&&◌, true, false, Option, none, some, [], ◌∷◌, ◌++◌,
  arith, Bytes, length, length-append, length-take, ◌∙◌, take, drop, min, ltb, ◌==◌, if◌then◌else◌,
}
use freedos_micro_python.Rmstub.{far_call}
use freedos_micro_python.Rmstub.Phases.{ready, phase0_fits, phase1_marks}
use freedos_micro_python.Pktdrv.{Driver, memcpy, poll_rmstub, recv_slot, clear_pending}

-- The Crynwr packet driver's upcall for one frame: it asks for a buffer, copies the frame to the bounce
-- buffer if ES:DI is its address, and calls again. A null pointer drops the frame.
pub upcall : Bytes → Driver → Option Driver
upcall frame d = elim (far_call 0 (length frame) 0 0 d.thunk) [
  | none ↦ none
  | some cpu ↦
      if cpu.es == 0 && cpu.di == 0
      then some (record d { thunk = cpu.thunk })
      else if cpu.es == d.bounce_seg && cpu.di == 0
      then elim (far_call 1 cpu.cx cpu.es cpu.di cpu.thunk) [
        | none ↦ none
        | some cpu' ↦
            some (record d { bounce = memcpy d.bounce frame (length frame); thunk = cpu'.thunk })
      ]
      else none
]

-- A driver that is set up for the stub, with or without a frame waiting in it.
pub record IsAttached (d : Driver) (old : Bytes) (pending length : ℕ) : Type 0 where
  pub thunk : d.thunk ≡ ready old d.bounce_seg pending length
  pub thunk_seg : 0 < d.thunk_seg
  pub bounce_linear : 0 < d.bounce_linear
  pub bounce_from : 0 < d.bounce_seg
  pub bounce_to : d.bounce_seg < 2 ^ 16

-- The driver with a frame in the bounce buffer.
abbrev stored : Driver → Bytes → Bytes → Driver
stored d old frame = record d {
  bounce = memcpy d.bounce frame (length frame);
  thunk = ready old d.bounce_seg 1 (length frame);
}

pub upcall-stored :
    (d : Driver) (old : Bytes) (p l : ℕ) (frame : Bytes)
    → IsAttached d old p l
    → length frame ≤ 1518
    → upcall frame d ≡ some (stored d old frame)
unfolding upcall
upcall-stored d old p l frame a h =
    let r0 = phase0_fits old d.bounce_seg p l (length frame) 0 0 a.bounce_to h in
    let r1 =
      phase1_marks old d.bounce_seg p (length frame) 1 r0.cpu.cx d.bounce_seg 0 (omega arith) in
    let e0 : (d.bounce_seg == 0) ≡ false = ground (arith, a.bounce_from) in
    let e1 : (d.bounce_seg == d.bounce_seg) ≡ true = ground arith in
    rw (
      a.thunk, upcall, r0.returned, r0.buffer.0, r0.buffer.1, r0.paragraph, e0, e1, r1.returned,
      r1.paragraph,
    )

take-memcpy :
    (n m : ℕ) (src rest : Bytes) → n ≤ m → m ≤ length src → take n (take m src ++ rest) ≡ take n src
take-memcpy zero m src rest h k = refl
take-memcpy (suc n) zero src rest h k = absurd (omega arith)
take-memcpy (suc n) (suc m) [] rest h k = absurd (omega arith)
take-memcpy (suc n) (suc m) (c ∷ src) rest h k =
    rw (take-memcpy n m src rest (omega arith) (omega arith))

-- What a drain returns after a frame was copied twice.
twice :
    (n : ℕ) (frame bounce buf : Bytes)
    → n ≤ length frame
    → take n (memcpy buf (memcpy bounce frame (length frame)) (length frame)) ≡ take n frame
twice n frame bounce buf h =
    take-memcpy n (length frame) (memcpy bounce frame (length frame)) (drop (length frame) buf) h (
      omega (
        arith,
        length-append {0} (take (length frame) frame) (drop (length frame) bounce),
        length-take (length frame) frame,
      ))
    ∙ take-memcpy n (length frame) frame (drop (length frame) bounce) h (omega arith)

-- What the slot holds once the frame in the stub is drained into it.
drained :
    (d : Driver) (n : ℕ)
    → 0 < d.thunk_seg
    → 0 < d.bounce_linear
    → d.rx_pending ≡ false
    → d.thunk.pending ≡ 1
    → d.thunk.length ≡ n
    → 0 < n
    → n ≤ 1518
    → poll_rmstub d ≡ record d {
      rx_buf = memcpy d.rx_buf d.bounce n;
      rx_len = n;
      rx_pending = true;
      thunk = clear_pending d.thunk;
    }
unfolding poll_rmstub
drained d n h1 h2 h3 h4 h5 h6 h7 =
    let e1 : (d.thunk_seg == 0) ≡ false = ground arith in
    let e2 : (d.bounce_linear == 0) ≡ false = ground arith in
    let e3 : (n == 0) ≡ false = ground arith in
    let e4 : ltb 1518 n ≡ false = ground arith in rw (e1, h3, h4, h5, e2, e3, e4)

-- On a driver attached to the stub with no frame in `pktdrv_rx_buf`, an upcall for a frame of 1 to 1518
-- bytes succeeds, whatever the stub still held; the next drain then returns that frame, cut to `maxlen`,
-- and leaves the driver attached, with no frame in the stub or in the buffer.
pub recv_slot-upcall :
    (d : Driver) (old : Bytes) (p l maxlen : ℕ) (frame : Bytes)
    → IsAttached d old p l
    → d.rx_pending ≡ false
    → 0 < length frame
    → length frame ≤ 1518
    → (d' : Driver) × (upcall frame d ≡ some d')
      × ((recv_slot maxlen d').0
          ≡ (min (length frame) maxlen, take (min (length frame) maxlen) frame))
      × IsAttached (recv_slot maxlen d').1 old 0 (length frame)
      × ((recv_slot maxlen d').1.rx_pending ≡ false)
recv_slot-upcall d old p l maxlen frame a free h0 h =
    let d' = stored d old frame in
    let e = drained d' (length frame) a.thunk_seg a.bounce_linear free refl refl h0 h in
    let m : (if ltb maxlen (length frame) then maxlen else length frame)
        ≡ min (length frame) maxlen =
      ground arith in
    (
      d',
      upcall-stored d old p l frame a h,
      unfold recv_slot in
          rw e
            (rw m (rw (twice (min (length frame) maxlen) frame d.bounce d.rx_buf (omega arith)))),
      unfold recv_slot in
          rw e (record {
            thunk = refl;
            thunk_seg = a.thunk_seg;
            bounce_linear = a.bounce_linear;
            bounce_from = a.bounce_from;
            bounce_to = a.bounce_to;
          }),
      unfold recv_slot in rw e refl,
    )
