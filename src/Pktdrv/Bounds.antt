-- ===== src/Pktdrv/Bounds.antt =====
-- The sizes of the buffers of pktdrv_uc386dos.c over sequences of calls.
use freedos_micro_python.Prelude.{
  ℕ, ◌≤◌, ◌≡◌, List, [], ◌∷◌, arith, Bytes, length, length-append, length-take, length-drop, take,
  drop, ltb, if◌then◌else◌,
}
use freedos_micro_python.Pktdrv.{Driver, memcpy, receiver, poll_rmstub, recv_slot}

-- A call of the receiver by the packet driver or by the DPMI worker, a drain, or what real-mode code
-- leaves in the bounce buffer and in the stub's two words between them.
pub data Event : Type 0 where
  receive : ℕ → ℕ → Event
  drain : ℕ → Event
  real_mode : (bounce : Bytes) → 2048 ≤ length bounce → ℕ → ℕ → Event

pub after : Event → Driver → Driver
after (receive phase len) d = (receiver phase len d).1
after (drain maxlen) d = (recv_slot maxlen d).1
after (real_mode bounce h pending len) d = record d {
  bounce = bounce;
  thunk = record d.thunk { pending = pending; length = len };
}

pub after_all : List Event → Driver → Driver
after_all [] d = d
after_all (e ∷ es) d = after_all es (after e d)

-- The buffers keep their sizes, and the length fits.
pub record IsSlot (d : Driver) : Type 0 where
  pub rx_buf : length d.rx_buf ≡ 1518
  pub rx_len : d.rx_len ≤ 1518
  pub bounce : 2048 ≤ length d.bounce

length-memcpy :
    (dst src : Bytes) (n : ℕ)
    → n ≤ length src
    → n ≤ length dst
    → length (memcpy dst src n) ≡ length dst
length-memcpy dst src n h k =
    omega (arith, length-append {0} (take n src) (drop n dst), length-take n src, length-drop n dst)

receiver-IsSlot : (phase len : ℕ) (d : Driver) → IsSlot d → IsSlot (receiver phase len d).1
unfolding receiver
receiver-IsSlot phase len d w =
    let copied = length-memcpy d.rx_buf d.bounce d.rx_len in
    record {
      rx_buf = ground (arith, copied, w.rx_buf, w.rx_len, w.bounce);
      rx_len = ground (arith, w.rx_len);
      bounce = ground (arith, w.bounce);
    }

poll_rmstub-IsSlot : (d : Driver) → IsSlot d → IsSlot (poll_rmstub d)
unfolding poll_rmstub
poll_rmstub-IsSlot d w =
    let copied = length-memcpy d.rx_buf d.bounce d.thunk.length in
    record {
      rx_buf = ground (arith, copied, w.rx_buf, w.rx_len, w.bounce);
      rx_len = ground (arith, w.rx_len);
      bounce = ground (arith, w.bounce);
    }

recv_slot-IsSlot : (maxlen : ℕ) (d : Driver) → IsSlot d → IsSlot (recv_slot maxlen d).1
unfolding recv_slot
recv_slot-IsSlot maxlen d w =
    let v = poll_rmstub-IsSlot d w in
    record {
      rx_buf = ground (arith, v.rx_buf);
      rx_len = ground (arith, v.rx_len);
      bounce = ground (arith, v.bounce);
    }

after-IsSlot : (e : Event) (d : Driver) → IsSlot d → IsSlot (after e d)
unfolding after
after-IsSlot (receive phase len) d w = receiver-IsSlot phase len d w
after-IsSlot (drain maxlen) d w = recv_slot-IsSlot maxlen d w
after-IsSlot (real_mode bounce h pending len) d w = record {
  rx_buf = w.rx_buf;
  rx_len = w.rx_len;
  bounce = h;
}

after_all-IsSlot : (es : List Event) (d : Driver) → IsSlot d → IsSlot (after_all es d)
unfolding after_all
after_all-IsSlot [] d w = w
after_all-IsSlot (e ∷ es) d w = after_all-IsSlot es (after e d) (after-IsSlot e d w)

recv_slot_fits :
    (maxlen : ℕ) (d : Driver)
    → IsSlot d
    → let r = (recv_slot maxlen d).0 in (r.0 ≤ maxlen) × (r.0 ≤ 1518) × (length r.1 ≡ r.0)
unfolding recv_slot
recv_slot_fits maxlen d w =
    let v = poll_rmstub-IsSlot d w in
    let n = if ltb maxlen (poll_rmstub d).rx_len then maxlen else (poll_rmstub d).rx_len in
    ground (arith, v.rx_buf, v.rx_len, length-take n (poll_rmstub d).rx_buf)

-- From buffers of the sizes that they are declared with, and after any sequence of receiver calls,
-- drains and writes of real-mode code to the bounce buffer and the stub's words: the buffers have kept
-- their sizes and the noted length is at most 1518, and a drain stores as many bytes as it returns, at
-- most `maxlen` and at most 1518 of them.
pub recv_slot-bounds :
    (es : List Event) (maxlen : ℕ) (d : Driver)
    → IsSlot d
    → let d' = after_all es d in
      let r = (recv_slot maxlen d').0 in
      IsSlot d' × (r.0 ≤ maxlen) × (r.0 ≤ 1518) × (length r.1 ≡ r.0)
recv_slot-bounds es maxlen d w =
    let v = after_all-IsSlot es d w in
    let (cut, fits, stored) = recv_slot_fits maxlen (after_all es d) v in (v, cut, fits, stored)
