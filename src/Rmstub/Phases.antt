-- ===== src/Rmstub/Phases.antt =====
-- The two calls of the receiver stub of pktdrv_uc386dos.c, as the packet driver and the port see them.
use freedos_micro_python.Prelude.{
  ℕ, zero, suc, leb, if◌then◌else◌, ◌^◌, ◌≤◌, ◌<◌, ◌≡◌, refl, ◌||◌, Bool, true, false, Option, some,
  arith, Bytes, ltb, ◌==◌, Bool-cases, inl, inr,
}
use freedos_micro_python.Rmstub.{
  Thunk, Cpu, fill_thunk, decode, load, store, execute, run, far_call,
}

-- The paragraph after `pktdrv_alloc_thunk`, at any later time: only the first two words change.
abbrev pub ready : Bytes → ℕ → ℕ → ℕ → Thunk
ready old seg pending length = record (fill_thunk old seg) { pending = pending; length = length }

-- How a call of the receiver comes back: the buffer in ES:DI, and the paragraph.
pub record Returned (t : Thunk) (es di : ℕ) (r : Option Cpu) : Type 0 where
  pub cpu : Cpu
  pub returned : r ≡ some cpu
  pub buffer : (cpu.es ≡ es) × (cpu.di ≡ di)
  pub paragraph : cpu.thunk ≡ t

-- The processor at the comparison's jump, `ja .drop`.
abbrev at_ja : ℕ → ℕ → ℕ → Bool → Bool → Thunk → Cpu
at_ja len es di z c t = record {
  ip = 0x20;
  ax = 0;
  cx = len;
  es = es;
  di = di;
  zf = z;
  cf = c;
  thunk = t;
}

to_ja :
    (old : Bytes) (seg p l len es di : ℕ)
    → far_call 0 len es di (ready old seg p l)
      ≡ run 6 (at_ja len es di (len == 1518) (ltb len 1518) (ready old seg p l))
unfolding fill_thunk decode load store execute run far_call
to_ja old seg p l len es di = refl

from_ja :
    (old : Bytes) (seg p l len es di : ℕ) (z c : Bool)
    → seg < 2 ^ 16
    → (z || c) ≡ true
    → Returned (ready old seg p len) seg 0 (run 6 (at_ja len es di z c (ready old seg p l)))
unfolding fill_thunk decode load store execute run
from_ja old seg p l len es di true c hs h = record {
  cpu = _;
  returned = refl;
  buffer = (omega arith, refl);
  paragraph = refl;
}
from_ja old seg p l len es di false true hs h = record {
  cpu = _;
  returned = refl;
  buffer = (omega arith, refl);
  paragraph = refl;
}
from_ja old seg p l len es di false false hs h = cc

to_drop :
    (old : Bytes) (seg p l len es di : ℕ)
    → Returned (ready old seg p l) 0 0 (run 6 (at_ja len es di false false (ready old seg p l)))
unfolding fill_thunk decode load store execute run
to_drop old seg p l len es di = record {
  cpu = _;
  returned = refl;
  buffer = (refl, refl);
  paragraph = refl;
}

-- At the first call, with AX = 0 and a frame of at most 1518 bytes, the stub returns the bounce buffer at
-- offset 0 of its segment and notes the length, whether or not a frame is pending.
pub phase0_fits :
    (old : Bytes) (seg p l len es di : ℕ)
    → seg < 2 ^ 16
    → len ≤ 1518
    → Returned (ready old seg p len) seg 0 (far_call 0 len es di (ready old seg p l))
phase0_fits old seg p l len es di hs h =
    rw (to_ja old seg p l len es di)
      (from_ja old seg p l len es di (len == 1518) (ltb len 1518) hs (ground arith))

-- At the first call for a longer frame the stub returns a null pointer, and changes nothing.
pub phase0_drops :
    (old : Bytes) (seg p l len es di : ℕ)
    → 1518 < len
    → Returned (ready old seg p l) 0 0 (far_call 0 len es di (ready old seg p l))
phase0_drops old seg p l len es di h =
    let e : (len == 1518) ≡ false = ground arith in
    let f : ltb len 1518 ≡ false = ground arith in
    rw (to_ja old seg p l len es di) (rw (e, f) (to_drop old seg p l len es di))

abbrev at_jnz : ℕ → ℕ → ℕ → ℕ → Bool → Thunk → Cpu
at_jnz ax len es di z t = record {
  ip = 0x12;
  ax = ax;
  cx = len;
  es = es;
  di = di;
  zf = z;
  cf = false;
  thunk = t;
}

-- The first instruction, `or ax, ax`, for any fuel that is left.
to_jnz :
    (fuel : ℕ) (old : Bytes) (seg p l ax len es di : ℕ)
    → run (suc fuel) (record {
      ip = 0x10;
      ax = ax;
      cx = len;
      es = es;
      di = di;
      zf = false;
      cf = false;
      thunk = ready old seg p l;
    })
      ≡ run fuel (at_jnz ax len es di (ax == 0) (ready old seg p l))
unfolding fill_thunk decode load store execute run
to_jnz fuel old seg p l ax len es di = refl

from_jnz :
    (old : Bytes) (seg p l ax len es di : ℕ)
    → Returned (ready old seg 1 l) es di (run 11 (at_jnz ax len es di false (ready old seg p l)))
unfolding fill_thunk decode load store execute run
from_jnz old seg p l ax len es di = record {
  cpu = _;
  returned = refl;
  buffer = (refl, refl);
  paragraph = refl;
}

-- At the second call, with any AX that is not 0, the stub marks the frame as pending, and leaves the
-- length and ES:DI as they were.
pub phase1_marks :
    (old : Bytes) (seg p l ax len es di : ℕ)
    → 0 < ax
    → Returned (ready old seg 1 l) es di (far_call ax len es di (ready old seg p l))
unfolding far_call
phase1_marks old seg p l ax len es di h =
    let e : (ax == 0) ≡ false = ground arith in
    rw (to_jnz 11 old seg p l ax len es di) (rw e (from_jnz old seg p l ax len es di))

-- What a call of the receiver does, in words of the packet driver's interface: ES:DI on return, and the
-- pending and length words. AX = 0 asks for a buffer, and any other AX says that it is filled.
abbrev pub answer : ℕ → ℕ → ℕ → ℕ → ℕ → ℕ → ℕ → (ℕ × ℕ) × (ℕ × ℕ)
answer seg ax len es di p l =
    if ax == 0
    then (if leb len 1518 then ((seg, 0), (p, len)) else ((0, 0), (p, l)))
    else ((es, di), (1, l))

-- For a bounce segment of 16 bits: the bytes of the receiver stub, run from offset 0x10 in the paragraph that `pktdrv_alloc_thunk` fills,
-- come to their RETF for every AX and CX, with ES:DI and the two words as the packet driver's
-- interface asks: a buffer for at most 1518 bytes and none for more, and the mark on the second call.
pub far_call-answer :
    (old : Bytes) (seg p l ax len es di : ℕ)
    → seg < 2 ^ 16
    → let a = answer seg ax len es di p l in
      Returned (ready old seg a.1.0 a.1.1) a.0.0 a.0.1 (far_call ax len es di (ready old seg p l))
far_call-answer old seg p l zero len es di hs = elim (Bool-cases (leb len 1518)) [
  | inl e ↦ rw e (phase0_fits old seg p l len es di hs (ground arith))
  | inr e ↦ rw e (phase0_drops old seg p l len es di (ground arith))
]
far_call-answer old seg p l (suc ax) len es di hs =
    let e : (suc ax == 0) ≡ false = ground arith in
    rw e (phase1_marks old seg p l (suc ax) len es di (omega arith))
