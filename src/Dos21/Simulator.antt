-- ===== src/Dos21/Simulator.antt =====
-- A small DOS, on which the calls of dosint21_uc386dos.c can be run: one file behind every handle, at
-- most three bytes at once, and segments at sixteen times their number.
use freedos_micro_python.Prelude.{
  ℕ, ◌+◌, ◌*◌, min, ◌≡◌, ap, refl, Bool, true, false, Option, none, some, arith, length, take, drop,
  ◌==◌, if◌then◌else◌, inl, length-take, length-drop,
}
use freedos_micro_python.Prelude.State.{State}
use freedos_micro_python.Dos21.{Machine, Dos, Rmcs, Ram, poke_all, peek_all}
use freedos_micro_python.Dos21.Memory.{peek_all-poke_all}
use freedos_micro_python.Dos21.Calls.{IsReady}
use freedos_micro_python.Dos21.Disk.{OpenFile, left, after_write, Reads, Writes, IsDos}

abbrev pub sim_view : OpenFile → ℕ → Option OpenFile
sim_view f fd = some f

abbrev pub sim_linear : ℕ → ℕ
sim_linear seg = seg * 16

abbrev sim_read : Rmcs → State (Ram × OpenFile) (Bool × Rmcs)
sim_read rm (ram, f) =
    let count = min (min rm.ecx 3) (left f) in
    let data_ = take count (drop f.pos f.contents) in
    (
      (false, record rm { eax = count; flags = 0 }),
      (poke_all (λ a. true) (rm.ds * 16 + rm.edx) data_ ram, record f { pos = f.pos + count }),
    )

abbrev sim_write : Rmcs → State (Ram × OpenFile) (Bool × Rmcs)
sim_write rm (ram, f) =
    let count = min rm.ecx 3 in
    (
      (false, record rm { eax = count; flags = 0 }),
      (ram, after_write f (take count (peek_all rm.ecx (rm.ds * 16 + rm.edx) ram))),
    )

abbrev pub sim : Machine OpenFile
sim = record {
  writable = λ a. true;
  ds_selector = 0;
  int_invoke = λ num regs dev. ((true, regs), dev);
  gate = λ rm s. if rm.eax == 0x3F00 then sim_read rm s else sim_write rm s;
}

-- A ready state, with the thunk at 0x20000 and the bounce buffer at 0x30000.
abbrev pub sim_state : OpenFile → Dos OpenFile
sim_state f = record {
  bounce_seg = 0x3000;
  bounce_linear = 0x30000;
  preallocated_thunk_seg = 0x2000;
  thunk_seg = 0x2000;
  thunk_linear = 0x20000;
  thunk_ready = true;
  rm_stack_seg = 0;
  rm_stack_bytes = 0;
  ram = λ a. 0;
  dev = f;
}

pub sim_state-IsReady : (f : OpenFile) → IsReady sim sim_linear (sim_state f)
sim_state-IsReady f = record {
  thunk_ready = refl;
  thunk_linear = omega arith;
  thunk = λ x lo hi. refl;
  bounce_seg = omega arith;
  bounce_linear = omega arith;
  thunk_maps = refl;
  bounce_maps = refl;
  bounce = λ x lo hi. refl;
  apart = inl (omega arith);
}

abbrev some_inside : OpenFile → Option OpenFile → OpenFile
some_inside f none = f
some_inside f (some g) = g

sim-Reads :
    (rm : Rmcs) (ram : Ram) (f : OpenFile)
    → Reads sim_view rm.ebx rm.ecx (rm.ds * 16 + rm.edx) f (sim_read rm (ram, f))
sim-Reads rm ram f =
    let count = min (min rm.ecx 3) (left f) in
    let data_ = take count (drop f.pos f.contents) in
    let size : length data_ ≡ count =
      omega (arith, length-take count (drop f.pos f.contents), length-drop f.pos f.contents) in
    record {
      count = count;
      at_most = omega arith;
      within = omega arith;
      progress = λ a b. omega arith;
      carry = refl;
      clear = refl;
      ax = omega arith;
      buffer =
          rw size at
            (peek_all-poke_all (λ a. true) data_ (rm.ds * 16 + rm.edx) ram (λ x lo hi. refl));
      moved = refl;
    }

sim-Writes :
    (rm : Rmcs) (ram : Ram) (f : OpenFile)
    → Writes sim_view rm.ebx rm.ecx (rm.ds * 16 + rm.edx) f ram (sim_write rm (ram, f))
sim-Writes rm ram f = record {
  count = min rm.ecx 3;
  at_most = omega arith;
  carry = refl;
  clear = refl;
  ax = omega arith;
  written = refl;
}

pub sim-IsDos : IsDos sim_view sim sim_linear
sim-IsDos = record {
  reads = λ rm ram dev f code function size here.
      (let same : dev ≡ f = ap (some_inside f) here in rw (function, same) (sim-Reads rm ram f));
  writes = λ rm ram dev f code function some_bytes size inside here.
      (let same : dev ≡ f = ap (some_inside f) here in rw (function, same) (sim-Writes rm ram f));
}
