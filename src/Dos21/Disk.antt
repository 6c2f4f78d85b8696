-- ===== src/Dos21/Disk.antt =====
-- Reads and writes of dosint21_uc386dos.c on a DOS that keeps files: what DOS documents of INT 21h
-- functions 0x3F and 0x40, and what the calls give their callers.
use freedos_micro_python.Prelude.{
  ℕ, zero, suc, ◌+◌, ◌-◌, ◌%◌, ◌^◌, ◌≤◌, ◌<◌, ◌≡◌, ◌∙◌, sym, ap, refl, Bool, false, Option, none,
  some, [], ◌∷◌, ◌++◌, arith, Bytes, length, take, drop, ltb, ◌==◌, if◌then◌else◌, ◌⊎◌, inl, inr,
  Bool-cases, length-take, take-append-drop,
}
use freedos_micro_python.Prelude.State.{bit}
use freedos_micro_python.Dos21.{
  Machine, Dos, Rmcs, Ram, zero_rmcs, poke_all, peek_all, int21_code, enter, int21_call, Answer,
  done, answer, clamp, bounce_data_offset, read_answer, dos_read, dos_write,
}
use freedos_micro_python.Dos21.Memory.{peek_all-poke_all}
use freedos_micro_python.Dos21.Calls.{
  IsReady, armed, int21_call-gate, armed-code, armed_outside, kept, has_bounce-ready,
}

-- An open file: its bytes, and where the next transfer starts.
pub record OpenFile : Type 0 where
  pub contents : Bytes
  pub pos : ℕ

abbrev pub left : OpenFile → ℕ
left f = length f.contents - f.pos

-- The bytes with some of them written over, or behind them.
abbrev pub overwrite : Bytes → ℕ → Bytes → Bytes
overwrite s pos new = take pos s ++ (new ++ drop (pos + length new) s)

abbrev pub after_write : OpenFile → Bytes → OpenFile
after_write f new = record { contents = overwrite f.contents f.pos new; pos = f.pos + length new }

take-take : (i n : ℕ) (s : Bytes) → i ≤ n → take i (take n s) ≡ take i s
take-take zero n s h = refl
take-take (suc i) zero s h = absurd (omega arith)
take-take (suc i) (suc n) [] h = refl
take-take (suc i) (suc n) (c ∷ s) h = rw (take-take i n s (omega arith))

pub after_write-nothing : (f : OpenFile) → after_write f [] ≡ f
after_write-nothing f =
    let still : f.pos + 0 ≡ f.pos = omega arith in
    rw (still, take-append-drop f.pos f.contents) refl

module _ {D : Type 0} (view : D → ℕ → Option OpenFile) where
  -- A read of at most `n` bytes to `a`: some of them, and none only at the end of the file.
  pub record Reads (fd n a : ℕ) (f : OpenFile) (out : (Bool × Rmcs) × (Ram × D)) : Type 0 where
    pub count : ℕ
    pub at_most : count ≤ n
    pub within : count ≤ left f
    pub progress : 0 < n → 0 < left f → 0 < count
    pub carry : out.0.0 ≡ false
    pub clear : bit 0 out.0.1.flags ≡ false
    pub ax : out.0.1.eax % 2 ^ 16 ≡ count
    pub buffer : peek_all count a out.1.0 ≡ take count (drop f.pos f.contents)
    pub moved : view out.1.1 fd ≡ some (record f { pos = f.pos + count })

  -- A write of `n` bytes from `a`, of which a full disk takes fewer.
  pub record Writes (fd n a : ℕ) (f : OpenFile) (ram : Ram) (out : (Bool × Rmcs) × (Ram × D))
      : Type 0 where
    pub count : ℕ
    pub at_most : count ≤ n
    pub carry : out.0.0 ≡ false
    pub clear : bit 0 out.0.1.flags ≡ false
    pub ax : out.0.1.eax % 2 ^ 16 ≡ count
    pub written : view out.1.1 fd ≡ some (after_write f (take count (peek_all n a ram)))

  module _ (machine : Machine D) (linear_of : ℕ → ℕ) where
    -- The functions 0x3F and 0x40, called by the bytes `CD 21 CB` at CS:IP on an open handle. A write of
    -- 0 bytes, which cuts or extends the file, is left open; `dos_write` never makes one.
    pub record IsDos : Type 0 where
      pub reads :
          (rm : Rmcs) (ram : Ram) (dev : D) (f : OpenFile)
          → peek_all 3 (linear_of rm.cs + rm.ip) ram ≡ int21_code
          → rm.eax ≡ 0x3F00
          → rm.ecx < 2 ^ 16
          → view dev rm.ebx ≡ some f
          → Reads rm.ebx rm.ecx (linear_of rm.ds + rm.edx) f (machine.gate rm (ram, dev))
      pub writes :
          (rm : Rmcs) (ram : Ram) (dev : D) (f : OpenFile)
          → peek_all 3 (linear_of rm.cs + rm.ip) ram ≡ int21_code
          → rm.eax ≡ 0x4000
          → 0 < rm.ecx
          → rm.ecx < 2 ^ 16
          → f.pos ≤ length f.contents
          → view dev rm.ebx ≡ some f
          → Writes rm.ebx rm.ecx (linear_of rm.ds + rm.edx) f ram (machine.gate rm (ram, dev))

    -- What a read gives its caller.
    pub record Got (fd n : ℕ) (f : OpenFile) (r : (Option Bytes × ℕ) × Dos D) : Type 0 where
      pub count : ℕ
      pub at_most : count ≤ n
      pub within : count ≤ left f
      pub progress : 0 < n → 0 < left f → 0 < count
      pub bytes : r.0.0 ≡ some (take count (drop f.pos f.contents))
      pub moved : view r.1.dev fd ≡ some (record f { pos = f.pos + count })
      pub ready : IsReady machine linear_of r.1

    -- The registers of a transfer of at most 1024 bytes, at the gate.
    abbrev transfer : ℕ → ℕ → ℕ → Dos D → Rmcs
    transfer function fd n w = record zero_rmcs {
      eax = function;
      ebx = fd;
      ecx = n;
      ds = w.bounce_seg % 2 ^ 16;
      edx = bounce_data_offset;
    }

    at_gate :
        (function fd n : ℕ) (w : Dos D)
        → IsReady machine linear_of w
        → let rm = enter machine (transfer function fd n w) w in
          (peek_all 3 (linear_of rm.cs + rm.ip) (armed machine linear_of w) ≡ int21_code)
          × (linear_of rm.ds + rm.edx ≡ w.bounce_linear + 1024)
    unfolding enter
    at_gate function fd n w v =
        let code : linear_of (w.thunk_seg % 2 ^ 16) + 0 ≡ w.thunk_linear =
          omega (arith, v.thunk_maps) in
        (rw code (armed-code machine linear_of w v), omega (arith, v.bounce_maps))

    -- What the gate gives, as the caller gets it.
    Got-gate :
        (fd n : ℕ) (w : Dos D) (f : OpenFile) (out : (Bool × Rmcs) × (Ram × D))
        → IsReady machine linear_of w
        → Reads fd n (w.bounce_linear + 1024) f out
        → let w1 = record w { ram = out.1.0; dev = out.1.1 } in
          Got fd n f (read_answer n w1 (answer (if out.0.0 then none else some out.0.1)), w1)
    unfolding read_answer
    Got-gate fd n w f out v r =
        let fits : ltb n r.count ≡ false = ground (arith, r.at_most) in
        record {
          count = r.count;
          at_most = r.at_most;
          within = r.within;
          progress = r.progress;
          bytes = rw (r.carry, r.clear, r.ax, fits) (ap some r.buffer);
          moved = r.moved;
          ready = kept machine linear_of w out.1.0 out.1.1 v;
        }

    -- A read of the size that fits the buffer.
    read_once :
        (fd n : ℕ) (w : Dos D) (f : OpenFile)
        → IsDos
        → IsReady machine linear_of w
        → n ≤ 1024
        → view w.dev fd ≡ some f
        → let out = int21_call machine (transfer 0x3F00 fd n w) w in
          Got fd n f (read_answer n out.1 (answer out.0), out.1)
    read_once fd n w f laws v small h =
        let (code, target) = at_gate 0x3F00 fd n w v in
        let rm = enter machine (transfer 0x3F00 fd n w) w in
        let out = machine.gate rm (armed machine linear_of w, w.dev) in
        let r : Reads fd n (w.bounce_linear + 1024) f out =
          unfold enter in
          rw target at
            (laws.reads rm (armed machine linear_of w) w.dev f code refl (omega arith) h) in
        rw (int21_call-gate machine linear_of (transfer 0x3F00 fd n w) w v)
          (Got-gate fd n w f out v r)

    nothing :
        (fd n : ℕ) (w : Dos D) (f : OpenFile)
        → n ≡ 0
        → IsReady machine linear_of w
        → view w.dev fd ≡ some f
        → Got fd n f ((some [], 0), w)
    nothing fd n w f z v h =
        let still : f.pos + 0 ≡ f.pos = omega arith in
        record {
          count = 0;
          at_most = omega arith;
          within = omega arith;
          progress = λ a b. absurd (omega arith);
          bytes = refl;
          moved = rw still h;
          ready = v;
        }

    more :
        (fd m n : ℕ) (f : OpenFile) (r : (Option Bytes × ℕ) × Dos D)
        → m ≤ n
        → (0 < n → 0 < m)
        → Got fd m f r
        → Got fd n f r
    more fd m n f r le pos g = record {
      count = g.count;
      at_most = omega (arith, g.at_most);
      within = g.within;
      progress = λ a b. g.progress (pos a) b;
      bytes = g.bytes;
      moved = g.moved;
      ready = g.ready;
    }

    -- On a DOS that keeps files and in a ready state, `dos_read` of up to `n` bytes gives some of the file's next bytes,
    -- at most `n` and no more than are left, none only where `n` is 0 or the file is at its end; the file's
    -- position moves behind them and the state is ready again.
    pub dos_read-Got :
        (fd n : ℕ) (w : Dos D) (f : OpenFile)
        → IsDos
        → IsReady machine linear_of w
        → view w.dev fd ≡ some f
        → Got fd n f (dos_read machine fd n w)
    unfolding dos_read
    dos_read-Got fd n w f laws v h = elim (Bool-cases (n == 0)) [
      | inl e ↦ rw (has_bounce-ready machine linear_of w v, e) (nothing fd n w f (ground arith) v h)
      | inr e ↦
          rw (has_bounce-ready machine linear_of w v, e)
            (more fd (clamp n) n f _ (ground arith) (ground arith)
              (read_once fd (clamp n) w f laws v (ground arith) h))
    ]

    -- What a write gives its caller.
    pub record Put (fd n : ℕ) (buf : Bytes) (f : OpenFile) (r : Answer × Dos D) : Type 0 where
      pub count : ℕ
      pub at_most : count ≤ n
      pub answered : r.0 ≡ done count
      pub written : view r.1.dev fd ≡ some (after_write f (take count buf))
      pub ready : IsReady machine linear_of r.1

    Put-gate :
        (fd n m : ℕ) (buf : Bytes) (w : Dos D) (f : OpenFile) (out : (Bool × Rmcs) × (Ram × D))
        → IsReady machine linear_of w
        → m ≤ n
        → m ≤ length buf
        → peek_all m (w.bounce_linear + 1024) (armed machine linear_of w) ≡ take m buf
        → Writes fd m (w.bounce_linear + 1024) f (armed machine linear_of w) out
        → let w1 = record w { ram = out.1.0; dev = out.1.1 } in
          Put fd n buf f (answer (if out.0.0 then none else some out.0.1), w1)
    Put-gate fd n m buf w f out v le fits e r = record {
      count = r.count;
      at_most = omega (arith, r.at_most);
      answered = rw (r.carry, r.clear, r.ax);
      written =
          r.written
          ∙ ap (λ t. some (after_write f t))
              (ap (λ t. take r.count t) e ∙ take-take r.count m buf r.at_most);
      ready = kept machine linear_of w out.1.0 out.1.1 v;
    }

    -- The bytes copied to the bounce buffer are there at the gate.
    sent :
        (w : Dos D) (data_ : Bytes)
        → IsReady machine linear_of w
        → length data_ ≤ 1024
        → let ram = poke_all machine.writable (w.bounce_linear + 1024) data_ w.ram in
          peek_all
            (length data_)
            (w.bounce_linear + 1024)
            (armed machine linear_of (record w { ram = ram }))
          ≡ data_
    sent w data_ v fits =
        let apart = v.apart in
        let off : (w.bounce_linear + 1024 + length data_ ≤ w.thunk_linear)
            ⊎ (w.thunk_linear + 3 ≤ w.bounce_linear + 1024) =
          ground (arith, apart) in
        armed_outside machine linear_of (length data_) (w.bounce_linear + 1024) _ off
        ∙ peek_all-poke_all machine.writable data_ (w.bounce_linear + 1024) w.ram
            (λ x lo hi. v.bounce x (omega arith) (omega arith))

    with_ram :
        (w : Dos D) (ram : Ram)
        → IsReady machine linear_of w
        → IsReady machine linear_of (record w { ram = ram })
    with_ram w ram v = kept machine linear_of w ram w.dev v

    -- A write of a size that fits the buffer.
    write_once :
        (fd n m : ℕ) (buf : Bytes) (w : Dos D) (f : OpenFile)
        → IsDos
        → IsReady machine linear_of w
        → m ≤ n
        → 0 < m
        → m ≤ 1024
        → m ≤ length buf
        → f.pos ≤ length f.contents
        → view w.dev fd ≡ some f
        → let w1 = record w {
          ram = poke_all machine.writable (w.bounce_linear + 1024) (take m buf) w.ram;
        } in
          let out = int21_call machine (transfer 0x4000 fd m w) w1 in
          Put fd n buf f (answer out.0, out.1)
    write_once fd n m buf w f laws v le some_bytes small fits inside h =
        let w1 = record w {
          ram = poke_all machine.writable (w.bounce_linear + 1024) (take m buf) w.ram;
        } in
        let v1 = with_ram w w1.ram v in
        let (code, target) = at_gate 0x4000 fd m w1 v1 in
        let rm = enter machine (transfer 0x4000 fd m w1) w1 in
        let out = machine.gate rm (armed machine linear_of w1, w1.dev) in
        let r : Writes fd m (w.bounce_linear + 1024) f (armed machine linear_of w1) out =
          unfold enter in
          rw target at (
            laws.writes rm (armed machine linear_of w1) w1.dev f code refl some_bytes (omega arith)
              inside h) in
        let size : length (take m buf) ≡ m = omega (arith, length-take m buf) in
        let there : peek_all m (w.bounce_linear + 1024) (armed machine linear_of w1) ≡ take m buf =
          rw size at (sent w (take m buf) v (omega arith)) in
        rw (int21_call-gate machine linear_of (transfer 0x4000 fd m w1) w1 v1)
          (Put-gate fd n m buf w1 f out v1 le fits there r)

    nothing_written :
        (fd n : ℕ) (buf : Bytes) (w : Dos D) (f : OpenFile)
        → IsReady machine linear_of w
        → view w.dev fd ≡ some f
        → Put fd n buf f (done 0, w)
    nothing_written fd n buf w f v h = record {
      count = 0;
      at_most = omega arith;
      answered = refl;
      written = h ∙ ap some (sym (after_write-nothing f));
      ready = v;
    }

    -- On a DOS that keeps files and in a ready state, `dos_write` of `n` bytes of a buffer that has as many, at a
    -- position within the file, answers with a count of at most `n`: the file has the first so many bytes of the
    -- buffer from its old position on, its position is behind them, and the state is ready again.
    pub dos_write-Put :
        (fd n : ℕ) (buf : Bytes) (w : Dos D) (f : OpenFile)
        → IsDos
        → IsReady machine linear_of w
        → n ≤ length buf
        → f.pos ≤ length f.contents
        → view w.dev fd ≡ some f
        → Put fd n buf f (dos_write machine fd buf n w)
    unfolding dos_write
    dos_write-Put fd n buf w f laws v fits inside h = elim (Bool-cases (n == 0)) [
      | inl e ↦ rw (has_bounce-ready machine linear_of w v, e) (nothing_written fd n buf w f v h)
      | inr e ↦
          rw (has_bounce-ready machine linear_of w v, e)
            (write_once fd n (clamp n) buf w f laws v (ground arith) (ground arith) (ground arith)
              (ground arith) inside h)
    ]
