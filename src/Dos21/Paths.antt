-- ===== src/Dos21/Paths.antt =====
-- The calls of dosint21_uc386dos.c that take a path.
use freedos_micro_python.Prelude.{
  ℕ, ◌+◌, ◌%◌, ◌^◌, ◌≤◌, ◌<◌, ◌≡◌, ◌∙◌, ap, Bool, false, none, some, [], ◌∷◌, ◌++◌, arith, Bytes,
  length, leb, ◌⊎◌, if◌then◌else◌, length-append,
}
use freedos_micro_python.Dos21.{
  Machine, Dos, Rmcs, Ram, poke_all, peek_all, int21_code, enter, Answer, failed, answer, path_call,
}
use freedos_micro_python.Dos21.Memory.{peek_all-poke_all}
use freedos_micro_python.Dos21.Calls.{
  IsReady, armed, int21_call-gate, armed-code, armed_outside, kept, has_bounce-ready,
}

module _ {D : Type 0} (machine : Machine D) (linear_of : ℕ → ℕ) where
  -- The path, copied to the start of the bounce buffer.
  abbrev pub with_path : Bytes → Dos D → Dos D
  with_path path w = record w {
    ram = poke_all machine.writable w.bounce_linear (path ++ 0 ∷ []) w.ram;
  }

  -- The registers that the gate gets.
  abbrev pub at_path : Rmcs → Bytes → Dos D → Rmcs
  at_path rm path w =
      enter machine (record rm { ds = w.bounce_seg % 2 ^ 16; edx = 0 }) (with_path path w)

  abbrev pub path_out : Rmcs → Bytes → Dos D → (Bool × Rmcs) × (Ram × D)
  path_out rm path w =
      machine.gate (at_path rm path w) (armed machine linear_of (with_path path w), w.dev)

  -- What a call with a path does: one call of the gate.
  pub record IsPathCall (rm : Rmcs) (path : Bytes) (w : Dos D) (r : Answer × Dos D) : Type 0 where
    pub answered :
        let out = path_out rm path w in r.0 ≡ answer (if out.0.0 then none else some out.0.1)
    pub after : let out = path_out rm path w in r.1 ≡ record w { ram = out.1.0; dev = out.1.1 }
    pub code :
        peek_all 3
          (linear_of (at_path rm path w).cs + (at_path rm path w).ip)
          (armed machine linear_of (with_path path w))
        ≡ int21_code
    pub named :
        peek_all
          (length path + 1)
          (linear_of (at_path rm path w).ds + (at_path rm path w).edx)
          (armed machine linear_of (with_path path w))
        ≡ path ++ 0 ∷ []

  -- On a ready state, a call with a path of less than 1024 bytes enters the gate once, with the bytes of
  -- INT 21h in place at CS:IP and the path with its terminator at DS:DX, and its answer
  -- and the state are those that the gate gives.
  pub path_call-IsPathCall :
      (rm : Rmcs) (path : Bytes) (w : Dos D)
      → IsReady machine linear_of w
      → length path < 1024
      → IsPathCall rm path w (path_call machine rm path w)
  unfolding path_call enter
  path_call-IsPathCall rm path w v short =
      let w1 = with_path path w in
      let v1 = kept machine linear_of w w1.ram w1.dev v in
      let rm1 = record rm { ds = w.bounce_seg % 2 ^ 16; edx = 0 } in
      let call = int21_call-gate machine linear_of rm1 w1 v1 in
      let fits : leb 1024 (length path) ≡ false = ground arith in
      let code : linear_of (w.thunk_seg % 2 ^ 16) + 0 ≡ w.thunk_linear =
        omega (arith, v.thunk_maps) in
      let target : linear_of (w.bounce_seg % 2 ^ 16) + 0 ≡ w.bounce_linear =
        omega (arith, v.bounce_maps) in
      let size : length (path ++ 0 ∷ []) ≡ length path + 1 = length-append path (0 ∷ []) in
      let apart = v.apart in
      let off : (w.bounce_linear + (length path + 1) ≤ w.thunk_linear)
          ⊎ (w.thunk_linear + 3 ≤ w.bounce_linear) =
        ground (arith, apart) in
      record {
        answered = rw (has_bounce-ready machine linear_of w v, fits) (ap (λ r. answer r.0) call);
        after = rw (has_bounce-ready machine linear_of w v, fits) (ap (λ r. r.1) call);
        code = rw code (armed-code machine linear_of w1 v1);
        named = rw target (
            armed_outside machine linear_of (length path + 1) w.bounce_linear w1 off
            ∙ rw size at (
                peek_all-poke_all machine.writable (path ++ 0 ∷ []) w.bounce_linear w.ram
                  (λ x lo hi. v.bounce x lo (omega (arith, size)))));
      }

  -- A longer path is refused, and nothing is called.
  pub path_call_long :
      (rm : Rmcs) (path : Bytes) (w : Dos D)
      → 1024 ≤ length path
      → path_call machine rm path w ≡ (failed 0, w)
  unfolding path_call
  path_call_long rm path w long = ground arith
