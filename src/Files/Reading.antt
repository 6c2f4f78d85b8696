-- ===== src/Files/Reading.antt =====
-- The loops of file_uc386dos.c that read and write in pieces, on a DOS that keeps files.
use freedos_micro_python.Prelude.{
  ℕ, zero, suc, ◌+◌, ◌-◌, ◌≤◌, ◌<◌, min, ◌≡◌, ◌∙◌, ap, refl, true, Option, some, [], ◌∷◌, ◌++◌,
  arith, Bytes, length, take, drop, ltb, inl, inr, Bool-cases, append_assoc, append-nil,
  length-append, length-take, length-drop,
}
use freedos_micro_python.Files.Stretches.{drop-drop, take_empty, take_more, Bytes-cases}
use freedos_micro_python.Dos21.{Machine, Dos, dos_read}
use freedos_micro_python.Dos21.Disk.{OpenFile, left, IsDos, dos_read-Got}
use freedos_micro_python.Dos21.Calls.{IsReady}
use freedos_micro_python.Files.{File, Stream, streamed, read_loop, file_read}

module _ {D : Type 0} (machine : Machine D) where
  read_loop_stop :
      (fuel fd size : ℕ) (got : Bytes) (w : Dos D)
      → size ≤ length got
      → read_loop machine fuel fd size got w ≡ (some (streamed got), w)
  unfolding read_loop
  read_loop_stop zero fd size got w h = ground arith
  read_loop_stop (suc fuel) fd size got w h = ground arith

  read_loop_eof :
      (fuel fd size : ℕ) (got : Bytes) (w : Dos D)
      → length got < size
      → (dos_read machine fd (size - length got) w).0.0 ≡ some []
      → read_loop machine (suc fuel) fd size got w
        ≡ (some (streamed got), (dos_read machine fd (size - length got) w).1)
  unfolding read_loop
  read_loop_eof fuel fd size got w h e =
      let inside : ltb (length got) size ≡ true = ground arith in rw (read_loop, inside, e) refl

  read_loop_next :
      (fuel fd size : ℕ) (got : Bytes) (w : Dos D) (c : ℕ) (cs : Bytes)
      → length got < size
      → (dos_read machine fd (size - length got) w).0.0 ≡ some (c ∷ cs)
      → read_loop machine (suc fuel) fd size got w
        ≡ read_loop machine fuel fd size
            (got ++ c ∷ cs)
            (dos_read machine fd (size - length got) w).1
  unfolding read_loop
  read_loop_next fuel fd size got w c cs h e =
      let inside : ltb (length got) size ≡ true = ground arith in rw (read_loop, inside, e) refl

module _ {D : Type 0} (view : D → ℕ → Option OpenFile) (machine : Machine D)
    (linear_of : ℕ → ℕ) where
  -- What a read of `size` bytes leaves, of which the buffer had `got`.
  pub record IsRead (size fd : ℕ) (got : Bytes) (f : OpenFile) (r : Option (Stream Bytes) × Dos D)
      : Type 0 where
    pub bytes : r.0 ≡ some (streamed (got ++ take (size - length got) (drop f.pos f.contents)))
    pub moved : view r.1.dev fd ≡ some (record f { pos = f.pos + min (size - length got) (left f) })
    pub ready : IsReady machine linear_of r.1

  -- Nothing is missing, or nothing is left.
  all-IsRead :
      (fd size : ℕ) (got : Bytes) (w : Dos D) (f : OpenFile)
      → IsReady machine linear_of w
      → view w.dev fd ≡ some f
      → min (size - length got) (left f) ≡ 0
      → IsRead size fd got f (some (streamed got), w)
  all-IsRead fd size got w f v h e =
      let still : f.pos + min (size - length got) (left f) ≡ f.pos = omega arith in
      let rest : take (size - length got) (drop f.pos f.contents) ≡ [] =
        take_empty (size - length got) (drop f.pos f.contents)
          (omega (arith, length-drop f.pos f.contents)) in
      record { bytes = rw (rest, append-nil got); moved = rw still h; ready = v }

  advance :
      (fd size n : ℕ) (got : Bytes) (f : OpenFile) (r : Option (Stream Bytes) × Dos D)
      → n ≤ size - length got
      → n ≤ left f
      → IsRead size fd (got ++ take n (drop f.pos f.contents)) (record f { pos = f.pos + n }) r
      → IsRead size fd got f r
  advance fd size n got f r small within i =
      let len : size - length (got ++ take n (drop f.pos f.contents)) ≡ size - length got - n =
        omega (
          arith,
          length-append got (take n (drop f.pos f.contents)),
          length-take n (drop f.pos f.contents),
          length-drop f.pos f.contents,
        ) in
      let end : f.pos + n + min (size - length got - n) (length f.contents - (f.pos + n))
          ≡ f.pos + min (size - length got) (left f) =
        omega arith in
      record {
        bytes =
            i.bytes
            ∙ ap (λ t. some (streamed t))
                (append_assoc got (take n (drop f.pos f.contents)) _
                  ∙ ap (λ t. got ++ t)
                      (rw (len, drop-drop f.pos n f.contents)
                        (take_more n (size - length got) (drop f.pos f.contents) small)));
        moved = i.moved ∙ rw (len, end);
        ready = i.ready;
      }

  read_loop-IsRead :
      (fuel fd size : ℕ) (got : Bytes) (w : Dos D) (f : OpenFile)
      → IsDos view machine linear_of
      → IsReady machine linear_of w
      → view w.dev fd ≡ some f
      → size - length got ≤ fuel
      → IsRead size fd got f (read_loop machine fuel fd size got w)
  read_loop-IsRead zero fd size got w f laws v h enough =
      rw (read_loop_stop machine zero fd size got w (omega arith))
        (all-IsRead fd size got w f v h (omega arith))
  read_loop-IsRead (suc fuel) fd size got w f laws v h enough =
      elim (Bool-cases (ltb (length got) size)) [
        | inl e ↦
            let g = dos_read-Got view machine linear_of fd (size - length got) w f laws v h in
            elim (Bytes-cases (take g.count (drop f.pos f.contents))) [
              | inl nil ↦
                  let size0 : min g.count (left f) ≡ 0 = omega (
                    arith,
                    length-take g.count (drop f.pos f.contents),
                    length-drop f.pos f.contents,
                    ap length nil,
                  ) in
                  let count0 : g.count ≡ 0 = omega (arith, g.within) in
                  let same : f.pos + g.count ≡ f.pos = omega arith in
                  rw
                    (read_loop_eof machine fuel fd size got w (ground arith)
                      (g.bytes ∙ ap some nil))
                    (all-IsRead fd size got _ f g.ready (rw same at g.moved)
                      (ground (arith, g.progress)))
              | inr (c, (cs, cons)) ↦
                  let some_read : 0 < g.count =
                    omega (arith, length-take g.count (drop f.pos f.contents), ap length cons) in
                  advance fd size g.count got f _ g.at_most g.within (
                    rw
                      (
                        read_loop_next machine fuel fd size got w c cs (ground arith)
                            (g.bytes ∙ ap some cons),
                        cons,
                      )
                      (read_loop-IsRead fuel fd size (got ++ c ∷ cs) _
                        (record f { pos = f.pos + g.count }) laws g.ready g.moved
                        (omega (arith, length-append got (c ∷ cs)))))
            ]
        | inr e ↦
            rw (read_loop_stop machine (suc fuel) fd size got w (ground arith))
              (all-IsRead fd size got w f v h (ground arith))
      ]

  -- On a DOS that keeps files, `file_read` of any size on an open object, in a state where the thunk and the
  -- bounce buffer are ready, needs no more rounds than `size` and has no error: it returns the next
  -- `size` bytes of the file, or what is left of it where that is less, although DOS is asked for at
  -- most 1024 bytes at once and may give fewer; the file's position moves by as much, and the state is ready again.
  pub file_read-IsRead :
      (o : File) (fd size : ℕ) (w : Dos D) (f : OpenFile)
      → IsDos view machine linear_of
      → IsReady machine linear_of w
      → o.fd ≡ some fd
      → view w.dev fd ≡ some f
      → IsRead size fd [] f (file_read machine o size w)
  unfolding file_read
  file_read-IsRead o fd size w f laws v e h =
      rw e (read_loop-IsRead size fd size [] w f laws v h (omega arith))
