-- ===== src/Files/Writing.antt =====
-- The loop of file_uc386dos.c that writes in pieces, on a DOS that keeps files.
use freedos_micro_python.Prelude.{
  ℕ, zero, suc, ◌+◌, ◌-◌, ◌≤◌, ◌<◌, ◌≡◌, ◌∙◌, ap, refl, true, Option, some, arith, Bytes, length,
  take, drop, ltb, ◌⊎◌, inl, inr, Bool-cases, length-drop,
}
use freedos_micro_python.Dos21.{Machine, Dos, done, dos_write}
use freedos_micro_python.Dos21.Disk.{
  OpenFile, IsDos, dos_write-Put, after_write, after_write-nothing,
}
use freedos_micro_python.Dos21.Calls.{IsReady}
use freedos_micro_python.Files.{File, Stream, streamed, write_loop, file_write}
use freedos_micro_python.Files.Stretches.{
  drop-drop, take_more, after_write_twice, after_write_inside,
}

module _ {D : Type 0} (machine : Machine D) where
  write_loop_stop :
      (fuel fd : ℕ) (buf : Bytes) (size total : ℕ) (w : Dos D)
      → size ≤ total
      → write_loop machine fuel fd buf size total w ≡ (some (streamed total), w)
  unfolding write_loop
  write_loop_stop zero fd buf size total w h = ground arith
  write_loop_stop (suc fuel) fd buf size total w h = ground arith

  write_loop_full :
      (fuel fd : ℕ) (buf : Bytes) (size total : ℕ) (w : Dos D)
      → total < size
      → (dos_write machine fd (drop total buf) (size - total) w).0 ≡ done 0
      → write_loop machine (suc fuel) fd buf size total w
        ≡ (some (streamed total), (dos_write machine fd (drop total buf) (size - total) w).1)
  unfolding write_loop
  write_loop_full fuel fd buf size total w h e =
      let inside : ltb total size ≡ true = ground arith in rw (write_loop, inside, e) refl

  write_loop_next :
      (fuel fd : ℕ) (buf : Bytes) (size total n : ℕ) (w : Dos D)
      → total < size
      → (dos_write machine fd (drop total buf) (size - total) w).0 ≡ done (suc n)
      → write_loop machine (suc fuel) fd buf size total w
        ≡ write_loop machine fuel fd buf size
            (total + suc n)
            (dos_write machine fd (drop total buf) (size - total) w).1
  unfolding write_loop
  write_loop_next fuel fd buf size total n w h e =
      let inside : ltb total size ≡ true = ground arith in rw (write_loop, inside, e) refl

ℕ-cases : (n : ℕ) → (n ≡ 0) ⊎ ((m : ℕ) × (n ≡ suc m))
ℕ-cases zero = inl refl
ℕ-cases (suc m) = inr (m, refl)

module _ {D : Type 0} (view : D → ℕ → Option OpenFile) (machine : Machine D)
    (linear_of : ℕ → ℕ) where
  -- What a write of `size` bytes leaves, of which `total` were written before.
  pub record IsWritten (fd : ℕ) (buf : Bytes) (size total : ℕ) (f : OpenFile)
      (r : Option (Stream ℕ) × Dos D) : Type 0 where
    pub count : ℕ
    pub at_least : total ≤ count
    pub at_most : count ≤ size
    pub answered : r.0 ≡ some (streamed count)
    pub written : view r.1.dev fd ≡ some (after_write f (take (count - total) (drop total buf)))
    pub ready : IsReady machine linear_of r.1

  all-IsWritten :
      (fd : ℕ) (buf : Bytes) (size total : ℕ) (w : Dos D) (f : OpenFile)
      → IsReady machine linear_of w
      → total ≤ size
      → view w.dev fd ≡ some f
      → IsWritten fd buf size total f (some (streamed total), w)
  all-IsWritten fd buf size total w f v le h =
      let none_new : total - total ≡ 0 = omega arith in
      record {
        count = total;
        at_least = omega arith;
        at_most = le;
        answered = refl;
        written = rw (none_new, after_write-nothing f) h;
        ready = v;
      }

  advance :
      (fd : ℕ) (buf : Bytes) (size total n : ℕ) (f : OpenFile) (r : Option (Stream ℕ) × Dos D)
      → f.pos ≤ length f.contents
      → IsWritten fd buf size (total + n) (after_write f (take n (drop total buf))) r
      → IsWritten fd buf size total f r
  advance fd buf size total n f r inside i =
      let rest : i.count - (total + n) ≡ i.count - total - n = omega arith in
      record {
        count = i.count;
        at_least = omega (arith, i.at_least);
        at_most = i.at_most;
        answered = i.answered;
        written =
            i.written
            ∙ ap some (
                after_write_twice f (take n (drop total buf)) _ inside
                ∙ ap (after_write f) (
                    rw (rest, drop-drop total n buf)
                      (take_more n (i.count - total) (drop total buf)
                        (omega (arith, i.at_least)))));
        ready = i.ready;
      }

  write_loop-IsWritten :
      (fuel fd : ℕ) (buf : Bytes) (size total : ℕ) (w : Dos D) (f : OpenFile)
      → IsDos view machine linear_of
      → IsReady machine linear_of w
      → size ≤ length buf
      → total ≤ size
      → f.pos ≤ length f.contents
      → view w.dev fd ≡ some f
      → size - total ≤ fuel
      → IsWritten fd buf size total f (write_loop machine fuel fd buf size total w)
  write_loop-IsWritten zero fd buf size total w f laws v fits le inside h enough =
      rw (write_loop_stop machine zero fd buf size total w (omega arith))
        (all-IsWritten fd buf size total w f v le h)
  write_loop-IsWritten (suc fuel) fd buf size total w f laws v fits le inside h enough =
      elim (Bool-cases (ltb total size)) [
        | inl e ↦
            let p =
              dos_write-Put view machine linear_of fd (size - total) (drop total buf) w f laws v
                (omega (arith, length-drop total buf)) inside h in
            elim (ℕ-cases p.count) [
              | inl none_taken ↦
                  rw
                    (write_loop_full machine fuel fd buf size total w (ground arith)
                      (p.answered ∙ ap done none_taken))
                    (all-IsWritten fd buf size total _ f p.ready le
                      (p.written ∙ ap some (rw none_taken (after_write-nothing f))))
              | inr (n, some_taken) ↦ advance fd buf size total (suc n) f _ inside (
                  rw
                    (write_loop_next machine fuel fd buf size total n w (ground arith)
                      (p.answered ∙ ap done some_taken))
                    (write_loop-IsWritten fuel fd buf size (total + suc n) _
                      (after_write f (take (suc n) (drop total buf))) laws p.ready fits
                      (omega (arith, p.at_most))
                      (after_write_inside f (take (suc n) (drop total buf)) inside)
                      (rw some_taken at p.written) (omega arith)))
            ]
        | inr e ↦
            rw (write_loop_stop machine (suc fuel) fd buf size total w (ground arith))
              (all-IsWritten fd buf size total w f v le h)
      ]

  -- On a DOS that keeps files, `file_write` of the first `size` bytes of a buffer that has as many, on
  -- an open object whose position is within the file and in a ready state, needs no more rounds than
  -- `size` and has no error: it returns a count of at most `size`, and the file has the first so many bytes of the
  -- buffer written over its own, from the old position on, and its position behind them. A full disk may take fewer than `size`.
  pub file_write-IsWritten :
      (o : File) (fd : ℕ) (buf : Bytes) (size : ℕ) (w : Dos D) (f : OpenFile)
      → IsDos view machine linear_of
      → IsReady machine linear_of w
      → o.fd ≡ some fd
      → size ≤ length buf
      → f.pos ≤ length f.contents
      → view w.dev fd ≡ some f
      → IsWritten fd buf size 0 f (file_write machine o buf size w)
  unfolding file_write
  file_write-IsWritten o fd buf size w f laws v e fits inside h =
      rw e (
        write_loop-IsWritten size fd buf size 0 w f laws v fits (omega arith) inside h
          (omega arith))
