-- ===== src/Shutil/Copying.antt =====
-- The copying loops of shutil_uc386dos.c, on a C library that keeps files.
use freedos_micro_python.Prelude.{
  ℕ, zero, suc, ◌+◌, ◌-◌, ◌≤◌, ◌<◌, min, ◌≡◌, ◌≢◌, ◌∙◌, sym, ap, refl, Option, some, [], ◌∷◌, arith,
  Bytes, length, take, drop, inl, inr, Result, ok, length-take, length-drop, take-append-drop,
}
use freedos_micro_python.Dos21.Disk.{OpenFile, left, after_write, after_write-nothing}
use freedos_micro_python.Files.Stretches.{
  drop-drop, Bytes-cases, after_write_twice, after_write_inside,
}
use freedos_micro_python.Shutil.{Libc, copy_buf_size, write_all, copy_stream}

nothing : (s : Bytes) → length s ≡ 0 → s ≡ []
nothing [] h = refl
nothing (c ∷ s) h = absurd (omega arith)

module _ {W : Type 0} (view : W → ℕ → Option OpenFile) where
  -- Other handles show what they showed.
  abbrev pub Others : ℕ → W → W → Type 0
  Others fd before after = (other : ℕ) → other ≢ fd → view after other ≡ view before other

  -- A read of at most `n` bytes: some, and none only at the end of the file.
  pub record Reads (fd n : ℕ) (w : W) (f : OpenFile) (out : Option Bytes × W) : Type 0 where
    pub count : ℕ
    pub within : count ≤ left f
    pub progress : 0 < left f → 0 < count
    pub bytes : out.0 ≡ some (take count (drop f.pos f.contents))
    pub moved : view out.1 fd ≡ some (record f { pos = f.pos + count })
    pub others : Others fd w out.1

  -- A write on a disk that is not full: some of the bytes.
  pub record Writes (fd : ℕ) (data_ : Bytes) (w : W) (f : OpenFile) (out : Option ℕ × W)
      : Type 0 where
    pub count : ℕ
    pub at_most : count < length data_
    pub answered : out.0 ≡ some (suc count)
    pub written : view out.1 fd ≡ some (after_write f (take (suc count) data_))
    pub others : Others fd w out.1

  module _ (libc : Libc W) where
    pub record IsFiles : Type 0 where
      pub reads :
          (fd : ℕ) (w : W) (f : OpenFile)
          → view w fd ≡ some f
          → Reads fd copy_buf_size w f (libc.c_read fd copy_buf_size w)
      pub writes :
          (fd : ℕ) (data_ : Bytes) (w : W) (f : OpenFile)
          → 0 < length data_
          → f.pos ≤ length f.contents
          → view w fd ≡ some f
          → Writes fd data_ w f (libc.c_write fd data_ w)

    -- All is written, and nothing else.
    pub record IsAll (fd : ℕ) (data_ : Bytes) (w : W) (f : OpenFile)
        (r : Option (Result {0} Unit) × W) : Type 0 where
      pub done_ : r.0 ≡ some (ok tt)
      pub written : view r.1 fd ≡ some (after_write f data_)
      pub others : Others fd w r.1

    write_all-IsAll :
        (fuel fd : ℕ) (data_ : Bytes) (w : W) (f : OpenFile)
        → IsFiles
        → f.pos ≤ length f.contents
        → view w fd ≡ some f
        → length data_ ≤ fuel
        → IsAll fd data_ w f (write_all libc fuel fd data_ w)
    unfolding write_all
    write_all-IsAll fuel fd [] w f laws inside h enough = record {
      done_ = refl;
      written = h ∙ ap some (sym (after_write-nothing f));
      others = λ other ne. refl;
    }
    write_all-IsAll zero fd (c ∷ buf) w f laws inside h enough = absurd (omega arith)
    write_all-IsAll (suc fuel) fd (c ∷ buf) w f laws inside h enough =
        let v = laws.writes fd (c ∷ buf) w f (omega arith) inside h in
        let first = take (suc v.count) (c ∷ buf) in
        let rest =
          write_all-IsAll fuel fd (drop v.count buf) (libc.c_write fd (c ∷ buf) w).1
            (after_write f first) laws (after_write_inside f first inside) v.written
            (omega (arith, length-drop v.count buf)) in
        simp (write_all, v.answered)
          (record {
            done_ = rest.done_;
            written =
                rest.written
                ∙ ap some (
                    after_write_twice f first (drop v.count buf) inside
                    ∙ ap (after_write f) (take-append-drop (suc v.count) (c ∷ buf)));
            others = λ other ne. rest.others other ne ∙ v.others other ne;
          })

    -- What copying leaves: the destination has what was left of the source, which is at its end.
    pub record IsCopied (src_fd dst_fd : ℕ) (f g : OpenFile) (r : Option (Result {0} Unit) × W)
        : Type 0 where
      pub done_ : r.0 ≡ some (ok tt)
      pub read : view r.1 src_fd ≡ some (record f { pos = f.pos + left f })
      pub written : view r.1 dst_fd ≡ some (after_write g (drop f.pos f.contents))

    at_end_of_source :
        (src_fd dst_fd : ℕ) (f g : OpenFile) (w : W)
        → left f ≡ 0
        → view w src_fd ≡ some f
        → view w dst_fd ≡ some g
        → IsCopied src_fd dst_fd f g (some (ok tt), w)
    at_end_of_source src_fd dst_fd f g w e hf hg =
        let still : f.pos + left f ≡ f.pos = omega arith in
        let rest : drop f.pos f.contents ≡ [] =
          nothing (drop f.pos f.contents) (omega (arith, length-drop f.pos f.contents)) in
        record {
          done_ = refl;
          read = rw still hf;
          written = hg ∙ ap some (sym (after_write-nothing g) ∙ ap (after_write g) (sym rest));
        }

    after_piece :
        (src_fd dst_fd n : ℕ) (f g : OpenFile) (r : Option (Result {0} Unit) × W)
        → n ≤ left f
        → g.pos ≤ length g.contents
        → IsCopied src_fd dst_fd
            (record f { pos = f.pos + n })
            (after_write g (take n (drop f.pos f.contents)))
            r
        → IsCopied src_fd dst_fd f g r
    after_piece src_fd dst_fd n f g r within inside i =
        let end : f.pos + n + (length f.contents - (f.pos + n)) ≡ f.pos + left f = omega arith in
        let piece = take n (drop f.pos f.contents) in
        record {
          done_ = i.done_;
          read = i.read ∙ rw end refl;
          written =
              i.written
              ∙ ap some (
                  after_write_twice g piece _ inside
                  ∙ ap (after_write g) (
                      rw (drop-drop f.pos n f.contents)
                        (take-append-drop n (drop f.pos f.contents))));
        }

    -- Between two different handles, on a C library whose reads and writes transfer at least one byte each until the
    -- source ends, and do not touch other handles, `copy_stream` ends with one round for each byte that is left
    -- and one more, and without an error: the source is at its end, and the destination has all that was left of
    -- it, written over its own bytes from its position on.
    pub copy_stream-IsCopied :
        (fuel src_fd dst_fd : ℕ) (f g : OpenFile) (w : W)
        → IsFiles
        → src_fd ≢ dst_fd
        → view w src_fd ≡ some f
        → view w dst_fd ≡ some g
        → g.pos ≤ length g.contents
        → left f < fuel
        → IsCopied src_fd dst_fd f g (copy_stream libc fuel src_fd dst_fd w)
    unfolding copy_stream
    copy_stream-IsCopied zero src_fd dst_fd f g w laws apart hf hg inside enough =
        absurd (omega arith)
    copy_stream-IsCopied (suc fuel) src_fd dst_fd f g w laws apart hf hg inside enough =
        let r = laws.reads src_fd w f hf in
        let piece = take r.count (drop f.pos f.contents) in
        let w1 = (libc.c_read src_fd copy_buf_size w).1 in
        let apart' : dst_fd ≢ src_fd = λ e. apart (sym e) in
        let size = length-take r.count (drop f.pos f.contents) in
        let room = length-drop f.pos f.contents in
        let hg1 : view w1 dst_fd ≡ some g = r.others dst_fd apart' ∙ hg in
        elim (Bytes-cases piece) [
          | inl nil ↦
              let size0 = ap length nil in
              let end : min r.count (left f) ≡ 0 = omega (arith, size, room, size0) in
              let empty : left f ≡ 0 = ground (arith, r.progress, r.within) in
              let same : f.pos + r.count ≡ f.pos = omega (arith, r.within) in
              simp (copy_stream, r.bytes, nil)
                (at_end_of_source src_fd dst_fd f g w1 empty (r.moved ∙ rw same refl) hg1)
          | inr (c, (cs, cons)) ↦
              let all =
                write_all-IsAll (length (c ∷ cs)) dst_fd (c ∷ cs) w1 g laws inside hg1
                  (omega arith) in
              let w2 = (write_all libc (length (c ∷ cs)) dst_fd (c ∷ cs) w1).1 in
              let some_read : 0 < r.count = omega (arith, size, ap length cons) in
              let rest =
                copy_stream-IsCopied fuel src_fd dst_fd (record f { pos = f.pos + r.count })
                  (after_write g (c ∷ cs)) w2 laws apart (all.others src_fd apart ∙ r.moved)
                  all.written (after_write_inside g (c ∷ cs) inside) (omega (arith, r.within)) in
              simp (copy_stream, r.bytes, cons, all.done_)
                (after_piece src_fd dst_fd r.count f g _ r.within inside (rw cons rest))
        ]
