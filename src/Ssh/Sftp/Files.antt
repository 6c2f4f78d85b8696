-- ===== src/Ssh/Sftp/Files.antt =====
-- Reads and writes of a remote file in modssh_uc386dos.c, on a server that keeps files.
use freedos_micro_python.Prelude.{
  ℕ, zero, suc, ◌-◌, ◌≤◌, ◌<◌, ◌≡◌, ◌∙◌, sym, ap, refl, true, false, Bool-cases, ◌⊎◌, inl, inr,
  Option, none, some, [], ◌∷◌, ◌++◌, append-nil, append_assoc, Bytes, length, take, drop,
  length-append, length-drop, take-append-drop, ltb, ◌==◌, arith,
}
use freedos_micro_python.Ssh.{Libssh2, received_none, received, sent, replied}
use freedos_micro_python.Ssh.Sftp.{
  SftpCalls, SftpFile, chunk_of, less, Reading, read_all, done_with, sftp_read_loop, sftp_file_read,
  sftp_write_loop, sftp_file_write,
}

take-append :
    (n : ℕ) (xs ys : Bytes) → length xs ≤ n → take n (xs ++ ys) ≡ xs ++ take (n - length xs) ys
take-append n [] ys h = ap (λ k. take k ys) (omega arith)
take-append zero (x ∷ xs) ys h = absurd (omega arith)
take-append (suc n) (x ∷ xs) ys h =
    let shift : n - length xs ≡ suc n - suc (length xs) = omega arith in
    ap (λ t. x ∷ t) (take-append n xs ys (omega arith) ∙ ap (λ k. xs ++ take k ys) shift)

drop-append : (n : ℕ) (xs ys : Bytes) → length xs ≤ n → drop n (xs ++ ys) ≡ drop (n - length xs) ys
drop-append n [] ys h = ap (λ k. drop k ys) (omega arith)
drop-append zero (x ∷ xs) ys h = absurd (omega arith)
drop-append (suc n) (x ∷ xs) ys h =
    let shift : n - length xs ≡ suc n - suc (length xs) = omega arith in
    drop-append n xs ys (omega arith) ∙ ap (λ k. drop k ys) shift

-- What a read of a size, or with none, takes of a text, and what it leaves.
abbrev pub taken : Option ℕ → Bytes → Bytes
taken none s = s
taken (some n) s = take n s

abbrev pub kept : Option ℕ → Bytes → Bytes
kept none s = []
kept (some n) s = drop n s

less_end :
    (n k : ℕ)
    → ltb (suc n) k ≡ false
    → (suc n - k == 0) ≡ true
    → less (some (suc n)) k ≡ (some 0, false)
unfolding less
less_end n k within full = ground arith

less_more :
    (n k : ℕ)
    → ltb (suc n) k ≡ false
    → (suc n - k == 0) ≡ false
    → less (some (suc n)) k ≡ (some (suc n - k), true)
unfolding less
less_more n k within more = ground arith

module _ {W : Type 0} (lib : Libssh2 W) (calls : SftpCalls W) (rest : W → ℕ → Bytes) where
  -- `rest` is what a file has behind its position. A read gives a piece of it, of the size at most, and nothing
  -- only at the end or where nothing is asked for.
  pub record IsServing : Type 0 where
    pub served :
        (w : W) (h want : ℕ)
        → 0 < want
        → (((calls.read h want w).0 ≡ received_none)
            × (rest w h ≡ [])
            × (rest (calls.read h want w).1 h ≡ []))
          ⊎ ((c : ℕ) × (cs : Bytes) × ((calls.read h want w).0 ≡ received c cs)
              × (length (c ∷ cs) ≤ want)
              × (rest w h ≡ (c ∷ cs) ++ rest (calls.read h want w).1 h))
    pub nothing_asked :
        (w : W) (h : ℕ)
        → ((calls.read h 0 w).0 ≡ received_none) × (rest (calls.read h 0 w).1 h ≡ rest w h)

  record IsLoop (h : ℕ) (lim : Option ℕ) (got : Bytes) (w : W) (r : Reading × W) : Type 0 where
    loaded : r.0 ≡ read_all (got ++ taken lim (rest w h))
    left : rest r.1 h ≡ kept lim (rest w h)

  last-IsLoop :
      (fuel h : ℕ) (lim : Option ℕ) (got : Bytes) (w : W)
      → (calls.read h (chunk_of lim) w).0 ≡ received_none
      → taken lim (rest w h) ≡ []
      → rest (calls.read h (chunk_of lim) w).1 h ≡ kept lim (rest w h)
      → IsLoop h lim got w (sftp_read_loop lib calls (suc fuel) h lim got w)
  unfolding sftp_read_loop
  last-IsLoop fuel h lim got w e nothing same =
      simp (sftp_read_loop, e)
        (record {
          loaded = ap read_all (sym (append-nil got) ∙ ap (λ t. got ++ t) (sym nothing));
          left = same;
        })

  next-IsLoop :
      (fuel h : ℕ) (lim next : Option ℕ) (got : Bytes) (w : W) (c : ℕ) (cs : Bytes)
      → (calls.read h (chunk_of lim) w).0 ≡ received c cs
      → less lim (length (c ∷ cs)) ≡ (next, true)
      → taken lim (rest w h) ≡ (c ∷ cs) ++ taken next (rest (calls.read h (chunk_of lim) w).1 h)
      → kept lim (rest w h) ≡ kept next (rest (calls.read h (chunk_of lim) w).1 h)
      → IsLoop h next
          (got ++ c ∷ cs)
          (calls.read h (chunk_of lim) w).1
          (sftp_read_loop lib calls fuel h next (got ++ c ∷ cs) (calls.read h (chunk_of lim) w).1)
      → IsLoop h lim got w (sftp_read_loop lib calls (suc fuel) h lim got w)
  unfolding sftp_read_loop
  next-IsLoop fuel h lim next got w c cs e l t k ih =
      simp (sftp_read_loop, e, l)
        (record {
          loaded =
              ih.loaded ∙ ap read_all (append_assoc got (c ∷ cs) _ ∙ ap (λ x. got ++ x) (sym t));
          left = ih.left ∙ sym k;
        })

  -- A read that takes all that is left of the size.
  full-IsLoop :
      (fuel h n : ℕ) (got : Bytes) (w : W) (c : ℕ) (cs : Bytes)
      → (calls.read h (chunk_of (some (suc n))) w).0 ≡ received c cs
      → less (some (suc n)) (length (c ∷ cs)) ≡ (some 0, false)
      → take (suc n) (rest w h) ≡ c ∷ cs
      → drop (suc n) (rest w h) ≡ rest (calls.read h (chunk_of (some (suc n))) w).1 h
      → IsLoop h (some (suc n)) got w (sftp_read_loop lib calls (suc fuel) h (some (suc n)) got w)
  unfolding sftp_read_loop
  full-IsLoop fuel h n got w c cs e l t k =
      simp (sftp_read_loop, e, l)
        (record { loaded = ap (λ x. read_all (got ++ x)) (sym t); left = sym k })

  chunk_bounds : (n : ℕ) → (0 < chunk_of (some (suc n))) × (chunk_of (some (suc n)) ≤ suc n)
  unfolding chunk_of
  chunk_bounds n = ground arith

  shorter :
      (fuel h : ℕ) (w w1 : W) (c : ℕ) (cs : Bytes)
      → rest w h ≡ (c ∷ cs) ++ rest w1 h
      → length (rest w h) < suc fuel
      → length (rest w1 h) < fuel
  shorter fuel h w w1 c cs e enough = omega (arith, ap length e, length-append (c ∷ cs) (rest w1 h))

  sftp_read_loop-IsLoop :
      (fuel h : ℕ) (lim : Option ℕ) (got : Bytes) (w : W)
      → IsServing
      → length (rest w h) < fuel
      → IsLoop h lim got w (sftp_read_loop lib calls fuel h lim got w)
  unfolding chunk_of less
  sftp_read_loop-IsLoop zero h lim got w laws enough = absurd (omega arith)
  sftp_read_loop-IsLoop (suc fuel) h none got w laws enough =
      elim (laws.served w h 1024 (omega arith)) [
        | inl (e, before, after) ↦ last-IsLoop fuel h none got w e before after
        | inr (c, cs, e, fits, whole) ↦
            let w1 = (calls.read h 1024 w).1 in
            next-IsLoop fuel h none none got w c cs e refl whole refl (
              sftp_read_loop-IsLoop fuel h none (got ++ c ∷ cs) w1 laws
                (shorter fuel h w w1 c cs whole enough))
      ]
  sftp_read_loop-IsLoop (suc fuel) h (some zero) got w laws enough =
      let (e, same) = laws.nothing_asked w h in last-IsLoop fuel h (some zero) got w e refl same
  sftp_read_loop-IsLoop (suc fuel) h (some (suc n)) got w laws enough =
      let want = chunk_of (some (suc n)) in
      let w1 = (calls.read h want w).1 in
      elim (laws.served w h want (chunk_bounds n).0) [
        | inl (e, before, after) ↦
            last-IsLoop fuel h (some (suc n)) got w e (ap (take (suc n)) before)
              (after ∙ sym (ap (drop (suc n)) before))
        | inr (c, cs, e, fits, whole) ↦
            let k = length (c ∷ cs) in
            let small : k ≤ suc n = omega (arith, fits, chunk_bounds n) in
            let within : ltb (suc n) k ≡ false = ground arith in
            let t : take (suc n) (rest w h) ≡ (c ∷ cs) ++ take (suc n - k) (rest w1 h) =
              ap (take (suc n)) whole ∙ take-append (suc n) (c ∷ cs) (rest w1 h) small in
            let d : drop (suc n) (rest w h) ≡ drop (suc n - k) (rest w1 h) =
              ap (drop (suc n)) whole ∙ drop-append (suc n) (c ∷ cs) (rest w1 h) small in
            elim (Bool-cases (suc n - k == 0)) [
              | inl full ↦
                  let none_left : suc n - k ≡ 0 = ground arith in
                  full-IsLoop fuel h n got w c cs e (less_end n k within full)
                    (t ∙ ap (λ m. (c ∷ cs) ++ take m (rest w1 h)) none_left ∙ append-nil (c ∷ cs))
                    (d ∙ ap (λ m. drop m (rest w1 h)) none_left)
              | inr more ↦
                  next-IsLoop fuel h (some (suc n)) (some (suc n - k)) got w c cs e
                    (less_more n k within more) t d
                    (sftp_read_loop-IsLoop fuel h (some (suc n - k)) (got ++ c ∷ cs) w1 laws
                      (shorter fuel h w w1 c cs whole enough))
            ]
      ]

  -- On a server that keeps files, a read of an open file, of a size or with none, gives exactly the next bytes of the file, up
  -- to the size or to its end, however the server cuts them into pieces, and leaves the file behind
  -- them; one round more than the file has bytes is enough.
  pub sftp_file_read-taken :
      (fuel h : ℕ) (lim : Option ℕ) (self : SftpFile) (w : W)
      → IsServing
      → self.file_handle ≡ some h
      → length (rest w h) < fuel
      → ((sftp_file_read lib calls fuel lim self w).0 ≡ done_with (replied (taken lim (rest w h))))
        × (rest (sftp_file_read lib calls fuel lim self w).1 h ≡ kept lim (rest w h))
  unfolding sftp_file_read
  sftp_file_read-taken fuel h lim self w laws e enough =
      let loop = sftp_read_loop-IsLoop fuel h lim [] w laws enough in
      simp (sftp_file_read, e, loop.loaded) (refl, loop.left)

module _ {W : Type 0} (lib : Libssh2 W) (calls : SftpCalls W) (written : W → ℕ → Bytes) where
  -- A write stores some bytes, as many as it says, behind those that are there.
  pub record IsStoring : Type 0 where
    pub stores :
        (w : W) (h c : ℕ) (cs : Bytes)
        → (n : ℕ) × ((calls.write h (c ∷ cs) w).0 ≡ sent (suc n))
          × (suc n ≤ length (c ∷ cs))
          × (written (calls.write h (c ∷ cs) w).1 h ≡ written w h ++ take (suc n) (c ∷ cs))

  sftp_write_loop-stored :
      (fuel h : ℕ) (input : Bytes) (w : W)
      → IsStoring
      → length input ≤ fuel
      → ((sftp_write_loop lib calls fuel h input w).0 ≡ read_all [])
        × (written (sftp_write_loop lib calls fuel h input w).1 h ≡ written w h ++ input)
  unfolding sftp_write_loop
  sftp_write_loop-stored fuel h [] w laws enough = (refl, sym (append-nil (written w h)))
  sftp_write_loop-stored zero h (c ∷ cs) w laws enough = absurd (omega arith)
  sftp_write_loop-stored (suc fuel) h (c ∷ cs) w laws enough =
      let (n, e, fits, grown) = laws.stores w h c cs in
      let w1 = (calls.write h (c ∷ cs) w).1 in
      let left = drop (suc n) (c ∷ cs) in
      let some_sent : (suc n == 0) ≡ false = ground arith in
      let (done_, all) =
        sftp_write_loop-stored fuel h left w1 laws (omega (arith, length-drop (suc n) (c ∷ cs))) in
      simp (sftp_write_loop, e, some_sent)
        (
          done_,
          all
              ∙ ap (λ t. t ++ left) grown
              ∙ append_assoc (written w h) (take (suc n) (c ∷ cs)) left
              ∙ ap (λ t. written w h ++ t) (take-append-drop (suc n) (c ∷ cs)),
        )

  -- On a server that stores at least a byte of each write, a write to an open file stores the whole input, in
  -- order, behind what was written before, however the server cuts it, and returns its length; one round for
  -- each byte is enough.
  pub sftp_file_write-stored :
      (fuel h : ℕ) (input : Bytes) (self : SftpFile) (w : W)
      → IsStoring
      → self.file_handle ≡ some h
      → length input ≤ fuel
      → ((sftp_file_write lib calls fuel input self w).0 ≡ done_with (replied (length input)))
        × (written (sftp_file_write lib calls fuel input self w).1 h ≡ written w h ++ input)
  unfolding sftp_file_write
  sftp_file_write-stored fuel h input self w laws e enough =
      let (done_, all) = sftp_write_loop-stored fuel h input w laws enough in
      let whole : length input - 0 ≡ length input = omega arith in
      simp (sftp_file_write, e, done_) (ap (λ n. done_with (replied n)) whole, all)
