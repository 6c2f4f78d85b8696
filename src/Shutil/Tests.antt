-- ===== src/Shutil/Tests.antt =====
-- A run of copying on a small C library: each handle has a file of its own, and a call transfers at most
-- three bytes.
use freedos_micro_python.Prelude.{
  ℕ, suc, ◌+◌, ◌-◌, ◌<◌, min, ◌≡◌, ◌≢◌, sym, ap, refl, true, false, Option, none, some, [], Bytes,
  codes, length, take, drop, ◌==◌, if◌then◌else◌, arith, raised, os_error, enoent,
}
use mathlib.Core.Path.{subst}
use freedos_micro_python.Dos21.Disk.{OpenFile, left, after_write}
use freedos_micro_python.Shutil.{Libc, copy_buf_size, copy_stream, copyfile}
use freedos_micro_python.Shutil.Copying.{Reads, Writes, IsFiles, IsCopied, copy_stream-IsCopied}

abbrev Handles : Type 0
Handles = ℕ → OpenFile

abbrev seen : Handles → ℕ → Option OpenFile
seen w fd = some (w fd)

abbrev set : ℕ → OpenFile → Handles → Handles
set fd f w x = if x == fd then f else w x

set-same : (fd : ℕ) (f : OpenFile) (w : Handles) → set fd f w fd ≡ f
set-same fd f w = ground arith

set-other : (fd other : ℕ) (f : OpenFile) (w : Handles) → other ≢ fd → set fd f w other ≡ w other
set-other fd other f w ne = ground arith

abbrev small : Libc Handles
small = record {
  c_open = λ path flags w. (none, w);
  c_close = λ fd w. (tt, w);
  c_read = λ fd n w.
      let f = w fd in
      let count = min (min n 3) (left f) in
      (some (take count (drop f.pos f.contents)), set fd (record f { pos = f.pos + count }) w);
  c_write = λ fd data_ w.
      let count = min (length data_) 3 in
      (some count, set fd (after_write (w fd) (take count data_)) w);
  c_rename = λ old new w. (false, w);
  c_unlink = λ path w. (true, w);
}

copyfile_missing :
    (copyfile small 1 (codes "A") (codes "B") (λ x. record { contents = []; pos = 0 })).0
    ≡ some (raised (os_error enoent))
unfolding copyfile
copyfile_missing = refl

abbrev inside : OpenFile → Option OpenFile → OpenFile
inside f none = f
inside f (some g) = g

small_read :
    (fd : ℕ) (w : Handles) → Reads seen fd copy_buf_size w (w fd) (small.c_read fd copy_buf_size w)
small_read fd w =
    let f = w fd in
    let count = min (min copy_buf_size 3) (left f) in
    record {
      count = count;
      within = omega arith;
      progress = λ some_left. omega arith;
      bytes = refl;
      moved = ap some (set-same fd (record f { pos = f.pos + count }) w);
      others = λ other ne. ap some (set-other fd other (record f { pos = f.pos + count }) w ne);
    }

small_write :
    (fd : ℕ) (data_ : Bytes) (w : Handles)
    → 0 < length data_
    → Writes seen fd data_ w (w fd) (small.c_write fd data_ w)
small_write fd data_ w some_data =
    let count = min (length data_) 3 in
    let one_more : suc (count - 1) ≡ count = omega arith in
    record {
      count = count - 1;
      at_most = omega arith;
      answered = ap some (sym one_more);
      written = rw one_more (ap some (set-same fd (after_write (w fd) (take count data_)) w));
      others =
          λ other ne. ap some (set-other fd other (after_write (w fd) (take count data_)) w ne);
    }

small-IsFiles : IsFiles seen small
small-IsFiles = record {
  reads = λ fd w f here.
      (let same : w fd ≡ f = ap (inside f) here in
        subst (λ g. Reads seen fd copy_buf_size w g (small.c_read fd copy_buf_size w)) same
          (small_read fd w));
  writes = λ fd data_ w f some_data fits here.
      (let same : w fd ≡ f = ap (inside f) here in
        subst (λ g. Writes seen fd data_ w g (small.c_write fd data_ w)) same
          (small_write fd data_ w some_data));
}

abbrev source : OpenFile
source = record { contents = codes "abcdefgh"; pos = 1 }

abbrev target : OpenFile
target = record { contents = codes "xy"; pos = 1 }

abbrev handles : Handles
handles fd = if fd == 3 then source else target

copy_stream-IsCopied_example :
    IsCopied seen small 3 4 source target (copy_stream small 8 3 4 handles)
copy_stream-IsCopied_example =
    copy_stream-IsCopied seen small 8 3 4 source target handles small-IsFiles (ground arith) refl
      refl (omega arith) (omega arith)
