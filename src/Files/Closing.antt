-- ===== src/Files/Closing.antt =====
-- A closed file object of file_uc386dos.c.
use freedos_micro_python.Prelude.{
  ◌≡◌, refl, none, inl, inr, Option-cases, List, [], ◌∷◌, ebadf, einval,
}
use freedos_micro_python.Dos21.{Machine, Dos}
use freedos_micro_python.Files.{
  File, Request, read_request, write_request, seek_request, flush_request, close_request,
  other_request, Reply, count_reply, error_reply, serve, file_read, file_write, file_close, seek,
  bytes_of, count_of,
}

-- What follows the close: the requests one by one, with their replies.
pub run_requests :
    {D : Type 0} → Machine D → List Request → File × Dos D → List Reply × (File × Dos D)
run_requests machine [] s = ([], s)
run_requests machine (r ∷ rs) s =
    let (reply, s1) = serve machine r s in
    let (replies, s2) = run_requests machine rs s1 in (reply ∷ replies, s2)

-- The reply of a closed object.
abbrev pub closed_reply : Request → Reply
closed_reply (read_request size) = error_reply ebadf
closed_reply (write_request buf) = error_reply ebadf
closed_reply (seek_request offset whence) = error_reply ebadf
closed_reply flush_request = count_reply 0
closed_reply close_request = count_reply 0
closed_reply other_request = error_reply einval

pub replies_to : List Request → List Reply
replies_to [] = []
replies_to (r ∷ rs) = closed_reply r ∷ replies_to rs

module _ {D : Type 0} (machine : Machine D) where
  serve-closed :
      (r : Request) (o : File) (w : Dos D)
      → o.fd ≡ none
      → serve machine r (o, w) ≡ (closed_reply r, (o, w))
  unfolding serve bytes_of count_of file_read file_write file_close seek
  serve-closed (read_request size) o w h = rw h refl
  serve-closed (write_request buf) o w h = rw h refl
  serve-closed (seek_request offset whence) o w h = rw h refl
  serve-closed flush_request o w h = refl
  serve-closed close_request o w h = rw h refl
  serve-closed other_request o w h = refl

  still_closed :
      (rs : List Request) (o : File) (w : Dos D)
      → o.fd ≡ none
      → run_requests machine rs (o, w) ≡ (replies_to rs, (o, w))
  unfolding run_requests replies_to
  still_closed [] o w h = refl
  still_closed (r ∷ rs) o w h = rw (serve-closed r o w h, still_closed rs o w h)

  file_close-fd : (o : File) (w : Dos D) → (file_close machine o w).0.fd ≡ none
  unfolding file_close
  file_close-fd o w = elim (Option-cases o.fd) [ inl e ↦ rw e refl | inr (fd, e) ↦ rw e refl ]

  -- Once a file object is closed, whatever is asked of it afterwards, in any order: reads, writes and
  -- seeks are answered with EBADF, requests that it does not know with EINVAL, flush and another close
  -- with 0, and the object, memory and the devices stay as the close left them, so DOS is not called.
  pub run_requests-file_close :
      (rs : List Request) (o : File) (w : Dos D)
      → run_requests machine rs (file_close machine o w) ≡ (replies_to rs, file_close machine o w)
  run_requests-file_close rs o w =
      still_closed rs (file_close machine o w).0 (file_close machine o w).1 (file_close-fd o w)
