-- ===== src/Ssh/Tests.antt =====
-- Runs of the _ssh module on small libraries: one that accepts all preferences, channels that go through a
-- script or are busy for a while, and a server with one file that moves a byte at a time.
use freedos_micro_python.Prelude.{
  ℕ, zero, suc, ◌≤◌, ◌<◌, ◌≡◌, refl, Bool, true, false, ◌&&◌, ◌⊎◌, inl, inr, none, some, List, [],
  ◌∷◌, ◌++◌, map, Bytes, codes, length, take, arith,
}
use freedos_micro_python.Ssh.{
  Method, Libssh2, Received, received_none, received, receive_failed, Sent, sent, send_failed,
  replied, Session, session_make_new, lazy_init, negotiate, shake, step, method_prefs,
  session_close, recv_cb,
}
use freedos_micro_python.Ssh.Channels.{
  ChannelCalls, finished, session_exec, session_scp_send, strip_nul,
}
use freedos_micro_python.Ssh.Channels.Running.{
  Event, piece, nothing_yet, is_over, IsScripted, session_exec-output,
}
use freedos_micro_python.Ssh.Channels.Sending.{IsAccepting, session_scp_send-put}
use freedos_micro_python.Ssh.Sftp.{
  SftpCalls, SftpFile, no_entry, Attributes, done_with, sftp_file_read, sftp_file_write,
}
use freedos_micro_python.Ssh.Sftp.Files.{
  IsServing, sftp_file_read-taken, IsStoring, sftp_file_write-stored,
}
use freedos_micro_python.Ssh.Closed.{
  Request, password, exec, sftp, close, refusal, requests, requests-session_close,
}
use freedos_micro_python.Ssh.Negotiation.{offer, IsOffering, session_make_new-offer}

-- A library that does nothing, and succeeds.
abbrev plain : {W : Type 0} → Libssh2 W
plain = record {
  eagain = 11;
  library_init = λ w. (tt, w);
  session_init = λ w. (some 5, w);
  set_stream = λ s sock w. (tt, w);
  method_pref = λ s m names w. (none, w);
  set_blocking = λ s w. (tt, w);
  handshake = λ s w. (none, w);
  auth_password = λ s user pw w. (none, w);
  auth_publickey = λ s user public_key private_key pass w. (none, w);
  disconnect = λ s text w. (tt, w);
  session_free = λ s w. (tt, w);
  last_error = λ s w. ([], w);
  trace = λ text w. (tt, w);
  stream_read = λ sock len w. (received_none, w);
  stream_write = λ sock buf w. (sent 0, w);
}

-- The preferences, and what was offered.
abbrev Recorded : Type 0
Recorded = List (Method × Bytes) × List (Method × Bytes)

abbrev recording : Libssh2 Recorded
recording = record plain {
  session_init = λ w. (some 5, ([], []));
  method_pref = λ s m names w. (none, (w.0 ++ ((m, names) ∷ []), w.1));
  handshake = λ s w. (none, (w.0, w.0));
}

recording-IsOffering : IsOffering recording (λ s w. w.0) (λ s w. w.1)
recording-IsOffering = record {
  starts = λ s w h. refl;
  accepts = λ s m names w h. refl;
  shakes = λ s w h. refl;
  traces = λ s text w. refl;
  traces_later = λ s text w. refl;
  streams = λ s sock w. refl;
  blocks = λ s w. refl;
}

abbrev new_session : Session
new_session = record { handle = some 5; sock = 8; authenticated = false }

made : (session_make_new recording 8 (false, ([], []))).0 ≡ replied new_session
unfolding session_make_new lazy_init negotiate shake step method_prefs
made = refl

session_make_new-offer_example :
    (s : ℕ) × (new_session.handle ≡ some s)
    × ((session_make_new recording 8 (false, ([], []))).1.1.1 ≡ offer)
session_make_new-offer_example =
    session_make_new-offer recording (λ s w. w.0) (λ s w. w.1) 8 false ([], []) new_session
      recording-IsOffering made

end_of_stream : (recv_cb (plain {W = ℕ}) (some 8) 100 0).0 ≡ receive_failed 11
unfolding recv_cb
end_of_stream = refl

abbrev idle : {W : Type 0} → ChannelCalls W
idle = record {
  error_eagain = 37;
  error_socket_recv = 43;
  error_socket_disconnect = 13;
  open_session = λ s w. (some 1, w);
  exec = λ channel cmd w. (none, w);
  read = λ channel size w. (received_none, w);
  write = λ channel buf w. (sent 0, w);
  eof = λ channel w. (true, w);
  send_eof = λ channel w. (tt, w);
  close = λ channel w. (tt, w);
  free = λ channel w. (tt, w);
  scp_recv2 = λ s path w. (some 1, w);
  scp_send_ex = λ s path mode len w. (some 1, w);
}

abbrev next_event : List Event → Received × List Event
next_event [] = (received_none, [])
next_event (piece c cs ∷ es) = (received c cs, es)
next_event (nothing_yet ∷ es) = (received_none, es)

abbrev scripted : ChannelCalls (List Event)
scripted = record idle { read = λ channel size w. next_event w; eof = λ channel w. (is_over w, w) }

and_true : (b : Bool) → b ≡ (b && true)
and_true true = refl
and_true false = refl

scripted-IsScripted : IsScripted plain scripted (λ w. w) none
scripted-IsScripted = record {
  gives_piece = λ w channel c cs es e. rw e (refl, refl);
  gives_nothing = λ w channel es e. rw e (refl, refl);
  ends = λ w channel e. rw e (refl, refl);
  eof = λ w channel. (and_true (is_over w), refl);
}

abbrev script : List Event
script = piece 104 (105 ∷ []) ∷ nothing_yet ∷ piece 33 [] ∷ []

session_exec-output_example :
    (session_exec plain scripted 4 (codes "echo") new_session script).0
    ≡ finished (replied (codes "hi!"))
session_exec-output_example =
    session_exec-output plain scripted (λ w. w) none 4 5 1 (codes "echo") new_session script script
      scripted-IsScripted refl refl refl refl refl (omega arith)

abbrev accept : Bytes → Bytes × ℕ → Sent × (Bytes × ℕ)
accept buf (p, zero) = (sent 1, (p ++ take 1 buf, 0))
accept buf (p, suc n) = (send_failed 37, (p, n))

abbrev busy_channel : ChannelCalls (Bytes × ℕ)
busy_channel = record idle { write = λ channel buf w. accept buf w }

accept_law :
    (w : Bytes × ℕ) (c : ℕ) (cs : Bytes)
    → ((n : ℕ) × ((accept (c ∷ cs) w).0 ≡ sent (suc n))
        × (suc n ≤ length (c ∷ cs))
        × ((accept (c ∷ cs) w).1.0 ≡ w.0 ++ take (suc n) (c ∷ cs))
        × ((accept (c ∷ cs) w).1.1 ≤ w.1))
      ⊎ (((accept (c ∷ cs) w).0 ≡ send_failed 37)
          × ((accept (c ∷ cs) w).1.0 ≡ w.0)
          × ((accept (c ∷ cs) w).1.1 < w.1))
accept_law (p, zero) c cs = inl (0, refl, omega arith, refl, omega arith)
accept_law (p, suc n) c cs = inr (refl, refl, omega arith)

busy_channel-IsAccepting : IsAccepting plain busy_channel (λ w. w.0) (λ w. w.1)
busy_channel-IsAccepting = record {
  writes = λ w channel c cs. accept_law w c cs;
  send_eof_puts = λ w channel. refl;
  close_puts = λ w channel. refl;
  free_puts = λ w channel. refl;
}

session_scp_send-put_example :
    ((session_scp_send plain busy_channel 9 (codes "f") 420 (7 ∷ 8 ∷ []) new_session ([], 3)).0
      ≡ finished (replied 2))
    × ((session_scp_send plain busy_channel 9 (codes "f") 420 (7 ∷ 8 ∷ []) new_session ([], 3)).1.0
        ≡ 7 ∷ 8 ∷ 0 ∷ [])
session_scp_send-put_example =
    session_scp_send-put plain busy_channel (λ w. w.0) (λ w. w.1) 9 5 1 420 (codes "f") (7 ∷ 8 ∷ [])
      new_session ([], 3) busy_channel-IsAccepting refl refl (omega arith)

terminator : strip_nul (7 ∷ 0 ∷ 0 ∷ []) ≡ 7 ∷ 0 ∷ []
unfolding strip_nul
terminator = refl

abbrev next_byte : ℕ → Bytes → Received × Bytes
next_byte zero s = (received_none, s)
next_byte (suc n) [] = (received_none, [])
next_byte (suc n) (c ∷ cs) = (received c [], cs)

abbrev empty_attributes : Attributes
empty_attributes = record {
  flags = 0;
  permissions = 0;
  filesize = 0;
  atime = 0;
  mtime = 0;
  uid = 0;
  gid = 0;
}

abbrev one_file : SftpCalls Bytes
one_file = record {
  sftp_init = λ s w. (some 2, w);
  shutdown = λ c w. (tt, w);
  open_file = λ c path flags mode w. (some 3, w);
  open_dir = λ c path w. (some 4, w);
  close_handle = λ h w. (tt, w);
  read = λ h want w. next_byte want w;
  write = λ h buf w. (sent 1, w ++ take 1 buf);
  read_dir = λ h size w. (no_entry, w);
  mkdir = λ c path mode w. (none, w);
  rmdir = λ c path w. (none, w);
  unlink = λ c path w. (none, w);
  rename = λ c old_path new_path w. (none, w);
  stat = λ c path w. ((none, empty_attributes), w);
  realpath = λ c path size w. (received_none, w);
}

next_byte_law :
    (w : Bytes) (want : ℕ)
    → 0 < want
    → (((next_byte want w).0 ≡ received_none) × (w ≡ []) × ((next_byte want w).1 ≡ []))
      ⊎ ((c : ℕ) × (cs : Bytes) × ((next_byte want w).0 ≡ received c cs)
          × (length (c ∷ cs) ≤ want)
          × (w ≡ (c ∷ cs) ++ (next_byte want w).1))
next_byte_law w zero h = absurd (omega arith)
next_byte_law [] (suc n) h = inl (refl, refl, refl)
next_byte_law (c ∷ cs) (suc n) h = inr (c, [], refl, omega arith, refl)

one_file-IsServing : IsServing plain one_file (λ w h. w)
one_file-IsServing = record {
  served = λ w h want h0. next_byte_law w want h0;
  nothing_asked = λ w h. (refl, refl);
}

one_file-IsStoring : IsStoring plain one_file (λ w h. w)
one_file-IsStoring = record { stores = λ w h c cs. (0, refl, omega arith, refl) }

abbrev open_file : SftpFile
open_file = record {
  file_handle = some 3;
  sftp = record { client = some 2; session = new_session };
}

sftp_file_read-taken_example :
    ((sftp_file_read plain one_file 9 (some 2) open_file (codes "abc")).0
      ≡ done_with (replied (codes "ab")))
    × ((sftp_file_read plain one_file 9 (some 2) open_file (codes "abc")).1 ≡ codes "c")
sftp_file_read-taken_example =
    sftp_file_read-taken plain one_file (λ w h. w) 9 3 (some 2) open_file (codes "abc")
      one_file-IsServing refl (omega arith)

sftp_file_write-stored_example :
    ((sftp_file_write plain one_file 9 (codes "cd") open_file (codes "ab")).0
      ≡ done_with (replied 2))
    × ((sftp_file_write plain one_file 9 (codes "cd") open_file (codes "ab")).1 ≡ codes "abcd")
sftp_file_write-stored_example =
    sftp_file_write-stored plain one_file (λ w h. w) 9 3 (codes "cd") open_file (codes "ab")
      one_file-IsStoring refl (omega arith)

abbrev after_close : List Request
after_close = exec 9 (codes "ls") ∷ close ∷ sftp ∷ password [] [] ∷ []

requests-session_close_example :
    requests plain idle one_file after_close (session_close plain (new_session, [])).1
    ≡ (map refusal after_close, (session_close plain (new_session, [])).1)
requests-session_close_example =
    requests-session_close plain idle one_file after_close new_session []
