-- ===== src/Ssh/Closed.antt =====
-- What closed objects of modssh_uc386dos.c answer.
use freedos_micro_python.Prelude.{
  ℕ, ◌≡◌, refl, Bool, true, false, Option-cases, inl, inr, Option, none, List, [], ◌∷◌, map, Bytes,
}
use freedos_micro_python.Prelude.State.{State}
use freedos_micro_python.Ssh.{
  Libssh2, Reply, refused, not_open, Session, userauth_password, userauth_publickey, session_close,
}
use freedos_micro_python.Ssh.Channels.{
  ChannelCalls, Run, finished, session_exec, session_scp_recv, session_scp_send,
}
use freedos_micro_python.Ssh.Sftp.{SftpCalls, session_sftp}

-- The methods of a session, with their arguments; a run of those with loops has fuel.
pub data Request : Type 0 where
  password : Bytes → Bytes → Request
  publickey : Bytes → Bytes → Option Bytes → Option Bytes → Request
  exec scp_recv : ℕ → Bytes → Request
  scp_send : ℕ → Bytes → ℕ → Bytes → Request
  sftp close : Request

-- Whether the method raises EBADF.
abbrev pub is_bad_reply {ℓ} : {A : Type ℓ} → Reply A → Bool
is_bad_reply (refused not_open) = true
is_bad_reply _ = false

abbrev pub is_bad_run {ℓ} : {A : Type ℓ} → Run A → Bool
is_bad_run (finished r) = is_bad_reply r
is_bad_run _ = false

-- All methods but another close.
pub refusal : Request → Bool
refusal close = false
refusal _ = true

module _ {W : Type 0} (lib : Libssh2 W) (channels : ChannelCalls W) (calls : SftpCalls W) where
  pub request : Request → State (Session × W) Bool
  request (password user pw) st =
      let (r, st1) = userauth_password lib user pw st in (is_bad_reply r, st1)
  request (publickey user priv pub_ pass) st =
      let (r, st1) = userauth_publickey lib user priv pub_ pass st in (is_bad_reply r, st1)
  request (exec fuel cmd) (self, w) =
      let (r, w1) = session_exec lib channels fuel cmd self w in (is_bad_run r, (self, w1))
  request (scp_recv fuel path) (self, w) =
      let (r, w1) = session_scp_recv lib channels fuel path self w in (is_bad_run r, (self, w1))
  request (scp_send fuel path mode input) (self, w) =
      let (r, w1) = session_scp_send lib channels fuel path mode input self w in
      (is_bad_run r, (self, w1))
  request sftp (self, w) =
      let (r, w1) = session_sftp lib calls self w in (is_bad_reply r, (self, w1))
  request close st = let (_, st1) = session_close lib st in (false, st1)

  pub requests : List Request → State (Session × W) (List Bool)
  requests [] st = ([], st)
  requests (r ∷ rs) st =
      let (answer, st1) = request r st in
      let (answers, st2) = requests rs st1 in (answer ∷ answers, st2)

  request-closed :
      (r : Request) (self : Session) (w : W)
      → self.handle ≡ none
      → request r (self, w) ≡ (refusal r, (self, w))
  unfolding request refusal userauth_password userauth_publickey session_exec session_scp_recv
      session_scp_send session_sftp session_close
  request-closed (password user pw) self w e = simp (userauth_password, e) refl
  request-closed (publickey user priv pub_ pass) self w e = simp (userauth_publickey, e) refl
  request-closed (exec fuel cmd) self w e = simp (session_exec, e) refl
  request-closed (scp_recv fuel path) self w e = simp (session_scp_recv, e) refl
  request-closed (scp_send fuel path mode input) self w e = simp (session_scp_send, e) refl
  request-closed sftp self w e = simp (session_sftp, e) refl
  request-closed close self w e = simp (session_close, e) refl

  requests-closed :
      (rs : List Request) (self : Session) (w : W)
      → self.handle ≡ none
      → requests rs (self, w) ≡ (map refusal rs, (self, w))
  unfolding requests
  requests-closed [] self w e = refl
  requests-closed (r ∷ rs) self w e = rw (request-closed r self w e, requests-closed rs self w e)

  session_close-handle : (self : Session) (w : W) → (session_close lib (self, w)).1.0.handle ≡ none
  unfolding session_close
  session_close-handle self w = elim (Option-cases self.handle) [
    | inl e ↦ simp (session_close, e) refl
    | inr (s, e) ↦ simp (session_close, e) refl
  ]

  -- Once a session is closed, every method that is called on it afterwards, in any order, raises EBADF, but for
  -- another close, which does nothing; the object stays closed, and libssh2 and the socket are not called.
  pub requests-session_close :
      (rs : List Request) (self : Session) (w : W)
      → requests rs (session_close lib (self, w)).1
        ≡ (map refusal rs, (session_close lib (self, w)).1)
  requests-session_close rs self w =
      requests-closed rs (session_close lib (self, w)).1.0 (session_close lib (self, w)).1.1
        (session_close-handle self w)
