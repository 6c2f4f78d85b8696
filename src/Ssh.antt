-- ===== src/Ssh.antt =====
-- The sessions of the _ssh module, src/freedos_micro_python/port/modssh_uc386dos.c, over libssh2, which is a parameter:
-- its functions work on a state `W` of the library, the network and the console. A handle of libssh2 is a
-- number, `none` is NULL; a negative code is kept as its absolute value. The conversion of Python objects
-- to bytes and back is left out.
pub mod Channels
pub mod Sftp
pub mod Closed
pub mod Negotiation
mod Tests
use freedos_micro_python.Prelude.{
  ℕ, Bool, true, false, Option, none, some, List, [], ◌∷◌, Bytes, codes, ◌==◌, if◌then◌else◌,
}
use freedos_micro_python.Prelude.State.{State}

pub data Method : Type 0 where
  hostkey kex crypt_cs crypt_sc mac_cs mac_sc : Method

-- What a call of `recv` or of a channel gives: 0, bytes, or a negative code.
pub data Received : Type 0 where
  received_none : Received
  received : ℕ → Bytes → Received
  receive_failed : ℕ → Received

-- A number of bytes, or a negative code.
pub data Sent : Type 0 where
  sent : ℕ → Sent
  send_failed : ℕ → Sent

-- A result of `none` is 0 where a code is expected. `stream_read` has 0, -1 with an errno, or bytes.
pub record Libssh2 (W : Type 0) : Type 0 where
  pub eagain : ℕ
  pub library_init : State W (Unit {0})
  pub session_init : State W (Option ℕ)
  pub set_stream : ℕ → ℕ → State W (Unit {0})
  pub method_pref : ℕ → Method → Bytes → State W (Option ℕ)
  pub set_blocking : ℕ → State W (Unit {0})
  pub handshake : ℕ → State W (Option ℕ)
  pub auth_password : ℕ → Bytes → Bytes → State W (Option ℕ)
  pub auth_publickey : ℕ → Bytes → Option Bytes → Bytes → Option Bytes → State W (Option ℕ)
  pub disconnect : ℕ → Bytes → State W (Unit {0})
  pub session_free : ℕ → State W (Unit {0})
  pub last_error : Option ℕ → State W Bytes
  pub trace : Bytes → State W (Unit {0})
  pub stream_read : ℕ → ℕ → State W Received
  pub stream_write : ℕ → Bytes → State W Sent

pub data SshError : Type 0 where
  not_open no_memory : SshError
  with_message : ℕ → Bytes → SshError
  with_fallback : Bytes → ℕ → SshError

pub data Reply {ℓ} (A : Type ℓ) : Type ℓ where
  replied : A → Reply A
  refused : SshError → Reply A

-- `handle` is the field `session`.
pub record Session : Type 0 where
  pub handle : Option ℕ
  pub sock : ℕ
  pub authenticated : Bool

-- The errno that the callback names, MP_ETIMEDOUT; `eagain` is a field of the parameter.
abbrev pub timed_out : ℕ
timed_out = 110

module _ {W : Type 0} (lib : Libssh2 W) where
  -- `_ssh_lazy_init`: the flag is `_ssh_initialized`.
  pub lazy_init : State (Bool × W) (Unit {0})
  lazy_init (true, w) = (tt, (true, w))
  lazy_init (false, w) = (tt, (true, (lib.library_init w).1))

  -- `none` stands for a NULL in the abstract slot. The code of -1 is 1.
  pub recv_cb : Option ℕ → ℕ → State W Received
  recv_cb none len w = (receive_failed 1, w)
  recv_cb (some sock) len w =
      let (r, w1) = lib.stream_read sock len w in
      (
        elim r [
          | received_none ↦ receive_failed lib.eagain
          | received c cs ↦ received c cs
          | receive_failed errno ↦
              if errno == timed_out then receive_failed lib.eagain else receive_failed 1
        ],
        w1,
      )

  pub send_cb : Option ℕ → Bytes → State W Sent
  send_cb none buf w = (send_failed 1, w)
  send_cb (some sock) buf w = lib.stream_write sock buf w

  pub raise_session_error : Option ℕ → ℕ → Bytes → State W SshError
  raise_session_error session err fallback w =
      let (message, w1) = lib.last_error session w in
      (elim message [ [] ↦ with_fallback fallback err | c ∷ cs ↦ with_message err (c ∷ cs) ], w1)

  -- What a call becomes that returns 0 or raises.
  pub checked {ℓ} : {A : Type ℓ} → Option ℕ → Bytes → A → Option ℕ × W → Reply A × W
  checked session fallback done_ (none, w) = (replied done_, w)
  checked session fallback done_ (some err, w) =
      let (e, w1) = raise_session_error session err fallback w in (refused e, w1)

  -- The preference of one method, and of a second one where the first was accepted.
  pub method_prefs : ℕ → Method → Method → Bytes → State W (Option ℕ)
  method_prefs s first second names w =
      let (r, w1) = lib.method_pref s first names w in
      elim r [ none ↦ lib.method_pref s second names w1 | some err ↦ (some err, w1) ]

  -- The steps of the constructor from the preferences on, each after a trace. A step that fails ends it.
  pub step :
      ℕ → Bytes → Bytes → State W (Option ℕ) → (W → Reply Session × W) → W → Reply Session × W
  step s mark fallback call next w =
      let (r, w1) = call w in
      let (_, w2) = lib.trace mark w1 in
      elim r [
        | none ↦ next w2
        | some err ↦ (let (e, w3) = raise_session_error (some s) err fallback w2 in (refused e, w3))
      ]

  pub shake : ℕ → ℕ → W → Reply Session × W
  shake s sock w =
      let (_, w1) = lib.set_blocking s w in
      let (_, w2) = lib.trace (codes "[s:9]") w1 in
      step s (codes "[s:A]") (codes "session_handshake") (lib.handshake s)
        (λ w3.
          let (_, w4) = lib.trace (codes "[s:Z]") w3 in
          (replied (record { handle = some s; sock = sock; authenticated = false }), w4))
        w2

  pub negotiate : ℕ → ℕ → W → Reply Session × W
  negotiate s sock =
      step s (codes "[s:5]") (codes "session_method_pref hostkey")
        (lib.method_pref s hostkey (codes "ssh-ed25519"))
        (step s (codes "[s:6]") (codes "session_method_pref kex")
          (lib.method_pref s kex (codes "curve25519-sha256,curve25519-sha256@libssh.org"))
          (step s (codes "[s:7]") (codes "session_method_pref crypt")
            (method_prefs s crypt_cs crypt_sc (codes "aes256-ctr,aes128-ctr"))
            (step s (codes "[s:8]") (codes "session_method_pref mac")
              (method_prefs s mac_cs mac_sc (codes "hmac-sha2-256,hmac-sha1")) (shake s sock))))

  -- `ssh_session_make_new`, of a socket that has a stream.
  pub session_make_new : ℕ → Bool × W → Reply Session × (Bool × W)
  session_make_new sock (initialized, w) =
      let (_, w1) = lib.trace (codes "[s:0]") w in
      let (_, (initialized1, w2)) = lazy_init (initialized, w1) in
      let (_, w3) = lib.trace (codes "[s:1]") w2 in
      let (_, w4) = lib.trace (codes "[s:2]") w3 in
      let (made, w5) = lib.session_init w4 in
      elim made [
        | none ↦ (refused no_memory, (initialized1, w5))
        | some s ↦
            let (_, w6) = lib.trace (codes "[s:3]") w5 in
            let (_, w7) = lib.set_stream s sock w6 in
            let (_, w8) = lib.trace (codes "[s:4]") w7 in
            let (r, w9) = negotiate s sock w8 in (r, (initialized1, w9))
      ]

  pub userauth_password : Bytes → Bytes → Session × W → Reply (Unit {0}) × (Session × W)
  userauth_password user pw (self, w) = elim self.handle [
    | none ↦ (refused not_open, (self, w))
    | some s ↦
        let (r, w1) =
          checked self.handle (codes "userauth_password") true (lib.auth_password s user pw w) in
        elim r [
          | replied yes_ ↦ (replied tt, (record self { authenticated = true }, w1))
          | refused e ↦ (refused e, (self, w1))
        ]
  ]

  pub userauth_publickey :
      Bytes → Bytes → Option Bytes → Option Bytes → Session × W → Reply (Unit {0}) × (Session × W)
  userauth_publickey user privkey pubkey passphrase (self, w) = elim self.handle [
    | none ↦ (refused not_open, (self, w))
    | some s ↦
        let (r, w1) =
          checked self.handle (codes "userauth_publickey") true
            (lib.auth_publickey s user pubkey privkey passphrase w) in
        elim r [
          | replied yes_ ↦ (replied tt, (record self { authenticated = true }, w1))
          | refused e ↦ (refused e, (self, w1))
        ]
  ]

  pub session_close : Session × W → Unit {0} × (Session × W)
  session_close (self, w) = elim self.handle [
    | none ↦ (tt, (self, w))
    | some s ↦
        let (_, w1) = lib.disconnect s (codes "bye") w in
        let (_, w2) = lib.session_free s w1 in (tt, (record self { handle = none }, w2))
  ]
