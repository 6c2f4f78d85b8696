-- ===== src/Tls.antt =====
-- The tls module, src/freedos_micro_python/port/modtls_axtls_uc386dos.c, over axTLS, which is a parameter:
-- its functions work on a state `W` of the session, the network and the rest of MicroPython. A negative
-- code of axTLS is kept as its absolute value. `ssl_context` and `ssl_socket` objects are records; the
-- options of the SSL_CTX, which the sockets of one context share, are kept with the context. A string for
-- an error is always allocated, and a new session is never NULL.
pub mod Methods
pub mod Verified
mod Tests
use freedos_micro_python.Prelude.{
  ℕ, zero, suc, ◌+◌, ◌-◌, ◌≡◌, refl, Bool, true, false, not, ◌&&◌, ◌||◌, Option, none, some, List,
  [], ◌∷◌, Bytes, codes, length, take, drop, get_or, ltb, leb, ◌==◌, if◌then◌else◌,
}
use freedos_micro_python.Prelude.State.{State}

-- A code: a negative one of axTLS, or an errno of MicroPython.
pub data Code : Type 0 where
  ssl : ℕ → Code
  mp_enotconn mp_eagain ebadf : Code

-- What a call raises.
pub data Raised : Type 0 where
  os_error_with : Code → Option Bytes → Raised
  verify_mode_error invalid_key invalid_cert no_cafile no_cadata no_memory : Raised

pub data Outcome {ℓ} (A : Type ℓ) : Type ℓ where
  returned : A → Outcome A
  threw : Raised → Outcome A

abbrev pub cert_none : ℕ
cert_none = 0

abbrev pub cert_required : ℕ
cert_required = 2

-- The bits of `ssl_ctx->options` that the module sets.
pub record Options : Type 0 where
  pub verify_later : Bool
  pub connect_in_parts : Bool
  pub no_default_key : Bool

pub record Context : Type 0 where
  pub key : Option Bytes
  pub cert : Option Bytes
  pub options : Options
  pub verify_mode : ℕ

-- `ssl_sock` says whether the pointer is not NULL, and `has_sock` the same of `sock`; `buf` holds the
-- `bytes_left` bytes that the pointer has.
pub record Socket : Type 0 where
  pub has_sock : Bool
  pub ssl_sock : Bool
  pub buf : Bytes
  pub blocking : Bool

-- The result of `ssl_read`: 0, a negative code, or a number of bytes, which are stored.
pub data Read : Type 0 where
  read_none : Read
  read_failed : ℕ → Read
  read_some : ℕ → Bytes → Read

-- `ssl_write`: 0, a negative code, or a number of bytes.
pub data Written : Type 0 where
  wrote_none : Written
  write_failed : ℕ → Written
  wrote : ℕ → Written

-- `memory_load` is `ssl_obj_memory_load` for a CA certificate, a key and a certificate; `none` is SSL_OK,
-- there and for the status of a handshake. `client_new` gets the options of the context.
pub record Axtls (W : Type 0) : Type 0 where
  pub not_ok : ℕ
  pub conn_lost : ℕ
  pub ctx_new : State W Bool
  pub load_ca : Bytes → State W (Option ℕ)
  pub load_key : Bytes → State W (Option ℕ)
  pub load_cert : Bytes → State W (Option ℕ)
  pub server_new : Options → State W Unit
  pub client_new : Options → Option Bytes → State W Unit
  pub handshake_status : State W (Option ℕ)
  pub ssl_read : State W Read
  pub ssl_write : Bytes → State W Written
  pub ssl_free : State W Unit
  pub poll_hook : State W Unit
  pub sock_ioctl : ℕ → State W ℕ
  pub sock_setblocking : Bool → State W (Outcome Unit)

-- `ssl_error_tab1` and `ssl_error_tab2`; an empty name stands for NULL.
abbrev pub ssl_error_tab1 : List Bytes
ssl_error_tab1 = codes "NOT_OK" ∷ codes "DEAD" ∷ codes "CLOSE_NOTIFY" ∷ codes "EAGAIN" ∷ []

abbrev pub ssl_error_tab2 : List Bytes
ssl_error_tab2 =
    codes "CONN_LOST"
    ∷ codes "RECORD_OVERFLOW"
    ∷ codes "SOCK_SETUP_FAILURE"
    ∷ []
    ∷ codes "INVALID_HANDSHAKE"
    ∷ codes "INVALID_PROT_MSG"
    ∷ codes "INVALID_HMAC"
    ∷ codes "INVALID_VERSION"
    ∷ codes "UNSUPPORTED_EXTENSION"
    ∷ codes "INVALID_SESSION"
    ∷ codes "NO_CIPHER"
    ∷ codes "INVALID_CERT_HASH_ALG"
    ∷ codes "BAD_CERTIFICATE"
    ∷ codes "INVALID_KEY"
    ∷ []
    ∷ codes "FINISHED_INVALID"
    ∷ codes "NO_CERT_DEFINED"
    ∷ codes "NO_CLIENT_RENOG"
    ∷ codes "NOT_SUPPORTED"
    ∷ []

abbrev pub named : Bytes → Option Bytes
named [] = none
named (c ∷ cs) = some (c ∷ cs)

-- The attribute `verify_mode`: its load and its store.
pub load_verify_mode : Context → ℕ
load_verify_mode self = self.verify_mode

pub store_verify_mode : ℕ → Context → Outcome Context
store_verify_mode v self =
    if not (v == cert_none) && not (v == cert_required)
    then threw verify_mode_error
    else returned (record self { verify_mode = v })

pub load_cert_chain : Bytes → Bytes → Context → Context
load_cert_chain cert pkey self = record self { cert = some cert; key = some pkey }

-- The options for a client.
pub client_options : Bool → Context → Options
client_options do_handshake self = record {
  verify_later = not (self.verify_mode == cert_required);
  connect_in_parts = not do_handshake;
  no_default_key = elim self.key [ none ↦ self.options.no_default_key | some key ↦ true ];
}

abbrev pub new_socket : Socket
new_socket = record { has_sock = true; ssl_sock = true; buf = []; blocking = true }

module _ {W : Type 0} (axtls : Axtls W) where
  -- The two static assertions of `ssl_raise_error` tie these to the others.
  abbrev pub close_notify : ℕ
  close_notify = axtls.not_ok + 2

  abbrev pub eagain : ℕ
  eagain = axtls.not_ok + 3

  pub error_string : Code → Option Bytes
  error_string (ssl n) =
      if leb axtls.not_ok n && leb n eagain
      then named (get_or ssl_error_tab1 (n - axtls.not_ok) [])
      else if leb axtls.conn_lost n && leb n (axtls.conn_lost + 18)
      then named (get_or ssl_error_tab2 (n - axtls.conn_lost) [])
      else none
  error_string mp_enotconn = none
  error_string mp_eagain = none
  error_string ebadf = none

  pub ssl_raise_error : Code → Raised
  ssl_raise_error err = os_error_with err (error_string err)

  pub context_make_new : State W (Outcome Context)
  context_make_new w =
      let (made, w1) = axtls.ctx_new w in
      (
        if made
            then returned (record {
              key = none;
              cert = none;
              options = record {
                verify_later = true;
                connect_in_parts = false;
                no_default_key = false;
              };
              verify_mode = cert_none;
            })
            else threw no_memory,
        w1,
      )

  pub load_verify_locations : Option Bytes → Option Bytes → State W (Outcome Unit)
  load_verify_locations (some cafile) cadata w = (threw no_cafile, w)
  load_verify_locations none none w = (threw no_cadata, w)
  load_verify_locations none (some cadata) w =
      let (res, w1) = axtls.load_ca cadata w in
      (elim res [ none ↦ returned tt | some n ↦ threw (ssl_raise_error (ssl n)) ], w1)

  -- The key and the certificate, where the context has them: what is raised.
  pub load_identity : Context → State W (Option Raised)
  load_identity self w = elim self.key [
    | none ↦ (none, w)
    | some key ↦
        let (res, w1) = axtls.load_key key w in
        elim res [
          | some n ↦ (some invalid_key, w1)
          | none ↦
              let (res2, w2) =
                axtls.load_cert (elim self.cert [ none ↦ [] | some cert ↦ cert ]) w1 in
              (elim res2 [ some n ↦ some invalid_cert | none ↦ none ], w2)
        ]
  ]

  -- The handshake of a new client, where it is asked for.
  pub connect : Bool → State W (Outcome Socket)
  connect false w = (returned new_socket, w)
  connect true w =
      let (status, w1) = axtls.handshake_status w in
      (
        elim status [
          | none ↦ returned new_socket
          | some n ↦ threw (
              ssl_raise_error (
                if n == close_notify
                then mp_enotconn
                else if n == eagain
                then mp_eagain
                else ssl n))
        ],
        w1,
      )

  -- `ssl_socket_make_new`, which `wrap_socket` calls with its arguments: the socket, and the context's options.
  pub wrap_socket : Context → Bool → Bool → Option Bytes → State W (Outcome Socket × Context)
  wrap_socket self server_side do_handshake server_hostname w =
      let (failure, w1) = load_identity self w in
      elim failure [
        | some e ↦ ((threw e, self), w1)
        | none ↦ elim server_side [
          | true ↦
              (let (_, w2) = axtls.server_new self.options w1 in ((returned new_socket, self), w2))
          | false ↦
              let self1 = record self { options = client_options do_handshake self } in
              let (_, w2) = axtls.client_new self1.options server_hostname w1 in
              let (r, w3) = connect do_handshake w2 in ((r, self1), w3)
        ]
      ]
