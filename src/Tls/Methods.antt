-- ===== src/Tls/Methods.antt =====
-- The stream methods of a socket of modtls_axtls_uc386dos.c. Their loops run on fuel.
pub mod Received
use freedos_micro_python.Prelude.{
  ℕ, zero, suc, ◌+◌, ◌≡◌, refl, Bool, true, false, not, ◌||◌, Option, none, some, List, [], ◌∷◌,
  Bytes, take, drop, ◌==◌, if◌then◌else◌,
}
use freedos_micro_python.Prelude.State.{State}
use freedos_micro_python.Tls.{
  Code, ssl, mp_eagain, ebadf, Socket, Axtls, Outcome, returned, threw, read_none, read_failed,
  read_some, wrote_none, write_failed, wrote, close_notify, eagain,
}

-- What the loop of a read ends with: bytes in the buffer, the end, a code; or it has not ended.
pub data Filled : Type 0 where
  filled : Bytes → Filled
  finished endless : Filled
  fill_error : Code → Filled

-- A stream method's result; `pending` where the fuel has run out.
pub data Transfer {ℓ} (A : Type ℓ) : Type ℓ where
  transferred : A → Transfer A
  transfer_error : Code → Transfer A
  pending : Transfer A

-- What the method does with the end of the loop.
pub serve_filled : ℕ → Socket → Filled → Transfer Bytes × Socket
serve_filled size o (filled bytes) =
    (transferred (take size bytes), record o { buf = drop size bytes })
serve_filled size o finished = (transferred [], o)
serve_filled size o endless = (pending, o)
serve_filled size o (fill_error e) = (transfer_error e, o)

module _ {W : Type 0} (axtls : Axtls W) where
  -- What a negative result becomes; `none` where the method returns 0.
  pub failure_code : ℕ → Option Code
  failure_code n =
      if n == close_notify axtls || n == axtls.conn_lost
      then none
      else if n == eagain axtls
      then some mp_eagain
      else some (ssl n)

  -- `while (o->bytes_left == 0)`, from an empty buffer.
  pub refill : ℕ → Bool → State W Filled
  refill zero blocking w = (endless, w)
  refill (suc fuel) blocking w =
      let (r, w1) = axtls.ssl_read w in
      elim r [
        | read_none ↦ elim blocking [
          | true ↦ (let (_, w2) = axtls.poll_hook w1 in refill fuel true w2)
          | false ↦ (fill_error mp_eagain, w1)
        ]
        | read_failed n ↦ (elim (failure_code n) [ none ↦ finished | some e ↦ fill_error e ], w1)
        | read_some c cs ↦ (filled (c ∷ cs), w1)
      ]

  -- The bytes are those stored at `buf`.
  pub socket_read : ℕ → ℕ → State (Socket × W) (Transfer Bytes)
  socket_read fuel size (o, w) =
      if not o.ssl_sock then (transfer_error ebadf, (o, w)) else elim o.buf [
        | c ∷ cs ↦ (let (r, o1) = serve_filled size o (filled (c ∷ cs)) in (r, (o1, w)))
        | [] ↦
            let (f, w1) = refill fuel o.blocking w in
            let (r, o1) = serve_filled size o f in (r, (o1, w1))
      ]

  -- The loop `eagain:` of the write.
  pub send_loop : ℕ → Bool → Bytes → State W (Transfer ℕ)
  send_loop zero blocking buf w = (pending, w)
  send_loop (suc fuel) blocking buf w =
      let (r, w1) = axtls.ssl_write buf w in
      elim r [
        | wrote_none ↦ elim blocking [
          | true ↦ send_loop fuel true buf w1
          | false ↦ (transfer_error mp_eagain, w1)
        ]
        | write_failed n ↦
            (elim (failure_code n) [ none ↦ transferred 0 | some e ↦ transfer_error e ], w1)
        | wrote n ↦ (transferred n, w1)
      ]

  pub socket_write : ℕ → Bytes → State (Socket × W) (Transfer ℕ)
  socket_write fuel buf (o, w) =
      if not o.ssl_sock
      then (transfer_error ebadf, (o, w))
      else (let (r, w1) = send_loop fuel o.blocking buf w in (r, (o, w1)))

  -- Requests that go on to the socket underneath.
  pub forward_ioctl : ℕ → State (Socket × W) ℕ
  forward_ioctl request (o, w) =
      if o.has_sock then (let (r, w1) = axtls.sock_ioctl request w in (r, (o, w1))) else (0, (o, w))

  -- MP_STREAM_CLOSE, whose number is a parameter.
  pub socket_close : ℕ → State (Socket × W) ℕ
  socket_close request (o, w) =
      if not o.ssl_sock
      then (0, (o, w))
      else (let (_, w1) = axtls.ssl_free w in
          forward_ioctl request (record o { ssl_sock = false }, w1))

  -- The mode is kept only where the method of the socket underneath returns.
  pub socket_setblocking : Bool → State (Socket × W) (Outcome Unit)
  socket_setblocking flag (o, w) =
      let (res, w1) = axtls.sock_setblocking flag w in
      elim res [
        | returned r ↦ (returned r, (record o { blocking = flag }, w1))
        | threw e ↦ (threw e, (o, w1))
      ]
