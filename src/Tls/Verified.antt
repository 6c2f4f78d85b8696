-- ===== src/Tls/Verified.antt =====
-- Certificate verification in `wrap_socket` of modtls_axtls_uc386dos.c.
use freedos_micro_python.Prelude.{
  ◌≡◌, ap, Bool, true, false, not, Option, none, Bytes, Option-cases, inl, inr, ◌==◌, arith,
}
use freedos_micro_python.Tls.{
  Axtls, Context, Socket, Options, Outcome, returned, threw, cert_required, load_identity,
  client_options, connect, wrap_socket,
}

abbrev has_returned : Outcome Socket → Bool
has_returned (returned s) = true
has_returned (threw e) = false

module _ {W : Type 0} (axtls : Axtls W) (valid : W → Bool) where
  -- A client session that is made without VERIFY_LATER completes its handshake only on a valid chain.
  pub record IsVerifying : Type 0 where
    pub checked :
        (options : Options) (name : Option Bytes) (w : W)
        → options.verify_later ≡ false
        → (axtls.handshake_status (axtls.client_new options name w).1).0 ≡ none
        → valid (axtls.handshake_status (axtls.client_new options name w).1).1 ≡ true

  -- On an axTLS that verifies chains as it documents, a context with `verify_mode` CERT_REQUIRED that wraps a socket
  -- as a client with the handshake returns a socket only if the chain of the server is valid,
  -- whatever options earlier sockets have left in the context.
  pub wrap_socket-valid :
      (self : Context) (name : Option Bytes) (w : W) (o : Socket)
      → IsVerifying
      → self.verify_mode ≡ cert_required
      → (wrap_socket axtls self false true name w).0.0 ≡ returned o
      → valid (wrap_socket axtls self false true name w).1 ≡ true
  unfolding wrap_socket connect client_options
  wrap_socket-valid self name w o laws required ok =
      let w1 = (load_identity axtls self w).1 in
      let options = client_options true self in
      let strict : options.verify_later ≡ false = ap (λ m. not (m == cert_required)) required in
      let status = axtls.handshake_status (axtls.client_new options name w1).1 in
      elim (Option-cases (load_identity axtls self w).0) [
        | inr (e, bad) ↦
            let t : false ≡ true = simp (wrap_socket, bad) at (ap has_returned ok) in
            absurd (ground arith)
        | inl good ↦ elim (Option-cases status.0) [
          | inl done_ ↦ simp (wrap_socket, good) (laws.checked options name w1 strict done_)
          | inr (n, bad) ↦
              let t : false ≡ true =
                simp (wrap_socket, good, connect, bad) at (ap has_returned ok) in
              absurd (ground arith)
        ]
      ]
