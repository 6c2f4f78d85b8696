-- ===== src/Tls/Methods/Received.antt =====
-- The bytes that reads of a socket of modtls_axtls_uc386dos.c give, against those that axTLS gives.
use freedos_micro_python.Prelude.{
  ℕ, zero, suc, ◌≡◌, ◌∙◌, sym, ap, refl, Bool, true, List, [], ◌∷◌, ◌++◌, Bytes, take-append-drop,
  append-nil, append_assoc, ◌⊎◌, Bool-cases, inl, inr, Option-cases,
}
use freedos_micro_python.Files.Stretches.{Bytes-cases}
use freedos_micro_python.Tls.{Axtls, Socket, Read, read_none, read_failed, read_some}
use freedos_micro_python.Tls.Methods.{
  Filled, filled, finished, endless, fill_error, Transfer, transferred, transfer_error, pending,
  failure_code, refill, serve_filled, socket_read,
}

-- The bytes that a read gives its caller.
pub given : Transfer Bytes → Bytes
given (transferred bytes) = bytes
given (transfer_error e) = []
given pending = []

-- The bytes that a result of `ssl_read` brings, and those that the loop does.
abbrev pub brought : Read → Bytes
brought read_none = []
brought (read_failed n) = []
brought (read_some c cs) = c ∷ cs

abbrev pub held : Filled → Bytes
held (filled bytes) = bytes
held finished = []
held endless = []
held (fill_error e) = []

Read-cases :
    (r : Read)
    → (r ≡ read_none)
      ⊎ (((n : ℕ) × (r ≡ read_failed n)) ⊎ ((c : ℕ) × ((cs : Bytes) × (r ≡ read_some c cs))))
Read-cases read_none = inl refl
Read-cases (read_failed n) = inr (inl (n, refl))
Read-cases (read_some c cs) = inr (inr (c, (cs, refl)))

module _ {W : Type 0} (axtls : Axtls W) (decrypted : W → Bytes) where
  -- `decrypted` is what axTLS has given the application so far.
  pub record IsCounted : Type 0 where
    pub reads :
        (w : W) → decrypted (axtls.ssl_read w).1 ≡ decrypted w ++ brought (axtls.ssl_read w).0
    pub polls : (w : W) → decrypted (axtls.poll_hook w).1 ≡ decrypted w

  -- A sequence of reads, of the sizes given: all bytes that they return, in order.
  pub read_all : ℕ → List ℕ → Socket × W → Bytes × (Socket × W)
  read_all fuel [] st = ([], st)
  read_all fuel (size ∷ sizes) st =
      let (r, st1) = socket_read axtls fuel size st in
      let (rest, st2) = read_all fuel sizes st1 in (given r ++ rest, st2)

  refill-held :
      (fuel : ℕ) (blocking : Bool) (w : W)
      → IsCounted
      → decrypted (refill axtls fuel blocking w).1
        ≡ decrypted w ++ held (refill axtls fuel blocking w).0
  unfolding refill
  refill-held zero blocking w laws = sym (append-nil (decrypted w))
  refill-held (suc fuel) blocking w laws =
      let w1 = (axtls.ssl_read w).1 in
      elim (Read-cases (axtls.ssl_read w).0) [
        | inl e ↦
            let same : decrypted w1 ≡ decrypted w =
              laws.reads w ∙ ap (λ r. decrypted w ++ brought r) e ∙ append-nil (decrypted w) in
            elim (Bool-cases blocking) [
              | inl b ↦
                  simp (refill, e, b)
                    (refill-held fuel true (axtls.poll_hook w1).1 laws
                      ∙ ap (λ t. t ++ held (refill axtls fuel true (axtls.poll_hook w1).1).0)
                          (laws.polls w1 ∙ same))
              | inr b ↦ simp (refill, e, b) (same ∙ sym (append-nil (decrypted w)))
            ]
        | inr (inl (n, e)) ↦
            let same : decrypted w1 ≡ decrypted w ++ [] =
              laws.reads w ∙ ap (λ r. decrypted w ++ brought r) e in
            elim (Option-cases (failure_code axtls n)) [
              | inl c ↦ simp (refill, e, c) same
              | inr (code, c) ↦ simp (refill, e, c) same
            ]
        | inr (inr (c, (cs, e))) ↦
            simp (refill, e) (laws.reads w ∙ ap (λ r. decrypted w ++ brought r) e)
      ]

  -- What was given and what is still in the buffer.
  serve_filled-given :
      (size : ℕ) (o : Socket) (f : Filled)
      → o.buf ≡ []
      → given (serve_filled size o f).0 ++ (serve_filled size o f).1.buf ≡ held f
  unfolding given serve_filled
  serve_filled-given size o (filled bytes) e = take-append-drop size bytes
  serve_filled-given size o finished e = e
  serve_filled-given size o endless e = e
  serve_filled-given size o (fill_error c) e = e

  -- One read: what is decrypted by then, less what was, is what the buffer lacked.
  pub record IsPiece (o : Socket) (w : W) (bytes : Bytes) (st : Socket × W) : Type 0 where
    pub fresh : Bytes
    pub arrived : decrypted st.1 ≡ decrypted w ++ fresh
    pub conserved : bytes ++ st.0.buf ≡ o.buf ++ fresh

  socket_read-IsPiece :
      (fuel size : ℕ) (o : Socket) (w : W)
      → IsCounted
      → IsPiece o w
          (given (socket_read axtls fuel size (o, w)).0)
          (socket_read axtls fuel size (o, w)).1
  unfolding socket_read given serve_filled
  socket_read-IsPiece fuel size o w laws = elim (Bool-cases o.ssl_sock) [
    | inr closed ↦ simp closed (record {
      fresh = [];
      arrived = sym (append-nil (decrypted w));
      conserved = sym (append-nil o.buf);
    })
    | inl open_ ↦ elim (Bytes-cases o.buf) [
      | inr (c, (cs, e)) ↦
          simp (socket_read, open_, e)
            (record {
              fresh = [];
              arrived = sym (append-nil (decrypted w));
              conserved = take-append-drop size (c ∷ cs) ∙ (sym e ∙ sym (append-nil o.buf));
            })
      | inl e ↦
          simp (socket_read, open_, e)
            (let f = (refill axtls fuel o.blocking w).0 in
              record {
                fresh = held f;
                arrived = refill-held fuel o.blocking w laws;
                conserved = serve_filled-given size o f e ∙ ap (λ b. b ++ held f) (sym e);
              })
    ]
  ]

  -- Reads of a socket, of any sizes and in any number, neither lose nor repeat nor reorder a byte, also where
  -- they fail, reach the end of the stream or run on an exhausted fuel: what they return, followed by what the buffer
  -- still holds, is what the buffer held, followed by what axTLS has decrypted since.
  pub read_all-IsPiece :
      (fuel : ℕ) (sizes : List ℕ) (o : Socket) (w : W)
      → IsCounted
      → IsPiece o w (read_all fuel sizes (o, w)).0 (read_all fuel sizes (o, w)).1
  unfolding read_all
  read_all-IsPiece fuel [] o w laws = record {
    fresh = [];
    arrived = sym (append-nil (decrypted w));
    conserved = sym (append-nil o.buf);
  }
  read_all-IsPiece fuel (size ∷ sizes) o w laws =
      let bytes = given (socket_read axtls fuel size (o, w)).0 in
      let (o1, w1) = (socket_read axtls fuel size (o, w)).1 in
      let first = socket_read-IsPiece fuel size o w laws in
      let rest = read_all-IsPiece fuel sizes o1 w1 laws in
      record {
        fresh = first.fresh ++ rest.fresh;
        arrived =
            rest.arrived
            ∙ ap (λ t. t ++ rest.fresh) first.arrived
            ∙ append_assoc (decrypted w) first.fresh rest.fresh;
        conserved =
            append_assoc bytes _ _
            ∙ ap (λ t. bytes ++ t) rest.conserved
            ∙ sym (append_assoc bytes o1.buf rest.fresh)
            ∙ ap (λ t. t ++ rest.fresh) first.conserved
            ∙ append_assoc o.buf first.fresh rest.fresh;
      }
