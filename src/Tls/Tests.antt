-- ===== src/Tls/Tests.antt =====
-- Runs of the tls module on a small axTLS, whose state is a counter: the first read finds nothing, and each
-- one after it a record of two bytes.
use freedos_micro_python.Prelude.{
  ℕ, zero, suc, ◌+◌, ◌≡◌, refl, true, false, not, none, some, [], ◌∷◌, ◌++◌, Bytes, codes, ◌==◌,
  if◌then◌else◌, arith,
}
use freedos_micro_python.Tls.{
  Axtls, Context, Read, read_none, read_some, wrote_none, returned, threw, ssl, cert_required,
  verify_mode_error, store_verify_mode, error_string, load_identity, client_options, connect,
  new_socket, wrap_socket,
}
use freedos_micro_python.Tls.Methods.Received.{
  brought, IsCounted, IsPiece, read_all, read_all-IsPiece,
}
use freedos_micro_python.Tls.Verified.{IsVerifying, wrap_socket-valid}

abbrev next_record : ℕ → Read × ℕ
next_record zero = (read_none, 1)
next_record (suc n) = (read_some 65 (66 ∷ []), suc (suc n))

abbrev decrypted : ℕ → Bytes
decrypted zero = []
decrypted (suc zero) = []
decrypted (suc (suc n)) = decrypted (suc n) ++ (65 ∷ 66 ∷ [])

abbrev small : Axtls ℕ
small = record {
  not_ok = 1;
  conn_lost = 256;
  ctx_new = λ w. (true, w);
  load_ca = λ data_ w. (none, w);
  load_key = λ data_ w. (none, w);
  load_cert = λ data_ w. (none, w);
  server_new = λ options w. (tt, w);
  client_new = λ options name w. (tt, if options.verify_later then 0 else w + 1);
  handshake_status = λ w. (none, w);
  ssl_read = next_record;
  ssl_write = λ data_ w. (wrote_none, w);
  ssl_free = λ w. (tt, w);
  poll_hook = λ w. (tt, w);
  sock_ioctl = λ request w. (0, w);
  sock_setblocking = λ flag w. (returned tt, w);
}

bad_certificate : error_string small (ssl 268) ≡ some (codes "BAD_CERTIFICATE")
unfolding error_string
bad_certificate = refl

abbrev context : Context
context = record {
  key = none;
  cert = none;
  options = record { verify_later = true; connect_in_parts = false; no_default_key = false };
  verify_mode = cert_required;
}

mode_one : store_verify_mode 1 context ≡ threw verify_mode_error
unfolding store_verify_mode
mode_one = refl

counted : (w : ℕ) → decrypted (next_record w).1 ≡ decrypted w ++ brought (next_record w).0
counted zero = refl
counted (suc n) = refl

positive : (w : ℕ) → not (w + 1 == 0) ≡ true
positive w = ground arith

small-IsCounted : IsCounted small decrypted
small-IsCounted = record { reads = counted; polls = λ w. refl }

small-IsVerifying : IsVerifying small (λ w. not (w == 0))
small-IsVerifying = record { checked = λ options name w strict ok. simp strict (positive w) }

read_all-IsPiece_example :
    IsPiece small decrypted new_socket 0
      (read_all small decrypted 9 (1 ∷ 5 ∷ 1 ∷ []) (new_socket, 0)).0
      (read_all small decrypted 9 (1 ∷ 5 ∷ 1 ∷ []) (new_socket, 0)).1
read_all-IsPiece_example =
    read_all-IsPiece small decrypted 9 (1 ∷ 5 ∷ 1 ∷ []) new_socket 0 small-IsCounted

wrap_small : (wrap_socket small context false true (some (codes "h")) 0).0.0 ≡ returned new_socket
unfolding wrap_socket load_identity client_options connect
wrap_small = refl

wrap_socket-valid_example :
    not ((wrap_socket small context false true (some (codes "h")) 0).1 == 0) ≡ true
wrap_socket-valid_example =
    wrap_socket-valid small (λ w. not (w == 0)) context (some (codes "h")) 0 new_socket
      small-IsVerifying refl wrap_small
