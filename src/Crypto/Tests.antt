-- ===== src/Crypto/Tests.antt =====
-- Runs of the crypto backend on small parameters: a digest that keeps the start of its message, an AES that mixes
-- nothing but the counter, and signatures that are always the same.
use freedos_micro_python.Prelude.{
  ℕ, ◌+◌, ◌-◌, ◌^◌, ◌≡◌, ◌∙◌, sym, ap, refl, true, false, inr, Option, none, some, List, [], ◌∷◌,
  ◌++◌, append-nil, append_assoc, Bytes, codes, length, get_or, take, replicate, length-take,
  length-append, ◌==◌, arith,
}
use freedos_micro_python.Crypto.{
  Algo, sha1, hash_algo, hash_size, Digests, HashCtx, HmacCtx, update_trace, hex, hex_digit,
}
use freedos_micro_python.Crypto.Padding.{length-replicate}
use freedos_micro_python.Crypto.Hmac.{
  concat, absorb, digest, digest_pieces, IsDigest, hmac_run, rfc_hmac, hmac_run-rfc,
}
use freedos_micro_python.Crypto.Cipher.{Aes, CipherCtx, cipher_crypt, increment}
use freedos_micro_python.Crypto.Cipher.Counter.{big_endian}
use freedos_micro_python.Crypto.Cipher.Stream.{IsFour, IsStreamed, cipher_crypt-IsStreamed}
use freedos_micro_python.Crypto.Cipher.RoundTrip.{session, session-packets}
use freedos_micro_python.Crypto.Bignum.{
  Bn, bn_init, bn_from_bin, bn_set_word, bn_bits, strip, bn_ensure, word_bytes, bit_count,
}
use freedos_micro_python.Crypto.Bignum.Value.{number, IsLoaded, bn_from_bin-IsLoaded}
use freedos_micro_python.Crypto.Keys.{
  Memory, Ed25519Ctx, Nacl, curve25519_new, dump, zeros, hash_line, keytype,
}
use freedos_micro_python.Crypto.Keys.Balance.{sign, agree_on, derive, run_calls, run_calls-held}
use freedos_micro_python.Crypto.Keys.Scalar.{IsScalar, curve25519_new-IsScalar}
use freedos_micro_python.Crypto.Keys.Signing.{ample}

abbrev padded : ℕ → Bytes → Bytes
padded n s = take n (s ++ replicate n 0)

abbrev starts : Digests Bytes
starts = record { init = λ a. []; update = λ a m s. s ++ m; final = λ a s. padded (hash_size a) s }

length-padded : (n : ℕ) (s : Bytes) → length (padded n s) ≡ n
length-padded n s =
    omega (
      arith,
      length-take n (s ++ replicate n 0),
      length-append s (replicate n 0),
      length-replicate n,
    )

absorb-starts : (a : Algo) (ps : List Bytes) (s : Bytes) → absorb starts a ps s ≡ s ++ concat ps
unfolding absorb
absorb-starts a [] s = sym (append-nil s)
absorb-starts a (p ∷ ps) s = absorb-starts a ps (s ++ p) ∙ append_assoc s p (concat ps)

starts-IsDigest : IsDigest starts
unfolding digest_pieces digest
starts-IsDigest = record {
  sized = λ a s. length-padded (hash_size a) s;
  pieces = λ a ps. ap (padded (hash_size a)) (absorb-starts a ps []);
}

abbrev any_hash : HashCtx Bytes
any_hash = record { algo = 9; storage = [] }

abbrev any_hmac : HmacCtx Bytes
any_hmac = record {
  hmac_algo = 0;
  hmac_hash_size = 0;
  hmac_block_size = 0;
  k_opad = replicate 128 0;
  inner = any_hash;
}

hmac_run-rfc_example :
    hmac_run starts any_hash any_hmac 1 (codes "key") (codes "ab" ∷ [] ∷ codes "c" ∷ []) []
    ≡ (true, some (rfc_hmac starts sha1 (codes "key") (concat (codes "ab" ∷ [] ∷ codes "c" ∷ []))))
unfolding hash_algo
hmac_run-rfc_example =
    hmac_run-rfc starts any_hash any_hmac 1 sha1 (codes "key") (codes "ab" ∷ [] ∷ codes "c" ∷ []) []
      starts-IsDigest refl

traced : update_trace (codes "A") ≡ codes "[hu:0001:41]"
unfolding update_trace hex hex_digit
traced = refl

abbrev counting : Aes Bytes
counting = record {
  set_key = λ secret iv mode. secret;
  convert_key = λ s. s;
  aes_encrypt = λ s ws. get_or ws 3 0 ∷ 17 ∷ get_or ws 0 0 ∷ 90 ∷ [];
  cbc_encrypt = λ s block. (block, s);
  cbc_decrypt = λ s block. (block, s);
}

counting-IsFour : IsFour counting
counting-IsFour = record { four = λ aes ws h. refl }

abbrev last_counter : CipherCtx Bytes
last_counter = record { keylen_bits = 128; ctr_iv = replicate 16 255; is_ctr = true; aes = [] }

wrapped : increment 16 (replicate 16 255) ≡ replicate 16 0
unfolding increment
wrapped = refl

abbrev message : Bytes
message = codes "seventeen letters"

cipher_crypt-IsStreamed_example : IsStreamed counting [] (2 ^ 128 - 1) message (
  (cipher_crypt counting true message last_counter).0,
  (cipher_crypt counting true message last_counter).1.ctr_iv,
)
unfolding big_endian
cipher_crypt-IsStreamed_example =
    cipher_crypt-IsStreamed counting true message last_counter (2 ^ 128 - 1) counting-IsFour refl
      refl

session-packets_example :
    session counting 6
      (replicate 16 255)
      (1 ∷ 2 ∷ [])
      (message ∷ codes "x" ∷ [])
      last_counter
      last_counter
    ≡ some (message ∷ codes "x" ∷ [])
session-packets_example =
    session-packets counting 6 (replicate 16 255) (1 ∷ 2 ∷ []) (message ∷ codes "x" ∷ [])
      last_counter last_counter counting-IsFour (inr refl) (omega arith) (omega arith) (omega arith)

bn_from_bin-IsLoaded_example :
    (b' : Bn) × (bn_from_bin (λ n. true) (0 ∷ 0 ∷ 1 ∷ 2 ∷ []) bn_init ≡ some b')
    × IsLoaded (λ n. true) (number (0 ∷ 0 ∷ 1 ∷ 2 ∷ [])) b'
bn_from_bin-IsLoaded_example =
    bn_from_bin-IsLoaded (λ n. true) (0 ∷ 0 ∷ 1 ∷ 2 ∷ []) bn_init (omega arith) (λ n h. refl)

bits_of_258 : bn_bits (bn_set_word (λ n. true) 258 bn_init) ≡ 9
unfolding bn_bits bn_set_word bn_init strip bn_ensure word_bytes bit_count
bits_of_258 = refl

short_hash_line : hash_line (0xAB ∷ []) ≡ codes "[H:ab" ++ (replicate 14 0 ++ codes "]")
unfolding hash_line dump zeros hex hex_digit
short_hash_line = refl

abbrev next_string : List Bytes → Option Bytes × List Bytes
next_string [] = (none, [])
next_string (s ∷ rest) = (some s, rest)

-- The file is one key; what stands in it does not matter.
abbrev key_file : List Bytes
key_file = keytype ∷ replicate 32 5 ∷ replicate 64 6 ∷ []

abbrev constant : Nacl (List Bytes)
constant = record {
  scalarmult_base = λ k. k;
  scalarmult = λ k p. some p;
  crypto_sign = λ text k. some (replicate 64 7 ++ text);
  opens = λ k signed. get_or signed 0 0 == 7;
  pem_parse = λ file passphrase. some key_file;
  get_string = next_string;
  store_str = λ s. s;
}

curve25519_new-IsScalar_example :
    (k : Bytes) × ((curve25519_new constant (replicate 32 255) (ample 2 [])).0 ≡ some (k, k))
    × IsScalar k
curve25519_new-IsScalar_example =
    curve25519_new-IsScalar constant (replicate 32 255) (ample 2 []) refl (omega arith) refl

abbrev key_pair : Ed25519Ctx
key_pair = record { public_key = replicate 32 5; private_key = replicate 64 6; have_private = true }

abbrev scarce : Memory
scarce = record { outcomes = true ∷ false ∷ true ∷ []; held = 3; console = [] }

run_calls-held_example :
    (run_calls constant
      (sign key_pair message ∷ agree_on (some bn_init) [] [] ∷ derive [] none ∷ [])
      scarce).1.held
    ≡ 3
      + (run_calls constant
          (sign key_pair message ∷ agree_on (some bn_init) [] [] ∷ derive [] none ∷ [])
          scarce).0
run_calls-held_example =
    run_calls-held constant
      (sign key_pair message ∷ agree_on (some bn_init) [] [] ∷ derive [] none ∷ []) scarce
