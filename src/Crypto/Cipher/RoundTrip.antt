-- ===== src/Crypto/Cipher/RoundTrip.antt =====
-- Decryption of what was encrypted in CTR mode, from `cipher_init` on, in libssh2_axtls.c.
use Prim.Native.Nat.{bit_xor}
use freedos_micro_python.Prelude.{
  ℕ, zero, suc, ◌+◌, ◌/◌, ◌≤◌, ◌≡◌, ◌∙◌, sym, ap, refl, Bool, true, false, ◌⊎◌, inl, inr, Option,
  none, some, List, [], ◌∷◌, Bytes, length, get_or, take, length-take, All, IsByte, arith,
}
use freedos_micro_python.Crypto.Cipher.{
  AesMode, aes_mode_128, aes_mode_256, Aes, CipherCtx, cipher_mode, cipher_init, cipher_crypt,
}
use freedos_micro_python.Crypto.Cipher.Positions.{get_or-All, bit_xor_twice, Bytes-path}
use freedos_micro_python.Crypto.Cipher.Counter.{big_endian, big_endian-whole, number_from}
use freedos_micro_python.Crypto.Cipher.Stream.{
  key_byte, IsFour, key_byte-small, cipher_crypt-IsStreamed,
}

take-All : (n : ℕ) (xs : Bytes) → All IsByte xs → All IsByte (take n xs)
take-All zero xs h = tt
take-All (suc n) [] h = tt
take-All (suc n) (x ∷ xs) h = (h.0, take-All n xs h.1)

module _ {S : Type 0} (axtls : Aes S) where
  -- Packets one after another.
  pub crypt_all : Bool → List Bytes → CipherCtx S → List Bytes × CipherCtx S
  crypt_all encrypt [] ctx = ([], ctx)
  crypt_all encrypt (p ∷ ps) ctx =
      let (out, ctx1) = cipher_crypt axtls encrypt p ctx in
      let (outs, ctx2) = crypt_all encrypt ps ctx1 in (out ∷ outs, ctx2)

  -- Both sides have the key, the mode and the counter of the other.
  pub record IsPaired (v : ℕ) (s r : CipherCtx S) : Type 0 where
    pub same_key : s.aes ≡ r.aes
    pub s_ctr : s.is_ctr ≡ true
    pub r_ctr : r.is_ctr ≡ true
    pub s_iv : s.ctr_iv ≡ big_endian 16 v
    pub r_iv : r.ctr_iv ≡ big_endian 16 v

  cipher_crypt-kept :
      (encrypt : Bool) (p : Bytes) (ctx : CipherCtx S)
      → ctx.is_ctr ≡ true
      → ((cipher_crypt axtls encrypt p ctx).1.aes ≡ ctx.aes)
        × ((cipher_crypt axtls encrypt p ctx).1.is_ctr ≡ true)
  unfolding cipher_crypt
  cipher_crypt-kept encrypt p ctx e = simp (cipher_crypt, e) (refl, refl)

  cipher_crypt_twice :
      (p : Bytes) (v : ℕ) (s r : CipherCtx S)
      → IsFour axtls
      → All IsByte p
      → IsPaired v s r
      → (cipher_crypt axtls false (cipher_crypt axtls true p s).0 r).0 ≡ p
  cipher_crypt_twice p v s r laws bytes pair =
      let there = cipher_crypt-IsStreamed axtls true p s v laws pair.s_ctr pair.s_iv in
      let code = (cipher_crypt axtls true p s).0 in
      let back = cipher_crypt-IsStreamed axtls false code r v laws pair.r_ctr pair.r_iv in
      Bytes-path (cipher_crypt axtls false code r).0 p (back.same_length ∙ there.same_length)
        (λ j inside.
          back.mixed j (omega (arith, back.same_length))
          ∙ ap (λ b. bit_xor b (key_byte axtls r.aes v j))
              (there.mixed j (omega (arith, back.same_length, there.same_length)))
          ∙ ap
              (λ k.
                bit_xor (bit_xor (get_or p j 0) (key_byte axtls k v j)) (key_byte axtls r.aes v j))
              pair.same_key
          ∙ bit_xor_twice (get_or p j 0) (key_byte axtls r.aes v j) (get_or-All p j bytes)
              (key_byte-small axtls r.aes v j))

  cipher_crypt-IsPaired :
      (p : Bytes) (v : ℕ) (s r : CipherCtx S)
      → IsFour axtls
      → IsPaired v s r
      → IsPaired
          (v + (length p + 15) / 16)
          (cipher_crypt axtls true p s).1
          (cipher_crypt axtls false (cipher_crypt axtls true p s).0 r).1
  cipher_crypt-IsPaired p v s r laws pair =
      let there = cipher_crypt-IsStreamed axtls true p s v laws pair.s_ctr pair.s_iv in
      let code = (cipher_crypt axtls true p s).0 in
      let back = cipher_crypt-IsStreamed axtls false code r v laws pair.r_ctr pair.r_iv in
      let s_kept = cipher_crypt-kept true p s pair.s_ctr in
      let r_kept = cipher_crypt-kept false code r pair.r_ctr in
      record {
        same_key = s_kept.0 ∙ pair.same_key ∙ sym r_kept.0;
        s_ctr = s_kept.1;
        r_ctr = r_kept.1;
        s_iv = there.counted;
        r_iv = back.counted ∙ ap (λ n. big_endian 16 (v + (n + 15) / 16)) there.same_length;
      }

  crypt_all_twice :
      (ps : List Bytes) (v : ℕ) (s r : CipherCtx S)
      → IsFour axtls
      → All (All IsByte) ps
      → IsPaired v s r
      → (crypt_all false (crypt_all true ps s).0 r).0 ≡ ps
  unfolding crypt_all
  crypt_all_twice [] v s r laws bytes pair = refl
  crypt_all_twice (p ∷ ps) v s r laws bytes pair =
      let s1 = (cipher_crypt axtls true p s).1 in
      let r1 = (cipher_crypt axtls false (cipher_crypt axtls true p s).0 r).1 in
      λ i.
        cipher_crypt_twice p v s r laws bytes.0 pair i
        ∷ crypt_all_twice ps (v + (length p + 15) / 16) s1 r1 laws bytes.1
            (cipher_crypt-IsPaired p v s r laws pair) i

  -- Both sides from the start.
  pub session : ℕ → Bytes → Bytes → List Bytes → CipherCtx S → CipherCtx S → Option (List Bytes)
  session algo iv secret ps before after = elim (cipher_init axtls algo iv secret true before) [
    | none ↦ none
    | some s ↦ elim (cipher_init axtls algo iv secret false after) [
      | none ↦ none
      | some r ↦ some (crypt_all false (crypt_all true ps s).0 r).0
    ]
  ]

  IsPaired-start :
      (iv secret : Bytes) (mode : AesMode) (bits : ℕ)
      → 16 ≤ length iv
      → All IsByte iv
      → IsPaired
          (number_from 0 (take 16 iv))
          (record {
            keylen_bits = bits;
            ctr_iv = take 16 iv;
            is_ctr = true;
            aes = axtls.set_key secret iv mode;
          })
          (record {
            keylen_bits = bits;
            ctr_iv = take 16 iv;
            is_ctr = true;
            aes = axtls.set_key secret iv mode;
          })
  IsPaired-start iv secret mode bits long bytes =
      let sized : length (take 16 iv) ≡ 16 = omega (arith, length-take 16 iv) in
      let number : take 16 iv ≡ big_endian 16 (number_from 0 (take 16 iv)) =
        sym (big_endian-whole (take 16 iv) (take-All 16 iv bytes))
        ∙ ap (λ n. big_endian n (number_from 0 (take 16 iv))) sized in
      record { same_key = refl; s_ctr = refl; r_ctr = refl; s_iv = number; r_iv = number }

  -- On an AES that gives four words, with the same key and the same initial vector of at least sixteen bytes on both
  -- sides, aes128-ctr and aes256-ctr are set up, and the receiver gets every packet as it was sent, whatever
  -- number of packets, of whatever lengths, went before.
  pub session-packets :
      (algo : ℕ) (iv secret : Bytes) (ps : List Bytes) (before after : CipherCtx S)
      → IsFour axtls
      → (algo ≡ 4) ⊎ (algo ≡ 6)
      → 16 ≤ length iv
      → All IsByte iv
      → All (All IsByte) ps
      → session algo iv secret ps before after ≡ some ps
  unfolding session cipher_init cipher_mode
  session-packets algo iv secret ps before after laws (inl e) long bytes all_bytes = rw e (
      ap some (
        crypt_all_twice ps (number_from 0 (take 16 iv)) _ _ laws all_bytes
          (IsPaired-start iv secret aes_mode_128 128 long bytes)))
  session-packets algo iv secret ps before after laws (inr e) long bytes all_bytes = rw e (
      ap some (
        crypt_all_twice ps (number_from 0 (take 16 iv)) _ _ laws all_bytes
          (IsPaired-start iv secret aes_mode_256 256 long bytes)))
