-- ===== src/Crypto/Hmac.antt =====
-- The HMAC of libssh2_axtls.c against RFC 2104.
use Prim.Native.Nat.{bit_xor}
use freedos_micro_python.Prelude.{
  ℕ, ◌-◌, ◌≡◌, ◌∙◌, ap, refl, Bool, true, inl, inr, Bool-cases, Option, some, List, [], ◌∷◌, ◌++◌,
  map, append-nil, Bytes, length, take, drop, replicate, length-append, ltb, if◌then◌else◌, arith,
}
use freedos_micro_python.Crypto.Padding.{
  take-append-exact, take-pad, take-exact, length-map, length-replicate, sizes,
}
use freedos_micro_python.Crypto.{
  Algo, hash_algo, block_size, hash_size, Console, Digests, HashCtx, HmacCtx, hash_init,
  hash_update, hash_final, hash, key_block, hmac_init, hmac_update, hmac_final,
}

-- The pieces of a message in one.
abbrev pub concat : List Bytes → Bytes
concat [] = []
concat (p ∷ ps) = p ++ concat ps

module _ {S : Type 0} (axtls : Digests S) where
  unfoldable pub digest : Algo → Bytes → Bytes
  digest a m = axtls.final a (axtls.update a m (axtls.init a))

  unfoldable pub absorb : Algo → List Bytes → S → S
  absorb a [] s = s
  absorb a (p ∷ ps) s = absorb a ps (axtls.update a p s)

  unfoldable pub digest_pieces : Algo → List Bytes → Bytes
  digest_pieces a ps = axtls.final a (absorb a ps (axtls.init a))

  -- A digest has its documented length, and depends on the message, not on how updates cut it.
  pub record IsDigest : Type 0 where
    pub sized : (a : Algo) (s : S) → length (axtls.final a s) ≡ hash_size a
    pub pieces : (a : Algo) (ps : List Bytes) → digest_pieces a ps ≡ digest a (concat ps)

  -- RFC 2104: the key, hashed if it is longer than a block, is padded to a block with zeros.
  pub rfc_key : Algo → Bytes → Bytes
  rfc_key a key =
      let k = if ltb (block_size a) (length key) then digest a key else key in
      k ++ replicate (block_size a - length k) 0

  pub rfc_hmac : Algo → Bytes → Bytes → Bytes
  rfc_hmac a key text =
      let k = rfc_key a key in
      digest a (map (λ v. bit_xor v 0x5c) k ++ digest a (map (λ v. bit_xor v 0x36) k ++ text))

  -- The calls for a message in pieces.
  pub hmac_updates : List Bytes → HmacCtx S → Console → HmacCtx S × Console
  hmac_updates [] ctx out = (ctx, out)
  hmac_updates (p ∷ ps) ctx out =
      let ((_, ctx1), out1) = hmac_update axtls ctx p out in hmac_updates ps ctx1 out1

  length-rfc_key : (a : Algo) (key : Bytes) → IsDigest → length (rfc_key a key) ≡ block_size a
  unfolding rfc_key digest
  length-rfc_key a key laws = elim (Bool-cases (ltb (block_size a) (length key))) [
    | inl long ↦
        simp (rfc_key, long)
          (omega (
            arith,
            length-append (digest a key) (replicate (block_size a - length (digest a key)) 0),
            length-replicate (block_size a - length (digest a key)),
            laws.sized a (axtls.update a key (axtls.init a)),
            sizes a,
          ))
    | inr short ↦
        simp (rfc_key, short)
          (ground (
            arith,
            length-append key (replicate (block_size a - length key) 0),
            length-replicate (block_size a - length key),
          ))
  ]

  abbrev pub ready : ℕ → Algo → HashCtx S
  ready algo a = record { algo = algo; storage = axtls.init a }

  -- What the calls do where the algorithm is known.
  hash_init-known :
      (algo : ℕ) (a : Algo) (c : HashCtx S) (out : Console)
      → hash_algo algo ≡ some a
      → (hash_init axtls algo c out).0 ≡ (true, ready algo a)
  unfolding hash_init
  hash_init-known algo a c out e = simp (hash_init, e) refl

  hash_update-known :
      (a : Algo) (c : HashCtx S) (input : Bytes) (out : Console)
      → hash_algo c.algo ≡ some a
      → (hash_update axtls c input out).0
        ≡ (true, record c { storage = axtls.update a input c.storage })
  unfolding hash_update
  hash_update-known a c input out e = simp (hash_update, e) refl

  hash_final-known :
      (a : Algo) (c : HashCtx S)
      → hash_algo c.algo ≡ some a
      → hash_final axtls c ≡ some (axtls.final a c.storage)
  unfolding hash_final
  hash_final-known a c e = simp (hash_final, e) refl

  hash-known :
      (c : HashCtx S) (input : Bytes) (algo : ℕ) (a : Algo) (out : Console)
      → hash_algo algo ≡ some a
      → (hash axtls c input algo out).0 ≡ some (digest a input)
  unfolding hash digest
  hash-known c input algo a out e =
      simp
        (
          hash,
          hash_init-known algo a c out e,
          hash_update-known a (ready algo a) input (hash_init axtls algo c out).1 e,
        )
        (hash_final-known a (record { algo = algo; storage = axtls.update a input (axtls.init a) })
          e)

  -- The context after the initialisation; the bytes of `k_opad` behind the block are those that were there.
  abbrev keyed : ℕ → Algo → Bytes → Bytes → HmacCtx S
  keyed algo a key old = record {
    hmac_algo = algo;
    hmac_hash_size = hash_size a;
    hmac_block_size = block_size a;
    k_opad = map (λ v. bit_xor v 0x5c) (rfc_key a key) ++ drop (block_size a) old;
    inner = record {
      algo = algo;
      storage = axtls.update a (map (λ v. bit_xor v 0x36) (rfc_key a key)) (axtls.init a);
    };
  }

  key_block-rfc :
      (c : HashCtx S) (a : Algo) (algo : ℕ) (key : Bytes) (out : Console)
      → IsDigest
      → hash_algo algo ≡ some a
      → take (block_size a) (key_block axtls c a algo key out).0 ≡ rfc_key a key
  unfolding key_block rfc_key digest
  key_block-rfc c a algo key out laws e = elim (Bool-cases (ltb (block_size a) (length key))) [
    | inl long ↦
        simp (key_block, rfc_key, long, hash-known c key algo a out e)
          (take-pad (block_size a) 128 (digest a key)
            (ground (arith, laws.sized a (axtls.update a key (axtls.init a)), sizes a)) (sizes a).0)
    | inr short ↦
        simp (key_block, rfc_key, short)
          (take-pad (block_size a) 128 key (ground arith) (sizes a).0)
  ]

  hmac_init-known :
      (c : HashCtx S) (ctx : HmacCtx S) (algo : ℕ) (a : Algo) (key : Bytes) (out : Console)
      → IsDigest
      → hash_algo algo ≡ some a
      → (hmac_init axtls c ctx algo key out).0 ≡ (true, keyed algo a key ctx.k_opad)
  unfolding hmac_init
  hmac_init-known c ctx algo a key out laws e =
      let out1 = (key_block axtls c a algo key out).1 in
      simp
        (
          hmac_init,
          e,
          key_block-rfc c a algo key out laws e,
          hash_init-known algo a ctx.inner out1 e,
          hash_update-known a (ready algo a) (map (λ v. bit_xor v 0x36) (rfc_key a key))
              (hash_init axtls algo ctx.inner out1).1 e,
        )
        refl

  hmac_updates-known :
      (a : Algo) (ps : List Bytes) (ctx : HmacCtx S) (out : Console)
      → hash_algo ctx.inner.algo ≡ some a
      → (hmac_updates ps ctx out).0 ≡ record ctx {
        inner = record { algo = ctx.inner.algo; storage = absorb a ps ctx.inner.storage };
      }
  unfolding hmac_updates hmac_update absorb
  hmac_updates-known a [] ctx out e = refl
  hmac_updates-known a (p ∷ ps) ctx out e =
      simp (hmac_updates, hmac_update, hash_update-known a ctx.inner p out e)
        (hmac_updates-known a ps
          (record ctx {
            inner = record { algo = ctx.inner.algo; storage = axtls.update a p ctx.inner.storage };
          })
          (hash_update axtls ctx.inner p out).1 e)

  hmac_final-known :
      (a : Algo) (outer : HashCtx S) (ctx : HmacCtx S) (out : Console)
      → hash_algo ctx.hmac_algo ≡ some a
      → hash_algo ctx.inner.algo ≡ some a
      → (hmac_final axtls outer ctx out).0
        ≡ some (
            digest_pieces a (
              take ctx.hmac_block_size ctx.k_opad
              ∷ take ctx.hmac_hash_size (axtls.final a ctx.inner.storage)
              ∷ []))
  unfolding hmac_final digest_pieces absorb
  hmac_final-known a outer ctx out e f =
      let opad = take ctx.hmac_block_size ctx.k_opad in
      let o1 = ready ctx.hmac_algo a in
      let o2 : HashCtx S = record o1 { storage = axtls.update a opad (axtls.init a) } in
      let inner_hash = take ctx.hmac_hash_size (axtls.final a ctx.inner.storage) in
      let out1 = (hash_init axtls ctx.hmac_algo outer out).1 in
      let out2 = (hash_update axtls o1 opad out1).1 in
      simp
        (
          hmac_final,
          hash_final-known a ctx.inner f,
          hash_init-known ctx.hmac_algo a outer out e,
          hash_update-known a o1 opad out1 e,
          hash_update-known a o2 inner_hash out2 e,
        )
        (hash_final-known a (record o2 { storage = axtls.update a inner_hash o2.storage }) e)

  -- The outer digest, where the arrays hold what was put there.
  digest_pieces-two :
      (a : Algo) (opad rest : Bytes) (s : S)
      → IsDigest
      → length opad ≡ block_size a
      → digest_pieces a
          (take (block_size a) (opad ++ rest) ∷ take (hash_size a) (axtls.final a s) ∷ [])
        ≡ digest a (opad ++ axtls.final a s)
  digest_pieces-two a opad rest s laws e =
      let d = axtls.final a s in
      rw (take-append-exact opad rest (block_size a) e, take-exact d (hash_size a) (laws.sized a s))
        (laws.pieces a (opad ∷ d ∷ []) ∙ ap (λ t. digest a (opad ++ t)) (append-nil d))

  -- The calls for a whole message: whether the first succeeded, and the output of the last.
  pub hmac_run : HashCtx S → HmacCtx S → ℕ → Bytes → List Bytes → Console → Bool × Option Bytes
  hmac_run c ctx algo key ps out =
      let ((ready, ctx1), out1) = hmac_init axtls c ctx algo key out in
      let (ctx2, out2) = hmac_updates ps ctx1 out1 in (ready, (hmac_final axtls c ctx2 out2).0)

  -- On digests that keep their documented behaviour, for each of the five algorithms, a key of any length and
  -- a message in any pieces, and whatever the contexts held before: the initialisation succeeds, and
  -- the final call gives the HMAC of RFC 2104 of the key and the message.
  pub hmac_run-rfc :
      (c : HashCtx S) (ctx : HmacCtx S) (algo : ℕ) (a : Algo) (key : Bytes) (ps : List Bytes)
      (out : Console)
      → IsDigest
      → hash_algo algo ≡ some a
      → hmac_run c ctx algo key ps out ≡ (true, some (rfc_hmac a key (concat ps)))
  unfolding hmac_run rfc_hmac digest_pieces absorb
  hmac_run-rfc c ctx algo a key ps out laws e =
      let k = rfc_key a key in
      let ipad = map (λ v. bit_xor v 0x36) k in
      let opad = map (λ v. bit_xor v 0x5c) k in
      let ctx1 = keyed algo a key ctx.k_opad in
      let out1 = (hmac_init axtls c ctx algo key out).1 in
      let ctx2 : HmacCtx S = record ctx1 {
        inner = record { algo = algo; storage = absorb a ps ctx1.inner.storage };
      } in
      let out2 = (hmac_updates ps ctx1 out1).1 in
      let whole : axtls.final a (absorb a ps (axtls.update a ipad (axtls.init a)))
          ≡ digest a (ipad ++ concat ps) =
        laws.pieces a (ipad ∷ ps) in
      simp
        (
          hmac_run,
          hmac_init-known c ctx algo a key out laws e,
          hmac_updates-known a ps ctx1 out1 e,
          hmac_final-known a c ctx2 out2 e e,
        )
        (ap (λ d. (true, some d))
          (digest_pieces-two a opad (drop (block_size a) ctx.k_opad)
              (absorb a ps ctx1.inner.storage) laws
              (length-map (λ v. bit_xor v 0x5c) k ∙ length-rfc_key a key laws)
            ∙ ap (λ d. digest a (opad ++ d)) whole))
