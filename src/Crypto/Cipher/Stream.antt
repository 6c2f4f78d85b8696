-- ===== src/Crypto/Cipher/Stream.antt =====
-- AES-CTR of libssh2_axtls.c as a stream of key bytes, numbered from the counter's first value.
use Prim.Native.Nat.{bit_xor}
use freedos_micro_python.Prelude.{
  ℕ, zero, suc, ◌+◌, ◌-◌, ◌*◌, ◌/◌, ◌%◌, ◌<◌, ◌≤◌, ◌≡◌, ◌∙◌, sym, ap, refl, Bool, true, Bool-cases,
  inl, inr, List, [], ◌∷◌, ◌++◌, append-nil, min, Bytes, length, get_or, take, drop, length-append,
  length-take, length-drop, ltb, ltb→lt, All, All-append, IsByte, arith,
}
use freedos_micro_python.Crypto.Cipher.{
  Aes, CipherCtx, load_words, store_words, increment, xor_bytes, keystream, ctr_loop, cipher_crypt,
}
use freedos_micro_python.Crypto.Cipher.Positions.{
  length-xor_bytes, get_or-xor_bytes, get_or-take, get_or-drop, get_or-append_left,
  get_or-append_right, get_or-All,
}
use freedos_micro_python.Crypto.Cipher.Counter.{
  big_endian, big_endian-All, big_words, length-big_endian, increment-big_endian, length-big_words,
  load_words-big_endian, store_words-cons,
}

-- The words of a block as bytes, the highest of each word first.
pub stored : List ℕ → Bytes
stored [] = []
stored (w ∷ ws) = big_endian 4 w ++ stored ws

store_words-stored : (ws : List ℕ) → store_words ws ≡ stored ws
unfolding stored store_words
store_words-stored [] = refl
store_words-stored (w ∷ ws) =
    store_words-cons w ws ∙ ap (λ t. big_endian 4 w ++ t) (store_words-stored ws)

length-stored : (ws : List ℕ) → length (stored ws) ≡ 4 * length ws
unfolding stored
length-stored [] = refl
length-stored (w ∷ ws) =
    omega
      (arith, length-append (big_endian 4 w) (stored ws), length-big_endian 4 w, length-stored ws)

next_counter : (v : ℕ) → increment 16 (big_endian 16 v) ≡ big_endian 16 (v + 1)
next_counter v =
    ap (increment 16) (sym (append-nil (big_endian 16 v)))
    ∙ increment-big_endian 16 v []
    ∙ append-nil (big_endian 16 (v + 1))

stored-All : (ws : List ℕ) → All IsByte (stored ws)
unfolding stored
stored-All [] = tt
stored-All (w ∷ ws) =
    All-append IsByte (big_endian 4 w) (stored ws) (big_endian-All 4 w) (stored-All ws)

module _ {S : Type 0} (axtls : Aes S) where
  -- The block of key bytes that belongs to a value of the counter, and a byte of the stream from a value on.
  pub key_stream_block : S → ℕ → Bytes
  key_stream_block aes v = stored (axtls.aes_encrypt aes (big_words 4 v))

  pub key_byte : S → ℕ → ℕ → ℕ
  key_byte aes v j = get_or (key_stream_block aes (v + j / 16)) (j % 16) 0

  pub key_byte-small : (aes : S) (v j : ℕ) → key_byte aes v j < 256
  unfolding key_byte key_stream_block
  key_byte-small aes v j =
      get_or-All (key_stream_block aes (v + j / 16)) (j % 16) (stored-All (axtls.aes_encrypt aes _))

  -- A block of AES is four words.
  pub record IsFour : Type 0 where
    pub four : (aes : S) (ws : List ℕ) → length ws ≡ 4 → length (axtls.aes_encrypt aes ws) ≡ 4

  keystream-block :
      (aes : S) (v : ℕ) → keystream axtls aes (big_endian 16 v) ≡ key_stream_block aes v
  unfolding keystream key_stream_block
  keystream-block aes v =
      store_words-stored (axtls.aes_encrypt aes (load_words (big_endian 16 v)))
      ∙ ap (λ ws. stored (axtls.aes_encrypt aes ws)) (load_words-big_endian v)

  length-key_stream_block : (aes : S) (v : ℕ) → IsFour → length (key_stream_block aes v) ≡ 16
  unfolding key_stream_block
  length-key_stream_block aes v laws = omega (
    arith,
    length-stored (axtls.aes_encrypt aes (big_words 4 v)),
    laws.four aes (big_words 4 v) (length-big_words 4 v),
  )

  -- What the loop has made of `cs`, from the counter's value `v`.
  pub record IsStreamed (aes : S) (v : ℕ) (cs : Bytes) (out : Bytes × Bytes) : Type 0 where
    pub same_length : length out.0 ≡ length cs
    pub mixed :
        (j : ℕ) → j < length cs → get_or out.0 j 0 ≡ bit_xor (get_or cs j 0) (key_byte aes v j)
    pub counted : out.1 ≡ big_endian 16 (v + (length cs + 15) / 16)

  length-head :
      (aes : S) (v : ℕ) (block : Bytes)
      → length (xor_bytes (take 16 block) (key_stream_block aes v)) ≡ min 16 (length block)
  length-head aes v block =
      length-xor_bytes (take 16 block) (key_stream_block aes v) ∙ length-take 16 block

  head_byte :
      (aes : S) (v j : ℕ) (block rest : Bytes)
      → IsFour
      → j < length block
      → j < 16
      → get_or (xor_bytes (take 16 block) (key_stream_block aes v) ++ rest) j 0
        ≡ bit_xor (get_or block j 0) (key_byte aes v j)
  unfolding key_byte
  head_byte aes v j block rest laws inside low =
      let ks = key_stream_block aes v in
      let block_number : v + j / 16 ≡ v = omega arith in
      let place : j % 16 ≡ j = omega arith in
      get_or-append_left (xor_bytes (take 16 block) ks) rest j
        (omega (arith, length-head aes v block))
      ∙ get_or-xor_bytes (take 16 block) ks j (omega (arith, length-take 16 block))
          (omega (arith, length-key_stream_block aes v laws))
      ∙ ap (λ b. bit_xor b (get_or ks j 0)) (get_or-take 16 j block low)
      ∙ sym (
          ap (λ n. bit_xor (get_or block j 0) (get_or (key_stream_block aes n) (j % 16) 0))
            block_number
          ∙ ap (λ n. bit_xor (get_or block j 0) (get_or ks n 0)) place)

  tail_byte :
      (aes : S) (v j c : ℕ) (cs rest : Bytes)
      → ((i : ℕ)
          → i < length (drop 15 cs)
          → get_or rest i 0 ≡ bit_xor (get_or (drop 15 cs) i 0) (key_byte aes (v + 1) i))
      → j < length (c ∷ cs)
      → 16 ≤ j
      → get_or (xor_bytes (take 16 (c ∷ cs)) (key_stream_block aes v) ++ rest) j 0
        ≡ bit_xor (get_or (c ∷ cs) j 0) (key_byte aes v j)
  unfolding key_byte
  tail_byte aes v j c cs rest ih inside high =
      let i : ℕ = j - 16 in
      let full : length (xor_bytes (take 16 (c ∷ cs)) (key_stream_block aes v)) ≡ 16 =
        omega (arith, length-head aes v (c ∷ cs)) in
      let block_number : v + 1 + i / 16 ≡ v + j / 16 = omega arith in
      let place : i % 16 ≡ j % 16 = omega arith in
      let index : suc (15 + i) ≡ j = omega arith in
      get_or-append_right (xor_bytes (take 16 (c ∷ cs)) (key_stream_block aes v)) rest j
        (omega (arith, full))
      ∙ ap (λ n. get_or rest (j - n) 0) full
      ∙ ih i (omega (arith, length-drop 15 cs))
      ∙ ap (λ b. bit_xor b (key_byte aes (v + 1) i))
          (get_or-drop 15 i cs ∙ ap (λ n. get_or (c ∷ cs) n 0) index)
      ∙ ap (λ n. bit_xor (get_or (c ∷ cs) j 0) (get_or (key_stream_block aes n) (i % 16) 0))
          block_number
      ∙ ap (λ n. bit_xor (get_or (c ∷ cs) j 0) (get_or (key_stream_block aes (v + j / 16)) n 0))
          place

  step-IsStreamed :
      (aes : S) (v : ℕ) (c : ℕ) (cs : Bytes) (rest : Bytes × Bytes)
      → IsFour
      → IsStreamed aes (v + 1) (drop 15 cs) rest
      → IsStreamed aes v
          (c ∷ cs)
          (xor_bytes (take 16 (c ∷ cs)) (key_stream_block aes v) ++ rest.0, rest.1)
  step-IsStreamed aes v c cs rest laws ih =
      let head = xor_bytes (take 16 (c ∷ cs)) (key_stream_block aes v) in
      record {
        same_length = omega (
          arith,
          length-append head rest.0,
          length-head aes v (c ∷ cs),
          length-drop 15 cs,
          ih.same_length,
        );
        mixed = λ j inside. elim (Bool-cases (ltb j 16)) [
          | inl low ↦ head_byte aes v j (c ∷ cs) rest.0 laws inside (ltb→lt j 16 low)
          | inr high ↦ tail_byte aes v j c cs rest.0 ih.mixed inside (ground arith)
        ];
        counted = ih.counted ∙ ap (λ n. big_endian 16 n) (omega (arith, length-drop 15 cs));
      }

  ctr_loop-IsStreamed :
      (left : ℕ) (aes : S) (v : ℕ) (cs : Bytes)
      → IsFour
      → length cs ≤ left
      → IsStreamed aes v cs (ctr_loop axtls left aes (big_endian 16 v) cs)
  unfolding ctr_loop
  ctr_loop-IsStreamed left aes v [] laws enough = record {
    same_length = refl;
    mixed = λ j h. absurd (omega arith);
    counted = ap (λ n. big_endian 16 n) (omega arith);
  }
  ctr_loop-IsStreamed zero aes v (c ∷ cs) laws enough = absurd (omega arith)
  ctr_loop-IsStreamed (suc left) aes v (c ∷ cs) laws enough =
      rw (keystream-block aes v, next_counter v)
        (step-IsStreamed aes v c cs (ctr_loop axtls left aes (big_endian 16 (v + 1)) (drop 15 cs))
          laws
          (ctr_loop-IsStreamed left aes (v + 1) (drop 15 cs) laws
            (omega (arith, length-drop 15 cs))))

  -- On an AES that gives four words, a call in CTR mode, in either direction and on a block of any length, mixes
  -- byte j with byte j % 16 of the AES block that belongs to the counter plus j / 16, which wraps at 2 ^ 128, and
  -- leaves the counter behind the last block that it began.
  pub cipher_crypt-IsStreamed :
      (encrypt : Bool) (block : Bytes) (ctx : CipherCtx S) (v : ℕ)
      → IsFour
      → ctx.is_ctr ≡ true
      → ctx.ctr_iv ≡ big_endian 16 v
      → IsStreamed ctx.aes v block (
        (cipher_crypt axtls encrypt block ctx).0,
        (cipher_crypt axtls encrypt block ctx).1.ctr_iv,
      )
  unfolding cipher_crypt
  cipher_crypt-IsStreamed encrypt block ctx v laws ctr iv =
      simp (cipher_crypt, ctr, iv)
        (ctr_loop-IsStreamed (length block) ctx.aes v block laws (omega arith))
