-- ===== src/Crypto/Cipher.antt =====
-- AES-CBC and AES-CTR of libssh2_axtls.c over the AES core of axTLS, a parameter.
pub mod Counter
pub mod Positions
pub mod Stream
pub mod RoundTrip
use Prim.Native.Nat.{bit_xor}
use freedos_micro_python.Prelude.{
  ℕ, zero, suc, ◌+◌, ◌*◌, ◌/◌, ◌%◌, ◌^◌, Bool, true, false, not, ◌&&◌, ◌||◌, Option, none, some,
  List, [], ◌∷◌, ◌++◌, Bytes, length, get_or, take, drop, leb, ◌==◌, if◌then◌else◌,
}

pub data AesMode : Type 0 where
  aes_mode_128 aes_mode_256 : AesMode

-- The cases of the switch on the cipher; `none` is the result -1.
pub cipher_mode : ℕ → Option AesMode
cipher_mode algo =
    if algo == 1 || algo == 4
    then some aes_mode_128
    else if algo == 2 || algo == 5
    then none
    else if algo == 3 || algo == 6
    then some aes_mode_256
    else none

-- `aes_encrypt` works on four words. The CBC functions give the output and the context with its new IV.
pub record Aes (S : Type 0) : Type 0 where
  pub set_key : Bytes → Bytes → AesMode → S
  pub convert_key : S → S
  pub aes_encrypt : S → List ℕ → List ℕ
  pub cbc_encrypt : S → Bytes → Bytes × S
  pub cbc_decrypt : S → Bytes → Bytes × S

pub record CipherCtx (S : Type 0) : Type 0 where
  pub keylen_bits : ℕ
  pub ctr_iv : Bytes
  pub is_ctr : Bool
  pub aes : S

-- A word of a little-endian machine and its bytes, and the swap of `ntohl` and `htonl`.
pub word_of : ℕ → ℕ → ℕ → ℕ → ℕ
word_of b0 b1 b2 b3 = b0 + 2 ^ 8 * b1 + 2 ^ 16 * b2 + 2 ^ 24 * b3

pub bytes_of : ℕ → Bytes
bytes_of w = w % 256 ∷ w / 2 ^ 8 % 256 ∷ w / 2 ^ 16 % 256 ∷ w / 2 ^ 24 % 256 ∷ []

pub swap : ℕ → ℕ
unfolding word_of
swap w = word_of (w / 2 ^ 24 % 256) (w / 2 ^ 16 % 256) (w / 2 ^ 8 % 256) (w % 256)

-- `memcpy(kw, ctx->ctr_iv, 16)` and the four calls of `ntohl`; then those of `htonl`, and the other copy.
pub load_words : Bytes → List ℕ
load_words (b0 ∷ b1 ∷ b2 ∷ b3 ∷ rest) = swap (word_of b0 b1 b2 b3) ∷ load_words rest
load_words other = []

pub store_words : List ℕ → Bytes
store_words [] = []
store_words (w ∷ ws) = bytes_of (swap w) ++ store_words ws

abbrev pub set : Bytes → ℕ → ℕ → Bytes
set [] i v = []
set (x ∷ xs) zero v = v ∷ xs
set (x ∷ xs) (suc i) v = x ∷ set xs i v

-- `for (k = 15; k >= 0; k--) if (++ctr_iv[k] != 0) break;`, for the bytes that are left.
unfoldable pub increment : ℕ → Bytes → Bytes
increment zero iv = iv
increment (suc k) iv =
    let v = (get_or iv k 0 + 1) % 256 in
    elim (v == 0) [ true ↦ increment k (set iv k v) | false ↦ set iv k v ]

-- `block[i + j] ^= keystream[j]`, for the bytes that both have; the others stay.
pub xor_bytes : Bytes → Bytes → Bytes
xor_bytes [] ks = []
xor_bytes (c ∷ cs) [] = c ∷ cs
xor_bytes (c ∷ cs) (k ∷ ks) = bit_xor c k ∷ xor_bytes cs ks

module _ {S : Type 0} (axtls : Aes S) where
  -- The context before has nothing that stays.
  pub cipher_init : ℕ → Bytes → Bytes → Bool → CipherCtx S → Option (CipherCtx S)
  cipher_init algo iv secret encrypt ctx = elim (cipher_mode algo) [
    | none ↦ none
    | some mode ↦
        let ctr = leb 4 algo && leb algo 6 in
        let key = axtls.set_key secret iv mode in
        some (record {
          keylen_bits = elim mode [ aes_mode_128 ↦ 128 | aes_mode_256 ↦ 256 ];
          ctr_iv = if ctr then take 16 iv else ctx.ctr_iv;
          is_ctr = ctr;
          aes = if not encrypt && not ctr then axtls.convert_key key else key;
        })
  ]

  pub keystream : S → Bytes → Bytes
  keystream aes ctr_iv = store_words (axtls.aes_encrypt aes (load_words ctr_iv))

  -- The loop over the blocks: `left` bounds their number.
  pub ctr_loop : ℕ → S → Bytes → Bytes → Bytes × Bytes
  ctr_loop left aes ctr_iv [] = ([], ctr_iv)
  ctr_loop zero aes ctr_iv (c ∷ cs) = (c ∷ cs, ctr_iv)
  ctr_loop (suc left) aes ctr_iv (c ∷ cs) =
      let (rest, last_iv) = ctr_loop left aes (increment 16 ctr_iv) (drop 15 cs) in
      (xor_bytes (take 16 (c ∷ cs)) (keystream aes ctr_iv) ++ rest, last_iv)

  -- The call that is left to the caller has one block for each byte at most.
  pub cipher_crypt : Bool → Bytes → CipherCtx S → Bytes × CipherCtx S
  cipher_crypt encrypt block ctx =
      if ctx.is_ctr
      then (let (out, last_iv) = ctr_loop (length block) ctx.aes ctx.ctr_iv block in
          (out, record ctx { ctr_iv = last_iv }))
      else (let (out, key) =
            if encrypt then axtls.cbc_encrypt ctx.aes block else axtls.cbc_decrypt ctx.aes block in
          (out, record ctx { aes = key }))
