-- ===== src/Crypto.antt =====
-- The hashes and the HMAC of libssh2's crypto backend, src/freedos_micro_python/port/libssh2_axtls.c, over the
-- digests of axTLS, which are a parameter; the children have the rest of the file. A function that returns 1 or
-- 0 is a Bool here, or an Option with its output. What is written to handle 1 is the state `Console`.
-- A length fits an `int`.
mod Padding
pub mod Hmac
pub mod Cipher
pub mod Bignum
pub mod Keys
mod Tests
use Prim.Native.Nat.{bit_xor}
use freedos_micro_python.Prelude.{
  ℕ, zero, suc, ◌-◌, ◌/◌, ◌%◌, ◌^◌, Bool, true, false, Option, none, some, List, [], ◌∷◌, ◌++◌, map,
  Bytes, codes, length, get_or, take, drop, replicate, ltb, ◌==◌, if◌then◌else◌,
}
use freedos_micro_python.Prelude.State.{State}

pub data Algo : Type 0 where
  sha1 sha256 sha384 sha512 md5 : Algo

-- The cases of the switches on LIBSSH2_AXTLS_HASH_*.
pub hash_algo : ℕ → Option Algo
hash_algo algo =
    if algo == 1
    then some sha1
    else if algo == 2
    then some sha256
    else if algo == 3
    then some sha384
    else if algo == 4
    then some sha512
    else if algo == 5
    then some md5
    else none

abbrev pub block_size : Algo → ℕ
block_size sha1 = 64
block_size sha256 = 64
block_size sha384 = 128
block_size sha512 = 128
block_size md5 = 64

abbrev pub hash_size : Algo → ℕ
hash_size sha1 = 20
hash_size sha256 = 32
hash_size sha384 = 48
hash_size sha512 = 64
hash_size md5 = 16

abbrev pub Console : Type 0
Console = Bytes

-- `_hx[v & 0xF]`
pub hex_digit : ℕ → ℕ
hex_digit v = get_or (codes "0123456789abcdef") (v % 16) 0

pub hex : ℕ → Bytes
hex v = hex_digit (v / 2 ^ 4) ∷ hex_digit v ∷ []

-- What an update of a SHA-256 writes.
pub update_trace : Bytes → Bytes
update_trace input =
    let l = length input in
    codes "[hu:"
    ++ (hex (l / 2 ^ 8)
        ++ (hex l ++ (b':' ∷ (elim input [ [] ↦ codes "--" | c ∷ cs ↦ hex c ] ++ (b']' ∷ [])))))

-- The digests of axTLS, whose contexts are of type `S`: `sha1_init` is SHA1_Init, and so on.
pub record Digests (S : Type 0) : Type 0 where
  pub init : Algo → S
  pub update : Algo → Bytes → S → S
  pub final : Algo → S → Bytes

pub record HashCtx (S : Type 0) : Type 0 where
  pub algo : ℕ
  pub storage : S

-- `hmac_algo` is its field `algo`.
pub record HmacCtx (S : Type 0) : Type 0 where
  pub hmac_algo : ℕ
  pub hmac_hash_size : ℕ
  pub hmac_block_size : ℕ
  pub k_opad : Bytes
  pub inner : HashCtx S

-- What a digest leaves at the start of an array.
abbrev pub written : Option Bytes → Bytes
written none = []
written (some d) = d

module _ {S : Type 0} (axtls : Digests S) where
  pub hash_init : ℕ → HashCtx S → State Console (Bool × HashCtx S)
  hash_init algo ctx out = elim (hash_algo algo) [
    | some a ↦ ((true, record { algo = algo; storage = axtls.init a }), out)
    | none ↦ ((false, record ctx { algo = algo }), out ++ codes "[hash:bad-algo]")
  ]

  pub hash_update : HashCtx S → Bytes → State Console (Bool × HashCtx S)
  hash_update ctx input out =
      let out1 = if ctx.algo == 2 then out ++ update_trace input else out in
      (
        elim (hash_algo ctx.algo) [
          | some a ↦ (true, record ctx { storage = axtls.update a input ctx.storage })
          | none ↦ (false, ctx)
        ],
        out1,
      )

  pub hash_final : HashCtx S → Option Bytes
  hash_final ctx = elim (hash_algo ctx.algo) [
    | some a ↦ some (axtls.final a ctx.storage)
    | none ↦ none
  ]

  -- `c` is what the stack has at the local context.
  pub hash : HashCtx S → Bytes → ℕ → State Console (Option Bytes)
  hash c input algo out =
      let ((ready, c1), out1) = hash_init algo c out in
      elim ready [
        | false ↦ (none, out1)
        | true ↦
            let ((taken, c2), out2) = hash_update c1 input out1 in
            (elim taken [ false ↦ none | true ↦ hash_final c2 ], out2)
      ]

  -- The array `k_block`.
  pub key_block : HashCtx S → Algo → ℕ → Bytes → State Console Bytes
  key_block c a algo key out =
      if ltb (block_size a) (length key)
      then (let (d, out1) = hash c key algo out in
          (written d ++ replicate (128 - length (written d)) 0, out1))
      else (key ++ replicate (128 - length key) 0, out)

  -- `_hmac_init`; `c` again is the context of the call of `hash`.
  pub hmac_init : HashCtx S → HmacCtx S → ℕ → Bytes → State Console (Bool × HmacCtx S)
  hmac_init c ctx algo key out = elim (hash_algo algo) [
    | none ↦ ((false, ctx), out)
    | some a ↦
        let block = block_size a in
        let (k_block, out1) = key_block c a algo key out in
        let k = take block k_block in
        let opad = map (λ v. bit_xor v 0x5c) k ++ drop block ctx.k_opad in
        let ((ready, inner1), out2) = hash_init algo ctx.inner out1 in
        let ctx1 : HmacCtx S = record {
          hmac_algo = algo;
          hmac_hash_size = hash_size a;
          hmac_block_size = block;
          k_opad = opad;
          inner = inner1;
        } in
        elim ready [
          | false ↦ ((false, ctx1), out2)
          | true ↦
              let ((taken, inner2), out3) = hash_update inner1 (map (λ v. bit_xor v 0x36) k) out2 in
              ((taken, record ctx1 { inner = inner2 }), out3)
        ]
  ]

  pub hmac_md5_init : HashCtx S → HmacCtx S → Bytes → State Console (Bool × HmacCtx S)
  hmac_md5_init c ctx key = hmac_init c ctx 5 key

  pub hmac_sha1_init : HashCtx S → HmacCtx S → Bytes → State Console (Bool × HmacCtx S)
  hmac_sha1_init c ctx key = hmac_init c ctx 1 key

  pub hmac_sha256_init : HashCtx S → HmacCtx S → Bytes → State Console (Bool × HmacCtx S)
  hmac_sha256_init c ctx key = hmac_init c ctx 2 key

  pub hmac_sha512_init : HashCtx S → HmacCtx S → Bytes → State Console (Bool × HmacCtx S)
  hmac_sha512_init c ctx key = hmac_init c ctx 4 key

  pub hmac_update : HmacCtx S → Bytes → State Console (Bool × HmacCtx S)
  hmac_update ctx input out =
      let ((taken, inner1), out1) = hash_update ctx.inner input out in
      ((taken, record ctx { inner = inner1 }), out1)

  -- `outer` is what the stack has at the outer context.
  pub hmac_final : HashCtx S → HmacCtx S → State Console (Option Bytes)
  hmac_final outer ctx out = elim (hash_final ctx.inner) [
    | none ↦ (none, out)
    | some inner_hash ↦
        let ((ready, o1), out1) = hash_init ctx.hmac_algo outer out in
        elim ready [
          | false ↦ (none, out1)
          | true ↦
              let ((padded, o2), out2) =
                hash_update o1 (take ctx.hmac_block_size ctx.k_opad) out1 in
              elim padded [
                | false ↦ (none, out2)
                | true ↦
                    let ((taken, o3), out3) =
                      hash_update o2 (take ctx.hmac_hash_size inner_hash) out2 in
                    (elim taken [ false ↦ none | true ↦ hash_final o3 ], out3)
              ]
        ]
  ]
