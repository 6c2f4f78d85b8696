-- ===== src/Crypto/Keys/Balance.antt =====
-- The blocks that the key functions of libssh2_axtls.c hold: those that they hand over, on every path.
use freedos_micro_python.Prelude.{
  ℕ, ◌+◌, ◌≡◌, ◌<◌, true, false, ◌&&◌, not, ◌==◌, if◌then◌else◌, Option-cases, Bool-cases, inl, inr,
  Option, none, some, List, [], ◌∷◌, Bytes, length, ltb, arith,
}
use freedos_micro_python.Prelude.State.{State}
use freedos_micro_python.Crypto.Bignum.{Bn, bn_from_bin, bn_ensure}
use freedos_micro_python.Crypto.Keys.{
  bn_load, agree, Memory, alloc, free, write, Ed25519Ctx, Nacl, curve25519_new, curve25519_gen_k,
  ed25519_new_public, ed25519_verify, parse_priv, context_of, ed25519_new_private_frommemory,
  signature_of, ed25519_sign, blob_of, pub_priv_keyfilememory,
}

-- The blocks of a result.
abbrev pub owned {ℓ} : {A : Type ℓ} → ℕ → Option A → ℕ
owned n none = 0
owned n (some a) = n

made_block : (m : Memory) → (alloc m).0 ≡ true → (alloc m).1.held ≡ m.held + 1
unfolding alloc
made_block m e = ground arith

refused_block : (m : Memory) → (alloc m).0 ≡ false → (alloc m).1.held ≡ m.held
unfolding alloc
refused_block m e = ground arith

-- The block of a number that had none before.
abbrev pub new_array : Option Bn → Option Bn → ℕ
new_array none r = 0
new_array (some b) none = 0
new_array (some b) (some b1) = if b.cap == 0 && not (b1.cap == 0) then 1 else 0

module _ {Buf : Type 0} (nacl : Nacl Buf) where
  curve25519_new-held :
      (random : Bytes) (m : Memory)
      → (curve25519_new nacl random m).1.held ≡ m.held + owned 2 (curve25519_new nacl random m).0
  unfolding curve25519_new alloc free write
  curve25519_new-held random m = ground arith

  ed25519_new_public-held :
      (raw : Bytes) (m : Memory)
      → (ed25519_new_public nacl raw m).1.held ≡ m.held + owned 1 (ed25519_new_public nacl raw m).0
  unfolding ed25519_new_public alloc free write
  ed25519_new_public-held raw m = ground arith

  ed25519_verify-held :
      (ctx : Ed25519Ctx) (sig text : Bytes) (m : Memory)
      → (ed25519_verify nacl ctx sig text m).1.held ≡ m.held
  unfolding ed25519_verify alloc free write
  ed25519_verify-held ctx sig text m = ground arith

  bn_load-held :
      (b : Bn) (val : Bytes) (m : Memory)
      → (bn_load nacl val b m).1.held ≡ m.held + new_array (some b) (bn_load nacl val b m).0
  unfolding bn_load bn_from_bin bn_ensure alloc free
  bn_load-held b val m = ground arith

  curve25519_gen_k-held :
      (k : Option Bn) (private_key server : Bytes) (m : Memory)
      → (curve25519_gen_k nacl k private_key server m).1.held
        ≡ m.held + new_array k (curve25519_gen_k nacl k private_key server m).0
  unfolding curve25519_gen_k agree write
  curve25519_gen_k-held none private_key server m = omega arith
  curve25519_gen_k-held (some b) private_key server m =
      elim (Option-cases (nacl.scalarmult private_key server)) [
        | inl e ↦ simp (agree, e) (omega arith)
        | inr (secret, e) ↦ simp (agree, e) (bn_load-held b secret _)
      ]

  -- The signature is taken from one block that is held and given up.
  signature_of-held :
      (signed : Option Bytes) (m : Memory)
      → 0 < m.held
      → (signature_of nacl signed m).1.held + 1 ≡ m.held + owned 1 (signature_of nacl signed m).0
  unfolding signature_of free
  signature_of-held none m h = omega arith
  signature_of-held (some signed) m h = elim (Bool-cases (ltb (length signed) 64)) [
    | inl short ↦ simp (signature_of, short) (omega arith)
    | inr whole ↦
        simp (signature_of, whole)
          (elim (Bool-cases (alloc m).0) [
            | inl made ↦ rw made (omega (arith, made_block m made))
            | inr refused ↦ rw refused (omega (arith, refused_block m refused))
          ])
  ]

  ed25519_sign-held :
      (ctx : Ed25519Ctx) (text : Bytes) (m : Memory)
      → (ed25519_sign nacl ctx text m).1.held ≡ m.held + owned 1 (ed25519_sign nacl ctx text m).0
  unfolding ed25519_sign
  ed25519_sign-held ctx text m = elim (Bool-cases ctx.have_private) [
    | inr public_only ↦ simp (ed25519_sign, public_only) (omega arith)
    | inl private ↦
        simp (ed25519_sign, private)
          (elim (Bool-cases (alloc m).0) [
            | inr refused ↦ rw refused (omega (arith, refused_block m refused))
            | inl made ↦ rw made (
                let held = made_block m made in
                omega (
                  arith,
                  held,
                  signature_of-held (nacl.crypto_sign text ctx.private_key) (alloc m).1
                      (omega (arith, held)),
                ))
          ])
  ]

  load-held :
      (file : Bytes) (passphrase : Option Bytes) (m : Memory)
      → (ed25519_new_private_frommemory nacl file passphrase m).1.held
        ≡ m.held + owned 1 (ed25519_new_private_frommemory nacl file passphrase m).0
  unfolding ed25519_new_private_frommemory parse_priv context_of alloc free
  load-held file passphrase m = ground arith

  derive-held :
      (file : Bytes) (passphrase : Option Bytes) (m : Memory)
      → (pub_priv_keyfilememory nacl file passphrase m).1.held
        ≡ m.held + owned 2 (pub_priv_keyfilememory nacl file passphrase m).0
  unfolding pub_priv_keyfilememory parse_priv blob_of alloc free
  derive-held file passphrase m = ground arith

  -- The calls of libssh2, and the blocks that one hands over.
  pub data Call : Type 0 where
    new_scalar : Bytes → Call
    agree_on : Option Bn → Bytes → Bytes → Call
    new_public : Bytes → Call
    verify : Ed25519Ctx → Bytes → Bytes → Call
    sign : Ed25519Ctx → Bytes → Call
    load derive : Bytes → Option Bytes → Call

  pub run_call : Call → State Memory ℕ
  run_call (new_scalar random) m = let (r, m1) = curve25519_new nacl random m in (owned 2 r, m1)
  run_call (agree_on k private_key server) m =
      let (r, m1) = curve25519_gen_k nacl k private_key server m in (new_array k r, m1)
  run_call (new_public raw) m = let (r, m1) = ed25519_new_public nacl raw m in (owned 1 r, m1)
  run_call (verify ctx sig text) m = (0, (ed25519_verify nacl ctx sig text m).1)
  run_call (sign ctx text) m = let (r, m1) = ed25519_sign nacl ctx text m in (owned 1 r, m1)
  run_call (load file passphrase) m =
      let (r, m1) = ed25519_new_private_frommemory nacl file passphrase m in (owned 1 r, m1)
  run_call (derive file passphrase) m =
      let (r, m1) = pub_priv_keyfilememory nacl file passphrase m in (owned 2 r, m1)

  pub run_calls : List Call → State Memory ℕ
  run_calls [] m = (0, m)
  run_calls (c ∷ cs) m = let (n, m1) = run_call c m in let (k, m2) = run_calls cs m1 in (n + k, m2)

  run_call-held : (c : Call) (m : Memory) → (run_call c m).1.held ≡ m.held + (run_call c m).0
  unfolding run_call
  run_call-held (new_scalar random) m = curve25519_new-held random m
  run_call-held (agree_on k private_key server) m = curve25519_gen_k-held k private_key server m
  run_call-held (new_public raw) m = ed25519_new_public-held raw m
  run_call-held (verify ctx sig text) m = omega (arith, ed25519_verify-held ctx sig text m)
  run_call-held (sign ctx text) m = ed25519_sign-held ctx text m
  run_call-held (load file passphrase) m = load-held file passphrase m
  run_call-held (derive file passphrase) m = derive-held file passphrase m

  -- After any calls of the key functions, whichever allocations fail and whatever the parameters answer, the blocks
  -- held beyond those before are exactly those that the calls have handed over: two of
  -- a new Curve25519 pair or of a derived public key, one of a context, of a signature or of a shared secret that goes
  -- to a number that had no array, none where a call fails.
  pub run_calls-held :
      (cs : List Call) (m : Memory) → (run_calls cs m).1.held ≡ m.held + (run_calls cs m).0
  unfolding run_calls
  run_calls-held [] m = omega arith
  run_calls-held (c ∷ cs) m = omega (arith, run_call-held c m, run_calls-held cs (run_call c m).1)
