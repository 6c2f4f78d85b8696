-- ===== src/Crypto/Keys/Signing.antt =====
-- A signature of libssh2_axtls.c with the key of a file, checked with its public key.
use freedos_micro_python.Prelude.{
  ℕ, ◌≤◌, ◌≡◌, Bool, true, false, Option, none, some, [], Bytes, length, drop,
}
use freedos_micro_python.Prelude.State.{State, pure, ◌>>=◌}
use freedos_micro_python.Crypto.Keys.{
  Memory, Nacl, ed25519_new_public, ed25519_verify, ed25519_new_private_frommemory, ed25519_sign,
}

-- Memory in which the next allocations all succeed.
abbrev pub ample : ℕ → Bytes → Memory
ample held console = record { outcomes = []; held = held; console = console }

module _ {Buf : Type 0} (nacl : Nacl Buf) where
  -- TweetNaCl signs with a secret key so that the text opens under the public key of the pair: the result is a
  -- signature of 64 bytes and the text behind it.
  pub record IsSigning (Pair : Bytes → Bytes → Type 0) : Type 0 where
    pub signs :
        (public_key private_key text : Bytes)
        → Pair public_key private_key
        → (signed : Bytes) × (nacl.crypto_sign text private_key ≡ some signed)
          × (64 ≤ length signed)
          × (drop 64 signed ≡ text)
          × (nacl.opens public_key signed ≡ true)

  -- A key is loaded from a file, and a text is signed: the signature.
  pub load_and_sign : Bytes → Option Bytes → Bytes → State Memory (Option Bytes)
  load_and_sign file passphrase text = do
    ctx ← ed25519_new_private_frommemory nacl file passphrase
    elim ctx [ none ↦ pure none | some c ↦ ed25519_sign nacl c text ]

  -- The other side makes a context from the public key alone, and checks a signature.
  pub check_with : Bytes → Bytes → Bytes → State Memory Bool
  check_with public_key sig text = do
    ctx ← ed25519_new_public nacl public_key
    elim ctx [ none ↦ pure false | some c ↦ ed25519_verify nacl c sig text ]
