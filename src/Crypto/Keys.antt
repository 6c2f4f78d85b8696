-- ===== src/Crypto/Keys.antt =====
-- The keys of libssh2_axtls.c: Curve25519, Ed25519 and key files. TweetNaCl, the PRNG of axTLS and libssh2's own
-- helpers are parameters. `Memory` has the outcomes of the next allocations (they succeed behind the
-- last), the number of blocks that are held, and what was written to handle 1.
pub mod Balance
pub mod Signing
pub mod Scalar
use Prim.Native.Nat.{bit_and, bit_or}
use freedos_micro_python.Prelude.{
  ℕ, zero, suc, ◌+◌, ◌-◌, ◌/◌, ◌%◌, ◌^◌, Bool, true, false, not, ◌&&◌, ◌||◌, Option, none, some,
  List, [], ◌∷◌, ◌++◌, Bytes, codes, length, get_or, take, drop, ltb, leb, ◌==◌, if◌then◌else◌,
}
use freedos_micro_python.Prelude.State.{State, pure, ◌>>=◌}
use freedos_micro_python.Crypto.{hex}
use freedos_micro_python.Crypto.Bignum.{Bn, strip, bn_from_bin}

pub record Memory : Type 0 where
  pub outcomes : List Bool
  pub held : ℕ
  pub console : Bytes

-- LIBSSH2_ALLOC, LIBSSH2_CALLOC and malloc.
pub alloc : State Memory Bool
alloc m = elim m.outcomes [
  | [] ↦ (true, record m { held = m.held + 1 })
  | false ∷ rest ↦ (false, record m { outcomes = rest })
  | true ∷ rest ↦ (true, record m { outcomes = rest; held = m.held + 1 })
]

pub free : State Memory (Unit {0})
free m = (tt, record m { held = m.held - 1 })

pub write : Bytes → State Memory (Unit {0})
write text m = (tt, record m { console = m.console ++ text })

pub record Ed25519Ctx : Type 0 where
  pub public_key : Bytes
  pub private_key : Bytes
  pub have_private : Bool

-- `none` is a failure: of `crypto_scalarmult`, `crypto_sign` or the parser of PEM. `opens` says whether
-- `crypto_sign_open` returns 0. `get_string` gives a string of the buffer, or fails, and what the buffer has behind it.
pub record Nacl (Buf : Type 0) : Type 0 where
  pub scalarmult_base : Bytes → Bytes
  pub scalarmult : Bytes → Bytes → Option Bytes
  pub crypto_sign : Bytes → Bytes → Option Bytes
  pub opens : Bytes → Bytes → Bool
  pub pem_parse : Bytes → Option Bytes → Option Buf
  pub get_string : Buf → Option Bytes × Buf
  pub store_str : Bytes → Bytes

abbrev pub keytype : Bytes
keytype = codes "ssh-ed25519"

-- `priv[0] &= 248; priv[31] &= 127; priv[31] |= 64;`
pub clamp : Bytes → Bytes
clamp [] = []
clamp (c ∷ cs) =
    bit_and c 248 ∷ (take 30 cs ++ (bit_or (bit_and (get_or cs 30 0) 127) 64 ∷ drop 31 cs))

-- `_hx[...]` of the first eight bytes, for the line that starts with `tag`.
unfoldable pub dump : Bytes → Bytes
dump [] = []
dump (c ∷ cs) = hex c ++ dump cs

unfoldable pub zeros : ℕ → Bytes
zeros zero = []
zeros (suc n) = 0 ∷ zeros n

-- The array `_hb`: the digits start at 3, `]` stands at 19, and what is left between is 0.
unfoldable pub hash_line : Bytes → Bytes
hash_line m = let d = dump (take 8 m) in codes "[H:" ++ (d ++ (zeros (16 - length d) ++ codes "]"))

-- `memcmp` of equal lengths, and the test of the lengths.
unfoldable pub same_bytes : Bytes → Bytes → Bool
same_bytes [] [] = true
same_bytes [] (d ∷ ds) = false
same_bytes (c ∷ cs) [] = false
same_bytes (c ∷ cs) (d ∷ ds) = c == d && same_bytes cs ds

module _ {Buf : Type 0} (nacl : Nacl Buf) where
  -- Both allocations are made before either is tested. `random` is what the PRNG gives.
  pub curve25519_new : Bytes → State Memory (Option (Bytes × Bytes))
  curve25519_new random = do
    _ ← write (codes "[cv:nE]")
    priv ← alloc
    pub_ ← alloc
    elim (priv && pub_) [
      | true ↦ do
        let key = clamp random
        _ ← write (codes "[cv:nM]")
        pure (some (nacl.scalarmult_base key, key))
      | false ↦ do
        _ ← (if priv then free else pure tt)
        _ ← (if pub_ then free else pure tt)
        pure none
    ]

  -- `bn_from_bin` on these blocks: a number has one, its array, where its capacity is not 0, and gives it up
  -- for a larger one.
  pub bn_load : Bytes → Bn → State Memory (Option Bn)
  bn_load val b = elim (leb (length (strip val)) b.cap) [
    | true ↦ pure (bn_from_bin (λ n. true) val b)
    | false ↦ do
      made ← alloc
      _ ← (if made && not (b.cap == 0) then free else pure tt)
      pure (bn_from_bin (λ n. made) val b)
  ]

  -- `curve25519_gen_k` on a number.
  pub agree : Bn → Bytes → Bytes → State Memory (Option Bn)
  agree b private_key server_public_key = elim (nacl.scalarmult private_key server_public_key) [
    | none ↦ do _ ← write (codes "[cv:kFail]"); pure none
    | some secret ↦ do
      _ ← write (codes "[K:" ++ (dump (take 8 secret) ++ codes "]"))
      _ ← write (codes "[cv:kM]")
      r ← bn_load secret b
      _ ← write (codes "[cv:kB]")
      pure r
  ]

  -- The number after it, for a result of 0; `k` is none for a NULL.
  pub curve25519_gen_k : Option Bn → Bytes → Bytes → State Memory (Option Bn)
  curve25519_gen_k k private_key server_public_key = do
    _ ← write (codes "[cv:kE]")
    elim k [ none ↦ pure none | some b ↦ agree b private_key server_public_key ]

  pub ed25519_new_public : Bytes → State Memory (Option Ed25519Ctx)
  ed25519_new_public raw_pub_key = do
    _ ← write (codes "[ed:nP]")
    elim (length raw_pub_key == 32) [
      | false ↦ do _ ← write (codes "[ed:nPlen-bad]"); pure none
      | true ↦ do
        c ← alloc
        elim c [
          | false ↦ do _ ← write (codes "[ed:nPalloc-fail]"); pure none
          | true ↦ do
            _ ← write (codes "[ed:nPok]")
            pure (
                some (record {
                  public_key = raw_pub_key;
                  private_key = zeros 64;
                  have_private = false;
                }))
        ]
    ]

  -- Whether the result is 0.
  pub ed25519_verify : Ed25519Ctx → Bytes → Bytes → State Memory Bool
  ed25519_verify ctx sig m = do
    _ ← write (codes "[ed:vE]")
    _ ← write (hash_line m)
    elim (length sig == 64) [
      | false ↦ pure false
      | true ↦ do
        sm ← alloc
        elim sm [
          | false ↦ pure false
          | true ↦ do
            out ← alloc
            elim out [
              | false ↦ do _ ← free; pure false
              | true ↦ do _ ← free; _ ← free; pure (nacl.opens ctx.public_key (sig ++ m))
            ]
        ]
    ]

  -- Both calls of `get_string` and their tests: the public and the private key.
  unfoldable pub key_strings : Buf → Option (Bytes × Bytes)
  key_strings buf0 =
      let (kt, buf1) = nacl.get_string buf0 in
      elim kt [
        | none ↦ none
        | some name ↦
            if not (same_bytes name keytype)
            then none
            else (let (first, buf2) = nacl.get_string buf1 in
                elim first [
                  | none ↦ none
                  | some pub_ ↦
                      if not (length pub_ == 32) then none else elim (nacl.get_string buf2).0 [
                        | none ↦ none
                        | some priv ↦ if not (length priv == 64) then none else some (pub_, priv)
                      ]
                ])
      ]

  -- `_axtls_ed25519_parse_priv`: where it succeeds, the buffer of the parser is held.
  pub parse_priv : Bytes → Option Bytes → State Memory (Option (Bytes × Bytes))
  parse_priv filedata passphrase m = elim (nacl.pem_parse filedata passphrase) [
    | none ↦ (none, m)
    | some buf ↦ elim (key_strings buf) [
      | none ↦ (let (_, m1) = free (record m { held = m.held + 1 }) in (none, m1))
      | some keys ↦ (some keys, record m { held = m.held + 1 })
    ]
  ]

  -- What the function does with the strings, the buffer of the parser still being held.
  pub context_of : Bytes × Bytes → State Memory (Option Ed25519Ctx)
  context_of (public_key, private_key) = do
    c ← alloc
    _ ← free
    pure (
        if c
        then some
            (record { public_key = public_key; private_key = private_key; have_private = true })
        else none)

  pub ed25519_new_private_frommemory : Bytes → Option Bytes → State Memory (Option Ed25519Ctx)
  ed25519_new_private_frommemory filedata passphrase = do
    keys ← parse_priv filedata passphrase
    elim keys [ none ↦ pure none | some pair ↦ context_of pair ]

  -- The signature is the start of what `crypto_sign` gives.
  pub signature_of : Option Bytes → State Memory (Option Bytes)
  signature_of none = do _ ← free; pure none
  signature_of (some signed) = elim (ltb (length signed) 64) [
    | true ↦ do _ ← free; pure none
    | false ↦ do sig ← alloc; _ ← free; pure (if sig then some (take 64 signed) else none)
  ]

  pub ed25519_sign : Ed25519Ctx → Bytes → State Memory (Option Bytes)
  ed25519_sign ctx message m =
      if not ctx.have_private
      then (none, m)
      else (let (sm, m1) = alloc m in
          elim sm [
            | false ↦ (none, m1)
            | true ↦ signature_of (nacl.crypto_sign message ctx.private_key) m1
          ])

  pub ed25519_free : Option Ed25519Ctx → State Memory (Unit {0})
  ed25519_free none = pure tt
  ed25519_free (some ctx) = free

  -- The name of the method and the blob of the public key, the buffer of the parser still being held.
  pub blob_of : Bytes × Bytes → State Memory (Option (Bytes × Bytes))
  blob_of (public_key, private_key) = do
    m ← alloc
    elim m [
      | false ↦ do _ ← free; pure none
      | true ↦ do
        blob ← alloc
        elim blob [
          | false ↦ do _ ← free; _ ← free; pure none
          | true ↦ do
            _ ← free
            pure (some (keytype, nacl.store_str keytype ++ nacl.store_str public_key))
        ]
    ]

  pub pub_priv_keyfilememory : Bytes → Option Bytes → State Memory (Option (Bytes × Bytes))
  pub_priv_keyfilememory privatekeydata passphrase = do
    keys ← parse_priv privatekeydata passphrase
    elim keys [ none ↦ pure none | some pair ↦ blob_of pair ]
