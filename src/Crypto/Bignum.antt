-- ===== src/Crypto/Bignum.antt =====
-- The big numbers of libssh2_axtls.c: bytes with the highest first. A pointer is never NULL.
pub mod Value
use freedos_micro_python.Prelude.{
  ℕ, zero, suc, ◌+◌, ◌-◌, ◌*◌, ◌/◌, ◌%◌, ◌^◌, ◌<◌, ◌≤◌, ◌≢◌, ◌≡◌, ◌∙◌, sym, ap, refl, Bool, true,
  false, Bool-cases, inl, inr, Option, none, some, List, [], ◌∷◌, ◌++◌, Bytes, length, leb, ◌==◌,
  if◌then◌else◌, All, IsByte, arith,
}

-- `bytes` are the first `len` bytes of `data`, whose `cap` bytes have no more that counts.
pub record Bn : Type 0 where
  pub cap : ℕ
  pub bytes : Bytes

unfoldable pub bn_init : Bn
bn_init = record { cap = 0; bytes = [] }

-- The leading zeros go.
unfoldable pub strip : Bytes → Bytes
strip [] = []
strip (c ∷ cs) = elim (c == 0) [ true ↦ strip cs | false ↦ c ∷ cs ]

-- `sizeof(val)` is 4.
unfoldable pub word_bytes : ℕ → Bytes
word_bytes val = val / 2 ^ 24 % 256 ∷ val / 2 ^ 16 % 256 ∷ val / 2 ^ 8 % 256 ∷ val % 256 ∷ []

-- The rounds of `while (msb)`, eight for a byte at most.
unfoldable pub bit_count : ℕ → ℕ → ℕ
bit_count zero msb = 0
bit_count (suc rounds) msb =
    let rest = bit_count rounds (msb / 2) in if msb == 0 then 0 else suc rest

-- `malloc` says whether an allocation of a size succeeds.
module _ (malloc : ℕ → Bool) where
  -- Whether there is room, and the capacity then. What the array held is lost where it grows.
  unfoldable pub bn_ensure : ℕ → ℕ → Option ℕ
  bn_ensure need cap =
      if leb need cap
      then some cap
      else (let newcap = if need == 0 then 1 else need in
          if malloc newcap then some newcap else none)

  unfoldable pub bn_set_word : ℕ → Bn → Bn
  bn_set_word val b =
      let tmp = strip (word_bytes val) in
      elim (bn_ensure (length tmp) b.cap) [
        | none ↦ record b { bytes = [] }
        | some cap ↦ record { cap = cap; bytes = tmp }
      ]

  -- `none` is the result -1, which leaves the number as it is.
  unfoldable pub bn_from_bin : Bytes → Bn → Option Bn
  bn_from_bin val b =
      let kept = strip val in
      elim (bn_ensure (length kept) b.cap) [
        | none ↦ none
        | some cap ↦ some (record { cap = cap; bytes = kept })
      ]

-- The output, whose length is the result.
pub bn_to_bin : Bn → Bytes
bn_to_bin b = b.bytes

pub bn_bytes : Bn → ℕ
bn_bytes b = length b.bytes

unfoldable pub bn_bits : Bn → ℕ
bn_bits b = elim b.bytes [ [] ↦ 0 | msb ∷ rest ↦ 8 * length rest + bit_count 8 msb ]
