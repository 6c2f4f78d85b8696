-- ===== src/Crypto/Keys/Scalar.antt =====
-- The private scalar that libssh2_axtls.c makes for Curve25519, as RFC 7748 reads it: the lowest byte first.
use native.Mathlib.Nat.{pow-suc}
use Prim.Native.Nat.{bit_and, bit_or}
use freedos_micro_python.Prelude.{
  ℕ, zero, suc, ◌+◌, ◌*◌, ◌/◌, ◌%◌, ◌^◌, ◌<◌, ◌≤◌, ◌≡◌, ◌∙◌, ap, refl, true, ◌&&◌, some, [], ◌∷◌,
  ◌++◌, Bytes, length, get_or, take, drop, length-take, leb, ltb, ◌==◌, ==_iff, All, IsByte,
  tabulated, tabulated-value, arith,
}
use freedos_micro_python.Crypto.Keys.{Memory, alloc, write, Nacl, clamp, curve25519_new}

pub little_endian : Bytes → ℕ
little_endian [] = 0
little_endian (c ∷ cs) = c + 256 * little_endian cs

low_table : tabulated 256 (λ c. bit_and c 248 == c / 8 * 8) ≡ true
unfolding tabulated
low_table = refl

high_byte : ℕ → ℕ
high_byte c = bit_or (bit_and c 127) 64

high_table : tabulated 256 (λ c. leb 64 (high_byte c) && ltb (high_byte c) 128) ≡ true
unfolding tabulated high_byte
high_table = refl

high_bounds : (c : ℕ) → c < 256 → (64 ≤ high_byte c) × (high_byte c < 128)
high_bounds c h =
    let holds =
      tabulated-value 256 (λ c. leb 64 (high_byte c) && ltb (high_byte c) 128) c high_table h in
    ground (arith, holds)

little_endian-lt : (cs : Bytes) → All IsByte cs → little_endian cs < 256 ^ length cs
unfolding little_endian
little_endian-lt [] h = omega arith
little_endian-lt (c ∷ cs) h = omega (arith, little_endian-lt cs h.1, pow-suc 256 (length cs))

-- The last byte has the highest place.
little_endian-snoc :
    (cs : Bytes) (b : ℕ) → little_endian (cs ++ (b ∷ [])) ≡ little_endian cs + 256 ^ length cs * b
unfolding little_endian
little_endian-snoc [] b = omega arith
little_endian-snoc (c ∷ cs) b =
    omega (arith, little_endian-snoc cs b, ap (λ (t : ℕ). t * b) (pow-suc 256 (length cs)))

drop-all : (n : ℕ) (cs : Bytes) → length cs ≤ n → drop n cs ≡ []
drop-all zero [] h = refl
drop-all zero (c ∷ cs) h = absurd (omega arith)
drop-all (suc n) [] h = refl
drop-all (suc n) (c ∷ cs) h = drop-all n cs (omega arith)

take-All : (n : ℕ) (cs : Bytes) → All IsByte cs → All IsByte (take n cs)
take-All zero cs h = tt
take-All (suc n) [] h = tt
take-All (suc n) (c ∷ cs) h = (h.0, take-All n cs h.1)

get_or-All : (cs : Bytes) (j : ℕ) → All IsByte cs → get_or cs j 0 < 256
get_or-All [] j h = omega arith
get_or-All (c ∷ cs) zero h = h.0
get_or-All (c ∷ cs) (suc j) h = get_or-All cs j h.1

-- What RFC 7748 asks of a scalar: a multiple of 8 from 2 ^ 254 on, below 2 ^ 255.
pub record IsScalar (k : Bytes) : Type 0 where
  pub multiple : little_endian k % 8 ≡ 0
  pub from_bit : 2 ^ 254 ≤ little_endian k
  pub below_bit : little_endian k < 2 ^ 255

-- Thirty-two random bytes become such a scalar.
clamp-IsScalar : (random : Bytes) → length random ≡ 32 → All IsByte random → IsScalar (clamp random)
unfolding clamp little_endian high_byte
clamp-IsScalar [] e h = absurd (omega (arith, e))
clamp-IsScalar (c ∷ cs) e h =
    let b0 = bit_and c 248 in
    let mid = take 30 cs in
    let b31 = high_byte (get_or cs 30 0) in
    let low : b0 ≡ c / 8 * 8 =
      (==_iff b0 (c / 8 * 8)).0
        (tabulated-value 256 (λ c. bit_and c 248 == c / 8 * 8) c low_table h.0) in
    let sized : length mid ≡ 30 = omega (arith, length-take 30 cs, e) in
    let small : little_endian mid < 256 ^ 30 =
      rw sized at (little_endian-lt mid (take-All 30 cs h.1)) in
    let value : little_endian (mid ++ (b31 ∷ [])) ≡ little_endian mid + 256 ^ 30 * b31 =
      little_endian-snoc mid b31 ∙ ap (λ n. little_endian mid + 256 ^ n * b31) sized in
    let high = high_bounds (get_or cs 30 0) (get_or-All cs 30 h.1) in
    rw (drop-all 31 cs (omega (arith, e))) (record {
      multiple = omega (arith, low);
      from_bit = omega (arith, low, value, high);
      below_bit = omega (arith, low, value, small, high, h.0);
    })

-- Where no allocation fails and the PRNG gives 32 bytes, `curve25519_new` makes a private key that is a multiple of 8 from
-- 2 ^ 254 on and below 2 ^ 255, read from the lowest byte on as RFC 7748 does, and its public key.
pub curve25519_new-IsScalar :
    {Buf : Type 0} (nacl : Nacl Buf) (random : Bytes) (m : Memory)
    → length random ≡ 32
    → All IsByte random
    → m.outcomes ≡ []
    → (k : Bytes) × ((curve25519_new nacl random m).0 ≡ some (nacl.scalarmult_base k, k))
      × IsScalar k
unfolding curve25519_new alloc write
curve25519_new-IsScalar nacl random m sized bytes ample =
    (clamp random, simp (ample) refl, clamp-IsScalar random sized bytes)
