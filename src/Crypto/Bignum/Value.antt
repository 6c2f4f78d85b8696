-- ===== src/Crypto/Bignum/Value.antt =====
-- The value and the length in bits of the big numbers of libssh2_axtls.c.
use mathlib.Core.Path.{subst}
use native.Mathlib.Nat.{pow-suc}
use native.Mathlib.Numerals.{towards_suc}
use freedos_micro_python.Prelude.{
  ℕ, zero, suc, ◌+◌, ◌-◌, ◌*◌, ◌^◌, ◌<◌, ◌≤◌, ◌≢◌, ◌≡◌, ◌∙◌, sym, ap, refl, Bool, true, ◌&&◌,
  Bool-cases, inl, inr, some, [], ◌∷◌, Bytes, length, leb, ltb, ◌==◌, All, IsByte, tabulated,
  tabulated-value, arith,
}
use freedos_micro_python.Crypto.Bignum.{
  Bn, strip, word_bytes, bit_count, bn_ensure, bn_set_word, bn_from_bin, bn_to_bin, bn_bytes,
  bn_bits,
}

-- The number that bytes stand for, the highest first.
pub number : Bytes → ℕ
number [] = 0
number (c ∷ cs) = c * 256 ^ length cs + number cs

number-lt : (cs : Bytes) → All IsByte cs → number cs < 256 ^ length cs
unfolding number
number-lt [] h = omega arith
number-lt (c ∷ cs) h =
    let grown : (c + 1) * 256 ^ length cs ≤ 256 * 256 ^ length cs = grind (arith, h.0) in
    omega (arith, number-lt cs h.1, pow-suc 256 (length cs))

number-strip : (cs : Bytes) → number (strip cs) ≡ number cs
unfolding number strip
number-strip [] = refl
number-strip (c ∷ cs) = elim (Bool-cases (c == 0)) [
  | inl e ↦
      let zero_byte : c ≡ 0 = ground arith in
      simp (strip, e)
        (number-strip cs ∙ sym (ap (λ b. b * 256 ^ length cs + number cs) zero_byte ∙ omega arith))
  | inr e ↦ simp (strip, e) refl
]

length-strip : (cs : Bytes) → length (strip cs) ≤ length cs
unfolding strip
length-strip [] = omega arith
length-strip (c ∷ cs) = elim (Bool-cases (c == 0)) [
  | inl e ↦ simp (strip, e) (omega (arith, length-strip cs))
  | inr e ↦ simp (strip, e) (omega arith)
]

-- No leading zero.
abbrev pub IsStripped : Bytes → Type 0
IsStripped [] = Unit
IsStripped (c ∷ cs) = 0 < c

strip-IsStripped : (cs : Bytes) → IsStripped (strip cs)
unfolding strip
strip-IsStripped [] = tt
strip-IsStripped (c ∷ cs) = elim (Bool-cases (c == 0)) [
  | inl e ↦ simp (strip, e) (strip-IsStripped cs)
  | inr e ↦ simp (strip, e) (ground arith)
]

strip-All : (cs : Bytes) → All IsByte cs → All IsByte (strip cs)
unfolding strip
strip-All [] h = tt
strip-All (c ∷ cs) h = elim (Bool-cases (c == 0)) [
  | inl e ↦ simp (strip, e) (strip-All cs h.1)
  | inr e ↦ simp (strip, e) h
]

le-mul : (a b p : ℕ) → a ≤ b → a * p ≤ b * p
le-mul a b p h = grind arith

pow-split : (n k : ℕ) → 2 ^ (8 * n + k) ≡ 256 ^ n * 2 ^ k
pow-split zero k =
    let none_left : 8 * 0 + k ≡ k = omega arith in ap (λ m. 2 ^ m) none_left ∙ omega arith
pow-split (suc n) k =
    let more : 8 * suc n + k ≡ 8 * n + k + 8 = omega arith in
    let eight : 2 ^ (8 * n + k + 8) ≡ 256 * 2 ^ (8 * n + k) = simp towards_suc (omega arith) in
    let ih : 256 * 2 ^ (8 * n + k) ≡ 256 * (256 ^ n * 2 ^ k) = ap (λ p. 256 * p) (pow-split n k) in
    ap (λ m. 2 ^ m) more ∙ eight ∙ ih ∙ omega (arith, ap (λ (t : ℕ). t * 2 ^ k) (pow-suc 256 n))

-- The two bounds for c, from one table.
bounds_hold : ℕ → Bool
bounds_hold c = leb (2 ^ bit_count 8 c) (2 * c) && ltb c (2 ^ bit_count 8 c)

bounds_table : tabulated 255 (λ v. bounds_hold (v + 1)) ≡ true
unfolding tabulated bit_count bounds_hold
bounds_table = refl

bit_count_bounds : (c : ℕ) → 0 < c → c < 256 → (2 ^ bit_count 8 c ≤ 2 * c) × (c < 2 ^ bit_count 8 c)
unfolding bounds_hold
bit_count_bounds c h l =
    let k : ℕ = c - 1 in
    let same : k + 1 ≡ c = omega arith in
    let holds : bounds_hold c ≡ true =
      ap bounds_hold (sym same)
      ∙ tabulated-value 255 (λ v. bounds_hold (v + 1)) k bounds_table (omega arith) in
    ground (arith, holds)

-- Of a stripped number, the bits that `bn_bits` counts are as many as it takes.
IsBits : Bytes → ℕ → Type 0
IsBits cs bits = (number cs < 2 ^ bits) × (number cs ≢ 0 → 2 ^ bits ≤ 2 * number cs)

leading-IsBits :
    (c : ℕ) (cs : Bytes)
    → All IsByte (c ∷ cs)
    → 0 < c
    → IsBits (c ∷ cs) (8 * length cs + bit_count 8 c)
unfolding IsBits number
leading-IsBits c cs h lead =
    let p = 256 ^ length cs in
    let b = 2 ^ bit_count 8 c in
    let (low, high) = bit_count_bounds c lead h.0 in
    let up : (c + 1) * p ≤ b * p = le-mul (c + 1) b p (omega (arith, high)) in
    let down : b * p ≤ 2 * c * p = le-mul b (2 * c) p low in
    let whole : 2 ^ (8 * length cs + bit_count 8 c) ≡ p * b =
      pow-split (length cs) (bit_count 8 c) in
    (omega (arith, up, whole, number-lt cs h.1), λ nonzero. omega (arith, down, whole))

bn_bits-IsBits : (b : Bn) → All IsByte b.bytes → IsStripped b.bytes → IsBits b.bytes (bn_bits b)
unfolding bn_bits IsBits number
bn_bits-IsBits b h lead = of_bytes b.bytes b.cap h lead
  where
    of_bytes :
        (cs : Bytes) (cap : ℕ)
        → All IsByte cs
        → IsStripped cs
        → IsBits cs (bn_bits (record { cap = cap; bytes = cs }))
    of_bytes [] cap h lead = (omega arith, λ nonzero. absurd (nonzero refl))
    of_bytes (c ∷ cs) cap h lead = leading-IsBits c cs h lead

module _ (malloc : ℕ → Bool) where
  -- A number that holds the value of `val`, in the shortest form, with its length in bits.
  pub record IsLoaded (v : ℕ) (b : Bn) : Type 0 where
    pub value : number (bn_to_bin b) ≡ v
    pub shortest : IsStripped (bn_to_bin b)
    pub sized : bn_bytes b ≡ length (bn_to_bin b)
    pub below : v < 2 ^ bn_bits b
    pub above : v ≢ 0 → 2 ^ bn_bits b ≤ 2 * v

  loaded :
      (cap : ℕ) (val : Bytes)
      → All IsByte val
      → IsLoaded (number val) (record { cap = cap; bytes = strip val })
  unfolding bn_to_bin bn_bytes IsBits
  loaded cap val h =
      let b : Bn = record { cap = cap; bytes = strip val } in
      let e = number-strip val in
      let bits = bn_bits-IsBits b (strip-All val h) (strip-IsStripped val) in
      record {
        value = e;
        shortest = strip-IsStripped val;
        sized = refl;
        below = omega (arith, bits.0, e);
        above = λ nonzero. omega (arith, bits.1 (λ z. nonzero (sym e ∙ z)), e);
      }

  bn_ensure-room :
      (need cap top : ℕ)
      → need ≤ top
      → ((n : ℕ) → n ≤ top + 1 → malloc n ≡ true)
      → (c : ℕ) × (bn_ensure malloc need cap ≡ some c)
  unfolding bn_ensure
  bn_ensure-room need cap top h room = elim (Bool-cases (leb need cap)) [
    | inl fits ↦ (cap, simp (bn_ensure, fits) refl)
    | inr grows ↦ elim (Bool-cases (need == 0)) [
      | inl none_needed ↦ (1, simp (bn_ensure, grows, none_needed, room 1 (omega arith)) refl)
      | inr some_needed ↦ (need, simp (bn_ensure, grows, some_needed, room need (omega arith)) refl)
    ]
  ]

  -- Where allocations of up to one byte more than the input succeed, `bn_from_bin` succeeds, on bytes with any number of leading
  -- zeros, and the number then has the value of the input, gives its bytes without a leading
  -- zero, and has as many bits as the value takes, none for 0.
  pub bn_from_bin-IsLoaded :
      (val : Bytes) (b : Bn)
      → All IsByte val
      → ((n : ℕ) → n ≤ length val + 1 → malloc n ≡ true)
      → (b' : Bn) × (bn_from_bin malloc val b ≡ some b') × IsLoaded (number val) b'
  unfolding bn_from_bin
  bn_from_bin-IsLoaded val b h room =
      let (c, e) = bn_ensure-room (length (strip val)) b.cap (length val) (length-strip val) room in
      (record { cap = c; bytes = strip val }, simp (bn_from_bin, e) refl, loaded c val h)

  word_value : (w : ℕ) → w < 2 ^ 32 → number (word_bytes w) ≡ w
  unfolding number word_bytes
  word_value w h = omega arith

  -- So with `bn_set_word` and a 32-bit value.
  pub bn_set_word-IsLoaded :
      (w : ℕ) (b : Bn)
      → w < 2 ^ 32
      → ((n : ℕ) → n ≤ 5 → malloc n ≡ true)
      → IsLoaded w (bn_set_word malloc w b)
  unfolding bn_set_word word_bytes
  bn_set_word-IsLoaded w b h room =
      let (c, e) =
        bn_ensure-room (length (strip (word_bytes w))) b.cap 4 (length-strip (word_bytes w)) room in
      simp (bn_set_word, e)
        (subst (λ v. IsLoaded v (record { cap = c; bytes = strip (word_bytes w) })) (word_value w h)
          (loaded c (word_bytes w) (omega arith)))
