-- ===== src/Crypto/Cipher/Positions.antt =====
-- The bytes of the block that libssh2_axtls.c encrypts, by position, and the XOR of two bytes.
use Prim.Native.Nat.{bit_xor}
use freedos_micro_python.Prelude.{
  ℕ, zero, suc, ◌+◌, ◌-◌, ◌<◌, ◌≤◌, ◌≡◌, ◌∙◌, ap, refl, true, [], ◌∷◌, ◌++◌, Bytes, length, get_or,
  take, drop, ◌==◌, ==_iff, All, IsByte, tabulated, tabulated-value, arith,
}
use freedos_micro_python.Crypto.Cipher.{xor_bytes}

pub length-xor_bytes : (cs ks : Bytes) → length (xor_bytes cs ks) ≡ length cs
unfolding xor_bytes
length-xor_bytes [] ks = refl
length-xor_bytes (c ∷ cs) [] = refl
length-xor_bytes (c ∷ cs) (k ∷ ks) = ap suc (length-xor_bytes cs ks)

pub get_or-xor_bytes :
    (cs ks : Bytes) (j : ℕ)
    → j < length cs
    → j < length ks
    → get_or (xor_bytes cs ks) j 0 ≡ bit_xor (get_or cs j 0) (get_or ks j 0)
unfolding xor_bytes
get_or-xor_bytes [] ks j h l = absurd (omega arith)
get_or-xor_bytes (c ∷ cs) [] j h l = absurd (omega arith)
get_or-xor_bytes (c ∷ cs) (k ∷ ks) zero h l = refl
get_or-xor_bytes (c ∷ cs) (k ∷ ks) (suc j) h l =
    get_or-xor_bytes cs ks j (omega arith) (omega arith)

pub get_or-take : (n j : ℕ) (xs : Bytes) → j < n → get_or (take n xs) j 0 ≡ get_or xs j 0
get_or-take zero j xs h = absurd (omega arith)
get_or-take (suc n) j [] h = refl
get_or-take (suc n) zero (x ∷ xs) h = refl
get_or-take (suc n) (suc j) (x ∷ xs) h = get_or-take n j xs (omega arith)

pub get_or-drop : (n j : ℕ) (xs : Bytes) → get_or (drop n xs) j 0 ≡ get_or xs (n + j) 0
get_or-drop zero j xs = ap (λ k. get_or xs k 0) (omega arith)
get_or-drop (suc n) j [] = refl
get_or-drop (suc n) j (x ∷ xs) = get_or-drop n j xs ∙ ap (λ k. get_or (x ∷ xs) k 0) (shift n j)
  where
    shift : (n j : ℕ) → suc (n + j) ≡ suc n + j
    shift n j = omega arith

pub get_or-append_left :
    (xs ys : Bytes) (j : ℕ) → j < length xs → get_or (xs ++ ys) j 0 ≡ get_or xs j 0
get_or-append_left [] ys j h = absurd (omega arith)
get_or-append_left (x ∷ xs) ys zero h = refl
get_or-append_left (x ∷ xs) ys (suc j) h = get_or-append_left xs ys j (omega arith)

pub get_or-append_right :
    (xs ys : Bytes) (j : ℕ) → length xs ≤ j → get_or (xs ++ ys) j 0 ≡ get_or ys (j - length xs) 0
get_or-append_right [] ys j h = ap (λ k. get_or ys k 0) (omega arith)
get_or-append_right (x ∷ xs) ys zero h = absurd (omega arith)
get_or-append_right (x ∷ xs) ys (suc j) h =
    get_or-append_right xs ys j (omega arith) ∙ ap (λ k. get_or ys k 0) (shift j (length xs))
  where
    shift : (j n : ℕ) → j - n ≡ suc j - suc n
    shift j n = omega arith

xor_table : tabulated 256 (λ x. tabulated 256 (λ y. bit_xor (bit_xor x y) y == x)) ≡ true
unfolding tabulated
xor_table = refl

pub bit_xor_twice : (x y : ℕ) → x < 256 → y < 256 → bit_xor (bit_xor x y) y ≡ x
bit_xor_twice x y h l = (==_iff _ x).0 (
    tabulated-value 256 (λ v. bit_xor (bit_xor x v) v == x) y
      (tabulated-value 256 (λ u. tabulated 256 (λ v. bit_xor (bit_xor u v) v == u)) x xor_table h)
      l)

-- Two texts of one length with the same bytes are the same.
pub Bytes-path :
    (xs ys : Bytes)
    → length xs ≡ length ys
    → ((j : ℕ) → j < length xs → get_or xs j 0 ≡ get_or ys j 0)
    → xs ≡ ys
Bytes-path [] [] e h = refl
Bytes-path [] (y ∷ ys) e h = absurd (omega (arith, e))
Bytes-path (x ∷ xs) [] e h = absurd (omega (arith, e))
Bytes-path (x ∷ xs) (y ∷ ys) e h = λ i.
    h 0 (omega arith) i ∷ Bytes-path xs ys (omega (arith, e)) (λ j l. h (suc j) (omega arith)) i

pub get_or-All : (xs : Bytes) (j : ℕ) → All IsByte xs → get_or xs j 0 < 256
get_or-All [] j h = omega arith
get_or-All (x ∷ xs) zero h = h.0
get_or-All (x ∷ xs) (suc j) h = get_or-All xs j h.1
