-- ===== src/Crypto/Padding.antt =====
-- The padding of keys and the sizes of digests in libssh2_axtls.c.
use freedos_micro_python.Prelude.{
  ℕ, zero, suc, ◌-◌, ◌≤◌, ◌≡◌, ◌∙◌, sym, ap, refl, [], ◌∷◌, ◌++◌, map, append-nil, Bytes, length,
  take, replicate, arith,
}
use freedos_micro_python.Crypto.{Algo, sha1, sha256, sha384, sha512, md5, block_size, hash_size}

sub-zero : (n : ℕ) → n - 0 ≡ n
sub-zero n = omega arith

sub-suc : (n m : ℕ) → suc n - suc m ≡ n - m
sub-suc n m = omega arith

take-replicate : (b m : ℕ) → b ≤ m → take b (replicate {A = ℕ} m 0) ≡ replicate b 0
take-replicate zero m h = refl
take-replicate (suc b) zero h = absurd (omega arith)
take-replicate (suc b) (suc m) h = rw (take-replicate b m (omega arith))

-- The first part of a padded key is the key padded to that size.
pub take-pad :
    (b m : ℕ) (k : Bytes)
    → length k ≤ b
    → b ≤ m
    → take b (k ++ replicate (m - length k) 0) ≡ k ++ replicate (b - length k) 0
take-pad b m [] h l = rw (sub-zero m, sub-zero b) (take-replicate b m l)
take-pad zero m (c ∷ k) h l = absurd (omega arith)
take-pad (suc b) zero (c ∷ k) h l = absurd (omega arith)
take-pad (suc b) (suc m) (c ∷ k) h l =
    rw (sub-suc m (length k), sub-suc b (length k), take-pad b m k (omega arith) (omega arith))

pub take-append-exact : (xs ys : Bytes) (n : ℕ) → length xs ≡ n → take n (xs ++ ys) ≡ xs
take-append-exact [] ys zero e = refl
take-append-exact [] ys (suc n) e = absurd (omega (arith, e))
take-append-exact (x ∷ xs) ys zero e = absurd (omega (arith, e))
take-append-exact (x ∷ xs) ys (suc n) e = rw (take-append-exact xs ys n (omega (arith, e)))

pub take-exact : (xs : Bytes) (n : ℕ) → length xs ≡ n → take n xs ≡ xs
take-exact xs n e = ap (take n) (sym (append-nil xs)) ∙ take-append-exact xs [] n e

pub length-map : (f : ℕ → ℕ) (xs : Bytes) → length (map f xs) ≡ length xs
length-map f [] = refl
length-map f (x ∷ xs) = ap suc (length-map f xs)

pub length-replicate : (n : ℕ) → length (replicate {A = ℕ} n 0) ≡ n
length-replicate zero = refl
length-replicate (suc n) = ap suc (length-replicate n)

-- A digest fits a block, and a block the array of the key.
pub sizes : (a : Algo) → (block_size a ≤ 128) × (hash_size a ≤ block_size a)
sizes sha1 = omega arith
sizes sha256 = omega arith
sizes sha384 = omega arith
sizes sha512 = omega arith
sizes md5 = omega arith
