-- ===== src/Crypto/Cipher/Counter.antt =====
-- The counter of AES-CTR in libssh2_axtls.c as a number of 128 bits, and the words that AES works on.
use freedos_micro_python.Prelude.{
  ℕ, zero, suc, ◌+◌, ◌*◌, ◌/◌, ◌%◌, ◌^◌, ◌≡◌, ◌∙◌, sym, ap, refl, Bool-cases, inl, inr, List, [],
  ◌∷◌, ◌++◌, append_assoc, Bytes, length, get_or, length-append, ◌==◌, All, All-append, IsByte,
  append-nil, arith,
}
use freedos_micro_python.Crypto.Cipher.{
  word_of, bytes_of, swap, load_words, store_words, set, increment,
}

-- The lowest `n` bytes of a number, the highest of them first; words of 32 bits likewise.
unfoldable pub big_endian : ℕ → ℕ → Bytes
big_endian zero v = []
big_endian (suc n) v = big_endian n (v / 256) ++ (v % 256 ∷ [])

pub big_words : ℕ → ℕ → List ℕ
big_words zero v = []
big_words (suc n) v = big_words n (v / 2 ^ 32) ++ (v % 2 ^ 32 ∷ [])

pub length-big_endian : (n v : ℕ) → length (big_endian n v) ≡ n
unfolding big_endian
length-big_endian zero v = refl
length-big_endian (suc n) v =
    omega
      (arith, length-append (big_endian n (v / 256)) (v % 256 ∷ []), length-big_endian n (v / 256))

pub length-big_words : (n v : ℕ) → length (big_words n v) ≡ n
unfolding big_words
length-big_words zero v = refl
length-big_words (suc n) v = omega (
  arith,
  length-append (big_words n (v / 2 ^ 32)) (v % 2 ^ 32 ∷ []),
  length-big_words n (v / 2 ^ 32),
)

zero-add : (n : ℕ) → 0 + n ≡ n
zero-add n = omega arith

add-zero : (n : ℕ) → n + 0 ≡ n
add-zero n = omega arith

get_or-middle : (xs ys : Bytes) (c k : ℕ) → length xs ≡ k → get_or (xs ++ (c ∷ ys)) k 0 ≡ c
get_or-middle [] ys c zero e = refl
get_or-middle [] ys c (suc k) e = absurd (omega (arith, e))
get_or-middle (x ∷ xs) ys c zero e = absurd (omega (arith, e))
get_or-middle (x ∷ xs) ys c (suc k) e = get_or-middle xs ys c k (omega (arith, e))

set-middle : (xs ys : Bytes) (c d k : ℕ) → length xs ≡ k → set (xs ++ (c ∷ ys)) k d ≡ xs ++ (d ∷ ys)
set-middle [] ys c d zero e = refl
set-middle [] ys c d (suc k) e = absurd (omega (arith, e))
set-middle (x ∷ xs) ys c d zero e = absurd (omega (arith, e))
set-middle (x ∷ xs) ys c d (suc k) e = rw (set-middle xs ys c d k (omega (arith, e)))

-- The carry runs through the bytes as an addition does.
pub increment-big_endian :
    (k v : ℕ) (ys : Bytes) → increment k (big_endian k v ++ ys) ≡ big_endian k (v + 1) ++ ys
unfolding increment big_endian
increment-big_endian zero v ys = refl
increment-big_endian (suc k) v ys =
    let high = big_endian k (v / 256) in
    let sized = length-big_endian k (v / 256) in
    let low = (v % 256 + 1) % 256 in
    let end : low ≡ (v + 1) % 256 = omega arith in
    let at = get_or-middle high ys (v % 256) k sized in
    let put = set-middle high ys (v % 256) low k sized in
    rw
      (
        append_assoc high (v % 256 ∷ []) ys,
        append_assoc (big_endian k ((v + 1) / 256)) ((v + 1) % 256 ∷ []) ys,
      )
      (elim (Bool-cases (low == 0)) [
        | inl wraps ↦
            let up : v / 256 + 1 ≡ (v + 1) / 256 = ground arith in
            simp (increment, at, put, wraps)
              (increment-big_endian k (v / 256) (low ∷ ys)
                ∙ ap (λ h. big_endian k h ++ (low ∷ ys)) up
                ∙ ap (λ d. big_endian k ((v + 1) / 256) ++ (d ∷ ys)) end)
        | inr stays ↦
            let up : v / 256 ≡ (v + 1) / 256 = ground arith in
            simp (increment, at, put, stays)
              (ap (λ h. big_endian k h ++ (low ∷ ys)) up
                ∙ ap (λ d. big_endian k ((v + 1) / 256) ++ (d ∷ ys)) end)
      ])

swap-word_of :
    (u : ℕ)
    → swap (word_of (u / 256 / 256 / 256 % 256) (u / 256 / 256 % 256) (u / 256 % 256) (u % 256))
      ≡ u % 2 ^ 32
unfolding swap word_of
swap-word_of u = omega arith

quarter : (u : ℕ) → u / 256 / 256 / 256 / 256 ≡ u / 2 ^ 32
quarter u = omega arith

-- The words that are loaded from a counter are those of its number.
pub load_words-big_endian : (v : ℕ) → load_words (big_endian 16 v) ≡ big_words 4 v
unfolding load_words big_endian big_words
load_words-big_endian v =
    rw
      (
        swap-word_of v,
        swap-word_of (v / 256 / 256 / 256 / 256),
        swap-word_of (v / 256 / 256 / 256 / 256 / 256 / 256 / 256 / 256),
        swap-word_of (v / 256 / 256 / 256 / 256 / 256 / 256 / 256 / 256 / 256 / 256 / 256 / 256),
        quarter v,
        quarter (v / 2 ^ 32),
        quarter (v / 2 ^ 32 / 2 ^ 32),
      )
      refl

bytes-path :
    {a b c d e f g h : ℕ}
    → a ≡ e
    → b ≡ f
    → c ≡ g
    → d ≡ h
    → ◌≡◌ {A = Bytes} (a ∷ b ∷ c ∷ d ∷ []) (e ∷ f ∷ g ∷ h ∷ [])
bytes-path p q r s = λ i. p i ∷ q i ∷ r i ∷ s i ∷ []

pub store_words-cons :
    (w : ℕ) (ws : List ℕ) → store_words (w ∷ ws) ≡ big_endian 4 w ++ store_words ws
unfolding store_words bytes_of swap word_of big_endian
store_words-cons w ws =
    ap (λ t. t ++ store_words ws)
      (bytes-path (omega arith) (omega arith) (omega arith) (omega arith))

-- Sixteen bytes are those of a number.
pub number_from : ℕ → Bytes → ℕ
number_from v [] = v
number_from v (c ∷ cs) = number_from (v * 256 + c) cs

big_endian-number :
    (n v : ℕ) (xs : Bytes)
    → All IsByte xs
    → big_endian (length xs + n) (number_from v xs) ≡ big_endian n v ++ xs
unfolding number_from big_endian
big_endian-number n v [] h = rw (zero-add n) (sym (append-nil (big_endian n v)))
big_endian-number n v (c ∷ cs) h =
    let high : (v * 256 + c) / 256 ≡ v = omega arith in
    let low : (v * 256 + c) % 256 ≡ c = omega arith in
    ap (λ k. big_endian k (number_from (v * 256 + c) cs)) (shift (length cs) n)
    ∙ big_endian-number (suc n) (v * 256 + c) cs h.1
    ∙ ap (λ t. (big_endian n t ++ ((v * 256 + c) % 256 ∷ [])) ++ cs) high
    ∙ ap (λ t. (big_endian n v ++ (t ∷ [])) ++ cs) low
    ∙ append_assoc (big_endian n v) (c ∷ []) cs
  where
    shift : (k n : ℕ) → suc k + n ≡ k + suc n
    shift k n = omega arith

pub big_endian-All : (n v : ℕ) → All IsByte (big_endian n v)
unfolding big_endian
big_endian-All zero v = tt
big_endian-All (suc n) v =
    All-append IsByte (big_endian n (v / 256)) (v % 256 ∷ []) (big_endian-All n (v / 256))
      (omega arith, tt)

pub big_endian-whole : (xs : Bytes) → All IsByte xs → big_endian (length xs) (number_from 0 xs) ≡ xs
unfolding big_endian
big_endian-whole xs h =
    ap (λ n. big_endian n (number_from 0 xs)) (sym (add-zero (length xs)))
    ∙ big_endian-number 0 0 xs h
