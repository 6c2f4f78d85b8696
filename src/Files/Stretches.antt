-- ===== src/Files/Stretches.antt =====
-- Stretches of byte lists, for the transfers of file_uc386dos.c.
use freedos_micro_python.Prelude.{
  ℕ, zero, suc, ◌+◌, ◌-◌, ◌≤◌, min, ◌≡◌, ◌∙◌, sym, ap, refl, [], ◌∷◌, ◌++◌, arith, Bytes, length,
  take, drop, append_assoc, length-append, length-take, ◌⊎◌, inl, inr,
}
use native.Mathlib.Numerals.{unary_clauses}
use freedos_micro_python.Dos21.Disk.{OpenFile, after_write}

drop_nil : (n : ℕ) → drop {A = ℕ} n [] ≡ []
drop_nil zero = refl
drop_nil (suc n) = refl

pub drop-drop : (i n : ℕ) (s : Bytes) → drop (i + n) s ≡ drop n (drop i s)
drop-drop zero n s = (let z : 0 + n ≡ n = omega arith in rw z refl)
drop-drop (suc i) n [] = drop_nil (suc i + n) ∙ sym (drop_nil n)
drop-drop (suc i) n (c ∷ s) =
    (let z : suc i + n ≡ suc (i + n) = omega arith in rw z (drop-drop i n s))

pub take_empty : (n : ℕ) (s : Bytes) → min n (length s) ≡ 0 → take n s ≡ []
take_empty zero s h = refl
take_empty (suc n) [] h = refl
take_empty (suc n) (c ∷ s) h = absurd (omega arith)

pub take_more : (m n : ℕ) (s : Bytes) → m ≤ n → take m s ++ take (n - m) (drop m s) ≡ take n s
take_more zero n s h = simp unary_clauses refl
take_more (suc m) zero s h = absurd (omega arith)
take_more (suc m) (suc n) [] h = simp unary_clauses (take_empty (n - m) [] (omega arith))
take_more (suc m) (suc n) (c ∷ s) h =
    simp unary_clauses (ap (λ t. c ∷ t) (take_more m n s (omega arith)))

pub Bytes-cases : (s : Bytes) → (s ≡ []) ⊎ ((c : ℕ) × ((cs : Bytes) × (s ≡ c ∷ cs)))
Bytes-cases [] = inl refl
Bytes-cases (c ∷ cs) = inr (c, (cs, refl))

take-prefix : (n : ℕ) (x y : Bytes) → length x ≡ n → take n (x ++ y) ≡ x
take-prefix zero [] y h = refl
take-prefix zero (c ∷ x) y h = absurd (omega arith)
take-prefix (suc n) [] y h = absurd (omega arith)
take-prefix (suc n) (c ∷ x) y h = ap (λ t. c ∷ t) (take-prefix n x y (omega arith))

drop-prefix : (n : ℕ) (x y : Bytes) → length x ≡ n → drop n (x ++ y) ≡ y
drop-prefix zero [] y h = refl
drop-prefix zero (c ∷ x) y h = absurd (omega arith)
drop-prefix (suc n) [] y h = absurd (omega arith)
drop-prefix (suc n) (c ∷ x) y h = drop-prefix n x y (omega arith)

-- Two writes, one behind the other, are one write of both stretches.
pub after_write_twice :
    (f : OpenFile) (a b : Bytes)
    → f.pos ≤ length f.contents
    → after_write (after_write f a) b ≡ after_write f (a ++ b)
after_write_twice f a b h =
    let s = f.contents in
    let p = f.pos in
    let head = take p s ++ a in
    let head_len : length head ≡ p + length a =
      omega (arith, length-append (take p s) a, length-take p s) in
    let tail = drop (p + length a) s in
    let split : take p s ++ (a ++ tail) ≡ head ++ tail = sym (append_assoc (take p s) a tail) in
    let behind : drop (p + length a + length b) (head ++ tail) ≡ drop (p + length a + length b) s =
      drop-drop (p + length a) (length b) (head ++ tail)
      ∙ ap (drop (length b)) (drop-prefix (p + length a) head tail head_len)
      ∙ sym (drop-drop (p + length a) (length b) s) in
    let sum : p + length (a ++ b) ≡ p + length a + length b = omega (arith, length-append a b) in
    rw (split, take-prefix (p + length a) head tail head_len, behind, sum)
      (ap (λ t. record { contents = t; pos = p + length a + length b })
        (append_assoc (take p s) a _ ∙ ap (λ t. take p s ++ t) (sym (append_assoc a b _))))

pub after_write_inside :
    (f : OpenFile) (a : Bytes)
    → f.pos ≤ length f.contents
    → (after_write f a).pos ≤ length (after_write f a).contents
after_write_inside f a h = omega (
  arith,
  length-append (take f.pos f.contents) (a ++ drop (f.pos + length a) f.contents),
  length-append a (drop (f.pos + length a) f.contents),
  length-take f.pos f.contents,
)
