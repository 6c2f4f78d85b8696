-- ===== src/Base64/Strict.antt =====
-- What the decoders of base64_uc386dos.c accept, skip and refuse, and how much they return.
use freedos_micro_python.Prelude.{
  ℕ, map, ◌&&◌, ◌+◌, ◌-◌, ◌*◌, ◌/◌, ◌%◌, ◌^◌, ◌<◌, ◌≤◌, ◌≡◌, ◌∙◌, refl, Bool, true, Option, none,
  some, List, [], ◌∷◌, ◌++◌, append_assoc, append-nil, arith, Bytes, get_or, length, All, IsByte,
  leb, ◌==◌, tabulated, tabulated-value, if◌then◌else◌, Result, ok, raised, value_error, Bool-cases,
  inl, inr,
}
use freedos_micro_python.Base64.{
  Symbol, blank, padding, invalid, sextet, symbol, b64decode_loop, b64decode, b16encode, upper_hex,
  hex_digit, hex_pair, b16decode_loop, b16decode,
}

-- The digits that a text holds before its first `=`; `none` if another byte stands there that is
-- not white space.
pub digits : Bytes → Option (List ℕ)
digits [] = some []
digits (c ∷ s) = elim (symbol c) [
  | blank ↦ digits s
  | padding ↦ some []
  | invalid ↦ none
  | sextet v ↦ elim (digits s) [ none ↦ none | some vs ↦ some (v ∷ vs) ]
]

-- The bytes of a row of digits: a byte leaves as soon as eight bits are there.
pub bytes_of : List ℕ → ℕ → ℕ → Bytes
bytes_of [] bits n = []
bytes_of (v ∷ vs) bits n =
    let bits' = (bits * 64 + v) % 2 ^ 32 in
    let more = bytes_of vs bits' (n + 6 - 8) in
    let fewer = bytes_of vs bits' (n + 6) in
    if leb 8 (n + 6) then (bits' / 2 ^ (n + 6 - 8) % 256) ∷ more else fewer

abbrev answer : Bytes → Option (List ℕ) → ℕ → ℕ → Result Bytes
answer out none bits n = raised value_error
answer out (some vs) bits n = ok (out ++ bytes_of vs bits n)

-- The loop with any bits pending and any output behind it.
abbrev Loop : Bytes → Type 0
Loop s = (bits n : ℕ) (out : Bytes) → b64decode_loop s bits n out ≡ answer out (digits s) bits n

Loop-digit :
    (c v : ℕ) (s : Bytes) (d : Option (List ℕ)) (bits n : ℕ) (out : Bytes)
    → symbol c ≡ sextet v
    → digits s ≡ d
    → Loop s
    → b64decode_loop (c ∷ s) bits n out ≡ answer out (digits (c ∷ s)) bits n
unfolding b64decode_loop digits bytes_of
Loop-digit c v s none bits n out e h ih = rw (e, b64decode_loop, digits) (rw (ih, h))
Loop-digit c v s (some vs) bits n out e h ih = elim (Bool-cases (leb 8 (n + 6))) [
  | inl full ↦ rw (e, b64decode_loop, digits) (rw (ih, h, full) (rw append_assoc))
  | inr few ↦ rw (e, b64decode_loop, digits) (rw (ih, h, few))
]

Loop-symbol : (c : ℕ) (x : Symbol) (s : Bytes) → symbol c ≡ x → Loop s → Loop (c ∷ s)
unfolding b64decode_loop digits
Loop-symbol c blank s e ih bits n out = rw (e, b64decode_loop, digits) (ih bits n out)
Loop-symbol c padding s e ih bits n out =
    rw (e, b64decode_loop, digits) (unfold bytes_of in rw append-nil)
Loop-symbol c invalid s e ih bits n out = rw (e, b64decode_loop, digits)
Loop-symbol c (sextet v) s e ih bits n out = Loop-digit c v s (digits s) bits n out e refl ih

Loop-answer : (s : Bytes) → Loop s
unfolding b64decode_loop digits bytes_of
Loop-answer [] bits n out = rw append-nil
Loop-answer (c ∷ s) bits n out = Loop-symbol c (symbol c) s refl (Loop-answer s) bits n out

-- `b64decode` is the bytes of the digits before the first `=`, with white space left out, and a
-- ValueError exactly when another byte stands there: what follows the `=` is never looked at.
pub b64decode-digits :
    (s : Bytes)
    → b64decode s ≡ elim (digits s) [ none ↦ raised value_error | some vs ↦ ok (bytes_of vs 0 0) ]
unfolding b64decode
b64decode-digits s = ground (arith, Loop-answer s 0 0 [])

length-bytes_of :
    (vs : List ℕ) (bits n : ℕ) → n < 8 → length (bytes_of vs bits n) ≡ (6 * length vs + n) / 8
unfolding bytes_of
length-bytes_of [] bits n h = omega arith
length-bytes_of (v ∷ vs) bits n h =
    let bits' = (bits * 64 + v) % 2 ^ 32 in
    elim (Bool-cases (leb 8 (n + 6))) [
      | inl full ↦ rw full (ground (arith, length-bytes_of vs bits' (n + 6 - 8)))
      | inr few ↦ rw few (ground (arith, length-bytes_of vs bits' (n + 6)))
    ]

abbrev count : Option (List ℕ) → ℕ
count none = 0
count (some vs) = length vs

count-digits : (s : Bytes) → count (digits s) ≤ length s
unfolding digits
count-digits [] = omega arith
count-digits (c ∷ s) = ground (arith, count-digits s)

-- At most three bytes come from four characters, so the result fits the (n * 3) / 4 + 4 bytes that
-- `b64decode` reserves for it.
pub length-b64decode : (s t : Bytes) → b64decode s ≡ ok t → length t ≤ length s * 3 / 4
length-b64decode s t h = go (digits s) refl
  where
    go : (d : Option (List ℕ)) → digits s ≡ d → length t ≤ length s * 3 / 4
    go none e = absurd (ground (arith, b64decode-digits s))
    go (some vs) e = ground (arith, b64decode-digits s, length-bytes_of vs 0 0, count-digits s)

pub upper : ℕ → ℕ
upper c = if leb b'a' c && leb c b'z' then c - 32 else c

-- A hexadecimal digit, back from its value.
digit_back : ℕ → Bool
digit_back h = elim (hex_digit h) [
  | none ↦ true
  | some v ↦ leb v 15 && get_or upper_hex v 0 == upper h
]

digit_table : tabulated 256 digit_back ≡ true
unfolding tabulated digit_back hex_digit upper
digit_table = refl

digit-back :
    (h v : ℕ) → IsByte h → hex_digit h ≡ some v → (v < 16) × (get_or upper_hex v 0 ≡ upper h)
unfolding digit_back
digit-back h v b e = ground (arith, tabulated-value 256 digit_back h digit_table b)

pair_back :
    (h l v : ℕ)
    → IsByte h
    → IsByte l
    → hex_pair h l ≡ some v
    → (get_or upper_hex (v / 2 ^ 4 % 16) 0 ≡ upper h) × (get_or upper_hex (v % 16) 0 ≡ upper l)
unfolding hex_pair
pair_back h l v bh bl e = go (hex_digit h) (hex_digit l) refl refl
  where
    go :
        (x y : Option ℕ)
        → hex_digit h ≡ x
        → hex_digit l ≡ y
        → (get_or upper_hex (v / 2 ^ 4 % 16) 0 ≡ upper h) × (get_or upper_hex (v % 16) 0 ≡ upper l)
    go none y p q = absurd (ground arith)
    go (some a) none p q = absurd (ground arith)
    go (some a) (some b) p q =
        let (ha, ea) = digit-back h a bh p in
        let (hb, eb) = digit-back l b bl q in
        let ev : v ≡ a * 16 + b = ground arith in
        let e1 : v / 2 ^ 4 % 16 ≡ a = omega arith in
        let e2 : v % 16 ≡ b = omega arith in (rw (e1, ea), rw (e2, eb))

b16encode-append : (s t : Bytes) → b16encode (s ++ t) ≡ b16encode s ++ b16encode t
unfolding b16encode
b16encode-append [] t = refl
b16encode-append (c ∷ s) t = rw (b16encode-append s t)

b16encode-loop :
    (s out t : Bytes)
    → All IsByte s
    → length s % 2 ≡ 0
    → b16decode_loop s out ≡ ok t
    → b16encode t ≡ b16encode out ++ map upper s
unfolding b16decode_loop
b16encode-loop [] out t b e h = ground (arith, append-nil (b16encode out))
b16encode-loop (x ∷ []) out t b e h = absurd (omega arith)
b16encode-loop (x ∷ y ∷ s) out t (bx, (by, bs)) e h =
    go (hex_pair x y) refl (λ v h'. b16encode-loop s (out ++ v ∷ []) t bs (omega arith) h')
  where
    go :
        (p : Option ℕ)
        → hex_pair x y ≡ p
        → ((v : ℕ)
            → b16decode_loop s (out ++ v ∷ []) ≡ ok t
            → b16encode t ≡ b16encode (out ++ v ∷ []) ++ map upper s)
        → b16encode t ≡ b16encode out ++ upper x ∷ upper y ∷ map upper s
    go none q rec = absurd (ground arith)
    go (some v) q rec =
        let (ex, ey) = pair_back x y v bx by q in
        let h' : b16decode_loop s (out ++ v ∷ []) ≡ ok t = ground arith in
        rec v h' ∙ rw (b16encode-append, append_assoc) (unfold b16encode in rw (ex, ey))

-- A text that `b16decode` accepts is, in upper case, the encoding of what it returns.
pub b16encode-b16decode :
    (s t : Bytes) → All IsByte s → b16decode s ≡ ok t → b16encode t ≡ map upper s
unfolding b16decode
b16encode-b16decode s t b h = elim (Bool-cases (length s % 2 == 1)) [
  | inl odd ↦ absurd (ground arith)
  | inr even ↦ unfold b16encode in b16encode-loop s [] t b (ground arith) (ground arith)
]
