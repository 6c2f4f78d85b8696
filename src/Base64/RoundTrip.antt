-- ===== src/Base64/RoundTrip.antt =====
-- The encoders and decoders of base64_uc386dos.c one after the other.
use freedos_micro_python.Prelude.{
  ℕ, ◌+◌, ◌-◌, ◌*◌, ◌/◌, ◌%◌, ◌^◌, ◌<◌, ◌≡◌, refl, ap, Bool, true, false, Option, none, some, [],
  ◌∷◌, ◌++◌, append_assoc, append-nil, arith, Bytes, get_or, length, All, IsByte, leb, ◌==◌, ==_iff,
  tabulated, tabulated-value, if◌then◌else◌, ok,
}
use freedos_micro_python.Base64.{
  b64_alphabet, b64_letter, b64encode, Symbol, sextet, symbol, b64decode_loop, b64decode, upper_hex,
  b16encode, hex_pair, b16decode_loop, b16decode,
}

is_sextet : Symbol → ℕ → Bool
is_sextet (sextet w) v = w == v
is_sextet _ v = false

sextet_of : (x : Symbol) (v : ℕ) → is_sextet x v ≡ true → x ≡ sextet v
unfolding is_sextet
sextet_of (sextet w) v h = ap sextet ((==_iff w v).0 h)
sextet_of Symbol.blank v h = cc
sextet_of Symbol.padding v h = cc
sextet_of Symbol.invalid v h = cc

alphabet_table : tabulated 64 (λ v. is_sextet (symbol (get_or b64_alphabet v 0)) v) ≡ true
unfolding tabulated is_sextet symbol
alphabet_table = refl

symbol-letter : (v k : ℕ) → symbol (b64_letter v k) ≡ sextet (v / 2 ^ k % 64)
unfolding b64_letter
symbol-letter v k =
    sextet_of _ _ (tabulated-value 64 _ (v / 2 ^ k % 64) alphabet_table (omega arith))

-- A digit of the alphabet, read with `n` bits pending: one round of the loop.
loop-sextet :
    (c v : ℕ) (s : Bytes) (bits n : ℕ) (out : Bytes)
    → symbol c ≡ sextet v
    → b64decode_loop (c ∷ s) bits n out ≡ (
        let bits' = (bits * 64 + v) % 2 ^ 32 in
        b64decode_loop s bits'
          (if leb 8 (n + 6) then n + 6 - 8 else n + 6)
          (if leb 8 (n + 6) then out ++ (bits' / 2 ^ (n + 6 - 8) % 256) ∷ [] else out))
unfolding b64decode_loop
loop-sextet c v s bits n out h = rw (h, b64decode_loop)

pad-loop : (s : Bytes) (bits n : ℕ) (out : Bytes) → b64decode_loop (b'=' ∷ s) bits n out ≡ ok out
unfolding b64decode_loop symbol
pad-loop s bits n out = refl

-- The bits kept after a digit.
abbrev push : ℕ → ℕ → ℕ
push bits v = (bits * 64 + v) % 2 ^ 32

byte_one : (bits w x : ℕ) → w < 64 → x < 64 → push (push bits w) x / 2 ^ 4 % 256 ≡ w * 4 + x / 16
byte_one bits w x hw hx = omega arith

byte_two :
    (bits x y : ℕ) → x < 64 → y < 64 → push (push bits x) y / 2 ^ 2 % 256 ≡ x % 16 * 16 + y / 4
byte_two bits x y hx hy = omega arith

byte_three : (bits y z : ℕ) → y < 64 → z < 64 → push (push bits y) z / 2 ^ 0 % 256 ≡ y % 4 * 64 + z
byte_three bits y z hy hz = omega arith

-- Two digits give the first byte and leave four bits.
loop_two :
    (v bits : ℕ) (s out : Bytes)
    → b64decode_loop (b64_letter v 18 ∷ b64_letter v 12 ∷ s) bits 0 out
      ≡ b64decode_loop s
          (push (push bits (v / 2 ^ 18 % 64)) (v / 2 ^ 12 % 64))
          4
          (out ++ (v / 2 ^ 16 % 256) ∷ [])
loop_two v bits s out = rw (loop-sextet _ _ _ bits 0 out (symbol-letter v 18)) (
    rw (loop-sextet _ _ _ _ 6 out (symbol-letter v 12)) (
      ap
        (λ b.
          b64decode_loop s (push (push bits (v / 2 ^ 18 % 64)) (v / 2 ^ 12 % 64)) 4 (out ++ b ∷ []))
        (omega (arith, byte_one bits (v / 2 ^ 18 % 64) (v / 2 ^ 12 % 64)))))

-- A third digit gives the second byte and leaves two bits.
loop_three :
    (v bits : ℕ) (s out : Bytes)
    → b64decode_loop (b64_letter v 6 ∷ s) (push bits (v / 2 ^ 12 % 64)) 4 out
      ≡ b64decode_loop s
          (push (push bits (v / 2 ^ 12 % 64)) (v / 2 ^ 6 % 64))
          2
          (out ++ (v / 2 ^ 8 % 256) ∷ [])
loop_three v bits s out =
    rw (loop-sextet _ _ _ (push bits (v / 2 ^ 12 % 64)) 4 out (symbol-letter v 6)) (
      ap
        (λ b.
          b64decode_loop s (push (push bits (v / 2 ^ 12 % 64)) (v / 2 ^ 6 % 64)) 2 (out ++ b ∷ []))
        (omega (arith, byte_two bits (v / 2 ^ 12 % 64) (v / 2 ^ 6 % 64))))

loop_four :
    (v bits : ℕ) (s out : Bytes)
    → b64decode_loop (b64_letter v 0 ∷ s) (push bits (v / 2 ^ 6 % 64)) 2 out
      ≡ b64decode_loop s
          (push (push bits (v / 2 ^ 6 % 64)) (v / 2 ^ 0 % 64))
          0
          (out ++ (v % 256) ∷ [])
loop_four v bits s out =
    rw (loop-sextet _ _ _ (push bits (v / 2 ^ 6 % 64)) 2 out (symbol-letter v 0)) (
      ap
        (λ b.
          b64decode_loop s (push (push bits (v / 2 ^ 6 % 64)) (v / 2 ^ 0 % 64)) 0 (out ++ b ∷ []))
        (omega (arith, byte_three bits (v / 2 ^ 6 % 64) (v / 2 ^ 0 % 64))))

-- The loop over an encoded text, whatever bits an earlier round left in the word.
loop-encode :
    (s : Bytes) (bits : ℕ) (out : Bytes)
    → All IsByte s
    → b64decode_loop (b64encode s) bits 0 out ≡ ok (out ++ s)
unfolding b64encode
loop-encode [] bits out h = unfold b64decode_loop in rw append-nil
loop-encode (a ∷ []) bits out (ha, _) =
    rw (loop_two (a * 2 ^ 16) bits, pad-loop) (ap (λ b. ok (out ++ b ∷ [])) (omega arith))
loop-encode (a ∷ b ∷ []) bits out (ha, (hb, _)) =
    let v = a * 2 ^ 16 + b * 2 ^ 8 in
    rw (loop_two v bits, loop_three v, pad-loop, append_assoc) (ground arith)
loop-encode (a ∷ b ∷ c ∷ s) bits out (ha, (hb, (hc, hs))) =
    let v = a * 2 ^ 16 + b * 2 ^ 8 + c in
    rw (loop_two v bits, loop_three v, loop_four v, loop-encode s _ _ hs)
      (simp append_assoc (ground arith))

-- Decoding what was encoded gives the bytes back, for every byte string, padding included.
pub b64decode-b64encode : (s : Bytes) → All IsByte s → b64decode (b64encode s) ≡ ok s
unfolding b64decode
b64decode-b64encode s h = loop-encode s 0 [] h

-- `b64encode` writes exactly the ((n + 2) / 3) * 4 bytes that it asked `vstr_init_len` for.
pub length-b64encode : (s : Bytes) → length (b64encode s) ≡ (length s + 2) / 3 * 4
unfolding b64encode
length-b64encode [] = refl
length-b64encode (a ∷ []) = refl
length-b64encode (a ∷ b ∷ []) = refl
length-b64encode (a ∷ b ∷ c ∷ s) = omega (arith, length-b64encode s)

is_some : Option ℕ → ℕ → Bool
is_some none v = false
is_some (some w) v = w == v

some_of : (x : Option ℕ) (v : ℕ) → is_some x v ≡ true → x ≡ some v
unfolding is_some
some_of none v h = cc
some_of (some w) v h = ap some ((==_iff w v).0 h)

hex_table :
    tabulated 256 (λ c.
      is_some (hex_pair (get_or upper_hex (c / 2 ^ 4 % 16) 0) (get_or upper_hex (c % 16) 0)) c)
    ≡ true
unfolding tabulated is_some hex_pair
hex_table = refl

hex_pair-encode :
    (c : ℕ)
    → IsByte c
    → hex_pair (get_or upper_hex (c / 2 ^ 4 % 16) 0) (get_or upper_hex (c % 16) 0) ≡ some c
hex_pair-encode c h = some_of _ c (tabulated-value 256 _ c hex_table h)

b16decode_loop-encode :
    (s out : Bytes) → All IsByte s → b16decode_loop (b16encode s) out ≡ ok (out ++ s)
unfolding b16encode b16decode_loop
b16decode_loop-encode [] out h = rw append-nil
b16decode_loop-encode (c ∷ s) out (hc, hs) =
    rw (hex_pair-encode c hc, b16decode_loop) (rw (b16decode_loop-encode s _ hs, append_assoc))

pub length-b16encode : (s : Bytes) → length (b16encode s) ≡ length s * 2
unfolding b16encode
length-b16encode [] = refl
length-b16encode (c ∷ s) = omega (arith, length-b16encode s)

-- Decoding the hexadecimal text of a byte string gives it back.
pub b16decode-b16encode : (s : Bytes) → All IsByte s → b16decode (b16encode s) ≡ ok s
unfolding b16decode
b16decode-b16encode s h = ground (arith, length-b16encode s, b16decode_loop-encode s [] h)
