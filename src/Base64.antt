-- ===== src/Base64.antt =====
-- The `base64` module, src/freedos_micro_python/port/base64_uc386dos.c.
-- A Python buffer is its list of bytes. `x >> k` is `x / 2 ^ k` and `x & (2 ^ k - 1)` is
-- `x % 2 ^ k`; `|` joins fields that share no bit, and is `+`. `-1` of the digit functions is
-- `none`.
pub mod RoundTrip
pub mod Strict
mod Tests
use freedos_micro_python.Prelude.{
  ℕ, ◌+◌, ◌-◌, ◌*◌, ◌/◌, ◌%◌, ◌^◌, ◌≡◌, refl, Bool, true, false, ◌||◌, Option, none, some, List, [],
  ◌∷◌, ◌++◌, arith, Bytes, codes, get_or, length, leb, ◌==◌, in_range, if◌then◌else◌, Result, ok,
  raised, value_error, Exception,
}

abbrev pub b64_alphabet : Bytes
b64_alphabet = codes "ABCDEFGHIJKLMNOPQRSTUVWXYZabcdefghijklmnopqrstuvwxyz0123456789+/"

pub b64_decode_char : ℕ → Option ℕ
b64_decode_char c =
    if in_range b'A' b'Z' c
    then some (c - b'A')
    else if in_range b'a' b'z' c
    then some (c - b'a' + 26)
    else if in_range b'0' b'9' c
    then some (c - b'0' + 52)
    else if c == b'+'
    then some 62
    else if c == b'/'
    then some 63
    else none

-- `b64_alphabet[(v >> shift) & 0x3F]`
pub b64_letter : ℕ → ℕ → ℕ
b64_letter v shift = get_or b64_alphabet (v / 2 ^ shift % 64) 0

-- The loop takes three bytes a round; the last two clauses before the end are `rem == 1` and
-- `rem == 2`.
pub b64encode : Bytes → Bytes
b64encode [] = []
b64encode (a ∷ []) = let v = a * 2 ^ 16 in b64_letter v 18 ∷ b64_letter v 12 ∷ b'=' ∷ b'=' ∷ []
b64encode (a ∷ b ∷ []) =
    let v = a * 2 ^ 16 + b * 2 ^ 8 in b64_letter v 18 ∷ b64_letter v 12 ∷ b64_letter v 6 ∷ b'=' ∷ []
b64encode (a ∷ b ∷ c ∷ s) =
    let v = a * 2 ^ 16 + b * 2 ^ 8 + c in
    b64_letter v 18 ∷ b64_letter v 12 ∷ b64_letter v 6 ∷ b64_letter v 0 ∷ b64encode s

-- What the body of the decoding loop does with one byte.
pub data Symbol : Type 0 where
  blank padding invalid : Symbol
  sextet : ℕ → Symbol

pub symbol : ℕ → Symbol
unfolding b64_decode_char
symbol c =
    if c == b'\r' || c == b'\n' || c == b' ' || c == b'\t'
    then blank
    else if c == b'='
    then padding
    else elim (b64_decode_char c) [ none ↦ invalid | some v ↦ sextet v ]

-- `bits` is an `int`, here the 32 bits that it holds.
pub b64decode_loop : Bytes → ℕ → ℕ → Bytes → Result Bytes
b64decode_loop [] bits collected out = ok out
b64decode_loop (c ∷ s) bits collected out = elim (symbol c) [
  | blank ↦ b64decode_loop s bits collected out
  | padding ↦ ok out
  | invalid ↦ raised value_error
  | sextet v ↦
      let bits' = (bits * 64 + v) % 2 ^ 32 in
      let full = leb 8 (collected + 6) in
      let left = collected + 6 - 8 in
      b64decode_loop s bits' (if full then left else collected + 6)
        (if full then out ++ (bits' / 2 ^ left % 256) ∷ [] else out)
]

pub b64decode : Bytes → Result Bytes
unfolding b64decode_loop
b64decode s = b64decode_loop s 0 0 []

abbrev pub upper_hex : Bytes
upper_hex = codes "0123456789ABCDEF"

pub b16encode : Bytes → Bytes
b16encode [] = []
b16encode (c ∷ s) = get_or upper_hex (c / 2 ^ 4 % 16) 0 ∷ get_or upper_hex (c % 16) 0 ∷ b16encode s

pub hex_digit : ℕ → Option ℕ
hex_digit c =
    if in_range b'0' b'9' c
    then some (c - b'0')
    else if in_range b'A' b'F' c
    then some (c - b'A' + 10)
    else if in_range b'a' b'f' c
    then some (c - b'a' + 10)
    else none

-- The digits of one round; both are looked up before either is tested.
pub hex_pair : ℕ → ℕ → Option ℕ
unfolding hex_digit
hex_pair h l = elim (hex_digit h) [
  | none ↦ none
  | some hi ↦ elim (hex_digit l) [ none ↦ none | some lo ↦ some (hi * 2 ^ 4 + lo) ]
]

-- The length is even, so the clause for a single byte is not reached.
pub b16decode_loop : Bytes → Bytes → Result Bytes
b16decode_loop [] out = ok out
b16decode_loop (h ∷ []) out = ok out
b16decode_loop (h ∷ l ∷ s) out = elim (hex_pair h l) [
  | none ↦ raised value_error
  | some v ↦ b16decode_loop s (out ++ v ∷ [])
]

pub b16decode : Bytes → Result Bytes
unfolding b16decode_loop
b16decode s = if length s % 2 == 1 then raised value_error else b16decode_loop s []
