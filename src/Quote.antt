-- ===== src/Quote.antt =====
-- quote, unquote and their `plus` forms, of src/freedos_micro_python/port/urllib_parse_uc386dos.c.
-- The model stops at the bytes that go into MicroPython's string constructors.
pub mod RoundTrip
mod Tests
pub mod Output
use freedos_micro_python.Prelude.{
  ℕ, zero, suc, ◌+◌, ◌-◌, ◌*◌, ◌/◌, ◌%◌, ◌^◌, ◌≡◌, refl, Bool, true, false, not, ◌&&◌, ◌||◌, Option,
  none, some, List, [], ◌∷◌, ◌++◌, arith, Bytes, codes, get_or, length, ltb, leb, ◌==◌, in_range,
  if◌then◌else◌, Result, ok, raised, value_error, type_error, ◌>>=◌,
}

abbrev pub is_letter : ℕ → Bool
is_letter c = in_range b'A' b'Z' c || in_range b'a' b'z' c

pub is_unreserved : ℕ → Bool
is_unreserved c =
    is_letter c || in_range b'0' b'9' c || c == b'-' || c == b'_' || c == b'.' || c == b'~'

pub hex_value : ℕ → Option ℕ
hex_value c =
    if in_range b'0' b'9' c
    then some (c - b'0')
    else if in_range b'A' b'F' c
    then some (c - b'A' + 10)
    else if in_range b'a' b'f' c
    then some (c - b'a' + 10)
    else none

abbrev pub pct_hex : Bytes
pct_hex = codes "0123456789ABCDEF"

-- `vstr_add_pct`: what it appends.
pub pct : ℕ → Bytes
pct c = b'%' ∷ get_or pct_hex (c / 2 ^ 4 % 16) 0 ∷ get_or pct_hex (c % 16) 0 ∷ []

-- The loop over `safe`, which stops at the first match.
pub is_in : ℕ → Bytes → Bool
is_in c [] = false
is_in c (d ∷ ds) = c == d || is_in c ds

-- A Python object: a text (str or bytes), another object with a buffer, or anything else.
pub data Object (X : Type 0) : Type 0 where
  text : Bytes → Object X
  buffer : Bytes → Object X
  other : X → Object X

-- `safe`, and the length 0 where the argument is None or no text.
abbrev pub safe_bytes : {X : Type 0} → Option (Object X) → Bytes
safe_bytes none = []
safe_bytes (some (text s)) = s
safe_bytes (some (buffer s)) = []
safe_bytes (some (other x)) = []

-- What one round of `quote_inner` appends for the byte `c`.
pub quote_byte : Bytes → Bool → ℕ → Bytes
quote_byte safe plus c =
    let default_safe_slash = not plus && length safe == 0 in
    let passthrough = is_unreserved c || default_safe_slash && c == b'/' || is_in c safe in
    if plus && c == b' ' then b'+' ∷ [] else if passthrough then c ∷ [] else pct c

pub quote_loop : Bytes → Bool → Bytes → Bytes
quote_loop safe plus [] = []
quote_loop safe plus (c ∷ s) = quote_byte safe plus c ++ quote_loop safe plus s

-- `mp_get_buffer_raise` refuses what is no buffer.
unfoldable pub quote_inner : {X : Type 0} → Object X → Option (Object X) → Bool → Result Bytes
quote_inner (text s) safe plus = ok (quote_loop (safe_bytes safe) plus s)
quote_inner (buffer s) safe plus = ok (quote_loop (safe_bytes safe) plus s)
quote_inner (other x) safe plus = raised type_error

-- The optional argument `safe` is None where it is absent.
pub urllib_quote : {X : Type 0} → Object X → Option (Object X) → Result Bytes
urllib_quote s safe = quote_inner s safe false

pub urllib_quote_plus : {X : Type 0} → Object X → Option (Object X) → Result Bytes
urllib_quote_plus s safe = quote_inner s safe true

-- The value of two hexadecimal digits, if both are.
pub escape : ℕ → ℕ → Option ℕ
escape h l = elim (hex_value h) [
  | none ↦ none
  | some hi ↦ elim (hex_value l) [ none ↦ none | some lo ↦ some (hi * 2 ^ 4 + lo) ]
]

-- A byte that starts no escape: `+` is a space under `plus`.
abbrev pub plain : Bool → ℕ → ℕ
plain plus c = if plus && c == b'+' then b' ' else c

-- An escape needs two more bytes (`i + 2 < n`), and is taken for itself if they are no digits.
pub do_unquote : Bool → Bytes → Bytes
do_unquote plus [] = []
do_unquote plus (c ∷ []) = plain plus c ∷ []
do_unquote plus (c ∷ h ∷ []) = plain plus c ∷ do_unquote plus (h ∷ [])
do_unquote plus (c ∷ h ∷ l ∷ s) = elim (c == b'%') [
  | false ↦ plain plus c ∷ do_unquote plus (h ∷ l ∷ s)
  | true ↦ elim (escape h l) [
    | none ↦ c ∷ do_unquote plus (h ∷ l ∷ s)
    | some v ↦ v ∷ do_unquote plus s
  ]
]

pub urllib_unquote : Bytes → Bytes
urllib_unquote s = do_unquote false s

pub urllib_unquote_plus : Bytes → Bytes
urllib_unquote_plus s = do_unquote true s
