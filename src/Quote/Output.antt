-- ===== src/Quote/Output.antt =====
-- The bytes and the length of a text quoted by urllib_parse_uc386dos.c.
use freedos_micro_python.Prelude.{
  ℕ, ◌*◌, ◌/◌, ◌%◌, ◌^◌, ◌≡◌, ◌≢◌, ◌<◌, ◌≤◌, refl, Bool, true, false, not, ◌&&◌, ◌||◌, Option, [],
  ◌∷◌, arith, Bytes, get_or, length, length-append, All, All-append, ◌==◌, ok, tabulated,
  tabulated-value, Bool-cases, inl, inr,
}
use freedos_micro_python.Quote.{
  is_unreserved, pct_hex, pct, is_in, Object, text, safe_bytes, quote_byte, quote_loop, quote_inner,
  urllib_quote,
}

-- The bytes that may stand in a quoted text.
pub is_output : Bytes → Bool → ℕ → Bool
is_output safe plus b =
    is_unreserved b
    || b == b'%'
    || plus && b == b'+'
    || not plus && length safe == 0 && b == b'/'
    || is_in b safe

abbrev IsOutput : Bytes → Bool → ℕ → Type 0
IsOutput safe plus b = is_output safe plus b ≡ true

hex_unreserved : tabulated 16 (λ v. is_unreserved (get_or pct_hex v 0)) ≡ true
unfolding tabulated is_unreserved
hex_unreserved = refl

unreserved-IsOutput :
    (safe : Bytes) (plus : Bool) (b : ℕ) → is_unreserved b ≡ true → IsOutput safe plus b
unfolding is_output
unreserved-IsOutput safe plus b h = rw h

hex-IsOutput :
    (safe : Bytes) (plus : Bool) (v : ℕ) → v < 16 → IsOutput safe plus (get_or pct_hex v 0)
hex-IsOutput safe plus v h =
    unreserved-IsOutput safe plus _ (tabulated-value 16 _ v hex_unreserved h)

pct-IsOutput : (safe : Bytes) (plus : Bool) (c : ℕ) → All (IsOutput safe plus) (pct c)
unfolding pct is_output is_unreserved
pct-IsOutput safe plus c = (
  refl,
  (
    hex-IsOutput safe plus (c / 2 ^ 4 % 16) (omega arith),
    (hex-IsOutput safe plus (c % 16) (omega arith), tt),
  ),
)

-- A byte that passes through unchanged.
pass-IsOutput :
    (safe : Bytes) (plus : Bool) (c : ℕ)
    → (is_unreserved c || (not plus && length safe == 0) && c == b'/' || is_in c safe) ≡ true
    → IsOutput safe plus c
unfolding is_output
pass-IsOutput safe plus c h = ground arith

plus-IsOutput :
    (safe : Bytes) (plus : Bool) (c : ℕ) → (plus && c == b' ') ≡ true → IsOutput safe plus b'+'
unfolding is_output is_unreserved
plus-IsOutput safe true c h = refl
plus-IsOutput safe false c h = cc

quote_byte-IsOutput :
    (safe : Bytes) (plus : Bool) (c : ℕ) → All (IsOutput safe plus) (quote_byte safe plus c)
unfolding quote_byte
quote_byte-IsOutput safe plus c = elim (Bool-cases (plus && c == b' ')) [
  | inl e ↦ rw e (plus-IsOutput safe plus c e, tt)
  | inr e ↦
      rw e
        (elim (Bool-cases
          (is_unreserved c || (not plus && length safe == 0) && c == b'/' || is_in c safe)) [
            | inl f ↦ rw f (pass-IsOutput safe plus c f, tt)
            | inr f ↦ rw f (pct-IsOutput safe plus c)
          ])
]

pub quote_loop-IsOutput :
    (safe : Bytes) (plus : Bool) (s : Bytes)
    → All (λ b. is_output safe plus b ≡ true) (quote_loop safe plus s)
unfolding quote_loop
quote_loop-IsOutput safe plus [] = tt
quote_loop-IsOutput safe plus (c ∷ s) =
    All-append _ (quote_byte safe plus c) _ (quote_byte-IsOutput safe plus c)
      (quote_loop-IsOutput safe plus s)

-- A quoted text holds only unreserved characters, `%`, the bytes declared safe, and `/` where none
-- is declared safe: whatever bytes the text has.
pub quote-IsOutput :
    {X : Type 0} (s q : Bytes) (safe : Option (Object X))
    → urllib_quote (text s) safe ≡ ok q
    → All (λ b. is_output (safe_bytes safe) false b ≡ true) q
unfolding urllib_quote quote_inner
quote-IsOutput s q safe h =
    let e : quote_loop (safe_bytes safe) false s ≡ q = ground arith in
    rw (← e) (quote_loop-IsOutput (safe_bytes safe) false s)

-- Quoting never shortens a text, and at most triples it.
pub length-quote_loop :
    (safe : Bytes) (plus : Bool) (s : Bytes)
    → (length s ≤ length (quote_loop safe plus s))
      × (length (quote_loop safe plus s) ≤ length s * 3)
unfolding quote_loop quote_byte pct
length-quote_loop safe plus [] = omega arith
length-quote_loop safe plus (c ∷ s) = ground (
  arith,
  length-append (quote_byte safe plus c) (quote_loop safe plus s),
  length-quote_loop safe plus s,
)

-- Under `plus`, with nothing declared safe, none of the bytes that a query string gives a meaning.
pub query_free : (b : ℕ) → is_output [] true b ≡ true → (b ≢ b'&') × (b ≢ b';') × (b ≢ b'=')
unfolding is_output is_unreserved is_in
query_free b h = ground arith
