-- ===== src/Quote/RoundTrip.antt =====
-- The unquoting functions of urllib_parse_uc386dos.c on quoted texts.
use freedos_micro_python.Prelude.{
  ℕ, ◌/◌, ◌%◌, ◌^◌, ◌≡◌, ◌≢◌, refl, ap, Bool, true, false, Option, none, some, [], ◌∷◌, ◌++◌,
  append_assoc, append-nil, arith, Bytes, get_or, All, Lacks, IsByte, ◌==◌, ==_iff, ok, tabulated,
  tabulated-value,
}
use freedos_micro_python.Quote.{
  is_unreserved, hex_value, pct_hex, pct, is_in, Object, text, safe_bytes, quote_byte, quote_loop,
  quote_inner, urllib_quote, urllib_quote_plus, escape, plain, do_unquote, urllib_unquote,
  urllib_unquote_plus,
}

is_value : Option ℕ → ℕ → Bool
is_value none v = false
is_value (some w) v = w == v

value_of : (x : Option ℕ) (v : ℕ) → is_value x v ≡ true → x ≡ some v
unfolding is_value
value_of none v h = cc
value_of (some w) v h = ap some ((==_iff w v).0 h)

pct_table :
    tabulated 256
      (λ c. is_value (escape (get_or pct_hex (c / 2 ^ 4 % 16) 0) (get_or pct_hex (c % 16) 0)) c)
    ≡ true
unfolding tabulated is_value escape hex_value
pct_table = refl

-- The two digits of an escape stand for its byte.
escape-pct :
    (c : ℕ)
    → IsByte c
    → escape (get_or pct_hex (c / 2 ^ 4 % 16) 0) (get_or pct_hex (c % 16) 0) ≡ some c
escape-pct c h = value_of _ c (tabulated-value 256 _ c pct_table h)

unquote-pct :
    (plus : Bool) (c : ℕ) (s : Bytes)
    → IsByte c
    → do_unquote plus (pct c ++ s) ≡ c ∷ do_unquote plus s
unfolding pct do_unquote
unquote-pct plus c s h = rw (escape-pct c h, do_unquote)

unquote_plain :
    (plus : Bool) (c : ℕ) (s : Bytes)
    → c ≢ b'%'
    → do_unquote plus (c ∷ s) ≡ plain plus c ∷ do_unquote plus s
unfolding do_unquote
unquote_plain plus c [] h = refl
unquote_plain plus c (x ∷ []) h = refl
unquote_plain plus c (x ∷ y ∷ s) h = ground arith

is_in-Lacks : (b : ℕ) (ds : Bytes) → Lacks b ds → is_in b ds ≡ false
unfolding is_in
is_in-Lacks b [] h = refl
is_in-Lacks b (d ∷ ds) (h, hs) = ground (arith, is_in-Lacks b ds hs)

-- The bytes that may be declared safe if quoting is to be undone: no `%`, and under `plus` no `+`.
abbrev pub IsSafe : Bool → Bytes → Type 0
IsSafe false safe = Lacks b'%' safe
IsSafe true safe = Lacks b'%' safe × Lacks b'+' safe

unquote-quote_byte :
    (safe : Bytes) (plus : Bool) (c : ℕ) (s : Bytes)
    → IsByte c
    → IsSafe plus safe
    → do_unquote plus (quote_byte safe plus c ++ s) ≡ c ∷ do_unquote plus s
unfolding quote_byte is_unreserved
unquote-quote_byte safe false c s hc hs =
    ground (arith, is_in-Lacks b'%' safe hs, unquote_plain false c s, unquote-pct false c s hc)
unquote-quote_byte safe true c s hc (hp, hq) = ground (
  arith,
  is_in-Lacks b'%' safe hp,
  is_in-Lacks b'+' safe hq,
  unquote_plain true c s,
  unquote_plain true b'+' s,
  unquote-pct true c s hc,
)

pub unquote-quote_loop :
    (safe : Bytes) (plus : Bool) (s rest : Bytes)
    → All IsByte s
    → IsSafe plus safe
    → do_unquote plus (quote_loop safe plus s ++ rest) ≡ s ++ do_unquote plus rest
unfolding quote_loop
unquote-quote_loop safe plus [] rest hb hs = refl
unquote-quote_loop safe plus (c ∷ s) rest (hc, hb) hs =
    rw append_assoc
      (rw (unquote-quote_byte safe plus c _ hc hs, unquote-quote_loop safe plus s rest hb hs))

unquote-quote_whole :
    (safe : Bytes) (plus : Bool) (s : Bytes)
    → All IsByte s
    → IsSafe plus safe
    → do_unquote plus (quote_loop safe plus s) ≡ s
unquote-quote_whole safe plus s hb hs =
    let e = unquote-quote_loop safe plus s [] hb hs in
    unfold do_unquote in rw append-nil at (rw append-nil at e)

-- The form that `parse_qsl` meets: nothing is declared safe.
pub unquote_plus-quote_loop :
    (s : Bytes) → All IsByte s → urllib_unquote_plus (quote_loop [] true s) ≡ s
unfolding urllib_unquote_plus
unquote_plus-quote_loop s h = unquote-quote_whole [] true s h (tt, tt)

-- Every text is quoted, and `unquote` gives it back, unless `%` was declared safe.
pub unquote-quote :
    {X : Type 0} (s : Bytes) (safe : Option (Object X))
    → All IsByte s
    → Lacks b'%' (safe_bytes safe)
    → (q : Bytes) × (urllib_quote (text s) safe ≡ ok q) × (urllib_unquote q ≡ s)
unfolding urllib_quote quote_inner urllib_unquote
unquote-quote s safe hb hs = (
  quote_loop (safe_bytes safe) false s,
  refl,
  unquote-quote_whole (safe_bytes safe) false s hb hs,
)

-- Every text is quoted by `quote_plus`, and `unquote_plus` gives it back, unless `%` or `+` was
-- declared safe.
pub unquote_plus-quote_plus :
    {X : Type 0} (s : Bytes) (safe : Option (Object X))
    → All IsByte s
    → Lacks b'%' (safe_bytes safe)
    → Lacks b'+' (safe_bytes safe)
    → (q : Bytes) × (urllib_quote_plus (text s) safe ≡ ok q) × (urllib_unquote_plus q ≡ s)
unfolding urllib_quote_plus quote_inner urllib_unquote_plus
unquote_plus-quote_plus s safe hb hs hp = (
  quote_loop (safe_bytes safe) true s,
  refl,
  unquote-quote_whole (safe_bytes safe) true s hb (hs, hp),
)
