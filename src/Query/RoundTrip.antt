-- ===== src/Query/RoundTrip.antt =====
-- `parse_qsl` of urllib_parse_uc386dos.c, by itself and on what `urlencode` writes.
use freedos_micro_python.Prelude.{
  ℕ, zero, suc, ◌+◌, ◌-◌, ◌≤◌, ◌<◌, ◌≡◌, ◌≢◌, refl, ap, Bool, true, false, ◌||◌, some, List, [],
  ◌∷◌, ◌++◌, append_assoc, append-nil, arith, Bytes, length, length-append, All, All-append, IsByte,
  ltb, ok,
}
use freedos_micro_python.Quote.{Object, text, quote_loop, quote_inner, urllib_unquote_plus}
use freedos_micro_python.Quote.RoundTrip.{unquote_plus-quote_loop}
use freedos_micro_python.Quote.Output.{
  is_output, quote_loop-IsOutput, length-quote_loop, query_free,
}
use freedos_micro_python.Scan.{span, Stops, Passes, span_exact, length-span}
use freedos_micro_python.Query.{
  urlencode_pair, urlencode_items, iterable, urlencode, stop_pair, stop_key, behind, qsl_pair,
  parse_qsl_loop, parse_qsl,
}

length-behind : (s : Bytes) → length (behind s) ≡ length s - 1
length-behind [] = omega arith
length-behind (c ∷ s) = omega arith

loop_total :
    (fuel : ℕ) (keep : Bool) (s : Bytes) (result : List (Bytes × Bytes))
    → length s < fuel
    → (r : List (Bytes × Bytes)) × (parse_qsl_loop fuel keep s result ≡ some r)
unfolding parse_qsl_loop
loop_total zero keep s result h = absurd (omega arith)
loop_total (suc fuel) keep [] result h = (result, refl)
loop_total (suc fuel) keep (c ∷ s) result h =
    loop_total fuel keep (behind (span stop_pair (c ∷ s)).1) _
      (omega (arith, length-span stop_pair (c ∷ s), length-behind (span stop_pair (c ∷ s)).1))

-- `parse_qsl` ends on every query string.
pub parse_qsl_total :
    (keep : Bool) (qs : Bytes) → (r : List (Bytes × Bytes)) × (parse_qsl keep qs ≡ some r)
unfolding parse_qsl
parse_qsl_total keep qs = loop_total (suc (length qs)) keep qs [] (omega arith)

quoted : Bytes → Bytes
quoted s = quote_loop [] true s

Passes-of :
    (stop : ℕ → Bool) (s : Bytes)
    → ((b : ℕ) → is_output [] true b ≡ true → stop b ≡ false)
    → All (λ b. is_output [] true b ≡ true) s
    → Passes stop s
Passes-of stop [] f h = tt
Passes-of stop (c ∷ s) f (hc, hs) = (f c hc, Passes-of stop s f hs)

not_stop_key : (b : ℕ) → is_output [] true b ≡ true → stop_key b ≡ false
not_stop_key b h = ground (arith, query_free b h)

not_stop_pair : (b : ℕ) → is_output [] true b ≡ true → stop_pair b ≡ false
not_stop_pair b h = ground (arith, query_free b h)

quoted-Passes-key : (s : Bytes) → Passes stop_key (quoted s)
unfolding quoted
quoted-Passes-key s = Passes-of stop_key _ not_stop_key (quote_loop-IsOutput [] true s)

quoted-Passes-pair : (s : Bytes) → Passes stop_pair (quoted s)
unfolding quoted
quoted-Passes-pair s = Passes-of stop_pair _ not_stop_pair (quote_loop-IsOutput [] true s)

abbrev one : Bytes × Bytes → Bytes
one (k, v) = quoted k ++ b'=' ∷ quoted v

one-Passes : (p : Bytes × Bytes) → Passes stop_pair (one p)
one-Passes (k, v) = All-append _ (quoted k) _ (quoted-Passes-pair k) (refl, quoted-Passes-pair v)

amp : List (Bytes × Bytes) → Bytes
amp [] = []
amp (p ∷ ps) = b'&' ∷ (one p ++ amp ps)

amp-Stops : (ps : List (Bytes × Bytes)) → Stops stop_pair (amp ps)
unfolding amp
amp-Stops [] = tt
amp-Stops (p ∷ ps) = refl

-- A pair that `parse_qsl` keeps: byte strings, a key that is not empty, and a value that is not
-- empty unless blank values are kept.
abbrev pub IsKept : Bool → Bytes × Bytes → Type 0
IsKept keep (k, v) =
    All IsByte k × All IsByte v × (0 < length k) × (ltb 0 (length v) || keep ≡ true)

unquote-quoted : (s : Bytes) → All IsByte s → urllib_unquote_plus (quoted s) ≡ s
unfolding quoted
unquote-quoted s h = unquote_plus-quote_loop s h

length-quoted : (s : Bytes) → length s ≤ length (quoted s)
unfolding quoted
length-quoted s = (length-quote_loop [] true s).0

qsl_pair-one :
    (keep : Bool) (k v : Bytes) → IsKept keep (k, v) → qsl_pair keep (one (k, v)) ≡ (k, v) ∷ []
unfolding qsl_pair
qsl_pair-one keep k v (hk, hv, h0, h1) =
    rw (span_exact stop_key (quoted k) (b'=' ∷ quoted v) (quoted-Passes-key k) refl)
      (ground (arith, length-quoted k, length-quoted v, unquote-quoted k hk, unquote-quoted v hv))

-- A round on a text that is not empty.
loop_round :
    (fuel : ℕ) (keep : Bool) (s : Bytes) (result : List (Bytes × Bytes))
    → s ≢ []
    → parse_qsl_loop (suc fuel) keep s result
      ≡ parse_qsl_loop fuel keep
          (behind (span stop_pair s).1)
          (result ++ qsl_pair keep (span stop_pair s).0)
unfolding parse_qsl_loop
loop_round fuel keep [] result h = absurd (h refl)
loop_round fuel keep (c ∷ s) result h = refl

one-ne-nil : (p : Bytes × Bytes) (s : Bytes) → one p ++ s ≢ []
one-ne-nil (k, v) s e = absurd (
    omega (
      arith,
      ap (length {0}) e,
      length-append {0} (one (k, v)) s,
      length-append {0} (quoted k) (b'=' ∷ quoted v),
    ))

loop-amp :
    (fuel : ℕ) (keep : Bool) (p : Bytes × Bytes) (ps result : List (Bytes × Bytes))
    → All (IsKept keep) (p ∷ ps)
    → length ps + 1 < fuel
    → parse_qsl_loop fuel keep (one p ++ amp ps) result ≡ some (result ++ p ∷ ps)
unfolding amp
loop-amp zero keep p ps result h f = absurd (omega arith)
loop-amp (suc zero) keep p ps result h f = absurd (omega arith)
loop-amp (suc (suc fuel)) keep (k, v) [] result (h, _) f =
    rw
      (
        loop_round (suc fuel) keep _ result (one-ne-nil (k, v) []),
        span_exact stop_pair (one (k, v)) [] (one-Passes (k, v)) tt,
      )
      (unfold parse_qsl_loop in rw (qsl_pair-one keep k v h))
loop-amp (suc (suc fuel)) keep (k, v) (q ∷ ps) result (h, hs) f =
    rw
      (
        loop_round (suc fuel) keep _ result (one-ne-nil (k, v) (amp (q ∷ ps))),
        span_exact stop_pair (one (k, v)) (amp (q ∷ ps)) (one-Passes (k, v)) (amp-Stops (q ∷ ps)),
      )
      (rw (qsl_pair-one keep k v h)
        (rw (loop-amp (suc fuel) keep q ps _ hs (omega arith)) (rw append_assoc)))

-- Pairs of texts, as the arrays that an iterator yields.
abbrev pub arrays : {X : Type 0} → List (Bytes × Bytes) → List (List (Object X))
arrays [] = []
arrays ((k, v) ∷ ps) = (text k ∷ text v ∷ []) ∷ arrays ps

module _ {X : Type 0} (str : Object X → Bytes) where
  items-amp :
      (ps : List (Bytes × Bytes)) (vstr : Bytes)
      → urlencode_items str (arrays ps) vstr false ≡ ok (vstr ++ amp ps)
  unfolding urlencode_items urlencode_pair quote_inner amp quoted
  items-amp [] vstr = rw append-nil
  items-amp ((k, v) ∷ ps) vstr = rw (items-amp ps) (simp append_assoc)

  -- What the first pair and the pairs behind it are written as.
  urlencode-amp :
      (p : Bytes × Bytes) (ps : List (Bytes × Bytes))
      → urlencode str (iterable (arrays (p ∷ ps))) ≡ ok (one p ++ amp ps)
  unfolding urlencode urlencode_items urlencode_pair quote_inner quoted
  urlencode-amp (k, v) ps = rw (items-amp ps)

  pairs-le-amp : (ps : List (Bytes × Bytes)) → length ps ≤ length (amp ps)
  unfolding amp
  pairs-le-amp [] = omega arith
  pairs-le-amp (p ∷ ps) = omega (arith, pairs-le-amp ps, length-append {0} (one p) (amp ps))

  -- `parse_qsl` gives back the pairs of texts that `urlencode` wrote: keys that are not empty, and
  -- values that are not empty unless blank ones are kept.
  pub parse_qsl-urlencode :
      (keep : Bool) (ps : List (Bytes × Bytes))
      → All (IsKept keep) ps
      → (qs : Bytes) × (urlencode str (iterable (arrays ps)) ≡ ok qs)
        × (parse_qsl keep qs ≡ some ps)
  unfolding parse_qsl
  parse_qsl-urlencode keep [] h =
      unfold urlencode urlencode_items parse_qsl_loop in ([], refl, refl)
  parse_qsl-urlencode keep (p ∷ ps) h =
      (one p ++ amp ps, urlencode-amp p ps, loop-amp _ keep p ps [] h enough)
    where
      enough : length ps + 1 < suc (length (one p ++ amp ps))
      enough = omega (
        arith,
        pairs-le-amp ps,
        length-append {0} (one p) (amp ps),
        length-append {0} (quoted p.0) (b'=' ∷ quoted p.1),
      )
