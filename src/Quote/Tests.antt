-- ===== src/Quote/Tests.antt =====
-- Runs of quote and unquote on concrete texts.
use freedos_micro_python.Prelude.{
  ◌≡◌, refl, some, none, Bytes, codes, ok, raised, type_error, arith,
}
use freedos_micro_python.Quote.{
  text, other, quote_inner, quote_loop, quote_byte, is_unreserved, pct, is_in, urllib_quote,
  urllib_unquote, do_unquote, escape, hex_value,
}
use freedos_micro_python.Quote.RoundTrip.{unquote-quote}

quote_path : urllib_quote {X = Unit} (text (codes "/a b%")) none ≡ ok (codes "/a%20b%25")
unfolding urllib_quote quote_inner quote_loop quote_byte is_unreserved pct is_in
quote_path = refl

quote_number : urllib_quote {X = Unit} (other tt) none ≡ raised type_error
unfolding urllib_quote quote_inner
quote_number = refl

unquote_partial : urllib_unquote (codes "%4x%41%4") ≡ codes "%4xA%4"
unfolding urllib_unquote do_unquote escape hex_value
unquote_partial = refl

unquote-quote_example :
    (q : Bytes) × (urllib_quote {X = Unit} (text (codes "a/b c")) (some (text (codes ":"))) ≡ ok q)
    × (urllib_unquote q ≡ codes "a/b c")
unquote-quote_example =
    unquote-quote (codes "a/b c") (some (text (codes ":")))
      (omega arith, (omega arith, (omega arith, (omega arith, (omega arith, tt)))))
      (omega arith, tt)
