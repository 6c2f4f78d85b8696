-- ===== src/Base64/Tests.antt =====
-- Runs of the functions of Base64 on concrete texts.
use freedos_micro_python.Prelude.{◌≡◌, refl, Bytes, codes, arith, ok, raised, value_error}
use freedos_micro_python.Base64.{
  b64encode, b64decode, b64decode_loop, symbol, b64_decode_char, b64_letter, b16decode,
  b16decode_loop, hex_pair, hex_digit,
}
use freedos_micro_python.Base64.RoundTrip.{b64decode-b64encode}

abbrev hello : Bytes
hello = codes "hello"

encode_hello : b64encode hello ≡ codes "aGVsbG8="
unfolding b64encode b64_letter
encode_hello = refl

decode_lines : b64decode (codes "aGVs\nbG8=") ≡ ok hello
unfolding b64decode b64decode_loop symbol b64_decode_char
decode_lines = refl

-- Nothing behind the padding is looked at.
decode_behind : b64decode (codes "aGVsbG8=!") ≡ ok hello
unfolding b64decode b64decode_loop symbol b64_decode_char
decode_behind = refl

decode_invalid : b64decode (codes "aG!s") ≡ raised value_error
unfolding b64decode b64decode_loop symbol b64_decode_char
decode_invalid = refl

hex_mixed : b16decode (codes "4a4B") ≡ ok (codes "JK")
unfolding b16decode b16decode_loop hex_pair hex_digit
hex_mixed = refl

b64decode-b64encode_example : b64decode (b64encode (codes "he")) ≡ ok (codes "he")
b64decode-b64encode_example = b64decode-b64encode (codes "he") (omega arith, (omega arith, tt))
