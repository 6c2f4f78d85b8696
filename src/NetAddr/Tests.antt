-- ===== src/NetAddr/Tests.antt =====
-- Addresses that are parsed and printed.
use freedos_micro_python.Prelude.{◌≡◌, ◌*◌, ◌+◌, refl, codes}
use freedos_micro_python.NetAddr.{parse_part, skip_dot, parse_parts, parse_ip4}

-- A short text has zeros behind it, and a part keeps its low byte.
short_text : parse_ip4 (codes "10.257") ≡ 10 + 256 * 1
unfolding parse_ip4 parse_parts parse_part skip_dot
short_text = refl

no_digits : parse_ip4 (codes "ab") ≡ 0
unfolding parse_ip4 parse_parts parse_part skip_dot
no_digits = refl
