-- ===== src/NetAddr.antt =====
-- The addresses of the `uc386_net` module, src/freedos_micro_python/port/uc386_net_uc386dos.c. C's `%u`
-- is a parameter.
pub mod RoundTrip
pub mod Module
mod Tests
use freedos_micro_python.Prelude.{
  ℕ, zero, suc, ◌+◌, ◌-◌, ◌*◌, ◌/◌, ◌%◌, ◌^◌, ◌≡◌, refl, Bool, true, false, Option, none, some,
  List, [], ◌∷◌, ◌++◌, Bytes, length, leb, ◌==◌, in_range, if◌then◌else◌,
}

-- The inner loop: the value after the digits, and the text behind them.
pub parse_part : ℕ → Bytes → ℕ × Bytes
parse_part v [] = (v, [])
parse_part v (c ∷ s) =
    let further = parse_part ((v * 10 + (c - b'0')) % 2 ^ 32) s in
    if in_range b'0' b'9' c then further else (v, c ∷ s)

-- `if (*s == '.') s++`
pub skip_dot : Bytes → Bytes
skip_dot [] = []
skip_dot (c ∷ s) = if c == b'.' then s else c ∷ s

-- The outer loop, for the parts that are still to come; those that do not come are 0.
pub parse_parts : ℕ → Bytes → ℕ
parse_parts zero s = 0
parse_parts (suc left) [] = 0
parse_parts (suc left) (c ∷ s) =
    let (v, rest) = parse_part 0 (c ∷ s) in v % 256 + 256 * parse_parts left (skip_dot rest)

pub parse_ip4 : Bytes → ℕ
parse_ip4 s = parse_parts 4 s

module _ (show : ℕ → Bytes) where
  -- What `snprintf` would write; a text that does not fit the 16 bytes of `buf` counts as empty.
  pub ip4_to_str : ℕ → Bytes
  ip4_to_str addr =
      let s =
        show (addr % 256)
        ++ (b'.'
            ∷ (show (addr / 2 ^ 8 % 256)
                ++ (b'.' ∷ (show (addr / 2 ^ 16 % 256) ++ (b'.' ∷ show (addr / 2 ^ 24 % 256)))))) in
      if leb 16 (length s) then [] else s
