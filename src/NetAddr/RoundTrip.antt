-- ===== src/NetAddr/RoundTrip.antt =====
-- `parse_ip4` of uc386_net_uc386dos.c on the texts that the module prints.
use freedos_micro_python.Prelude.{
  ℕ, suc, ◌+◌, ◌-◌, ◌*◌, ◌/◌, ◌%◌, ◌^◌, ◌≤◌, ◌<◌, ◌≡◌, ◌∙◌, refl, true, false, [], ◌∷◌, ◌++◌, arith,
  Bytes, length, length-append, leb, ltb, in_range, if◌then◌else◌, append-nil, Bool-cases, inl, inr,
}
use freedos_micro_python.NetAddr.{parse_part, skip_dot, parse_parts, parse_ip4, ip4_to_str}

-- What `%u` writes for a number of at most three digits.
abbrev pub decimal : ℕ → Bytes
decimal n =
    if ltb n 10
    then (b'0' + n) ∷ []
    else if ltb n 100
    then (b'0' + n / 10) ∷ (b'0' + n % 10) ∷ []
    else (b'0' + n / 100) ∷ (b'0' + n / 10 % 10) ∷ (b'0' + n % 10) ∷ []

parse_digit :
    (v d w : ℕ) (s : Bytes)
    → d < 10
    → v < 1000
    → v * 10 + d ≡ w
    → parse_part v ((b'0' + d) ∷ s) ≡ parse_part w s
unfolding parse_part
parse_digit v d w s h k e =
    let digit : in_range b'0' b'9' (b'0' + d) ≡ true = ground arith in
    let value : (v * 10 + (b'0' + d - b'0')) % 2 ^ 32 ≡ w = omega arith in rw (digit, value)

-- A part ends at the end of the text or at a dot.
abbrev Ends : Bytes → Type 0
Ends [] = Unit
Ends (c ∷ s) = c ≡ b'.'

parse_end : (v : ℕ) (rest : Bytes) → Ends rest → parse_part v rest ≡ (v, rest)
unfolding parse_part
parse_end v [] h = refl
parse_end v (c ∷ s) h = rw h

parse_decimal :
    (n : ℕ) (rest : Bytes) → n < 256 → Ends rest → parse_part 0 (decimal n ++ rest) ≡ (n, rest)
parse_decimal n rest h e = elim (Bool-cases (ltb n 10)) [
  | inl a ↦
      rw a (parse_digit 0 n n rest (ground arith) (omega arith) (omega arith) ∙ parse_end n rest e)
  | inr a ↦ elim (Bool-cases (ltb n 100)) [
    | inl b ↦
        rw (a, b)
          (parse_digit 0 (n / 10) (n / 10) _ (ground arith) (omega arith) (omega arith)
            ∙ parse_digit (n / 10) (n % 10) n rest (omega arith) (omega arith) (omega arith)
            ∙ parse_end n rest e)
    | inr b ↦
        rw (a, b)
          (parse_digit 0 (n / 100) (n / 100) _ (omega arith) (omega arith) (omega arith)
            ∙ parse_digit (n / 100) (n / 10 % 10) (n / 10) _ (omega arith) (omega arith)
                (omega arith)
            ∙ parse_digit (n / 10) (n % 10) n rest (omega arith) (omega arith) (omega arith)
            ∙ parse_end n rest e)
  ]
]

length-decimal : (n : ℕ) → length (decimal n) ≤ 3
length-decimal n = ground arith

decimal_first : (n : ℕ) (rest : Bytes) → (c : ℕ) × (s : Bytes) × (decimal n ++ rest ≡ c ∷ s)
decimal_first n rest = elim (Bool-cases (ltb n 10)) [
  | inl a ↦ rw a (b'0' + n, rest, refl)
  | inr a ↦ elim (Bool-cases (ltb n 100)) [
    | inl b ↦ rw (a, b) (b'0' + n / 10, (b'0' + n % 10) ∷ rest, refl)
    | inr b ↦ rw (a, b) (b'0' + n / 100, (b'0' + n / 10 % 10) ∷ (b'0' + n % 10) ∷ rest, refl)
  ]
]

-- One part of a printed address.
parse_one :
    (left n : ℕ) (rest : Bytes)
    → n < 256
    → Ends rest
    → parse_parts (suc left) (decimal n ++ rest) ≡ n + 256 * parse_parts left (skip_dot rest)
unfolding parse_parts
parse_one left n rest h e =
    let (c, s, first) = decimal_first n rest in
    let part : parse_part 0 (c ∷ s) ≡ (n, rest) = rw⁻¹ first (parse_decimal n rest h e) in
    let small : n % 256 ≡ n = omega arith in rw first (rw (part, small))

abbrev dotted : ℕ → ℕ → ℕ → ℕ → Bytes
dotted a b c d = decimal a ++ (b'.' ∷ (decimal b ++ (b'.' ∷ (decimal c ++ (b'.' ∷ decimal d)))))

parse_dotted :
    (a b c d : ℕ)
    → a < 256
    → b < 256
    → c < 256
    → d < 256
    → parse_parts 4 (dotted a b c d) ≡ a + 256 * (b + 256 * (c + 256 * d))
unfolding skip_dot
parse_dotted a b c d ha hb hc hd =
    let last : parse_parts 1 (decimal d) ≡ d + 256 * 0 =
      unfold parse_parts in rw append-nil at (parse_one 0 d [] hd tt) in
    let text3 = decimal c ++ (b'.' ∷ decimal d) in
    let text2 = decimal b ++ (b'.' ∷ text3) in
    let third : parse_parts 2 text3 ≡ c + 256 * parse_parts 1 (decimal d) =
      parse_one 1 c (b'.' ∷ decimal d) hc refl in
    let second : parse_parts 3 text2 ≡ b + 256 * parse_parts 2 text3 =
      parse_one 2 b (b'.' ∷ text3) hb refl in
    let first : parse_parts 4 (decimal a ++ (b'.' ∷ text2)) ≡ a + 256 * parse_parts 3 text2 =
      parse_one 3 a (b'.' ∷ text2) ha refl in
    first ∙ rw (second, third, last) (omega arith)

length-dotted : (a b c d : ℕ) → leb 16 (length (dotted a b c d)) ≡ false
length-dotted a b c d = ground (
  arith,
  length-append {0} (decimal a) (b'.' ∷ (decimal b ++ (b'.' ∷ (decimal c ++ (b'.' ∷ decimal d))))),
  length-append {0} (decimal b) (b'.' ∷ (decimal c ++ (b'.' ∷ decimal d))),
  length-append {0} (decimal c) (b'.' ∷ decimal d),
  length-decimal a,
  length-decimal b,
  length-decimal c,
  length-decimal d,
)

module _ (show : ℕ → Bytes) (decimal_show : (n : ℕ) → n < 256 → show n ≡ decimal n) where
  -- Parsing the text of a 32-bit address gives it back, where `show` writes numbers below 256 as decimals.
  pub parse_ip4-ip4_to_str : (addr : ℕ) → addr < 2 ^ 32 → parse_ip4 (ip4_to_str show addr) ≡ addr
  unfolding parse_ip4 ip4_to_str
  parse_ip4-ip4_to_str addr h =
      let a = addr % 256 in
      let b = addr / 2 ^ 8 % 256 in
      let c = addr / 2 ^ 16 % 256 in
      let d = addr / 2 ^ 24 % 256 in
      rw
        (
          decimal_show a (omega arith),
          decimal_show b (omega arith),
          decimal_show c (omega arith),
          decimal_show d (omega arith),
        )
        (rw (length-dotted a b c d) (
          parse_dotted a b c d (omega arith) (omega arith) (omega arith) (omega arith)
          ∙ omega arith))
