-- ===== src/Query.antt =====
-- `urlencode` and `parse_qsl` of src/freedos_micro_python/port/urllib_parse_uc386dos.c.
pub mod RoundTrip
mod Tests
use freedos_micro_python.Prelude.{
  ℕ, zero, suc, ◌<◌, ◌≡◌, refl, Bool, true, false, ◌&&◌, ◌||◌, Option, none, some, List, [], ◌∷◌,
  ◌++◌, Bytes, length, ltb, ◌==◌, if◌then◌else◌, Result, ok, raised, value_error, ◌>>=◌,
}
use freedos_micro_python.Quote.{Object, text, buffer, other, quote_inner, urllib_unquote_plus}
use freedos_micro_python.Scan.{span}

-- The argument of `urlencode`.
pub data Query (X : Type 0) : Type 0 where
  dict : List (Option (Object X × Object X)) → Query X
  iterable : List (List (Object X)) → Query X

-- `str` is Python's, called for a value that is no text.
module _ {X : Type 0} (str : Object X → Bytes) where
  -- `val`, coerced to a text.
  abbrev pub coerce : Object X → Object X
  coerce (text s) = text s
  coerce (buffer s) = text (str (buffer s))
  coerce (other x) = text (str (other x))

  -- `urlencode_pair`: the text so far and `first`, before and after.
  pub urlencode_pair : Bytes → Bool → Object X → Object X → Result (Bytes × Bool)
  urlencode_pair vstr first key val = do
    k ← quote_inner key none true
    v ← quote_inner (coerce val) none true
    ok ((if first then vstr else vstr ++ b'&' ∷ []) ++ k ++ b'=' ∷ v, false)

  -- The filled slots of a dict's map, in the order of the table.
  pub urlencode_dict : List (Option (Object X × Object X)) → Bytes → Bool → Result Bytes
  urlencode_dict [] vstr first = ok vstr
  urlencode_dict (none ∷ table) vstr first = urlencode_dict table vstr first
  urlencode_dict (some (key, val) ∷ table) vstr first = do
    (vstr', first') ← urlencode_pair vstr first key val
    urlencode_dict table vstr' first'

  -- The arrays that an iterator yields.
  pub urlencode_items : List (List (Object X)) → Bytes → Bool → Result Bytes
  urlencode_items [] vstr first = ok vstr
  urlencode_items ((key ∷ val ∷ []) ∷ items) vstr first = do
    (vstr', first') ← urlencode_pair vstr first key val
    urlencode_items items vstr' first'
  urlencode_items (_ ∷ items) vstr first = raised value_error

  pub urlencode : Query X → Result Bytes
  urlencode (dict table) = urlencode_dict table [] true
  urlencode (iterable items) = urlencode_items items [] true

abbrev pub stop_pair : ℕ → Bool
stop_pair c = c == b'&' || c == b';'

abbrev pub stop_key : ℕ → Bool
stop_key c = c == b'='

-- The text one byte on: `eq + 1` behind a `=`, `pair_end + 1` behind a separator. At the end it stays.
abbrev pub behind : Bytes → Bytes
behind [] = []
behind (c ∷ s) = s

-- The pair in one stretch, kept or dropped.
pub qsl_pair : Bool → Bytes → List (Bytes × Bytes)
qsl_pair keep_blank pair =
    let (key, rest) = span stop_key pair in
    let val = behind rest in
    if ltb 0 (length key) && (ltb 0 (length val) || keep_blank)
    then (urllib_unquote_plus key, urllib_unquote_plus val) ∷ []
    else []

-- The loop `while (i < n)`, on fuel; `none` means that the fuel ran out.
pub parse_qsl_loop : ℕ → Bool → Bytes → List (Bytes × Bytes) → Option (List (Bytes × Bytes))
parse_qsl_loop zero keep_blank s result = none
parse_qsl_loop (suc fuel) keep_blank [] result = some result
parse_qsl_loop (suc fuel) keep_blank (c ∷ s) result =
    let (pair, rest) = span stop_pair (c ∷ s) in
    parse_qsl_loop fuel keep_blank (behind rest) (result ++ qsl_pair keep_blank pair)

-- A round passes at least one byte, so one unit of fuel a byte is enough.
pub parse_qsl : Bool → Bytes → Option (List (Bytes × Bytes))
parse_qsl keep_blank qs = parse_qsl_loop (suc (length qs)) keep_blank qs []
