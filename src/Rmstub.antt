-- ===== src/Rmstub.antt =====
-- The real-mode receiver of src/freedos_micro_python/port/pktdrv_uc386dos.c: the bytes that
-- `pktdrv_alloc_thunk` puts into the thunk paragraph, and the few 8086 instructions that they are.
-- A register holds 16 bits. An access outside the three data words of the paragraph, like a byte
-- that is no instruction of the stub, stops the run with `none`.
pub mod Phases
mod Tests
use freedos_micro_python.Prelude.{
  ℕ, zero, suc, ◌+◌, ◌-◌, ◌*◌, ◌/◌, ◌%◌, ◌^◌, ◌≡◌, refl, Bool, true, false, not, ◌&&◌, ◌||◌, Option,
  none, some, List, [], ◌∷◌, ◌++◌, Bytes, get_or, drop, ltb, ◌==◌, if◌then◌else◌,
}

-- The paragraph: the bytes 0x00..0x3F, and the words at 0x40, 0x42 and 0x44.
pub record Thunk : Type 0 where
  pub code : Bytes
  pub pending : ℕ
  pub length : ℕ
  pub bounce_seg : ℕ

abbrev pub rcv_code : Bytes
rcv_code =
    0x09 ∷ 0xC0 ∷ 0x75 ∷ 0x23 ∷ 0x2E ∷ 0x83 ∷ 0x3E ∷ 0x40 ∷ 0x00 ∷ 0x00 ∷ 0x90 ∷ 0x90 ∷ 0x81 ∷ 0xF9
    ∷ 0xEE ∷ 0x05 ∷ 0x77 ∷ 0x0E ∷ 0x2E ∷ 0x89 ∷ 0x0E ∷ 0x42 ∷ 0x00 ∷ 0x2E ∷ 0xA1 ∷ 0x44 ∷ 0x00
    ∷ 0x8E ∷ 0xC0 ∷ 0x31 ∷ 0xFF ∷ 0xCB ∷ 0x31 ∷ 0xC0 ∷ 0x8E ∷ 0xC0 ∷ 0x31 ∷ 0xFF ∷ 0xCB ∷ 0x2E
    ∷ 0xC7 ∷ 0x06 ∷ 0x40 ∷ 0x00 ∷ 0x01 ∷ 0x00 ∷ 0xCB ∷ []

-- What stands in front of the receiver: INT 0x60, RETF, a byte that is left as it was, and the types.
abbrev pub thunk_head : ℕ → Bytes
thunk_head old =
    0xCD ∷ 0x60 ∷ 0xCB ∷ old ∷ 0x08 ∷ 0x06 ∷ 0x08 ∷ 0x00 ∷ 0x86 ∷ 0xDD ∷ 0 ∷ 0 ∷ 0 ∷ 0 ∷ 0 ∷ 0 ∷ []

-- The paragraph as `pktdrv_alloc_thunk` leaves it; it does not write the bytes 0x03 and 0x3F.
pub fill_thunk : Bytes → ℕ → Thunk
fill_thunk old bounce_seg = record {
  code = thunk_head (get_or old 0x03 0) ++ rcv_code ++ get_or old 0x3F 0 ∷ [];
  pending = 0;
  length = 0;
  bounce_seg = bounce_seg % 2 ^ 16;
}

-- The mnemonics of the source's comments.
pub data Instruction : Type 0 where
  or_ax_ax nop mov_es_ax xor_di_di xor_ax_ax retf : Instruction
  jnz ja cmp_cx store_cx load_ax : ℕ → Instruction
  cmp_word store_word : ℕ → ℕ → Instruction

-- Two bytes of an instruction as a word.
abbrev pub word_at : Bytes → ℕ → ℕ
word_at s i = get_or s i 0 + get_or s (i + 1) 0 * 2 ^ 8

abbrev pub starts : Bytes → Bytes → Bool
starts [] s = true
starts (b ∷ bs) [] = false
starts (b ∷ bs) (c ∷ s) = b == c && starts bs s

-- An instruction and its length.
pub decode : Bytes → Option (Instruction × ℕ)
decode s =
    if starts (0x09 ∷ 0xC0 ∷ []) s
    then some (or_ax_ax, 2)
    else if starts (0x75 ∷ []) s
    then some (jnz (get_or s 1 0), 2)
    else if starts (0x77 ∷ []) s
    then some (ja (get_or s 1 0), 2)
    else if starts (0x2E ∷ 0x83 ∷ 0x3E ∷ []) s
    then some (cmp_word (word_at s 3) (get_or s 5 0), 6)
    else if starts (0x90 ∷ []) s
    then some (nop, 1)
    else if starts (0x81 ∷ 0xF9 ∷ []) s
    then some (cmp_cx (word_at s 2), 4)
    else if starts (0x2E ∷ 0x89 ∷ 0x0E ∷ []) s
    then some (store_cx (word_at s 3), 5)
    else if starts (0x2E ∷ 0xA1 ∷ []) s
    then some (load_ax (word_at s 2), 4)
    else if starts (0x8E ∷ 0xC0 ∷ []) s
    then some (mov_es_ax, 2)
    else if starts (0x31 ∷ 0xFF ∷ []) s
    then some (xor_di_di, 2)
    else if starts (0x31 ∷ 0xC0 ∷ []) s
    then some (xor_ax_ax, 2)
    else if starts (0x2E ∷ 0xC7 ∷ 0x06 ∷ []) s
    then some (store_word (word_at s 3) (word_at s 5), 7)
    else if starts (0xCB ∷ []) s
    then some (retf, 1)
    else none

pub record Cpu : Type 0 where
  pub ip : ℕ
  pub ax : ℕ
  pub cx : ℕ
  pub es : ℕ
  pub di : ℕ
  pub zf : Bool
  pub cf : Bool
  pub thunk : Thunk

-- A word of the paragraph.
pub load : Thunk → ℕ → Option ℕ
load t a =
    if a == 0x40
    then some t.pending
    else if a == 0x42
    then some t.length
    else if a == 0x44
    then some t.bounce_seg
    else none

pub store : Thunk → ℕ → ℕ → Option Thunk
store t a v =
    if a == 0x40
    then some (record t { pending = v })
    else if a == 0x42
    then some (record t { length = v })
    else if a == 0x44
    then some (record t { bounce_seg = v })
    else none

-- A jump by a signed byte.
abbrev pub jump : Cpu → ℕ → Cpu
jump m d = record m { ip = (m.ip + (if ltb d 128 then d else d + 0xFF00)) % 2 ^ 16 }

-- What an instruction does, with `ip` already behind it.
pub execute : Instruction → Cpu → Option Cpu
execute or_ax_ax m = some (record m { zf = m.ax == 0; cf = false })
execute nop m = some m
execute mov_es_ax m = some (record m { es = m.ax })
execute xor_di_di m = some (record m { di = 0; zf = true; cf = false })
execute xor_ax_ax m = some (record m { ax = 0; zf = true; cf = false })
execute retf m = some m
execute (jnz d) m = some (if m.zf then m else jump m d)
execute (ja d) m = some (if m.zf || m.cf then m else jump m d)
execute (cmp_cx v) m = some (record m { zf = m.cx == v; cf = ltb m.cx v })
execute (store_cx a) m = elim (store m.thunk a m.cx) [
  | none ↦ none
  | some t ↦ some (record m { thunk = t })
]
execute (load_ax a) m = elim (load m.thunk a) [ none ↦ none | some v ↦ some (record m { ax = v }) ]
execute (cmp_word a v) m = elim (load m.thunk a) [
  | none ↦ none
  | some w ↦ some (record m { zf = w == v; cf = ltb w v })
]
execute (store_word a v) m = elim (store m.thunk a v) [
  | none ↦ none
  | some t ↦ some (record m { thunk = t })
]

-- The run up to a `retf`, on fuel.
pub run : ℕ → Cpu → Option Cpu
run zero m = none
run (suc fuel) m = elim (decode (drop m.ip m.thunk.code)) [
  | none ↦ none
  | some (retf, n) ↦ some m
  | some (i, n) ↦ elim (execute i (record m { ip = m.ip + n })) [
    | none ↦ none
    | some m' ↦ run fuel m'
  ]
]

-- The driver's far call of the receiver, at offset 0x10; no path has more than 12 instructions.
pub far_call : ℕ → ℕ → ℕ → ℕ → Thunk → Option Cpu
far_call ax cx es di t =
    run 12
      (record { ip = 0x10; ax = ax; cx = cx; es = es; di = di; zf = false; cf = false; thunk = t })
