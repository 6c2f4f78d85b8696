-- ===== src/Ne2k.antt =====
-- The protected-mode NE2000 driver of src/freedos_micro_python/port/pktdrv_uc386dos.c. The port
-- instructions and `write` are assembly routines of the C library, and a parameter here, over a
-- state `S` of the machine. An `unsigned` has 32 bits.
pub mod Polling
pub mod Setup
mod Tests
use freedos_micro_python.Prelude.{
  ℕ, zero, suc, ◌+◌, ◌-◌, ◌*◌, ◌/◌, ◌%◌, ◌^◌, ◌≡◌, refl, Bool, true, false, not, ◌&&◌, ◌||◌, List,
  [], ◌∷◌, Bytes, codes, get_or, take, min, ltb, leb, ◌==◌, if◌then◌else◌, Option, none, some,
}
use freedos_micro_python.Prelude.State.{State, pure, ◌>>=◌, bit, set_bit}

-- `inb port`, `outb port value`, `insw port words` with the bytes read, `outsw port words bytes`, and
-- `write(1, text)`.
pub record Ports (S : Type 0) : Type 0 where
  pub inb : ℕ → State S ℕ
  pub outb : ℕ → ℕ → State S Unit
  pub insw : ℕ → ℕ → State S Bytes
  pub outsw : ℕ → ℕ → Bytes → State S Unit
  pub write : Bytes → State S Unit

abbrev pub ne2k_base : ℕ
ne2k_base = 0x300

abbrev pub ne_bnry : ℕ
ne_bnry = ne2k_base + 0x03

abbrev pub ne_isr : ℕ
ne_isr = ne2k_base + 0x07

abbrev pub rx_page_start : ℕ
rx_page_start = 0x46

abbrev pub rx_page_stop : ℕ
rx_page_stop = 0x80

-- `ne2k_mac` and `ne2k_initialized`.
pub record Nic : Type 0 where
  pub ne2k_mac : Bytes
  pub ne2k_initialized : Bool

-- The page behind the boundary, inside the ring.
pub next_page_of : ℕ → ℕ
next_page_of bnry = if leb rx_page_stop (bnry + 1) then rx_page_start else bnry + 1

-- The value for BNRY before `next_page`; a byte goes out of it, as `outb` takes the low eight bits.
pub boundary_of : ℕ → ℕ
boundary_of next_page =
    if next_page == rx_page_start then rx_page_stop - 1 else (next_page + (2 ^ 32 - 1)) % 2 ^ 32

-- How much of a frame is copied.
pub copy_len_of : ℕ → ℕ → ℕ
copy_len_of pkt_len maxlen = min (pkt_len - 4) maxlen

module _ {S : Type 0} (ports : Ports S) where
  -- `while (spin-- && !(ne2k_inb(ISR) & mask)) {}`: what `spin` is after it.
  pub wait_isr : ℕ → ℕ → State S ℕ
  wait_isr k zero = pure (2 ^ 32 - 1)
  wait_isr k (suc spin) = do
    isr ← ports.inb ne_isr
    elim (bit k isr) [ true ↦ pure spin | false ↦ wait_isr k spin ]

  -- The registers that both directions set up.
  pub dma_setup : ℕ → ℕ → State S Unit
  dma_setup nic_addr byte_count = do
    _ ← ports.outb ne_isr 0x40
    _ ← ports.outb (ne2k_base + 0x0A) (byte_count % 2 ^ 8)
    _ ← ports.outb (ne2k_base + 0x0B) (byte_count / 2 ^ 8 % 2 ^ 8)
    _ ← ports.outb (ne2k_base + 0x08) (nic_addr % 2 ^ 8)
    ports.outb (ne2k_base + 0x09) (nic_addr / 2 ^ 8 % 2 ^ 8)

  -- What is stored at `dst`: whole words.
  pub dma_read : ℕ → ℕ → State S Bytes
  dma_read nic_addr byte_count = do
    _ ← dma_setup nic_addr byte_count
    _ ← ports.outb ne2k_base 0x0A
    dst ← ports.insw (ne2k_base + 0x10) ((byte_count + 1) / 2)
    _ ← wait_isr 6 100000
    _ ← ports.outb ne_isr 0x40
    pure dst

  pub dma_write : ℕ → Bytes → ℕ → State S Unit
  dma_write nic_addr src byte_count = do
    _ ← dma_setup nic_addr byte_count
    _ ← ports.outb ne2k_base 0x12
    _ ← ports.outsw (ne2k_base + 0x10) ((byte_count + 1) / 2) src
    _ ← wait_isr 6 100000
    ports.outb ne_isr 0x40

  -- A loop that writes successive registers.
  pub out_all : ℕ → Bytes → State S Unit
  out_all port [] = pure tt
  out_all port (v ∷ vs) = do _ ← ports.outb port v; out_all (port + 1) vs

  -- What `ne2k_init_direct` does once a card has answered: the MAC, which it also returns.
  pub setup_card : State S Bytes
  setup_card = do
    _ ← ports.outb (ne2k_base + 0x0E) 0x49
    _ ← ports.outb (ne2k_base + 0x0A) 0
    _ ← ports.outb (ne2k_base + 0x0B) 0
    _ ← ports.outb (ne2k_base + 0x0C) 0x20
    _ ← ports.outb (ne2k_base + 0x0D) 0x02
    _ ← ports.outb (ne2k_base + 0x04) 0x40
    _ ← ports.outb (ne2k_base + 0x01) rx_page_start
    _ ← ports.outb (ne2k_base + 0x02) rx_page_stop
    _ ← ports.outb ne_bnry rx_page_start
    _ ← ports.outb ne_isr 0xFF
    _ ← ports.outb (ne2k_base + 0x0F) 0x00
    prom ← dma_read 0x0000 32
    let mac =
        get_or prom 0 0
        ∷ get_or prom 2 0
        ∷ get_or prom 4 0
        ∷ get_or prom 6 0
        ∷ get_or prom 8 0
        ∷ get_or prom 10 0
        ∷ []
    _ ← ports.write (codes "[ne2k:mac-read]")
    _ ← ports.outb ne2k_base 0x61
    _ ← out_all (ne2k_base + 0x01) mac
    _ ← ports.outb (ne2k_base + 0x07) (rx_page_start + 1)
    _ ← out_all (ne2k_base + 0x08) (0 ∷ 0 ∷ 0 ∷ 0 ∷ 0 ∷ 0 ∷ 0 ∷ 0 ∷ [])
    _ ← ports.outb ne2k_base 0x22
    _ ← ports.outb (ne2k_base + 0x0D) 0x00
    _ ← ports.outb (ne2k_base + 0x0C) 0x04
    _ ← ports.write (codes "[ne2k:pic-mask]")
    slave_imr ← ports.inb 0xA1
    _ ← ports.outb 0xA1 (set_bit 1 slave_imr)
    _ ← ports.write (codes "[ne2k:ready]")
    pure mac

  -- The end of `ne2k_init_direct`: whether the command register reads back as it was written.
  pub on_readback : Bool → State S (Option (Bytes × Nic))
  on_readback false = do _ ← ports.write (codes "[ne2k:no-nic]"); pure none
  on_readback true = do
    mac ← setup_card
    pure (some (mac, record { ne2k_mac = mac; ne2k_initialized = true }))

  -- Whether the wait for the reset has timed out.
  pub on_reset : Bool → State S (Option (Bytes × Nic))
  on_reset true = do _ ← ports.write (codes "[ne2k:reset-timeout]"); pure none
  on_reset false = do
    _ ← ports.write (codes "[ne2k:reset-ok]")
    _ ← ports.outb ne2k_base 0x21
    cr_readback ← ports.inb ne2k_base
    on_readback (cr_readback == 0x21)

  -- `none` for -1; for 0, the MAC and the driver's state, which is unchanged otherwise.
  pub init_direct : State S (Option (Bytes × Nic))
  init_direct = do
    _ ← ports.write (codes "[ne2k:init]")
    reset_val ← ports.inb (ne2k_base + 0x1F)
    _ ← ports.outb (ne2k_base + 0x1F) reset_val
    spin ← wait_isr 7 100000
    on_reset (spin == 0)

  -- `while (ne2k_inb(CR) & 0x04) {}`, on fuel.
  pub wait_idle : ℕ → State S Bool
  wait_idle zero = pure false
  wait_idle (suc fuel) = do
    cr ← ports.inb ne2k_base
    elim (bit 2 cr) [ false ↦ pure true | true ↦ wait_idle fuel ]

  -- The wait for the end of the transmission: whether it went out.
  pub wait_sent : ℕ → State S Bool
  wait_sent zero = pure false
  wait_sent (suc spin) = do
    isr ← ports.inb ne_isr
    elim (bit 1 isr || bit 3 isr) [
      | true ↦ do
        _ ← ports.outb ne_isr ((if bit 1 isr then 2 else 0) + (if bit 3 isr then 8 else 0))
        pure (bit 1 isr)
      | false ↦ wait_sent spin
    ]

  -- Whether it returns 0, not -1; `none` where the fuel for the first loop runs out.
  pub send_direct : ℕ → Nic → Bytes → ℕ → State S (Option Bool)
  send_direct fuel nic buf len_in =
      let len = if ltb len_in 60 then 60 else len_in in
      elim (not nic.ne2k_initialized || ltb 1518 len) [
        | true ↦ pure (some false)
        | false ↦ do
          idle ← wait_idle fuel
          elim idle [
            | false ↦ pure none
            | true ↦ do
              _ ← dma_write (0x40 * 2 ^ 8) buf len
              _ ← ports.outb (ne2k_base + 0x05) (len % 2 ^ 8)
              _ ← ports.outb (ne2k_base + 0x06) (len / 2 ^ 8 % 2 ^ 8)
              _ ← ports.outb ne2k_base 0x26
              sent ← wait_sent 1000000
              pure (some sent)
          ]
      ]

  -- The body, if the header says that it is sound.
  pub read_body : Bool → ℕ → ℕ → State S (ℕ × Bytes)
  read_body false page copy_len = pure (0, [])
  read_body true page copy_len = do out ← dma_read (page * 2 ^ 8 + 4) copy_len; pure (copy_len, out)

  -- A frame that is there: the header, and what is copied of the body.
  pub read_frame : ℕ → ℕ → State S (ℕ × Bytes)
  read_frame page maxlen = do
    hdr ← dma_read (page * 2 ^ 8) 4
    let copy_len = copy_len_of (get_or hdr 2 0 + get_or hdr 3 0 * 2 ^ 8) maxlen
    result ← read_body (ltb 0 copy_len && bit 0 (get_or hdr 0 0)) page copy_len
    _ ← ports.outb ne_bnry (boundary_of (get_or hdr 1 0))
    _ ← ports.outb ne_isr 0x15
    pure result

  -- The poll of a card that is set up.
  pub poll_ring : ℕ → State S (ℕ × Bytes)
  poll_ring maxlen = do
    saved_cr ← ports.inb ne2k_base
    _ ← ports.outb ne2k_base 0x62
    curr ← ports.inb (ne2k_base + 0x07)
    _ ← ports.outb ne2k_base (set_bit 1 saved_cr)
    bnry ← ports.inb ne_bnry
    let page = next_page_of bnry
    if page == curr then pure (0, []) else read_frame page maxlen

  -- The length returned, and what is stored at `out`.
  pub poll_rx : Nic → ℕ → State S (ℕ × Bytes)
  poll_rx nic maxlen = if nic.ne2k_initialized then poll_ring maxlen else pure (0, [])
