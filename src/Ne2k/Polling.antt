-- ===== src/Ne2k/Polling.antt =====
-- The receive ring and the bounded waits of the NE2000 driver in pktdrv_uc386dos.c.
use freedos_micro_python.Prelude.{
  ℕ, zero, suc, ◌+◌, ◌-◌, ◌*◌, ◌^◌, ◌≤◌, ◌<◌, ◌≡◌, sym, refl, Bool, true, false, arith, [], get_or,
  if◌then◌else◌,
}
use mathlib.Core.Path.{subst}
use freedos_micro_python.Prelude.State.{State, pure, bit}
use freedos_micro_python.Ne2k.{
  Ports, Nic, ne_isr, rx_page_start, rx_page_stop, wait_isr, dma_read, next_page_of, boundary_of,
  copy_len_of, read_body, read_frame, poll_ring, poll_rx,
}

-- For a next page inside the ring, pages 0x46 to 0x7F, the boundary written is inside the ring too, and
-- the next poll reads at that page.
pub next_page_of-boundary_of :
    (page : ℕ)
    → rx_page_start ≤ page
    → page < rx_page_stop
    → (rx_page_start ≤ boundary_of page)
      × (boundary_of page < rx_page_stop)
      × (next_page_of (boundary_of page) ≡ page)
unfolding next_page_of boundary_of
next_page_of-boundary_of page h k = ground arith

module _ {S : Type 0} (ports : Ports S) where
  read_body_bound : (b : Bool) (page n : ℕ) (s : S) → (read_body ports b page n s).0.0 ≤ n
  unfolding read_body
  read_body_bound false page n s = omega arith
  read_body_bound true page n s = omega arith

  copy_len_bound : (pkt_len maxlen : ℕ) → copy_len_of pkt_len maxlen ≤ maxlen
  unfolding copy_len_of
  copy_len_bound pkt_len maxlen = omega arith

  read_frame_bound : (page maxlen : ℕ) (s : S) → (read_frame ports page maxlen s).0.0 ≤ maxlen
  unfolding read_frame
  read_frame_bound page maxlen s = omega (
    arith,
    read_body_bound _ page
        (copy_len_of
          (get_or (dma_read ports (page * 2 ^ 8) 4 s).0 2 0
            + get_or (dma_read ports (page * 2 ^ 8) 4 s).0 3 0 * 2 ^ 8)
          maxlen)
        (dma_read ports (page * 2 ^ 8) 4 s).1,
    copy_len_bound
        (get_or (dma_read ports (page * 2 ^ 8) 4 s).0 2 0
          + get_or (dma_read ports (page * 2 ^ 8) 4 s).0 3 0 * 2 ^ 8)
        maxlen,
  )

  page_bound :
      (empty : Bool) (page maxlen : ℕ) (s : S)
      → ((if empty then pure (0, []) else read_frame ports page maxlen) s).0.0 ≤ maxlen
  page_bound true page maxlen s = omega arith
  page_bound false page maxlen s = read_frame_bound page maxlen s

  poll_ring_bound : (maxlen : ℕ) (s : S) → (poll_ring ports maxlen s).0.0 ≤ maxlen
  unfolding poll_ring
  poll_ring_bound maxlen s = page_bound _ _ maxlen _

  card_bound :
      (initialized : Bool) (maxlen : ℕ) (s : S)
      → ((if initialized then poll_ring ports maxlen else pure (0, [])) s).0.0 ≤ maxlen
  card_bound true maxlen s = poll_ring_bound maxlen s
  card_bound false maxlen s = omega arith

  -- A poll returns a length of at most `maxlen`, whatever the card says.
  pub poll_rx_bound : (nic : Nic) (maxlen : ℕ) (s : S) → (poll_rx ports nic maxlen s).0.0 ≤ maxlen
  unfolding poll_rx
  poll_rx_bound nic maxlen s = card_bound nic.ne2k_initialized maxlen s

  -- Where the card's status bit `k` is never set, the wait ends with `spin` at 2 ^ 32 - 1, however long
  -- it is.
  pub wait_isr_timeout :
      (k spin : ℕ) (s : S)
      → ((s' : S) → bit k (ports.inb ne_isr s').0 ≡ false)
      → (wait_isr ports k spin s).0 ≡ 2 ^ 32 - 1
  unfolding wait_isr
  wait_isr_timeout k zero s h = refl
  wait_isr_timeout k (suc spin) s h =
      subst
        (λ b.
          ((elim b as (λ _. State S ℕ) [ true ↦ pure spin | false ↦ wait_isr ports k spin ])
            (ports.inb ne_isr s).1).0
          ≡ 2 ^ 32 - 1)
        (sym (h s)) (wait_isr_timeout k spin (ports.inb ne_isr s).1 h)
