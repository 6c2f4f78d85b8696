-- ===== src/Ne2k/Tests.antt =====
-- The NE2000 driver on machines with simple ports.
use freedos_micro_python.Prelude.{◌≡◌, ℕ, refl, true, none, [], ◌∷◌}
use freedos_micro_python.Ne2k.{Ports, Nic, wait_isr, init_direct, on_reset, on_readback}

-- A bus on which every read gives the same byte.
abbrev constant_ports : ℕ → Ports Unit
constant_ports v = record {
  inb = λ port s. (v, s);
  outb = λ port b s. (tt, s);
  insw = λ port words s. (v ∷ v ∷ v ∷ v ∷ [], s);
  outsw = λ port words src s. (tt, s);
  write = λ text s. (tt, s);
}

abbrev card : Nic
card = record { ne2k_mac = []; ne2k_initialized = true }

-- An empty slot reads as 0xFF: the reset bit seems set, and the command register is wrong.
no_card : (init_direct (constant_ports 0xFF) tt).0 ≡ none
unfolding init_direct wait_isr on_reset on_readback
no_card = refl
