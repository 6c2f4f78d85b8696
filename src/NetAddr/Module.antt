-- ===== src/NetAddr/Module.antt =====
-- The functions of the `uc386_net` module, src/freedos_micro_python/port/uc386_net_uc386dos.c, over the
-- lwIP glue. An integer that goes back to Python is the negated result of the C function; the INT
-- instruction is a routine of the C library. The counters of pktdrv_diag are left out.
pub mod Shown
mod Tests
use freedos_micro_python.Prelude.{
  ℕ, ◌^◌, ◌≡◌, ◌∙◌, refl, Bool, true, false, Option, none, some, Bytes, codes, ◌==◌, ◌<◌, ◌⊎◌, inl,
  inr, Bool-cases, if◌then◌else◌, arith,
}
use freedos_micro_python.Prelude.State.{State, pure, ◌>>=◌}
use freedos_micro_python.Lwip.{
  Card, Stack, Eth, eth_start, eth_set_addr, eth_ip, eth_netmask, eth_gateway, eth_is_up,
  eth_driver,
}
use freedos_micro_python.Crynwr.{Regs, no_regs}
use freedos_micro_python.NetAddr.{parse_ip4, ip4_to_str}

-- The tuple of `eth_status`.
pub record Status : Type 0 where
  pub ip : Bytes
  pub netmask : Bytes
  pub gateway : Bytes
  pub up : Bool
  pub driver : Bytes

pub driver_name : ℕ → Bytes
driver_name drv =
    if drv == 2 then codes "pktdrv" else if drv == 1 then codes "int83-sim" else codes "none"

module _ {W : Type 0} (stack : Stack W) (pktdrv ethdrv : Card W) (is_active : W → Bool) where
  -- With the truth of the argument, where there is one.
  pub eth_init : Option Bool → State (Eth × W) ℕ
  eth_init none = eth_start stack pktdrv ethdrv is_active true
  eth_init (some use_dhcp) = eth_start stack pktdrv ethdrv is_active use_dhcp

  pub eth_status : (ℕ → Bytes) → Eth → W → Status
  eth_status show e w = record {
    ip = ip4_to_str show (eth_ip stack pktdrv ethdrv is_active w);
    netmask = ip4_to_str show (eth_netmask stack pktdrv ethdrv is_active w);
    gateway = ip4_to_str show (eth_gateway stack pktdrv ethdrv is_active w);
    up = eth_is_up stack pktdrv ethdrv is_active e w;
    driver = driver_name (eth_driver stack pktdrv ethdrv is_active e w);
  }

  pub eth_set_static : Bytes → Bytes → Bytes → State (Eth × W) Unit
  eth_set_static ip_s mask_s gw_s =
      eth_set_addr stack pktdrv ethdrv is_active (parse_ip4 ip_s) (parse_ip4 mask_s)
        (parse_ip4 gw_s)

module _ {W : Type 0} (stack : Stack W) (int_invoke : ℕ → Regs → State W (Bool × Regs)) where
  pub dos_alloc_test : State W ℕ
  dos_alloc_test = do
    _ ← stack.write (codes "[bisect:alloc-pre]")
    _ ← int_invoke 0x21 (record no_regs { eax = 0x4800; ebx = 1 })
    _ ← stack.write (codes "[bisect:alloc-post]")
    pure 0

  -- What it returns is the 0 that it stores in its large local.
  pub int60_then_alloc : State W ℕ
  int60_then_alloc = do
    _ ← stack.write (codes "[bi:60pre]")
    _ ← int_invoke 0x60 (record no_regs { eax = 0x0100; ebx = 0xFFFF })
    _ ← stack.write (codes "[bi:60post]")
    _ ← stack.write (codes "[bi:21pre]")
    _ ← int_invoke 0x21 (record no_regs { eax = 0x4800; ebx = 1 })
    _ ← stack.write (codes "[bi:21post]")
    pure 0
