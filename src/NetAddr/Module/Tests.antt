-- ===== src/NetAddr/Module/Tests.antt =====
-- Runs of the module's functions over a small stack that keeps the addresses.
use freedos_micro_python.Prelude.{
  ◌≡◌, ◌<◌, ◌+◌, ℕ, refl, codes, arith, true, false, Bool, some, none, [],
}
use freedos_micro_python.NetAddr.{ip4_to_str}
use freedos_micro_python.NetAddr.RoundTrip.{decimal}
use freedos_micro_python.NetAddr.Module.{
  eth_init, eth_status, eth_set_static, dos_alloc_test, int60_then_alloc,
}
use freedos_micro_python.NetAddr.Module.Shown.{eth_status-eth_set_static}
use freedos_micro_python.Crynwr.{Regs}
use freedos_micro_python.Lwip.{Card, Stack, Eth, init, find_mac, bring_up, eth_start}
use freedos_micro_python.Lwip.Addresses.{IsLwip}

decimal-decimal : (n : ℕ) → n < 256 → decimal n ≡ decimal n
decimal-decimal n h = refl

-- A stack that keeps the three addresses and does nothing else.
abbrev addresses : Stack (ℕ × (ℕ × ℕ))
addresses = record {
  lwip_init = λ w. (tt, w);
  has_netif = λ w. false;
  sys_check_timeouts = λ w. (tt, w);
  netif_add = λ w. (true, w);
  set_hwaddr = λ mac w. (tt, w);
  netif_set_default = λ w. (tt, w);
  netif_set_up = λ w. (tt, w);
  netif_set_link_up = λ w. (tt, w);
  netif_set_addr = λ ip mask gw w. (tt, (ip, (mask, gw)));
  netif_is_up = λ w. true;
  ip_addr = λ w. w.0;
  netmask = λ w. w.1.0;
  gw = λ w. w.1.1;
  netif_poll_all = λ w. (tt, w);
  mod_lwip_register_poll = λ w. (tt, w);
  dhcp_start = λ w. (true, w);
  dhcp_release_and_stop = λ w. (tt, w);
  pbuf_alloc = λ n w. (true, w);
  input = λ frame w. (true, w);
  write = λ text w. (tt, w);
}

abbrev card : Card (ℕ × (ℕ × ℕ))
card = record {
  start = λ w. (some (codes "MACMAC"), w);
  transmit = λ frame w. (true, w);
  receive = λ n w. ([], w);
}

addresses-IsLwip : IsLwip addresses
addresses-IsLwip = record {
  set_ip = λ ip mask gw w. refl;
  set_mask = λ ip mask gw w. refl;
  set_gw = λ ip mask gw w. refl;
  up_ip = λ w. refl;
  up_mask = λ w. refl;
  up_gw = λ w. refl;
  up = λ w. refl;
}

abbrev before : Eth × (ℕ × (ℕ × ℕ))
before = (record { initialised = false; active = false }, (0, (0, 0)))

starts : (eth_init addresses card card (λ w. true) none before).0 ≡ 0
unfolding eth_init eth_start init find_mac bring_up
starts = refl

abbrev set_up : Eth × (ℕ × (ℕ × ℕ))
set_up =
    (eth_set_static addresses card card (λ w. true) (ip4_to_str decimal 16777343)
      (ip4_to_str decimal 255) (ip4_to_str decimal 33554559)
      (eth_init addresses card card (λ w. true) none before).1).1

eth_status-eth_set_static_example :
    eth_status addresses card card (λ w. true) decimal set_up.0 set_up.1 ≡ record {
      ip = ip4_to_str decimal 16777343;
      netmask = ip4_to_str decimal 255;
      gateway = ip4_to_str decimal 33554559;
      up = true;
      driver = codes "pktdrv";
    }
eth_status-eth_set_static_example =
    eth_status-eth_set_static addresses card card (λ w. true) addresses-IsLwip decimal
      decimal-decimal none before 16777343 255 33554559 (omega arith) (omega arith) (omega arith)
      starts

-- An interrupt that counts its calls and returns what it is given.
abbrev counted : ℕ → Regs → ℕ × (ℕ × ℕ) → (Bool × Regs) × (ℕ × (ℕ × ℕ))
counted n regs w = ((false, regs), (w.0 + n, w.1))

diagnostics : (int60_then_alloc addresses counted (0, (0, 0))).1.0 ≡ 0x60 + 0x21
unfolding int60_then_alloc
diagnostics = refl

allocation : (dos_alloc_test addresses counted (0, (0, 0))).1.0 ≡ 0x21
unfolding dos_alloc_test
allocation = refl
