-- ===== src/Lwip/Tests.antt =====
-- Runs of the glue on a small stack, which counts the calls of lwip_init.
use freedos_micro_python.Prelude.{ℕ, ◌+◌, ◌≡◌, refl, true, false, some, [], codes}
use freedos_micro_python.Lwip.{Card, Stack, Eth, init, find_mac, bring_up, eth_start, digits}
use freedos_micro_python.Lwip.Starting.{IsStarted, eth_start-IsStarted}

abbrev stack : Stack ℕ
stack = record {
  lwip_init = λ w. (tt, w + 1);
  has_netif = λ w. false;
  sys_check_timeouts = λ w. (tt, w);
  netif_add = λ w. (true, w);
  set_hwaddr = λ mac w. (tt, w);
  netif_set_default = λ w. (tt, w);
  netif_set_up = λ w. (tt, w);
  netif_set_link_up = λ w. (tt, w);
  netif_set_addr = λ ip mask gw w. (tt, w);
  netif_is_up = λ w. true;
  ip_addr = λ w. 0;
  netmask = λ w. 0;
  gw = λ w. 0;
  netif_poll_all = λ w. (tt, w);
  mod_lwip_register_poll = λ w. (tt, w);
  dhcp_start = λ w. (false, w);
  dhcp_release_and_stop = λ w. (tt, w);
  pbuf_alloc = λ n w. (true, w);
  input = λ frame w. (true, w);
  write = λ text w. (tt, w);
}

abbrev card : Card ℕ
card = record {
  start = λ w. (some (codes "MACMAC"), w);
  transmit = λ frame w. (true, w);
  receive = λ n w. ([], w);
}

abbrev down : Eth
down = record { initialised = false; active = false }

dhcp_fails :
    eth_start stack card card (λ w. true) true (down, 0)
    ≡ (3, (record { initialised = true; active = true }, 1))
unfolding eth_start init find_mac bring_up
dhcp_fails = refl

lease_digits : digits 1514 ≡ codes "1514]"
unfolding digits
lease_digits = refl

eth_start-IsStarted_example :
    IsStarted stack card card (λ w. true) (eth_start stack card card (λ w. true) true (down, 0))
eth_start-IsStarted_example = eth_start-IsStarted stack card card (λ w. true) true down 0 refl
