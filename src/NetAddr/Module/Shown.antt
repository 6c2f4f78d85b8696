-- ===== src/NetAddr/Module/Shown.antt =====
-- What `eth_status` shows of an address that `eth_set_static` has set.
use freedos_micro_python.Prelude.{
  ℕ, ◌^◌, ◌≡◌, refl, Bool, true, Option, none, some, Bytes, codes, ◌<◌, inl, inr, Bool-cases,
  if◌then◌else◌,
}
use freedos_micro_python.Lwip.{Card, Stack, Eth}
use freedos_micro_python.Lwip.Addresses.{IsLwip, eth_set_addr-IsAddressed}
use freedos_micro_python.Lwip.Starting.{started-active}
use freedos_micro_python.NetAddr.{ip4_to_str}
use freedos_micro_python.NetAddr.RoundTrip.{decimal, parse_ip4-ip4_to_str}
use freedos_micro_python.NetAddr.Module.{Status, driver_name, eth_init, eth_status, eth_set_static}

abbrev pub driver_in_use : Bool → Bytes
driver_in_use crynwr = if crynwr then codes "pktdrv" else codes "int83-sim"

module _ {W : Type 0} (stack : Stack W) (pktdrv ethdrv : Card W) (is_active : W → Bool)
    (laws : IsLwip stack) (show : ℕ → Bytes)
    (decimal_show : (n : ℕ) → n < 256 → show n ≡ decimal n) where
  pub eth_init-active :
      (arg : Option Bool) (st : Eth × W)
      → (eth_init stack pktdrv ethdrv is_active arg st).0 ≡ 0
      → (eth_init stack pktdrv ethdrv is_active arg st).1.0.active ≡ true
  unfolding eth_init
  eth_init-active none st ok = started-active stack pktdrv ethdrv is_active true st ok
  eth_init-active (some dhcp) st ok = started-active stack pktdrv ethdrv is_active dhcp st ok

  driver_name_of :
      (w : W) (n : ℕ)
      → n ≡ (if is_active w then 2 else 1)
      → driver_name n ≡ driver_in_use (is_active w)
  unfolding driver_name
  driver_name_of w n h = elim (Bool-cases (is_active w)) [
    | inl a ↦ rw (h, a) refl
    | inr a ↦ rw (h, a) refl
  ]

  abbrev shown : ℕ → ℕ → ℕ → W → Status
  shown ip mask gw w = record {
    ip = ip4_to_str show ip;
    netmask = ip4_to_str show mask;
    gateway = ip4_to_str show gw;
    up = true;
    driver = driver_in_use (is_active w);
  }

  -- After an `eth_init`, with DHCP or without, that returned 0, setting three addresses as texts that the
  -- module prints makes `eth_status` show these texts, an interface that is up, and the driver in use.
  -- lwIP is to store the addresses that it is given and `show` to write numbers below 256 as decimals.
  pub eth_status-eth_set_static :
      (arg : Option Bool) (st : Eth × W) (ip mask gw : ℕ)
      → ip < 2 ^ 32
      → mask < 2 ^ 32
      → gw < 2 ^ 32
      → (eth_init stack pktdrv ethdrv is_active arg st).0 ≡ 0
      → let st1 = (eth_init stack pktdrv ethdrv is_active arg st).1 in
        let st2 =
          (eth_set_static stack pktdrv ethdrv is_active
            (ip4_to_str show ip)
            (ip4_to_str show mask)
            (ip4_to_str show gw)
            st1).1 in
        eth_status stack pktdrv ethdrv is_active show st2.0 st2.1 ≡ shown ip mask gw st2.1
  unfolding eth_set_static eth_status
  eth_status-eth_set_static arg st ip mask gw hi hm hg ok =
      let back = parse_ip4-ip4_to_str show decimal_show in
      let on = eth_init-active arg st ok in
      let st1 = (eth_init stack pktdrv ethdrv is_active arg st).1 in
      let set = eth_set_addr-IsAddressed stack pktdrv ethdrv is_active laws ip mask gw st1 on in
      rw (back ip hi, back mask hm, back gw hg)
        (rw
          (
            set.ip_read,
            set.netmask_read,
            set.gateway_read,
            set.up_read,
            driver_name_of _ _ set.driver_read,
          )
          refl)
