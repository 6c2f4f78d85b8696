-- ===== src/Lwip/Addresses.antt =====
-- Setting the address of the interface of lwip_uc386dos.c and reading it back.
use freedos_micro_python.Prelude.{ℕ, ◌≡◌, ◌∙◌, refl, Bool, true, if◌then◌else◌}
use freedos_micro_python.Lwip.{
  Card, Stack, Eth, eth_set_addr, eth_ip, eth_netmask, eth_gateway, eth_is_up, eth_driver,
}

-- lwIP's documentation of the two calls: the addresses that are set are the interface's, and setting
-- it up keeps them.
pub record IsLwip {W : Type 0} (stack : Stack W) : Type 0 where
  pub set_ip : (ip mask gw : ℕ) (w : W) → stack.ip_addr (stack.netif_set_addr ip mask gw w).1 ≡ ip
  pub set_mask :
      (ip mask gw : ℕ) (w : W) → stack.netmask (stack.netif_set_addr ip mask gw w).1 ≡ mask
  pub set_gw : (ip mask gw : ℕ) (w : W) → stack.gw (stack.netif_set_addr ip mask gw w).1 ≡ gw
  pub up_ip : (w : W) → stack.ip_addr (stack.netif_set_up w).1 ≡ stack.ip_addr w
  pub up_mask : (w : W) → stack.netmask (stack.netif_set_up w).1 ≡ stack.netmask w
  pub up_gw : (w : W) → stack.gw (stack.netif_set_up w).1 ≡ stack.gw w
  pub up : (w : W) → stack.netif_is_up (stack.netif_set_up w).1 ≡ true

module _ {W : Type 0} (stack : Stack W) (pktdrv ethdrv : Card W) (is_active : W → Bool) where
  -- What the accessors give.
  pub record IsAddressed (ip mask gw : ℕ) (e : Eth) (w : W) : Type 0 where
    pub ip_read : eth_ip stack pktdrv ethdrv is_active w ≡ ip
    pub netmask_read : eth_netmask stack pktdrv ethdrv is_active w ≡ mask
    pub gateway_read : eth_gateway stack pktdrv ethdrv is_active w ≡ gw
    pub up_read : eth_is_up stack pktdrv ethdrv is_active e w ≡ true
    pub driver_read : eth_driver stack pktdrv ethdrv is_active e w ≡ (if is_active w then 2 else 1)

  pub eth_set_addr-IsAddressed :
      IsLwip stack
      → (ip mask gw : ℕ) (st : Eth × W) → st.0.active ≡ true
      → let st1 = (eth_set_addr stack pktdrv ethdrv is_active ip mask gw st).1 in
        IsAddressed ip mask gw st1.0 st1.1
  unfolding eth_set_addr eth_ip eth_netmask eth_gateway eth_is_up eth_driver
  eth_set_addr-IsAddressed laws ip mask gw (e, w) on =
      let w1 = (stack.dhcp_release_and_stop w).1 in
      let w2 = (stack.netif_set_addr ip mask gw w1).1 in
      simp on record {
        ip_read = laws.up_ip w2 ∙ laws.set_ip ip mask gw w1;
        netmask_read = laws.up_mask w2 ∙ laws.set_mask ip mask gw w1;
        gateway_read = laws.up_gw w2 ∙ laws.set_gw ip mask gw w1;
        up_read = rw on (laws.up w2);
        driver_read = rw on refl;
      }
