-- ===== src/Lwip/Starting.antt =====
-- Starting the interface of lwip_uc386dos.c, once and again.
use freedos_micro_python.Prelude.{
  ℕ, ◌≡◌, ◌∙◌, refl, Bool, true, false, Bytes, ◌⊎◌, inl, inr, Bool-cases, Option-cases, arith,
  if◌then◌else◌,
}
use freedos_micro_python.Lwip.{Card, Stack, Eth, init, find_mac, bring_up, eth_start}

module _ {W : Type 0} (stack : Stack W) (pktdrv ethdrv : Card W) (is_active : W → Bool) where
  -- The state with the code, 0 to 3 for 0 to -3.
  pub record IsStarted (r : ℕ × (Eth × W)) : Type 0 where
    pub initialised : r.1.0.initialised ≡ true
    pub outcome :
        ((r.1.0.active ≡ true) × ((r.0 ≡ 0) ⊎ (r.0 ≡ 3)))
        ⊎ ((r.1.0.active ≡ false) × ((r.0 ≡ 1) ⊎ (r.0 ≡ 2)))

  abbrev code_of : Bool → ℕ
  code_of leased = if leased then 0 else 3

  code : (leased : Bool) → (code_of leased ≡ 0) ⊎ (code_of leased ≡ 3)
  code true = inl refl
  code false = inr refl

  init-initialised :
      (e : Eth) (w : W)
      → ((init stack pktdrv ethdrv is_active (e, w)).1.0.initialised ≡ true)
        × ((init stack pktdrv ethdrv is_active (e, w)).1.0.active ≡ e.active)
  unfolding init
  init-initialised e w = elim (Bool-cases e.initialised) [
    | inl i ↦ simp i (refl, refl)
    | inr i ↦ elim (Bool-cases (stack.has_netif w)) [
      | inl n ↦ simp (i, n) (refl, refl)
      | inr n ↦ simp (i, n) (refl, refl)
    ]
  ]

  -- The end of a start, where lwIP has taken the interface.
  abbrev end_of_start : Bool → Bytes → W → Eth → ℕ × (Eth × W)
  end_of_start dhcp mac w e =
      let (_, w1) = bring_up stack pktdrv ethdrv is_active mac w in
      let e1 = record e { active = true } in
      elim dhcp [
        | false ↦ (0, (e1, w1))
        | true ↦ (let (leased, w2) = stack.dhcp_start w1 in (if leased then 0 else 3, (e1, w2)))
      ]

  on_added :
      (dhcp : Bool) (mac : Bytes) (w : W) (e : Eth)
      → e.initialised ≡ true
      → IsStarted (end_of_start dhcp mac w e)
  on_added false mac w e ready = record { initialised = ready; outcome = inl (refl, inl refl) }
  on_added true mac w e ready =
      let w1 = (bring_up stack pktdrv ethdrv is_active mac w).1 in
      record { initialised = ready; outcome = inl (refl, code (stack.dhcp_start w1).0) }

  -- Started from an interface that is not active, `eth_start` leaves lwIP marked as initialised, and
  -- the interface is active just where it returns 0 or -3; -1 and -2 leave it inactive.
  pub eth_start-IsStarted :
      (dhcp : Bool) (e : Eth) (w : W)
      → e.active ≡ false
      → IsStarted (eth_start stack pktdrv ethdrv is_active dhcp (e, w))
  unfolding eth_start
  eth_start-IsStarted dhcp e w off =
      let st1 = (init stack pktdrv ethdrv is_active (e, w)).1 in
      let (ready, kept) = init-initialised e w in
      let mac = find_mac stack pktdrv ethdrv is_active st1.1 in
      let added = stack.netif_add mac.1 in
      elim (Option-cases mac.0) [
        | inl n ↦
            simp (off, n) (record { initialised = ready; outcome = inr (kept ∙ off, inl refl) })
        | inr (m, n) ↦ elim (Bool-cases added.0) [
          | inr a ↦
              simp (off, n, a)
                (record { initialised = ready; outcome = inr (kept ∙ off, inr refl) })
          | inl a ↦ simp (off, n, a) (on_added dhcp m added.1 st1.0 ready)
        ]
      ]

  active_start :
      (dhcp : Bool) (st : Eth × W)
      → st.0.active ≡ true
      → eth_start stack pktdrv ethdrv is_active dhcp st ≡ (0, st)
  unfolding eth_start
  active_start dhcp (e, w) on = simp on refl

  -- Whatever the first call returned, if it left the interface active, a second one returns 0 and does
  -- nothing, also where the first returned -3 because DHCP could not be started.
  pub eth_start_again :
      (dhcp again : Bool) (st : Eth × W)
      → (eth_start stack pktdrv ethdrv is_active dhcp st).1.0.active ≡ true
      → eth_start stack pktdrv ethdrv is_active again
          (eth_start stack pktdrv ethdrv is_active dhcp st).1
        ≡ (0, (eth_start stack pktdrv ethdrv is_active dhcp st).1)
  eth_start_again dhcp again st on =
      active_start again (eth_start stack pktdrv ethdrv is_active dhcp st).1 on

  -- A start that returns 0 leaves the interface active.
  pub started-active :
      (dhcp : Bool) (st : Eth × W)
      → (eth_start stack pktdrv ethdrv is_active dhcp st).0 ≡ 0
      → (eth_start stack pktdrv ethdrv is_active dhcp st).1.0.active ≡ true
  started-active dhcp (e, w) ok = elim (Bool-cases e.active) [
    | inl on ↦ rw (active_start dhcp (e, w) on) on
    | inr off ↦ elim (eth_start-IsStarted dhcp e w off).outcome [
      | inl (on, r) ↦ on
      | inr (off1, inl r) ↦ ground (arith, ok, r)
      | inr (off1, inr r) ↦ ground (arith, ok, r)
    ]
  ]
