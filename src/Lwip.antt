-- ===== src/Lwip.antt =====
-- The lwIP glue, src/freedos_micro_python/port/lwip_uc386dos.c (`sys_now` is in Hal). lwIP itself and the
-- INT 0x83 driver are not part of the repository; they are parameters, and so are the calls of the packet
-- driver, over a state `W` of everything but the file's own globals. A pbuf is the bytes that it holds.
pub mod Starting
pub mod Addresses
mod Tests
use freedos_micro_python.Prelude.{
  ℕ, zero, suc, ◌+◌, ◌*◌, ◌/◌, ◌%◌, ◌≡◌, refl, Bool, true, false, not, Option, none, some, List, [],
  ◌∷◌, Bytes, codes, length, ltb, ◌==◌, if◌then◌else◌,
}
use freedos_micro_python.Prelude.State.{State, pure, ◌>>=◌}

-- A driver: its MAC where it starts, whether a frame went out, and a frame that came in, empty for none.
pub record Card (W : Type 0) : Type 0 where
  pub start : State W (Option Bytes)
  pub transmit : Bytes → State W Bool
  pub receive : ℕ → State W Bytes

-- lwIP's functions on the interface; a Bool says whether a call succeeded.
pub record Stack (W : Type 0) : Type 0 where
  pub lwip_init : State W Unit
  pub has_netif : W → Bool
  pub sys_check_timeouts : State W Unit
  pub netif_add : State W Bool
  pub set_hwaddr : Bytes → State W Unit
  pub netif_set_default : State W Unit
  pub netif_set_up : State W Unit
  pub netif_set_link_up : State W Unit
  pub netif_set_addr : ℕ → ℕ → ℕ → State W Unit
  pub netif_is_up : W → Bool
  pub ip_addr : W → ℕ
  pub netmask : W → ℕ
  pub gw : W → ℕ
  pub netif_poll_all : State W Unit
  pub mod_lwip_register_poll : State W Unit
  pub dhcp_start : State W Bool
  pub dhcp_release_and_stop : State W Unit
  pub pbuf_alloc : ℕ → State W Bool
  pub input : Bytes → State W Bool
  pub write : Bytes → State W Unit

-- `initialised` and `uc386dos_eth_active`.
pub record Eth : Type 0 where
  pub initialised : Bool
  pub active : Bool

abbrev pub frame_max : ℕ
frame_max = 1500 + 14

-- The four digits.
pub digits : ℕ → Bytes
digits l =
    (48 + l / 1000 % 10) ∷ (48 + l / 100 % 10) ∷ (48 + l / 10 % 10) ∷ (48 + l % 10) ∷ codes "]"

module _ {W : Type 0} (stack : Stack W) (pktdrv ethdrv : Card W) (is_active : W → Bool) where
  -- `lwip_uc386dos_init`
  unfoldable pub init : State (Eth × W) Unit
  init (e, w) =
      if e.initialised
      then (tt, (e, w))
      else let e1 = record e { initialised = true } in
        if stack.has_netif w
        then (tt, (e1, w))
        else (let (_, w1) = stack.lwip_init w in (tt, (e1, w1)))

  pub poll : State W Unit
  poll = stack.sys_check_timeouts

  -- Whether it returns ERR_OK, not ERR_IF.
  pub linkoutput : Bytes → State W Bool
  linkoutput p w =
      if ltb frame_max (length p)
      then (false, w)
      else if is_active w
      then pktdrv.transmit p w
      else ethdrv.transmit p w

  -- A frame that has been received.
  pub deliver : Bytes → State W Unit
  deliver frame = do
    _ ← stack.write (codes "[ep:")
    _ ← stack.write (digits (length frame))
    allocated ← stack.pbuf_alloc (length frame)
    elim allocated [
      | false ↦ stack.write (codes "[ep:noalloc]")
      | true ↦ do
        accepted ← stack.input frame
        stack.write (if accepted then codes "[ep:iO]" else codes "[ep:iE]")
    ]

  -- The loop of `pump_rx`, on fuel: whether it has ended.
  pub pump : ℕ → State W Bool
  pump zero w = (false, w)
  pump (suc fuel) w =
      let (frame, w1) =
        (if is_active w then pktdrv.receive frame_max w else ethdrv.receive frame_max w) in
      elim frame [ [] ↦ (true, w1) | c ∷ cs ↦ (let (_, w2) = deliver (c ∷ cs) w1 in pump fuel w2) ]

  pub pump_rx : ℕ → State (Eth × W) Bool
  pump_rx fuel (e, w) =
      if e.active then (let (ended, w1) = pump fuel w in (ended, (e, w1))) else (true, (e, w))

  -- The MAC, of the packet driver or of the other.
  unfoldable pub find_mac : State W (Option Bytes)
  find_mac w =
      let (r, w1) = pktdrv.start w in elim r [ none ↦ ethdrv.start w1 | some mac ↦ (some mac, w1) ]

  -- What follows where lwIP has taken the interface.
  unfoldable pub bring_up : Bytes → State W Unit
  bring_up mac = do
    _ ← stack.set_hwaddr mac
    _ ← stack.netif_set_default
    _ ← stack.netif_set_up
    _ ← stack.netif_set_link_up
    stack.mod_lwip_register_poll

  -- The negated result.
  unfoldable pub eth_start : Bool → State (Eth × W) ℕ
  eth_start dhcp_start_now (e, w) =
      if e.active
      then (0, (e, w))
      else let (_, (e1, w1)) = init (e, w) in
        let (r, w2) = find_mac w1 in
        elim r [
          | none ↦ (1, (e1, w2))
          | some mac ↦
              let (added, w3) = stack.netif_add w2 in
              elim added [
                | false ↦ (2, (e1, w3))
                | true ↦
                    let (_, w4) = bring_up mac w3 in
                    let e2 = record e1 { active = true } in
                    elim dhcp_start_now [
                      | false ↦ (0, (e2, w4))
                      | true ↦
                          (let (leased, w5) = stack.dhcp_start w4 in
                            (if leased then 0 else 3, (e2, w5)))
                    ]
              ]
        ]

  pub eth_set_addr : ℕ → ℕ → ℕ → State (Eth × W) Unit
  eth_set_addr ip mask gw (e, w) = elim e.active [
    | false ↦ (tt, (e, w))
    | true ↦
        let (_, w1) = stack.dhcp_release_and_stop w in
        let (_, w2) = stack.netif_set_addr ip mask gw w1 in
        let (_, w3) = stack.netif_set_up w2 in (tt, (e, w3))
  ]

  pub eth_ip : W → ℕ
  eth_ip = stack.ip_addr

  pub eth_netmask : W → ℕ
  eth_netmask = stack.netmask

  pub eth_gateway : W → ℕ
  eth_gateway = stack.gw

  pub eth_is_up : Eth → W → Bool
  eth_is_up e w = if e.active then stack.netif_is_up w else false

  pub eth_driver : Eth → W → ℕ
  eth_driver e w = if not e.active then 0 else if is_active w then 2 else 1

  pub loopback_poll : ℕ → State (Eth × W) Bool
  loopback_poll fuel (e, w) = (let (_, w1) = stack.netif_poll_all w in pump_rx fuel (e, w1))
