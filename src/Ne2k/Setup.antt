-- ===== src/Ne2k/Setup.antt =====
-- What `ne2k_init_direct` of pktdrv_uc386dos.c returns.
use freedos_micro_python.Prelude.{
  ◌≡◌, refl, Bool, true, false, Option, none, some, Bytes, ◌⊎◌, inl, inr,
}
use freedos_micro_python.Ne2k.{Ports, Nic, on_readback, on_reset, init_direct}

-- The returns of `ne2k_init_direct`.
abbrev pub IsReturn : Option (Bytes × Nic) → Type 0
IsReturn r =
    (r ≡ none)
    ⊎ ((mac : Bytes) × (r ≡ some (mac, record { ne2k_mac = mac; ne2k_initialized = true })))

on_readback-IsReturn :
    {S : Type 0} (ports : Ports S) (same : Bool) (s : S) → IsReturn (on_readback ports same s).0
unfolding on_readback
on_readback-IsReturn ports true s = inr (_, refl)
on_readback-IsReturn ports false s = inl refl

on_reset-IsReturn :
    {S : Type 0} (ports : Ports S) (late : Bool) (s : S) → IsReturn (on_reset ports late s).0
unfolding on_reset
on_reset-IsReturn ports true s = inl refl
on_reset-IsReturn ports false s = on_readback-IsReturn ports _ _

pub init_direct-IsReturn : {S : Type 0} (ports : Ports S) (s : S) → IsReturn (init_direct ports s).0
unfolding init_direct
init_direct-IsReturn ports s = on_reset-IsReturn ports _ _
