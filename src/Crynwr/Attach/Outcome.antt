-- ===== src/Crynwr/Attach/Outcome.antt =====
-- What `pktdrv_init` of pktdrv_uc386dos.c leaves, for each of its return values.
use freedos_micro_python.Prelude.{
  ℕ, ◌<◌, ◌≡◌, ◌∙◌, ap, refl, true, false, some, Bytes, ◌==◌, arith, inl, inr, ◌⊎◌, Bool-cases,
  Option-cases,
}
use freedos_micro_python.Ne2k.{Ports, init_direct}
use freedos_micro_python.Ne2k.Setup.{init_direct-IsReturn}
use freedos_micro_python.Pktdrv.{Driver, alloc_bounce, alloc_thunk, is_active}
use freedos_micro_python.Crynwr.{
  blank, RealMode, Places, Link, Init, attached, init_failed, detect_loop,
}
use freedos_micro_python.Crynwr.Attach.{
  get_addr, access, choose_receiver, tell, finish, attach, init,
}
use freedos_micro_python.Crynwr.Attach.Unchanged.{
  IsSame, then_same, alloc_bounce-IsSame, alloc_thunk-IsSame, detect_loop-IsFound, detect_start,
  get_addr-Keeps, access-Keeps, choose_receiver-Keeps, tell-Keeps, register_polling_rx-Keeps,
}

inactive : (d : Driver) → d.nic.ne2k_initialized ≡ false → d.int_num ≡ some 0 → is_active d ≡ false
unfolding is_active
inactive d no_card no_driver = simp (no_card, no_driver) refl

card_active : (d : Driver) → d.nic.ne2k_initialized ≡ true → is_active d ≡ true
unfolding is_active
card_active d card = simp card refl

active : (d : Driver) (n : ℕ) → d.int_num ≡ some n → 0 < n → is_active d ≡ true
unfolding is_active
active d n vector pos =
    let set : (n == 0) ≡ false = ground arith in
    elim (Bool-cases d.nic.ne2k_initialized) [
      | inl c ↦ simp (c, vector) refl
      | inr c ↦ simp (c, vector, set) refl
    ]

module _ {S : Type 0} (real : RealMode S) where
  module _ (places : Places) where
    -- What an attempt leaves, of the driver that it started from.
    pub record IsEnded (d : Driver) (r : Init × (Link × S)) : Type 0 where
      pub nic : r.1.0.driver.nic ≡ d.nic
      pub code :
          (((mac : Bytes) × (r.0 ≡ attached mac)) × (r.1.0.driver.int_num ≡ d.int_num))
          ⊎ (((n : ℕ) × ((0 < n) × (r.0 ≡ init_failed n))) × (r.1.0.driver.int_num ≡ some 0))

    finish-IsEnded :
        (d : Driver) (st : Link × S) → IsSame st.0.driver d → IsEnded d (finish real places st)
    unfolding finish
    finish-IsEnded d st k =
        let mode = record blank { ebx = st.0.handle; ecx = 3; eax = 0x1400 } in
        let st4 = (tell real places mode st).1 in
        let st5 = (get_addr real places st4).1 in
        let k5 =
          then_same st5.0.driver _ _ (get_addr-Keeps real places st4)
            (then_same _ _ _ (tell-Keeps real places mode st) k) in
        let k6 = then_same _ _ _ (register_polling_rx-Keeps real places st5) k5 in
        elim (Option-cases (get_addr real places st4).0) [
          | inl n ↦
              simp (finish, n)
                (record { nic = k5.nic; code = inr ((3, (omega arith, refl)), refl) })
          | inr (mac, n) ↦
              simp (finish, n) (record { nic = k6.nic; code = inl ((mac, refl), k6.int_num) })
        ]

    attach-IsEnded : (l : Link) (s : S) → IsEnded l.driver (attach real places (l, s))
    unfolding attach
    attach-IsEnded l s =
        let d1 =
          (alloc_bounce places.preallocated_bounce_seg places.preallocated_bounce_linear
            l.driver).1 in
        let d2 = (alloc_thunk places.preallocated_thunk_seg d1).1 in
        let k2 : IsSame d2 l.driver =
          then_same d2 d1 l.driver (alloc_thunk-IsSame places.preallocated_thunk_seg d1) (
            alloc_bounce-IsSame places.preallocated_bounce_seg places.preallocated_bounce_linear
              l.driver) in
        let st0 : Link × S = (record l { driver = d2 }, s) in
        let st1 = (choose_receiver real places st0).1 in
        let linear = (choose_receiver real places st0).0 in
        let release = record blank { ebx = 0xFFFF; eax = 0x0300 } in
        let st2 = (tell real places release st1).1 in
        let st3 = (access real places linear st2).1 in
        let k3 : IsSame st3.0.driver l.driver =
          then_same _ _ _ (access-Keeps real places linear st2) (
            then_same _ _ _ (tell-Keeps real places release st1)
              (then_same _ _ _ (choose_receiver-Keeps real places st0) k2)) in
        elim (Bool-cases (access real places linear st2).0) [
          | inr e ↦
              simp (attach, e)
                (record { nic = k3.nic; code = inr ((2, (omega arith, refl)), refl) })
          | inl e ↦ simp (attach, e) (finish-IsEnded l.driver st3 k3)
        ]

    -- What `pktdrv_init` returns, and whether `pktdrv_is_active` holds afterwards.
    abbrev pub IsInit : Init × (Link × S) → Type 0
    IsInit r =
        (((mac : Bytes) × (r.0 ≡ attached mac)) × (is_active r.1.0.driver ≡ true))
        ⊎ (((n : ℕ) × ((0 < n) × (r.0 ≡ init_failed n))) × (is_active r.1.0.driver ≡ false))

    attach-IsInit :
        (st : Link × S) (n : ℕ)
        → st.0.driver.nic.ne2k_initialized ≡ false
        → st.0.driver.int_num ≡ some n
        → 0 < n
        → IsInit (attach real places st)
    attach-IsInit (l, s) n no_card vector pos =
        let ended = attach-IsEnded l s in
        let card = ap (λ c. c.ne2k_initialized) ended.nic ∙ no_card in
        elim ended.code [
          | inl (mac, kept) ↦ inl (mac, active _ n (kept ∙ vector) pos)
          | inr (code, reset) ↦ inr (code, inactive _ card reset)
        ]

    module _ (ports : Ports S) where
      -- From a state with no driver and no card, `pktdrv_init` either returns 0 with a MAC, and `pktdrv_is_active`
      -- holds afterwards, or it returns a negative number, and `pktdrv_is_active` does not hold, although a
      -- driver may have been found, and been given a receiver, on the way.
      pub init-IsInit :
          (l : Link) (s : S)
          → l.driver.int_num ≡ some 0
          → l.driver.nic.ne2k_initialized ≡ false
          → IsInit (init real places ports (l, s))
      unfolding init
      init-IsInit l s no_driver no_card =
          let s1 = (init_direct ports s).1 in
          elim (init_direct-IsReturn ports s) [
            | inr (mac, e) ↦ simp (init, e) (inl ((mac, refl), card_active _ refl))
            | inl e ↦
                let found = detect_loop-IsFound real 32 0x60 l s1 (omega arith) in
                let st2 = (detect_loop real 32 0x60 (l, s1)).1 in
                let card = ap (λ c. c.ne2k_initialized) found.nic ∙ no_card in
                let at_start = detect_start real l s1 no_driver in
                elim found.vector [
                  | inl (z, kept) ↦
                      let none_found : ((detect_loop real 32 0x60 (l, s1)).0 == 0) ≡ true =
                        ground arith in
                      simp (init, e, at_start, none_found)
                        (inr ((1, (omega arith, refl)), inactive _ card (kept ∙ no_driver)))
                  | inr (lo, (hi, vector)) ↦
                      let one_found : ((detect_loop real 32 0x60 (l, s1)).0 == 0) ≡ false =
                        ground arith in
                      simp (init, e, at_start, one_found)
                        (attach-IsInit st2 _ card vector (omega arith))
                ]
          ]
