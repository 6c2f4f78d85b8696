-- ===== src/Crynwr/Attach/Unchanged.antt =====
-- The steps of `pktdrv_init` of pktdrv_uc386dos.c, and what they leave alone of the driver's state.
use freedos_micro_python.Prelude.{
  ℕ, zero, suc, ◌+◌, ◌-◌, ◌/◌, ◌%◌, ◌^◌, ◌≤◌, ◌<◌, ◌≡◌, ◌∙◌, ap, refl, true, ◌||◌, Option, none,
  some, ◌==◌, leb, arith, inl, inr, ◌⊎◌, Bool-cases, Option-cases,
}
use freedos_micro_python.Prelude.State.{bit}
use freedos_micro_python.Pktdrv.{Driver, alloc_bounce, alloc_thunk}
use freedos_micro_python.Crynwr.{
  Rmcs, blank, no_regs, RealMode, Places, Link, int_number, probe_slot, detect_loop, detect,
  call_int60_thunk, simulate, dispatch, has_signature, answers, simulate_real_int, invoke, accepted,
}
use freedos_micro_python.Crynwr.Attach.{
  fetch_addr, get_addr, access_one, access, alloc_dpmi_callback, register_polling_rx,
  choose_receiver, tell,
}

-- What no step of attaching to a packet driver changes: which vector it answers on, and the card.
pub record IsSame (a b : Driver) : Type 0 where
  pub int_num : a.int_num ≡ b.int_num
  pub nic : a.nic ≡ b.nic

pub same : (d : Driver) → IsSame d d
same d = record { int_num = refl; nic = refl }

pub then_same : (a b c : Driver) → IsSame a b → IsSame b c → IsSame a c
then_same a b c ab bc = record { int_num = ab.int_num ∙ bc.int_num; nic = ab.nic ∙ bc.nic }

pub alloc_bounce-IsSame : (seg linear : ℕ) (d : Driver) → IsSame (alloc_bounce seg linear d).1 d
unfolding alloc_bounce
alloc_bounce-IsSame seg linear d = elim (Bool-cases (d.bounce_seg == 0)) [
  | inl e ↦ elim (Bool-cases (seg == 0)) [
    | inl z ↦ simp (e, z) (same d)
    | inr z ↦ simp (e, z) (record { int_num = refl; nic = refl })
  ]
  | inr e ↦ simp e (same d)
]

pub alloc_thunk-IsSame : (seg : ℕ) (d : Driver) → IsSame (alloc_thunk seg d).1 d
unfolding alloc_thunk
alloc_thunk-IsSame seg d = elim (Bool-cases (d.thunk_seg == 0)) [
  | inl e ↦ elim (Bool-cases (seg == 0)) [
    | inl z ↦ simp (e, z) (same d)
    | inr z ↦ simp (e, z) (record { int_num = refl; nic = refl })
  ]
  | inr e ↦ simp e (same d)
]

abbrev number : Option ℕ → ℕ
number o = elim o [ none ↦ 2 ^ 32 - 1 | some n ↦ n ]

-- A step of the model that leaves the two alone.
abbrev Keeps : {S A : Type 0} → (Link × S → A × (Link × S)) → Type 0
Keeps {S} {A} step = (st : Link × S) → IsSame (step st).1.0.driver st.0.driver

module _ {S : Type 0} (real : RealMode S) where
  call_int60_thunk-IsSame :
      (rm : Rmcs) (l : Link) (s : S) → IsSame (call_int60_thunk real rm (l, s)).1.0.driver l.driver
  unfolding call_int60_thunk
  call_int60_thunk-IsSame rm l s = elim (Bool-cases (l.driver.thunk_seg == 0)) [
    | inl e ↦ simp e (record { int_num = refl; nic = refl })
    | inr e ↦ simp e (record { int_num = refl; nic = refl })
  ]

  simulate-Keeps : (n : ℕ) (rm : Rmcs) → Keeps (simulate real n rm)
  unfolding simulate
  simulate-Keeps n rm (l, s) = record { int_num = refl; nic = refl }

  dispatch-Keeps : (rm : Rmcs) → Keeps (dispatch real rm)
  unfolding dispatch
  dispatch-Keeps rm (l, s) = elim (Bool-cases (l.driver.thunk_seg == 0)) [
    | inl e ↦ simp e (simulate-Keeps (int_number l.driver) rm (l, s))
    | inr e ↦ simp e (call_int60_thunk-IsSame rm l s)
  ]

  answers-Keeps : (n : ℕ) → Keeps (answers real n)
  unfolding answers simulate_real_int
  answers-Keeps n st = simulate-Keeps n _ st

  has_signature-Keeps : (n : ℕ) → Keeps (has_signature real n)
  unfolding has_signature invoke
  has_signature-Keeps n (l, s) = same l.driver

  probe_slot-Keeps : (n : ℕ) → Keeps (probe_slot real n)
  unfolding probe_slot
  probe_slot-Keeps n st =
      let first = answers-Keeps n st in
      elim (Bool-cases (answers real n st).0) [
        | inl e ↦ simp (probe_slot, e) first
        | inr e ↦
            simp (probe_slot, e)
              (then_same _ _ _ (has_signature-Keeps n (answers real n st).1) first)
      ]

  -- The vector found, and kept.
  pub record IsFound (i count : ℕ) (l : Link) (r : ℕ × (Link × S)) : Type 0 where
    pub nic : r.1.0.driver.nic ≡ l.driver.nic
    pub vector :
        ((r.0 ≡ 0) × (r.1.0.driver.int_num ≡ l.driver.int_num))
        ⊎ ((i ≤ r.0) × ((r.0 < i + count) × (r.1.0.driver.int_num ≡ some r.0)))

  pub detect_loop-IsFound :
      (count i : ℕ) (l : Link) (s : S) → 0 < i → IsFound i count l (detect_loop real count i (l, s))
  unfolding detect_loop
  detect_loop-IsFound zero i l s pos = record { nic = refl; vector = inl (refl, refl) }
  detect_loop-IsFound (suc count) i l s pos =
      let st1 = (probe_slot real i (l, s)).1 in
      let k = probe_slot-Keeps i (l, s) in
      elim (Bool-cases ((probe_slot real i (l, s)).0 == 0)) [
        | inl e ↦
            let rest = detect_loop-IsFound count (i + 1) st1.0 st1.1 (omega arith) in
            simp (detect_loop, e)
              (record {
                nic = rest.nic ∙ k.nic;
                vector = elim rest.vector [
                  | inl (z, kept) ↦ inl (z, kept ∙ k.int_num)
                  | inr (lo, (hi, found)) ↦ inr (omega arith, (omega arith, found))
                ];
              })
        | inr e ↦
            simp (detect_loop, e)
              (record { nic = k.nic; vector = inr (omega arith, (omega arith, refl)) })
      ]

  pub detect_start :
      (l : Link) (s : S)
      → l.driver.int_num ≡ some 0
      → detect real (l, s) ≡ detect_loop real 32 0x60 (l, s)
  unfolding detect
  detect_start l s no_driver =
      let zero : int_number l.driver ≡ 0 = ap number no_driver in
      let none_yet : (int_number l.driver == 0) ≡ true = ground arith in rw none_yet refl

  module _ (places : Places) where
    fetch_addr-Keeps : Keeps (fetch_addr real places)
    unfolding fetch_addr
    fetch_addr-Keeps (l, s) = elim (Bool-cases (l.driver.bounce_seg == 0)) [
      | inl e ↦ simp e (same l.driver)
      | inr e ↦ simp e (dispatch-Keeps _ (l, s))
    ]

    pub get_addr-Keeps : Keeps (get_addr real places)
    unfolding get_addr
    get_addr-Keeps (l, s) = elim (Bool-cases (int_number l.driver == 0 || leb (2 ^ 31) l.handle)) [
      | inl e ↦ simp e (same l.driver)
      | inr e ↦ elim (Option-cases (fetch_addr real places (l, s)).0) [
        | inl n ↦ simp (e, n) (fetch_addr-Keeps (l, s))
        | inr (mac, n) ↦
            simp (e, n)
              (let k = fetch_addr-Keeps (l, s) in record { int_num = k.int_num; nic = k.nic })
      ]
    ]

    access_one-Keeps : (linear off : ℕ) → Keeps (access_one real places linear off)
    unfolding access_one
    access_one-Keeps linear off (l, s) =
        let rm = record blank {
          edi = linear % 2 ^ 16;
          esi = off;
          ebx = 0xFFFF;
          ecx = 2;
          eax = 0x0201;
          es = linear / 2 ^ 16 % 2 ^ 16;
          ds = l.driver.thunk_seg % 2 ^ 16;
        } in
        let k = dispatch-Keeps rm (l, s) in
        let st1 = (dispatch real rm (l, s)).1 in
        elim (Bool-cases (int_number l.driver == 0)) [
          | inl e ↦ simp e (same l.driver)
          | inr e ↦ elim (Option-cases (dispatch real rm (l, s)).0) [
            | inl n ↦
                elim (Bool-cases
                  (real.int_invoke (int_number st1.0.driver)
                    (record no_regs { eax = 0x0201; edi = linear }) st1.1).0.0) [
                      | inl c ↦ simp (e, n, c) k
                      | inr c ↦ simp (e, n, c) k
                    ]
            | inr (rm1, n) ↦ elim (Bool-cases (bit 0 rm1.flags)) [
              | inl c ↦ simp (e, n, c) k
              | inr c ↦ simp (e, n, c) k
            ]
          ]
        ]

    pub access-Keeps : (linear : ℕ) → Keeps (access real places linear)
    unfolding access
    access-Keeps linear st =
        let k = access_one-Keeps linear 6 st in
        let st1 = (access_one real places linear 6 st).1 in
        elim (Option-cases (access_one real places linear 6 st).0) [
          | inl n ↦ simp (access, n) k
          | inr (h, n) ↦
              simp (access, n)
                (then_same _ _ _ (access_one-Keeps linear 4 (record (st1.0) { handle = h }, st1.1))
                  k)
        ]

    pub choose_receiver-Keeps : Keeps (choose_receiver real places)
    unfolding choose_receiver alloc_dpmi_callback
    choose_receiver-Keeps (l, s) =
        elim (Bool-cases
          (real.int_invoke 0x31
            (record no_regs { eax = 0x0303; esi = places.dpmi_thunk_at; edi = places.rmcs_at })
            s).0.0) [ inl c ↦ simp c (same l.driver) | inr c ↦ simp c (same l.driver) ]

    pub tell-Keeps : (rm : Rmcs) → Keeps (tell real places rm)
    unfolding tell
    tell-Keeps rm (l, s) = call_int60_thunk-IsSame rm l s

    pub register_polling_rx-Keeps : Keeps (register_polling_rx real places)
    unfolding register_polling_rx
    register_polling_rx-Keeps (l, s) =
        let probe = record blank { ebx = 0xFFFF; eax = 0x0100 } in
        let k = call_int60_thunk-IsSame probe l s in
        let st1 = (call_int60_thunk real probe (l, s)).1 in
        elim (Bool-cases (l.driver.thunk_seg == 0)) [
          | inl e ↦ simp e (same l.driver)
          | inr e ↦ elim (Option-cases (accepted (call_int60_thunk real probe (l, s)).0)) [
            | inl n ↦ simp (e, n) k
            | inr (info, n) ↦ elim (Bool-cases (info.ecx % 2 ^ 16 == 0x0202)) [
              | inl c ↦ simp (e, n, c) (then_same _ _ _ (call_int60_thunk-IsSame _ st1.0 st1.1) k)
              | inr c ↦ simp (e, n, c) k
            ]
          ]
        ]
