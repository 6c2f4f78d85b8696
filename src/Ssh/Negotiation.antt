-- ===== src/Ssh/Negotiation.antt =====
-- The algorithms that a session of modssh_uc386dos.c offers in its handshake.
use freedos_micro_python.Prelude.{
  ℕ, ◌≡◌, ◌∙◌, sym, ap, refl, Bool, true, false, Option-cases, inl, inr, Option, none, some, List,
  [], ◌∷◌, ◌++◌, append-nil, append_assoc, Bytes, codes, drop, arith,
}
use freedos_micro_python.Prelude.State.{State}
use freedos_micro_python.Ssh.{
  Method, hostkey, kex, crypt_cs, crypt_sc, mac_cs, mac_sc, Libssh2, Reply, replied, refused,
  Session, method_prefs, step, shake, negotiate, lazy_init, session_make_new,
}

abbrev has_replied {ℓ} : {A : Type ℓ} → Reply A → Bool
has_replied (replied a) = true
has_replied (refused e) = false

-- What is to be offered, in the order of the calls.
abbrev pub offer : List (Method × Bytes)
offer =
    (hostkey, codes "ssh-ed25519")
    ∷ (kex, codes "curve25519-sha256,curve25519-sha256@libssh.org")
    ∷ (crypt_cs, codes "aes256-ctr,aes128-ctr")
    ∷ (crypt_sc, codes "aes256-ctr,aes128-ctr")
    ∷ (mac_cs, codes "hmac-sha2-256,hmac-sha1")
    ∷ (mac_sc, codes "hmac-sha2-256,hmac-sha1")
    ∷ []

-- What is left of it behind some entries.
abbrev offer_behind : ℕ → List (Method × Bytes)
offer_behind n = drop n offer

-- `prefs` has the preferences that a session has accepted, and `offered` what its last handshake has offered.
-- As libssh2 documents, a session starts with none, each call adds one, and a handshake offers what has been accepted
-- by then.
module _ {W : Type 0} (lib : Libssh2 W) (prefs offered : ℕ → W → List (Method × Bytes)) where
  pub record IsOffering : Type 0 where
    pub starts :
        (s : ℕ) (w : W) → (lib.session_init w).0 ≡ some s → prefs s (lib.session_init w).1 ≡ []
    pub accepts :
        (s : ℕ) (m : Method) (names : Bytes) (w : W)
        → (lib.method_pref s m names w).0 ≡ none
        → prefs s (lib.method_pref s m names w).1 ≡ prefs s w ++ ((m, names) ∷ [])
    pub shakes :
        (s : ℕ) (w : W) → (lib.handshake s w).0 ≡ none → offered s (lib.handshake s w).1 ≡ prefs s w
    pub traces : (s : ℕ) (text : Bytes) (w : W) → prefs s (lib.trace text w).1 ≡ prefs s w
    pub traces_later : (s : ℕ) (text : Bytes) (w : W) → offered s (lib.trace text w).1 ≡ offered s w
    pub streams : (s sock : ℕ) (w : W) → prefs s (lib.set_stream s sock w).1 ≡ prefs s w
    pub blocks : (s : ℕ) (w : W) → prefs s (lib.set_blocking s w).1 ≡ prefs s w

  -- What has come of a step: the session, and its handshake with what is to be offered.
  abbrev Shaken : ℕ → Session → List (Method × Bytes) → Reply Session × W → Type 0
  Shaken s o l r = (o.handle ≡ some s) × (offered s r.1 ≡ l)

  -- A step whose constructor returns has succeeded, and went on.
  step-replied :
      (s : ℕ) (mark fallback : Bytes) (call : State W (Option ℕ)) (next : W → Reply Session × W)
      (w : W)
      → has_replied (step lib s mark fallback call next w).0 ≡ true
      → ((call w).0 ≡ none)
        × (step lib s mark fallback call next w ≡ next (lib.trace mark (call w).1).1)
  unfolding step
  step-replied s mark fallback call next w h = elim (Option-cases (call w).0) [
    | inl e ↦ (e, simp (step, e) refl)
    | inr (n, e) ↦ (let t : false ≡ true = simp (step, e) at h in absurd (ground arith))
  ]

  -- Two preferences in one step.
  method_prefs-accepted :
      (s : ℕ) (first second : Method) (names : Bytes) (w : W)
      → IsOffering
      → (method_prefs lib s first second names w).0 ≡ none
      → prefs s (method_prefs lib s first second names w).1
        ≡ prefs s w ++ ((first, names) ∷ (second, names) ∷ [])
  unfolding method_prefs
  method_prefs-accepted s first second names w laws h =
      elim (Option-cases (lib.method_pref s first names w).0) [
        | inr (n, e) ↦
            (let t : some n ≡ none = simp (method_prefs, e) at h in absurd (ground arith))
        | inl e ↦
            let w1 = (lib.method_pref s first names w).1 in
            let e2 : (lib.method_pref s second names w1).0 ≡ none = simp (method_prefs, e) at h in
            simp (method_prefs, e)
              (laws.accepts s second names w1 e2
                ∙ ap (λ t. t ++ ((second, names) ∷ [])) (laws.accepts s first names w e)
                ∙ append_assoc (prefs s w) ((first, names) ∷ []) ((second, names) ∷ []))
      ]

  -- A step adds what its call adds, and what follows adds.
  step-offers :
      (s : ℕ) (mark fallback : Bytes) (call : State W (Option ℕ)) (next : W → Reply Session × W)
      (w : W) (o : Session) (added later : List (Method × Bytes))
      → IsOffering
      → ((call w).0 ≡ none → prefs s (call w).1 ≡ prefs s w ++ added)
      → ((w2 : W) → (next w2).0 ≡ replied o → Shaken s o (prefs s w2 ++ later) (next w2))
      → (step lib s mark fallback call next w).0 ≡ replied o
      → Shaken s o (prefs s w ++ (added ++ later)) (step lib s mark fallback call next w)
  step-offers s mark fallback call next w o added later laws adds follows h =
      let (e, on) = step-replied s mark fallback call next w (ap has_replied h) in
      let w2 = (lib.trace mark (call w).1).1 in
      let (handle, list) = follows w2 (sym (ap (λ p. p.0) on) ∙ h) in
      (
        handle,
        ap (λ p. offered s p.1) on
            ∙ list
            ∙ ap (λ t. t ++ later) (laws.traces s mark (call w).1 ∙ adds e)
            ∙ append_assoc (prefs s w) added later,
      )

  session_of : (a o : Session) → replied a ≡ replied o → a ≡ o
  session_of a o h = cc

  -- The handshake offers what has been accepted by then.
  shake-Shaken :
      (s sock : ℕ) (w : W) (o : Session)
      → IsOffering
      → (shake lib s sock w).0 ≡ replied o
      → Shaken s o (prefs s w ++ []) (shake lib s sock w)
  unfolding shake
  shake-Shaken s sock w o laws h =
      let w1 = (lib.set_blocking s w).1 in
      let w2 = (lib.trace (codes "[s:9]") w1).1 in
      let (e, on) = step-replied s _ _ _ _ w2 (ap has_replied h) in
      let w3 = (lib.handshake s w2).1 in
      let w4 = (lib.trace (codes "[s:A]") w3).1 in
      let made : Session = record { handle = some s; sock = sock; authenticated = false } in
      (
        ap (λ t. t.handle) (sym (session_of made o (sym (ap (λ p. p.0) on) ∙ h))),
        ap (λ p. offered s p.1) on
            ∙ laws.traces_later s (codes "[s:Z]") w4
            ∙ laws.traces_later s (codes "[s:A]") w3
            ∙ laws.shakes s w2 e
            ∙ laws.traces s (codes "[s:9]") w1
            ∙ laws.blocks s w
            ∙ sym (append-nil (prefs s w)),
      )

  negotiate-offer :
      (s sock : ℕ) (w : W) (o : Session)
      → IsOffering
      → (negotiate lib s sock w).0 ≡ replied o
      → Shaken s o (prefs s w ++ offer) (negotiate lib s sock w)
  unfolding negotiate
  negotiate-offer s sock w o laws h =
      step-offers s _ _ _ _ w o ((hostkey, codes "ssh-ed25519") ∷ []) (offer_behind 1) laws
        (laws.accepts s hostkey (codes "ssh-ed25519") w)
        (λ w2.
          step-offers s _ _ _ _ w2 o
            ((kex, codes "curve25519-sha256,curve25519-sha256@libssh.org") ∷ []) (offer_behind 2)
            laws (laws.accepts s kex (codes "curve25519-sha256,curve25519-sha256@libssh.org") w2)
            (λ w3.
              step-offers s _ _ _ _ w3 o
                ((crypt_cs, codes "aes256-ctr,aes128-ctr")
                  ∷ (crypt_sc, codes "aes256-ctr,aes128-ctr")
                  ∷ [])
                (offer_behind 4) laws
                (method_prefs-accepted s crypt_cs crypt_sc (codes "aes256-ctr,aes128-ctr") w3 laws)
                (λ w4.
                  step-offers s _ _ _ _ w4 o (offer_behind 4) [] laws
                    (method_prefs-accepted s mac_cs mac_sc (codes "hmac-sha2-256,hmac-sha1") w4
                      laws)
                    (λ w5 h5. shake-Shaken s sock w5 o laws h5))))
        h

  -- On a libssh2 that starts a session with no preference, keeps those that it accepts and offers them in the
  -- handshake: where the constructor returns a session, the handshake of that session has offered
  -- exactly the six lists of the source, so ssh-ed25519 as the only host key.
  pub session_make_new-offer :
      (sock : ℕ) (initialized : Bool) (w : W) (o : Session)
      → IsOffering
      → (session_make_new lib sock (initialized, w)).0 ≡ replied o
      → (s : ℕ) × (o.handle ≡ some s)
        × (offered s (session_make_new lib sock (initialized, w)).1.1 ≡ offer)
  unfolding session_make_new
  session_make_new-offer sock initialized w o laws h =
      let w1 = (lazy_init lib (initialized, (lib.trace (codes "[s:0]") w).1)).1.1 in
      let w4 = (lib.trace (codes "[s:2]") (lib.trace (codes "[s:1]") w1).1).1 in
      let w5 = (lib.session_init w4).1 in
      elim (Option-cases (lib.session_init w4).0) [
        | inl e ↦
            (let t : false ≡ true = simp (session_make_new, e) at (ap has_replied h) in
              absurd (ground arith))
        | inr (s, e) ↦
            let w6 = (lib.trace (codes "[s:3]") w5).1 in
            let w7 = (lib.set_stream s sock w6).1 in
            let w8 = (lib.trace (codes "[s:4]") w7).1 in
            let shaken : (negotiate lib s sock w8).0 ≡ replied o =
              simp (session_make_new, e) at h in
            let (handle, list) = negotiate-offer s sock w8 o laws shaken in
            let empty : prefs s w8 ≡ [] =
              laws.traces s (codes "[s:4]") w7
              ∙ laws.streams s sock w6
              ∙ laws.traces s (codes "[s:3]") w5
              ∙ laws.starts s w4 e in
            (s, handle, simp (session_make_new, e) (list ∙ ap (λ t. t ++ offer) empty))
      ]
