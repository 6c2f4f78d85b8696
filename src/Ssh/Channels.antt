-- ===== src/Ssh/Channels.antt =====
-- The calls of modssh_uc386dos.c that run over a channel of their own: exec and SCP. Their loops run on fuel, since a
-- channel may go on giving nothing.
pub mod Running
pub mod Sending
use freedos_micro_python.Prelude.{
  ℕ, zero, suc, ◌+◌, ◌-◌, Bool, true, false, not, ◌&&◌, ◌||◌, Option, none, some, List, [], ◌∷◌,
  ◌++◌, Bytes, codes, length, take, drop, ltb, leb, ◌==◌, if◌then◌else◌,
}
use freedos_micro_python.Prelude.State.{State}
use freedos_micro_python.Ssh.{
  Libssh2, Received, received_none, received, receive_failed, Sent, sent, send_failed, SshError,
  not_open, Reply, replied, refused, Session, raise_session_error,
}

-- The part of libssh2 for channels. The three codes are those that the loops name.
pub record ChannelCalls (W : Type 0) : Type 0 where
  pub error_eagain : ℕ
  pub error_socket_recv : ℕ
  pub error_socket_disconnect : ℕ
  pub open_session : ℕ → State W (Option ℕ)
  pub exec : ℕ → Bytes → State W (Option ℕ)
  pub read : ℕ → ℕ → State W Received
  pub write : ℕ → Bytes → State W Sent
  pub eof : ℕ → State W Bool
  pub send_eof : ℕ → State W (Unit {0})
  pub close : ℕ → State W (Unit {0})
  pub free : ℕ → State W (Unit {0})
  pub scp_recv2 : ℕ → Bytes → State W (Option ℕ)
  pub scp_send_ex : ℕ → Bytes → ℕ → ℕ → State W (Option ℕ)

-- How a loop ends: what has been collected, or with an error; or it has not ended.
pub data Drained : Type 0 where
  drained : Bytes → Drained
  drain_failed : ℕ → Drained
  endless : Drained

-- A method's result; `running` where the fuel has run out.
pub data Run {ℓ} (A : Type ℓ) : Type ℓ where
  finished : Reply A → Run A
  running : Run A

-- `vstr_len(&vstr) > 0`
abbrev pub is_empty : Bytes → Bool
is_empty [] = true
is_empty (c ∷ cs) = false

-- `if (vstr_len(&vstr) > 0 && vstr.buf[vstr_len(&vstr) - 1] == '\0') vstr.len--;`
unfoldable pub strip_nul : Bytes → Bytes
strip_nul [] = []
strip_nul (c ∷ []) = if c == 0 then [] else c ∷ []
strip_nul (c ∷ d ∷ cs) = c ∷ strip_nul (d ∷ cs)

module _ {W : Type 0} (lib : Libssh2 W) (calls : ChannelCalls W) where
  pub is_closed_code : ℕ → Bool
  is_closed_code n = n == calls.error_socket_recv || n == calls.error_socket_disconnect

  -- What a negative result ends the loop of `exec` with.
  pub exec_failure : ℕ → Bytes → ℕ → State W Drained
  exec_failure channel (c ∷ cs) n w = (drained (c ∷ cs), w)
  exec_failure channel [] n w =
      let (at_end, w1) = calls.eof channel w in
      (if at_end || is_closed_code n then drained [] else drain_failed n, w1)

  pub exec_loop : ℕ → ℕ → Bytes → State W Drained
  exec_loop zero channel vstr w = (endless, w)
  exec_loop (suc fuel) channel vstr w =
      let (r, w1) = calls.read channel 256 w in
      elim r [
        | received c cs ↦ exec_loop fuel channel (vstr ++ c ∷ cs) w1
        | received_none ↦
            let (at_end, w2) = calls.eof channel w1 in
            elim at_end [ true ↦ (drained vstr, w2) | false ↦ exec_loop fuel channel vstr w2 ]
        | receive_failed n ↦ exec_failure channel vstr n w1
      ]

  -- What the methods do behind their loops: `trim` is what is cut off the bytes.
  pub conclude : Option ℕ → ℕ → Bytes → (Bytes → Bytes) → Drained × W → Run Bytes × W
  conclude session channel fallback trim (endless, w) = (running, w)
  conclude session channel fallback trim (drained bytes, w) =
      let (_, w1) = calls.close channel w in
      let (_, w2) = calls.free channel w1 in (finished (replied (trim bytes)), w2)
  conclude session channel fallback trim (drain_failed n, w) =
      let (_, w1) = calls.free channel w in
      let (e, w2) = raise_session_error lib session n fallback w1 in (finished (refused e), w2)

  -- A channel that was not made.
  pub no_channel {ℓ} : {A : Type ℓ} → Option ℕ → Bytes → W → Run A × W
  no_channel session fallback w =
      let (e, w1) = raise_session_error lib session 1 fallback w in (finished (refused e), w1)

  unfoldable pub session_exec : ℕ → Bytes → Session → State W (Run Bytes)
  session_exec fuel cmd self w = elim self.handle [
    | none ↦ (finished (refused not_open), w)
    | some s ↦
        let (made, w1) = calls.open_session s w in
        elim made [
          | none ↦ no_channel self.handle (codes "channel_open_session") w1
          | some channel ↦
              let (r, w2) = calls.exec channel cmd w1 in
              elim r [
                | none ↦
                    conclude self.handle channel (codes "channel_read") (λ b. b)
                      (exec_loop fuel channel [] w2)
                | some err ↦
                    let (_, w3) = calls.free channel w2 in
                    let (e, w4) =
                      raise_session_error lib self.handle err (codes "channel_exec") w3 in
                    (finished (refused e), w4)
              ]
        ]
  ]

  -- `polls` is `empty_polls`, which counts only once there are bytes.
  pub scp_loop : ℕ → ℕ → Bytes → ℕ → State W Drained
  scp_loop zero channel vstr polls w = (endless, w)
  scp_loop (suc fuel) channel vstr polls w =
      let (r, w1) = calls.read channel 256 w in
      elim r [
        | received c cs ↦
            let (at_end, w2) = calls.eof channel w1 in
            elim at_end [
              | true ↦ (drained (vstr ++ c ∷ cs), w2)
              | false ↦ scp_loop fuel channel (vstr ++ c ∷ cs) 0 w2
            ]
        | received_none ↦ (drained vstr, w1)
        | receive_failed n ↦ elim (n == calls.error_eagain) [
          | false ↦ (if is_closed_code n then drained vstr else drain_failed n, w1)
          | true ↦ elim (is_empty vstr) [
            | true ↦ scp_loop fuel channel vstr polls w1
            | false ↦ elim (ltb 20 (polls + 1)) [
              | true ↦ (drained vstr, w1)
              | false ↦ scp_loop fuel channel vstr (polls + 1) w1
            ]
          ]
        ]
      ]

  unfoldable pub session_scp_recv : ℕ → Bytes → Session → State W (Run Bytes)
  session_scp_recv fuel path self w = elim self.handle [
    | none ↦ (finished (refused not_open), w)
    | some s ↦
        let (made, w1) = calls.scp_recv2 s path w in
        elim made [
          | none ↦ no_channel self.handle (codes "scp_recv2") w1
          | some channel ↦
              conclude self.handle channel (codes "scp_channel_read") strip_nul
                (scp_loop fuel channel [] 0 w1)
        ]
  ]

  -- `while (remaining > 0)`: whether the data went out, or a code.
  pub scp_write : ℕ → ℕ → Bytes → State W Drained
  scp_write fuel channel [] w = (drained [], w)
  scp_write zero channel (c ∷ cs) w = (endless, w)
  scp_write (suc fuel) channel (c ∷ cs) w =
      let (r, w1) = calls.write channel (c ∷ cs) w in
      elim r [
        | sent n ↦ scp_write fuel channel (drop n (c ∷ cs)) w1
        | send_failed n ↦ elim (n == calls.error_eagain) [
          | true ↦ scp_write fuel channel (c ∷ cs) w1
          | false ↦ (drain_failed n, w1)
        ]
      ]

  -- The loop that sends the terminator: whether it has ended.
  pub scp_terminate : ℕ → ℕ → State W Bool
  scp_terminate zero channel w = (false, w)
  scp_terminate (suc fuel) channel w =
      let (r, w1) = calls.write channel (0 ∷ []) w in
      elim r [
        | sent n ↦ (true, w1)
        | send_failed n ↦ elim (n == calls.error_eagain) [
          | true ↦ scp_terminate fuel channel w1
          | false ↦ (true, w1)
        ]
      ]

  -- The end of an upload, where all data went out.
  pub scp_finish : ℕ → ℕ → ℕ → State W (Run ℕ)
  scp_finish fuel channel len w =
      let (ended, w1) = scp_terminate fuel channel w in
      elim ended [
        | false ↦ (running, w1)
        | true ↦
            let (_, w2) = calls.send_eof channel w1 in
            let (_, w3) = calls.close channel w2 in
            let (_, w4) = calls.free channel w3 in (finished (replied len), w4)
      ]

  unfoldable pub session_scp_send : ℕ → Bytes → ℕ → Bytes → Session → State W (Run ℕ)
  session_scp_send fuel path mode input self w = elim self.handle [
    | none ↦ (finished (refused not_open), w)
    | some s ↦
        let (made, w1) = calls.scp_send_ex s path mode (length input) w in
        elim made [
          | none ↦ no_channel self.handle (codes "scp_send_ex") w1
          | some channel ↦
              let (r, w2) = scp_write fuel channel input w1 in
              elim r [
                | drained rest ↦ scp_finish fuel channel (length input) w2
                | endless ↦ (running, w2)
                | drain_failed n ↦
                    let (_, w3) = calls.free channel w2 in
                    let (e, w4) =
                      raise_session_error lib self.handle n (codes "scp_channel_write") w3 in
                    (finished (refused e), w4)
              ]
        ]
  ]
