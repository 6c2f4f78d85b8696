-- ===== src/Ssh/Channels/Sending.antt =====
-- What an upload by SCP in modssh_uc386dos.c puts into its channel.
use freedos_micro_python.Prelude.{
  ℕ, zero, suc, ◌+◌, ◌<◌, ◌≤◌, ◌≡◌, ◌∙◌, sym, ap, refl, true, ◌⊎◌, inl, inr, some, [], ◌∷◌, ◌++◌,
  append-nil, append_assoc, Bytes, length, take, drop, take-append-drop, length-drop, ◌==◌, arith,
}
use freedos_micro_python.Ssh.{Libssh2, sent, send_failed, replied, Session}
use freedos_micro_python.Ssh.Channels.{
  ChannelCalls, drained, finished, scp_write, scp_terminate, scp_finish, session_scp_send,
}

module _ {W : Type 0} (lib : Libssh2 W) (calls : ChannelCalls W) (put : W → Bytes)
    (busy : W → ℕ) where
  -- `put` is what has gone into channels, and `busy` how often a write will still answer EAGAIN. A write puts as many
  -- bytes as it says, at least one, or answers EAGAIN; the calls that end a channel put nothing.
  pub record IsAccepting : Type 0 where
    pub writes :
        (w : W) (channel c : ℕ) (cs : Bytes)
        → ((n : ℕ) × ((calls.write channel (c ∷ cs) w).0 ≡ sent (suc n))
            × (suc n ≤ length (c ∷ cs))
            × (put (calls.write channel (c ∷ cs) w).1 ≡ put w ++ take (suc n) (c ∷ cs))
            × (busy (calls.write channel (c ∷ cs) w).1 ≤ busy w))
          ⊎ (((calls.write channel (c ∷ cs) w).0 ≡ send_failed calls.error_eagain)
              × (put (calls.write channel (c ∷ cs) w).1 ≡ put w)
              × (busy (calls.write channel (c ∷ cs) w).1 < busy w))
    pub send_eof_puts : (w : W) (channel : ℕ) → put (calls.send_eof channel w).1 ≡ put w
    pub close_puts : (w : W) (channel : ℕ) → put (calls.close channel w).1 ≡ put w
    pub free_puts : (w : W) (channel : ℕ) → put (calls.free channel w).1 ≡ put w

  eagain_known : (calls.error_eagain == calls.error_eagain) ≡ true
  eagain_known = ground arith

  -- A loop of writes that has put `input`, with no more answers of EAGAIN to come than before.
  record IsPut (input : Bytes) (w w1 : W) : Type 0 where
    grown : put w1 ≡ put w ++ input
    calmer : busy w1 ≤ busy w

  scp_write-IsPut :
      (fuel channel : ℕ) (input : Bytes) (w : W)
      → IsAccepting
      → length input + busy w ≤ fuel
      → ((scp_write lib calls fuel channel input w).0 ≡ drained [])
        × IsPut input w (scp_write lib calls fuel channel input w).1
  unfolding scp_write
  scp_write-IsPut fuel channel [] w laws enough =
      (refl, record { grown = sym (append-nil (put w)); calmer = omega arith })
  scp_write-IsPut zero channel (c ∷ cs) w laws enough = absurd (omega arith)
  scp_write-IsPut (suc fuel) channel (c ∷ cs) w laws enough =
      let w1 = (calls.write channel (c ∷ cs) w).1 in
      elim (laws.writes w channel c cs) [
        | inl (n, e, fits, grown, calm) ↦
            let left = drop (suc n) (c ∷ cs) in
            let (done_, rest) =
              scp_write-IsPut fuel channel left w1 laws
                (omega (arith, calm, length-drop (suc n) (c ∷ cs))) in
            simp (scp_write, e)
              (
                done_,
                record {
                  grown =
                      rest.grown
                      ∙ ap (λ t. t ++ left) grown
                      ∙ append_assoc (put w) (take (suc n) (c ∷ cs)) left
                      ∙ ap (λ t. put w ++ t) (take-append-drop (suc n) (c ∷ cs));
                  calmer = omega (arith, rest.calmer, calm);
                },
              )
        | inr (e, same, calm) ↦
            let (done_, rest) =
              scp_write-IsPut fuel channel (c ∷ cs) w1 laws (omega (arith, calm)) in
            simp (scp_write, e, eagain_known)
              (
                done_,
                record {
                  grown = rest.grown ∙ ap (λ t. t ++ c ∷ cs) same;
                  calmer = omega (arith, rest.calmer, calm);
                },
              )
      ]

  scp_terminate-put :
      (fuel channel : ℕ) (w : W)
      → IsAccepting
      → busy w < fuel
      → ((scp_terminate lib calls fuel channel w).0 ≡ true)
        × (put (scp_terminate lib calls fuel channel w).1 ≡ put w ++ (0 ∷ []))
  unfolding scp_terminate
  scp_terminate-put zero channel w laws enough = absurd (omega arith)
  scp_terminate-put (suc fuel) channel w laws enough = elim (laws.writes w channel 0 []) [
    | inl (n, e, fits, grown, calm) ↦
        let one : n ≡ 0 = omega (arith, fits) in
        simp (scp_terminate, e) (refl, grown ∙ ap (λ m. put w ++ take (suc m) (0 ∷ [])) one)
    | inr (e, same, calm) ↦
        let (ended, grown) =
          scp_terminate-put fuel channel (calls.write channel (0 ∷ []) w).1 laws
            (omega (arith, calm)) in
        simp (scp_terminate, e, eagain_known) (ended, grown ∙ ap (λ t. t ++ (0 ∷ [])) same)
  ]

  scp_finish-put :
      (fuel channel len : ℕ) (w : W)
      → IsAccepting
      → busy w < fuel
      → ((scp_finish lib calls fuel channel len w).0 ≡ finished (replied len))
        × (put (scp_finish lib calls fuel channel len w).1 ≡ put w ++ (0 ∷ []))
  unfolding scp_finish
  scp_finish-put fuel channel len w laws enough =
      let (ended, grown) = scp_terminate-put fuel channel w laws enough in
      let w1 = (scp_terminate lib calls fuel channel w).1 in
      let w2 = (calls.send_eof channel w1).1 in
      simp (scp_finish, ended)
        (
          refl,
          laws.free_puts (calls.close channel w2).1 channel
              ∙ laws.close_puts w2 channel
              ∙ laws.send_eof_puts w1 channel
              ∙ grown,
        )

  -- On a session that is open and a channel that is made and takes each write in part or, some number of times, answers
  -- EAGAIN: an upload puts the whole data and the terminating 0 into the channel, in order and with nothing
  -- between or behind them, and returns the length of the data; one round for each byte and each EAGAIN,
  -- and one more, are enough.
  pub session_scp_send-put :
      (fuel s channel mode : ℕ) (path input : Bytes) (self : Session) (w : W)
      → IsAccepting
      → self.handle ≡ some s
      → (calls.scp_send_ex s path mode (length input) w).0 ≡ some channel
      → length input + busy (calls.scp_send_ex s path mode (length input) w).1 < fuel
      → ((session_scp_send lib calls fuel path mode input self w).0
          ≡ finished (replied (length input)))
        × (put (session_scp_send lib calls fuel path mode input self w).1
            ≡ put (calls.scp_send_ex s path mode (length input) w).1 ++ (input ++ (0 ∷ [])))
  unfolding session_scp_send
  session_scp_send-put fuel s channel mode path input self w laws live made enough =
      let w1 = (calls.scp_send_ex s path mode (length input) w).1 in
      let (done_, wrote) = scp_write-IsPut fuel channel input w1 laws (omega arith) in
      let w2 = (scp_write lib calls fuel channel input w1).1 in
      let (ended, grown) =
        scp_finish-put fuel channel (length input) w2 laws (omega (arith, wrote.calmer)) in
      simp (session_scp_send, live, made, done_)
        (ended, grown ∙ ap (λ t. t ++ (0 ∷ [])) wrote.grown ∙ append_assoc (put w1) input (0 ∷ []))
