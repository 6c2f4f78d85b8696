-- ===== src/Ssh/Channels/Running.antt =====
-- The output that `exec` of modssh_uc386dos.c collects, on a channel that goes through a script.
use freedos_micro_python.Prelude.{
  ℕ, zero, suc, ◌<◌, ◌≡◌, ◌∙◌, sym, ap, refl, Bool, true, false, ◌&&◌, Bool-cases, inl, inr,
  Option-cases, Option, none, some, List, [], ◌∷◌, ◌++◌, append-nil, append_assoc, Bytes, codes,
  length, arith,
}
use freedos_micro_python.Ssh.{
  Libssh2, Received, received_none, received, receive_failed, replied, Session,
}
use freedos_micro_python.Ssh.Channels.{
  ChannelCalls, Drained, drained, finished, is_closed_code, exec_failure, exec_loop, conclude,
  session_exec,
}

-- What a channel gives to one read: bytes, or nothing yet.
pub data Event : Type 0 where
  piece : ℕ → Bytes → Event
  nothing_yet : Event

abbrev pub output : List Event → Bytes
output [] = []
output (piece c cs ∷ es) = (c ∷ cs) ++ output es
output (nothing_yet ∷ es) = output es

abbrev pub is_over : List Event → Bool
is_over [] = true
is_over (e ∷ es) = false

abbrev pub at_end : Option ℕ → Bool
at_end none = true
at_end (some n) = false

-- The read behind the end.
abbrev pub last_read : Option ℕ → Received
last_read none = received_none
last_read (some n) = receive_failed n

over-empty : (es : List Event) (b : Bool) → (is_over es && b) ≡ true → output es ≡ []
over-empty [] b h = refl
over-empty (e ∷ es) b h = absurd (ground arith)

-- The code behind the end, if there is one, is one that a closed socket gives.
abbrev pub is_expected : {W : Type 0} → Libssh2 W → ChannelCalls W → Option ℕ → Bool
is_expected lib calls none = true
is_expected lib calls (some n) = is_closed_code lib calls n

module _ {W : Type 0} (lib : Libssh2 W) (calls : ChannelCalls W) (script : W → List Event)
    (broken : Option ℕ) where
  -- Reads go through the script. Behind it, the channel is at its end of file, or each read fails with the code of
  -- `broken`.
  pub record IsScripted : Type 0 where
    pub gives_piece :
        (w : W) (channel c : ℕ) (cs : Bytes) (es : List Event)
        → script w ≡ piece c cs ∷ es
        → ((calls.read channel 256 w).0 ≡ received c cs)
          × (script (calls.read channel 256 w).1 ≡ es)
    pub gives_nothing :
        (w : W) (channel : ℕ) (es : List Event)
        → script w ≡ nothing_yet ∷ es
        → ((calls.read channel 256 w).0 ≡ received_none)
          × (script (calls.read channel 256 w).1 ≡ es)
    pub ends :
        (w : W) (channel : ℕ)
        → script w ≡ []
        → ((calls.read channel 256 w).0 ≡ last_read broken)
          × (script (calls.read channel 256 w).1 ≡ [])
    pub eof :
        (w : W) (channel : ℕ)
        → ((calls.eof channel w).0 ≡ (is_over (script w) && at_end broken))
          × (script (calls.eof channel w).1 ≡ script w)

  exec_failure-output :
      (channel n : ℕ) (got : Bytes) (w : W)
      → is_closed_code lib calls n ≡ true
      → (exec_failure lib calls channel got n w).0 ≡ drained got
  unfolding exec_failure
  exec_failure-output channel n (c ∷ cs) w closed = refl
  exec_failure-output channel n [] w closed = elim (Bool-cases (calls.eof channel w).0) [
    | inl e ↦ simp (exec_failure, e) refl
    | inr e ↦ simp (exec_failure, e, closed) refl
  ]

  -- The end of the script.
  over-output :
      (fuel channel : ℕ) (got : Bytes) (w : W)
      → IsScripted
      → script w ≡ []
      → is_expected lib calls broken ≡ true
      → (exec_loop lib calls (suc fuel) channel got w).0 ≡ drained got
  unfolding exec_loop
  over-output fuel channel got w laws e fine =
      let (r, same) = laws.ends w channel e in
      let w1 = (calls.read channel 256 w).1 in
      elim (Option-cases broken) [
        | inl b ↦
            let none_read : (calls.read channel 256 w).0 ≡ received_none = r ∙ ap last_read b in
            let over : (calls.eof channel w1).0 ≡ true =
              (laws.eof w1 channel).0 ∙ ap (λ es. is_over es && at_end broken) same ∙ ap at_end b in
            simp (exec_loop, none_read, over) refl
        | inr (n, b) ↦
            let failed : (calls.read channel 256 w).0 ≡ receive_failed n = r ∙ ap last_read b in
            simp (exec_loop, failed)
              (exec_failure-output channel n got w1 (sym (ap (is_expected lib calls) b) ∙ fine))
      ]

  exec_loop-output :
      (fuel channel : ℕ) (got : Bytes) (es : List Event) (w : W)
      → IsScripted
      → script w ≡ es
      → is_expected lib calls broken ≡ true
      → length es < fuel
      → (exec_loop lib calls fuel channel got w).0 ≡ drained (got ++ output es)
  unfolding exec_loop
  exec_loop-output zero channel got es w laws e fine enough = absurd (omega arith)
  exec_loop-output (suc fuel) channel got [] w laws e fine enough =
      over-output fuel channel got w laws e fine ∙ ap drained (sym (append-nil got))
  exec_loop-output (suc fuel) channel got (piece c cs ∷ es) w laws e fine enough =
      let (r, same) = laws.gives_piece w channel c cs es e in
      simp (exec_loop, r)
        (exec_loop-output fuel channel (got ++ c ∷ cs) es (calls.read channel 256 w).1 laws same
            fine (omega arith)
          ∙ ap drained (append_assoc got (c ∷ cs) (output es)))
  exec_loop-output (suc fuel) channel got (nothing_yet ∷ es) w laws e fine enough =
      let (r, same) = laws.gives_nothing w channel es e in
      let w1 = (calls.read channel 256 w).1 in
      let (over, kept) = laws.eof w1 channel in
      elim (Bool-cases (calls.eof channel w1).0) [
        | inl stop ↦
            simp (exec_loop, r, stop)
              (ap drained (
                sym (append-nil got)
                ∙ ap (λ t. got ++ t)
                    (sym (
                      over-empty es (at_end broken)
                        (ap (λ s. is_over s && at_end broken) (sym same) ∙ sym over ∙ stop)))))
        | inr on ↦
            simp (exec_loop, r, on)
              (exec_loop-output fuel channel got es (calls.eof channel w1).1 laws (kept ∙ same) fine
                (omega arith))
      ]

  conclude-drained :
      (session : Option ℕ) (channel : ℕ) (fallback : Bytes) (trim : Bytes → Bytes) (p : Drained × W)
      (bytes : Bytes)
      → p.0 ≡ drained bytes
      → (conclude lib calls session channel fallback trim p).0 ≡ finished (replied (trim bytes))
  unfolding conclude
  conclude-drained session channel fallback trim (d, w) bytes e = rw e refl

  -- On a session that is open, where the channel is opened and the command is started, and the channel then goes through any
  -- script of pieces and pauses up to its end of file or to a socket that the server has
  -- closed: exec returns all pieces in order, with one round more than the script is long.
  pub session_exec-output :
      (fuel s channel : ℕ) (cmd : Bytes) (self : Session) (es : List Event) (w : W)
      → IsScripted
      → is_expected lib calls broken ≡ true
      → self.handle ≡ some s
      → (calls.open_session s w).0 ≡ some channel
      → (calls.exec channel cmd (calls.open_session s w).1).0 ≡ none
      → script (calls.exec channel cmd (calls.open_session s w).1).1 ≡ es
      → length es < fuel
      → (session_exec lib calls fuel cmd self w).0 ≡ finished (replied (output es))
  unfolding session_exec
  session_exec-output fuel s channel cmd self es w laws fine live opened started scripted enough =
      let w2 = (calls.exec channel cmd (calls.open_session s w).1).1 in
      simp (session_exec, live, opened, started)
        (conclude-drained (some s) channel (codes "channel_read") (λ b. b)
          (exec_loop lib calls fuel channel [] w2) (output es)
          (exec_loop-output fuel channel [] es w2 laws scripted fine enough))
