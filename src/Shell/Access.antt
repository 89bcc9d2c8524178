-- ===== src/Shell/Access.antt =====
-- Who gets at the process of src/shell/remoteshellmanager.cpp: the session of a receiver has a
-- process only by its password.
use naleystogramm_core.Prelude.{
  ◌≡◌, ◌≢◌, ◌⊎◌, inl, inr, refl, sym, ap, ◌∙◌, Bool, true, false, Option, none, some, [], arith,
  Bool-cases,
}
use naleystogramm_core.Prelude.Text.{Text, text_eq, text_eq_iff}
use naleystogramm_core.Prelude.Map.{get-put_self, get, get-erase, get-put}
use naleystogramm_core.Prelude.Compare.{same_bytes_iff}
use naleystogramm_core.Shell.{
  receiver, Session, Signal, shell_request, shell_challenge, shell_challenge_response, shell_accept,
  shell_reject, shell_kill, Inner, shell_data, shell_input, Env, Shell, cleanup_session,
  reject_request, respond_to_challenge, send_input, kill_session, spawn_of, spawn_process,
  is_initiator, set_session, sent, emit,
}
use naleystogramm_core.Shell.Frames.{
  on_response, otp_matches, handle_signaling, handle_decrypted, on_output, on_exit, on_inactivity,
  Event, request, reject, kill, respond, input, signal, inner, output, exit, inactive, step,
}
use naleystogramm_core.Shell.Quiet.{
  running, Quiet, runs-erase, reset-Quiet, kill_of-Quiet, request-Quiet, on_request-Quiet,
  on_input-Quiet, send_of-Quiet, output_of-Quiet, end_of-Quiet, timeout_of-Quiet, accept-Quiet,
  challenge-Quiet, reject-Quiet, kill-Quiet, reject_of-Quiet, respond_of-Quiet,
}

-- The frame that opens the session `id`: the answer to its challenge, with its password.
abbrev pub Opens : Text → Event → Shell → Type 0
Opens id (signal otp started from (shell_challenge_response j password)) s =
    (d : Session) × (get id s.sessions ≡ some d)
    × (d.role ≡ receiver)
    × (password ≡ d.otp)
    × (password ≢ [])
    × (started ≡ true)
    × (j ≡ id)
Opens id e s = ⊥

otp_matches_sound :
    (entered otp : Text) → otp_matches entered otp ≡ true → (entered ≡ otp) × (entered ≢ [])
unfolding otp_matches
otp_matches_sound entered otp h = ground (arith, same_bytes_iff entered otp)

spawn_opens :
    (started : Bool) (d : Session) (j : Text) (s : Shell) (id : Text)
    → running id (spawn_of started (some d) j s) ≡ true
    → ((running id s ≡ true) × (j ≢ id)) ⊎ ((started ≡ true) × (j ≡ id))
unfolding spawn_of
spawn_opens true d j s id h = elim (Bool-cases (text_eq j id)) [
  | inl same ↦ ground (arith, text_eq_iff j id)
  | inr differ ↦
      let d' = record d { process = true; inactivity_timer = true } in
      ground
        (arith, text_eq_iff j id, reset-Quiet j (set_session j d' s) id, get-put j id d' s.sessions)
]
spawn_opens false d j s id h = ground (arith, text_eq_iff j id, get-erase j id s.sessions)

abbrev pub unlocked : Session → (from session : Text) → Shell → Shell
unlocked d from j s = emit (sent from (shell_accept j)) (set_session j (record d { otp = [] }) s)

pub response_right :
    (started : Bool) (d : Session) (from j password : Text) (s : Shell)
    → is_initiator d.role ≡ false
    → otp_matches password d.otp ≡ true
    → on_response started (some d) from j password s
      ≡ spawn_of started (some (record d { otp = [] })) j (unlocked d from j s)
unfolding on_response spawn_process
response_right started d from j password s r right =
    rw (r, right, get-put_self j (record d { otp = [] }) s.sessions) refl

-- A session that the answer `password` to the challenge of `j` leaves running.
response_opens :
    (started : Bool) (o : Option Session) (from j password : Text) (s : Shell) (id : Text)
    → get j s.sessions ≡ o
    → running id (on_response started o from j password s) ≡ true
    → (running id s ≡ true)
      ⊎ ((d : Session) × (get id s.sessions ≡ some d)
          × (d.role ≡ receiver)
          × (password ≡ d.otp)
          × (password ≢ [])
          × (started ≡ true)
          × (j ≡ id))
unfolding on_response cleanup_session spawn_process
response_opens started none from j password s id e h = inl h
response_opens started (some d) from j password s id e h = elim (Bool-cases (is_initiator d.role)) [
  | inl i ↦ inl (ground arith)
  | inr r ↦ elim (Bool-cases (otp_matches password d.otp)) [
    | inr wrong ↦ inl (runs-erase id j s.sessions (ground arith))
    | inl right ↦
        let k =
          spawn_opens started (record d { otp = [] }) j (unlocked d from j s) id
            (sym (ap (running id) (response_right started d from j password s r right)) ∙ h) in
        ground (
          arith,
          k,
          otp_matches_sound password d.otp right,
          get-put j id (record d { otp = [] }) s.sessions,
          text_eq_iff j id,
        )
  ]
]

module _ (env : Env) where
  signal-Opens :
      (otp : Text) (started : Bool) (from : Text) (sig : Signal) (s : Shell) (id : Text)
      → running id (handle_signaling env otp started from sig s) ≡ true
      → (running id s ≡ true) ⊎ Opens id (signal otp started from sig) s
  unfolding handle_signaling
  signal-Opens otp started from (shell_request j) s id h =
      inl (on_request-Quiet env otp from j s id h)
  signal-Opens otp started from (shell_challenge j) s id h =
      inl (challenge-Quiet env (get j s.sessions) from j s id h)
  signal-Opens otp started from (shell_challenge_response j password) s id h =
      response_opens started (get j s.sessions) from j password s id refl h
  signal-Opens otp started from (shell_accept j) s id h =
      inl (accept-Quiet env (get j s.sessions) from j s id h)
  signal-Opens otp started from (shell_reject j reason) s id h =
      inl (reject-Quiet env (get j s.sessions) j reason s id h)
  signal-Opens otp started from (shell_kill j reason) s id h =
      inl (kill-Quiet env (get j s.sessions) j reason s id h)
  signal-Opens otp started from Signal.other s id h = inl h

  inner-Quiet : (from : Text) (i : Inner) (s : Shell) → Quiet (handle_decrypted env from i s) s
  unfolding handle_decrypted
  inner-Quiet from (shell_data j payload) s id h = reset-Quiet j s id h
  inner-Quiet from (shell_input j payload) s id h =
      on_input-Quiet env (get j s.sessions) from j payload s id h
  inner-Quiet from Inner.other s id h = h

  -- A step after which the session `id` has a process, where it had none, handles a
  -- SHELL_CHALLENGE_RESPONSE to that receiver's session whose password is its one-time password, and
  -- not empty.
  pub step-Opens :
      (e : Event) (s : Shell) (id : Text)
      → running id (step env e s) ≡ true
      → (running id s ≡ true) ⊎ Opens id e s
  unfolding step reject_request kill_session respond_to_challenge send_input on_output on_exit
      on_inactivity
  step-Opens (request j peer) s id h = inl (request-Quiet env j peer s id h)
  step-Opens (reject j reason) s id h = inl (reject_of-Quiet env (get j s.sessions) j reason s id h)
  step-Opens (kill j reason) s id h = inl (kill_of-Quiet (get j s.sessions) j reason s id h)
  step-Opens (respond j password) s id h =
      inl (respond_of-Quiet env (get j s.sessions) j password s id h)
  step-Opens (input j payload) s id h = inl (send_of-Quiet env (get j s.sessions) j payload s id h)
  step-Opens (signal otp started from sig) s id h = signal-Opens otp started from sig s id h
  step-Opens (inner from i) s id h = inl (inner-Quiet from i s id h)
  step-Opens (output peer j out) s id h =
      inl (output_of-Quiet env (get j s.sessions) peer j out s id h)
  step-Opens (exit peer j) s id h = inl (end_of-Quiet env (get j s.sessions) peer j _ s id h)
  step-Opens (inactive gen j) s id h = inl (timeout_of-Quiet env (get j s.sessions) gen j s id h)
