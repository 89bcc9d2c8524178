-- ===== src/Shell/Input.antt =====
-- What src/shell/remoteshellmanager.cpp writes to a process, and what it sends as input.
use naleystogramm_core.Prelude.{
  ℕ, ◌≡◌, ◌||◌, not, Bool-cases, inl, inr, refl, Bool, true, false, Option, none, some, List, [],
  ◌∷◌, arith,
}
use naleystogramm_core.Prelude.Text.{Text}
use naleystogramm_core.Prelude.Map.{get}
use naleystogramm_core.Shell.{
  Session, Signal, shell_request, shell_challenge, shell_challenge_response, shell_accept,
  shell_reject, shell_kill, Effect, sent, sent_encrypted, wrote, Inner, shell_data, shell_input,
  Env, Shell, cleanup_session, reset_timer_of, reset_inactivity_timer, send_encrypted,
  request_shell, reject_request_of, reject_request, respond_of, respond_to_challenge, send_input_of,
  send_input, kill_of, kill_session, spawn_of, spawn_process, is_initiator, escalation, emit,
  set_session,
}
use naleystogramm_core.Shell.Frames.{
  command, on_request, on_challenge, on_response, on_accept, on_reject, on_kill, on_input,
  output_of, end_of, timeout_of, handle_signaling, handle_decrypted, on_output, on_exit,
  on_inactivity, Event, request, reject, kill, respond, input, signal, inner, output, exit,
  inactive, step, run,
}

module _ (env : Env) where
  -- What is written is the line of an input that is not forbidden, and so is what is sent.
  abbrev pub IsAllowed : Effect → Type 0
  IsAllowed (wrote id line) =
      (payload : Text) × (line ≡ command payload) × (env.forbidden payload ≡ false)
  IsAllowed (sent_encrypted peer (shell_input id payload)) = env.forbidden payload ≡ false
  IsAllowed e = Unit

  abbrev pub AllAllowed : List Effect → Type 0
  AllAllowed [] = Unit
  AllAllowed (e ∷ es) = IsAllowed e × AllAllowed es

  reset_of-trace :
      (o : Option Session) (id : Text) (s : Shell) → (reset_timer_of o id s).trace ≡ s.trace
  unfolding reset_timer_of
  reset_of-trace none id s = refl
  reset_of-trace (some d) id s = ground arith

  reset-trace : (id : Text) (s : Shell) → (reset_inactivity_timer id s).trace ≡ s.trace
  unfolding reset_inactivity_timer
  reset-trace id s = reset_of-trace (get id s.sessions) id s

  abbrev Clean : Shell → Type 0
  Clean s = AllAllowed s.trace

  encrypted-Clean :
      (peer : Text) (i : Inner) (s : Shell)
      → IsAllowed (sent_encrypted peer i)
      → Clean s
      → Clean (send_encrypted env peer i s)
  unfolding send_encrypted
  encrypted-Clean peer i s a v = ground arith

  request-Clean : (id peer : Text) (s : Shell) → Clean s → Clean (request_shell env id peer s)
  unfolding request_shell
  request-Clean id peer s v = ground arith

  reject_of-Clean :
      (o : Option Session) (id reason : Text) (s : Shell)
      → Clean s
      → Clean (reject_request_of o id reason s)
  unfolding reject_request_of cleanup_session
  reject_of-Clean none id reason s v = v
  reject_of-Clean (some d) id reason s v = (tt, v)

  kill_of-Clean :
      (o : Option Session) (id reason : Text) (s : Shell) → Clean s → Clean (kill_of o id reason s)
  unfolding kill_of cleanup_session
  kill_of-Clean none id reason s v = v
  kill_of-Clean (some d) id reason s v = (tt, (tt, v))

  respond_of-Clean :
      (o : Option Session) (id password : Text) (s : Shell)
      → Clean s
      → Clean (respond_of o id password s)
  unfolding respond_of
  respond_of-Clean none id password s v = v
  respond_of-Clean (some d) id password s v = ground arith

  input_of-Clean :
      (o : Option Session) (id payload : Text) (s : Shell)
      → Clean s
      → Clean (send_input_of env o id payload s)
  unfolding send_input_of kill_session
  input_of-Clean none id payload s v = v
  input_of-Clean (some d) id payload s v = ground (
    arith,
    kill_of-Clean (get id s.sessions) id escalation s v,
    encrypted-Clean d.peer_uuid (shell_input id payload) (reset_inactivity_timer id s),
    reset-trace id s,
  )

  on_request-Clean :
      (otp from id : Text) (s : Shell) → Clean s → Clean (on_request env otp from id s)
  unfolding on_request
  on_request-Clean otp from id s v = ground arith

  on_challenge-Clean :
      (o : Option Session) (from id : Text) (s : Shell) → Clean s → Clean (on_challenge o from id s)
  unfolding on_challenge
  on_challenge-Clean none from id s v = v
  on_challenge-Clean (some d) from id s v = ground arith

  on_accept-Clean :
      (o : Option Session) (from id : Text) (s : Shell) → Clean s → Clean (on_accept o from id s)
  unfolding on_accept
  on_accept-Clean none from id s v = v
  on_accept-Clean (some d) from id s v = ground (arith, reset-trace id s)

  on_reject-Clean :
      (o : Option Session) (id reason : Text) (s : Shell)
      → Clean s
      → Clean (on_reject o id reason s)
  unfolding on_reject cleanup_session
  on_reject-Clean none id reason s v = v
  on_reject-Clean (some d) id reason s v = (tt, v)

  on_kill-Clean :
      (o : Option Session) (id reason : Text) (s : Shell) → Clean s → Clean (on_kill o id reason s)
  unfolding on_kill cleanup_session
  on_kill-Clean none id reason s v = v
  on_kill-Clean (some d) id reason s v = (tt, v)

  spawn_of-Clean :
      (started : Bool) (o : Option Session) (id : Text) (s : Shell)
      → Clean s
      → Clean (spawn_of started o id s)
  unfolding spawn_of
  spawn_of-Clean started none id s v = v
  spawn_of-Clean true (some d) id s v = (tt, rw (reset-trace id (record s { sessions = _ })) v)
  spawn_of-Clean false (some d) id s v = (tt, (tt, v))

  on_response-Clean :
      (started : Bool) (o : Option Session) (from id password : Text) (s : Shell)
      → Clean s
      → Clean (on_response started o from id password s)
  unfolding on_response spawn_process cleanup_session
  on_response-Clean started none from id password s v = v
  on_response-Clean started (some d) from id password s v =
      let s' = emit (sent from (shell_accept id)) (set_session id (record d { otp = [] }) s) in
      ground (arith, spawn_of-Clean started (get id s'.sessions) id s' (tt, v))

  on_input-Clean :
      (o : Option Session) (from id payload : Text) (s : Shell)
      → Clean s
      → Clean (on_input env o from id payload s)
  unfolding on_input cleanup_session
  on_input-Clean none from id payload s v = v
  on_input-Clean (some d) from id payload s v =
      elim (Bool-cases (is_initiator d.role || not d.process)) [
        | inl no_process ↦ rw no_process v
        | inr runs ↦ elim (Bool-cases (env.forbidden payload)) [
          | inl bad ↦ rw (runs, bad) (tt, (tt, v))
          | inr good ↦ rw (runs, good, reset-trace id s) ((payload, refl, good), (tt, v))
        ]
      ]

  output_of-Clean :
      (o : Option Session) (peer id out : Text) (s : Shell)
      → Clean s
      → Clean (output_of env o peer id out s)
  unfolding output_of
  output_of-Clean none peer id out s v = v
  output_of-Clean (some d) peer id out s v =
      encrypted-Clean peer (shell_data id out) (reset_inactivity_timer id s) tt
        (rw (reset-trace id s) v)

  end_of-Clean :
      (o : Option Session) (peer id reason : Text) (s : Shell)
      → Clean s
      → Clean (end_of o peer id reason s)
  unfolding end_of cleanup_session
  end_of-Clean none peer id reason s v = v
  end_of-Clean (some d) peer id reason s v = (tt, (tt, v))

  timeout_of-Clean :
      (o : Option Session) (gen : ℕ) (id : Text) (s : Shell)
      → Clean s
      → Clean (timeout_of o gen id s)
  unfolding timeout_of end_of cleanup_session
  timeout_of-Clean none gen id s v = v
  timeout_of-Clean (some d) gen id s v = ground arith

  signal-Clean :
      (otp : Text) (started : Bool) (from : Text) (sig : Signal) (s : Shell)
      → Clean s
      → Clean (handle_signaling env otp started from sig s)
  unfolding handle_signaling
  signal-Clean otp started from (shell_request id) s v = on_request-Clean otp from id s v
  signal-Clean otp started from (shell_challenge id) s v =
      on_challenge-Clean (get id s.sessions) from id s v
  signal-Clean otp started from (shell_challenge_response id password) s v =
      on_response-Clean started (get id s.sessions) from id password s v
  signal-Clean otp started from (shell_accept id) s v =
      on_accept-Clean (get id s.sessions) from id s v
  signal-Clean otp started from (shell_reject id reason) s v =
      on_reject-Clean (get id s.sessions) id reason s v
  signal-Clean otp started from (shell_kill id reason) s v =
      on_kill-Clean (get id s.sessions) id reason s v
  signal-Clean otp started from Signal.other s v = v

  inner-Clean :
      (from : Text) (i : Inner) (s : Shell) → Clean s → Clean (handle_decrypted env from i s)
  unfolding handle_decrypted
  inner-Clean from (shell_data id payload) s v = (tt, rw (reset-trace id s) v)
  inner-Clean from (shell_input id payload) s v =
      on_input-Clean (get id s.sessions) from id payload s v
  inner-Clean from Inner.other s v = v

  step-Clean : (e : Event) (s : Shell) → Clean s → Clean (step env e s)
  unfolding step reject_request kill_session respond_to_challenge send_input on_output on_exit
      on_inactivity
  step-Clean (request id peer) s v = request-Clean id peer s v
  step-Clean (reject id reason) s v = reject_of-Clean (get id s.sessions) id reason s v
  step-Clean (kill id reason) s v = kill_of-Clean (get id s.sessions) id reason s v
  step-Clean (respond id password) s v = respond_of-Clean (get id s.sessions) id password s v
  step-Clean (input id payload) s v = input_of-Clean (get id s.sessions) id payload s v
  step-Clean (signal otp started from sig) s v = signal-Clean otp started from sig s v
  step-Clean (inner from i) s v = inner-Clean from i s v
  step-Clean (output peer id out) s v = output_of-Clean (get id s.sessions) peer id out s v
  step-Clean (exit peer id) s v = end_of-Clean (get id s.sessions) peer id _ s v
  step-Clean (inactive gen id) s v = timeout_of-Clean (get id s.sessions) gen id s v

  -- Whatever is called and received: each line that is written to a process is an input without a
  -- forbidden pattern, with a newline at its end, and no input with one is sent either.
  pub run_allowed :
      (es : List Event) (s : Shell) → AllAllowed s.trace → AllAllowed (run env es s).trace
  unfolding run
  run_allowed [] s v = v
  run_allowed (e ∷ es) s v = run_allowed es (step env e s) (step-Clean e s v)
