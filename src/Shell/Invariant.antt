-- ===== src/Shell/Invariant.antt =====
-- Every event keeps the sessions of src/shell/remoteshellmanager.cpp valid.
use naleystogramm_core.Prelude.{
  ℕ, ◌≢◌, refl, Bool, false, Option, none, some, List, [], ◌∷◌, length, arith, dec_lt,
}
use naleystogramm_core.Prelude.Text.{Text}
use naleystogramm_core.Prelude.Map.{get}
use naleystogramm_core.Shell.{
  receiver, Session, Signal, shell_request, shell_challenge, shell_challenge_response, shell_accept,
  shell_reject, shell_kill, Inner, shell_data, shell_input, Env, Shell, cleanup_session,
  reset_inactivity_timer, reject_request, respond_to_challenge, send_input, kill_session,
}
use naleystogramm_core.Shell.Frames.{
  on_request, on_challenge, on_accept, on_reject, on_kill, on_input, output_of, end_of, timeout_of,
  handle_signaling, handle_decrypted, on_output, on_exit, on_inactivity, Event, request, reject,
  kill, respond, input, signal, inner, output, exit, inactive, step, run,
}
use naleystogramm_core.Shell.Sessions.{
  IsValid, cleanup-IsValid, reset-IsValid, new-IsValid, request-IsValid, reject_of-IsValid,
  kill_of-IsValid, send_of-IsValid, respond_of-IsValid, response-IsValid, encrypted-IsValid,
}

module _ (env : Env) where
  on_request-IsValid :
      (otp from id : Text) (s : Shell)
      → otp ≢ []
      → IsValid s
      → IsValid (on_request env otp from id s)
  unfolding on_request
  on_request-IsValid otp from id s n v = elim (dec_lt 0 (length s.sessions)) [
    | yes p ↦ ground arith
    | no p ↦ ground (
      arith,
      new-IsValid id
          (record {
            role = receiver;
            peer_uuid = from;
            peer_name = env.peer_name from;
            otp = otp;
            process = false;
            inactivity_timer = false;
            timer_generation = 0;
          })
          s v,
    )
  ]

  on_accept-IsValid :
      (o : Option Session) (from id : Text) (s : Shell)
      → IsValid s
      → IsValid (on_accept o from id s)
  unfolding on_accept
  on_accept-IsValid none from id s v = v
  on_accept-IsValid (some d) from id s v = ground (arith, reset-IsValid id s v)

  on_challenge-IsValid :
      (o : Option Session) (from id : Text) (s : Shell)
      → IsValid s
      → IsValid (on_challenge o from id s)
  unfolding on_challenge
  on_challenge-IsValid none from id s v = v
  on_challenge-IsValid (some d) from id s v = ground arith

  on_reject-IsValid :
      (o : Option Session) (id reason : Text) (s : Shell)
      → IsValid s
      → IsValid (on_reject o id reason s)
  unfolding on_reject cleanup_session
  on_reject-IsValid none id reason s v = v
  on_reject-IsValid (some d) id reason s v = ground (arith, cleanup-IsValid id s v)

  on_kill-IsValid :
      (o : Option Session) (id reason : Text) (s : Shell)
      → IsValid s
      → IsValid (on_kill o id reason s)
  unfolding on_kill cleanup_session
  on_kill-IsValid none id reason s v = v
  on_kill-IsValid (some d) id reason s v = ground (arith, cleanup-IsValid id s v)

  end_of-IsValid :
      (o : Option Session) (peer id reason : Text) (s : Shell)
      → IsValid s
      → IsValid (end_of o peer id reason s)
  unfolding end_of cleanup_session
  end_of-IsValid none peer id reason s v = v
  end_of-IsValid (some d) peer id reason s v = ground (arith, cleanup-IsValid id s v)

  timeout_of-IsValid :
      (o : Option Session) (gen : ℕ) (id : Text) (s : Shell)
      → IsValid s
      → IsValid (timeout_of o gen id s)
  unfolding timeout_of end_of cleanup_session
  timeout_of-IsValid none gen id s v = v
  timeout_of-IsValid (some d) gen id s v = ground (arith, cleanup-IsValid id s v)

  on_input-IsValid :
      (o : Option Session) (from id payload : Text) (s : Shell)
      → IsValid s
      → IsValid (on_input env o from id payload s)
  unfolding on_input cleanup_session
  on_input-IsValid none from id payload s v = v
  on_input-IsValid (some d) from id payload s v =
      ground (arith, cleanup-IsValid id s v, reset-IsValid id s v)

  output_of-IsValid :
      (o : Option Session) (peer id out : Text) (s : Shell)
      → IsValid s
      → IsValid (output_of env o peer id out s)
  unfolding output_of
  output_of-IsValid none peer id out s v = v
  output_of-IsValid (some d) peer id out s v = ground (
    arith,
    reset-IsValid id s v,
    encrypted-IsValid env peer (shell_data id out) (reset_inactivity_timer id s),
  )

  -- generateOtp gives a password that is not empty.
  abbrev pub HasOtp : Event → Type 0
  HasOtp (signal otp started from sig) = otp ≢ []
  HasOtp e = Unit

  abbrev pub AllHaveOtp : List Event → Type 0
  AllHaveOtp [] = Unit
  AllHaveOtp (e ∷ es) = HasOtp e × AllHaveOtp es

  signal-IsValid :
      (otp : Text) (started : Bool) (from : Text) (sig : Signal) (s : Shell)
      → otp ≢ []
      → IsValid s
      → IsValid (handle_signaling env otp started from sig s)
  unfolding handle_signaling
  signal-IsValid otp started from (shell_request id) s n v = on_request-IsValid otp from id s n v
  signal-IsValid otp started from (shell_challenge id) s n v =
      on_challenge-IsValid (get id s.sessions) from id s v
  signal-IsValid otp started from (shell_challenge_response id password) s n v =
      response-IsValid started (get id s.sessions) from id password s v refl
  signal-IsValid otp started from (shell_accept id) s n v =
      on_accept-IsValid (get id s.sessions) from id s v
  signal-IsValid otp started from (shell_reject id reason) s n v =
      on_reject-IsValid (get id s.sessions) id reason s v
  signal-IsValid otp started from (shell_kill id reason) s n v =
      on_kill-IsValid (get id s.sessions) id reason s v
  signal-IsValid otp started from Signal.other s n v = v

  inner-IsValid :
      (from : Text) (i : Inner) (s : Shell) → IsValid s → IsValid (handle_decrypted env from i s)
  unfolding handle_decrypted
  inner-IsValid from (shell_data id payload) s v = ground (arith, reset-IsValid id s v)
  inner-IsValid from (shell_input id payload) s v =
      on_input-IsValid (get id s.sessions) from id payload s v
  inner-IsValid from Inner.other s v = v

  step-IsValid : (e : Event) (s : Shell) → HasOtp e → IsValid s → IsValid (step env e s)
  unfolding step reject_request kill_session respond_to_challenge send_input on_output on_exit
      on_inactivity
  step-IsValid (request id peer) s h v = request-IsValid env id peer s v
  step-IsValid (reject id reason) s h v = reject_of-IsValid (get id s.sessions) id reason s v
  step-IsValid (kill id reason) s h v = kill_of-IsValid (get id s.sessions) id reason s v
  step-IsValid (respond id password) s h v = respond_of-IsValid (get id s.sessions) id password s v
  step-IsValid (input id payload) s h v = send_of-IsValid env (get id s.sessions) id payload s v
  step-IsValid (signal otp started from sig) s h v = signal-IsValid otp started from sig s h v
  step-IsValid (inner from i) s h v = inner-IsValid from i s v
  step-IsValid (output peer id out) s h v = output_of-IsValid (get id s.sessions) peer id out s v
  step-IsValid (exit peer id) s h v = end_of-IsValid (get id s.sessions) peer id _ s v
  step-IsValid (inactive gen id) s h v = timeout_of-IsValid (get id s.sessions) gen id s v

  -- Whatever is called and received, in whatever order, there is at most one session, the session of
  -- an initiator holds no process, timer or password, and the session of a receiver has a process
  -- only after its one-time password was used up.
  pub run-IsSafe :
      (es : List Event) (s : Shell) → AllHaveOtp es → IsValid s → IsValid (run env es s)
  unfolding run
  run-IsSafe [] s h v = v
  run-IsSafe (e ∷ es) s h v = run-IsSafe es (step env e s) h.1 (step-IsValid e s h.0 v)
