-- ===== src/Shell/Frames.antt =====
-- The frame handlers and the callbacks of src/shell/remoteshellmanager.cpp, and what can happen to
-- the manager.
use naleystogramm_core.Prelude.{
  ℕ, Bool, false, not, ◌&&◌, ◌||◌, Option, none, some, List, [], ◌∷◌, ◌==◌, leb, length,
  if◌then◌else◌,
}
use naleystogramm_core.Prelude.Text.{Text, codes, is_empty}
use naleystogramm_core.Prelude.Map.{get}
use naleystogramm_core.Prelude.Compare.{same_bytes}
use naleystogramm_core.Shell.{
  receiver, Session, Signal, shell_request, shell_challenge, shell_challenge_response, shell_accept,
  shell_reject, shell_kill, Inner, shell_data, shell_input, challenge_generated, password_required,
  accepted, rejected, session_ended, data_received, input_monitored, Env, Shell, sent, wrote,
  max_concurrent_sessions, emit, notify, set_session, cleanup_session, reset_inactivity_timer,
  is_initiator, send_encrypted, spawn_process, escalation, request_shell, reject_request,
  respond_to_challenge, send_input, kill_session,
}

unfoldable pub on_request : Env → (otp from id : Text) → Shell → Shell
on_request env otp from id s =
    if leb max_concurrent_sessions (length s.sessions)
    then emit (sent from (shell_reject id (codes "busy"))) s
    else notify (challenge_generated id from (env.peer_name from) otp) (
        emit (sent from (shell_challenge id)) (
          set_session id
            (record {
              role = receiver;
              peer_uuid = from;
              peer_name = env.peer_name from;
              otp = otp;
              process = false;
              inactivity_timer = false;
              timer_generation = 0;
            })
            s))

unfoldable pub on_challenge : Option Session → (from id : Text) → Shell → Shell
on_challenge none from id s = s
on_challenge (some d) from id s =
    if is_initiator d.role then notify (password_required id from d.peer_name) s else s

unfoldable pub otp_matches : (entered otp : Text) → Bool
otp_matches entered otp = not (is_empty entered) && not (is_empty otp) && same_bytes entered otp

unfoldable pub on_response :
    (started : Bool) → Option Session → (from id password : Text) → Shell → Shell
on_response started none from id password s = s
on_response started (some d) from id password s =
    if is_initiator d.role
    then s
    else if not (otp_matches password d.otp)
    then cleanup_session id (emit (sent from (shell_reject id (codes "wrong_password"))) s)
    else spawn_process started id
        (emit (sent from (shell_accept id)) (set_session id (record d { otp = [] }) s))

unfoldable pub on_accept : Option Session → (from id : Text) → Shell → Shell
on_accept none from id s = s
on_accept (some d) from id s =
    if is_initiator d.role
    then notify (accepted id from d.peer_name) (reset_inactivity_timer id s)
    else s

unfoldable pub on_reject : Option Session → (id reason : Text) → Shell → Shell
on_reject none id reason s = s
on_reject (some d) id reason s = notify (rejected id reason) (cleanup_session id s)

unfoldable pub on_kill : Option Session → (id reason : Text) → Shell → Shell
on_kill none id reason s = s
on_kill (some d) id reason s = notify (session_ended id reason) (cleanup_session id s)

-- `otp` is what generateOtp gives and `started` what ShellProcess::start returns, where the frame
-- leads there.
unfoldable pub handle_signaling :
    Env → (otp : Text) → (started : Bool) → (from : Text) → Signal → Shell → Shell
unfolding on_request on_challenge on_response on_accept on_reject on_kill
handle_signaling env otp started from (shell_request id) s = on_request env otp from id s
handle_signaling env otp started from (shell_challenge id) s =
    on_challenge (get id s.sessions) from id s
handle_signaling env otp started from (shell_challenge_response id password) s =
    on_response started (get id s.sessions) from id password s
handle_signaling env otp started from (shell_accept id) s = on_accept (get id s.sessions) from id s
handle_signaling env otp started from (shell_reject id reason) s =
    on_reject (get id s.sessions) id reason s
handle_signaling env otp started from (shell_kill id reason) s =
    on_kill (get id s.sessions) id reason s
handle_signaling env otp started from Signal.other s = s

-- What is written to the process: the payload with a newline at its end.
unfoldable pub command : Text → Text
command [] = b'\n' ∷ []
command (c ∷ []) = if c == b'\n' then c ∷ [] else c ∷ b'\n' ∷ []
command (c ∷ d ∷ rest) = c ∷ command (d ∷ rest)

unfoldable pub on_input : Env → Option Session → (from id payload : Text) → Shell → Shell
on_input env none from id payload s = s
on_input env (some d) from id payload s =
    if is_initiator d.role || not d.process
    then s
    else if env.forbidden payload
    then notify (session_ended id escalation)
        (cleanup_session id (emit (sent from (shell_kill id escalation)) s))
    else emit (wrote id (command payload))
        (notify (input_monitored id payload) (reset_inactivity_timer id s))

-- handleDecryptedData, behind the parse of the plaintext.
unfoldable pub handle_decrypted : Env → (from : Text) → Inner → Shell → Shell
unfolding on_input
handle_decrypted env from (shell_data id payload) s =
    notify (data_received id payload) (reset_inactivity_timer id s)
handle_decrypted env from (shell_input id payload) s =
    on_input env (get id s.sessions) from id payload s
handle_decrypted env from Inner.other s = s

unfoldable pub output_of : Env → Option Session → (peer id out : Text) → Shell → Shell
output_of env none peer id out s = s
output_of env (some d) peer id out s =
    send_encrypted env peer (shell_data id out) (reset_inactivity_timer id s)

-- The callback of the process's output; `peer` was captured at the start.
unfoldable pub on_output : Env → (peer id out : Text) → Shell → Shell
unfolding output_of
on_output env peer id out s = output_of env (get id s.sessions) peer id out s

unfoldable pub end_of : Option Session → (peer id reason : Text) → Shell → Shell
end_of none peer id reason s = s
end_of (some d) peer id reason s =
    notify (session_ended id reason)
      (cleanup_session id (emit (sent peer (shell_kill id reason)) s))

-- The callback of the process's exit.
unfoldable pub on_exit : (peer id : Text) → Shell → Shell
unfolding end_of
on_exit peer id s = end_of (get id s.sessions) peer id (codes "process_exited") s

unfoldable pub timeout_of : Option Session → ℕ → Text → Shell → Shell
unfolding end_of
timeout_of none gen id s = s
timeout_of (some d) gen id s =
    if d.timer_generation == gen then end_of (some d) d.peer_uuid id (codes "timeout") s else s

-- The callback of the inactivity timer that was armed with the generation `gen`.
unfoldable pub on_inactivity : ℕ → Text → Shell → Shell
unfolding timeout_of
on_inactivity gen id s = timeout_of (get id s.sessions) gen id s

pub data Event : Type 0 where
  request : (session peer : Text) → Event
  reject kill : (session reason : Text) → Event
  respond : (session password : Text) → Event
  input : (session payload : Text) → Event
  signal : (otp : Text) → (started : Bool) → (from : Text) → Signal → Event
  inner : (from : Text) → Inner → Event
  output : (peer session out : Text) → Event
  exit : (peer session : Text) → Event
  inactive : ℕ → (session : Text) → Event

module _ (env : Env) where
  unfoldable pub step : Event → Shell → Shell
  step (request id peer) s = request_shell env id peer s
  step (reject id reason) s = reject_request id reason s
  step (kill id reason) s = kill_session id reason s
  step (respond id password) s = respond_to_challenge id password s
  step (input id payload) s = send_input env id payload s
  step (signal otp started from sig) s = handle_signaling env otp started from sig s
  step (inner from i) s = handle_decrypted env from i s
  step (output peer id out) s = on_output env peer id out s
  step (exit peer id) s = on_exit peer id s
  step (inactive gen id) s = on_inactivity gen id s

  unfoldable pub run : List Event → Shell → Shell
  run [] s = s
  run (e ∷ es) s = run es (step e s)
