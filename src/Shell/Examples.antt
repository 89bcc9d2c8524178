-- ===== src/Shell/Examples.antt =====
-- The remote shell (src/shell/remoteshellmanager.cpp) on concrete input.
use naleystogramm_core.Prelude.{◌≡◌, ◌⊎◌, refl, true, false, none, some, List, [], ◌∷◌, arith}
use naleystogramm_core.Prelude.Text.{Text, codes, text_eq}
use naleystogramm_core.Prelude.Map.{get, put}
use naleystogramm_core.Prelude.Compare.{same_bytes}
use naleystogramm_core.Shell.{
  initiator, receiver, Session, shell_request, shell_challenge_response, shell_input, Env, Shell,
  draw_otp, generate_otp, reset_timer_of, reset_inactivity_timer, spawn_of, spawn_process,
}
use naleystogramm_core.Shell.Frames.{
  on_request, otp_matches, on_response, handle_signaling, Event, signal, inner, step, run,
}
use naleystogramm_core.Shell.Sessions.{IsValid}
use naleystogramm_core.Shell.Invariant.{run-IsSafe}
use naleystogramm_core.Shell.Quiet.{running}
use naleystogramm_core.Shell.Access.{Opens, step-Opens}
use naleystogramm_core.Shell.Input.{AllAllowed, run_allowed}
use naleystogramm_core.Shell.Peers.{one_answer}

-- Two peers with an E2E session; the commands beginning with "s" are forbidden.
abbrev env : Env
env = record {
  has_session = λ peer. true;
  encrypts = λ peer i. true;
  peer_name = λ peer. codes "ann";
  forbidden = λ payload. same_bytes payload (codes "sudo");
}

abbrev idle : Shell
idle = record { sessions = []; trace = [] }

abbrev password : Text
password = codes "ACDEFG"

abbrev bob : Text
bob = codes "bob"

abbrev id : Text
id = codes "7"

abbrev asked : Shell
asked = step env (signal password true bob (shell_request id)) idle

abbrev visit : List Event
visit =
    signal password true bob (shell_request id)
    ∷ signal password true bob (shell_challenge_response id password)
    ∷ inner bob (shell_input id (codes "ls"))
    ∷ inner bob (shell_input id (codes "sudo"))
    ∷ []

drawn : generate_otp (255 ∷ 0 ∷ 1 ∷ 2 ∷ 3 ∷ 33 ∷ 231 ∷ []) ≡ some (codes "ACDEF9")
unfolding generate_otp draw_otp
drawn = refl

run-IsSafe_example : IsValid (run env visit idle)
run-IsSafe_example =
    run-IsSafe env visit idle ((cc), ((cc), (tt, (tt, tt))))
      (record { one = omega arith; sound = tt })

run_allowed_example : AllAllowed env (run env visit idle).trace
run_allowed_example = run_allowed env visit idle tt

opened :
    running id (step env (signal password true bob (shell_challenge_response id password)) asked)
    ≡ true
unfolding step handle_signaling on_request on_response otp_matches same_bytes get put reset_timer_of
    reset_inactivity_timer spawn_of spawn_process text_eq
opened = refl

step-Opens_example :
    (running id asked ≡ true)
    ⊎ Opens id (signal password true bob (shell_challenge_response id password)) asked
step-Opens_example =
    step-Opens env (signal password true bob (shell_challenge_response id password)) asked id opened

abbrev waiting : Session
waiting = record {
  role = receiver;
  peer_uuid = bob;
  peer_name = codes "ann";
  otp = password;
  process = false;
  inactivity_timer = false;
  timer_generation = 0;
}

one_answer_example :
    get id
      (handle_signaling env [] true bob (shell_challenge_response id password) (
        handle_signaling env [] true bob
          (shell_challenge_response id (codes "guess"))
          (record { sessions = (id, waiting) ∷ []; trace = [] }))).sessions
    ≡ none
unfolding get text_eq
one_answer_example =
    one_answer env [] [] true true bob bob id (codes "guess") password waiting
      (record { sessions = (id, waiting) ∷ []; trace = [] }) refl refl

abbrev asking : Shell
asking = record { sessions = (id, record waiting { role = initiator; otp = [] }) ∷ []; trace = [] }
