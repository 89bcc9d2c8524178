-- ===== src/Shell.antt =====
-- src/shell/remoteshellmanager.cpp and include/naleystogramm-core/shell/remoteshellmanager.h: the
-- sessions of the remote shell. Every public method, the two frame handlers, and the callbacks of
-- the process and of the inactivity timer are functions from the manager's state to its next state.
--   A frame is a `Signal`, and the decrypted inner frame of SHELL_DATA and SHELL_INPUT an `Inner`,
-- each with the fields that the handler reads. Of a running ShellProcess and of an armed timer a
-- session records that they are there. `Env` is what comes from elsewhere: E2E sessions, whether an
-- encryption gives a frame, the names of peers, and hasForbiddenPattern, whose regular expressions
-- are not modelled. `trace` records, newest first, frames sent, input written to the process, and
-- callbacks fired; log lines are left out.
pub mod Frames
pub mod Otp
pub mod Sessions
pub mod Invariant
pub mod Quiet
pub mod Access
pub mod Input
pub mod Peers
mod Examples
use mathlib.Core.Option
use naleystogramm_core.Prelude.{
  ℕ, zero, suc, ◌+◌, ◌-◌, ◌%◌, String, Bool, true, false, not, ◌&&◌, ◌||◌, Option, none, some, List,
  [], ◌∷◌, ◌++◌, ◌==◌, leb, ltb, length, get_or, if◌then◌else◌,
}
use naleystogramm_core.Prelude.Text.{Text, codes, text_eq, is_empty}
use naleystogramm_core.Prelude.Map.{Map, get, put, erase, is_some}
use naleystogramm_core.Prelude.Compare.{same_bytes}

pub data Role : Type 0 where
  initiator receiver : Role

pub record Session : Type 0 where
  pub role : Role
  pub peer_uuid : Text
  pub peer_name : Text
  pub otp : Text
  pub process : Bool
  pub inactivity_timer : Bool
  pub timer_generation : ℕ

pub data Signal : Type 0 where
  shell_request shell_challenge shell_accept : (session : Text) → Signal
  shell_challenge_response : (session password : Text) → Signal
  shell_reject shell_kill : (session reason : Text) → Signal
  other : Signal

pub data Inner : Type 0 where
  shell_data shell_input : (session payload : Text) → Inner
  other : Inner

pub data Notice : Type 0 where
  challenge_generated : (session peer name otp : Text) → Notice
  password_required accepted : (session peer name : Text) → Notice
  session_started privilege_escalation_detected : (session : Text) → Notice
  rejected session_ended : (session reason : Text) → Notice
  data_received input_monitored : (session payload : Text) → Notice

pub data Effect : Type 0 where
  sent : (peer : Text) → Signal → Effect
  sent_encrypted : (peer : Text) → Inner → Effect
  wrote : (session input : Text) → Effect
  fired : Notice → Effect

pub record Env : Type 0 where
  pub has_session : Text → Bool
  pub encrypts : Text → Inner → Bool
  pub peer_name : Text → Text
  pub forbidden : Text → Bool

pub record Shell : Type 0 where
  pub sessions : Map Session
  pub trace : List Effect

abbrev pub max_concurrent_sessions : ℕ
max_concurrent_sessions = 1

abbrev pub otp_length : ℕ
otp_length = 6

abbrev pub otp_chars : Text
otp_chars = codes "ACDEFGHJKLMNPQRTUVWXYZ2346789"

-- The loop of generateOtp over the bytes that RAND_bytes gives, with n characters to go; `none`
-- when they run out, which RAND_bytes never does.
unfoldable pub draw_otp : ℕ → List ℕ → Option Text
draw_otp zero bytes = some []
draw_otp (suc n) [] = none
draw_otp (suc n) (b ∷ bytes) =
    let skip = draw_otp (suc n) bytes in
    let take =
      Option.map (λ otp. get_or otp_chars (b % length otp_chars) 0 ∷ otp) (draw_otp n bytes) in
    if ltb b (256 - 256 % length otp_chars) then take else skip

unfoldable pub generate_otp : List ℕ → Option Text
unfolding draw_otp
generate_otp bytes = draw_otp otp_length bytes

abbrev pub emit : Effect → Shell → Shell
emit e s = record s { trace = e ∷ s.trace }

abbrev pub notify : Notice → Shell → Shell
notify n s = emit (fired n) s

abbrev pub set_session : Text → Session → Shell → Shell
set_session id d s = record s { sessions = put id d s.sessions }

unfoldable pub cleanup_session : Text → Shell → Shell
cleanup_session id s = record s { sessions = erase id s.sessions }

unfoldable pub reset_timer_of : Option Session → Text → Shell → Shell
reset_timer_of none id s = s
reset_timer_of (some d) id s =
    if d.inactivity_timer
    then set_session id (record d { timer_generation = d.timer_generation + 1 }) s
    else s

unfoldable pub reset_inactivity_timer : Text → Shell → Shell
unfolding reset_timer_of
reset_inactivity_timer id s = reset_timer_of (get id s.sessions) id s

-- emplace, at a key that is not there.
unfoldable pub request_shell : Env → (session peer : Text) → Shell → Shell
request_shell env id peer s =
    if leb max_concurrent_sessions (length s.sessions)
    then notify (rejected [] (codes "max_sessions")) s
    else emit (sent peer (shell_request id)) (
        set_session id
          (record {
            role = initiator;
            peer_uuid = peer;
            peer_name = env.peer_name peer;
            otp = [];
            process = false;
            inactivity_timer = false;
            timer_generation = 0;
          })
          s)

unfoldable pub reject_request_of : Option Session → (session reason : Text) → Shell → Shell
reject_request_of none id reason s = s
reject_request_of (some d) id reason s =
    cleanup_session id (emit (sent d.peer_uuid (shell_reject id reason)) s)

unfoldable pub reject_request : (session reason : Text) → Shell → Shell
unfolding reject_request_of
reject_request id reason s = reject_request_of (get id s.sessions) id reason s

abbrev pub is_initiator : Role → Bool
is_initiator initiator = true
is_initiator receiver = false

unfoldable pub respond_of : Option Session → (session password : Text) → Shell → Shell
respond_of none id password s = s
respond_of (some d) id password s =
    if is_initiator d.role
    then emit (sent d.peer_uuid (shell_challenge_response id password)) s
    else s

unfoldable pub respond_to_challenge : (session password : Text) → Shell → Shell
unfolding respond_of
respond_to_challenge id password s = respond_of (get id s.sessions) id password s

unfoldable pub send_encrypted : Env → (peer : Text) → Inner → Shell → Shell
send_encrypted env peer inner s =
    if not (env.has_session peer)
    then s
    else if env.encrypts peer inner
    then emit (sent_encrypted peer inner) s
    else s

unfoldable pub kill_of : Option Session → (session reason : Text) → Shell → Shell
kill_of none id reason s = s
kill_of (some d) id reason s =
    notify (session_ended id reason)
      (cleanup_session id (emit (sent d.peer_uuid (shell_kill id reason)) s))

unfoldable pub kill_session : (session reason : Text) → Shell → Shell
unfolding kill_of
kill_session id reason s = kill_of (get id s.sessions) id reason s

abbrev pub escalation : Text
escalation = codes "privilege_escalation"

unfoldable pub send_input_of : Env → Option Session → (session payload : Text) → Shell → Shell
unfolding kill_session
send_input_of env none id payload s = s
send_input_of env (some d) id payload s =
    if not (is_initiator d.role)
    then s
    else if env.forbidden payload
    then notify (privilege_escalation_detected id) (kill_session id escalation s)
    else send_encrypted env d.peer_uuid (shell_input id payload) (reset_inactivity_timer id s)

unfoldable pub send_input : Env → (session payload : Text) → Shell → Shell
unfolding send_input_of
send_input env id payload s = send_input_of env (get id s.sessions) id payload s

-- spawnProcess; `started` is what ShellProcess::start returned.
unfoldable pub spawn_of : (started : Bool) → Option Session → Text → Shell → Shell
spawn_of started none id s = s
spawn_of true (some d) id s = notify (session_started id) (
    reset_inactivity_timer id
      (set_session id (record d { process = true; inactivity_timer = true }) s))
spawn_of false (some d) id s =
    notify (session_ended id (codes "spawn_failed"))
      (record (emit (sent d.peer_uuid (shell_kill id (codes "spawn_failed"))) s) {
        sessions = erase id s.sessions;
      })

unfoldable pub spawn_process : (started : Bool) → Text → Shell → Shell
unfolding spawn_of
spawn_process started id s = spawn_of started (get id s.sessions) id s
