-- ===== src/Calls.antt =====
-- src/calls/callmanager.cpp and include/naleystogramm-core/calls/callmanager.h: the signalling of
-- voice calls. The manager's state, and what a call of it does on the state alone; Calls/Methods has
-- the other methods and the signalling handler, Calls/Events any sequence of them.
--   A frame of the wire is a `Signal` with the fields that handleSignaling reads (a port is a natural
-- number there, cast to uint16_t as in the source). What the program takes from elsewhere is the
-- record `Env`: the E2E sessions, the network manager's view of a peer, hexadecimal coding, the
-- session settings, and the platform's IMediaEngine over a state of its own.
--   `trace` records, newest first, the frames given to NetworkManager::sendFrame and the callbacks
-- fired; a callback does not call back into the manager. `generation` is an int of the source and
-- does not overflow here. A timer callback is an event of its own that carries the generation that
-- it captured, so it may also come after it was cancelled, as asio permits.
pub mod Methods
pub mod Events
pub mod Shape
pub mod Diagram
pub mod Agreement
mod Examples
use naleystogramm_core.Prelude.{
  ℕ, ◌+◌, ◌%◌, ◌^◌, String, Bool, true, false, not, ◌&&◌, ◌||◌, Option, none, some, List, [], ◌∷◌,
  ◌==◌, if◌then◌else◌, replicate,
}
use naleystogramm_core.Prelude.Text.{Text, codes, text_eq, is_empty}

pub data CallState : Type 0 where
  idle calling ringing in_call ended : CallState

-- The values of the enum.
abbrev pub rank : CallState → ℕ
rank idle = 0
rank calling = 1
rank ringing = 2
rank in_call = 3
rank ended = 4

abbrev pub is : CallState → CallState → Bool
is a b = rank a == rank b

pub data Signal : Type 0 where
  call_invite : (call_id : Text) → (udp_port : ℕ) → (media_key_salt : Text) → Signal
  call_accept : (call_id : Text) → (udp_port : ℕ) → Signal
  call_reject : (call_id : Text) → (reason : Text) → Signal
  call_end : (call_id : Text) → Signal
  other : Signal

pub data Notice : Type 0 where
  incoming_call : (from name call_id : Text) → Notice
  accepted rejected_by_timeout call_over : (peer : Text) → Notice
  rejected : (peer reason : Text) → Notice
  call_error : String → Notice
  state_changed : CallState → Notice

pub data Effect : Type 0 where
  sent : (peer : Text) → Signal → Effect
  fired : Notice → Effect

pub record Env (M : Type 0) : Type 0 where
  pub has_session : Text → Bool
  pub snapshot_media_key : Text → Text → Text → Text
  pub to_hex : Text → Text
  pub from_hex : Text → Text
  pub peer_ip : Text → Text
  pub peer_name : Text → Text
  pub client_server : Bool
  pub relay_ip : Text
  pub relay_udp_port : ℕ
  pub own_uuid : Text
  pub start_call : M → Text → ℕ → Text → M × Bool
  pub end_call : M → M
  pub is_in_call : M → Bool
  pub local_udp_port : M → ℕ
  pub enable_udp_relay : M → Text → ℕ → Text → Text → M

pub record Calls (M : Type 0) : Type 0 where
  pub state : CallState
  pub call_id : Text
  pub peer_uuid : Text
  pub peer_ip : Text
  pub pending_caller_udp_port : ℕ
  pub pending_media_salt : Text
  pub generation : ℕ
  -- The generation that the armed timer captured.
  pub call_timeout : Option ℕ
  pub ended_timer : Option ℕ
  pub media : Option M
  pub trace : List Effect

abbrev pub uint16 : ℕ → ℕ
uint16 n = n % 2 ^ 16

module _ {M : Type 0} where
  abbrev pub emit : Effect → Calls M → Calls M
  emit e s = record s { trace = e ∷ s.trace }

  pub fail : String → Calls M → Calls M
  fail msg s = emit (fired (call_error msg)) s

  pub set_state : CallState → Calls M → Calls M
  set_state c s =
      if is s.state c then s else emit (fired (state_changed c)) (record s { state = c })

  pub cancel_timers : Calls M → Calls M
  cancel_timers s = record s {
    generation = s.generation + 1;
    call_timeout = none;
    ended_timer = none;
  }

  pub reset_state : Calls M → Calls M
  unfolding cancel_timers
  reset_state s = emit (fired (state_changed idle)) (record (cancel_timers s) {
    call_id = [];
    peer_uuid = [];
    peer_ip = [];
    pending_caller_udp_port = 0;
    pending_media_salt = [];
    state = idle;
  })

  -- The callback of the 30 s timer.
  pub on_call_timeout : ℕ → Calls M → Calls M
  unfolding reset_state
  on_call_timeout gen s =
      if gen == s.generation
      then emit (fired (rejected_by_timeout s.peer_uuid)) (reset_state s)
      else s

  -- The callback of the 1 s timer.
  pub on_ended : ℕ → Calls M → Calls M
  unfolding reset_state
  on_ended gen s = if gen == s.generation then reset_state s else s

  pub reject_call : Text → (reason : Text) → Calls M → Calls M
  unfolding reset_state
  reject_call id reason s =
      if not (is s.state ringing) || not (text_eq s.call_id id)
      then s
      else reset_state (emit (sent s.peer_uuid (call_reject id reason)) s)

  -- setMediaEngine; the error callback that it installs is the engine's affair.
  pub set_media_engine : Option M → Calls M → Calls M
  set_media_engine m s = record s { media = m }

  abbrev pub arm_ended : Calls M → Calls M
  arm_ended s = record s { ended_timer = some s.generation }

abbrev pub fresh : {M : Type 0} → Option M → Calls M
fresh m = record {
  state = idle;
  call_id = [];
  peer_uuid = [];
  peer_ip = [];
  pending_caller_udp_port = 0;
  pending_media_salt = [];
  generation = 0;
  call_timeout = none;
  ended_timer = none;
  media = m;
  trace = [];
}
