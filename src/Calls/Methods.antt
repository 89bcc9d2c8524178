-- ===== src/Calls/Methods.antt =====
-- The methods of the call manager that need more than its state, and its handler of frames
-- (src/calls/callmanager.cpp).
use naleystogramm_core.Prelude.{
  ℕ, Bool, true, false, not, ◌&&◌, ◌||◌, Option, none, some, [], if◌then◌else◌, replicate,
}
use naleystogramm_core.Prelude.Text.{Text, codes, text_eq, is_empty}
use naleystogramm_core.Calls.{
  CallState, idle, calling, ringing, in_call, ended, is, Signal, call_invite, call_accept,
  call_reject, call_end, other, state_changed, incoming_call, accepted, rejected, call_over, sent,
  fired, Env, Calls, uint16, emit, fail, set_state, cancel_timers, reset_state, arm_ended,
}

abbrev media_missing : {M : Type 0} → Option M → Bool
media_missing none = true
media_missing (some m) = false

module _ {M : Type 0} (env : Env M) where
  abbrev media_end : Option M → Option M
  media_end none = none
  media_end (some m) = some (env.end_call m)

  abbrev pub media_in_call : Option M → Bool
  media_in_call none = false
  media_in_call (some m) = env.is_in_call m

  abbrev pub media_port : Option M → ℕ
  media_port none = 0
  media_port (some m) = env.local_udp_port m

  -- The part of initiateCall behind the bind of the UDP socket; `bound` is the port that was bound.
  place_call : (salt call_id : Text) → Option ℕ → (peer ip : Text) → Calls M → Calls M
  unfolding fail
  place_call salt call_id none peer ip s = fail "no UDP port" s
  place_call salt call_id (some port) peer ip s =
      emit (sent peer (call_invite call_id (uint16 port) (env.to_hex salt)))
        (record (emit (fired (state_changed calling)) s) {
          peer_uuid = peer;
          peer_ip = ip;
          call_id = call_id;
          pending_media_salt = salt;
          state = calling;
          call_timeout = some s.generation;
        })

  -- The trial start of the media engine.
  probe : Option M → (salt call_id : Text) → Option ℕ → (peer ip : Text) → Calls M → Calls M
  unfolding place_call fail
  probe none salt call_id bound peer ip s = fail "no MediaEngine" s
  probe (some m) salt call_id bound peer ip s =
      let (m', ok) = env.start_call m (codes "127.0.0.1") 0 (replicate 32 0) in
      if ok
      then place_call salt call_id bound peer ip (record s { media = some (env.end_call m') })
      else record s { media = some m' }

  unfoldable pub initiate_call :
      (salt call_id : Text) → Option ℕ → (peer ip : Text) → Calls M → Calls M
  unfolding probe fail
  initiate_call salt call_id bound peer ip s =
      if not (is s.state idle)
      then fail "busy" s
      else if not (env.has_session peer)
      then fail "no E2E session" s
      else probe s.media salt call_id bound peer ip s

  abbrev pub relayed : Text → M → M
  relayed peer m =
      if env.client_server
      then env.enable_udp_relay m env.relay_ip env.relay_udp_port env.own_uuid peer
      else m

  unfoldable pub launch : M → (ip : Text) → (port : ℕ) → (key : Text) → Calls M → Calls M
  unfolding reset_state
  launch m ip port key s =
      let (m', ok) = env.start_call (relayed s.peer_uuid m) ip port key in
      let s' = record s { media = some m' } in if ok then s' else reset_state s'

  unfoldable pub start_media_with :
      Option M → (ip : Text) → ℕ → (call_id salt : Text) → Calls M → Calls M
  unfolding launch fail reset_state
  start_media_with none ip port call_id salt s = s
  start_media_with (some m) ip port call_id salt s =
      let key = env.snapshot_media_key s.peer_uuid call_id salt in
      if not (env.has_session s.peer_uuid)
      then reset_state (fail "no E2E session" s)
      else if is_empty key
      then reset_state (fail "no media key" s)
      else launch m ip port key s

  unfoldable pub start_media : (ip : Text) → ℕ → (call_id salt : Text) → Calls M → Calls M
  unfolding start_media_with
  start_media ip port call_id salt s = start_media_with s.media ip port call_id salt s

  abbrev enter_call : (peer : Text) → Calls M → Calls M
  enter_call peer s = emit (fired (accepted peer)) (set_state in_call s)

  unfoldable pub accept_call : Text → Calls M → Calls M
  unfolding fail set_state
  accept_call id s =
      let found = is s.state ringing && text_eq s.call_id id in
      let peer = if found then s.peer_uuid else [] in
      let s' = start_media s.peer_ip s.pending_caller_udp_port id s.pending_media_salt s in
      if is_empty peer
      then fail "no such call" s
      else if media_missing s.media
      then fail "no MediaEngine" s
      else if not (media_in_call s'.media)
      then s'
      else enter_call peer (emit (sent peer (call_accept id (media_port s'.media))) s')

  abbrev is_active : CallState → Bool
  is_active c = is c in_call || is c calling || is c ringing

  hang_up : Calls M → Calls M
  hang_up s =
      if is_active s.state && not (is_empty s.call_id) && not (is_empty s.peer_uuid)
      then emit (sent s.peer_uuid (call_end s.call_id)) s
      else s

  abbrev close_media : Calls M → Calls M
  close_media s = record s { media = media_end s.media }

  unfoldable pub end_call : Calls M → Calls M
  unfolding hang_up set_state
  end_call s =
      let s' = set_state ended (close_media (hang_up s)) in
      let s'' = if is_empty s.peer_uuid then s' else emit (fired (call_over s.peer_uuid)) s' in
      if is s.state idle then s else arm_ended s''

  -- ~CallManager
  pub shut_down : Calls M → Calls M
  unfolding end_call cancel_timers
  shut_down s = cancel_timers (end_call s)

  on_invite : (from id : Text) → (port : ℕ) → (salt : Text) → Calls M → Calls M
  on_invite from id port salt s =
      if not (is s.state idle)
      then emit (sent from (call_reject id (codes "busy"))) s
      else emit (fired (incoming_call from (env.peer_name from) id)) (
          emit (fired (state_changed ringing)) (record s {
            peer_uuid = from;
            call_id = id;
            pending_caller_udp_port = uint16 port;
            pending_media_salt = env.from_hex salt;
            peer_ip = env.peer_ip from;
            state = ringing;
          }))

  unfoldable pub on_accept : (from id : Text) → (port : ℕ) → Calls M → Calls M
  unfolding cancel_timers set_state
  on_accept from id port s =
      let s' = cancel_timers s in
      let s'' = start_media s.peer_ip (uint16 port) id s.pending_media_salt s' in
      if not (is s.state calling && text_eq s.call_id id)
      then s
      else if media_missing s.media
      then s'
      else if not (media_in_call s''.media)
      then s''
      else enter_call from s''

  on_reject : (id reason : Text) → Calls M → Calls M
  unfolding reset_state
  on_reject id reason s =
      if not (is s.state calling && text_eq s.call_id id)
      then s
      else emit (fired (rejected s.peer_uuid reason)) (reset_state s)

  on_end : (id : Text) → Calls M → Calls M
  unfolding set_state
  on_end id s =
      if not (is_active s.state && text_eq s.call_id id)
      then s
      else arm_ended (emit (fired (call_over s.peer_uuid)) (set_state ended (close_media s)))

  unfoldable pub handle_signaling : (from : Text) → Signal → Calls M → Calls M
  unfolding on_invite on_accept on_reject on_end
  handle_signaling from (call_invite id port salt) s = on_invite from id port salt s
  handle_signaling from (call_accept id port) s = on_accept from id port s
  handle_signaling from (call_reject id reason) s = on_reject id reason s
  handle_signaling from (call_end id) s = on_end id s
  handle_signaling from other s = s
