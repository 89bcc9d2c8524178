-- ===== src/Network/Reconnect.antt =====
-- Reconnections of src/net/network.cpp: scheduleReconnect, attemptReconnect, resetReconnectState, and
-- connectToPeer up to the dialling of the socket.
--   connectToPeer posts itself to the io_context; where attemptReconnect calls it, the model runs it at
-- once.
use naleystogramm_core.Prelude.{
  ℕ, ◌+◌, Bool, true, false, not, Option, none, some, [], ◌++◌, leb, if◌then◌else◌,
}
use naleystogramm_core.Prelude.Text.{Text, codes}
use naleystogramm_core.Prelude.Map.{get, put, erase}
use naleystogramm_core.Prelude.Decimal.{to_string}
use naleystogramm_core.Network.Limits.{fresh_rate, calculate_backoff_ms}
use naleystogramm_core.Network.Peers.{
  ConnectionState, connecting, connected, reconnecting, PeerConnection, ReconnectInfo, Out,
  state_changed, failed, cancelled, armed, dialled, Network, emit, notify, set_peer, via_relay,
}

abbrev pub max_reconnect_attempts : ℕ
max_reconnect_attempts = 50

-- A connection with the given key, address and socket, and nothing known yet.
abbrev pub new_peer :
    (uuid name ip : Text)
    → Option ℕ
    → ConnectionState
    → (now : ℕ) → (expected : Text) → PeerConnection
new_peer uuid name ip socket state now expected = record {
  uuid = uuid;
  name = name;
  ip = ip;
  server_port = 0;
  socket = socket;
  read_buf = [];
  state = state;
  last_activity = now;
  ping_timer = none;
  pong_timer_armed = false;
  awaiting_pong = false;
  ping_start = 0;
  rate = fresh_rate;
  latency_ms = none;
  hello_name = [];
  hello_version = [];
  is_linked_device = false;
  pending_pair_code = [];
  expected_uuid = expected;
}

abbrev pub attempts_of : Option ℕ → ℕ
attempts_of none = 0
attempts_of (some k) = k

abbrev pub cancel_timer : Option ℕ → Network → Network
cancel_timer none n = n
cancel_timer (some t) n = emit (cancelled t) n

unfoldable pub give_up : (uuid : Text) → (attempts : ℕ) → Network → Network
give_up uuid k n =
    record (notify
      (failed (codes "Не удалось переподключиться после " ++ to_string k ++ codes " попыток")) n) {
        reconnect_info = erase uuid n.reconnect_info;
        reconnect_attempts = erase uuid n.reconnect_attempts;
        queues = erase uuid n.queues;
      }

unfoldable pub arm_reconnect : (uuid : Text) → (attempts : ℕ) → Network → Network
arm_reconnect uuid k n =
    let n' = cancel_timer (get uuid n.timers) (notify (state_changed uuid reconnecting) n) in
    emit (armed n.next_timer (calculate_backoff_ms k))
      (record n' { timers = put uuid n.next_timer n.timers; next_timer = n.next_timer + 1 })

unfoldable pub schedule_of : Option ReconnectInfo → (uuid : Text) → Network → Network
schedule_of none uuid n = n
schedule_of (some info) uuid n =
    let k = attempts_of (get uuid n.reconnect_attempts) in
    if leb max_reconnect_attempts k then give_up uuid k n else arm_reconnect uuid k n

unfoldable pub schedule_reconnect : (uuid : Text) → Network → Network
schedule_reconnect uuid n = schedule_of (get uuid n.reconnect_info) uuid n

-- What stands outside: the mode of the settings, what make_address takes, our identity, and the
-- address of the relay.
pub record Env : Type 0 where
  pub client_server : Bool
  pub valid_address : Text → Bool
  pub own_uuid : Text
  pub own_name : Text
  -- Is one of the linked devices the primary one?
  pub acting_as_device : Bool
  pub app_version : Text
  pub advertised_port : ℕ
  pub local_port : ℕ
  pub relay_ip : Text

abbrev pub is_up : ConnectionState → Bool
is_up connected = true
is_up connecting = true
is_up s = false

abbrev pub is_linked_up : Option PeerConnection → Bool
is_linked_up none = false
is_linked_up (some c) = is_up c.state

-- The posted part of connectToPeer, up to async_connect.
unfoldable pub connect_to_peer :
    Env → (now : ℕ) → (uuid name ip : Text) → (port : ℕ) → Network → Network
connect_to_peer env now uuid name ip port n =
    let info : ReconnectInfo = record { name = name; ip = ip; port = port } in
    let known = record n { reconnect_info = put uuid info n.reconnect_info } in
    if is_linked_up (get uuid n.peers)
    then n
    else if env.client_server
    then via_relay uuid (Out.handshake env.own_uuid env.own_name env.local_port env.app_version) (
        notify (state_changed uuid connecting) (
          set_peer uuid (new_peer uuid name ip none connecting 0 uuid)
            (record known { relay_peers = put uuid true n.relay_peers })))
    else if not (env.valid_address ip)
    then schedule_reconnect uuid known
    else emit (dialled uuid ip port) (notify (state_changed uuid connecting) known)

unfoldable pub attempt_of :
    Env → (now : ℕ) → Option ReconnectInfo → (uuid : Text) → Network → Network
attempt_of env now none uuid n = n
attempt_of env now (some info) uuid n =
    connect_to_peer env now uuid info.name info.ip info.port (record n {
      reconnect_attempts =
          put uuid (attempts_of (get uuid n.reconnect_attempts) + 1) n.reconnect_attempts;
    })

unfoldable pub attempt_reconnect : Env → (now : ℕ) → (uuid : Text) → Network → Network
attempt_reconnect env now uuid n = attempt_of env now (get uuid n.reconnect_info) uuid n

-- The callback of a reconnection timer, `aborted` where it was cancelled.
unfoldable pub on_reconnect_timer :
    Env → (now : ℕ) → (aborted : Bool) → (uuid : Text) → Network → Network
on_reconnect_timer env now aborted uuid n =
    let n' = record n { timers = erase uuid n.timers } in
    if aborted then n' else attempt_reconnect env now uuid n'

unfoldable pub reset_reconnect_state : (uuid : Text) → Network → Network
reset_reconnect_state uuid n = record (cancel_timer (get uuid n.timers) n) {
  reconnect_attempts = erase uuid n.reconnect_attempts;
  timers = erase uuid n.timers;
}
