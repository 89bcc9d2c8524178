-- ===== src/Network/Handshake.antt =====
-- handleFrame of src/net/network.cpp: the limits, the greeting, the pairing of devices, the handshake,
-- and the messages for the other parts. A frame is a `Frame`, with the fields that the handler reads (Network/Wire);
-- a port is a natural number, which the cast to uint16_t cuts.
use naleystogramm_core.Prelude.{
  ℕ, ◌%◌, ◌^◌, ◌==◌, Bool, true, false, not, ◌&&◌, ◌||◌, Option, none, some, [], ◌++◌,
  if◌then◌else◌,
}
use naleystogramm_core.Prelude.Text.{Text, codes, text_eq, is_empty}
use naleystogramm_core.Prelude.Map.{get, put, is_some}
use naleystogramm_core.Identity.{is_valid_uuid}
use naleystogramm_core.Pairing.{validate_and_consume, current_code}
use naleystogramm_core.Network.Limits.{Clock, Ban, clean, count_frame, is_banned, record_failure}
use naleystogramm_core.Network.Peers
use naleystogramm_core.Network.Peers.{
  PeerConnection, Side, Out, Notice, incoming_request, message, peer_connected, name_updated,
  device_linked, Network, emit, notify, write, close, closed_later, linked, is_connected, find_in,
  put_in,
}
use naleystogramm_core.Network.Queue.{drain_message_queue}
use naleystogramm_core.Network.Reconnect.{Env}
use naleystogramm_core.Network.Wire.{
  Frame, client_hello, server_hello, version_reject, pair_request, pair_accept, pair_reject,
  uuid_challenge, uuid_response, handshake, handshake_ack, handshake_nack, ping, pong,
  profile_update, other, min_peer_version, is_old, sanitize_ctrl, text_lt, reject_text,
}
use naleystogramm_core.Network.Keepalive.{handle_ping, handle_pong}

abbrev pub ban_of : Option Ban → Ban
ban_of none = clean
ban_of (some b) = b

unfoldable pub record_uuid_failure : (now : ℕ) → (ip : Text) → Network → Network
record_uuid_failure now ip n = record n {
  ban_records = put ip (record_failure now (ban_of (get ip n.ban_records))) n.ban_records;
}

unfoldable pub on_client_hello :
    Env
    → (version name : Text) → (is_device : Bool) → PeerConnection
    → Network
    → PeerConnection × Network
on_client_hello env version name is_device c n =
    let c' = record c {
      hello_name = sanitize_ctrl name;
      hello_version = version;
      is_linked_device = is_device;
    } in
    (
      c',
      if is_old version
          then refuse c.socket
          else write c.socket (Out.server_hello env.app_version env.own_name) n,
    )
  where
    refuse : Option ℕ → Network
    refuse none = n
    refuse (some s) =
        emit (closed_later s)
          (emit (Peers.wrote s (Out.version_reject min_peer_version env.app_version)) n)

unfoldable pub send_handshake : Env → Option ℕ → Network → Network
send_handshake env socket n =
    write socket
      (Out.handshake env.own_uuid env.own_name
        (if env.advertised_port == 0 then env.local_port else env.advertised_port) env.app_version)
      n

unfoldable pub on_server_hello :
    Env → (version name : Text) → PeerConnection → Network → PeerConnection × Network
unfolding send_handshake
on_server_hello env version name c n =
    let c' = record c { hello_name = sanitize_ctrl name; hello_version = version } in
    (
      c',
      if is_old version
          then close c.socket n
          else if not (is_empty c.expected_uuid)
          then write c.socket (Out.uuid_challenge c.expected_uuid) n
          else send_handshake env c.socket n,
    )

-- The answer to a wrong code, where `live` is the code that still stands.
unfoldable pub refuse_code : (now : ℕ) → (live : Text) → PeerConnection → Network → Network
refuse_code now live c n =
    if is_empty live
    then write c.socket (Out.pair_reject (codes "expired")) n
    else write c.socket (Out.pair_reject (codes "invalid_code")) (record_uuid_failure now c.ip n)

unfoldable pub on_pair_request :
    Env → (now : ℕ) → (code uuid name : Text) → PeerConnection → Network → PeerConnection × Network
unfolding refuse_code
on_pair_request env now code uuid name c n =
    let (p, ok) = validate_and_consume now code n.pairing in
    let (p', live) = current_code now p in
    if is_empty uuid
    then (c, write c.socket (Out.pair_reject (codes "invalid_uuid")) n)
    else if not ok
    then (c, refuse_code now live c (record n { pairing = p' }))
    else (
      record c { is_linked_device = true },
      notify (device_linked uuid (sanitize_ctrl name) false) (
          write c.socket (Out.pair_accept env.own_uuid env.own_name)
            (emit (linked uuid (sanitize_ctrl name) false) (record n { pairing = p }))),
    )

unfoldable pub on_pair_accept :
    (uuid name : Text) → PeerConnection → Network → PeerConnection × Network
on_pair_accept uuid name c n = if is_empty uuid then (c, n) else (
  record c { is_linked_device = true },
  notify (device_linked uuid (sanitize_ctrl name) true)
      (emit (linked uuid (sanitize_ctrl name) true) n),
)

unfoldable pub on_uuid_challenge :
    Env → (now : ℕ) → (uuid : Text) → PeerConnection → Network → Network
on_uuid_challenge env now uuid c n =
    if text_eq uuid env.own_uuid
    then write c.socket (Out.uuid_response true) n
    else close c.socket (write c.socket (Out.uuid_response false) (record_uuid_failure now c.ip n))

-- `_post` of a close is the effect `closed_later`.
abbrev pub close_later : Option ℕ → Network → Network
close_later none n = n
close_later (some s) n = emit (closed_later s) n

unfoldable pub on_handshake :
    Env
    → (uuid version name : Text) → (port : ℕ) → PeerConnection
    → Network
    → PeerConnection × Network
on_handshake env uuid version name port c n =
    let c' = record c { uuid = uuid; name = sanitize_ctrl name; server_port = port % 2 ^ 16 } in
    if not (is_valid_uuid uuid)
    then (c, close c.socket n)
    else if is_old version
    then (c, close c.socket n)
    else if is_some c.socket && is_some (get uuid n.reconnect_info) && text_lt uuid env.own_uuid
    then (c', close_later c.socket n)
    else (c', notify (incoming_request uuid (sanitize_ctrl name) c.ip) n)

abbrev pub same_socket : Option ℕ → Option ℕ → Bool
same_socket none none = true
same_socket (some s) (some t) = s == t
same_socket o p = false

-- Is there another live connection to the peer?
abbrev pub is_doubled : Option PeerConnection → (socket : Option ℕ) → Bool
is_doubled none socket = false
is_doubled (some d) socket = is_connected d.state && not (same_socket d.socket socket)

unfoldable pub enter_peer :
    Env → (uuid name : Text) → PeerConnection → Network → PeerConnection × Network
enter_peer env uuid name c n =
    let n' = notify (peer_connected uuid (sanitize_ctrl name)) n in
    let asked =
      write c.socket (Out.pair_request env.own_uuid env.own_name c.pending_pair_code) n' in
    (
      record c { uuid = uuid; name = sanitize_ctrl name; pending_pair_code = [] },
      drain_message_queue uuid (if is_empty c.pending_pair_code then n' else asked),
    )

unfoldable pub on_handshake_ack :
    Env → (uuid version name : Text) → PeerConnection → Network → PeerConnection × Network
unfolding enter_peer
on_handshake_ack env uuid version name c n =
    if is_old version
      || not (is_valid_uuid uuid)
      || (not (is_empty c.expected_uuid) && not (text_eq uuid c.expected_uuid))
      || is_doubled (get uuid n.peers) c.socket
    then (c, close c.socket n)
    else enter_peer env uuid name c n

unfoldable pub on_profile_update :
    (name : Text) → PeerConnection → Network → PeerConnection × Network
on_profile_update name c n =
    if not (is_empty (sanitize_ctrl name)) && not (text_eq (sanitize_ctrl name) c.name)
    then (
      record c { name = sanitize_ctrl name },
      notify (name_updated c.uuid (sanitize_ctrl name)) n,
    )
    else (c, n)

-- Behind the limits, by the type of the frame.
unfoldable pub dispatch :
    Env → (now : Clock) → Frame → PeerConnection → Network → PeerConnection × Network
unfolding send_handshake
dispatch env now (client_hello version name is_device) c n =
    on_client_hello env version name is_device c n
dispatch env now (server_hello version name) c n = on_server_hello env version name c n
dispatch env now (version_reject v) c n =
    (c, close c.socket (notify (Notice.failed (codes "Несовместимая версия: требуется ≥ " ++ v)) n))
dispatch env now (pair_request code uuid name) c n =
    on_pair_request env now.system code uuid name c n
dispatch env now (pair_accept uuid name) c n = on_pair_accept uuid name c n
dispatch env now (pair_reject reason) c n =
    (c, close c.socket (notify (Notice.failed (reject_text reason)) n))
dispatch env now (uuid_challenge uuid) c n = (c, on_uuid_challenge env now.system uuid c n)
dispatch env now (uuid_response true) c n = (c, send_handshake env c.socket n)
dispatch env now (uuid_response false) c n = (c, close c.socket n)
dispatch env now (handshake uuid version name port) c n =
    on_handshake env uuid version name port c n
dispatch env now (handshake_ack uuid version name) c n = on_handshake_ack env uuid version name c n
dispatch env now handshake_nack c n =
    (c, close c.socket (notify (Notice.failed (codes "Подключение отклонено: " ++ c.name)) n))
dispatch env now ping c n = handle_ping now.system c n
dispatch env now pong c n = handle_pong now c n
dispatch env now (profile_update name) c n = on_profile_update name c n
dispatch env now (other msg) c n = (c, notify (message c.uuid msg) n)

unfoldable pub handle_frame :
    Env → (now : Clock) → Frame → PeerConnection → Network → PeerConnection × Network
handle_frame env now f c n =
    let (r, pass) = count_frame now.steady c.rate in
    let c' = record c { rate = r } in
    if not pass
    then (c', close c.socket n)
    else if is_banned now.system (ban_of (get c.ip n.ban_records))
    then (c', close c.socket n)
    else dispatch env now f (record c' { last_activity = now.system }) n

unfoldable pub deliver_of :
    Env → (now : Clock) → Side → (key : Text) → Frame → Option PeerConnection → Network → Network
deliver_of env now side key f none n = n
deliver_of env now side key f (some c) n =
    let (c', n') = handle_frame env now f c n in put_in side key c' n'

-- A frame that arrives on the connection with the given key.
unfoldable pub deliver : Env → (now : Clock) → Side → (key : Text) → Frame → Network → Network
deliver env now side key f n = deliver_of env now side key f (find_in side key n) n
