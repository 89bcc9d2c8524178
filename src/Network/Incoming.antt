-- ===== src/Network/Incoming.antt =====
-- How connections come and go in src/net/network.cpp: startAccept, acceptIncoming, rejectIncoming, the
-- callbacks of async_connect, startAsyncRead, handleDisconnect, relayToLinkedDevices and
-- broadcastProfileUpdate, and the frames of the relay.
--   `generateUuid` and the sockets' numbers are arguments. `parse` is nlohmann::json::parse with the
-- reading of the fields. Where the code walks an unordered_map, the model walks its list.
--   Where a callback calls a method that posts itself to the io_context (acceptIncoming's rejectIncoming),
-- the model runs it at once.
use naleystogramm_core.Prelude.{
  ℕ, ◌+◌, Bool, true, false, not, ◌&&◌, Option, none, some, List, [], ◌∷◌, ◌++◌, ltb, length,
  if◌then◌else◌,
}
use naleystogramm_core.Prelude.Text.{Text, codes, text_eq}
use naleystogramm_core.Prelude.Map.{Map, get, put, erase, is_some}
use naleystogramm_core.Network.{try_parse_frames}
use naleystogramm_core.Network.Limits.{Clock}
use naleystogramm_core.Network.Peers.{
  disconnected, connecting, connected, PeerConnection, Side, in_peers, in_pending, Out, Notice,
  peer_connected, peer_disconnected, state_changed, Network, emit, notify, set_peer, is_open, write,
  close, closed_later, reading, is_connected, via_relay, find_in, put_in,
}
use naleystogramm_core.Network.Queue.{drain_message_queue, send_frame}
use naleystogramm_core.Network.Reconnect.{Env, new_peer, schedule_reconnect, reset_reconnect_state}
use naleystogramm_core.Network.Keepalive.{start_keepalive, stop_keepalive}
use naleystogramm_core.Network.Handshake.{deliver}
use naleystogramm_core.Network.Wire.{Frame}

abbrev pub max_buffer_size : ℕ
max_buffer_size = 16777216

unfoldable pub start_read_of : Option PeerConnection → Side → (key : Text) → Network → Network
start_read_of none side key n = n
start_read_of (some c) side key n = if is_some c.socket then emit (reading side key) n else n

-- A read is started for the connection with the given key, if that has a socket.
unfoldable pub start_async_read : Side → (key : Text) → Network → Network
unfolding start_read_of
start_async_read side key n = start_read_of (find_in side key n) side key n

-- The callback of async_accept.
unfoldable pub on_accepted : (temp_id ip : Text) → (socket : ℕ) → Network → Network
on_accepted temp_id ip socket n =
    start_async_read in_pending temp_id
      (put_in in_pending temp_id (new_peer temp_id [] ip (some socket) disconnected 0 []) n)

-- The first entry of m_pending that names the peer, with its key.
unfoldable pub find_pending : (uuid : Text) → Map PeerConnection → Option (Text × PeerConnection)
find_pending uuid [] = none
find_pending uuid ((key, c) ∷ m) =
    let rest = find_pending uuid m in if text_eq c.uuid uuid then some (key, c) else rest

unfoldable pub reject_of : Option (Text × PeerConnection) → (uuid : Text) → Network → Network
reject_of none uuid n = n
reject_of (some (key, c)) uuid n =
    let told =
      if is_open c.socket n.closed
      then close_later c.socket (write c.socket Out.handshake_nack n)
      else via_relay uuid Out.handshake_nack n in
    record told { pending = erase key n.pending }
  where
    close_later : Option ℕ → Network → Network
    close_later none m = m
    close_later (some s) m = emit (closed_later s) m

unfoldable pub reject_incoming : (uuid : Text) → Network → Network
reject_incoming uuid n = reject_of (find_pending uuid n.pending) uuid n

-- A connection that waited is a peer's now.
unfoldable pub admit_peer : (now : ℕ) → (key uuid : Text) → PeerConnection → Network → Network
admit_peer now key uuid c n = record n {
  pending = erase key n.pending;
  peers = put uuid (record c { state = connected; last_activity = now }) n.peers;
  reconnect_info =
      put uuid (record { name = c.name; ip = c.ip; port = c.server_port }) n.reconnect_info;
}

unfoldable pub accept_of :
    Env → (now : ℕ) → Option (Text × PeerConnection) → (uuid : Text) → Network → Network
accept_of env now none uuid n = n
accept_of env now (some (key, c)) uuid n =
    let n1 = admit_peer now key uuid c n in
    let ack = Out.handshake_ack env.own_uuid env.own_name env.app_version in
    let direct = start_async_read in_peers uuid (start_keepalive uuid (write c.socket ack n1)) in
    let relayed = via_relay uuid ack (record n1 { relay_peers = put uuid true n.relay_peers }) in
    drain_message_queue uuid (
      notify (state_changed uuid connected)
        (notify (peer_connected uuid c.name) (if is_some c.socket then direct else relayed)))

abbrev pub is_live : Option PeerConnection → Bool
is_live none = false
is_live (some c) = is_connected c.state

unfoldable pub accept_incoming : Env → (now : ℕ) → (uuid : Text) → Network → Network
unfolding accept_of
accept_incoming env now uuid n =
    if is_live (get uuid n.peers)
    then reject_incoming uuid n
    else accept_of env now (find_pending uuid n.pending) uuid n

-- The callback of connectToPeer's async_connect, where it failed and where it did not.
unfoldable pub on_connect_failed : (uuid : Text) → Network → Network
on_connect_failed uuid n = schedule_reconnect uuid n

unfoldable pub on_connected :
    Env → (now : ℕ) → (uuid name ip : Text) → (socket : ℕ) → Network → Network
on_connected env now uuid name ip socket n =
    if is_live (get uuid n.peers)
    then close (some socket) n
    else start_async_read in_peers uuid (
        notify (state_changed uuid connected) (
          start_keepalive uuid (
            write (some socket) (Out.client_hello env.app_version env.own_name env.acting_as_device)
              (reset_reconnect_state uuid
                (set_peer uuid (new_peer uuid name ip (some socket) connected now uuid) n)))))

-- connectToDevice, whose peer has a key of its own, and the callback of its async_connect.
unfoldable pub connect_to_device :
    Env → (temp_id host code : Text) → (socket : ℕ) → Network → Network
connect_to_device env temp_id host code socket n =
    if not (env.valid_address host)
    then notify (Notice.failed (codes "Невалидный адрес: " ++ host)) n
    else set_peer temp_id
        (record (new_peer temp_id [] host (some socket) connecting 0 []) {
          pending_pair_code = code;
        })
        n

unfoldable pub on_device_of :
    Env → (now : ℕ) → (temp_id : Text) → Option PeerConnection → Network → Network
on_device_of env now temp_id none n = n
on_device_of env now temp_id (some c) n = start_async_read in_peers temp_id (
    write c.socket (Out.client_hello env.app_version env.own_name env.acting_as_device)
      (set_peer temp_id (record c { state = connected; last_activity = now }) n))

unfoldable pub on_device_connected : Env → (now : ℕ) → (temp_id : Text) → Network → Network
on_device_connected env now temp_id n = on_device_of env now temp_id (get temp_id n.peers) n

-- The same where it failed.
unfoldable pub on_device_failed : (temp_id error : Text) → Network → Network
on_device_failed temp_id error n =
    let n' =
      notify (Notice.failed (codes "Не удалось подключиться к главному устройству: " ++ error)) n in
    record n' { peers = erase temp_id n.peers }

unfoldable pub disconnect_of : Option PeerConnection → (uuid : Text) → Network → Network
disconnect_of none uuid n = n
disconnect_of (some c) uuid n =
    let n1 = close c.socket (stop_keepalive uuid n) in
    let n2 =
      notify (state_changed uuid disconnected)
        (notify (peer_disconnected uuid) (record n1 { peers = erase uuid n1.peers })) in
    if is_some (get uuid n.reconnect_info) then schedule_reconnect uuid n2 else n2

unfoldable pub handle_disconnect : (uuid : Text) → Network → Network
handle_disconnect uuid n = disconnect_of (get uuid n.peers) uuid n

-- A read that failed.
unfoldable pub on_read_error : Side → (key : Text) → Network → Network
on_read_error in_pending key n = record n { pending = erase key n.pending }
on_read_error in_peers key n = handle_disconnect key n

unfoldable pub deliver_all :
    Env → (now : Clock) → Side → (key : Text) → List Frame → Network → Network
deliver_all env now side key [] n = n
deliver_all env now side key (f ∷ fs) n =
    deliver_all env now side key fs (deliver env now side key f n)

unfoldable pub read_of :
    (parse : Text → Option Frame)
    → Env
    → (now : Clock) → Side
    → (key bytes : Text) → Option PeerConnection
    → Network
    → Network
read_of parse env now side key bytes none n = n
read_of parse env now side key bytes (some c) n =
    let (fs, rest) = try_parse_frames parse (c.read_buf ++ bytes) in
    if ltb max_buffer_size (length c.read_buf + length bytes)
    then close c.socket n
    else start_async_read side key
        (deliver_all env now side key fs (put_in side key (record c { read_buf = rest }) n))

-- A read that gave bytes: `side` and `key` were captured when it was started.
unfoldable pub on_bytes :
    (parse : Text → Option Frame)
    → Env
    → (now : Clock) → Side
    → (key bytes : Text) → Network
    → Network
on_bytes parse env now side key bytes n =
    read_of parse env now side key bytes (find_in side key n) n

-- handleRelayFrame
unfoldable pub handle_relay_frame : Env → (now : Clock) → (from : Text) → Frame → Network → Network
handle_relay_frame env now from f n =
    if is_some (get from n.peers)
    then deliver env now in_peers from f n
    else if is_some (get from n.pending)
    then deliver env now in_pending from f n
    else deliver env now in_pending from f
        (put_in in_pending from (new_peer from [] env.relay_ip none disconnected 0 []) n)

-- RELAY_PEER_OFFLINE
unfoldable pub on_relay_offline : (uuid : Text) → Network → Network
on_relay_offline uuid n =
    if is_some (get uuid n.peers)
    then notify (state_changed uuid disconnected) (
        notify (peer_disconnected uuid) (record (stop_keepalive uuid n) {
          relay_peers = erase uuid n.relay_peers;
          peers = erase uuid n.peers;
        }))
    else n

-- The frame to every linked device but one, and to every peer.
unfoldable pub relay_to_linked : (except msg : Text) → Map PeerConnection → Network → Network
relay_to_linked except msg [] n = n
relay_to_linked except msg ((uuid, c) ∷ m) n =
    let sent = send_frame uuid msg n in
    relay_to_linked except msg m
      (if c.is_linked_device && not (text_eq uuid except) then sent else n)

unfoldable pub broadcast : (msg : Text) → Map PeerConnection → Network → Network
broadcast msg [] n = n
broadcast msg ((uuid, c) ∷ m) n = broadcast msg m (send_frame uuid msg n)
