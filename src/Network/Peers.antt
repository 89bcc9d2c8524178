-- ===== src/Network/Peers.antt =====
-- The state of NetworkManager (include/naleystogramm-core/net/network.h): its peers and what it keeps
-- of them, all touched on the thread of the io_context only.
--   A socket is a number, with the closed ones in `closed`; a timer is a number too, and `timers` holds
-- the one that waits for a reconnection. `posted` are the calls of sendFrame that wait on the
-- io_context, oldest first. `trace` records, newest first, frames written, sockets closed, timers
-- cancelled and callbacks fired, where `wrote` is a frame handed to a socket, closed or not, and
-- `posted_ping` the first sendPing of a keepalive, which waits on the io_context. Log lines are left out,
-- and so are the parts of a handshake that only describe the peer to its user, but for its name. A message that other parts send is its text.
use naleystogramm_core.Prelude.{
  ℕ, ◌==◌, Bool, true, false, not, Option, none, some, List, [], ◌∷◌, if◌then◌else◌,
}
use naleystogramm_core.Prelude.Text.{Text}
use naleystogramm_core.Prelude.Map.{Map, get, put}
use naleystogramm_core.Pairing.{Pairing}
use naleystogramm_core.Network.Limits.{Rate, Ban}

pub data ConnectionState : Type 0 where
  disconnected connecting connected reconnecting : ConnectionState

pub record PeerConnection : Type 0 where
  pub uuid : Text
  pub name : Text
  pub ip : Text
  pub server_port : ℕ
  pub socket : Option ℕ
  pub read_buf : Text
  pub state : ConnectionState
  pub last_activity : ℕ
  pub ping_timer : Option ℕ
  pub pong_timer_armed : Bool
  pub awaiting_pong : Bool
  pub ping_start : ℕ
  pub rate : Rate
  pub latency_ms : Option ℕ
  pub hello_name : Text
  pub hello_version : Text
  pub is_linked_device : Bool
  pub pending_pair_code : Text
  pub expected_uuid : Text

-- m_peers and m_pending, the connections that wait to be accepted.
pub data Side : Type 0 where
  in_peers in_pending : Side

pub record ReconnectInfo : Type 0 where
  pub name : Text
  pub ip : Text
  pub port : ℕ

-- What a peer is sent.
pub data Out : Type 0 where
  client_hello : (version name : Text) → (is_device : Bool) → Out
  server_hello : (version name : Text) → Out
  version_reject : (min_version our_version : Text) → Out
  pair_request : (uuid name code : Text) → Out
  pair_accept : (uuid name : Text) → Out
  pair_reject : (reason : Text) → Out
  uuid_challenge : (uuid : Text) → Out
  uuid_response : (confirmed : Bool) → Out
  handshake : (uuid name : Text) → (port : ℕ) → (version : Text) → Out
  handshake_ack : (uuid name version : Text) → Out
  handshake_nack ping pong : Out
  payload : Text → Out

pub data Notice : Type 0 where
  incoming_request : (uuid name ip : Text) → Notice
  message : (uuid : Text) → (msg : Text) → Notice
  peer_connected name_updated : (uuid name : Text) → Notice
  peer_disconnected : (uuid : Text) → Notice
  device_linked : (uuid name : Text) → (primary : Bool) → Notice
  state_changed : (uuid : Text) → ConnectionState → Notice
  failed : (error : Text) → Notice
  relay_connected relay_disconnected : Notice

pub data Effect : Type 0 where
  wrote : (socket : ℕ) → Out → Effect
  relayed : (uuid : Text) → Out → Effect
  closed closed_later : (socket : ℕ) → Effect
  cancelled : (timer : ℕ) → Effect
  armed : (timer delay : ℕ) → Effect
  dialled : (uuid ip : Text) → (port : ℕ) → Effect
  linked : (uuid name : Text) → (primary : Bool) → Effect
  posted_ping registering : (uuid : Text) → Effect
  reading : Side → (key : Text) → Effect
  fired : Notice → Effect

pub record Network : Type 0 where
  pub peers : Map PeerConnection
  pub pending : Map PeerConnection
  pub reconnect_info : Map ReconnectInfo
  pub ban_records : Map Ban
  pub reconnect_attempts : Map ℕ
  pub timers : Map ℕ
  pub next_timer : ℕ
  pub queues : Map (List Text)
  pub relay_peers : Map Bool
  pub relay_ready : Bool
  pub closed : List ℕ
  pub posted : List (Text × Text)
  pub pairing : Pairing
  pub trace : List Effect

abbrev pub emit : Effect → Network → Network
emit e n = record n { trace = e ∷ n.trace }

abbrev pub notify : Notice → Network → Network
notify e n = emit (fired e) n

abbrev pub set_peer : Text → PeerConnection → Network → Network
set_peer uuid c n = record n { peers = put uuid c n.peers }

abbrev pub is_in : ℕ → List ℕ → Bool
is_in x [] = false
is_in x (y ∷ ys) = if x == y then true else is_in x ys

-- Is there a socket, and is it open?
abbrev pub is_open : Option ℕ → List ℕ → Bool
is_open none cs = false
is_open (some s) cs = not (is_in s cs)

abbrev pub write : Option ℕ → Out → Network → Network
write none o n = n
write (some s) o n = emit (wrote s o) n

abbrev pub close : Option ℕ → Network → Network
close none n = n
close (some s) n = record n { closed = s ∷ n.closed; trace = Effect.closed s ∷ n.trace }

-- sendViaRelay, which drops the frame while we are not registered.
abbrev pub via_relay : (uuid : Text) → Out → Network → Network
via_relay uuid o n = if n.relay_ready then emit (relayed uuid o) n else n

abbrev pub find_in : Side → (key : Text) → Network → Option PeerConnection
find_in in_peers key n = get key n.peers
find_in in_pending key n = get key n.pending

abbrev pub put_in : Side → (key : Text) → PeerConnection → Network → Network
put_in in_peers key c n = record n { peers = put key c n.peers }
put_in in_pending key c n = record n { pending = put key c n.pending }

abbrev pub is_connected : ConnectionState → Bool
is_connected connected = true
is_connected s = false
