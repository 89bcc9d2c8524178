-- ===== src/Network/Queue.antt =====
-- sendFrame and the queue for peers that are offline (src/net/network.cpp, sendFrame and
-- drainMessageQueue). sendFrame posts a call to the io_context; the calls run in the order in which
-- they were posted. `ok` is whether the write of a frame succeeds.
use naleystogramm_core.Prelude.{
  ℕ, zero, suc, Bool, not, Option, none, some, List, [], ◌∷◌, ◌++◌, map, ltb, length, if◌then◌else◌,
}
use naleystogramm_core.Prelude.Text.{Text}
use naleystogramm_core.Prelude.Map.{get, put, erase, is_some}
use naleystogramm_core.Network.Peers.{
  PeerConnection, payload, Network, via_relay, set_peer, is_open, write,
}

abbrev pub max_queue_size : ℕ
max_queue_size = 100

-- The queue at a key, empty where there is none, as operator[] makes it.
abbrev pub queue_of : Option (List Text) → List Text
queue_of none = []
queue_of (some q) = q

unfoldable pub push : Text → List Text → List Text
push msg q = if ltb (length q) max_queue_size then q ++ msg ∷ [] else q

unfoldable pub enqueue : (uuid msg : Text) → Network → Network
enqueue uuid msg n = record n {
  queues = put uuid (push msg (queue_of (get uuid n.queues))) n.queues;
}

-- Behind the lookup of the peer.
unfoldable pub send_to :
    (ok : Bool) → (now : ℕ) → Option PeerConnection → (uuid msg : Text) → Network → Network
send_to ok now none uuid msg n = enqueue uuid msg n
send_to ok now (some c) uuid msg n =
    if not (is_open c.socket n.closed)
    then enqueue uuid msg n
    else if ok
    then write c.socket (payload msg) (set_peer uuid (record c { last_activity = now }) n)
    else enqueue uuid msg n

-- The posted part of sendFrame.
unfoldable pub send_now : (ok : Bool) → (now : ℕ) → (uuid msg : Text) → Network → Network
send_now ok now uuid msg n =
    if is_some (get uuid n.relay_peers)
    then via_relay uuid (payload msg) n
    else send_to ok now (get uuid n.peers) uuid msg n

unfoldable pub send_frame : (uuid msg : Text) → Network → Network
send_frame uuid msg n = record n { posted = n.posted ++ (uuid, msg) ∷ [] }

unfoldable pub drain_of : Option (List Text) → (uuid : Text) → Network → Network
drain_of none uuid n = n
drain_of (some []) uuid n = n
drain_of (some (m ∷ q)) uuid n = record n {
  queues = erase uuid n.queues;
  posted = n.posted ++ map (λ msg. (uuid, msg)) (m ∷ q);
}

unfoldable pub drain_message_queue : (uuid : Text) → Network → Network
drain_message_queue uuid n = drain_of (get uuid n.queues) uuid n

unfoldable pub run_next : (ok : Bool) → (now : ℕ) → List (Text × Text) → Network → Network
run_next ok now [] n = n
run_next ok now ((uuid, msg) ∷ rest) n = send_now ok now uuid msg (record n { posted = rest })

-- The io_context runs the posted calls that wait.
unfoldable pub run_posted : (rounds : ℕ) → (ok : Bool) → (now : ℕ) → Network → Network
run_posted zero ok now n = n
run_posted (suc k) ok now n = run_posted k ok now (run_next ok now n.posted n)
