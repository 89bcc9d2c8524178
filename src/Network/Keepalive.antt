-- ===== src/Network/Keepalive.antt =====
-- PING and PONG of src/net/network.cpp: startKeepalive, schedulePing, stopKeepalive, sendPing,
-- handlePing, handlePong and the callbacks of the two timers. The wait of a cancelled timer is not
-- called back but with an error, on which the code does nothing.
use naleystogramm_core.Prelude.{
  ℕ, ◌+◌, ◌-◌, ◌==◌, Bool, true, false, not, ◌||◌, Option, none, some, if◌then◌else◌,
}
use naleystogramm_core.Prelude.Text.{Text}
use naleystogramm_core.Prelude.Map.{get}
use naleystogramm_core.Network.Limits.{Clock}
use naleystogramm_core.Network.Peers.{
  PeerConnection, Out, armed, posted_ping, Network, emit, set_peer, is_open, write, close,
}

abbrev pub ping_interval : ℕ
ping_interval = 30000

unfoldable pub ping_of : (now : ℕ) → Option PeerConnection → (uuid : Text) → Network → Network
ping_of now none uuid n = n
ping_of now (some c) uuid n =
    if c.awaiting_pong || not (is_open c.socket n.closed)
    then n
    else set_peer uuid
        (record c { awaiting_pong = true; ping_start = now; pong_timer_armed = true })
        (write c.socket Out.ping n)

unfoldable pub send_ping : (now : ℕ) → (uuid : Text) → Network → Network
send_ping now uuid n = ping_of now (get uuid n.peers) uuid n

unfoldable pub keepalive_of : Option PeerConnection → (uuid : Text) → Network → Network
keepalive_of none uuid n = n
keepalive_of (some c) uuid n = emit (armed n.next_timer ping_interval) (
    set_peer uuid (record c { ping_timer = some n.next_timer })
      (emit (posted_ping uuid) (record n { next_timer = n.next_timer + 1 })))

-- startKeepalive, which posts the first sendPing.
unfoldable pub start_keepalive : (uuid : Text) → Network → Network
start_keepalive uuid n = keepalive_of (get uuid n.peers) uuid n

abbrev is_timer : Option ℕ → ℕ → Bool
is_timer none t = false
is_timer (some s) t = s == t

unfoldable pub on_ping_of :
    (now : ℕ) → (timer : ℕ) → Option PeerConnection → (uuid : Text) → Network → Network
on_ping_of now timer none uuid n = n
on_ping_of now timer (some c) uuid n =
    if not (is_timer c.ping_timer timer)
    then n
    else emit (armed timer ping_interval) (send_ping now uuid n)

-- The callback of the ping timer.
unfoldable pub on_ping_timer : (now : ℕ) → (timer : ℕ) → (uuid : Text) → Network → Network
on_ping_timer now timer uuid n = on_ping_of now timer (get uuid n.peers) uuid n

unfoldable pub on_pong_of : Option PeerConnection → Network → Network
on_pong_of none n = n
on_pong_of (some c) n = if c.awaiting_pong then close c.socket n else n

-- The callback of the timer that waits for PONG.
unfoldable pub on_pong_timeout : (uuid : Text) → Network → Network
on_pong_timeout uuid n = on_pong_of (get uuid n.peers) n

unfoldable pub stop_of : Option PeerConnection → (uuid : Text) → Network → Network
stop_of none uuid n = n
stop_of (some c) uuid n =
    set_peer uuid (record c { ping_timer = none; pong_timer_armed = false; awaiting_pong = false })
      n

unfoldable pub stop_keepalive : (uuid : Text) → Network → Network
stop_keepalive uuid n = stop_of (get uuid n.peers) uuid n

unfoldable pub handle_ping : (now : ℕ) → PeerConnection → Network → PeerConnection × Network
handle_ping now c n = (
  record c { last_activity = now },
  if is_open c.socket n.closed then write c.socket Out.pong n else n,
)

unfoldable pub handle_pong : (now : Clock) → PeerConnection → Network → PeerConnection × Network
handle_pong now c n = (
  record c {
    awaiting_pong = false;
    last_activity = now.system;
    pong_timer_armed = false;
    latency_ms = some (now.steady - c.ping_start);
  },
  n,
)
