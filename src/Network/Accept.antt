-- ===== src/Network/Accept.antt =====
-- Connections and their outstanding read in src/net/network.cpp: one that acceptIncoming moves, and one
-- that gives more than its buffer takes.
use mathlib.Core.Path.{subst}
use naleystogramm_core.Prelude.{
  ℕ, ◌∙◌, ◌≡◌, refl, sym, ap, ◌+◌, ltb, length, arith, ◌||◌, not, Bool, true, false, Option, none,
  some, List, [], ◌∷◌, if◌then◌else◌,
}
use naleystogramm_core.Prelude.Text.{Text}
use naleystogramm_core.Prelude.Map.{get, put, is_some, get-put_self, get-erase_self}
use naleystogramm_core.Network.Limits.{Clock}
use naleystogramm_core.Network.Peers.{
  is_in, is_open, close, is_connected, ConnectionState, disconnected, connecting, connected,
  reconnecting, PeerConnection, Effect, Side, in_peers, in_pending, Out, Network, emit, find_in,
  write, via_relay,
}
use naleystogramm_core.Network.Queue.{drain_of, drain_message_queue}
use naleystogramm_core.Network.Reconnect.{Env, is_linked_up, is_up, connect_to_peer}
use naleystogramm_core.Network.Keepalive.{ping_of, send_ping, keepalive_of, start_keepalive}
use naleystogramm_core.Network.Wire.{Frame}
use naleystogramm_core.Network.Incoming.{
  find_pending, start_async_read, start_read_of, admit_peer, accept_of, is_live, accept_incoming,
  read_of, on_bytes, max_buffer_size, reject_incoming,
}

-- Where the peer is connected by the socket of the connection that waited, which waits no more.
abbrev pub IsServed : (socket : Option ℕ) → Option PeerConnection → Type 0
IsServed socket o = (is_live o ≡ true) × (socket_of o ≡ socket)
  where
    socket_of : Option PeerConnection → Option ℕ
    socket_of none = none
    socket_of (some c) = c.socket

abbrev pub Admits : (uuid key : Text) → (socket : Option ℕ) → Network → Type 0
Admits uuid key socket n = IsServed socket (get uuid n.peers) × (get key n.pending ≡ none)

if_keeps :
    (uuid key : Text) (socket : Option ℕ) (b : Bool) (x y : Network)
    → Admits uuid key socket x
    → Admits uuid key socket y
    → Admits uuid key socket (if b then x else y)
if_keeps uuid key socket true x y a b = a
if_keeps uuid key socket false x y a b = b

write_keeps :
    (uuid key : Text) (s socket : Option ℕ) (o : Out) (n : Network)
    → Admits uuid key socket n
    → Admits uuid key socket (write s o n)
write_keeps uuid key none socket o n a = a
write_keeps uuid key (some s) socket o n a = a

relay_keeps :
    (uuid key to : Text) (socket : Option ℕ) (o : Out) (n : Network)
    → Admits uuid key socket n
    → Admits uuid key socket (via_relay to o n)
relay_keeps uuid key to socket o n a =
    if_keeps uuid key socket n.relay_ready (emit (Effect.relayed to o) n) n a a

keepalive_keeps :
    (uuid key : Text) (socket : Option ℕ) (n : Network)
    → Admits uuid key socket n
    → Admits uuid key socket (start_keepalive uuid n)
unfolding start_keepalive keepalive_of
keepalive_keeps uuid key socket n a = kept (get uuid n.peers) a.0
  where
    kept :
        (o : Option PeerConnection)
        → IsServed socket o
        → Admits uuid key socket (keepalive_of o uuid n)
    kept none v = (a.0, a.1)
    kept (some c) v = (
      subst (λ o. IsServed socket o)
          (sym (get-put_self uuid (record c { ping_timer = some n.next_timer }) n.peers)) v,
      a.1,
    )

read_keeps :
    (uuid key : Text) (socket : Option ℕ) (side : Side) (k : Text) (n : Network)
    → Admits uuid key socket n
    → Admits uuid key socket (start_async_read side k n)
unfolding start_async_read start_read_of
read_keeps uuid key socket side k n a = kept (find_in side k n)
  where
    kept : (o : Option PeerConnection) → Admits uuid key socket (start_read_of o side k n)
    kept none = a
    kept (some c) =
        if_keeps uuid key socket (is_some c.socket) (emit (Effect.reading side k) n) n a a

drain_keeps :
    (uuid key to : Text) (socket : Option ℕ) (n : Network)
    → Admits uuid key socket n
    → Admits uuid key socket (drain_message_queue to n)
unfolding drain_message_queue drain_of
drain_keeps uuid key to socket n a = kept (get to n.queues)
  where
    kept : (o : Option (List Text)) → Admits uuid key socket (drain_of o to n)
    kept none = a
    kept (some []) = a
    kept (some (m ∷ q)) = a

accept-Admits :
    (env : Env) (now : ℕ) (uuid key : Text) (c : PeerConnection) (n : Network)
    → Admits uuid key c.socket (accept_of env now (some (key, c)) uuid n)
unfolding accept_of admit_peer
accept-Admits env now uuid key c n =
    let ack = Out.handshake_ack env.own_uuid env.own_name env.app_version in
    let n1 = admit_peer now key uuid c n in
    let n2 = record n1 { relay_peers = put uuid true n.relay_peers } in
    let admitted : Admits uuid key c.socket n1 = (
      subst (λ o. IsServed c.socket o)
          (sym (get-put_self uuid (record c { state = connected; last_activity = now }) n.peers))
          (refl, refl),
      get-erase_self key n.pending,
    ) in
    drain_keeps uuid key uuid c.socket _ (
      if_keeps uuid key c.socket (is_some c.socket) _ _
        (read_keeps uuid key c.socket in_peers uuid _ (
          keepalive_keeps uuid key c.socket _
            (write_keeps uuid key c.socket c.socket ack n1 admitted)))
        (relay_keeps uuid key uuid c.socket ack n2 admitted))

-- A connection waits under `key` and says it is the peer `uuid`, which is not connected. Once it is
-- accepted, its socket serves the connected peer. But the read that was started when it came is still
-- outstanding, and looks for it under `key`: the bytes that this read gives are dropped.
pub accept_drops_bytes :
    (parse : Text → Option Frame) (env : Env) (now : ℕ) (later : Clock) (uuid key bytes : Text)
    (c : PeerConnection) (n : Network)
    → find_pending uuid n.pending ≡ some (key, c)
    → is_live (get uuid n.peers) ≡ false
    → let n' = accept_incoming env now uuid n in
      IsServed c.socket (get uuid n'.peers)
      × (on_bytes parse env later in_pending key bytes n' ≡ n')
unfolding accept_incoming on_bytes read_of
accept_drops_bytes parse env now later uuid key bytes c n found free =
    let m = accept_of env now (some (key, c)) uuid n in
    let a = accept-Admits env now uuid key c n in
    rw (free, found) (a.0, ap (λ o. read_of parse env later in_pending key bytes o m) a.1)

live_linked_up : (c : PeerConnection) → is_live (some c) ≡ true → is_linked_up (some c) ≡ true
live_linked_up c h = up c.state h
  where
    up : (s : ConnectionState) → is_connected s ≡ true → is_up s ≡ true
    up connected h = refl
    up connecting h = refl
    up disconnected h = absurd (cc)
    up reconnecting h = absurd (cc)

is_in_head : (x : ℕ) (xs : List ℕ) → is_in x (x ∷ xs) ≡ true
is_in_head x xs = ground arith

or_true : (b : Bool) → (b || true) ≡ true
or_true true = refl
or_true false = refl

-- A peer is connected by an open socket, and more comes from it than the buffer takes. The socket is
-- closed, but no read is started that would find it so, and the peer stays connected to all appearance:
-- connectToPeer does nothing, acceptIncoming rejects, and the keepalive sends no PING that could time
-- out.
pub overflow_strands :
    (parse : Text → Option Frame) (env : Env) (now : Clock) (uuid name ip bytes : Text) (port s : ℕ)
    (c : PeerConnection) (n : Network)
    → get uuid n.peers ≡ some c
    → is_live (some c) ≡ true
    → c.socket ≡ some s
    → ltb max_buffer_size (length c.read_buf + length bytes) ≡ true
    → let n' = on_bytes parse env now in_peers uuid bytes n in
      (n' ≡ close (some s) n)
      × (get uuid n'.peers ≡ some c)
      × (connect_to_peer env now.system uuid name ip port n' ≡ n')
      × (accept_incoming env now.system uuid n' ≡ reject_incoming uuid n')
      × (send_ping now.steady uuid n' ≡ n')
unfolding on_bytes read_of connect_to_peer accept_incoming send_ping ping_of
overflow_strands parse env now uuid name ip bytes port s c n found live socket over =
    let m = close (some s) n in
    let closes : on_bytes parse env now in_peers uuid bytes n ≡ m = rw (found, over, socket) refl in
    let up : is_linked_up (get uuid n.peers) ≡ true =
      ap is_linked_up found ∙ live_linked_up c live in
    let busy : is_live (get uuid n.peers) ≡ true = ap is_live found ∙ live in
    let shut : is_open c.socket m.closed ≡ false =
      ap (λ o. is_open o m.closed) socket ∙ rw (is_in_head s n.closed) refl in
    let deaf : (c.awaiting_pong || not (is_open c.socket m.closed)) ≡ true =
      ap (λ b. c.awaiting_pong || not b) shut ∙ or_true c.awaiting_pong in
    subst
      (λ x.
        (x ≡ m)
        × (get uuid x.peers ≡ some c)
        × (connect_to_peer env now.system uuid name ip port x ≡ x)
        × (accept_incoming env now.system uuid x ≡ reject_incoming uuid x)
        × (send_ping now.steady uuid x ≡ x))
      (sym closes) (refl, found, rw up refl, rw busy refl, rw (found, deaf) refl)
