-- ===== src/Network/Trust.antt =====
-- Whom NetworkManager (src/net/network.cpp) takes a connection for.
use naleystogramm_core.Prelude.{
  ℕ, ◌%◌, ◌^◌, ◌≡◌, refl, ap, ◌∙◌, Bool, true, false, ◌&&◌, Option, none, some, ◌∷◌, arith,
}
use naleystogramm_core.Prelude.Text.{Text, is_empty}
use naleystogramm_core.Prelude.Map.{get, is_some, get-put_self}
use naleystogramm_core.Identity.{is_valid_uuid}
use naleystogramm_core.Network.Limits.{Clock, fresh_rate, count_frame, is_banned}
use naleystogramm_core.Network.Peers.{
  PeerConnection, Side, in_peers, in_pending, fired, linked, incoming_request, message,
  device_linked, Network, notify, find_in, put_in,
}
use naleystogramm_core.Network.Reconnect.{Env}
use naleystogramm_core.Network.Handshake.{
  ban_of, on_client_hello, on_pair_accept, on_handshake, dispatch, handle_frame, deliver_of,
  deliver,
}
use naleystogramm_core.Network.Wire.{Frame, is_old, text_lt, sanitize_ctrl}

pub find_in-put_in :
    (side : Side) (key : Text) (c : PeerConnection) (n : Network)
    → find_in side key (put_in side key c n) ≡ some c
find_in-put_in in_peers key c n = get-put_self key c n.peers
find_in-put_in in_pending key c n = get-put_self key c n.pending

-- The limits let the frame through.
abbrev pub Admitted : (now : Clock) → PeerConnection → Network → Type 0
Admitted now c n =
    ((count_frame now.steady c.rate).1 ≡ true)
    × (is_banned now.system (ban_of (get c.ip n.ban_records)) ≡ false)

-- The connection as a handler gets it.
abbrev pub touched : (now : Clock) → PeerConnection → PeerConnection
touched now c = record c { rate = (count_frame now.steady c.rate).0; last_activity = now.system }

deliver-dispatch :
    (env : Env) (now : Clock) (side : Side) (key : Text) (f : Frame) (c : PeerConnection)
    (n : Network)
    → find_in side key n ≡ some c
    → Admitted now c n
    → deliver env now side key f n
      ≡ put_in side key
          (dispatch env now f (touched now c) n).0
          (dispatch env now f (touched now c) n).1
unfolding deliver deliver_of handle_frame
deliver-dispatch env now side key f c n e a = rw (e, a.0, a.1) refl

-- What a connection's change leaves as it is.
put_in_keeps :
    (side : Side) (key : Text) (c : PeerConnection) (n : Network)
    → ((put_in side key c n).trace ≡ n.trace) × ((put_in side key c n).ban_records ≡ n.ban_records)
put_in_keeps in_peers key c n = (refl, refl)
put_in_keeps in_pending key c n = (refl, refl)

-- The connection that says it is the peer.
abbrev pub claimed : (uuid name : Text) → (port : ℕ) → PeerConnection → PeerConnection
claimed uuid name port c = record c {
  uuid = uuid;
  name = sanitize_ctrl name;
  server_port = port % 2 ^ 16;
}

claim_taken :
    (env : Env) (uuid version name : Text) (port : ℕ) (c : PeerConnection) (n : Network)
    → is_valid_uuid uuid ≡ true
    → is_old version ≡ false
    → is_some (get uuid n.reconnect_info) ≡ false
    → on_handshake env uuid version name port c n
      ≡ (claimed uuid name port c, notify (incoming_request uuid (sanitize_ctrl name) c.ip) n)
unfolding on_handshake
claim_taken env uuid version name port c n valid young unknown =
    rw (valid, young, unknown, no_tie (is_some c.socket) (text_lt uuid env.own_uuid)) refl
  where
    no_tie : (a b : Bool) → (a && false && b) ≡ false
    no_tie true b = refl
    no_tie false b = refl

fresh_twice :
    (now : ℕ)
    → ((count_frame now fresh_rate).1 ≡ true)
      × ((count_frame now (count_frame now fresh_rate).0).1 ≡ true)
unfolding count_frame
fresh_twice now = ground arith

-- A connection that waits, or one that is in use, on which no frame was counted yet and whose address is not
-- banned, says in a HANDSHAKE that it is the peer `uuid`, which has a valid UUID, a version that is not too old
-- and no reconnection: the message that it sends at the same time is handed on as that peer's, though
-- nobody has accepted it and nothing of it was checked.
pub claimed_identity :
    (env : Env) (now : Clock) (side : Side) (key uuid version name msg : Text) (port : ℕ)
    (c : PeerConnection) (n : Network)
    → find_in side key n ≡ some c
    → c.rate ≡ fresh_rate
    → is_banned now.system (ban_of (get c.ip n.ban_records)) ≡ false
    → is_valid_uuid uuid ≡ true
    → is_old version ≡ false
    → is_some (get uuid n.reconnect_info) ≡ false
    → (deliver env now side key
        (Frame.other msg)
        (deliver env now side key (Frame.handshake uuid version name port) n)).trace
      ≡ fired (message uuid msg) ∷ fired (incoming_request uuid (sanitize_ctrl name) c.ip) ∷ n.trace
unfolding dispatch
claimed_identity env now side key uuid version name msg port c n found fresh free valid young
      unknown =
    let c1 = claimed uuid name port (touched now c) in
    let n1 = notify (incoming_request uuid (sanitize_ctrl name) c.ip) n in
    let m = put_in side key c1 n1 in
    let (kept, bans) = put_in_keeps side key c1 n1 in
    let (once, twice) = fresh_twice now.steady in
    let first : deliver env now side key (Frame.handshake uuid version name port) n ≡ m =
      deliver-dispatch env now side key (Frame.handshake uuid version name port) c n found
        (ap (λ r. (count_frame now.steady r).1) fresh ∙ once, free)
      ∙ ap (λ p. put_in side key p.0 p.1)
          (claim_taken env uuid version name port (touched now c) n valid young unknown) in
    let second =
      deliver-dispatch env now side key (Frame.other msg) c1 m (find_in-put_in side key c1 n1) (
        ap (λ r. (count_frame now.steady (count_frame now.steady r).0).1) fresh ∙ twice,
        ap (λ b. is_banned now.system (ban_of (get c.ip b))) bans ∙ free,
      ) in
    let c2 = touched now c1 in
    ap (λ x. (deliver env now side key (Frame.other msg) x).trace) first
    ∙ ap (λ x. x.trace) second
    ∙ (put_in_keeps side key c2 (notify (message uuid msg) m)).0
    ∙ ap (λ t. fired (message uuid msg) ∷ t) kept

-- Is the connection, where there is one, a linked device?
abbrev pub is_linked : Option PeerConnection → Bool
is_linked none = false
is_linked (some c) = c.is_linked_device

-- What a peer can do to be a linked device. A greeting with the role DEVICE, with any version, makes
-- the connection a linked device, with no code asked for; DEVICE_PAIR_ACCEPT from a connection that was
-- never sent a request links its sender as the primary device.
pub unpaired_device :
    (env : Env) (now : Clock) (side : Side) (key version name uuid : Text) (c : PeerConnection)
    (n : Network)
    → find_in side key n ≡ some c
    → Admitted now c n
    → (is_linked
          (find_in side key (deliver env now side key (Frame.client_hello version name true) n))
        ≡ true)
      × (is_empty uuid ≡ false
          → (deliver env now side key (Frame.pair_accept uuid name) n).trace
            ≡ fired (device_linked uuid (sanitize_ctrl name) true)
              ∷ linked uuid (sanitize_ctrl name) true
              ∷ n.trace)
unfolding dispatch on_client_hello on_pair_accept
unpaired_device env now side key version name uuid c n found admitted = (
  ap (λ x. is_linked (find_in side key x))
        (deliver-dispatch env now side key (Frame.client_hello version name true) c n found
          admitted)
      ∙ ap (λ o. is_linked o) (find_in-put_in side key _ _),
  λ e.
      ap (λ x. x.trace)
        (deliver-dispatch env now side key (Frame.pair_accept uuid name) c n found admitted)
      ∙ (put_in_keeps side key _ _).0
      ∙ rw e refl,
)
