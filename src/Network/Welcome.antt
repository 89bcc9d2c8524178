-- ===== src/Network/Welcome.antt =====
-- What HANDSHAKE_ACK makes of a connection (src/net/network.cpp).
use mathlib.Core.Bool.{false≢true}
use naleystogramm_core.Prelude.{
  ℕ, ◌≡◌, ◌≢◌, ◌⊎◌, inl, inr, refl, sym, ap, ◌∙◌, true, false, not, ◌&&◌, Option, none, some, List,
  [], ◌∷◌, ◌++◌, append-nil, map, arith, if◌then◌else◌, Bool-cases, ◌==◌, ◌↔◌,
}
use naleystogramm_core.Prelude.Text.{Text, text_eq, text_eq_iff, is_empty}
use naleystogramm_core.Prelude.Map.{get, get-erase_self}
use naleystogramm_core.Identity.{is_valid_uuid}
use naleystogramm_core.Network.Limits.{Clock}
use naleystogramm_core.Network.Peers.{
  PeerConnection, Out, Effect, wrote, fired, peer_connected, Network, close, notify, write,
  is_connected,
}
use naleystogramm_core.Network.Queue.{drain_of, drain_message_queue}
use naleystogramm_core.Network.Reconnect.{Env}
use naleystogramm_core.Network.Handshake.{
  same_socket, is_doubled, enter_peer, on_handshake_ack, dispatch,
}
use naleystogramm_core.Network.Wire.{Frame, is_old, sanitize_ctrl}

same_socket_iff : (s o : Option ℕ) → (same_socket s o ≡ true) ↔ (s ≡ o)
same_socket_iff none none = (λ h. refl, λ h. refl)
same_socket_iff (some s) (some o) = (λ h. ap some (ground arith), λ h. same s o (cc))
  where
    same : (a b : ℕ) → a ≡ b → (a == b) ≡ true
    same a b e = ground arith
same_socket_iff none (some o) = (λ h. cc, λ h. cc)
same_socket_iff (some s) none = (λ h. cc, λ h. cc)

-- Another socket serves a connected peer of the UUID.
abbrev pub Served : (uuid : Text) → Option ℕ → Network → Type 0
Served uuid socket n =
    (d : PeerConnection) × (get uuid n.peers ≡ some d)
    × (is_connected d.state ≡ true)
    × (d.socket ≢ socket)

abbrev pub Expected : (uuid expected : Text) → Type 0
Expected uuid expected = (expected ≡ []) ⊎ (uuid ≡ expected)

-- The connection may become the peer's.
pub record IsWelcome (uuid version : Text) (c : PeerConnection) (n : Network) : Type 0 where
  pub valid : is_valid_uuid uuid ≡ true
  pub young : is_old version ≡ false
  pub expected : Expected uuid c.expected_uuid
  pub alone : ¬ (Served uuid c.socket n)

unserved :
    (o : Option PeerConnection) (uuid : Text) (socket : Option ℕ) (n : Network)
    → get uuid n.peers ≡ o
    → is_doubled o socket ≡ false
    → ¬ (Served uuid socket n)
unserved none uuid socket n e h (d, found, up, other) = cc
unserved (some c) uuid socket n e h (d, found, up, other) =
    let same : c ≡ d = cc in
    let quiet : is_doubled (some d) socket ≡ false =
      ap (λ x. is_doubled (some x) socket) (sym same) ∙ h in
    other ((same_socket_iff d.socket socket).0 (ground arith))

served :
    (o : Option PeerConnection) (uuid : Text) (socket : Option ℕ) (n : Network)
    → get uuid n.peers ≡ o
    → is_doubled o socket ≡ true
    → Served uuid socket n
served none uuid socket n e h = cc
served (some d) uuid socket n e h =
    (d, e, ground arith, λ same. ground (arith, (same_socket_iff d.socket socket).1 same))

unexpected :
    (uuid expected : Text)
    → (not (is_empty expected) && not (text_eq uuid expected)) ≡ true
    → ¬ (Expected uuid expected)
unexpected uuid [] h e = false≢true h
unexpected uuid (x ∷ xs) h (inl e) = cc
unexpected uuid (x ∷ xs) h (inr e) = ground (arith, (text_eq_iff uuid (x ∷ xs)).1 e)

as_expected :
    (uuid expected : Text)
    → (not (is_empty expected) && not (text_eq uuid expected)) ≡ false
    → Expected uuid expected
as_expected uuid [] h = inl refl
as_expected uuid (x ∷ xs) h = inr ((text_eq_iff uuid (x ∷ xs)).0 (ground arith))

-- What waits for a peer.
abbrev pub waiting : Option (List Text) → List Text
waiting none = []
waiting (some q) = q

drained :
    (o : Option (List Text)) (uuid : Text) (n : Network)
    → get uuid n.queues ≡ o
    → ((drain_of o uuid n).trace ≡ n.trace)
      × ((drain_of o uuid n).posted ≡ n.posted ++ map (λ msg. (uuid, msg)) (waiting o))
      × (waiting (get uuid (drain_of o uuid n).queues) ≡ [])
unfolding drain_of
drained none uuid n e = (refl, sym (append-nil n.posted), ap waiting e)
drained (some []) uuid n e = (refl, sym (append-nil n.posted), ap waiting e)
drained (some (m ∷ q)) uuid n e = (refl, refl, ap waiting (get-erase_self uuid n.queues))

-- The request with the code that the user entered, where there is one.
abbrev pub pair_requests : Env → Option ℕ → (code : Text) → List Effect
pair_requests env none code = []
pair_requests env (some s) [] = []
pair_requests env (some s) (x ∷ code) =
    wrote s (Out.pair_request env.own_uuid env.own_name (x ∷ code)) ∷ []

-- The connection and the manager with a new peer.
abbrev pub Entered :
    Env → (uuid name : Text) → PeerConnection → Network → PeerConnection × Network → Type 0
Entered env uuid name c n r =
    (r.0 ≡ record c { uuid = uuid; name = sanitize_ctrl name; pending_pair_code = [] })
    × (r.1.trace
        ≡ pair_requests env c.socket c.pending_pair_code
          ++ fired (peer_connected uuid (sanitize_ctrl name)) ∷ n.trace)
    × (r.1.posted ≡ n.posted ++ map (λ msg. (uuid, msg)) (waiting (get uuid n.queues)))
    × (waiting (get uuid r.1.queues) ≡ [])

enter_peer-Entered :
    (env : Env) (uuid name : Text) (c : PeerConnection) (n : Network)
    → Entered env uuid name c n (enter_peer env uuid name c n)
unfolding enter_peer drain_message_queue
enter_peer-Entered env uuid name c n =
    let (a, b, d) = asked c.socket c.pending_pair_code in (refl, a, b, d)
  where
    asked :
        (o : Option ℕ) (code : Text)
        → let n' = notify (peer_connected uuid (sanitize_ctrl name)) n in
          let m =
            if is_empty code
            then n'
            else write o (Out.pair_request env.own_uuid env.own_name code) n' in
          ((drain_of (get uuid m.queues) uuid m).trace
            ≡ pair_requests env o code
              ++ fired (peer_connected uuid (sanitize_ctrl name)) ∷ n.trace)
          × ((drain_of (get uuid m.queues) uuid m).posted
              ≡ n.posted ++ map (λ msg. (uuid, msg)) (waiting (get uuid n.queues)))
          × (waiting (get uuid (drain_of (get uuid m.queues) uuid m).queues) ≡ [])
    asked none [] = drained (get uuid n.queues) uuid _ refl
    asked none (x ∷ code) = drained (get uuid n.queues) uuid _ refl
    asked (some s) [] = drained (get uuid n.queues) uuid _ refl
    asked (some s) (x ∷ code) = drained (get uuid n.queues) uuid _ refl

-- A HANDSHAKE_ACK that accepts. Where the version is not too old, the UUID valid and, if one was expected,
-- that one, and no other socket serves a connected peer of that UUID, the connection takes the UUID and
-- the name and gives up its code, the user is told of the peer, a code that was entered is sent, if there is
-- a socket, and the messages that wait for the peer are posted, in order, none staying behind. In
-- every other case the connection is closed, and nothing else changes.
pub on_handshake_ack_lem :
    (env : Env) (now : Clock) (uuid version name : Text) (c : PeerConnection) (n : Network)
    → let r = dispatch env now (Frame.handshake_ack uuid version name) c n in
      (IsWelcome uuid version c n × Entered env uuid name c n r)
      ⊎ ((¬ (IsWelcome uuid version c n)) × (r ≡ (c, close c.socket n)))
unfolding dispatch on_handshake_ack
on_handshake_ack_lem env now uuid version name c n = elim (Bool-cases (is_old version)) [
  | inl old ↦ inr (λ w. false≢true (sym w.young ∙ old), rw old refl)
  | inr young ↦ elim (Bool-cases (is_valid_uuid uuid)) [
    | inr bad ↦ inr (λ w. false≢true (sym bad ∙ w.valid), rw (young, bad) refl)
    | inl valid ↦
        elim (Bool-cases (not (is_empty c.expected_uuid) && not (text_eq uuid c.expected_uuid))) [
          | inl wrong ↦
              inr (
                λ w. unexpected uuid c.expected_uuid wrong w.expected,
                rw (young, valid, wrong) refl,
              )
          | inr right ↦ elim (Bool-cases (is_doubled (get uuid n.peers) c.socket)) [
            | inl twice ↦ inr (
              λ w. w.alone (served (get uuid n.peers) uuid c.socket n refl twice),
              rw (young, valid, right, twice) refl,
            )
            | inr once ↦ inl (
              record {
                valid = valid;
                young = young;
                expected = as_expected uuid c.expected_uuid right;
                alone = unserved (get uuid n.peers) uuid c.socket n refl once;
              },
              rw (young, valid, right, once) (enter_peer-Entered env uuid name c n),
            )
          ]
        ]
  ]
]
