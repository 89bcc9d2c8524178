-- ===== src/Network/Delivery.antt =====
-- Messages to a peer that is offline (src/net/network.cpp): a bounded queue, which is written in order
-- once the peer is there.
use mathlib.Core.Path.{subst}
use naleystogramm_core.Prelude.{
  ℕ, zero, suc, ◌+◌, ◌≡◌, refl, sym, ap, ◌∙◌, Bool, true, false, Option, none, some, List, [], ◌∷◌,
  ◌++◌, map, append_assoc, append-nil, ltb, length, length-append, take, arith,
}
use naleystogramm_core.Prelude.Text.{Text}
use naleystogramm_core.Prelude.Map.{get, is_some, get-put_self}
use naleystogramm_core.Network.Peers.{
  PeerConnection, Effect, wrote, payload, Network, emit, set_peer, is_in, is_open,
}
use naleystogramm_core.Network.Queue.{
  max_queue_size, queue_of, push, enqueue, send_to, send_now, drain_of, drain_message_queue,
  run_next, run_posted,
}

-- Pushing is a bounded queue: of what comes, the first that there is room for.
push_all : List Text → List Text → List Text
push_all [] q = q
push_all (m ∷ ms) q = push_all ms (push m q)

take_nil : (r : ℕ) → take {A = Text} r [] ≡ []
take_nil zero = refl
take_nil (suc r) = refl

push_all-take :
    (ms : List Text) (r : ℕ) (q : List Text)
    → length q + r ≡ max_queue_size
    → push_all ms q ≡ q ++ take r ms
unfolding push_all push
push_all-take [] r q h = sym (append-nil q) ∙ ap (λ l. q ++ l) (sym (take_nil r))
push_all-take (m ∷ ms) zero q h =
    let full : ltb (length q) max_queue_size ≡ false = ground arith in
    rw full (push_all-take ms zero q h)
push_all-take (m ∷ ms) (suc r) q h =
    let room : ltb (length q) max_queue_size ≡ true = ground arith in
    rw room (
      push_all-take ms r (q ++ m ∷ []) (omega (arith, length-append {A = Text} q (m ∷ [])))
      ∙ append_assoc q (m ∷ []) (take r ms))

-- The peer is reached neither by the relay nor by an open socket.
pub record IsOffline (uuid : Text) (n : Network) : Type 0 where
  pub unrelayed : is_some (get uuid n.relay_peers) ≡ false
  pub unreached :
      (c : PeerConnection) → get uuid n.peers ≡ some c → is_open c.socket n.closed ≡ false

-- Calls of sendFrame, run one after the other.
abbrev pub send_all : (ok : Bool) → (now : ℕ) → (uuid : Text) → List Text → Network → Network
send_all ok now uuid [] n = n
send_all ok now uuid (m ∷ ms) n = send_all ok now uuid ms (send_now ok now uuid m n)

send_to_offline :
    (ok : Bool) (now : ℕ) (o : Option PeerConnection) (uuid msg : Text) (n : Network)
    → ((c : PeerConnection) → o ≡ some c → is_open c.socket n.closed ≡ false)
    → send_to ok now o uuid msg n ≡ enqueue uuid msg n
unfolding send_to
send_to_offline ok now none uuid msg n h = refl
send_to_offline ok now (some c) uuid msg n h = rw (h c refl) refl

send_now_offline :
    (ok : Bool) (now : ℕ) (uuid msg : Text) (n : Network)
    → IsOffline uuid n
    → send_now ok now uuid msg n ≡ enqueue uuid msg n
unfolding send_now
send_now_offline ok now uuid msg n v =
    rw v.unrelayed (send_to_offline ok now (get uuid n.peers) uuid msg n v.unreached)

-- What sending to a peer that is offline does.
abbrev Queued : Text → List Text → (n' n : Network) → Type 0
Queued uuid ms n' n =
    (queue_of (get uuid n'.queues) ≡ push_all ms (queue_of (get uuid n.queues)))
    × (n'.posted ≡ n.posted)
    × (n'.trace ≡ n.trace)
    × (n'.closed ≡ n.closed)
    × (n'.relay_peers ≡ n.relay_peers)

send_all_offline :
    (ok : Bool) (now : ℕ) (uuid : Text) (ms : List Text) (n : Network)
    → IsOffline uuid n
    → Queued uuid ms (send_all ok now uuid ms n) n
unfolding enqueue push_all
send_all_offline ok now uuid [] n v = (refl, refl, refl, refl, refl)
send_all_offline ok now uuid (m ∷ ms) n v =
    let n1 = enqueue uuid m n in
    let w : IsOffline uuid n1 = record { unrelayed = v.unrelayed; unreached = v.unreached } in
    let (a, b, c, d, e) = send_all_offline ok now uuid ms n1 w in
    subst (λ x. Queued uuid (m ∷ ms) (send_all ok now uuid ms x) n)
      (sym (send_now_offline ok now uuid m n v))
      (
        a
            ∙ ap (λ o. push_all ms (queue_of o))
                (get-put_self uuid (push m (queue_of (get uuid n.queues))) n.queues),
        b,
        c,
        d,
        e,
      )

-- The frames of the messages, behind what was written before.
abbrev pub written : (socket : ℕ) → List Text → List Effect → List Effect
written s [] t = t
written s (m ∷ ms) t = written s ms (wrote s (payload m) ∷ t)

-- The peer is reached by the open socket s.
pub record IsOnline (uuid : Text) (s : ℕ) (n : Network) : Type 0 where
  pub unrelayed : is_some (get uuid n.relay_peers) ≡ false
  pub peer : PeerConnection
  pub found : get uuid n.peers ≡ some peer
  pub has_socket : peer.socket ≡ some s
  pub is_not_closed : is_in s n.closed ≡ false

send_now_online :
    (now : ℕ) (uuid msg : Text) (s : ℕ) (n : Network) (v : IsOnline uuid s n)
    → send_now true now uuid msg n
      ≡ emit (wrote s (payload msg)) (set_peer uuid (record v.peer { last_activity = now }) n)
unfolding send_now send_to
send_now_online now uuid msg s n v = rw (v.unrelayed, v.found, v.has_socket, v.is_not_closed) refl

run_writes :
    (now : ℕ) (uuid : Text) (s : ℕ) (ms : List Text) (n : Network)
    → IsOnline uuid s n
    → n.posted ≡ map (λ msg. (uuid, msg)) ms
    → (run_posted (length ms) true now n).trace ≡ written s ms n.trace
unfolding run_posted run_next
run_writes now uuid s [] n v h = refl
run_writes now uuid s (m ∷ ms) n v h =
    let rest = map (λ msg. (uuid, msg)) ms in
    let n1 = record n { posted = rest } in
    let v1 : IsOnline uuid s n1 = record {
      unrelayed = v.unrelayed;
      peer = v.peer;
      found = v.found;
      has_socket = v.has_socket;
      is_not_closed = v.is_not_closed;
    } in
    let c = record v.peer { last_activity = now } in
    ap (λ p. (run_posted (length ms) true now (run_next true now p n)).trace) h
    ∙ ap (λ x. (run_posted (length ms) true now x).trace) (send_now_online now uuid m s n1 v1)
    ∙ run_writes now uuid s ms _
        (record {
          unrelayed = v.unrelayed;
          peer = c;
          found = get-put_self uuid c n.peers;
          has_socket = v.has_socket;
          is_not_closed = v.is_not_closed;
        })
        refl

drain_posts :
    (uuid : Text) (o : Option (List Text)) (n : Network)
    → ((drain_of o uuid n).posted ≡ n.posted ++ map (λ msg. (uuid, msg)) (queue_of o))
      × ((drain_of o uuid n).trace ≡ n.trace)
      × ((drain_of o uuid n).relay_peers ≡ n.relay_peers)
      × ((drain_of o uuid n).peers ≡ n.peers)
      × ((drain_of o uuid n).closed ≡ n.closed)
unfolding drain_of
drain_posts uuid none n = (sym (append-nil _), refl, refl, refl, refl)
drain_posts uuid (some []) n = (sym (append-nil _), refl, refl, refl, refl)
drain_posts uuid (some (m ∷ q)) n = (refl, refl, refl, refl, refl)

-- Messages to a peer that is offline and has no queue, then the peer comes with an open socket, the
-- queue is drained and the posted calls run, each write with success: the first 100 of the messages
-- are written, in their order, and no other.
pub queued_in_order :
    (ok : Bool) (now later : ℕ) (uuid : Text) (ms : List Text) (c : PeerConnection) (s : ℕ)
    (n : Network)
    → IsOffline uuid n
    → get uuid n.queues ≡ none
    → n.posted ≡ []
    → c.socket ≡ some s
    → is_in s n.closed ≡ false
    → let n' = drain_message_queue uuid (set_peer uuid c (send_all ok now uuid ms n)) in
      (run_posted (length (take max_queue_size ms)) true later n').trace
      ≡ written s (take max_queue_size ms) n.trace
unfolding drain_message_queue
queued_in_order ok now later uuid ms c s n v e p k o =
    let n1 = send_all ok now uuid ms n in
    let n2 = set_peer uuid c n1 in
    let n3 = drain_of (get uuid n2.queues) uuid n2 in
    let (queued, posted, trace, closed, relay) = send_all_offline ok now uuid ms n v in
    let (d_posted, d_trace, d_relay, d_peers, d_closed) =
      drain_posts uuid (get uuid n2.queues) n2 in
    let kept : queue_of (get uuid n1.queues) ≡ take max_queue_size ms =
      queued ∙ ap (λ x. push_all ms (queue_of x)) e ∙ push_all-take ms max_queue_size [] refl in
    run_writes later uuid s (take max_queue_size ms) n3
      (record {
        unrelayed = ap (λ r. is_some (get uuid r)) (d_relay ∙ relay) ∙ v.unrelayed;
        peer = c;
        found = ap (λ m. get uuid m) d_peers ∙ get-put_self uuid c n1.peers;
        has_socket = k;
        is_not_closed = ap (λ x. is_in s x) (d_closed ∙ closed) ∙ o;
      })
      (d_posted
        ∙ ap (λ l. l ++ map (λ msg. (uuid, msg)) (queue_of (get uuid n1.queues))) (posted ∙ p)
        ∙ ap (λ q. map (λ msg. (uuid, msg)) q) kept)
    ∙ ap (λ t. written s (take max_queue_size ms) t) (d_trace ∙ trace)
