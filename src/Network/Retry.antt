-- ===== src/Network/Retry.antt =====
-- The reconnections of src/net/network.cpp over many rounds.
use naleystogramm_core.Prelude.{
  ℕ, zero, suc, ◌+◌, ◌≤◌, ◌<◌, ◌≡◌, refl, ap, ◌∙◌, true, false, Option, none, some, ◌∷◌, leb, arith,
}
use naleystogramm_core.Prelude.Text.{Text}
use naleystogramm_core.Prelude.Map.{get, is_some, get-put_self, get-erase_self}
use naleystogramm_core.Network.Peers.{
  reconnecting, state_changed, notify, ReconnectInfo, cancelled, Network,
}
use naleystogramm_core.Network.Reconnect.{
  Env, max_reconnect_attempts, attempts_of, cancel_timer, give_up, arm_reconnect, schedule_of,
  schedule_reconnect, is_linked_up, connect_to_peer, attempt_of, attempt_reconnect,
  on_reconnect_timer, reset_reconnect_state,
}
use naleystogramm_core.Network.Incoming.{on_connect_failed}

-- The timer fires, and the connection that is tried then fails.
unfoldable pub round : Env → (now : ℕ) → (uuid : Text) → Network → Network
round env now uuid n = on_connect_failed uuid (on_reconnect_timer env now false uuid n)

unfoldable pub rounds : (k : ℕ) → Env → (now : ℕ) → (uuid : Text) → Network → Network
rounds zero env now uuid n = n
rounds (suc k) env now uuid n = round env now uuid (rounds k env now uuid n)

-- The peer is not connected, and k attempts were made to reach it at that address.
pub record IsRetrying (uuid : Text) (info : ReconnectInfo) (k : ℕ) (n : Network) : Type 0 where
  pub wanted : get uuid n.reconnect_info ≡ some info
  pub attempts : attempts_of (get uuid n.reconnect_attempts) ≡ k
  pub unlinked : is_linked_up (get uuid n.peers) ≡ false

-- Nothing is kept of the peer.
pub record IsForgotten (uuid : Text) (n : Network) : Type 0 where
  pub unwanted : get uuid n.reconnect_info ≡ none
  pub unqueued : get uuid n.queues ≡ none
  pub unarmed : get uuid n.timers ≡ none

on_timer_dials :
    (env : Env) (now : ℕ) (uuid : Text) (info : ReconnectInfo) (k : ℕ) (n : Network)
    → env.client_server ≡ false
    → env.valid_address info.ip ≡ true
    → IsRetrying uuid info k n
    → IsRetrying uuid info (suc k) (on_reconnect_timer env now false uuid n)
      × (get uuid (on_reconnect_timer env now false uuid n).timers ≡ none)
unfolding on_reconnect_timer attempt_reconnect attempt_of connect_to_peer
on_timer_dials env now uuid info k n direct valid r =
    rw (r.wanted, r.unlinked, direct, valid)
      (
        record {
          wanted = get-put_self uuid info n.reconnect_info;
          attempts =
              ap attempts_of (
                get-put_self uuid (attempts_of (get uuid n.reconnect_attempts) + 1)
                  n.reconnect_attempts)
              ∙ ap (λ a. a + 1) r.attempts
              ∙ omega arith;
          unlinked = r.unlinked;
        },
        get-erase_self uuid n.timers,
      )

cancel_keeps :
    (uuid : Text) (info : ReconnectInfo) (k : ℕ) (t : Option ℕ) (n : Network)
    → IsRetrying uuid info k n
    → IsRetrying uuid info k (cancel_timer t n)
cancel_keeps uuid info k none n r = r
cancel_keeps uuid info k (some t) n r = record {
  wanted = r.wanted;
  attempts = r.attempts;
  unlinked = r.unlinked;
}

-- Below the limit another timer is armed.
schedule_arms :
    (uuid : Text) (info : ReconnectInfo) (k : ℕ) (n : Network)
    → IsRetrying uuid info k n
    → k < max_reconnect_attempts
    → IsRetrying uuid info k (schedule_reconnect uuid n)
      × (get uuid (schedule_reconnect uuid n).timers ≡ some n.next_timer)
unfolding schedule_reconnect schedule_of arm_reconnect
schedule_arms uuid info k n r h =
    let below : leb max_reconnect_attempts (attempts_of (get uuid n.reconnect_attempts)) ≡ false =
      ap (λ a. leb max_reconnect_attempts a) r.attempts ∙ ground arith in
    let c =
      cancel_keeps uuid info k (get uuid n.timers) (notify (state_changed uuid reconnecting) n)
        (record { wanted = r.wanted; attempts = r.attempts; unlinked = r.unlinked }) in
    rw (r.wanted, below)
      (
        record { wanted = c.wanted; attempts = c.attempts; unlinked = c.unlinked },
        get-put_self uuid n.next_timer n.timers,
      )

-- At the limit the peer is forgotten.
schedule_forgets :
    (uuid : Text) (info : ReconnectInfo) (k : ℕ) (n : Network)
    → IsRetrying uuid info k n
    → max_reconnect_attempts ≤ k
    → get uuid n.timers ≡ none
    → IsForgotten uuid (schedule_reconnect uuid n)
unfolding schedule_reconnect schedule_of give_up
schedule_forgets uuid info k n r h idle =
    let reached : leb max_reconnect_attempts (attempts_of (get uuid n.reconnect_attempts)) ≡ true =
      ap (λ a. leb max_reconnect_attempts a) r.attempts ∙ ground arith in
    rw (r.wanted, reached)
      (record {
        unwanted = get-erase_self uuid n.reconnect_info;
        unqueued = get-erase_self uuid n.queues;
        unarmed = idle;
      })

-- A round below the limit, and the round that reaches it.
module _ (env : Env) (now : ℕ) (uuid : Text) (info : ReconnectInfo)
    (direct : env.client_server ≡ false) (valid : env.valid_address info.ip ≡ true) where
  round_goes_on :
      (k : ℕ) (n : Network)
      → IsRetrying uuid info k n
      → suc k < max_reconnect_attempts
      → IsRetrying uuid info (suc k) (round env now uuid n)
        × (is_some (get uuid (round env now uuid n).timers) ≡ true)
  unfolding round on_connect_failed
  round_goes_on k n r h =
      let (dialled, idle) = on_timer_dials env now uuid info k n direct valid r in
      let (retrying, armed_at) = schedule_arms uuid info (suc k) _ dialled h in
      (retrying, ap is_some armed_at)

  round_forgets :
      (k : ℕ) (n : Network)
      → IsRetrying uuid info k n
      → max_reconnect_attempts ≤ suc k
      → IsForgotten uuid (round env now uuid n)
  unfolding round on_connect_failed
  round_forgets k n r h =
      let (dialled, idle) = on_timer_dials env now uuid info k n direct valid r in
      schedule_forgets uuid info (suc k) _ dialled h idle

  rounds_retry :
      (k : ℕ) (n : Network)
      → IsRetrying uuid info 0 n
      → k < max_reconnect_attempts
      → IsRetrying uuid info k (rounds k env now uuid n)
  unfolding rounds
  rounds_retry zero n r h = r
  rounds_retry (suc k) n r h =
      (round_goes_on k (rounds k env now uuid n) (rounds_retry k n r (omega arith)) h).0

-- A peer at an address that the code takes, not reached by the relay, to which no attempt was made
-- yet, where every connection that is tried fails: before the fiftieth attempt the peer is still wanted
-- and each round arms a timer for the next; with the fiftieth the attempts end: no timer is armed and
-- nothing is kept of the peer, its queue included.
pub gives_up :
    (env : Env) (now : ℕ) (uuid : Text) (info : ReconnectInfo) (k : ℕ) (n : Network)
    → env.client_server ≡ false
    → env.valid_address info.ip ≡ true
    → IsRetrying uuid info 0 n
    → (suc k < max_reconnect_attempts
        → IsRetrying uuid info (suc k) (round env now uuid (rounds k env now uuid n))
          × (is_some (get uuid (round env now uuid (rounds k env now uuid n)).timers) ≡ true))
      × IsForgotten uuid (round env now uuid (rounds 49 env now uuid n))
gives_up env now uuid info k n direct valid r = (
  λ h.
      round_goes_on env now uuid info direct valid k (rounds k env now uuid n)
        (rounds_retry env now uuid info direct valid k n r (omega arith)) h,
  round_forgets env now uuid info direct valid 49 (rounds 49 env now uuid n)
      (rounds_retry env now uuid info direct valid 49 n r (omega arith)) (omega arith),
)

-- A timer waits to reconnect when another reconnection is scheduled, below the limit. The first timer is
-- cancelled, but its callback erases what is kept under the peer, the second timer: when the peer is
-- connected then, that timer is not cancelled.
pub stale_cancel :
    (env : Env) (now : ℕ) (uuid : Text) (info : ReconnectInfo) (k first : ℕ) (n : Network)
    → IsRetrying uuid info k n
    → k < max_reconnect_attempts
    → get uuid n.timers ≡ some first
    → let n1 = schedule_reconnect uuid n in
      let n2 = on_reconnect_timer env now true uuid n1 in
      (get uuid n1.timers ≡ some n.next_timer)
      × (get uuid n2.timers ≡ none)
      × ((reset_reconnect_state uuid n2).trace ≡ n2.trace)
      × ((reset_reconnect_state uuid n1).trace ≡ cancelled n.next_timer ∷ n1.trace)
unfolding on_reconnect_timer reset_reconnect_state
stale_cancel env now uuid info k first n r h waiting =
    let n1 = schedule_reconnect uuid n in
    let armed_at = (schedule_arms uuid info k n r h).1 in
    (
      armed_at,
      get-erase_self uuid n1.timers,
      rw (get-erase_self uuid n1.timers) refl,
      rw armed_at refl,
    )
