-- ===== src/Calls/Shape.antt =====
-- The invariant of the call manager (src/calls/callmanager.cpp).
use naleystogramm_core.Prelude.{
  ℕ, ◌≡◌, ◌≢◌, ◌⊎◌, inl, inr, refl, Bool, true, false, Bool-cases, Option, none, some, [], arith,
}
use naleystogramm_core.Prelude.Text.{Text, is_empty}
use naleystogramm_core.Calls.{
  idle, calling, ringing, in_call, ended, Signal, call_invite, call_accept, call_reject, call_end,
  other, Env, Calls, set_state, cancel_timers, fail, uint16, reset_state, on_call_timeout, on_ended,
  reject_call, set_media_engine,
}
use naleystogramm_core.Calls.Methods.{
  relayed, launch, start_media_with, start_media, initiate_call, accept_call, end_call,
  handle_signaling,
}
use naleystogramm_core.Calls.Events.{
  Event, initiate, accept, reject, finish, signal, timeout, over, attach, step,
}

module _ {M : Type 0} where
  -- An idle manager remembers no call and has no timer; an armed timer carries the present
  -- generation, so its callback is not taken for a stale one; the timer of 1 s is armed exactly
  -- when a call has ended, and the one of 30 s at most while we call or after that call has ended.
  pub record IsValid (s : Calls M) : Type 0 where
    pub idle_clean :
        s.state ≡ idle → (s.call_id ≡ []) × (s.peer_uuid ≡ []) × (s.pending_media_salt ≡ [])
    pub idle_unarmed : s.state ≡ idle → (s.call_timeout ≡ none) × (s.ended_timer ≡ none)
    pub timeout_current : (g : ℕ) → s.call_timeout ≡ some g → g ≡ s.generation
    pub ended_current : (g : ℕ) → s.ended_timer ≡ some g → g ≡ s.generation
    pub ended_armed : s.ended_timer ≢ none → s.state ≡ ended
    pub ended_has_timer : s.state ≡ ended → s.ended_timer ≢ none
    pub timeout_armed : s.call_timeout ≢ none → (s.state ≡ calling) ⊎ (s.state ≡ ended)

  -- A manager that is about to start the media: the call has not ended, and no timer runs.
  record IsReady (s : Calls M) : Type 0 where
    valid : IsValid s
    not_ended : s.state ≢ ended
    unarmed : s.call_timeout ≡ none

  cancel_timers-IsReady : (s : Calls M) → s.state ≡ calling → IsValid s → IsReady (cancel_timers s)
  unfolding cancel_timers
  cancel_timers-IsReady s h v = ground arith

  ringing-IsReady : (s : Calls M) → s.state ≡ ringing → IsValid s → IsReady s
  ringing-IsReady s h v = record { valid = v; not_ended = ground arith; unarmed = unarmed }
    where
      unarmed : s.call_timeout ≡ none
      unarmed = ground (arith, v.timeout_armed)

  media-IsReady : (m : Option M) (s : Calls M) → IsReady s → IsReady (record s { media = m })
  media-IsReady m s r = ground arith

  reset_state-IsReady : (s : Calls M) → IsReady (reset_state s)
  unfolding reset_state
  reset_state-IsReady s = ground arith

  enter-IsValid : (s : Calls M) → IsReady s → IsValid (set_state in_call s)
  unfolding set_state
  enter-IsValid s r = ground arith

module _ {M : Type 0} (env : Env M) where
  abbrev IsOutcome : (s t : Calls M) → Type 0
  IsOutcome s t =
      ((m : Option M) × (t ≡ record s { media = m })) ⊎ ((u : Calls M) × (t ≡ reset_state u))

  launch_cases :
      (m : M) (ip : Text) (port : ℕ) (key : Text) (s : Calls M)
      → IsOutcome s (launch env m ip port key s)
  unfolding launch
  launch_cases m ip port key s = go (env.start_call (relayed env s.peer_uuid m) ip port key) refl
    where
      go :
          (r : M × Bool)
          → env.start_call (relayed env s.peer_uuid m) ip port key ≡ r
          → IsOutcome s (launch env m ip port key s)
      go (m', true) e = inl (some m', rw (e, launch) refl)
      go (m', false) e = inr (record s { media = some m' }, rw (e, launch) refl)

  -- Starting the media engine fails by a reset, or leaves all but the engine as it was.
  start_media_cases :
      (o : Option M) (ip : Text) (port : ℕ) (id salt : Text) (s : Calls M)
      → IsOutcome s (start_media_with env o ip port id salt s)
  unfolding start_media_with
  start_media_cases none ip port id salt s = inl (s.media, refl)
  start_media_cases (some m) ip port id salt s = elim (Bool-cases (env.has_session s.peer_uuid)) [
    | inr no_session ↦ inr (fail "no E2E session" s, rw no_session refl)
    | inl session ↦ elim (Bool-cases (is_empty (env.snapshot_media_key s.peer_uuid id salt))) [
      | inl empty ↦ inr (fail "no media key" s, rw (session, empty) refl)
      | inr key ↦
          rw (session, key) (launch_cases m ip port (env.snapshot_media_key s.peer_uuid id salt) s)
    ]
  ]

  start_media-IsReady :
      (ip : Text) (port : ℕ) (id salt : Text) (s : Calls M)
      → IsReady s
      → IsReady (start_media env ip port id salt s)
  unfolding start_media
  start_media-IsReady ip port id salt s r = elim (start_media_cases s.media ip port id salt s) [
    | inl (m, kept) ↦ rw kept (media-IsReady m s r)
    | inr (t, reset) ↦ rw reset (reset_state-IsReady t)
  ]

  signal-IsValid :
      (from : Text) (sig : Signal) (s : Calls M)
      → IsValid s
      → IsValid (handle_signaling env from sig s)
  unfolding handle_signaling
  signal-IsValid from (call_invite id port salt) s v = grind arith
  signal-IsValid from (call_accept id port) s v = ground (
    arith,
    cancel_timers-IsReady s,
    start_media-IsReady s.peer_ip (uint16 port) id s.pending_media_salt (cancel_timers s),
  )
  signal-IsValid from (call_reject id reason) s v = grind arith
  signal-IsValid from (call_end id) s v = grind arith
  signal-IsValid from other s v = v

  accept-IsValid : (id : Text) (s : Calls M) → IsValid s → IsValid (accept_call env id s)
  unfolding accept_call
  accept-IsValid id s v = ground (
    arith,
    ringing-IsReady s,
    start_media-IsReady s.peer_ip s.pending_caller_udp_port id s.pending_media_salt s,
  )

  pub step-IsValid : (e : Event M) (s : Calls M) → IsValid s → IsValid (step env e s)
  unfolding step initiate_call reject_call end_call on_call_timeout on_ended set_media_engine
  step-IsValid (initiate salt id bound peer ip) s v = grind arith
  step-IsValid (accept id) s v = accept-IsValid id s v
  step-IsValid (reject id reason) s v = grind arith
  step-IsValid finish s v = grind arith
  step-IsValid (signal from sig) s v = signal-IsValid from sig s v
  step-IsValid (timeout g) s v = grind arith
  step-IsValid (over g) s v = grind arith
  step-IsValid (attach m) s v = grind arith
