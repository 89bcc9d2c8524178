-- ===== src/Calls/Diagram.antt =====
-- The state diagram of the call manager (include/naleystogramm-core/calls/callmanager.h), as
-- callmanager.cpp runs it.
use naleystogramm_core.Prelude.{
  ℕ, ◌<◌, ◌≤◌, ◌≡◌, ◌≢◌, ◌⊎◌, none, some, [], ◌∷◌, if◌then◌else◌, false, arith,
}
use naleystogramm_core.Prelude.Text.{Text, text_eq, text_eq_refl, codes}
use naleystogramm_core.Calls.{
  CallState, idle, calling, ringing, in_call, ended, call_invite, call_accept, call_reject,
  call_end, Env, Calls, sent, fired, call_over, state_changed, on_call_timeout, on_ended, is,
  cancel_timers, uint16,
}
use naleystogramm_core.Calls.Methods.{start_media, end_call, handle_signaling, on_accept}
use naleystogramm_core.Calls.Events.{Event, timeout, over}
use naleystogramm_core.Calls.Shape.{IsValid}

infix 40 ◌⟶◌
pub data ◌⟶◌ : CallState → CallState → Type 0 where
  stay : {c : CallState} → c ⟶ c
  invite : idle ⟶ calling
  ring : idle ⟶ ringing
  answered : calling ⟶ in_call
  given_up : calling ⟶ idle
  picked_up : ringing ⟶ in_call
  declined : ringing ⟶ idle
  called_off : calling ⟶ ended
  missed : ringing ⟶ ended
  hung_up : in_call ⟶ ended
  cleared : ended ⟶ idle

ruleset edges = (
  stay, invite, ring, answered, given_up, picked_up, declined, called_off, missed, hung_up, cleared,
)

-- A timer callback is stale, or it is the one that is armed.
abbrev pub IsTimely : {M : Type 0} → Event M → Calls M → Type 0
IsTimely (timeout g) s = (g < s.generation) ⊎ (s.call_timeout ≡ some g)
IsTimely (over g) s = (g < s.generation) ⊎ (s.ended_timer ≡ some g)
IsTimely _ s = Unit

module _ {M : Type 0} (env : Env M) where
  -- A signal that names another call than the present one changes nothing, unless it is an
  -- invitation: neither a late answer nor a late end of an earlier call reaches a new one.
  pub foreign_signal :
      (from id : Text) (s : Calls M)
      → text_eq s.call_id id ≡ false
      → ((port : ℕ) → handle_signaling env from (call_accept id port) s ≡ s)
        × ((reason : Text) → handle_signaling env from (call_reject id reason) s ≡ s)
        × (handle_signaling env from (call_end id) s ≡ s)
  unfolding handle_signaling
  foreign_signal from id s h = (λ port. ground arith, λ reason. ground arith, ground arith)

  -- An invitation to a manager that is not idle is answered by a CALL_REJECT with the reason busy to
  -- its sender, and the present call is left as it is.
  pub busy :
      (from id salt : Text) (port : ℕ) (s : Calls M)
      → s.state ≢ idle
      → handle_signaling env from (call_invite id port salt) s
        ≡ record s { trace = sent from (call_reject id (codes "busy")) ∷ s.trace }
  unfolding handle_signaling
  busy from id salt port s h = ground arith

  stale_timeout : (g : ℕ) (s : Calls M) → g < s.generation → on_call_timeout g s ≡ s
  unfolding on_call_timeout
  stale_timeout g s h = ground arith

  start_media-generation :
      (ip : Text) (port : ℕ) (id salt : Text) (s : Calls M)
      → s.generation ≤ (start_media env ip port id salt s).generation
  unfolding start_media
  start_media-generation ip port id salt s = grind arith

  on_accept-generation :
      (from : Text) (port : ℕ) (s : Calls M)
      → s.state ≡ calling
      → s.generation < (on_accept env from s.call_id port s).generation
  unfolding on_accept
  on_accept-generation from port s c = ground (
    arith,
    text_eq_refl s.call_id,
    start_media-generation s.peer_ip (uint16 port) s.call_id s.pending_media_salt (cancel_timers s),
  )

  -- Once a CALL_ACCEPT has been taken, the callback of the 30 s timer that was armed for the call
  -- does nothing, even if it was already under way when the timer was cancelled.
  pub accept_outruns_timeout :
      (from : Text) (port g : ℕ) (s : Calls M)
      → IsValid s
      → s.state ≡ calling
      → s.call_timeout ≡ some g
      → let t = handle_signaling env from (call_accept s.call_id port) s in on_call_timeout g t ≡ t
  accept_outruns_timeout from port g s v c a = stale_timeout g _ (
      unfold handle_signaling in
      omega (arith, v.timeout_current g a, on_accept-generation from port s c))

  -- From every state but Idle, endCall and then the callback of the timer that it armed bring a
  -- valid manager back to Idle with no call, no peer and no timer.
  pub end_call_idles :
      (s : Calls M)
      → s.state ≢ idle
      → let t = end_call env s in
        let u = on_ended s.generation t in
        (t.state ≡ ended)
        × (u.state ≡ idle)
        × (u.call_id ≡ [])
        × (u.peer_uuid ≡ [])
        × (u.call_timeout ≡ none)
        × (u.ended_timer ≡ none)
  unfolding end_call on_ended
  end_call_idles s h = ground arith

  -- endCall of a call with a peer and an id sends exactly one frame, the CALL_END of this call to
  -- its peer, if the call was being placed, rung or held; after it has ended endCall sends nothing.
  pub end_call_tells :
      (s : Calls M)
      → s.call_id ≢ []
      → s.peer_uuid ≢ []
      → s.state ≢ idle
      → (end_call env s).trace ≡ (
          if is s.state ended
          then fired (call_over s.peer_uuid) ∷ s.trace
          else fired (call_over s.peer_uuid)
            ∷ fired (state_changed ended)
            ∷ sent s.peer_uuid (call_end s.call_id)
            ∷ s.trace)
  unfolding end_call
  end_call_tells s h k n = ground arith

  -- The end of a ringing call by the caller leads to Ended, not to Idle, and only the timer's
  -- callback leads on.
  pub cancelled_ringing :
      (from : Text) (s : Calls M)
      → s.state ≡ ringing
      → (handle_signaling env from (call_end s.call_id) s).state ≡ ended
  unfolding handle_signaling
  cancelled_ringing from s r = ground (arith, text_eq_refl s.call_id)
