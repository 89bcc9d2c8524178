-- ===== src/Calls/Events.antt =====
-- What can happen to the call manager (src/calls/callmanager.cpp), in any order.
use naleystogramm_core.Prelude.{ℕ, Option, List, [], ◌∷◌}
use naleystogramm_core.Prelude.Text.{Text}
use naleystogramm_core.Calls.{
  Signal, Env, Calls, on_call_timeout, on_ended, reject_call, set_media_engine,
}
use naleystogramm_core.Calls.Methods.{initiate_call, accept_call, end_call, handle_signaling}

-- What can happen to the manager: the calls of its methods with what they draw from outside, a
-- frame, and the two timer callbacks.
pub data Event (M : Type 0) : Type 0 where
  initiate : (salt call_id : Text) → Option ℕ → (peer ip : Text) → Event M
  accept : Text → Event M
  reject : (call_id reason : Text) → Event M
  finish : Event M
  signal : (from : Text) → Signal → Event M
  timeout over : ℕ → Event M
  attach : Option M → Event M

module _ {M : Type 0} (env : Env M) where
  unfoldable pub step : Event M → Calls M → Calls M
  step (initiate salt id bound peer ip) s = initiate_call env salt id bound peer ip s
  step (accept id) s = accept_call env id s
  step (reject id reason) s = reject_call id reason s
  step finish s = end_call env s
  step (signal from sig) s = handle_signaling env from sig s
  step (timeout gen) s = on_call_timeout gen s
  step (over gen) s = on_ended gen s
  step (attach m) s = set_media_engine m s

  unfoldable pub run : List (Event M) → Calls M → Calls M
  run [] s = s
  run (e ∷ es) s = run es (step e s)
