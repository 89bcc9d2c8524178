-- ===== src/Updates/Events.antt =====
-- What happens to the checker of src/diag/updatechecker.cpp, and how often a listener is called.
use naleystogramm_core.Prelude.{
  ℕ, ◌+◌, ◌==◌, Bool, false, ◌||◌, Option, none, some, List, [], ◌∷◌, if◌then◌else◌,
}
use naleystogramm_core.Prelude.Text.{Text}
use naleystogramm_core.Updates.Listeners.{
  Call, told_available, told_no_update, told_failed, told_started, Checker,
  subscribe_update_available, subscribe_no_update, subscribe_check_failed, subscribe_check_started,
  unsubscribe, call_pending,
}
use naleystogramm_core.Updates.Check.{Reply, Env, on_reply, check_now, destroy, check_in_background}

-- What happens to a checker.
pub data Event : Type 0 where
  subscribe_available subscribe_none subscribe_failed subscribe_started : Event
  leave : (token : ℕ) → Event
  now_clicked destroyed : Event
  called : (k : ℕ) → Event
  background : (auto_check : Bool) → (now : ℕ) → Event
  reply : (now_iso : Text) → Reply → Event

-- A thread that throws ends the program; the last state stays.
abbrev pub or_last : Option Checker → Checker → Checker
or_last none s = s
or_last (some s') s = s'

unfoldable pub step : Env → Event → Checker → Checker
step env subscribe_available s = (subscribe_update_available s).0
step env subscribe_none s = (subscribe_no_update s).0
step env subscribe_failed s = (subscribe_check_failed s).0
step env subscribe_started s = (subscribe_check_started s).0
step env (leave t) s = unsubscribe t s
step env now_clicked s = check_now s
step env destroyed s = destroy s
step env (called k) s = call_pending k s
step env (background auto_check now) s = check_in_background env auto_check now s
step env (reply now_iso r) s = or_last (on_reply env now_iso r s) s

unfoldable pub run : Env → List Event → Checker → Checker
run env [] s = s
run env (e ∷ es) s = run env es (step env e s)

unfoldable pub listed : ℕ → List ℕ → Bool
listed t [] = false
listed t (u ∷ us) = u == t || listed t us

abbrev pub token_of : Call → ℕ
token_of (told_available t info) = t
token_of (told_no_update t v) = t
token_of (told_failed t e) = t
token_of (told_started t) = t

-- How often a token is called.
unfoldable pub calls : ℕ → List Call → ℕ
calls t [] = 0
calls t (c ∷ cs) = (if token_of c == t then 1 else 0) + calls t cs

-- The calls of a token that were made, and those that are still to be made.
abbrev pub heard : ℕ → Checker → ℕ
heard t s = calls t s.trace + calls t s.pending
