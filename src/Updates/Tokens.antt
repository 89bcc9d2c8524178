-- ===== src/Updates/Tokens.antt =====
-- A listener that is unsubscribed is not called again (src/diag/updatechecker.cpp).
use naleystogramm_core.Prelude.{
  ℕ, ◌+◌, ◌^◌, ◌<◌, ◌≤◌, ◌≡◌, refl, ◌∙◌, false, List, [], ◌∷◌, ◌++◌, length, arith,
}
use naleystogramm_core.Updates.Listeners.{
  Checker, subscribe_update_available, subscribe_no_update, subscribe_check_failed,
  subscribe_check_started, unsubscribe,
}
use naleystogramm_core.Updates.Check.{Env, check_now, destroy}
use naleystogramm_core.Updates.Events.{
  Event, subscribe_available, subscribe_none, subscribe_failed, subscribe_started, leave,
  now_clicked, destroyed, called, background, reply, step, run, listed, calls, heard,
}
use naleystogramm_core.Updates.Silence.{
  IsOut, Silent, listed-drop_token, listed-last, still-IsOut, do_check-Silent, background-Silent,
  reply-Silent, call_pending-Silent,
}

-- A new token is another one, while the counter does not wrap.
added :
    (t : ℕ) (s : Checker) (us : List ℕ)
    → IsOut t s
    → listed t us ≡ false
    → listed t (us ++ s.next_token ∷ []) ≡ false
added t s us o h = ground (arith, listed-last t s.next_token us, o.given)

step-Silent :
    (t : ℕ) (env : Env) (e : Event) (s : Checker)
    → s.next_token + 1 < 2 ^ 32
    → IsOut t s
    → Silent t s (step env e s)
unfolding step subscribe_update_available subscribe_no_update subscribe_check_failed
    subscribe_check_started unsubscribe check_now destroy
step-Silent t env subscribe_available s small o = (
  record {
    given = omega (arith, o.given);
    not_available = added t s s.on_available o o.not_available;
    not_none = o.not_none;
    not_failed = o.not_failed;
    not_started = o.not_started;
  },
  refl,
  omega arith,
)
step-Silent t env subscribe_none s small o = (
  record {
    given = omega (arith, o.given);
    not_available = o.not_available;
    not_none = added t s s.on_no_update o o.not_none;
    not_failed = o.not_failed;
    not_started = o.not_started;
  },
  refl,
  omega arith,
)
step-Silent t env subscribe_failed s small o = (
  record {
    given = omega (arith, o.given);
    not_available = o.not_available;
    not_none = o.not_none;
    not_failed = added t s s.on_failed o o.not_failed;
    not_started = o.not_started;
  },
  refl,
  omega arith,
)
step-Silent t env subscribe_started s small o = (
  record {
    given = omega (arith, o.given);
    not_available = o.not_available;
    not_none = o.not_none;
    not_failed = o.not_failed;
    not_started = added t s s.on_started o o.not_started;
  },
  refl,
  omega arith,
)
step-Silent t env (leave u) s small o = (
  record {
    given = o.given;
    not_available = ground (arith, listed-drop_token t u s.on_available, o.not_available);
    not_none = ground (arith, listed-drop_token t u s.on_no_update, o.not_none);
    not_failed = ground (arith, listed-drop_token t u s.on_failed, o.not_failed);
    not_started = ground (arith, listed-drop_token t u s.on_started, o.not_started);
  },
  refl,
  omega arith,
)
step-Silent t env now_clicked s small o = do_check-Silent t s o
step-Silent t env destroyed s small o =
    (still-IsOut t s s.cached false s.last_check s.requests s.pending o, refl, omega arith)
step-Silent t env (called k) s small o = call_pending-Silent t k s o
step-Silent t env (background auto_check now) s small o = background-Silent t env auto_check now s o
step-Silent t env (reply now_iso r) s small o = reply-Silent t env now_iso r s o

run-Silent :
    (t : ℕ) (env : Env) (es : List Event) (s : Checker)
    → s.next_token + length es < 2 ^ 32
    → IsOut t s
    → heard t (run env es s) ≡ heard t s
unfolding run
run-Silent t env [] s small o = refl
run-Silent t env (e ∷ es) s small o =
    let (o', same, near) = step-Silent t env e s (omega arith) o in
    run-Silent t env es (step env e s) (omega arith) o' ∙ same

-- A listener whose token was given out is called, once it is unsubscribed, at most as often as it stands in
-- the copies of the listeners that notifications had taken before; each call of these that is made is one
-- less to be made, and no more come up, whatever the checker goes through: more subscriptions, checks, their
-- replies, and the threads' calls in any order; as long as fewer than 2^32 tokens are given out.
pub unsubscribed_silent :
    (t : ℕ) (env : Env) (es : List Event) (s : Checker)
    → t < s.next_token
    → s.next_token + length es < 2 ^ 32
    → let s' = run env es (unsubscribe t s) in
      (calls t s'.trace ≤ calls t s.trace + calls t s.pending)
      × (calls t s'.trace + calls t s'.pending ≡ calls t s.trace + calls t s.pending)
unfolding unsubscribe
unsubscribed_silent t env es s given small = (omega (arith, same), same)
  where
    same : heard t (run env es (unsubscribe t s)) ≡ heard t s
    same = run-Silent t env es (unsubscribe t s) small (record {
      given = given;
      not_available = ground (arith, listed-drop_token t t s.on_available);
      not_none = ground (arith, listed-drop_token t t s.on_no_update);
      not_failed = ground (arith, listed-drop_token t t s.on_failed);
      not_started = ground (arith, listed-drop_token t t s.on_started);
    })
