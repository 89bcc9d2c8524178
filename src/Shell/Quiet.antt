-- ===== src/Shell/Quiet.antt =====
-- What starts no process in src/shell/remoteshellmanager.cpp: the handlers and methods but the answer
-- to a challenge.
use naleystogramm_core.Prelude.{ℕ, ◌+◌, ◌≡◌, refl, Bool, true, false, Option, none, some, [], arith}
use naleystogramm_core.Prelude.Text.{Text, codes, text_eq_iff}
use naleystogramm_core.Prelude.Map.{Map, get, put, erase, get-erase, get-put}
use naleystogramm_core.Shell.{
  receiver, Session, Inner, shell_data, shell_input, Env, Shell, cleanup_session, reset_timer_of,
  reset_inactivity_timer, send_encrypted, request_shell, reject_request_of, respond_of,
  send_input_of, kill_of, kill_session, spawn_of, Role, initiator, escalation,
}
use naleystogramm_core.Shell.Frames.{
  on_request, on_challenge, on_accept, on_reject, on_kill, on_input, output_of, end_of, timeout_of,
}

abbrev pub runs : Option Session → Bool
runs none = false
runs (some d) = d.process

-- The session `id` has a process.
abbrev pub running : Text → Shell → Bool
running id s = runs (get id s.sessions)

-- No session has a process in `s'` that has none in `s`.
abbrev pub Quiet : Shell → Shell → Type 0
Quiet s' s = (id : Text) → running id s' ≡ true → running id s ≡ true

pub runs-erase :
    (id j : Text) (m : Map Session) → runs (get id (erase j m)) ≡ true → runs (get id m) ≡ true
runs-erase id j m h = ground (arith, get-erase j id m)

runs-put :
    (id j : Text) (d : Session) (m : Map Session)
    → d.process ≡ false
    → runs (get id (put j d m)) ≡ true
    → runs (get id m) ≡ true
runs-put id j d m p h = ground (arith, get-put j id d m)

runs-update :
    (id j : Text) (d d' : Session) (m : Map Session)
    → get j m ≡ some d
    → d'.process ≡ d.process
    → runs (get id (put j d' m)) ≡ true
    → runs (get id m) ≡ true
runs-update id j d d' m e p h = ground (arith, get-put j id d' m, text_eq_iff j id)

pub reset_of-Quiet :
    (o : Option Session) (j : Text) (s : Shell)
    → get j s.sessions ≡ o
    → Quiet (reset_timer_of o j s) s
unfolding reset_timer_of
reset_of-Quiet none j s e id h = h
reset_of-Quiet (some d) j s e id h = ground (
  arith,
  runs-update id j d (record d { timer_generation = d.timer_generation + 1 }) s.sessions e,
)

pub reset-Quiet : (j : Text) (s : Shell) → Quiet (reset_inactivity_timer j s) s
unfolding reset_inactivity_timer
reset-Quiet j s id h = reset_of-Quiet (get j s.sessions) j s refl id h

encrypted-Quiet :
    (env : Env) (peer : Text) (i : Inner) (s : Shell) → Quiet (send_encrypted env peer i s) s
unfolding send_encrypted
encrypted-Quiet env peer i s id h = ground arith

pub kill_of-Quiet :
    (o : Option Session) (j reason : Text) (s : Shell) → Quiet (kill_of o j reason s) s
unfolding kill_of cleanup_session
kill_of-Quiet none j reason s id h = h
kill_of-Quiet (some d) j reason s id h = runs-erase id j s.sessions h

pub spawn_of-Quiet : (d : Session) (j : Text) (s : Shell) → Quiet (spawn_of false (some d) j s) s
unfolding spawn_of
spawn_of-Quiet d j s id h = runs-erase id j s.sessions h

-- A session as a request makes it.
abbrev idle : Role → (peer name otp : Text) → Session
idle r peer name otp = record {
  role = r;
  peer_uuid = peer;
  peer_name = name;
  otp = otp;
  process = false;
  inactivity_timer = false;
  timer_generation = 0;
}

module _ (env : Env) where
  pub request-Quiet : (j peer : Text) (s : Shell) → Quiet (request_shell env j peer s) s
  unfolding request_shell
  request-Quiet j peer s id h =
      ground (arith, runs-put id j (idle initiator peer (env.peer_name peer) []) s.sessions refl)

  pub on_request-Quiet : (otp from j : Text) (s : Shell) → Quiet (on_request env otp from j s) s
  unfolding on_request
  on_request-Quiet otp from j s id h =
      ground (arith, runs-put id j (idle receiver from (env.peer_name from) otp) s.sessions refl)

  pub on_input-Quiet :
      (o : Option Session) (from j payload : Text) (s : Shell)
      → Quiet (on_input env o from j payload s) s
  unfolding on_input cleanup_session
  on_input-Quiet none from j payload s id h = h
  on_input-Quiet (some d) from j payload s id h =
      ground (arith, runs-erase id j s.sessions, reset-Quiet j s id)

  pub send_of-Quiet :
      (o : Option Session) (j payload : Text) (s : Shell)
      → Quiet (send_input_of env o j payload s) s
  unfolding send_input_of kill_session
  send_of-Quiet none j payload s id h = h
  send_of-Quiet (some d) j payload s id h = ground (
    arith,
    kill_of-Quiet (get j s.sessions) j escalation s id,
    encrypted-Quiet env d.peer_uuid (shell_input j payload) (reset_inactivity_timer j s) id,
    reset-Quiet j s id,
  )

  pub output_of-Quiet :
      (o : Option Session) (peer j out : Text) (s : Shell) → Quiet (output_of env o peer j out s) s
  unfolding output_of
  output_of-Quiet none peer j out s id h = h
  output_of-Quiet (some d) peer j out s id h =
      reset-Quiet j s id
        (encrypted-Quiet env peer (shell_data j out) (reset_inactivity_timer j s) id h)

  pub end_of-Quiet :
      (o : Option Session) (peer j reason : Text) (s : Shell) → Quiet (end_of o peer j reason s) s
  unfolding end_of cleanup_session
  end_of-Quiet none peer j reason s id h = h
  end_of-Quiet (some d) peer j reason s id h = runs-erase id j s.sessions h

  pub timeout_of-Quiet :
      (o : Option Session) (gen : ℕ) (j : Text) (s : Shell) → Quiet (timeout_of o gen j s) s
  unfolding timeout_of
  timeout_of-Quiet none gen j s id h = h
  timeout_of-Quiet (some d) gen j s id h =
      ground (arith, end_of-Quiet (some d) d.peer_uuid j (codes "timeout") s id)

  pub accept-Quiet :
      (o : Option Session) (from j : Text) (s : Shell) → Quiet (on_accept o from j s) s
  unfolding on_accept
  accept-Quiet none from j s id h = h
  accept-Quiet (some d) from j s id h = ground (arith, reset-Quiet j s id)

  pub challenge-Quiet :
      (o : Option Session) (from j : Text) (s : Shell) → Quiet (on_challenge o from j s) s
  unfolding on_challenge
  challenge-Quiet none from j s id h = h
  challenge-Quiet (some d) from j s id h = ground arith

  pub reject-Quiet :
      (o : Option Session) (j reason : Text) (s : Shell) → Quiet (on_reject o j reason s) s
  unfolding on_reject cleanup_session
  reject-Quiet none j reason s id h = h
  reject-Quiet (some d) j reason s id h = runs-erase id j s.sessions h

  pub kill-Quiet :
      (o : Option Session) (j reason : Text) (s : Shell) → Quiet (on_kill o j reason s) s
  unfolding on_kill cleanup_session
  kill-Quiet none j reason s id h = h
  kill-Quiet (some d) j reason s id h = runs-erase id j s.sessions h

  pub reject_of-Quiet :
      (o : Option Session) (j reason : Text) (s : Shell) → Quiet (reject_request_of o j reason s) s
  unfolding reject_request_of cleanup_session
  reject_of-Quiet none j reason s id h = h
  reject_of-Quiet (some d) j reason s id h = runs-erase id j s.sessions h

  pub respond_of-Quiet :
      (o : Option Session) (j password : Text) (s : Shell) → Quiet (respond_of o j password s) s
  unfolding respond_of
  respond_of-Quiet none j password s id h = h
  respond_of-Quiet (some d) j password s id h = ground arith
