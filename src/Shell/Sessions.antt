-- ===== src/Shell/Sessions.antt =====
-- What holds of the sessions of src/shell/remoteshellmanager.cpp between two events.
use naleystogramm_core.Prelude.{
  ◌+◌, ◌≤◌, ◌≡◌, ◌≢◌, refl, Bool, true, false, Option, none, some, List, [], ◌∷◌, length, arith,
  dec_lt, Bool-cases, inl, inr,
}
use naleystogramm_core.Prelude.Text.{Text, text_eq_refl}
use naleystogramm_core.Prelude.Map.{Map, get, put, erase, get-put_self}
use naleystogramm_core.Shell.{
  initiator, receiver, Session, Inner, shell_input, Effect, Env, Shell, escalation, reset_timer_of,
  reject_request_of, kill_of, respond_of, send_input_of, spawn_of, max_concurrent_sessions,
  set_session, cleanup_session, reset_inactivity_timer, send_encrypted, is_initiator, spawn_process,
  request_shell, kill_session,
}
use naleystogramm_core.Shell.Frames.{on_response, otp_matches}

-- The initiator's session holds no password, process or timer. A receiver's session has a process
-- only once its password has been used up, and then the timer too; before, it has a password.
pub record IsSound (d : Session) : Type 0 where
  pub initiator_bare :
      d.role ≡ initiator → (d.process ≡ false) × (d.inactivity_timer ≡ false) × (d.otp ≡ [])
  pub running : d.process ≡ true → (d.otp ≡ []) × (d.inactivity_timer ≡ true)
  pub waiting : d.role ≡ receiver → d.process ≡ false → d.otp ≢ []

abbrev pub AllSound : Map Session → Type 0
AllSound [] = Unit
AllSound ((k, d) ∷ m) = IsSound d × AllSound m

-- At most one session, and every session sound.
pub record IsValid (s : Shell) : Type 0 where
  pub one : length s.sessions ≤ max_concurrent_sessions
  pub sound : AllSound s.sessions

pub get-IsSound :
    (k : Text) (m : Map Session) (d : Session) → AllSound m → get k m ≡ some d → IsSound d
unfolding get
get-IsSound k [] d h e = cc
get-IsSound k ((j, c) ∷ m) d h e = ground (arith, get-IsSound k m d h.1)

erase-AllSound : (k : Text) (m : Map Session) → AllSound m → AllSound (erase k m)
unfolding erase
erase-AllSound k [] h = tt
erase-AllSound k ((j, d) ∷ m) h = ground (arith, erase-AllSound k m h.1)

length-erase : (k : Text) (m : Map Session) → length (erase k m) ≤ length m
unfolding erase
length-erase k [] = omega arith
length-erase k ((j, d) ∷ m) = ground (arith, length-erase k m)

length-erase_held :
    (k : Text) (m : Map Session) (d : Session)
    → get k m ≡ some d
    → length (erase k m) + 1 ≤ length m
unfolding erase get
length-erase_held k [] d e = cc
length-erase_held k ((j, c) ∷ m) d e = ground (arith, length-erase k m, length-erase_held k m d)

pub cleanup-IsValid : (id : Text) (s : Shell) → IsValid s → IsValid (cleanup_session id s)
unfolding cleanup_session
cleanup-IsValid id s v = record {
  one = omega (arith, length-erase id s.sessions, v.one);
  sound = erase-AllSound id s.sessions v.sound;
}

-- A session that is there is replaced by a sound one.
update-IsValid :
    (id : Text) (d d' : Session) (s : Shell)
    → IsValid s
    → get id s.sessions ≡ some d
    → IsSound d'
    → IsValid (set_session id d' s)
unfolding put
update-IsValid id d d' s v e h = record {
  one = omega (arith, length-erase_held id s.sessions d e, v.one);
  sound = (h, erase-AllSound id s.sessions v.sound);
}

pub new-IsValid :
    (id : Text) (d : Session) (s : Shell)
    → IsValid s
    → length s.sessions ≡ 0
    → IsSound d
    → IsValid (set_session id d s)
unfolding put
new-IsValid id d s v e h = record {
  one = omega (arith, length-erase id s.sessions);
  sound = (h, erase-AllSound id s.sessions v.sound);
}

-- A handler looks its session up, and goes on with what it found.
reset_of-IsValid :
    (o : Option Session) (id : Text) (s : Shell)
    → IsValid s
    → get id s.sessions ≡ o
    → IsValid (reset_timer_of o id s)
unfolding reset_timer_of
reset_of-IsValid none id s v e = v
reset_of-IsValid (some d) id s v e = ground (
  arith,
  get-IsSound id s.sessions d v.sound e,
  update-IsValid id d (record d { timer_generation = d.timer_generation + 1 }) s v e,
)

pub reset-IsValid : (id : Text) (s : Shell) → IsValid s → IsValid (reset_inactivity_timer id s)
unfolding reset_inactivity_timer
reset-IsValid id s v = reset_of-IsValid (get id s.sessions) id s v refl

-- What is only recorded in the trace keeps the sessions.
trace-IsValid : (es : List Effect) (s : Shell) → IsValid s → IsValid (record s { trace = es })
trace-IsValid es s v = record { one = v.one; sound = v.sound }

pub encrypted-IsValid :
    (env : Env) (peer : Text) (i : Inner) (s : Shell)
    → IsValid s
    → IsValid (send_encrypted env peer i s)
unfolding send_encrypted
encrypted-IsValid env peer i s v = ground arith

pub request-IsValid :
    (env : Env) (id peer : Text) (s : Shell) → IsValid s → IsValid (request_shell env id peer s)
unfolding request_shell
request-IsValid env id peer s v = elim (dec_lt 0 (length s.sessions)) [
  | yes p ↦ ground arith
  | no p ↦ ground (
    arith,
    new-IsValid id
        (record {
          role = initiator;
          peer_uuid = peer;
          peer_name = env.peer_name peer;
          otp = [];
          process = false;
          inactivity_timer = false;
          timer_generation = 0;
        })
        s v,
  )
]

pub reject_of-IsValid :
    (o : Option Session) (id reason : Text) (s : Shell)
    → IsValid s
    → IsValid (reject_request_of o id reason s)
unfolding reject_request_of
reject_of-IsValid none id reason s v = v
reject_of-IsValid (some d) id reason s v =
    let c = cleanup-IsValid id s v in
    unfold cleanup_session in record { one = c.one; sound = c.sound }

pub kill_of-IsValid :
    (o : Option Session) (id reason : Text) (s : Shell)
    → IsValid s
    → IsValid (kill_of o id reason s)
unfolding kill_of
kill_of-IsValid none id reason s v = v
kill_of-IsValid (some d) id reason s v =
    let c = cleanup-IsValid id s v in
    unfold cleanup_session in record { one = c.one; sound = c.sound }

pub respond_of-IsValid :
    (o : Option Session) (id password : Text) (s : Shell)
    → IsValid s
    → IsValid (respond_of o id password s)
unfolding respond_of
respond_of-IsValid none id password s v = v
respond_of-IsValid (some d) id password s v = ground arith

pub send_of-IsValid :
    (env : Env) (o : Option Session) (id payload : Text) (s : Shell)
    → IsValid s
    → IsValid (send_input_of env o id payload s)
unfolding send_input_of kill_session
send_of-IsValid env none id payload s v = v
send_of-IsValid env (some d) id payload s v = ground (
  arith,
  kill_of-IsValid (get id s.sessions) id escalation s v,
  encrypted-IsValid env d.peer_uuid (shell_input id payload) (reset_inactivity_timer id s),
  reset-IsValid id s v,
)

-- No session but that of `id`.
abbrev IsAlone : Text → Shell → Type 0
IsAlone id s = length (erase id s.sessions) ≡ 0

IsValid-IsAlone :
    (id : Text) (d : Session) (s : Shell) → IsValid s → get id s.sessions ≡ some d → IsAlone id s
IsValid-IsAlone id d s v e = omega (arith, length-erase_held id s.sessions d e, v.one)

erase_of_put :
    (id : Text) (d : Session) (m : Map Session)
    → length (erase id (put id d m)) ≤ length (erase id m)
unfolding put erase
erase_of_put id d m = ground (arith, text_eq_refl id, length-erase id (erase id m))

set-IsAlone : (id : Text) (d : Session) (s : Shell) → IsAlone id s → IsAlone id (set_session id d s)
set-IsAlone id d s a = omega (arith, erase_of_put id d s.sessions)

empty-AllSound : (m : Map Session) → length m ≡ 0 → AllSound m
empty-AllSound [] h = tt
empty-AllSound (p ∷ m) h = absurd (omega arith)

alone-IsValid :
    (id : Text) (d : Session) (s : Shell) → IsAlone id s → IsSound d → IsValid (set_session id d s)
unfolding put
alone-IsValid id d s a h = record {
  one = omega arith;
  sound = (h, empty-AllSound (erase id s.sessions) a);
}

abbrev rearmed : Session → Session
rearmed d = record d { timer_generation = d.timer_generation + 1 }

spawn_of-IsValid :
    (started : Bool) (d : Session) (id : Text) (s : Shell)
    → IsAlone id s
    → d.role ≡ receiver
    → d.otp ≡ []
    → IsValid (spawn_of started (some d) id s)
unfolding spawn_of reset_inactivity_timer
spawn_of-IsValid true d id s a r o =
    let d' = record d { process = true; inactivity_timer = true } in
    let v =
      alone-IsValid id (rearmed d') (set_session id d' s) (set-IsAlone id d' s a) (ground arith) in
    rw (get-put_self id d' s.sessions) (record { one = v.one; sound = v.sound })
spawn_of-IsValid false d id s a r o = record {
  one = omega arith;
  sound = empty-AllSound (erase id s.sessions) a;
}

pub response-IsValid :
    (started : Bool) (o : Option Session) (from id password : Text) (s : Shell)
    → IsValid s
    → get id s.sessions ≡ o
    → IsValid (on_response started o from id password s)
unfolding on_response spawn_process cleanup_session
response-IsValid started none from id password s v e = v
response-IsValid started (some d) from id password s v e = elim (Bool-cases (is_initiator d.role)) [
  | inl i ↦ rw i v
  | inr r ↦ elim (Bool-cases (otp_matches password d.otp)) [
    | inr wrong ↦
        let c = cleanup-IsValid id s v in rw (r, wrong) (record { one = c.one; sound = c.sound })
    | inl right ↦
        let d' = record d { otp = [] } in
        rw (r, right, get-put_self id d' s.sessions)
          (spawn_of-IsValid started d' id _ (set-IsAlone id d' s (IsValid-IsAlone id d s v e))
            (ground arith) refl)
  ]
]
