-- ===== src/Shell/Peers.antt =====
-- Whom src/shell/remoteshellmanager.cpp listens to, and what a peer can bring about.
use naleystogramm_core.Prelude.{
  ◌+◌, ◌⊎◌, ◌≡◌, refl, Bool, true, false, Option, none, some, List, [], ◌∷◌, arith, Bool-cases, inl,
  inr,
}
use naleystogramm_core.Prelude.Text.{Text}
use naleystogramm_core.Prelude.Map.{Map, get, put, get-put_self, get-erase_self}
use naleystogramm_core.Shell.{
  initiator, receiver, Session, Signal, shell_request, shell_challenge, shell_challenge_response,
  shell_accept, shell_reject, shell_kill, Inner, shell_data, shell_input, Env, Shell,
  cleanup_session, reset_timer_of, reset_inactivity_timer, send_encrypted, send_input_of,
  send_input, spawn_of, spawn_process, Effect, sent,
}
use naleystogramm_core.Shell.Frames.{
  on_challenge, on_response, otp_matches, on_accept, on_input, handle_signaling, handle_decrypted,
}
use naleystogramm_core.Shell.Access.{unlocked, response_right}
use naleystogramm_core.Shell.Sessions.{IsValid, get-IsSound}

reset_of-initiator :
    (o : Option Session) (id : Text) (s : Shell)
    → ((d : Session) → o ≡ some d → d.inactivity_timer ≡ false)
    → reset_timer_of o id s ≡ s
unfolding reset_timer_of
reset_of-initiator none id s h = refl
reset_of-initiator (some d) id s h = rw (h d refl) refl

reset-initiator :
    (id : Text) (d : Session) (s : Shell)
    → IsValid s
    → get id s.sessions ≡ some d
    → d.role ≡ initiator
    → reset_inactivity_timer id s ≡ s
unfolding reset_inactivity_timer
reset-initiator id d s v e r =
    reset_of-initiator (get id s.sessions) id s
      (ground (arith, get-IsSound id s.sessions d v.sound e))

-- The side that asked for the shell keeps no inactivity timer: where the code rearms it, on
-- SHELL_ACCEPT, on output and on input that is sent, its sessions stay as they are.
pub initiator_untimed :
    (env : Env) (otp : Text) (started : Bool) (from id payload : Text) (d : Session) (s : Shell)
    → IsValid s
    → get id s.sessions ≡ some d
    → d.role ≡ initiator
    → ((handle_signaling env otp started from (shell_accept id) s).sessions ≡ s.sessions)
      × ((handle_decrypted env from (shell_data id payload) s).sessions ≡ s.sessions)
      × (env.forbidden payload ≡ false → (send_input env id payload s).sessions ≡ s.sessions)
unfolding handle_signaling on_accept handle_decrypted send_input send_input_of send_encrypted
initiator_untimed env otp started from id payload d s v e r =
    ground (arith, reset-initiator id d s v e r)

-- What an answer leaves of a receiver's session.
abbrev Spent : Option Session → Type 0
Spent o = (o ≡ none) ⊎ ((d : Session) × (o ≡ some d) × (d.role ≡ receiver) × (d.otp ≡ []))

spawn_of-Spent :
    (started : Bool) (d : Session) (id : Text) (s : Shell)
    → d.role ≡ receiver
    → d.otp ≡ []
    → Spent (get id (spawn_of started (some d) id s).sessions)
unfolding spawn_of reset_inactivity_timer reset_timer_of
spawn_of-Spent true d id s r o =
    let d' = record d { process = true; inactivity_timer = true } in
    let d'' = record d' { timer_generation = d'.timer_generation + 1 } in
    rw (get-put_self id d' s.sessions, get-put_self id d'' (put id d' s.sessions))
      (inr (d'', refl, r, o))
spawn_of-Spent false d id s r o = inl (get-erase_self id s.sessions)

response-Spent :
    (started : Bool) (d : Session) (from id password : Text) (s : Shell)
    → d.role ≡ receiver
    → Spent (get id (on_response started (some d) from id password s).sessions)
unfolding on_response cleanup_session
response-Spent started d from id password s r = elim (Bool-cases (otp_matches password d.otp)) [
  | inl right ↦
      rw (response_right started d from id password s (ground arith) right)
        (spawn_of-Spent started (record d { otp = [] }) id (unlocked d from id s) r refl)
  | inr wrong ↦ rw (r, wrong) (inl (get-erase_self id s.sessions))
]

Spent-response :
    (started : Bool) (o : Option Session) (from id password : Text) (s : Shell)
    → get id s.sessions ≡ o
    → Spent o
    → get id (on_response started o from id password s).sessions ≡ none
unfolding on_response otp_matches cleanup_session
Spent-response started none from id password s e h = e
Spent-response started (some d) from id password s e h =
    ground (arith, get-erase_self id s.sessions)

-- A receiver's session takes one answer: after the first, right or wrong, a second one finds the
-- session gone or ends it, and starts nothing.
pub one_answer :
    (env : Env) (otp₁ otp₂ : Text) (started₁ started₂ : Bool) (from₁ from₂ id first second : Text)
    (d : Session) (s : Shell)
    → get id s.sessions ≡ some d
    → d.role ≡ receiver
    → get id
        (handle_signaling env otp₂ started₂ from₂
          (shell_challenge_response id second)
          (handle_signaling env otp₁ started₁ from₁ (shell_challenge_response id first) s)).sessions
      ≡ none
unfolding handle_signaling
one_answer env otp₁ otp₂ started₁ started₂ from₁ from₂ id first second d s e r =
    let t = on_response started₁ (some d) from₁ id first s in
    rw e (
      Spent-response started₂ (get id t.sessions) from₂ id second t refl
        (response-Spent started₁ d from₁ id first s r))

-- Is it the request for a shell?
abbrev pub is_request : Signal → Bool
is_request (shell_request id) = true
is_request sig = false

reset_any :
    (o : Option Session) (id : Text) (s t : Shell)
    → s.sessions ≡ t.sessions
    → (reset_timer_of o id s).sessions ≡ (reset_timer_of o id t).sessions
unfolding reset_timer_of
reset_any none id s t h = h
reset_any (some d) id s t h = ground (arith, h)

spawn_any :
    (started : Bool) (o : Option Session) (id : Text) (m : Map Session) (a b : List Effect)
    → (spawn_of started o id (record { sessions = m; trace = a })).sessions
      ≡ (spawn_of started o id (record { sessions = m; trace = b })).sessions
unfolding spawn_of reset_inactivity_timer
spawn_any started none id m a b = refl
spawn_any true (some d) id m a b =
    let n = put id (record d { process = true; inactivity_timer = true }) m in
    reset_any (get id n) id (record { sessions = n; trace = a })
      (record { sessions = n; trace = b }) refl
spawn_any false (some d) id m a b = refl

response_any :
    (started : Bool) (o : Option Session) (p q id password : Text) (s : Shell)
    → (on_response started o p id password s).sessions
      ≡ (on_response started o q id password s).sessions
unfolding on_response spawn_process cleanup_session
response_any started none p q id password s = refl
response_any started (some d) p q id password s =
    let m = put id (record d { otp = [] }) s.sessions in
    ground (
      arith,
      spawn_any started (get id m) id m (sent p (shell_accept id) ∷ s.trace)
          (sent q (shell_accept id) ∷ s.trace),
    )

input_any :
    (env : Env) (o : Option Session) (p q id payload : Text) (s : Shell)
    → (on_input env o p id payload s).sessions ≡ (on_input env o q id payload s).sessions
unfolding on_input cleanup_session
input_any env none p q id payload s = refl
input_any env (some d) p q id payload s = ground arith

accept_any :
    (o : Option Session) (p q id : Text) (s : Shell)
    → (on_accept o p id s).sessions ≡ (on_accept o q id s).sessions
unfolding on_accept
accept_any none p q id s = refl
accept_any (some d) p q id s = ground arith

challenge_any :
    (o : Option Session) (p q id : Text) (s : Shell)
    → (on_challenge o p id s).sessions ≡ (on_challenge o q id s).sessions
unfolding on_challenge
challenge_any none p q id s = refl
challenge_any (some d) p q id s = ground arith

signal_any :
    (env : Env) (otp : Text) (started : Bool) (sig : Signal) (p q : Text) (s : Shell)
    → is_request sig ≡ false
    → (handle_signaling env otp started p sig s).sessions
      ≡ (handle_signaling env otp started q sig s).sessions
unfolding handle_signaling
signal_any env otp started (shell_request id) p q s h = cc
signal_any env otp started (shell_challenge id) p q s h = challenge_any (get id s.sessions) p q id s
signal_any env otp started (shell_challenge_response id password) p q s h =
    response_any started (get id s.sessions) p q id password s
signal_any env otp started (shell_accept id) p q s h = accept_any (get id s.sessions) p q id s
signal_any env otp started (shell_reject id reason) p q s h = refl
signal_any env otp started (shell_kill id reason) p q s h = refl
signal_any env otp started Signal.other p q s h = refl

inner_any :
    (env : Env) (i : Inner) (p q : Text) (s : Shell)
    → (handle_decrypted env p i s).sessions ≡ (handle_decrypted env q i s).sessions
unfolding handle_decrypted
inner_any env (shell_data id payload) p q s = refl
inner_any env (shell_input id payload) p q s = input_any env (get id s.sessions) p q id payload s
inner_any env Inner.other p q s = refl

-- But for a SHELL_REQUEST, what a frame does to the sessions, and what an inner frame does, do not
-- depend on the peer that sent it.
pub any_peer :
    (env : Env) (otp : Text) (started : Bool) (sig : Signal) (i : Inner) (p q : Text) (s : Shell)
    → is_request sig ≡ false
    → ((handle_signaling env otp started p sig s).sessions
        ≡ (handle_signaling env otp started q sig s).sessions)
      × ((handle_decrypted env p i s).sessions ≡ (handle_decrypted env q i s).sessions)
any_peer env otp started sig i p q s h =
    (signal_any env otp started sig p q s h, inner_any env i p q s)
