-- ===== src/Calls/Examples.antt =====
-- Runs of the call manager (src/calls/callmanager.cpp) on concrete input.
use naleystogramm_core.Prelude.{◌≡◌, refl, Bool, true, false, some, [], ◌∷◌}
use naleystogramm_core.Prelude.Text.{codes}
use naleystogramm_core.Calls.{in_call, call_invite, Env, Calls, fresh, uint16}
use naleystogramm_core.Calls.Methods.{accept_call, handle_signaling}
use naleystogramm_core.Calls.Events.{Event, initiate, signal, step}
use naleystogramm_core.Calls.Agreement.{IsWorking, call_agreed}

-- An engine that only remembers whether it runs.
abbrev demo : Env Bool
demo = record {
  has_session = λ p. true;
  snapshot_media_key = λ p id salt. 1 ∷ salt;
  to_hex = λ b. b;
  from_hex = λ b. b;
  peer_ip = λ p. codes "10.0.0.2";
  peer_name = λ p. codes "Bob";
  client_server = false;
  relay_ip = [];
  relay_udp_port = 0;
  own_uuid = codes "me";
  start_call = λ m ip port key. (true, true);
  end_call = λ m. false;
  is_in_call = λ m. m;
  local_udp_port = λ m. 4000;
  enable_udp_relay = λ m ip port own peer. m;
}

demo-IsWorking : IsWorking demo
demo-IsWorking = record {
  session = λ p. refl;
  key = λ p id salt. refl;
  starts = λ m ip port key. refl;
  runs = λ m ip port key. refl;
}

abbrev dial : Event Bool
dial = initiate (7 ∷ []) (codes "c1") (some 5000) (codes "bob") (codes "10.0.0.2")

abbrev dialled : Calls Bool
dialled = step demo dial (fresh (some false))

abbrev rung : Calls Bool
rung =
    step demo (signal (codes "alice") (call_invite (codes "c1") 5000 (7 ∷ []))) (fresh (some false))

call_agreed_example :
    (accept_call demo (codes "c1") (
      handle_signaling demo
        (codes "alice")
        (call_invite (codes "c1") (uint16 5000) (7 ∷ []))
        (fresh (some false)))).state
    ≡ in_call
call_agreed_example =
    (call_agreed demo demo demo-IsWorking demo-IsWorking (λ b. refl) (codes "alice") (codes "bob")
      (7 ∷ []) (codes "c1") (codes "10.0.0.2") 5000 false false (fresh (some false))
      (fresh (some false)) (cc) refl refl refl refl).3
