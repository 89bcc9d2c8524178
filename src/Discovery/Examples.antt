-- ===== src/Discovery/Examples.antt =====
-- src/net/discoveryclient.cpp on concrete input.
use naleystogramm_core.Prelude.{
  ◌≡◌, refl, Bool, Option, none, some, [], ◌∷◌, leb, length, arith, if◌then◌else◌,
}
use naleystogramm_core.Prelude.Text.{Text, codes}
use naleystogramm_core.Prelude.Int.{ℤ}
use naleystogramm_core.Session.Values.{
  Json, flag, number, text, object, Reader, IsReader, find_field,
}
use naleystogramm_core.Discovery.{
  lookup_success, heartbeat_ok, heartbeat_error, register_fields, on_lookup, on_heartbeat,
  server_error, receive, max_response,
}
use naleystogramm_core.Discovery.Listeners.{Client, fire, add_listener, remove_listener}
use naleystogramm_core.Discovery.Lookup.{on_lookup-register_fields}
use naleystogramm_core.Discovery.Replies.{joined, receive_lem}

text_or : Text → Option Json → Option Text
text_or d (some (text t)) = some t
text_or d o = some d

flag_or : Bool → Option Json → Option Bool
flag_or d (some (flag b)) = some b
flag_or d o = some d

number_or : ℤ → Option Json → Option ℤ
number_or d (some (number z)) = some z
number_or d o = some d

abbrev plain : Reader
plain = record {
  value_text = λ key d f. text_or d (find_field key f);
  value_flag = λ key d f. flag_or d (find_field key f);
  value_int = λ key d f. number_or d (find_field key f);
  value_long = λ key d f. number_or d (find_field key f);
}

plain-IsReader : IsReader plain
unfolding text_or flag_or number_or
plain-IsReader = record {
  of_text = λ key d t f e. rw e refl;
  of_flag = λ key d b f e. rw e refl;
  of_int = λ key d z f small e. rw e refl;
  of_long = λ key d z f e. rw e refl;
}

-- A listener that was removed hears nothing.
abbrev quiet : Client
quiet = record { listeners = []; next_token = 0; trace = [] }

heard :
    (fire
      (heartbeat_ok (codes "h"))
      (remove_listener 0 (add_listener (add_listener quiet).0).0)).trace
    ≡ (1, heartbeat_ok (codes "h")) ∷ []
unfolding fire remove_listener add_listener
heard = refl

down :
    on_heartbeat (codes "h") (some (record { code = 503; body = []; json = none }))
    ≡ heartbeat_error (codes "h") (server_error 503)
unfolding on_heartbeat
down = refl

on_lookup-register_fields_example :
    on_lookup plain (codes "h") (codes "ann") (
      some (record {
        code = 200;
        body = [];
        json = some (
            object (
              register_fields
                (codes "ann")
                (codes "u1")
                (codes "k")
                (codes "10.0.0.1")
                47821
                []
                (codes "i")
                []));
      }))
    ≡ some (
        lookup_success (record {
          username = codes "ann";
          uuid = codes "u1";
          pubkey = codes "k";
          ip = codes "10.0.0.1";
          port = 47821;
        }))
on_lookup-register_fields_example =
    on_lookup-register_fields plain (codes "h") (codes "ann") (codes "u1") (codes "k")
      (codes "10.0.0.1") [] (codes "i") [] [] 47821 plain-IsReader (λ e. cc) (λ e. cc) (omega arith)
      (omega arith)

receive_lem_example : receive (codes "{\"a\"" ∷ codes ":1}" ∷ []) [] ≡ (
    if leb (length (joined (codes "{\"a\"" ∷ codes ":1}" ∷ []))) max_response
    then some (joined (codes "{\"a\"" ∷ codes ":1}" ∷ []))
    else none)
receive_lem_example = receive_lem (codes "{\"a\"" ∷ codes ":1}" ∷ [])
