-- ===== src/Groups/Examples.antt =====
-- src/net/groupmanager.cpp on concrete input.
use naleystogramm_core.Prelude.{◌≤◌, ◌≡◌, refl, true, false, none, some, [], ◌∷◌, ◌++◌, replicate}
use naleystogramm_core.Prelude.Text.{Text, codes}
use naleystogramm_core.Prelude.Map.{get, get-put_self}
use naleystogramm_core.Groups.{
  Group, Conn, Entry, msg, Groups, Env, sent, stored, received, emit, set_conn, message_of,
  join_error, connect_of, connect_group, on_dialled, send_message, handle_ws_frame,
}
use naleystogramm_core.Groups.Membership.{join_group, join_with, granted_of, granted}
use naleystogramm_core.Groups.Sealing.{message_sent}
use naleystogramm_core.Groups.Retry.{IsAfter, fail_times, given_up_stays}

abbrev url : Text
url = codes "https://g"

abbrev nonce : Text
nonce = replicate 12 0

abbrev tag : Text
tag = replicate 16 1

-- Texts are sealed as they are, under a fixed tag, and base64 leaves them.
abbrev plain : Env
plain = record {
  seal = λ key n text. some (text, tag);
  unseal = λ key n text t. some text;
  to_base64 = λ text. text;
  from_base64 = λ text. text;
  generate_keys = some (codes "priv", codes "public");
  ecies_decrypt = λ priv sealed. sealed;
}

abbrev chat : Group
chat = record {
  id = url;
  name = codes "chat";
  is_channel = false;
  server_url = url;
  username = codes "ann";
  token = codes "t";
  group_key = replicate 32 7;
  local_priv_key = [];
  local_pub_key = [];
  is_admin = false;
  joined_at = 0;
}

abbrev up : Conn
up = record { info = chat; running = true; connected = true; attempts = 0 }

abbrev nothing : Groups
nothing = record { conns = []; saved = []; trace = [] }

abbrev here : Groups
here = set_conn url up nothing

abbrev posted : Entry
posted = record { sender = codes "bob"; payload = nonce ++ codes "hi" ++ tag; ts = 5 }

-- A key of the wrong length is an error.
short_key :
    (join_group plain url
      (codes "ann")
      (granted (codes "t") (codes "k") (codes "owner"))
      none
      0
      nothing).trace
    ≡ join_error url (codes "key decryption failed") ∷ []
unfolding join_group join_with granted_of
short_key = refl

message_sent_example :
    (send_message plain nonce true url (codes "hi") here
      ≡ (emit (sent url posted.payload) here, true))
    × (handle_ws_frame plain url (msg posted) here
        ≡ emit
            (received (message_of url (codes "ann") posted (codes "hi")))
            (emit (stored (message_of url (codes "ann") posted (codes "hi"))) here))
message_sent_example =
    message_sent plain nonce (codes "hi") tag (codes "hi") (codes "bob") 5 url up up here here
      (get-put_self url up []) (get-put_self url up []) refl refl refl refl refl refl refl
      (λ t. refl) refl refl

abbrev starting : Groups
starting = connect_group chat nothing

starting-IsAfter : IsAfter url true 0 starting
unfolding connect_group connect_of get
starting-IsAfter = record {
  conn = record { info = chat; running = true; connected = false; attempts = 0 };
  found =
      get-put_self url (record { info = chat; running = true; connected = false; attempts = 0 }) [];
  runs = refl;
  up = refl;
  tried = refl;
}

given_up_stays_example :
    (3 ≤ 10 → IsAfter url true 3 (fail_times 3 url starting))
    × (let g' = connect_group chat (fail_times 11 url starting) in
        IsAfter url false 11 g'
        × (on_dialled url (get url g'.conns) g' ≡ g')
        × (send_message plain nonce true url (codes "hi") g' ≡ (g', false)))
given_up_stays_example = given_up_stays plain nonce (codes "hi") 3 chat starting starting-IsAfter
