-- ===== src/Discovery.antt =====
-- src/net/discoveryclient.cpp (DiscoveryClient): the requests to a discovery server, and what is made of
-- the replies.
--   libcurl is outside: a reply is none or a body with its code; nlohmann::json's parse and value are those
-- of Session.Values, and dump an argument. A method is in two parts: the request that its thread sends, and what
-- the thread tells the listeners, `none` where it throws, which ends the program.
pub mod Listeners
pub mod Lookup
pub mod Replies
mod Examples
use naleystogramm_core.Prelude.{
  ℕ, ◌+◌, ◌*◌, ◌/◌, ◌%◌, ◌^◌, Bool, true, false, not, ◌&&◌, ◌||◌, Option, none, some, List, [], ◌∷◌,
  ◌++◌, length, ltb, ◌==◌, ◌!=◌, if◌then◌else◌, ◌>>=◌,
}
use naleystogramm_core.Prelude.Text.{Text, codes, text_eq, is_empty}
use naleystogramm_core.Prelude.Map.{is_some}
use naleystogramm_core.Prelude.Int.{ℤ, pos}
use naleystogramm_core.Prelude.Decimal.{to_string}
use naleystogramm_core.Session.Values.{
  Json, null, flag, number, fraction, text, array, object, Fields, no_fields, field, find_field,
  to_uint16, Reader,
}

pub record LookupResult : Type 0 where
  pub username : Text
  pub uuid : Text
  pub pubkey : Text
  pub ip : Text
  pub port : ℕ

pub record RegisterResult : Type 0 where
  pub host : Text
  pub port : ℕ
  pub username : Text
  pub token : Text

-- The callbacks of DiscoveryEvent.
pub data Event : Type 0 where
  lookup_success : LookupResult → Event
  lookup_error : (host username error : Text) → Event
  register_success : RegisterResult → Event
  register_error : (host username error : Text) → Event
  update_ok heartbeat_ok unregister_success : (host : Text) → Event
  update_error heartbeat_error unregister_error : (host error : Text) → Event

pub record Request : Type 0 where
  pub verb : Text
  pub url : Text
  pub body : Text
  pub headers : List (Text × Text)

-- The reply of the server: its code, its body, and that as JSON where it is.
pub record Reply : Type 0 where
  pub code : ℕ
  pub body : Text
  pub json : Option Json

abbrev pub max_response : ℕ
max_response = 8 * 1024 * 1024

-- The callback of libcurl; `none` stops the transfer.
unfoldable pub curl_write : (chunk out : Text) → Option Text
curl_write chunk out =
    if ltb max_response (length out + length chunk) then none else some (out ++ chunk)

unfoldable pub receive : List Text → (out : Text) → Option Text
unfolding curl_write
receive [] out = some out
receive (c ∷ cs) out = do o ← curl_write c out; receive cs o

-- The headers that httpRequest sends.
unfoldable pub all_headers : Request → List (Text × Text)
all_headers r =
    if text_eq r.verb (codes "POST") || text_eq r.verb (codes "PUT")
    then (codes "Content-Type", codes "application/json") ∷ r.headers
    else r.headers

abbrev pub server_error : (code : ℕ) → Text
server_error code = codes "server error (HTTP " ++ to_string code ++ codes ")"

unfoldable pub error_of : (code : ℕ) → Option Json → Text
error_of code (some (text t)) = t
error_of code j = server_error code

-- `contains` is false of what is no object.
unfoldable pub extract_error : Reply → Text
unfolding error_of
extract_error r = elim r.json [
  | some (object f) ↦ error_of r.code (find_field (codes "error") f)
  | j ↦ server_error r.code
]

abbrev pub url_of : (host : Text) → (port : ℕ) → (path : Text) → Text
url_of host port path = codes "http://" ++ host ++ codes ":" ++ to_string port ++ path

-- lookup
unfoldable pub lookup_request : (host : Text) → (port : ℕ) → (username : Text) → Request
lookup_request host port username = record {
  verb = codes "GET";
  url = url_of host port (codes "/lookup/" ++ username);
  body = [];
  headers = [];
}

unfoldable pub lookup_found : (host username : Text) → LookupResult → Event
lookup_found host username r =
    if is_empty r.uuid || is_empty r.ip || r.port == 0
    then lookup_error host username (codes "server did not return uuid/ip/port")
    else lookup_success r

-- `value` throws on what is no object, and on a value of another type.
unfoldable pub read_lookup : Reader → (host username : Text) → Option Json → Option Event
unfolding lookup_found
read_lookup r host username none = some (lookup_error host username (codes "invalid response"))
read_lookup r host username (some (object f)) = do
  user ← r.value_text (codes "username") username f
  uuid ← r.value_text (codes "uuid") [] f
  pubkey ← r.value_text (codes "pubkey") [] f
  ip ← r.value_text (codes "ip") [] f
  port ← r.value_int (codes "port") (pos 0) f
  some (
      lookup_found host username
        (record { username = user; uuid = uuid; pubkey = pubkey; ip = ip; port = to_uint16 port }))
read_lookup r host username (some j) = none

unfoldable pub on_lookup : Reader → (host username : Text) → Option Reply → Option Event
unfolding extract_error read_lookup
on_lookup r host username none = some (lookup_error host username (codes "request_failed"))
on_lookup r host username (some a) =
    if a.code == 404
    then some (lookup_error host username (codes "user_not_found"))
    else if a.code / 100 != 2
    then some (lookup_error host username (extract_error a))
    else read_lookup r host username a.json

-- registerAccount
abbrev pub optional : (key value : Text) → Fields → Fields
optional key value f = if is_empty value then f else field key (text value) f

unfoldable pub register_fields :
    (username uuid pubkey ip : Text)
    → (port : ℕ) → (email invite_code client_version : Text) → Fields
register_fields username uuid pubkey ip port email invite_code client_version =
    field (codes "username") (text username) (
      field (codes "uuid") (text uuid) (
        field (codes "pubkey") (text pubkey) (
          field (codes "ip") (text ip) (
            field (codes "port") (number (pos port)) (
              optional (codes "email") email (
                optional (codes "invite_code") invite_code
                  (optional (codes "client_version") client_version no_fields)))))))

unfoldable pub register_request :
    (dump : Json → Text) → (host : Text) → (port : ℕ) → Fields → Request
register_request dump host port f = record {
  verb = codes "POST";
  url = url_of host port (codes "/register");
  body = dump (object f);
  headers = [];
}

unfoldable pub registered :
    Reader → (host : Text) → (port : ℕ) → (username : Text) → Fields → Option Event
registered r host port username f = do
  user ← r.value_text (codes "username") username f
  token ← r.value_text (codes "token") [] f
  some (register_success (record { host = host; port = port; username = user; token = token }))

unfoldable pub read_register :
    Reader → (host : Text) → (port : ℕ) → (username : Text) → Option Json → Option Event
unfolding registered
read_register r host port username (some (object f)) =
    if is_some (find_field (codes "token") f)
    then registered r host port username f
    else some (register_error host username (codes "invalid response"))
read_register r host port username j =
    some (register_error host username (codes "invalid response"))

unfoldable pub on_register :
    Reader → (host : Text) → (port : ℕ) → (username : Text) → Option Reply → Option Event
unfolding extract_error read_register
on_register r host port username none = some (register_error host username (codes "request_failed"))
on_register r host port username (some a) =
    if a.code != 201
    then some (register_error host username (extract_error a))
    else read_register r host port username a.json

-- updatePresence, heartbeat, unregisterAccount
abbrev pub bearer : (token : Text) → List (Text × Text)
bearer token = (codes "Authorization", codes "Bearer " ++ token) ∷ []

unfoldable pub update_request :
    (dump : Json → Text) → (host : Text) → (port : ℕ) → (token ip : Text) → (own_port : ℕ) → Request
update_request dump host port token ip own_port = record {
  verb = codes "PUT";
  url = url_of host port (codes "/update");
  body = dump (
      object
        (field (codes "ip") (text ip) (field (codes "port") (number (pos own_port)) no_fields)));
  headers = bearer token;
}

unfoldable pub heartbeat_request : (host : Text) → (port : ℕ) → (token : Text) → Request
heartbeat_request host port token = record {
  verb = codes "POST";
  url = url_of host port (codes "/heartbeat");
  body = [];
  headers = bearer token;
}

unfoldable pub unregister_request : (host : Text) → (port : ℕ) → (token : Text) → Request
unregister_request host port token = record {
  verb = codes "DELETE";
  url = url_of host port (codes "/unregister");
  body = [];
  headers = bearer token;
}

-- The three take a reply the same way.
unfoldable pub outcome : (ok : Event) → (failed : Text → Event) → Option Reply → Event
unfolding extract_error
outcome ok failed none = failed (codes "request_failed")
outcome ok failed (some a) = if a.code / 100 != 2 then failed (extract_error a) else ok

unfoldable pub on_update : (host : Text) → Option Reply → Event
unfolding outcome
on_update host r = outcome (update_ok host) (update_error host) r

unfoldable pub on_heartbeat : (host : Text) → Option Reply → Event
unfolding outcome
on_heartbeat host r = outcome (heartbeat_ok host) (heartbeat_error host) r

unfoldable pub on_unregister : (host : Text) → Option Reply → Event
unfolding outcome
on_unregister host r = outcome (unregister_success host) (unregister_error host) r
