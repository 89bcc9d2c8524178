-- ===== src/Groups.antt =====
-- src/net/groupmanager.cpp (GroupManager): groups and channels, their WebSocket threads as events, and
-- the encryption of their messages.
--   `Env` has what stands outside: AES-256-GCM, `none` where a call fails, base64, the generation of
-- keys and the decryption of the group's key. RAND_bytes is an argument, and so are the answers of the
-- server to HTTP requests. A thread that has ended is not `running`. `saved` are the groups that
-- StorageManager keeps, and a frame is a `Frame`, with the fields that the handler reads. `trace` records,
-- newest first, callbacks, sleeps, messages stored and requests made; log lines are left out.
pub mod Membership
pub mod Sealing
pub mod Retry
mod Examples
use naleystogramm_core.Prelude.{
  ℕ, ◌+◌, ◌-◌, ◌*◌, ◌^◌, min, ◌==◌, ◌!=◌, Bool, true, false, not, ◌&&◌, ◌||◌, Option, none, some,
  List, [], ◌∷◌, ◌++◌, ltb, length, take, drop, if◌then◌else◌,
}
use naleystogramm_core.Prelude.Text.{Text, codes, text_eq, is_empty}
use naleystogramm_core.Prelude.Map.{Map, get, put, erase, is_some}

abbrev pub max_reconn_attempts : ℕ
max_reconn_attempts = 10

abbrev pub reconn_base_ms : ℕ
reconn_base_ms = 2000

pub record Group : Type 0 where
  pub id : Text
  pub name : Text
  pub is_channel : Bool
  pub server_url : Text
  pub username : Text
  pub token : Text
  pub group_key : Text
  pub local_priv_key : Text
  pub local_pub_key : Text
  pub is_admin : Bool
  pub joined_at : ℕ

pub record GroupMessage : Type 0 where
  pub group_id : Text
  pub sender : Text
  pub text : Text
  pub ts : ℕ
  pub outgoing : Bool

pub record Conn : Type 0 where
  pub info : Group
  pub running : Bool
  pub connected : Bool
  pub attempts : ℕ

-- An entry of a history, and a frame of the server.
pub record Entry : Type 0 where
  pub sender : Text
  pub payload : Text
  pub ts : ℕ

pub data Frame : Type 0 where
  history : List Entry → Frame
  msg : Entry → Frame
  join : (username role : Text) → Frame
  leave : (username : Text) → Frame

pub data Effect : Type 0 where
  joined : Group → Effect
  left ws_connected ws_disconnected : (id : Text) → Effect
  received : GroupMessage → Effect
  member_joined : (id username role : Text) → Effect
  member_left : (id username : Text) → Effect
  history_loaded : (id : Text) → List GroupMessage → Effect
  join_error : (url error : Text) → Effect
  stored : GroupMessage → Effect
  slept : (ms : ℕ) → Effect
  sent : (id payload : Text) → Effect
  leave_request : (url token : Text) → Effect

pub record Groups : Type 0 where
  pub conns : Map Conn
  pub saved : Map Group
  pub trace : List Effect

pub record Env : Type 0 where
  pub seal : (key nonce plain : Text) → Option (Text × Text)
  pub unseal : (key nonce sealed tag : Text) → Option Text
  pub to_base64 : Text → Text
  pub from_base64 : Text → Text
  pub generate_keys : Option (Text × Text)
  pub ecies_decrypt : (priv_key sealed : Text) → Text

abbrev pub emit : Effect → Groups → Groups
emit e g = record g { trace = e ∷ g.trace }

abbrev pub set_conn : Text → Conn → Groups → Groups
set_conn id c g = record g { conns = put id c g.conns }

-- Text from here on; `none` leaves the empty text.
sealed_text : Env → (nonce : Text) → Option (Text × Text) → Text
sealed_text env nonce none = []
sealed_text env nonce (some (ct, tag)) = env.to_base64 (nonce ++ ct ++ tag)

unfoldable pub encrypt_group_msg : Env → (key nonce text : Text) → Text
unfolding sealed_text
encrypt_group_msg env key nonce text =
    if length key != 32 then [] else sealed_text env nonce (env.seal key nonce text)

opened_text : Option Text → Text
opened_text none = []
opened_text (some t) = t

-- The nonce, what is sealed, and the tag.
unfoldable pub open_blob : Env → (key blob : Text) → Text
unfolding opened_text
open_blob env key blob =
    if ltb (length blob) (12 + 16)
    then []
    else opened_text (
        env.unseal key (take 12 blob) (take (length blob - 12 - 16) (drop 12 blob))
          (drop (length blob - 16) blob))

unfoldable pub decrypt_group_msg : Env → (key payload : Text) → Text
decrypt_group_msg env key payload =
    if length key != 32 then [] else open_blob env key (env.from_base64 payload)

abbrev pub message_of : (id username : Text) → Entry → (text : Text) → GroupMessage
message_of id username e text = record {
  group_id = id;
  sender = e.sender;
  text = text;
  ts = e.ts;
  outgoing = text_eq e.sender username;
}

-- The entries that can be decrypted, each stored.
unfoldable pub read_history :
    Env → Group → (id : Text) → List Entry → Groups → List GroupMessage × Groups
read_history env info id [] g = ([], g)
read_history env info id (e ∷ es) g =
    let text = decrypt_group_msg env info.group_key e.payload in
    let m = message_of id info.username e text in
    let (ms, g1) = read_history env info id es (emit (stored m) g) in
    let skipped = read_history env info id es g in if is_empty text then skipped else (m ∷ ms, g1)

unfoldable pub on_frame : Env → Group → (id : Text) → Frame → Groups → Groups
on_frame env info id (history es) g =
    let (ms, g') = read_history env info id es g in emit (history_loaded id ms) g'
on_frame env info id (msg e) g =
    let text = decrypt_group_msg env info.group_key e.payload in
    let m = message_of id info.username e text in
    if is_empty text then g else emit (received m) (emit (stored m) g)
on_frame env info id (join username role) g = emit (member_joined id username role) g
on_frame env info id (leave username) g = emit (member_left id username) g

frame_of : Env → Option Conn → (id : Text) → Frame → Groups → Groups
frame_of env none id f g = g
frame_of env (some c) id f g = on_frame env c.info id f g

unfoldable pub handle_ws_frame : Env → (id : Text) → Frame → Groups → Groups
unfolding frame_of
handle_ws_frame env id f g = frame_of env (get id g.conns) id f g

-- Is there a connection that is up, and what does sendMessage return? `ok` is whether the frame is
-- written to the socket.
unfoldable pub send_of :
    Env → (nonce : Text) → (ok : Bool) → Option Conn → (id text : Text) → Groups → Groups × Bool
send_of env nonce ok none id text g = (g, false)
send_of env nonce ok (some c) id text g =
    let payload = encrypt_group_msg env c.info.group_key nonce text in
    if not c.connected || is_empty payload then (g, false) else (emit (sent id payload) g, ok)

unfoldable pub send_message :
    Env → (nonce : Text) → (ok : Bool) → (id text : Text) → Groups → Groups × Bool
send_message env nonce ok id text g = send_of env nonce ok (get id g.conns) id text g

unfoldable pub connect_of : Option Conn → Group → Groups → Groups
connect_of none info g =
    set_conn info.id (record { info = info; running = true; connected = false; attempts = 0 }) g
connect_of (some c) info g = set_conn info.id (record c { info = info }) g

unfoldable pub connect_group : Group → Groups → Groups
unfolding connect_of
connect_group info g = connect_of (get info.id g.conns) info g

-- The thread, event by event. After a connection that failed or ended, it sleeps or ends.
unfoldable pub back_off : (id : Text) → Conn → Groups → Groups
back_off id c g =
    let k = c.attempts + 1 in
    if ltb max_reconn_attempts k
    then set_conn id (record c { attempts = k; running = false }) g
    else emit (slept (reconn_base_ms * 2 ^ min k 5)) (set_conn id (record c { attempts = k }) g)

unfoldable pub on_dial_failed : (id : Text) → Option Conn → Groups → Groups
on_dial_failed id none g = g
on_dial_failed id (some c) g = if c.running then back_off id c g else g

unfoldable pub on_dialled : (id : Text) → Option Conn → Groups → Groups
on_dialled id none g = g
on_dialled id (some c) g =
    if c.running && not c.connected
    then emit (ws_connected id) (set_conn id (record c { attempts = 0; connected = true }) g)
    else g

unfoldable pub on_lost : (id : Text) → Option Conn → Groups → Groups
on_lost id none g = g
on_lost id (some c) g =
    if c.running && c.connected
    then back_off id (record c { connected = false }) (emit (ws_disconnected id) g)
    else g
