-- ===== src/Storage/Messages.antt =====
-- The messages of src/storage/storage.cpp: saveMessage, getMessages, markDelivered, lastMessageText,
-- lastMessageTime, and the same for the messages of groups.
use naleystogramm_core.Prelude.{
  ℕ, ◌+◌, ◌==◌, ltb, Bool, true, ◌&&◌, Option, none, some, List, [], ◌∷◌, ◌++◌, map, if◌then◌else◌,
}
use naleystogramm_core.Prelude.Int.{ℤ, pos, negsuc}
use naleystogramm_core.Prelude.Text.{Text, codes, text_eq, is_empty}
use naleystogramm_core.Network.Wire.{text_lt}
use naleystogramm_core.Groups.{GroupMessage}
use naleystogramm_core.Storage.{
  Message, MessageRow, GroupMessageRow, Db, Env, storage_app_version, iso_to_epoch_ms,
  epoch_ms_to_iso, c_string, col_text, col_blob, bind_blob, completes,
}
use naleystogramm_core.Storage.Sql.{where_rows, update_rows, first_row, order_by, page, has_parent}
use naleystogramm_core.Storage.Contacts.{uuids, version_of}

unfoldable pub row_to_message : Env → MessageRow → Message
row_to_message env r = record {
  id = r.id;
  peer_uuid = c_string r.peer_uuid;
  outgoing = r.outgoing;
  text = c_string r.text;
  file_name = col_text r.file_name;
  file_size = r.file_size;
  ciphertext = col_blob r.ciphertext;
  timestamp = iso_to_epoch_ms env (c_string r.timestamp);
  delivered = r.delivered;
  is_voice = r.is_voice;
  voice_duration_ms = r.voice_duration_ms;
  version_created = version_of (c_string r.version_created);
}

-- bindText, and NULL for the empty text.
abbrev pub bind_name : Text → Option Text
bind_name v = if is_empty v then none else some v

abbrev pub message_row : Env → (now id : ℕ) → Message → MessageRow
message_row env now id m = record {
  id = id;
  peer_uuid = m.peer_uuid;
  outgoing = m.outgoing;
  text = m.text;
  file_name = bind_name m.file_name;
  file_size = m.file_size;
  ciphertext = bind_blob m.ciphertext;
  timestamp = epoch_ms_to_iso env now m.timestamp;
  delivered = m.delivered;
  is_voice = m.is_voice;
  voice_duration_ms = m.voice_duration_ms;
  version_created = storage_app_version;
}

-- The id of the row, or -1. A message refers to a contact.
unfoldable pub save_message : (ok : Bool) → Env → (now : ℕ) → Message → Db → Db × ℤ
save_message ok env now m db =
    let row = message_row env now db.next_message m in
    if ok && has_parent db.foreign_keys m.peer_uuid (uuids db)
    then (
      record db { messages = db.messages ++ row ∷ []; next_message = db.next_message + 1 },
      pos db.next_message,
    )
    else (db, negsuc 0)

abbrev pub by_id : MessageRow → MessageRow → Bool
by_id a b = ltb a.id b.id

abbrev pub by_id_desc : MessageRow → MessageRow → Bool
by_id_desc a b = ltb b.id a.id

abbrev pub of_peer : Text → MessageRow → Bool
of_peer uuid r = text_eq r.peer_uuid uuid

-- The inner query takes the newest, the outer one puts them in order.
unfoldable pub get_messages : Env → Text → (limit offset : ℤ) → Db → List Message
unfolding row_to_message
get_messages env uuid limit offset db = map (row_to_message env) (
    order_by by_id
      (page limit offset (order_by by_id_desc (where_rows (of_peer uuid) db.messages))))

unfoldable pub mark_delivered : (ok : Bool) → (msg_id : ℕ) → Db → Db × Bool
mark_delivered ok msg_id db =
    completes ok
      (record db {
        messages =
            update_rows (λ r. r.id == msg_id) (λ r. record r { delivered = true }) db.messages;
      })
      db

-- By the text of the timestamp, to the second.
abbrev pub latest_rows : Text → Db → List MessageRow
latest_rows uuid db =
    order_by (λ a b. text_lt b.timestamp a.timestamp) (where_rows (of_peer uuid) db.messages)

-- The bytes of "[Файл: ", whose letters take two bytes each in UTF-8.
abbrev pub file_prefix : Text
file_prefix = 91 ∷ 208 ∷ 164 ∷ 208 ∷ 176 ∷ 208 ∷ 185 ∷ 208 ∷ 187 ∷ codes ": "

abbrev pub preview : MessageRow → Text
preview r =
    let fname = col_text r.file_name in
    if is_empty fname then c_string r.text else file_prefix ++ fname ++ codes "]"

unfoldable pub last_message_text : Text → Db → Text
last_message_text uuid db = first_row [] preview (latest_rows uuid db)

unfoldable pub last_message_time : Env → Text → Db → ℤ
last_message_time env uuid db =
    first_row (pos 0) (λ r. iso_to_epoch_ms env (c_string r.timestamp)) (latest_rows uuid db)

abbrev pub group_message_row : (id : ℕ) → GroupMessage → GroupMessageRow
group_message_row id m = record {
  id = id;
  group_id = m.group_id;
  sender = m.sender;
  text = m.text;
  ts = m.ts;
  outgoing = m.outgoing;
}

unfoldable pub save_group_message : (ok : Bool) → GroupMessage → Db → Db × ℤ
save_group_message ok m db =
    if ok
    then (
      record db {
        group_messages = db.group_messages ++ group_message_row db.next_group_message m ∷ [];
        next_group_message = db.next_group_message + 1;
      },
      pos db.next_group_message,
    )
    else (db, negsuc 0)

abbrev pub by_ts : GroupMessageRow → GroupMessageRow → Bool
by_ts a b = ltb a.ts b.ts

abbrev pub by_ts_desc : GroupMessageRow → GroupMessageRow → Bool
by_ts_desc a b = ltb b.ts a.ts

abbrev pub of_group : Text → GroupMessageRow → Bool
of_group id r = text_eq r.group_id id

-- A message with its id.
abbrev pub row_to_group_message : GroupMessageRow → ℕ × GroupMessage
row_to_group_message r = (
  r.id,
  record {
    group_id = c_string r.group_id;
    sender = c_string r.sender;
    text = c_string r.text;
    ts = r.ts;
    outgoing = r.outgoing;
  },
)

unfoldable pub get_group_messages : Text → (limit offset : ℤ) → Db → List (ℕ × GroupMessage)
get_group_messages id limit offset db = map row_to_group_message (
    order_by by_ts
      (page limit offset (order_by by_ts_desc (where_rows (of_group id) db.group_messages))))

abbrev pub group_preview : GroupMessageRow → Text
group_preview r =
    let sender = c_string r.sender in
    if is_empty sender then c_string r.text else sender ++ codes ": " ++ c_string r.text

unfoldable pub last_group_message_text : Text → Db → Text
last_group_message_text id db =
    first_row [] group_preview (order_by by_ts_desc (where_rows (of_group id) db.group_messages))
