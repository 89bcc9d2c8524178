-- ===== src/Storage/Schema.antt =====
-- The schema of src/storage/storage.cpp: migrate and hasColumn, over the tables as the lists of their
-- columns' names. Types, defaults and indexes are left out, and the statements are completed.
use naleystogramm_core.Prelude.{Bool, false, Option, none, some, List, [], ◌∷◌, ◌++◌, if◌then◌else◌}
use naleystogramm_core.Prelude.Text.{Text, codes}
use naleystogramm_core.Prelude.Map.{Map, get, put}
use naleystogramm_core.Storage.Sql.{contains}

abbrev pub Schema : Type 0
Schema = Map (List Text)

abbrev pub has_column_of : Option (List Text) → Text → Bool
has_column_of none col = false
has_column_of (some cols) col = contains col cols

unfoldable pub has_column : Schema → (table col : Text) → Bool
has_column s table col = has_column_of (get table s) col

-- CREATE TABLE IF NOT EXISTS
unfoldable pub create_of : Option (List Text) → (table : Text) → List Text → Schema → Schema
create_of none table cols s = put table cols s
create_of (some old) table cols s = s

unfoldable pub create_table : (table : Text) → List Text → Schema → Schema
unfolding create_of
create_table table cols s = create_of (get table s) table cols s

-- ALTER TABLE … ADD COLUMN, which fails where there is no table.
unfoldable pub alter_of : Option (List Text) → (table col : Text) → Schema → Schema
alter_of none table col s = s
alter_of (some cols) table col s = put table (cols ++ col ∷ []) s

unfoldable pub add_col : (table col : Text) → Schema → Schema
unfolding alter_of
add_col table col s = if has_column s table col then s else alter_of (get table s) table col s

unfoldable pub add_cols : (table : Text) → List Text → Schema → Schema
unfolding add_col
add_cols table [] s = s
add_cols table (c ∷ cs) s = add_cols table cs (add_col table c s)

abbrev pub contact_columns : List Text
contact_columns =
    codes "uuid" ∷ codes "name" ∷ codes "ip" ∷ codes "port" ∷ codes "identity_key" ∷ []

abbrev pub message_columns : List Text
message_columns =
    codes "id"
    ∷ codes "peer_uuid"
    ∷ codes "outgoing"
    ∷ codes "text"
    ∷ codes "file_name"
    ∷ codes "file_size"
    ∷ codes "ciphertext"
    ∷ codes "timestamp"
    ∷ codes "delivered"
    ∷ []

abbrev pub blocked_columns : List Text
blocked_columns = codes "uuid" ∷ codes "blocked_at" ∷ []

abbrev pub added_to_contacts : List Text
added_to_contacts =
    codes "avatar_hash"
    ∷ codes "avatar_path"
    ∷ codes "is_blocked"
    ∷ codes "systeminfo_json"
    ∷ codes "version_created"
    ∷ codes "is_muted"
    ∷ codes "last_seen"
    ∷ codes "birthday"
    ∷ []

abbrev pub added_to_messages : List Text
added_to_messages = codes "is_voice" ∷ codes "voice_duration_ms" ∷ codes "version_created" ∷ []

abbrev pub group_columns : List Text
group_columns =
    codes "id"
    ∷ codes "name"
    ∷ codes "type"
    ∷ codes "server_url"
    ∷ codes "username"
    ∷ codes "token_enc"
    ∷ codes "group_key_enc"
    ∷ codes "local_priv_key_enc"
    ∷ codes "local_pub_key"
    ∷ codes "is_admin"
    ∷ codes "joined_at"
    ∷ []

abbrev pub group_message_columns : List Text
group_message_columns =
    codes "id"
    ∷ codes "group_id"
    ∷ codes "sender"
    ∷ codes "text"
    ∷ codes "ts"
    ∷ codes "outgoing"
    ∷ []

abbrev pub account_columns : List Text
account_columns =
    codes "id"
    ∷ codes "host"
    ∷ codes "port"
    ∷ codes "username"
    ∷ codes "token_enc"
    ∷ codes "registered_at"
    ∷ []

unfoldable pub migrate : Schema → Schema
unfolding create_table add_cols
migrate s =
    let s1 = create_table (codes "contacts") contact_columns s in
    let s2 = create_table (codes "messages") message_columns s1 in
    let s3 = create_table (codes "blocked_list") blocked_columns s2 in
    let s4 = add_cols (codes "contacts") added_to_contacts s3 in
    let s5 = add_cols (codes "messages") added_to_messages s4 in
    let s6 = create_table (codes "groups") group_columns s5 in
    let s7 = create_table (codes "group_messages") group_message_columns s6 in
    create_table (codes "discovery_account") account_columns s7

-- The columns that the queries read.
abbrev pub selected_contacts : List Text
selected_contacts =
    codes "uuid"
    ∷ codes "name"
    ∷ codes "ip"
    ∷ codes "port"
    ∷ codes "identity_key"
    ∷ codes "avatar_hash"
    ∷ codes "avatar_path"
    ∷ codes "is_blocked"
    ∷ codes "is_muted"
    ∷ codes "last_seen"
    ∷ codes "systeminfo_json"
    ∷ codes "birthday"
    ∷ codes "version_created"
    ∷ []

abbrev pub selected_messages : List Text
selected_messages =
    codes "id"
    ∷ codes "peer_uuid"
    ∷ codes "outgoing"
    ∷ codes "text"
    ∷ codes "file_name"
    ∷ codes "file_size"
    ∷ codes "ciphertext"
    ∷ codes "timestamp"
    ∷ codes "delivered"
    ∷ codes "is_voice"
    ∷ codes "voice_duration_ms"
    ∷ codes "version_created"
    ∷ []

-- The columns of a table, none if it is not there.
abbrev pub columns_of : Option (List Text) → List Text
columns_of none = []
columns_of (some cols) = cols

abbrev pub columns : Schema → Text → List Text
columns s table = columns_of (get table s)
