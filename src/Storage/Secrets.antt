-- ===== src/Storage/Secrets.antt =====
-- The groups and the account at a discovery server of src/storage/storage.cpp, with the secrets that
-- KeyProtector encrypts.
use naleystogramm_core.Prelude.{
  ℕ, ◌%◌, ◌^◌, ltb, Bool, false, not, ◌&&◌, Option, none, some, List, [], ◌∷◌, ◌++◌, map,
  if◌then◌else◌,
}
use naleystogramm_core.Prelude.Int.{pos, pos_part, ltb_ℤ}
use naleystogramm_core.Prelude.Text.{Text, codes, text_eq, is_empty}
use naleystogramm_core.Network.Wire.{text_lt}
use naleystogramm_core.Groups.{Group}
use naleystogramm_core.Storage.{
  DiscoveryAccount, GroupRow, AccountRow, Db, Env, iso_to_epoch_ms, epoch_ms_to_iso, c_string,
  col_blob, bind_blob, completes,
}
use naleystogramm_core.Storage.Sql.{where_rows, delete_rows, update_rows, first_row, order_by}

abbrev pub with_groups : List GroupRow → Db → Db
with_groups rows db = record db { groups = rows }

abbrev pub has_id : Text → GroupRow → Bool
has_id id r = text_eq r.id id

-- What is written for a secret, and read from its column.
unfoldable pub seal : Env → Text → Text
seal env plain = if env.is_ready && not (is_empty plain) then env.encrypt plain else []

unfoldable pub unseal : Env → Option Text → Text
unfolding col_blob
unseal env enc =
    let blob = col_blob enc in if env.is_ready && not (is_empty blob) then env.decrypt blob else []

unfoldable pub row_to_group : Env → GroupRow → Group
unfolding unseal
row_to_group env r = record {
  id = c_string r.id;
  name = c_string r.name;
  is_channel = text_eq (c_string r.kind) (codes "channel");
  server_url = c_string r.server_url;
  username = c_string r.username;
  token = unseal env r.token_enc;
  group_key = unseal env r.group_key_enc;
  local_priv_key = unseal env r.local_priv_key_enc;
  local_pub_key = col_blob r.local_pub_key;
  is_admin = r.is_admin;
  joined_at = pos_part (iso_to_epoch_ms env (c_string r.joined_at));
}

abbrev pub group_row : Env → (now : ℕ) → Group → GroupRow
group_row env now g = record {
  id = g.id;
  name = g.name;
  kind = if g.is_channel then codes "channel" else codes "group";
  server_url = g.server_url;
  username = g.username;
  token_enc = bind_blob (seal env g.token);
  group_key_enc = bind_blob (seal env g.group_key);
  local_priv_key_enc = bind_blob (seal env g.local_priv_key);
  local_pub_key = bind_blob g.local_pub_key;
  is_admin = g.is_admin;
  joined_at = epoch_ms_to_iso env now (pos (if ltb 0 g.joined_at then g.joined_at else now));
}

-- INSERT OR REPLACE
unfoldable pub save_group : (ok : Bool) → Env → (now : ℕ) → Group → Db → Db × Bool
unfolding seal
save_group ok env now g db =
    completes ok (with_groups (delete_rows (has_id g.id) db.groups ++ group_row env now g ∷ []) db)
      db

unfoldable pub update_group : (ok : Bool) → Text → (GroupRow → GroupRow) → Db → Db × Bool
update_group ok id f db = completes ok (with_groups (update_rows (has_id id) f db.groups) db) db

module _ (ok : Bool) (env : Env) (group_id : Text) where
  unfoldable pub update_group_token : (token : Text) → Db → Db × Bool
  unfolding update_group seal
  update_group_token token =
      update_group ok group_id (λ r. record r { token_enc = bind_blob (seal env token) })

  -- While KeyProtector is not ready the key is written as it is.
  unfoldable pub update_group_key : (key : Text) → Db → Db × Bool
  unfolding update_group
  update_group_key key =
      let enc = if env.is_ready then env.encrypt key else key in
      update_group ok group_id (λ r. record r { group_key_enc = bind_blob enc })

module _ (ok : Bool) (group_id : Text) where
  unfoldable pub update_group_name : (name : Text) → Db → Db × Bool
  unfolding update_group
  update_group_name name = update_group ok group_id (λ r. record r { name = name })

  unfoldable pub set_group_admin : (is_admin : Bool) → Db → Db × Bool
  unfolding update_group
  set_group_admin is_admin = update_group ok group_id (λ r. record r { is_admin = is_admin })

  -- `cleared` is whether the messages are deleted.
  unfoldable pub delete_group : (cleared : Bool) → Db → Db × Bool
  delete_group cleared db =
      let rest = delete_rows (λ r. text_eq r.group_id group_id) db.group_messages in
      let kept = if cleared then record db { group_messages = rest } else db in
      completes ok (with_groups (delete_rows (has_id group_id) kept.groups) kept) kept

abbrev pub no_group : Group
no_group = record {
  id = [];
  name = [];
  is_channel = false;
  server_url = [];
  username = [];
  token = [];
  group_key = [];
  local_priv_key = [];
  local_pub_key = [];
  is_admin = false;
  joined_at = 0;
}

unfoldable pub get_group : Env → Text → Db → Group
unfolding row_to_group
get_group env id db = first_row no_group (row_to_group env) (where_rows (has_id id) db.groups)

unfoldable pub all_groups : Env → Db → List Group
unfolding row_to_group
all_groups env db = map (row_to_group env) (order_by (λ a b. text_lt a.name b.name) db.groups)

abbrev pub account_row : Env → (now : ℕ) → DiscoveryAccount → AccountRow
account_row env now a = record {
  host = a.host;
  port = a.port;
  username = a.username;
  token_enc = bind_blob (seal env a.token);
  registered_at =
      epoch_ms_to_iso env now (if ltb_ℤ (pos 0) a.registered_at then a.registered_at else pos now);
}

-- The one row of the account, by INSERT … ON CONFLICT DO UPDATE.
unfoldable pub save_discovery_account :
    (ok : Bool) → Env → (now : ℕ) → DiscoveryAccount → Db → Db × Bool
unfolding seal
save_discovery_account ok env now a db =
    completes ok (record db { discovery_account = some (account_row env now a) }) db

abbrev pub no_account : DiscoveryAccount
no_account = record { host = []; port = 0; username = []; token = []; registered_at = pos 0 }

abbrev pub row_to_account : Env → Option AccountRow → DiscoveryAccount
row_to_account env none = no_account
row_to_account env (some r) = record {
  host = c_string r.host;
  port = r.port % 2 ^ 16;
  username = c_string r.username;
  token = unseal env r.token_enc;
  registered_at = iso_to_epoch_ms env (c_string r.registered_at);
}

unfoldable pub get_discovery_account : Env → Db → DiscoveryAccount
unfolding unseal
get_discovery_account env db = row_to_account env db.discovery_account

unfoldable pub clear_discovery_account : (ok : Bool) → Db → Db × Bool
clear_discovery_account ok db = completes ok (record db { discovery_account = none }) db
