-- ===== src/Storage/Runs.antt =====
-- Every method of StorageManager that changes the database (src/storage/storage.cpp) as a step, and
-- what holds after any sequence of them.
use naleystogramm_core.Prelude.{ℕ, Bool, List, [], ◌∷◌}
use naleystogramm_core.Prelude.Text.{Text}
use naleystogramm_core.Groups.{Group, GroupMessage}
use naleystogramm_core.Storage.{Contact, Message, DiscoveryAccount, Db, Env}
use naleystogramm_core.Storage.Contacts.{
  add_contact, update_contact_address, update_contact_key, update_contact_name, update_avatar,
  update_contact_system_info, update_contact_birthday, block_contact, set_contact_muted,
  update_last_seen, delete_contact, clear_messages,
}
use naleystogramm_core.Storage.Messages.{save_message, mark_delivered, save_group_message}
use naleystogramm_core.Storage.Secrets.{
  save_group, update_group_token, update_group_key, update_group_name, set_group_admin,
  delete_group, save_discovery_account, clear_discovery_account,
}

-- A call, with whether each of its statements is completed.
pub data Op : Type 0 where
  add : (looked ok : Bool) → Contact → Op
  address : (ok : Bool) → (uuid ip : Text) → (port : ℕ) → Op
  identity name birthday info : (ok : Bool) → (uuid value : Text) → Op
  avatar : (ok : Bool) → (uuid hash path : Text) → Op
  block mute : (ok : Bool) → (uuid : Text) → (on : Bool) → Op
  seen : (ok : Bool) → (uuid : Text) → (now : ℕ) → Op
  delete : (looked listed cleared ok : Bool) → (now : ℕ) → (uuid : Text) → Op
  clear : (ok : Bool) → (uuid : Text) → Op
  save : (ok : Bool) → (now : ℕ) → Message → Op
  mark : (ok : Bool) → (msg_id : ℕ) → Op
  keep_group : (ok : Bool) → (now : ℕ) → Group → Op
  token key rename : (ok : Bool) → (group_id value : Text) → Op
  admin : (ok : Bool) → (group_id : Text) → (is_admin : Bool) → Op
  forget : (ok : Bool) → (group_id : Text) → (cleared : Bool) → Op
  post : (ok : Bool) → GroupMessage → Op
  account : (ok : Bool) → (now : ℕ) → DiscoveryAccount → Op
  sign_off : (ok : Bool) → Op

unfoldable pub step : Env → Op → Db → Db
step env (add looked ok c) db = (add_contact looked ok c db).0
step env (address ok uuid ip port) db = (update_contact_address ok uuid ip port db).0
step env (identity ok uuid v) db = (update_contact_key ok uuid v db).0
step env (name ok uuid v) db = (update_contact_name ok uuid v db).0
step env (birthday ok uuid v) db = (update_contact_birthday ok uuid v db).0
step env (info ok uuid v) db = (update_contact_system_info ok uuid v db).0
step env (avatar ok uuid hash path) db = (update_avatar ok uuid hash path db).0
step env (block ok uuid on) db = (block_contact ok uuid on db).0
step env (mute ok uuid on) db = (set_contact_muted ok uuid on db).0
step env (seen ok uuid now) db = (update_last_seen ok uuid now db).0
step env (delete looked listed cleared ok now uuid) db =
    (delete_contact looked listed cleared ok env now uuid db).0
step env (clear ok uuid) db = (clear_messages ok uuid db).0
step env (save ok now m) db = (save_message ok env now m db).0
step env (mark ok id) db = (mark_delivered ok id db).0
step env (keep_group ok now g) db = (save_group ok env now g db).0
step env (token ok id v) db = (update_group_token ok env id v db).0
step env (key ok id v) db = (update_group_key ok env id v db).0
step env (rename ok id v) db = (update_group_name ok id v db).0
step env (admin ok id on) db = (set_group_admin ok id on db).0
step env (forget ok id cleared) db = (delete_group ok id cleared db).0
step env (post ok m) db = (save_group_message ok m db).0
step env (account ok now a) db = (save_discovery_account ok env now a db).0
step env (sign_off ok) db = (clear_discovery_account ok db).0

unfoldable pub run : Env → List Op → Db → Db
run env [] db = db
run env (op ∷ ops) db = run env ops (step env op db)
