-- ===== src/Storage/Contacts.antt =====
-- The contacts of src/storage/storage.cpp: addContact, its updates, deleteContact, the queries.
use naleystogramm_core.Prelude.{
  ℕ, ◌*◌, ◌/◌, ◌%◌, ◌^◌, Bool, false, ◌&&◌, List, [], ◌∷◌, ◌++◌, map, if◌then◌else◌,
}
use naleystogramm_core.Network.Wire.{text_lt}
use naleystogramm_core.Prelude.Int.{pos, pos_part, ltb_ℤ}
use naleystogramm_core.Prelude.Text.{Text, codes, text_eq, is_empty}
use naleystogramm_core.Storage.{
  Contact, ContactRow, BlockedRow, Db, Env, storage_app_version, epoch_ms_to_iso, c_string,
  col_blob, bind_blob, completes,
}
use naleystogramm_core.Storage.Sql.{
  where_rows, delete_rows, update_rows, first_row, order_by, contains, is_new, is_unreferenced,
}

abbrev pub with_contacts : List ContactRow → Db → Db
with_contacts rows db = record db { contacts = rows }

abbrev pub has_uuid : Text → ContactRow → Bool
has_uuid uuid r = text_eq r.uuid uuid

abbrev pub uuids : Db → List Text
uuids db = map (λ r. r.uuid) db.contacts

-- The peers that the messages name.
abbrev pub peers : Db → List Text
peers db = map (λ r. r.peer_uuid) db.messages

abbrev pub version_of : Text → Text
version_of v = if is_empty v then codes "0.1.0" else v

unfoldable pub row_to_contact : ContactRow → Contact
row_to_contact r = record {
  uuid = c_string r.uuid;
  name = c_string r.name;
  ip = c_string r.ip;
  port = r.port % 2 ^ 16;
  identity_key = col_blob r.identity_key;
  avatar_hash = c_string r.avatar_hash;
  avatar_path = c_string r.avatar_path;
  is_blocked = r.is_blocked;
  is_muted = r.is_muted;
  last_seen = if ltb_ℤ (pos 0) r.last_seen then pos (pos_part r.last_seen * 1000) else pos 0;
  system_info_json = c_string r.systeminfo_json;
  birthday = c_string r.birthday;
  version_created = version_of (c_string r.version_created);
}

abbrev pub no_contact : Contact
no_contact = record {
  uuid = [];
  name = [];
  ip = [];
  port = 0;
  identity_key = [];
  avatar_hash = [];
  avatar_path = [];
  is_blocked = false;
  is_muted = false;
  last_seen = pos 0;
  system_info_json = [];
  birthday = [];
  version_created = codes "0.1.0";
}

-- The row of a contact that is new, with the defaults of the columns that the INSERT leaves out.
abbrev pub new_row : Contact → ContactRow
new_row c = record {
  uuid = c.uuid;
  name = c.name;
  ip = c.ip;
  port = c.port;
  identity_key = bind_blob c.identity_key;
  avatar_hash = c.avatar_hash;
  avatar_path = c.avatar_path;
  is_blocked = false;
  is_muted = false;
  last_seen = pos 0;
  systeminfo_json = if is_empty c.system_info_json then codes "{}" else c.system_info_json;
  birthday = [];
  version_created = storage_app_version;
}

abbrev pub renewed : Contact → ContactRow → ContactRow
renewed c r = record r {
  name = c.name;
  ip = c.ip;
  port = c.port;
  version_created = storage_app_version;
}

-- `looked` is whether the query for the uuid is completed.
unfoldable pub add_contact : (looked ok : Bool) → Contact → Db → Db × Bool
add_contact looked ok c db =
    let known = contains c.uuid (uuids db) in
    if looked && known
    then completes ok (with_contacts (update_rows (has_uuid c.uuid) (renewed c) db.contacts) db) db
    else completes (ok && is_new c.uuid (uuids db))
        (with_contacts (db.contacts ++ new_row c ∷ []) db) db

-- An UPDATE of the contact with a uuid, which is completed too where there is none.
unfoldable pub update_contact : (ok : Bool) → Text → (ContactRow → ContactRow) → Db → Db × Bool
update_contact ok uuid f db =
    completes ok (with_contacts (update_rows (has_uuid uuid) f db.contacts) db) db

module _ (ok : Bool) (uuid : Text) where
  unfoldable pub update_contact_address : (ip : Text) → (port : ℕ) → Db → Db × Bool
  unfolding update_contact
  update_contact_address ip port = update_contact ok uuid (λ r. record r { ip = ip; port = port })

  unfoldable pub update_contact_key : (key : Text) → Db → Db × Bool
  unfolding update_contact
  update_contact_key key = update_contact ok uuid (λ r. record r { identity_key = bind_blob key })

  unfoldable pub update_contact_name : (name : Text) → Db → Db × Bool
  unfolding update_contact
  update_contact_name name = update_contact ok uuid (λ r. record r { name = name })

  unfoldable pub update_avatar : (hash path : Text) → Db → Db × Bool
  unfolding update_contact
  update_avatar hash path =
      update_contact ok uuid (λ r. record r { avatar_hash = hash; avatar_path = path })

  unfoldable pub update_contact_system_info : (info_json : Text) → Db → Db × Bool
  unfolding update_contact
  update_contact_system_info info_json =
      update_contact ok uuid (λ r. record r { systeminfo_json = info_json })

  unfoldable pub update_contact_birthday : (birthday : Text) → Db → Db × Bool
  unfolding update_contact
  update_contact_birthday birthday = update_contact ok uuid (λ r. record r { birthday = birthday })

  unfoldable pub block_contact : (blocked : Bool) → Db → Db × Bool
  unfolding update_contact
  block_contact blocked = update_contact ok uuid (λ r. record r { is_blocked = blocked })

  unfoldable pub set_contact_muted : (muted : Bool) → Db → Db × Bool
  unfolding update_contact
  set_contact_muted muted = update_contact ok uuid (λ r. record r { is_muted = muted })

  unfoldable pub update_last_seen : (now : ℕ) → Db → Db × Bool
  unfolding update_contact
  update_last_seen now = update_contact ok uuid (λ r. record r { last_seen = pos (now / 1000) })

unfoldable pub get_contact : Text → Db → Contact
unfolding row_to_contact
get_contact uuid db = first_row no_contact row_to_contact (where_rows (has_uuid uuid) db.contacts)

-- ORDER BY name compares bytes.
unfoldable pub all_contacts : Db → List Contact
unfolding row_to_contact
all_contacts db = map row_to_contact (order_by (λ a b. text_lt a.name b.name) db.contacts)

-- INSERT OR REPLACE
abbrev pub list_blocked : Text → (at : Text) → List BlockedRow → List BlockedRow
list_blocked uuid at rows =
    delete_rows (λ r. text_eq r.uuid uuid) rows ++ record { uuid = uuid; blocked_at = at } ∷ []

unfoldable pub is_contact_blocked : Text → Db → Bool
is_contact_blocked uuid db =
    first_row false (λ r. r.is_blocked) (where_rows (has_uuid uuid) db.contacts)

unfoldable pub preserve_block : (ok : Bool) → Env → (now : ℕ) → Text → Db → Db
preserve_block ok env now uuid db =
    let at = epoch_ms_to_iso env now (pos now) in
    if ok then record db { blocked_list = list_blocked uuid at db.blocked_list } else db

unfoldable pub drop_messages : (ok : Bool) → Text → Db → Db × Bool
drop_messages ok uuid db =
    completes ok (record db { messages = delete_rows (λ r. text_eq r.peer_uuid uuid) db.messages })
      db

-- The messages refer to the contacts.
unfoldable pub drop_contact : (ok : Bool) → Text → Db → Db × Bool
drop_contact ok uuid db =
    completes (ok && is_unreferenced db.foreign_keys uuid (peers db))
      (with_contacts (delete_rows (has_uuid uuid) db.contacts) db) db

-- The four statements, each with whether it is completed.
unfoldable pub delete_contact :
    (looked listed cleared ok : Bool) → Env → (now : ℕ) → Text → Db → Db × Bool
unfolding preserve_block drop_messages drop_contact is_contact_blocked
delete_contact looked listed cleared ok env now uuid db =
    let kept =
      if looked && is_contact_blocked uuid db then preserve_block listed env now uuid db else db in
    drop_contact ok uuid (drop_messages cleared uuid kept).0

unfoldable pub is_uuid_blocked : Text → Db → Bool
is_uuid_blocked uuid db = contains uuid (map (λ r. r.uuid) db.blocked_list)

unfoldable pub clear_messages : (ok : Bool) → Text → Db → Db × Bool
unfolding drop_messages
clear_messages ok uuid db = drop_messages ok uuid db
