-- ===== src/Storage/Blocking.antt =====
-- The list of blocked uuids of src/storage/storage.cpp: deleteContact and isUuidBlocked.
use naleystogramm_core.Prelude.{
  ℕ, ◌≡◌, refl, ap, ◌∙◌, Bool, true, false, ◌&&◌, ◌||◌, List, [], ◌∷◌, ◌++◌, map, arith,
  if◌then◌else◌, Bool-cases, inl, inr,
}
use naleystogramm_core.Prelude.Int.{pos}
use naleystogramm_core.Prelude.Text.{Text, text_eq, text_eq_refl}
use naleystogramm_core.Groups.{GroupMessage}
use naleystogramm_core.Storage.{Contact, Message, BlockedRow, Db, Env, completes, epoch_ms_to_iso}
use naleystogramm_core.Storage.Sql.{
  delete_rows, contains, without, contains-without, contains-last, has_parent,
}
use naleystogramm_core.Storage.Contacts.{
  uuids, add_contact, update_contact, update_contact_address, update_contact_key,
  update_contact_name, update_avatar, update_contact_system_info, update_contact_birthday,
  block_contact, set_contact_muted, update_last_seen, list_blocked, preserve_block,
  is_contact_blocked, drop_messages, drop_contact, delete_contact, is_uuid_blocked, clear_messages,
}
use naleystogramm_core.Storage.Messages.{save_message, mark_delivered, save_group_message}
use naleystogramm_core.Storage.Secrets.{
  save_group, update_group, update_group_token, update_group_key, update_group_name,
  set_group_admin, delete_group, save_discovery_account, clear_discovery_account,
}
use naleystogramm_core.Storage.Runs.{
  Op, add, address, identity, name, birthday, info, avatar, block, mute, seen, delete, clear, save,
  mark, keep_group, token, key, rename, admin, forget, post, account, sign_off, step, run,
}
use naleystogramm_core.Storage.Keys.{map-delete_rows, map-last}

-- A uuid put on the list is on it, and all others as before.
contains-list_blocked :
    (k j at : Text) (rows : List BlockedRow)
    → contains j (map (λ r. r.uuid) (list_blocked k at rows))
      ≡ (text_eq k j || contains j (map (λ r. r.uuid) rows))
contains-list_blocked k j at rows =
    let gone = delete_rows (λ (r : BlockedRow). text_eq r.uuid k) rows in
    let keys = map (λ (r : BlockedRow). r.uuid) rows in
    ap (contains j) (
      map-last (λ (r : BlockedRow). r.uuid) gone (record { uuid = k; blocked_at = at })
      ∙ ap (λ t. t ++ k ∷ []) (map-delete_rows (λ (r : BlockedRow). r.uuid) k rows))
    ∙ contains-last k j (without k keys)
    ∙ ground (arith, contains-without k j keys)

is_uuid_blocked-preserve_block :
    (ok : Bool) (env : Env) (now : ℕ) (k j : Text) (db : Db)
    → is_uuid_blocked j (preserve_block ok env now k db)
      ≡ (if ok then text_eq k j || is_uuid_blocked j db else is_uuid_blocked j db)
unfolding is_uuid_blocked preserve_block
is_uuid_blocked-preserve_block false env now k j db = refl
is_uuid_blocked-preserve_block true env now k j db =
    contains-list_blocked k j (epoch_ms_to_iso env now (pos now)) db.blocked_list

completes_keeps :
    (ok : Bool) (new old : Db)
    → new.blocked_list ≡ old.blocked_list
    → (completes ok new old).0.blocked_list ≡ old.blocked_list
unfolding completes
completes_keeps true new old e = e
completes_keeps false new old e = refl

-- The deletions that follow leave the list.
dropped_keeps :
    (ok cleared : Bool) (uuid : Text) (db : Db)
    → (drop_contact ok uuid (drop_messages cleared uuid db).0).0.blocked_list ≡ db.blocked_list
unfolding drop_contact drop_messages
dropped_keeps ok cleared uuid db =
    completes_keeps _ _ (completes cleared _ db).0 refl ∙ completes_keeps cleared _ db refl

delete_contact_keeps :
    (looked listed cleared ok : Bool) (env : Env) (now : ℕ) (k j : Text) (db : Db)
    → is_uuid_blocked j db ≡ true
    → is_uuid_blocked j (delete_contact looked listed cleared ok env now k db).0 ≡ true
unfolding delete_contact
delete_contact_keeps looked listed cleared ok env now k j db h =
    elim (Bool-cases (looked && is_contact_blocked k db)) [
      | inl e ↦ rw e (
          unfold is_uuid_blocked in
          ap (λ rows. contains j (map (λ (r : BlockedRow). r.uuid) rows))
            (dropped_keeps ok cleared k (preserve_block listed env now k db))
          ∙ ground (arith, is_uuid_blocked-preserve_block listed env now k j db))
      | inr e ↦ rw e (
          unfold is_uuid_blocked in
          ap (λ rows. contains j (map (λ (r : BlockedRow). r.uuid) rows))
            (dropped_keeps ok cleared k db)
          ∙ h)
    ]

-- No call but deleteContact writes to the list.
add_contact_keeps :
    (looked ok : Bool) (c : Contact) (db : Db)
    → (add_contact looked ok c db).0.blocked_list ≡ db.blocked_list
unfolding add_contact
add_contact_keeps looked ok c db = elim (Bool-cases (looked && contains c.uuid (uuids db))) [
  | inl e ↦ rw e (completes_keeps ok _ db refl)
  | inr e ↦ rw e (completes_keeps _ _ db refl)
]

save_message_keeps :
    (ok : Bool) (env : Env) (now : ℕ) (m : Message) (db : Db)
    → (save_message ok env now m db).0.blocked_list ≡ db.blocked_list
unfolding save_message
save_message_keeps ok env now m db =
    elim (Bool-cases (ok && has_parent db.foreign_keys m.peer_uuid (uuids db))) [
      | inl e ↦ rw e refl
      | inr e ↦ rw e refl
    ]

save_group_message_keeps :
    (ok : Bool) (m : GroupMessage) (db : Db)
    → (save_group_message ok m db).0.blocked_list ≡ db.blocked_list
unfolding save_group_message
save_group_message_keeps true m db = refl
save_group_message_keeps false m db = refl

delete_group_keeps :
    (ok : Bool) (id : Text) (cleared : Bool) (db : Db)
    → (delete_group ok id cleared db).0.blocked_list ≡ db.blocked_list
unfolding delete_group
delete_group_keeps ok id true db = completes_keeps ok _ _ refl
delete_group_keeps ok id false db = completes_keeps ok _ db refl

unchanged :
    (j : Text) (db db' : Db)
    → db'.blocked_list ≡ db.blocked_list
    → is_uuid_blocked j db ≡ true
    → is_uuid_blocked j db' ≡ true
unfolding is_uuid_blocked
unchanged j db db' e h = ap (λ rows. contains j (map (λ (r : BlockedRow). r.uuid) rows)) e ∙ h

step_keeps :
    (env : Env) (op : Op) (j : Text) (db : Db)
    → is_uuid_blocked j db ≡ true
    → is_uuid_blocked j (step env op db) ≡ true
unfolding step update_contact update_contact_address update_contact_key update_contact_name
    update_avatar update_contact_system_info update_contact_birthday block_contact set_contact_muted
    update_last_seen clear_messages drop_messages mark_delivered save_group update_group
    update_group_token update_group_key update_group_name set_group_admin save_discovery_account
    clear_discovery_account
step_keeps env (add looked ok c) j db = unchanged j db _ (add_contact_keeps looked ok c db)
step_keeps env (address ok uuid ip port) j db = unchanged j db _ (completes_keeps ok _ db refl)
step_keeps env (identity ok uuid v) j db = unchanged j db _ (completes_keeps ok _ db refl)
step_keeps env (name ok uuid v) j db = unchanged j db _ (completes_keeps ok _ db refl)
step_keeps env (birthday ok uuid v) j db = unchanged j db _ (completes_keeps ok _ db refl)
step_keeps env (info ok uuid v) j db = unchanged j db _ (completes_keeps ok _ db refl)
step_keeps env (avatar ok uuid hash path) j db = unchanged j db _ (completes_keeps ok _ db refl)
step_keeps env (block ok uuid on) j db = unchanged j db _ (completes_keeps ok _ db refl)
step_keeps env (mute ok uuid on) j db = unchanged j db _ (completes_keeps ok _ db refl)
step_keeps env (seen ok uuid now) j db = unchanged j db _ (completes_keeps ok _ db refl)
step_keeps env (delete looked listed cleared ok now uuid) j db =
    delete_contact_keeps looked listed cleared ok env now uuid j db
step_keeps env (clear ok uuid) j db = unchanged j db _ (completes_keeps ok _ db refl)
step_keeps env (save ok now m) j db = unchanged j db _ (save_message_keeps ok env now m db)
step_keeps env (mark ok id) j db = unchanged j db _ (completes_keeps ok _ db refl)
step_keeps env (keep_group ok now g) j db = unchanged j db _ (completes_keeps ok _ db refl)
step_keeps env (token ok id v) j db = unchanged j db _ (completes_keeps ok _ db refl)
step_keeps env (key ok id v) j db = unchanged j db _ (completes_keeps ok _ db refl)
step_keeps env (rename ok id v) j db = unchanged j db _ (completes_keeps ok _ db refl)
step_keeps env (admin ok id on) j db = unchanged j db _ (completes_keeps ok _ db refl)
step_keeps env (forget ok id cleared) j db = unchanged j db _ (delete_group_keeps ok id cleared db)
step_keeps env (post ok m) j db = unchanged j db _ (save_group_message_keeps ok m db)
step_keeps env (account ok now a) j db = unchanged j db _ (completes_keeps ok _ db refl)
step_keeps env (sign_off ok) j db = unchanged j db _ (completes_keeps ok _ db refl)

run_keeps :
    (env : Env) (ops : List Op) (j : Text) (db : Db)
    → is_uuid_blocked j db ≡ true
    → is_uuid_blocked j (run env ops db) ≡ true
unfolding run
run_keeps env [] j db h = h
run_keeps env (op ∷ ops) j db h = run_keeps env ops j (step env op db) (step_keeps env op j db h)

-- Where a contact is blocked and its deletion is completed, its uuid counts as blocked from then on, after
-- any sequence of calls: adding and unblocking the contact again does not change it, and no call does.
pub deleted_stays_blocked :
    (env : Env) (now : ℕ) (uuid : Text) (ops : List Op) (db : Db)
    → is_contact_blocked uuid db ≡ true
    → is_uuid_blocked uuid (run env ops (delete_contact true true true true env now uuid db).0)
      ≡ true
unfolding delete_contact
deleted_stays_blocked env now uuid ops db h =
    run_keeps env ops uuid (delete_contact true true true true env now uuid db).0 (
      rw h (
        unfold is_uuid_blocked in
        ap (λ rows. contains uuid (map (λ (r : BlockedRow). r.uuid) rows))
          (dropped_keeps true true uuid (preserve_block true env now uuid db))
        ∙ ground
            (arith, is_uuid_blocked-preserve_block true env now uuid uuid db, text_eq_refl uuid)))
