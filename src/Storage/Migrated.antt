-- ===== src/Storage/Migrated.antt =====
-- migrate of src/storage/storage.cpp as a whole.
use naleystogramm_core.Prelude.{◌≡◌, refl, ◌∙◌, ◌++◌, true}
use naleystogramm_core.Prelude.Text.{Text, codes, text_eq}
use naleystogramm_core.Storage.Sql.{contains}
use naleystogramm_core.Storage.Schema.{
  Schema, has_column, contact_columns, message_columns, blocked_columns, added_to_contacts,
  added_to_messages, group_columns, group_message_columns, account_columns, migrate,
  selected_contacts, selected_messages,
}
use naleystogramm_core.Storage.Upgrade.{
  HasAll, Base, added_cols, create_table-HasAll, get-create_table, Base-of_get, create_table_again,
  add_cols_again,
}
use naleystogramm_core.Storage.Stages.{
  all_in, subset, All-both, Keeps, Keeps-HasAll, created, extended, get-full_messages, from_groups,
  from_full, from_blocked, from_contacts, made_contacts, made_messages, made_blocked, full_contacts,
  full_messages, made_groups, made_group_messages,
}

-- The tables of an older version: each is missing or has the columns that it is created with.
pub record IsOlder (s : Schema) : Type 0 where
  pub contacts : Base s (codes "contacts") contact_columns
  pub messages : Base s (codes "messages") message_columns
  pub blocked_list : Base s (codes "blocked_list") blocked_columns
  pub groups : Base s (codes "groups") group_columns
  pub group_messages : Base s (codes "group_messages") group_message_columns
  pub discovery_account : Base s (codes "discovery_account") account_columns

-- The tables that the queries of this version read.
pub record IsCurrent (s : Schema) : Type 0 where
  pub contacts : HasAll s (codes "contacts") selected_contacts
  pub messages : HasAll s (codes "messages") selected_messages
  pub blocked_list : HasAll s (codes "blocked_list") blocked_columns
  pub groups : HasAll s (codes "groups") group_columns
  pub group_messages : HasAll s (codes "group_messages") group_message_columns
  pub discovery_account : HasAll s (codes "discovery_account") account_columns

-- The two tables that were extended over the versions.
contacts_current :
    (s : Schema)
    → Base s (codes "contacts") contact_columns
    → HasAll (migrate s) (codes "contacts") (contact_columns ++ added_to_contacts)
contacts_current s b =
    let t = codes "contacts" in
    let base : HasAll (made_contacts s) t contact_columns =
      create_table-HasAll t contact_columns s b in
    let there : has_column (made_blocked s) t (codes "uuid") ≡ true =
      created (codes "blocked_list") blocked_columns (made_messages s) t (codes "uuid")
        (created (codes "messages") message_columns (made_contacts s) t (codes "uuid") base.0) in
    All-both (λ c. has_column (migrate s) t c ≡ true) contact_columns added_to_contacts
      (Keeps-HasAll (made_contacts s) (migrate s) (from_contacts s) t contact_columns base)
      (Keeps-HasAll (full_messages s) (migrate s) (from_full s) t added_to_contacts (
        Keeps-HasAll (full_contacts s) (full_messages s)
          (extended (codes "messages") added_to_messages (full_contacts s)) t added_to_contacts
          (added_cols t (codes "uuid") added_to_contacts (made_blocked s) there)))

messages_current :
    (s : Schema)
    → Base s (codes "messages") message_columns
    → HasAll (migrate s) (codes "messages") (message_columns ++ added_to_messages)
unfolding text_eq
messages_current s b =
    let t = codes "messages" in
    let base : HasAll (made_messages s) t message_columns =
      create_table-HasAll t message_columns (made_contacts s) (
        Base-of_get t message_columns s (made_contacts s)
          (get-create_table (codes "contacts") t contact_columns s refl) b) in
    let kept : HasAll (made_blocked s) t message_columns =
      Keeps-HasAll (made_messages s) (made_blocked s)
        (created (codes "blocked_list") blocked_columns (made_messages s)) t message_columns base in
    let there : has_column (full_contacts s) t (codes "id") ≡ true =
      extended (codes "contacts") added_to_contacts (made_blocked s) t (codes "id") kept.0 in
    All-both (λ c. has_column (migrate s) t c ≡ true) message_columns added_to_messages
      (Keeps-HasAll (made_blocked s) (migrate s) (from_blocked s) t message_columns kept)
      (Keeps-HasAll (full_messages s) (migrate s) (from_full s) t added_to_messages
        (added_cols t (codes "id") added_to_messages (full_contacts s) there))

migrate-IsCurrent : (s : Schema) → IsOlder s → IsCurrent (migrate s)
unfolding text_eq contains all_in
migrate-IsCurrent s o = record {
  contacts =
      subset (λ c. has_column (migrate s) (codes "contacts") c ≡ true) selected_contacts
        (contact_columns ++ added_to_contacts) refl (contacts_current s o.contacts);
  messages =
      subset (λ c. has_column (migrate s) (codes "messages") c ≡ true) selected_messages
        (message_columns ++ added_to_messages) refl (messages_current s o.messages);
  blocked_list =
      Keeps-HasAll (made_blocked s) (migrate s) (from_blocked s) (codes "blocked_list")
        blocked_columns
        (create_table-HasAll (codes "blocked_list") blocked_columns (made_messages s) (
          Base-of_get (codes "blocked_list") blocked_columns s (made_messages s)
            (get-create_table (codes "messages") (codes "blocked_list") message_columns
                (made_contacts s) refl
              ∙ get-create_table (codes "contacts") (codes "blocked_list") contact_columns s refl)
            o.blocked_list));
  groups = Keeps-HasAll (made_groups s) (migrate s) (from_groups s) (codes "groups") group_columns (
      create_table-HasAll (codes "groups") group_columns (full_messages s) (
        Base-of_get (codes "groups") group_columns s (full_messages s)
          (get-full_messages (codes "groups") s refl refl refl) o.groups));
  group_messages =
      Keeps-HasAll (made_group_messages s) (migrate s)
        (unfold migrate in
          created (codes "discovery_account") account_columns (made_group_messages s))
        (codes "group_messages") group_message_columns
        (create_table-HasAll (codes "group_messages") group_message_columns (made_groups s) (
          Base-of_get (codes "group_messages") group_message_columns s (made_groups s)
            (get-create_table (codes "groups") (codes "group_messages") group_columns
                (full_messages s) refl
              ∙ get-full_messages (codes "group_messages") s refl refl refl)
            o.group_messages));
  discovery_account =
      unfold migrate in
      create_table-HasAll (codes "discovery_account") account_columns (made_group_messages s) (
        Base-of_get (codes "discovery_account") account_columns s (made_group_messages s)
          (get-create_table (codes "group_messages") (codes "discovery_account")
              group_message_columns (made_groups s) refl
            ∙ get-create_table (codes "groups") (codes "discovery_account") group_columns
                (full_messages s) refl
            ∙ get-full_messages (codes "discovery_account") s refl refl refl)
          o.discovery_account);
}

-- No column that was there is lost.
migrate-Keeps : (s : Schema) → Keeps s (migrate s)
migrate-Keeps s u c h = from_contacts s u c (created (codes "contacts") contact_columns s u c h)

-- A schema that has every column is left as it is.
migrate_again : (s : Schema) → IsCurrent s → migrate s ≡ s
unfolding migrate text_eq contains all_in
migrate_again s h =
    let has = λ (t : Text) (c : Text). has_column s t c ≡ true in
    rw
      (
        create_table_again (codes "contacts") (codes "uuid") contact_columns s h.contacts.0,
        create_table_again (codes "messages") (codes "id") message_columns s h.messages.0,
        create_table_again (codes "blocked_list") (codes "uuid") blocked_columns s h.blocked_list.0,
        add_cols_again (codes "contacts") added_to_contacts s
            (subset (has (codes "contacts")) added_to_contacts selected_contacts refl h.contacts),
        add_cols_again (codes "messages") added_to_messages s
            (subset (has (codes "messages")) added_to_messages selected_messages refl h.messages),
        create_table_again (codes "groups") (codes "id") group_columns s h.groups.0,
        create_table_again (codes "group_messages") (codes "id") group_message_columns s
            h.group_messages.0,
        create_table_again (codes "discovery_account") (codes "id") account_columns s
            h.discovery_account.0,
      )
      refl

-- Of a database of an older version, whose tables are each missing or have the columns that they are
-- created with, whatever else they have, migrate makes one with every column that the queries of this
-- version read; to migrate it again changes nothing.
pub migrate_lem :
    (s : Schema) → IsOlder s → IsCurrent (migrate s) × (migrate (migrate s) ≡ migrate s)
migrate_lem s o = let now = migrate-IsCurrent s o in (now, migrate_again (migrate s) now)
