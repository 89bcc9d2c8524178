-- ===== src/Storage/Examples.antt =====
-- src/storage/storage.cpp on concrete input.
use naleystogramm_core.Prelude.{
  ◌+◌, ◌*◌, ◌/◌, ◌≡◌, refl, true, false, none, some, inl, [], ◌∷◌, ◌++◌, arith, if◌then◌else◌,
}
use naleystogramm_core.Prelude.Int.{pos, negsuc}
use naleystogramm_core.Prelude.Text.{codes, text_eq}
use naleystogramm_core.Prelude.Map.{get}
use naleystogramm_core.Groups.{Group}
use naleystogramm_core.Storage.{Contact, Message, Db, Env, c_string, epoch_ms_to_iso, completes}
use naleystogramm_core.Storage.Sql.{where_rows, first_row, contains, insert_row, order_by, page}
use naleystogramm_core.Storage.Contacts.{
  no_contact, new_row, add_contact, get_contact, delete_contact, drop_contact, is_contact_blocked,
  is_uuid_blocked, block_contact,
}
use naleystogramm_core.Storage.Messages.{message_row, row_to_message, save_message, get_messages}
use naleystogramm_core.Storage.Secrets.{has_id, group_row, save_group, update_group_key, get_group}
use naleystogramm_core.Storage.Schema.{Schema, migrate}
use naleystogramm_core.Storage.Runs.{add, block, run}
use naleystogramm_core.Storage.Added.{expected, get_contact-add_contact}
use naleystogramm_core.Storage.Pages.{pages_join}
use naleystogramm_core.Storage.Deleted.{delete_contact_lem}
use naleystogramm_core.Storage.Blocking.{deleted_stays_blocked}
use naleystogramm_core.Storage.Sealed.{get_group-save_group, key_in_clear}
use naleystogramm_core.Storage.Migrated.{IsCurrent, migrate_lem}

-- A clock whose text is the one byte of its seconds, and a cipher that puts a byte before the text.
abbrev plain : Env
plain = record {
  print_local = λ secs. secs ∷ [];
  read_local = λ t. elim t [ [] ↦ none | secs ∷ rest ↦ some (pos secs) ];
  is_ready = true;
  encrypt = λ t. 1 ∷ t;
  decrypt = λ t. elim t [ [] ↦ [] | c ∷ rest ↦ rest ];
}

abbrev shut : Env
shut = record plain { is_ready = false }

abbrev ann : Contact
ann = record no_contact {
  uuid = codes "u1";
  name = codes "Ann";
  ip = codes "10.0.0.1";
  port = 47821;
}

abbrev hello : Message
hello = record {
  id = 0;
  peer_uuid = codes "u1";
  outgoing = true;
  text = codes "hello";
  file_name = [];
  file_size = pos 0;
  ciphertext = [];
  timestamp = pos 5000;
  delivered = false;
  is_voice = false;
  voice_duration_ms = pos 0;
  version_created = [];
}

abbrev empty : Db
empty = record {
  foreign_keys = true;
  contacts = [];
  blocked_list = [];
  messages = [];
  next_message = 1;
  groups = [];
  group_messages = [];
  next_group_message = 1;
  discovery_account = none;
}

-- Two messages of a contact.
abbrev talk : Db
talk = record empty {
  contacts = new_row ann ∷ [];
  messages = message_row plain 0 1 hello ∷ message_row plain 0 2 hello ∷ [];
  next_message = 3;
}

abbrev blocked_ann : Db
blocked_ann = record empty { contacts = record (new_row ann) { is_blocked = true } ∷ [] }

abbrev chat : Group
chat = record {
  id = codes "https://g";
  name = codes "chat";
  is_channel = true;
  server_url = codes "https://g";
  username = codes "ann";
  token = codes "t";
  group_key = [];
  local_priv_key = codes "k";
  local_pub_key = codes "p";
  is_admin = true;
  joined_at = 7300;
}

abbrev one_group : Db
one_group = record empty { groups = group_row plain 0 chat ∷ [] }

-- A message to nobody that is known is refused; a limit of -1 is none.
refused : (save_message true plain 0 hello empty).1 ≡ negsuc 0
unfolding save_message contains
refused = refl

whole :
    get_messages plain (codes "u1") (negsuc 0) (pos 1) talk
    ≡ row_to_message plain (message_row plain 0 1 hello) ∷ []
unfolding get_messages page order_by insert_row where_rows text_eq epoch_ms_to_iso
whole = refl

-- A text ends at its first NUL.
cut : c_string (104 ∷ 0 ∷ 105 ∷ []) ≡ 104 ∷ []
unfolding c_string
cut = refl

-- A contact that is blocked and still there is not on the list.
not_listed : is_uuid_blocked (codes "u1") (block_contact true (codes "u1") true talk).0 ≡ false
unfolding is_uuid_blocked block_contact completes contains
not_listed = refl

pages_join_example :
    get_messages plain (codes "u1") (pos 2) (pos 1) talk
      ++ get_messages plain (codes "u1") (pos 1) (pos 0) talk
    ≡ get_messages plain (codes "u1") (pos (1 + 2)) (pos 0) talk
pages_join_example = pages_join plain (codes "u1") 1 2 talk ((refl, tt), (tt, tt))

get_contact-add_contact_example :
    ((add_contact true true ann empty).1 ≡ true)
    × (get_contact (codes "u1") (add_contact true true ann empty).0 ≡ (
        if text_eq (codes "u1") (codes "u1")
        then expected ann empty
        else get_contact (codes "u1") empty))
get_contact-add_contact_example = get_contact-add_contact ann (codes "u1") empty

delete_contact_lem_example :
    let r = delete_contact true true true true plain 9 (codes "u1") talk in
    (r.1 ≡ true)
    × (get_contact (codes "u1") r.0
        ≡ (if text_eq (codes "u1") (codes "u1") then no_contact else get_contact (codes "u1") talk))
    × (get_messages plain (codes "u1") (pos 9) (pos 0) r.0 ≡ (
        if text_eq (codes "u1") (codes "u1")
        then []
        else get_messages plain (codes "u1") (pos 9) (pos 0) talk))
delete_contact_lem_example =
    delete_contact_lem plain 9 (codes "u1") (codes "u1") (pos 9) (pos 0) talk

-- While messages name a contact, it cannot be deleted alone.
still_named : (drop_contact true (codes "u1") talk).1 ≡ false
unfolding drop_contact completes contains text_eq
still_named = refl

deleted_stays_blocked_example :
    is_uuid_blocked (codes "u1") (
      run plain
        (add true true ann ∷ block true (codes "u1") false ∷ [])
        (delete_contact true true true true plain 9 (codes "u1") blocked_ann).0)
    ≡ true
unfolding is_contact_blocked first_row where_rows text_eq
deleted_stays_blocked_example =
    deleted_stays_blocked plain 9 (codes "u1")
      (add true true ann ∷ block true (codes "u1") false ∷ []) blocked_ann refl

get_group-save_group_example :
    get_group plain (codes "https://g") (save_group true plain 9 chat one_group).0
    ≡ record chat { joined_at = 7300 / 1000 * 1000 }
unfolding c_string
get_group-save_group_example =
    get_group-save_group plain 9 chat one_group refl (λ s. refl) (λ s e. cc) refl refl refl refl
      (omega arith) refl (λ e. cc) refl

key_in_clear_example :
    (first_row none
        (λ r. r.group_key_enc)
        (where_rows
          (has_id (codes "https://g"))
          (update_group_key true shut (codes "https://g") (7 ∷ 8 ∷ []) one_group).0.groups)
      ≡ some (7 ∷ 8 ∷ []))
    × ((get_group plain
          (codes "https://g")
          (update_group_key true shut (codes "https://g") (7 ∷ 8 ∷ []) one_group).0).group_key
        ≡ plain.decrypt (7 ∷ 8 ∷ []))
unfolding contains text_eq
key_in_clear_example =
    key_in_clear shut plain (codes "https://g") 7 (8 ∷ []) one_group refl refl refl

-- A database without tables.
abbrev nothing : Schema
nothing = []

migrate_lem_example : IsCurrent (migrate nothing) × (migrate (migrate nothing) ≡ migrate nothing)
unfolding get
migrate_lem_example = migrate_lem nothing (record {
  contacts = inl refl;
  messages = inl refl;
  blocked_list = inl refl;
  groups = inl refl;
  group_messages = inl refl;
  discovery_account = inl refl;
})
