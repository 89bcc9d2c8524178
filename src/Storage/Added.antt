-- ===== src/Storage/Added.antt =====
-- What a contact is after addContact (src/storage/storage.cpp).
use naleystogramm_core.Prelude.{
  ◌≡◌, refl, ap, sym, ◌∙◌, true, false, Option, none, some, List, [], ◌∷◌, ◌++◌, map, ◌%◌, ◌^◌,
  arith, Bool-cases, inl, inr, if◌then◌else◌,
}
use naleystogramm_core.Prelude.Text.{Text, codes, text_eq, text_eq_iff, is_empty}
use naleystogramm_core.Prelude.Int.{pos}
use naleystogramm_core.Storage.{
  Contact, ContactRow, Db, storage_app_version, c_string, col_blob, bind_blob, completes,
}
use naleystogramm_core.Storage.Sql.{where_rows, update_rows, first_row, contains}
use naleystogramm_core.Storage.Contacts.{
  uuids, has_uuid, row_to_contact, no_contact, new_row, renewed, add_contact, get_contact,
}

abbrev pub new_contact : Contact → Contact
new_contact c = record {
  uuid = c_string c.uuid;
  name = c_string c.name;
  ip = c_string c.ip;
  port = c.port % 2 ^ 16;
  identity_key = c.identity_key;
  avatar_hash = c_string c.avatar_hash;
  avatar_path = c_string c.avatar_path;
  is_blocked = false;
  is_muted = false;
  last_seen = pos 0;
  system_info_json =
      if is_empty c.system_info_json then codes "{}" else c_string c.system_info_json;
  birthday = [];
  version_created = storage_app_version;
}

-- Of a contact that is known only the name, the address and the version are new; one that is not
-- has what it was given, each text up to its first NUL, starts unblocked, not muted, never seen and
-- without a birthday, and has "{}" for an empty system info.
abbrev pub expected : Contact → Db → Contact
expected c db =
    if contains c.uuid (uuids db)
    then record (get_contact c.uuid db) {
      name = c_string c.name;
      ip = c_string c.ip;
      port = c.port % 2 ^ 16;
      version_created = storage_app_version;
    }
    else new_contact c

bind_blob_read : (b : Text) → col_blob (bind_blob b) ≡ b
unfolding bind_blob col_blob
bind_blob_read [] = refl
bind_blob_read (x ∷ b) = refl

info_read :
    (t : Text)
    → c_string (if is_empty t then codes "{}" else t)
      ≡ (if is_empty t then codes "{}" else c_string t)
unfolding c_string
info_read [] = refl
info_read (x ∷ t) = refl

-- The row of a new contact is read as what it was given.
new_row_read : (c : Contact) → row_to_contact (new_row c) ≡ new_contact c
unfolding row_to_contact c_string
new_row_read c = rw (bind_blob_read c.identity_key, info_read c.system_info_json) refl

-- The first row with a uuid, and what it is read as.
row_of : Text → List ContactRow → Option ContactRow
row_of uuid [] = none
row_of uuid (r ∷ rows) = if has_uuid uuid r then some r else row_of uuid rows

abbrev contact_of : Option ContactRow → Contact
contact_of none = no_contact
contact_of (some r) = row_to_contact r

get_contact-row_of :
    (uuid : Text) (rows : List ContactRow)
    → first_row no_contact row_to_contact (where_rows (has_uuid uuid) rows)
      ≡ contact_of (row_of uuid rows)
unfolding where_rows first_row row_of
get_contact-row_of uuid [] = refl
get_contact-row_of uuid (r ∷ rows) = elim (Bool-cases (has_uuid uuid r)) [
  | inl e ↦ rw e refl
  | inr e ↦ rw e (get_contact-row_of uuid rows)
]

abbrev changed : (ContactRow → ContactRow) → Option ContactRow → Option ContactRow
changed f none = none
changed f (some r) = some (f r)

row_of-update_rows :
    (k uuid : Text) (f : ContactRow → ContactRow) (rows : List ContactRow)
    → ((r : ContactRow) → (f r).uuid ≡ r.uuid)
    → row_of uuid (update_rows (has_uuid k) f rows)
      ≡ (if text_eq k uuid then changed f (row_of uuid rows) else row_of uuid rows)
unfolding row_of update_rows
row_of-update_rows k uuid f [] keeps = ground arith
row_of-update_rows k uuid f (r ∷ rows) keeps = ground (
  arith,
  row_of-update_rows k uuid f rows keeps,
  keeps r,
  text_eq_iff r.uuid k,
  text_eq_iff r.uuid uuid,
  text_eq_iff k uuid,
)

row_of-append :
    (uuid : Text) (row : ContactRow) (rows : List ContactRow)
    → contains row.uuid (map (λ r. r.uuid) rows) ≡ false
    → row_of uuid (rows ++ row ∷ [])
      ≡ (if text_eq row.uuid uuid then some row else row_of uuid rows)
unfolding row_of contains
row_of-append uuid row [] h = ground arith
row_of-append uuid row (r ∷ rows) h = ground (
  arith,
  row_of-append uuid row rows,
  text_eq_iff r.uuid uuid,
  text_eq_iff row.uuid uuid,
  text_eq_iff r.uuid row.uuid,
)

row_of_known :
    (uuid : Text) (rows : List ContactRow)
    → contains uuid (map (λ r. r.uuid) rows) ≡ true
    → (r : ContactRow) × (row_of uuid rows ≡ some r)
unfolding row_of contains
row_of_known uuid [] h = cc
row_of_known uuid (r ∷ rows) h = elim (Bool-cases (has_uuid uuid r)) [
  | inl e ↦ (r, rw e refl)
  | inr e ↦ rw e (row_of_known uuid rows (ground arith))
]

renewed_lem :
    (c : Contact) (uuid : Text) (db : Db)
    → contains c.uuid (uuids db) ≡ true
    → ((add_contact true true c db).1 ≡ true)
      × (get_contact uuid (add_contact true true c db).0
          ≡ (if text_eq c.uuid uuid then expected c db else get_contact uuid db))
unfolding add_contact get_contact completes row_to_contact c_string
renewed_lem c uuid db known =
    let (r, at) = row_of_known c.uuid db.contacts known in
    rw
      (
        known,
        get_contact-row_of uuid (update_rows (has_uuid c.uuid) (renewed c) db.contacts),
        row_of-update_rows c.uuid uuid (renewed c) db.contacts (λ r. refl),
        get_contact-row_of uuid db.contacts,
        get_contact-row_of c.uuid db.contacts,
        at,
      )
      (elim (Bool-cases (text_eq c.uuid uuid)) [
        | inl e ↦
            let same : row_of uuid db.contacts ≡ some r =
              ap (λ u. row_of u db.contacts) (sym ((text_eq_iff c.uuid uuid).0 e)) ∙ at in
            rw (e, same) (refl, refl)
        | inr e ↦ rw e (refl, refl)
      ])

added_lem :
    (c : Contact) (uuid : Text) (db : Db)
    → contains c.uuid (uuids db) ≡ false
    → ((add_contact true true c db).1 ≡ true)
      × (get_contact uuid (add_contact true true c db).0
          ≡ (if text_eq c.uuid uuid then expected c db else get_contact uuid db))
unfolding add_contact get_contact completes
added_lem c uuid db fresh =
    rw
      (
        fresh,
        get_contact-row_of uuid (db.contacts ++ new_row c ∷ []),
        row_of-append uuid (new_row c) db.contacts fresh,
        get_contact-row_of uuid db.contacts,
      )
      (elim (Bool-cases (text_eq c.uuid uuid)) [
        | inl e ↦ rw e (refl, new_row_read c)
        | inr e ↦ rw e (refl, refl)
      ])

-- After an addContact whose statements are completed, the contact is the old one with the new name,
-- address and version if it was known; if not, it has each field that was given, with the defaults of
-- the others. Every other contact is what it was.
pub get_contact-add_contact :
    (c : Contact) (uuid : Text) (db : Db)
    → ((add_contact true true c db).1 ≡ true)
      × (get_contact uuid (add_contact true true c db).0
          ≡ (if text_eq c.uuid uuid then expected c db else get_contact uuid db))
get_contact-add_contact c uuid db = elim (Bool-cases (contains c.uuid (uuids db))) [
  | inl known ↦ renewed_lem c uuid db known
  | inr fresh ↦ added_lem c uuid db fresh
]
