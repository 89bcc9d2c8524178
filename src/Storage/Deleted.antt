-- ===== src/Storage/Deleted.antt =====
-- What deleteContact leaves (src/storage/storage.cpp).
use naleystogramm_core.Prelude.{
  ℕ, ◌≡◌, refl, sym, ap, ◌∙◌, Bool, true, false, List, [], ◌∷◌, map, take, drop, arith,
  if◌then◌else◌, Bool-cases, inl, inr, zero, suc,
}
use naleystogramm_core.Prelude.Int.{ℤ, pos, negsuc, pos_part}
use naleystogramm_core.Prelude.Text.{Text, text_eq, text_eq_iff, text_eq_refl}
use naleystogramm_core.Storage.{MessageRow, Db, Env, completes}
use naleystogramm_core.Storage.Sql.{
  where_rows, delete_rows, first_row, contains-without, order_by, page, limit_rows, is_unreferenced,
}
use naleystogramm_core.Storage.Order.{take-nil}
use naleystogramm_core.Storage.Keys.{map-delete_rows}
use naleystogramm_core.Storage.Contacts.{
  has_uuid, no_contact, get_contact, preserve_block, drop_messages, drop_contact, delete_contact,
  is_contact_blocked,
}
use naleystogramm_core.Storage.Messages.{of_peer, get_messages}

module _ {A : Type 0} where
  where_rows-delete_rows : (p : A → Bool) (xs : List A) → where_rows p (delete_rows p xs) ≡ []
  unfolding where_rows delete_rows
  where_rows-delete_rows p [] = refl
  where_rows-delete_rows p (x ∷ xs) = elim (Bool-cases (p x)) [
    | inl e ↦ rw e (where_rows-delete_rows p xs)
    | inr e ↦ rw (e, e) (where_rows-delete_rows p xs)
  ]

  -- The rows that another condition selects are left.
  where_rows-delete_rows_other :
      (p q : A → Bool) (xs : List A)
      → ((x : A) → p x ≡ true → q x ≡ false)
      → where_rows q (delete_rows p xs) ≡ where_rows q xs
  unfolding where_rows delete_rows
  where_rows-delete_rows_other p q [] apart = refl
  where_rows-delete_rows_other p q (x ∷ xs) apart = elim (Bool-cases (p x)) [
    | inl e ↦ rw (e, apart x e) (where_rows-delete_rows_other p q xs apart)
    | inr e ↦ elim (Bool-cases (q x)) [
      | inl g ↦ rw (e, g) (ap (λ r. x ∷ r) (where_rows-delete_rows_other p q xs apart))
      | inr g ↦ rw (e, g) (where_rows-delete_rows_other p q xs apart)
    ]
  ]

  drop-nil : (n : ℕ) → drop {A = A} n [] ≡ []
  drop-nil zero = refl
  drop-nil (suc n) = refl

  page-nil : (limit offset : ℤ) → page {A = A} limit offset [] ≡ []
  unfolding page limit_rows
  page-nil (pos n) offset = ap (take n) (drop-nil (pos_part offset)) ∙ take-nil n
  page-nil (negsuc n) offset = drop-nil (pos_part offset)

-- No message refers to the contact any more.
unreferenced :
    (on : Bool) (uuid : Text) (rows : List MessageRow)
    → is_unreferenced on uuid
        (map (λ r. r.peer_uuid) (delete_rows (λ (r : MessageRow). text_eq r.peer_uuid uuid) rows))
      ≡ true
unreferenced on uuid rows = rw (map-delete_rows (λ (r : MessageRow). r.peer_uuid) uuid rows) (
    ground (
      arith,
      contains-without uuid uuid (map (λ (r : MessageRow). r.peer_uuid) rows),
      text_eq_refl uuid,
    ))

-- The contacts and the messages without those of a uuid.
abbrev cleared : Text → Db → Db
cleared uuid db = record db {
  messages = delete_rows (λ r. text_eq r.peer_uuid uuid) db.messages;
  contacts = delete_rows (has_uuid uuid) db.contacts;
}

dropped :
    (uuid : Text) (db : Db)
    → drop_contact true uuid (drop_messages true uuid db).0 ≡ (cleared uuid db, true)
unfolding drop_contact drop_messages completes
dropped uuid db = rw (unreferenced db.foreign_keys uuid db.messages) refl

get_contact-cleared :
    (uuid j : Text) (db : Db)
    → get_contact j (cleared uuid db) ≡ (if text_eq uuid j then no_contact else get_contact j db)
unfolding get_contact first_row
get_contact-cleared uuid j db = elim (Bool-cases (text_eq uuid j)) [
  | inl e ↦
      let same : uuid ≡ j = (text_eq_iff uuid j).0 e in
      let gone : where_rows (has_uuid j) (delete_rows (has_uuid uuid) db.contacts) ≡ [] =
        ap (λ u. where_rows (has_uuid u) (delete_rows (has_uuid uuid) db.contacts)) (sym same)
        ∙ where_rows-delete_rows (has_uuid uuid) db.contacts in
      rw (e, gone) refl
  | inr e ↦
      rw
        (
          e,
          where_rows-delete_rows_other (has_uuid uuid) (has_uuid j) db.contacts (λ r h.
              ground (arith, text_eq_iff r.uuid uuid, text_eq_iff r.uuid j, text_eq_iff uuid j)),
        )
        refl
]

get_messages-cleared :
    (env : Env) (uuid j : Text) (limit offset : ℤ) (db : Db)
    → get_messages env j limit offset (cleared uuid db)
      ≡ (if text_eq uuid j then [] else get_messages env j limit offset db)
unfolding get_messages order_by
get_messages-cleared env uuid j limit offset db = elim (Bool-cases (text_eq uuid j)) [
  | inl e ↦
      let same : uuid ≡ j = (text_eq_iff uuid j).0 e in
      let gone : where_rows (of_peer j) (delete_rows (of_peer uuid) db.messages) ≡ [] =
        ap (λ u. where_rows (of_peer u) (delete_rows (of_peer uuid) db.messages)) (sym same)
        ∙ where_rows-delete_rows (of_peer uuid) db.messages in
      rw (e, gone, page-nil {A = MessageRow} limit offset) refl
  | inr e ↦
      rw
        (
          e,
          where_rows-delete_rows_other (of_peer uuid) (of_peer j) db.messages (λ r h.
              ground (
                arith,
                text_eq_iff r.peer_uuid uuid,
                text_eq_iff r.peer_uuid j,
                text_eq_iff uuid j,
              )),
        )
        refl
]

-- deleteContact, each of its statements being completed unless the constraints forbid it, succeeds: that
-- messages refer to the contact does not keep it. The contact is not found any more and its history is
-- empty on every page; the other contacts and their histories are what they were. So it is with foreign_keys
-- on and off, and whether the contact was blocked or not.
pub delete_contact_lem :
    (env : Env) (now : ℕ) (uuid j : Text) (limit offset : ℤ) (db : Db)
    → let r = delete_contact true true true true env now uuid db in
      (r.1 ≡ true)
      × (get_contact j r.0 ≡ (if text_eq uuid j then no_contact else get_contact j db))
      × (get_messages env j limit offset r.0
          ≡ (if text_eq uuid j then [] else get_messages env j limit offset db))
unfolding delete_contact preserve_block get_contact get_messages
delete_contact_lem env now uuid j limit offset db = elim (Bool-cases (is_contact_blocked uuid db)) [
  | inl e ↦
      let kept = preserve_block true env now uuid db in
      rw (e, dropped uuid kept)
        (refl, get_contact-cleared uuid j kept, get_messages-cleared env uuid j limit offset kept)
  | inr e ↦
      rw (e, dropped uuid db)
        (refl, get_contact-cleared uuid j db, get_messages-cleared env uuid j limit offset db)
]
