-- ===== src/Storage/Pages.antt =====
-- The history of a peer in pages: getMessages of src/storage/storage.cpp.
use naleystogramm_core.Prelude.{
  ℕ, ◌+◌, ◌≡◌, ap, sym, ◌∙◌, false, some, ◌*◌, ◌/◌, List, ◌++◌, map, map-append, take, drop,
}
use naleystogramm_core.Prelude.Int.{pos, pos_part}
use naleystogramm_core.Prelude.Text.{Text, is_empty}
use naleystogramm_core.Storage.{Message, MessageRow, Db, Env, storage_app_version, c_string}
use naleystogramm_core.Storage.Sql.{where_rows, order_by, page, reversed}
use naleystogramm_core.Storage.Order.{
  Ordered, order_by-eq-reversed, reversed-Ordered, take-Ordered, drop-Ordered, where_rows-Ordered,
  reversed-append, take-add,
}
use naleystogramm_core.Storage.Messages.{row_to_message, by_id, by_id_desc, of_peer, get_messages}

-- The messages of a peer, newest first.
abbrev newest_first : Text → Db → List MessageRow
newest_first uuid db = reversed (where_rows (of_peer uuid) db.messages)

-- Both queries only turn the rows round.
get_messages_lem :
    (env : Env) (uuid : Text) (limit offset : ℕ) (db : Db)
    → Ordered by_id db.messages
    → get_messages env uuid (pos limit) (pos offset) db
      ≡ map (row_to_message env) (reversed (take limit (drop offset (newest_first uuid db))))
unfolding get_messages page
get_messages_lem env uuid limit offset db h =
    let rows = where_rows (of_peer uuid) db.messages in
    let rise : Ordered by_id rows = where_rows-Ordered by_id (of_peer uuid) db.messages h in
    let fall : Ordered by_id_desc (reversed rows) = reversed-Ordered by_id rows rise in
    let inner : order_by by_id_desc rows ≡ reversed rows =
      order_by-eq-reversed by_id_desc rows rise in
    let outer : order_by by_id (take limit (drop offset (reversed rows)))
        ≡ reversed (take limit (drop offset (reversed rows))) =
      order_by-eq-reversed by_id (take limit (drop offset (reversed rows))) (
        take-Ordered by_id_desc limit (drop offset (reversed rows))
          (drop-Ordered by_id_desc offset (reversed rows) fall)) in
    ap (λ r. map (row_to_message env) (order_by by_id (take limit (drop offset r)))) inner
    ∙ ap (map (row_to_message env)) outer

-- Where the ids of the messages rise, the page of a messages that are the newest, put after the page
-- of the b messages before them, is the page of the a + b newest: paging back through a history
-- loses no message and shows none twice, in order.
pub pages_join :
    (env : Env) (uuid : Text) (a b : ℕ) (db : Db)
    → Ordered by_id db.messages
    → get_messages env uuid (pos b) (pos a) db ++ get_messages env uuid (pos a) (pos 0) db
      ≡ get_messages env uuid (pos (a + b)) (pos 0) db
pages_join env uuid a b db h =
    let rows = newest_first uuid db in
    let f = row_to_message env in
    rw
      (
        get_messages_lem env uuid b a db h,
        get_messages_lem env uuid a 0 db h,
        get_messages_lem env uuid (a + b) 0 db h,
      )
      (sym (map-append f (reversed (take b (drop a rows))) (reversed (take a rows)))
        ∙ ap (map f) (
            sym (reversed-append (take a rows) (take b (drop a rows)))
            ∙ ap reversed (sym (take-add a b rows))))

-- What is read of a saved message: it, with its id, its texts up to their first NUL, its time to the
-- second, and the version of the program.
abbrev pub as_read : (id : ℕ) → Message → Message
as_read id m = record m {
  id = id;
  peer_uuid = c_string m.peer_uuid;
  text = c_string m.text;
  file_name = c_string m.file_name;
  timestamp = pos (pos_part m.timestamp / 1000 * 1000);
  version_created = storage_app_version;
}

-- The C library reads the seconds of the time back from their text.
abbrev pub IsReadable : Env → (secs : ℕ) → Type 0
IsReadable env secs =
    (c_string (env.print_local secs) ≡ env.print_local secs)
    × (is_empty (env.print_local secs) ≡ false)
    × (env.read_local (env.print_local secs) ≡ some (pos secs))
