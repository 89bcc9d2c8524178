-- ===== src/Storage/Sealed.antt =====
-- The secrets of a group in the database: saveGroup, updateGroupKey and getGroup of
-- src/storage/storage.cpp.
use mathlib.Core.Bool.{false≢true}
use naleystogramm_core.Prelude.{
  ℕ, zero, suc, ◌*◌, ◌/◌, ◌<◌, ltb, ◌≡◌, ◌≢◌, refl, ap, ◌∙◌, Bool, true, false, not, none, some,
  List, [], ◌∷◌, ◌++◌, map, arith, if◌then◌else◌, Bool-cases, inl, inr,
}
use naleystogramm_core.Prelude.Int.{pos, pos_part}
use naleystogramm_core.Prelude.Text.{Text, codes, text_eq, text_eq_refl, is_empty, not_empty}
use naleystogramm_core.Groups.{Group}
use naleystogramm_core.Storage.{
  GroupRow, Db, Env, iso_to_epoch_ms, epoch_ms_to_iso, c_string, col_blob, bind_blob, completes,
}
use naleystogramm_core.Storage.Sql.{where_rows, delete_rows, update_rows, first_row, contains}
use naleystogramm_core.Storage.Order.{where_rows-append}
use naleystogramm_core.Storage.Secrets.{
  has_id, seal, unseal, row_to_group, group_row, save_group, update_group_key, no_group, get_group,
}

-- A secret that was sealed is read back, the empty one too.
unseal-seal :
    (env : Env) (s : Text)
    → env.is_ready ≡ true
    → env.decrypt (env.encrypt s) ≡ s
    → env.encrypt s ≢ []
    → unseal env (bind_blob (seal env s)) ≡ s
unfolding seal unseal bind_blob col_blob
unseal-seal env [] ready opens full = rw ready refl
unseal-seal env (c ∷ s) ready opens full = rw ready (read (env.encrypt (c ∷ s)) opens full)
  where
    read :
        (e : Text)
        → env.decrypt e ≡ c ∷ s
        → e ≢ []
        → (let blob = col_blob (if is_empty e then none else some e) in
            if not (is_empty blob) then env.decrypt blob else [])
          ≡ c ∷ s
    read [] opens full = absurd (full refl)
    read (d ∷ e) opens full = opens

bind_blob_read : (b : Text) → col_blob (bind_blob b) ≡ b
unfolding bind_blob col_blob
bind_blob_read [] = refl
bind_blob_read (c ∷ b) = refl

none_left :
    (id : Text) (rows : List GroupRow) → where_rows (has_id id) (delete_rows (has_id id) rows) ≡ []
unfolding where_rows delete_rows
none_left id [] = refl
none_left id (r ∷ rows) = elim (Bool-cases (has_id id r)) [
  | inl e ↦ rw e (none_left id rows)
  | inr e ↦ rw (e, e) (none_left id rows)
]

kind_read :
    (b : Bool)
    → text_eq (c_string (if b then codes "channel" else codes "group")) (codes "channel") ≡ b
unfolding c_string text_eq
kind_read true = refl
kind_read false = refl

-- The seconds of a time are read back.
time_read :
    (env : Env) (now t : ℕ)
    → 0 < t
    → c_string (env.print_local (t / 1000)) ≡ env.print_local (t / 1000)
    → env.print_local (t / 1000) ≢ []
    → env.read_local (env.print_local (t / 1000)) ≡ some (pos (t / 1000))
    → pos_part (
        iso_to_epoch_ms env (c_string (epoch_ms_to_iso env now (pos (if ltb 0 t then t else now)))))
      ≡ t / 1000 * 1000
unfolding iso_to_epoch_ms epoch_ms_to_iso
time_read env now zero h plain full back = elim h [ ]
time_read env now (suc t) h plain full back =
    let printed : epoch_ms_to_iso env now (pos (if ltb 0 (suc t) then suc t else now))
        ≡ env.print_local (suc t / 1000) =
      ground arith in
    ap (λ u. pos_part (iso_to_epoch_ms env u)) (ap c_string printed ∙ plain)
    ∙ rw (iso_to_epoch_ms, not_empty (env.print_local (suc t / 1000)) full, back) (ground arith)

-- The row of a saved group is the only one with its id.
saved_row :
    (id : Text) (rows : List GroupRow) (row : GroupRow)
    → row.id ≡ id
    → where_rows (has_id id) (delete_rows (has_id id) rows ++ row ∷ []) ≡ row ∷ []
unfolding where_rows
saved_row id rows row e =
    let own : has_id id row ≡ true = ap (λ u. text_eq u id) e ∙ text_eq_refl id in
    where_rows-append (has_id id) (delete_rows (has_id id) rows) (row ∷ [])
    ∙ rw (none_left id rows, own) refl

-- KeyProtector is ready, decrypts what it encrypted and never gives the empty text; the id, name, server and
-- user name of a group have no NUL byte, the time of its joining is not 0, and the C library reads the
-- seconds of that time back from their text. Then a group that was saved, the statement being completed, is
-- read back with its secrets, whichever of them are empty, and whatever stood there before; only
-- the milliseconds of the time are cut off.
pub get_group-save_group :
    (env : Env) (now : ℕ) (g : Group) (db : Db)
    → env.is_ready ≡ true
    → ((s : Text) → env.decrypt (env.encrypt s) ≡ s)
    → ((s : Text) → env.encrypt s ≢ [])
    → c_string g.id ≡ g.id
    → c_string g.name ≡ g.name
    → c_string g.server_url ≡ g.server_url
    → c_string g.username ≡ g.username
    → 0 < g.joined_at
    → c_string (env.print_local (g.joined_at / 1000)) ≡ env.print_local (g.joined_at / 1000)
    → env.print_local (g.joined_at / 1000) ≢ []
    → env.read_local (env.print_local (g.joined_at / 1000)) ≡ some (pos (g.joined_at / 1000))
    → get_group env g.id (save_group true env now g db).0
      ≡ record g { joined_at = g.joined_at / 1000 * 1000 }
unfolding get_group save_group completes first_row
get_group-save_group env now g db ready opens full i n s u later plain printed back =
    rw
      (
        saved_row g.id db.groups (group_row env now g) refl,
        i,
        n,
        s,
        u,
        kind_read g.is_channel,
        unseal-seal env g.token ready (opens g.token) (full g.token),
        unseal-seal env g.group_key ready (opens g.group_key) (full g.group_key),
        unseal-seal env g.local_priv_key ready (opens g.local_priv_key) (full g.local_priv_key),
        bind_blob_read g.local_pub_key,
        time_read env now g.joined_at later plain printed back,
      )
      refl

-- What every row with an id has after an UPDATE, its first row has.
updated_first :
    {B : Type 0} (d v : B) (h : GroupRow → B) (f : GroupRow → GroupRow) (id : Text)
    (rows : List GroupRow)
    → ((r : GroupRow) → (f r).id ≡ r.id)
    → ((r : GroupRow) → h (f r) ≡ v)
    → contains id (map (λ r. r.id) rows) ≡ true
    → first_row d h (where_rows (has_id id) (update_rows (has_id id) f rows)) ≡ v
unfolding first_row where_rows update_rows contains
updated_first d v h f id [] keeps gives known = absurd (false≢true known)
updated_first d v h f id (r ∷ rows) keeps gives known = elim (Bool-cases (has_id id r)) [
  | inl e ↦
      let own : has_id id (f r) ≡ true = ap (λ u. text_eq u id) (keeps r) ∙ e in
      rw (e, own) (gives r)
  | inr e ↦ rw (e, e) (updated_first d v h f id rows keeps gives (ground arith))
]

group_key-first_row :
    (env : Env) (rows : List GroupRow)
    → (first_row no_group (row_to_group env) rows).group_key
      ≡ first_row [] (λ r. unseal env r.group_key_enc) rows
unfolding first_row row_to_group
group_key-first_row env [] = refl
group_key-first_row env (r ∷ rows) = refl

-- While KeyProtector is not ready, updateGroupKey stores the key of a group that is there, if it is not
-- empty, as it is. Once KeyProtector is ready, what is read is that key decrypted, as if it had been
-- encrypted.
pub key_in_clear :
    (env env' : Env) (id : Text) (b : ℕ) (key : Text) (db : Db)
    → env.is_ready ≡ false
    → env'.is_ready ≡ true
    → contains id (map (λ r. r.id) db.groups) ≡ true
    → (first_row none
          (λ r. r.group_key_enc)
          (where_rows (has_id id) (update_group_key true env id (b ∷ key) db).0.groups)
        ≡ some (b ∷ key))
      × ((get_group env' id (update_group_key true env id (b ∷ key) db).0).group_key
          ≡ env'.decrypt (b ∷ key))
unfolding update_group_key get_group completes unseal col_blob bind_blob
key_in_clear env env' id b key db shut ready known =
    let f = λ (r : GroupRow). record r {
      group_key_enc = bind_blob (if env.is_ready then env.encrypt (b ∷ key) else b ∷ key);
    } in
    (
      updated_first none (some (b ∷ key)) (λ r. r.group_key_enc) f id db.groups (λ r. refl)
          (λ r. rw shut refl) known,
      group_key-first_row env' (where_rows (has_id id) (update_rows (has_id id) f db.groups))
          ∙ updated_first [] (env'.decrypt (b ∷ key)) (λ r. unseal env' r.group_key_enc) f id
              db.groups (λ r. refl) (λ r. rw (shut, ready) refl) known,
    )
