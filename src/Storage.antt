-- ===== src/Storage.antt =====
-- src/storage/storage.cpp (StorageManager): the database of contacts, messages, groups and the account at
-- a discovery server.
--   A table is the list of its rows, in the order of their insertion, and a statement of SQL is the
-- function that Storage.Sql writes for it, PRIMARY KEY, FOREIGN KEY and AUTOINCREMENT included. SQLite
-- itself may fail at any statement: an argument says whether it is completed, and one that is not changes
-- nothing. `Env` has what stands outside: the clock and time zone of the C library, and KeyProtector.
-- The time of the call, in milliseconds, is `now`. Messages to stderr are left out.
pub mod Sql
pub mod Order
pub mod Contacts
pub mod Messages
pub mod Secrets
pub mod Schema
pub mod Added
pub mod Pages
pub mod Runs
pub mod Keys
pub mod Deleted
pub mod Blocking
pub mod Sealed
pub mod Upgrade
pub mod Stages
pub mod Migrated
mod Examples
use naleystogramm_core.Prelude.{
  ℕ, zero, suc, ◌+◌, ◌*◌, ◌/◌, ◌%◌, ◌==◌, Bool, true, false, Option, none, some, List, [], ◌∷◌,
  if◌then◌else◌,
}
use naleystogramm_core.Prelude.Int.{ℤ, pos, negsuc, pos_part, leb_ℤ}
use naleystogramm_core.Prelude.Text.{Text, codes, is_empty}

abbrev pub storage_app_version : Text
storage_app_version = codes "0.8.0"

pub record Contact : Type 0 where
  pub uuid : Text
  pub name : Text
  pub ip : Text
  pub port : ℕ
  pub identity_key : Text
  pub avatar_hash : Text
  pub avatar_path : Text
  pub is_blocked : Bool
  pub is_muted : Bool
  pub last_seen : ℤ
  pub system_info_json : Text
  pub birthday : Text
  pub version_created : Text

pub record Message : Type 0 where
  pub id : ℕ
  pub peer_uuid : Text
  pub outgoing : Bool
  pub text : Text
  pub file_name : Text
  pub file_size : ℤ
  pub ciphertext : Text
  pub timestamp : ℤ
  pub delivered : Bool
  pub is_voice : Bool
  pub voice_duration_ms : ℤ
  pub version_created : Text

pub record DiscoveryAccount : Type 0 where
  pub host : Text
  pub port : ℕ
  pub username : Text
  pub token : Text
  pub registered_at : ℤ

-- The rows of the tables. A column that may be NULL is an `Option`; last_seen is in seconds.
pub record ContactRow : Type 0 where
  pub uuid : Text
  pub name : Text
  pub ip : Text
  pub port : ℕ
  pub identity_key : Option Text
  pub avatar_hash : Text
  pub avatar_path : Text
  pub is_blocked : Bool
  pub is_muted : Bool
  pub last_seen : ℤ
  pub systeminfo_json : Text
  pub birthday : Text
  pub version_created : Text

pub record MessageRow : Type 0 where
  pub id : ℕ
  pub peer_uuid : Text
  pub outgoing : Bool
  pub text : Text
  pub file_name : Option Text
  pub file_size : ℤ
  pub ciphertext : Option Text
  pub timestamp : Text
  pub delivered : Bool
  pub is_voice : Bool
  pub voice_duration_ms : ℤ
  pub version_created : Text

pub record GroupRow : Type 0 where
  pub id : Text
  pub name : Text
  pub kind : Text
  pub server_url : Text
  pub username : Text
  pub token_enc : Option Text
  pub group_key_enc : Option Text
  pub local_priv_key_enc : Option Text
  pub local_pub_key : Option Text
  pub is_admin : Bool
  pub joined_at : Text

pub record GroupMessageRow : Type 0 where
  pub id : ℕ
  pub group_id : Text
  pub sender : Text
  pub text : Text
  pub ts : ℕ
  pub outgoing : Bool

pub record AccountRow : Type 0 where
  pub host : Text
  pub port : ℕ
  pub username : Text
  pub token_enc : Option Text
  pub registered_at : Text

pub record BlockedRow : Type 0 where
  pub uuid : Text
  pub blocked_at : Text

-- The tables, and what AUTOINCREMENT gives next.
-- `foreign_keys` is whether the PRAGMA of that name, which migrate sets ON, was taken.
pub record Db : Type 0 where
  pub foreign_keys : Bool
  pub contacts : List ContactRow
  pub blocked_list : List BlockedRow
  pub messages : List MessageRow
  pub next_message : ℕ
  pub groups : List GroupRow
  pub group_messages : List GroupMessageRow
  pub next_group_message : ℕ
  pub discovery_account : Option AccountRow

pub record Env : Type 0 where
  pub print_local : (secs : ℕ) → Text
  pub read_local : Text → Option ℤ
  pub is_ready : Bool
  pub encrypt : Text → Text
  pub decrypt : Text → Text

epoch_of : Option ℤ → ℤ
epoch_of none = pos 0
epoch_of (some epoch) = if leb_ℤ (pos 0) epoch then pos (pos_part epoch * 1000) else pos 0

unfoldable pub iso_to_epoch_ms : Env → Text → ℤ
unfolding epoch_of
iso_to_epoch_ms env iso = if is_empty iso then pos 0 else epoch_of (env.read_local iso)

unfoldable pub epoch_ms_to_iso : Env → (now : ℕ) → ℤ → Text
epoch_ms_to_iso env now ms =
    let t = if leb_ℤ ms (pos 0) then now else pos_part ms in env.print_local (t / 1000)

-- A text of the database as a C string: it ends at its first NUL. NULL is the empty text.
unfoldable pub c_string : Text → Text
c_string [] = []
c_string (c ∷ s) = let rest = c_string s in if c == 0 then [] else c ∷ rest

unfoldable pub col_text : Option Text → Text
unfolding c_string
col_text none = []
col_text (some t) = c_string t

unfoldable pub col_blob : Option Text → Text
col_blob none = []
col_blob (some b) = b

unfoldable pub bind_blob : Text → Option Text
bind_blob v = if is_empty v then none else some v

-- What a statement that changes the database leaves and returns.
unfoldable pub completes : (ok : Bool) → Db → (old : Db) → Db × Bool
completes ok db old = if ok then (db, true) else (old, false)
