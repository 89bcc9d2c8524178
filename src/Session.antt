-- ===== src/Session.antt =====
-- src/storage/sessionmanager.cpp (SessionManager): the settings, and the file session.json that load reads
-- and save writes; and the JSON of a LinkedDevice (src/identity/device_pairing.cpp).
--   The members are grouped by the file's sections. An enumeration is its integer, as static_cast from
-- int leaves any. `Env` has the reader of nlohmann::json, its parse, `none` where it throws, and dump, `none` where that
-- throws as a text is not UTF-8; whether the file can be opened to write; and the version. What load
-- has assigned before it throws is not modelled.
pub mod Values
pub mod Save
pub mod Load
pub mod Methods
pub mod RoundTrip
pub mod Devices
pub mod Failure
pub mod Uuid
mod Examples
use naleystogramm_core.Prelude.{
  ℕ, ◌%◌, ◌^◌, Bool, true, false, not, Option, none, some, List, [], ◌∷◌, ◌++◌, if◌then◌else◌,
}
use naleystogramm_core.Prelude.Text.{Text, codes, text_eq, is_empty}
use naleystogramm_core.Prelude.Int.{ℤ, pos}
use naleystogramm_core.Session.Values.{Json, Reader}

pub record LinkedDevice : Type 0 where
  pub uuid : Text
  pub name : Text
  pub is_primary : Bool
  pub linked_at : ℤ

pub record Own : Type 0 where
  pub uuid : Text
  pub display_name : Text
  pub bio : Text
  pub birthday : Text
  pub avatar_path : Text

pub record Net : Type 0 where
  pub port : ℕ
  pub bind_ip : Text
  pub port_forwarding_mode : ℤ
  pub manual_public_ip : Text
  pub manual_public_port : ℕ
  pub relay_server_ip : Text
  pub relay_tcp_port : ℕ
  pub relay_udp_port : ℕ

pub record Ui : Type 0 where
  pub theme : Text
  pub language : Text
  pub demo_mode : Bool
  pub left_panel_width : ℤ
  pub enter_sends : Bool

pub record Updates : Type 0 where
  pub last_update_check : Text
  pub auto_check_updates : Bool

pub record Privacy : Type 0 where
  pub messages : ℤ
  pub files : ℤ
  pub calls : ℤ
  pub voice : ℤ
  pub avatar : ℤ
  pub shell : ℤ

pub record Settings : Type 0 where
  pub own : Own
  pub net : Net
  pub ui : Ui
  pub updates : Updates
  pub remote_shell_enabled : Bool
  pub privacy : Privacy
  pub linked_devices : List LinkedDevice

-- The settings and the contents of session.json, if that is there.
pub record Session : Type 0 where
  pub settings : Settings
  pub file : Option Text

pub record Env : Type 0 where
  pub reader : Reader
  pub parse : Text → Option Json
  pub dump : Json → Option Text
  pub is_writable : Bool
  pub version : Text
  pub saved_at : Text

-- What a method leaves when it returns, and when an exception leaves it.
pub data Outcome : Type 0 where
  returned thrown : Session → Outcome

abbrev pub user : Text
user = codes "User"

unfoldable pub defaults : Settings
defaults = record {
  own = record { uuid = []; display_name = user; bio = []; birthday = []; avatar_path = [] };
  net = record {
    port = 47821;
    bind_ip = [];
    port_forwarding_mode = pos 0;
    manual_public_ip = [];
    manual_public_port = 47821;
    relay_server_ip = [];
    relay_tcp_port = 47822;
    relay_udp_port = 47823;
  };
  ui = record {
    theme = codes "dark";
    language = codes "ru";
    demo_mode = false;
    left_panel_width = pos 320;
    enter_sends = true;
  };
  updates = record { last_update_check = []; auto_check_updates = true };
  remote_shell_enabled = false;
  privacy = record {
    messages = pos 0;
    files = pos 0;
    calls = pos 0;
    voice = pos 0;
    avatar = pos 0;
    shell = pos 1;
  };
  linked_devices = [];
}
