-- ===== src/Session/Methods.antt =====
-- The setters of src/storage/sessionmanager.cpp, which save at once, the linked devices, and
-- generateUuid, whose 16 random bytes are its argument.
use naleystogramm_core.Prelude.{
  ℕ, ◌+◌, ◌%◌, ◌/◌, ◌^◌, Bool, Option, none, some, List, [], ◌∷◌, ◌++◌, ltb, length, ◌==◌,
  if◌then◌else◌,
}
use naleystogramm_core.Prelude.Text.{Text, text_eq}
use naleystogramm_core.Prelude.Int.{ℤ}
use naleystogramm_core.Prelude.Map.{is_some}
use naleystogramm_core.Session.{LinkedDevice, Settings, Session, Env, Outcome, returned}
use naleystogramm_core.Session.Save.{save}

-- A call of a setter, with what it is given.
pub data Setting : Type 0 where
  set_uuid set_display_name set_bio set_birthday set_bind_ip set_theme set_language
        set_last_update_check set_manual_public_ip :
      Text → Setting
  set_relay_server_ip set_avatar_path : Text → Setting
  set_port set_manual_public_port set_relay_tcp_port set_relay_udp_port : ℕ → Setting
  set_demo_mode set_enter_sends set_auto_check_updates set_remote_shell_enabled : Bool → Setting
  set_left_panel_width set_port_forwarding_mode : ℤ → Setting
  set_privacy_messages set_privacy_files set_privacy_calls set_privacy_voice set_privacy_avatar
        set_privacy_shell :
      ℤ → Setting

-- A uint16_t, and an int.
abbrev port_number : ℕ → ℕ
port_number n = n % 2 ^ 16

unfoldable pub assign : Setting → Settings → Settings
assign (set_uuid t) s = record s { own = record s.own { uuid = t } }
assign (set_display_name t) s = record s { own = record s.own { display_name = t } }
assign (set_bio t) s = record s { own = record s.own { bio = t } }
assign (set_birthday t) s = record s { own = record s.own { birthday = t } }
assign (set_avatar_path t) s = record s { own = record s.own { avatar_path = t } }
assign (set_bind_ip t) s = record s { net = record s.net { bind_ip = t } }
assign (set_manual_public_ip t) s = record s { net = record s.net { manual_public_ip = t } }
assign (set_relay_server_ip t) s = record s { net = record s.net { relay_server_ip = t } }
assign (set_port n) s = record s { net = record s.net { port = port_number n } }
assign (set_manual_public_port n) s = record s {
  net = record s.net { manual_public_port = port_number n };
}
assign (set_relay_tcp_port n) s = record s { net = record s.net { relay_tcp_port = port_number n } }
assign (set_relay_udp_port n) s = record s { net = record s.net { relay_udp_port = port_number n } }
assign (set_port_forwarding_mode z) s = record s { net = record s.net { port_forwarding_mode = z } }
assign (set_theme t) s = record s { ui = record s.ui { theme = t } }
assign (set_language t) s = record s { ui = record s.ui { language = t } }
assign (set_demo_mode b) s = record s { ui = record s.ui { demo_mode = b } }
assign (set_enter_sends b) s = record s { ui = record s.ui { enter_sends = b } }
assign (set_left_panel_width z) s = record s { ui = record s.ui { left_panel_width = z } }
assign (set_last_update_check t) s = record s {
  updates = record s.updates { last_update_check = t };
}
assign (set_auto_check_updates b) s = record s {
  updates = record s.updates { auto_check_updates = b };
}
assign (set_remote_shell_enabled b) s = record s { remote_shell_enabled = b }
assign (set_privacy_messages z) s = record s { privacy = record s.privacy { messages = z } }
assign (set_privacy_files z) s = record s { privacy = record s.privacy { files = z } }
assign (set_privacy_calls z) s = record s { privacy = record s.privacy { calls = z } }
assign (set_privacy_voice z) s = record s { privacy = record s.privacy { voice = z } }
assign (set_privacy_avatar z) s = record s { privacy = record s.privacy { avatar = z } }
assign (set_privacy_shell z) s = record s { privacy = record s.privacy { shell = z } }

unfoldable pub set : Env → Setting → Session → Outcome
set env c s = save env (record s { settings = assign c s.settings })

-- The first device of the UUID is replaced; where there is none, the device comes last.
unfoldable pub put_device : LinkedDevice → List LinkedDevice → List LinkedDevice
put_device dev [] = dev ∷ []
put_device dev (d ∷ ds) =
    let rest = put_device dev ds in if text_eq d.uuid dev.uuid then dev ∷ ds else d ∷ rest

unfoldable pub drop_device : (uuid : Text) → List LinkedDevice → List LinkedDevice
drop_device uuid [] = []
drop_device uuid (d ∷ ds) =
    let rest = drop_device uuid ds in if text_eq d.uuid uuid then rest else d ∷ rest

unfoldable pub find_device : (uuid : Text) → List LinkedDevice → Option LinkedDevice
find_device uuid [] = none
find_device uuid (d ∷ ds) =
    let rest = find_device uuid ds in if text_eq d.uuid uuid then some d else rest

abbrev pub with_devices : List LinkedDevice → Session → Session
with_devices ds s = record s { settings = record s.settings { linked_devices = ds } }

unfoldable pub add_linked_device : Env → LinkedDevice → Session → Outcome
add_linked_device env dev s = save env (with_devices (put_device dev s.settings.linked_devices) s)

unfoldable pub remove_linked_device : Env → (uuid : Text) → Session → Outcome
remove_linked_device env uuid s =
    let ds = drop_device uuid s.settings.linked_devices in
    let s' = with_devices ds s in
    if length ds == length s.settings.linked_devices then returned s' else save env s'

unfoldable pub linked_device : (uuid : Text) → Session → Option LinkedDevice
linked_device uuid s = find_device uuid s.settings.linked_devices

unfoldable pub is_linked_device : (uuid : Text) → Session → Bool
is_linked_device uuid s = is_some (find_device uuid s.settings.linked_devices)

-- %02x of a byte
abbrev pub hex_digit : ℕ → ℕ
hex_digit n = if ltb n 10 then b'0' + n else 87 + n

unfoldable pub hex : ℕ → Text
hex b = hex_digit (b / 16 % 16) ∷ hex_digit (b % 16) ∷ []

unfoldable pub hexes : List ℕ → Text
hexes [] = []
hexes (b ∷ bs) = hex b ++ hexes bs

-- The bytes with the version and the variant.
abbrev pub versioned : ℕ → ℕ
versioned b = 64 + b % 16

abbrev pub varied : ℕ → ℕ
varied b = 128 + b % 64

unfoldable pub generate_uuid : (b : ℕ → ℕ) → Text
unfolding hexes hex
generate_uuid b =
    hexes (b 0 ∷ b 1 ∷ b 2 ∷ b 3 ∷ [])
    ++ b'-'
      ∷ (hexes (b 4 ∷ b 5 ∷ [])
          ++ b'-'
            ∷ (hexes (versioned (b 6) ∷ b 7 ∷ [])
                ++ b'-'
                  ∷ (hexes (varied (b 8) ∷ b 9 ∷ [])
                      ++ b'-' ∷ hexes (b 10 ∷ b 11 ∷ b 12 ∷ b 13 ∷ b 14 ∷ b 15 ∷ []))))
