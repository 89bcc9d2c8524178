-- ===== src/Session/Load.antt =====
-- load and generateIdentityIfNeeded of src/storage/sessionmanager.cpp, and LinkedDevice::fromJson.
use naleystogramm_core.Prelude.{
  Bool, true, false, Option, none, some, List, [], ◌∷◌, if◌then◌else◌, ◌>>=◌,
}
use naleystogramm_core.Prelude.Text.{Text, codes, is_empty}
use naleystogramm_core.Prelude.Int.{pos}
use naleystogramm_core.Session.{
  LinkedDevice, Own, Net, Ui, Updates, Privacy, Settings, Session, Env, Outcome, returned, thrown,
  user,
}
use naleystogramm_core.Session.Values.{
  Json, object, Items, no_items, item, Fields, to_uint16, Reader, section, items,
}
use naleystogramm_core.Session.Save.{save}

unfoldable pub read_device : Reader → Fields → Option LinkedDevice
read_device r f = do
  uuid ← r.value_text (codes "uuid") [] f
  name ← r.value_text (codes "name") [] f
  is_primary ← r.value_flag (codes "isPrimary") false f
  linked_at ← r.value_long (codes "linkedAt") (pos 0) f
  some (record { uuid = uuid; name = name; is_primary = is_primary; linked_at = linked_at })

unfoldable pub from_json : Reader → Json → Option LinkedDevice
from_json r (object f) = read_device r f
from_json r j = none

unfoldable pub read_devices : Reader → Items → Option (List LinkedDevice)
read_devices r no_items = some []
read_devices r (item j js) = do d ← from_json r j; ds ← read_devices r js; some (d ∷ ds)

unfoldable pub read_own : Reader → Option Fields → Own → Option Own
read_own r none o = some o
read_own r (some f) o = do
  uuid ← r.value_text (codes "uuid") [] f
  display_name ← r.value_text (codes "name") user f
  bio ← r.value_text (codes "bio") [] f
  birthday ← r.value_text (codes "birthday") [] f
  avatar_path ← r.value_text (codes "avatarPath") [] f
  some (record {
    uuid = uuid;
    display_name = display_name;
    bio = bio;
    birthday = birthday;
    avatar_path = avatar_path;
  })

unfoldable pub read_net : Reader → Option Fields → Net → Option Net
read_net r none n = some n
read_net r (some f) n = do
  port ← r.value_int (codes "port") (pos 47821) f
  bind_ip ← r.value_text (codes "bindIp") [] f
  mode ← r.value_int (codes "portForwardingMode") (pos 0) f
  manual_public_ip ← r.value_text (codes "manualPublicIp") [] f
  manual_public_port ← r.value_int (codes "manualPublicPort") (pos 47821) f
  relay_server_ip ← r.value_text (codes "relayServerIp") [] f
  relay_tcp_port ← r.value_int (codes "relayTcpPort") (pos 47822) f
  relay_udp_port ← r.value_int (codes "relayUdpPort") (pos 47823) f
  some (record {
    port = to_uint16 port;
    bind_ip = bind_ip;
    port_forwarding_mode = mode;
    manual_public_ip = manual_public_ip;
    manual_public_port = to_uint16 manual_public_port;
    relay_server_ip = relay_server_ip;
    relay_tcp_port = to_uint16 relay_tcp_port;
    relay_udp_port = to_uint16 relay_udp_port;
  })

unfoldable pub read_ui : Reader → Option Fields → Ui → Option Ui
read_ui r none u = some u
read_ui r (some f) u = do
  theme ← r.value_text (codes "theme") (codes "dark") f
  language ← r.value_text (codes "language") (codes "ru") f
  demo_mode ← r.value_flag (codes "demoMode") false f
  left_panel_width ← r.value_int (codes "leftPanelWidth") (pos 320) f
  enter_sends ← r.value_flag (codes "enterSends") true f
  some (record {
    theme = theme;
    language = language;
    demo_mode = demo_mode;
    left_panel_width = left_panel_width;
    enter_sends = enter_sends;
  })

unfoldable pub read_updates : Reader → Option Fields → Updates → Option Updates
read_updates r none u = some u
read_updates r (some f) u = do
  last_update_check ← r.value_text (codes "lastChecked") [] f
  auto_check_updates ← r.value_flag (codes "autoCheck") true f
  some (record { last_update_check = last_update_check; auto_check_updates = auto_check_updates })

unfoldable pub read_security : Reader → Option Fields → Bool → Option Bool
read_security r none b = some b
read_security r (some f) b = r.value_flag (codes "remoteShell") false f

unfoldable pub read_privacy : Reader → Option Fields → Privacy → Option Privacy
read_privacy r none p = some p
read_privacy r (some f) p = do
  messages ← r.value_int (codes "messages") (pos 0) f
  files ← r.value_int (codes "files") (pos 0) f
  calls ← r.value_int (codes "calls") (pos 0) f
  voice ← r.value_int (codes "voice") (pos 0) f
  avatar ← r.value_int (codes "avatar") (pos 0) f
  shell ← r.value_int (codes "shell") (pos 1) f
  some (record {
    messages = messages;
    files = files;
    calls = calls;
    voice = voice;
    avatar = avatar;
    shell = shell;
  })

unfoldable pub read_settings : Reader → Fields → Settings → Option Settings
read_settings r f s = do
  own ← read_own r (section (codes "identity") f) s.own
  net ← read_net r (section (codes "network") f) s.net
  ui ← read_ui r (section (codes "ui") f) s.ui
  updates ← read_updates r (section (codes "updates") f) s.updates
  remote_shell ← read_security r (section (codes "security") f) s.remote_shell_enabled
  privacy ← read_privacy r (section (codes "privacy") f) s.privacy
  linked_devices ← read_devices r (items (codes "linkedDevices") f)
  some (record {
    own = own;
    net = net;
    ui = ui;
    updates = updates;
    remote_shell_enabled = remote_shell;
    privacy = privacy;
    linked_devices = linked_devices;
  })

-- generateIdentityIfNeeded, with the UUID that generateUuid gives.
unfoldable pub generate_identity : (fresh : Text) → Settings → Settings
generate_identity fresh s = record s {
  own = record s.own {
    uuid = if is_empty s.own.uuid then fresh else s.own.uuid;
    display_name = if is_empty s.own.display_name then user else s.own.display_name;
  };
}

-- Without a document that can be read.
unfoldable pub reset : Env → (fresh : Text) → Session → Outcome
unfolding save
reset env fresh s = save env (record s { settings = generate_identity fresh s.settings })

unfoldable pub take_settings : (fresh : Text) → Option Settings → Session → Outcome
take_settings fresh none s = thrown s
take_settings fresh (some t) s = returned (record s { settings = generate_identity fresh t })

unfoldable pub load_json : Env → (fresh : Text) → Option Json → Session → Outcome
load_json env fresh (some (object f)) s =
    take_settings fresh (read_settings env.reader f s.settings) s
load_json env fresh j s = reset env fresh s

unfoldable pub load_of : Env → (fresh : Text) → Option Text → Session → Outcome
load_of env fresh none s = reset env fresh s
load_of env fresh (some content) s = load_json env fresh (env.parse content) s

unfoldable pub load : Env → (fresh : Text) → Session → Outcome
load env fresh s = load_of env fresh s.file s
