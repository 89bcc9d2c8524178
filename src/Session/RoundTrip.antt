-- ===== src/Session/RoundTrip.antt =====
-- What save writes, load reads back (src/storage/sessionmanager.cpp).
use naleystogramm_core.Prelude.{ℕ, ◌^◌, ◌<◌, ◌≡◌, refl, true, false, some, List, [], ◌∷◌, arith}
use naleystogramm_core.Prelude.Text.{Text, codes, text_eq, is_empty}
use naleystogramm_core.Prelude.Int.{pos}
use naleystogramm_core.Session.{
  user, LinkedDevice, Own, Net, Ui, Updates, Privacy, Settings, Session, Env, returned,
}
use naleystogramm_core.Session.Values.{
  object, find_field, IsInt, to_uint16, Reader, IsReader, flag, field, no_fields, section, items,
}
use naleystogramm_core.Session.Save.{
  to_json, devices_json, own_json, net_json, ui_json, updates_json, privacy_json, root, save_of,
  save,
}
use naleystogramm_core.Session.Load.{
  read_device, from_json, read_devices, read_own, read_net, read_ui, read_updates, read_security,
  read_privacy, read_settings, generate_identity, take_settings, load_json, load_of, load,
}

to_uint16_id : (n : ℕ) → n < 2 ^ 16 → to_uint16 (pos n) ≡ n
unfolding to_uint16
to_uint16_id n h = ground arith

port-IsInt : (n : ℕ) → n < 2 ^ 16 → IsInt (pos n)
port-IsInt n h = omega arith

-- The members have the ranges of their types, and there are a UUID and a name.
pub record IsTyped (s : Settings) : Type 0 where
  pub ports :
      (s.net.port < 2 ^ 16)
      × (s.net.manual_public_port < 2 ^ 16)
      × (s.net.relay_tcp_port < 2 ^ 16)
      × (s.net.relay_udp_port < 2 ^ 16)
  pub mode : IsInt s.net.port_forwarding_mode
  pub width : IsInt s.ui.left_panel_width
  pub levels :
      IsInt s.privacy.messages
      × IsInt s.privacy.files
      × IsInt s.privacy.calls
      × IsInt s.privacy.voice
      × IsInt s.privacy.avatar
      × IsInt s.privacy.shell
  pub named : (is_empty s.own.uuid ≡ false) × (is_empty s.own.display_name ≡ false)

-- Section by section, with a reader.
module _ (r : Reader) (l : IsReader r) where
  read_own-own_json : (o o' : Own) → read_own r (some (own_json o)) o' ≡ some o
  unfolding read_own own_json find_field text_eq
  read_own-own_json o o' =
      rw
        (
          l.of_text (codes "uuid") [] (o.uuid) (own_json o) refl,
          l.of_text (codes "name") user (o.display_name) (own_json o) refl,
          l.of_text (codes "bio") [] (o.bio) (own_json o) refl,
          l.of_text (codes "birthday") [] (o.birthday) (own_json o) refl,
          l.of_text (codes "avatarPath") [] (o.avatar_path) (own_json o) refl,
        )
        refl

  read_net-net_json :
      (s : Settings) (n' : Net) → IsTyped s → read_net r (some (net_json s.net)) n' ≡ some s.net
  unfolding read_net net_json find_field text_eq
  read_net-net_json s n' t =
      let (a, b, c, d) = t.ports in
      rw
        (
          l.of_int (codes "port") (pos 47821) (pos s.net.port) (net_json s.net)
              (port-IsInt s.net.port a) refl,
          l.of_text (codes "bindIp") [] (s.net.bind_ip) (net_json s.net) refl,
          l.of_int (codes "portForwardingMode") (pos 0) (s.net.port_forwarding_mode)
              (net_json s.net) t.mode refl,
          l.of_text (codes "manualPublicIp") [] (s.net.manual_public_ip) (net_json s.net) refl,
          l.of_int (codes "manualPublicPort") (pos 47821) (pos s.net.manual_public_port)
              (net_json s.net) (port-IsInt s.net.manual_public_port b) refl,
          l.of_text (codes "relayServerIp") [] (s.net.relay_server_ip) (net_json s.net) refl,
          l.of_int (codes "relayTcpPort") (pos 47822) (pos s.net.relay_tcp_port) (net_json s.net)
              (port-IsInt s.net.relay_tcp_port c) refl,
          l.of_int (codes "relayUdpPort") (pos 47823) (pos s.net.relay_udp_port) (net_json s.net)
              (port-IsInt s.net.relay_udp_port d) refl,
          to_uint16_id s.net.port a,
          to_uint16_id s.net.manual_public_port b,
          to_uint16_id s.net.relay_tcp_port c,
          to_uint16_id s.net.relay_udp_port d,
        )
        refl

  read_ui-ui_json :
      (s : Settings) (u' : Ui) → IsTyped s → read_ui r (some (ui_json s.ui)) u' ≡ some s.ui
  unfolding read_ui ui_json find_field text_eq
  read_ui-ui_json s u' t =
      rw
        (
          l.of_text (codes "theme") (codes "dark") (s.ui.theme) (ui_json s.ui) refl,
          l.of_text (codes "language") (codes "ru") (s.ui.language) (ui_json s.ui) refl,
          l.of_flag (codes "demoMode") false (s.ui.demo_mode) (ui_json s.ui) refl,
          l.of_int (codes "leftPanelWidth") (pos 320) (s.ui.left_panel_width) (ui_json s.ui) t.width
              refl,
          l.of_flag (codes "enterSends") true (s.ui.enter_sends) (ui_json s.ui) refl,
        )
        refl

  read_updates-updates_json : (u u' : Updates) → read_updates r (some (updates_json u)) u' ≡ some u
  unfolding read_updates updates_json find_field text_eq
  read_updates-updates_json u u' =
      rw
        (
          l.of_text (codes "lastChecked") [] (u.last_update_check) (updates_json u) refl,
          l.of_flag (codes "autoCheck") true (u.auto_check_updates) (updates_json u) refl,
        )
        refl

  read_privacy-privacy_json :
      (s : Settings) (p' : Privacy)
      → IsTyped s
      → read_privacy r (some (privacy_json s.privacy)) p' ≡ some s.privacy
  unfolding read_privacy privacy_json find_field text_eq
  read_privacy-privacy_json s p' t =
      let (a, b, c, d, e, f) = t.levels in
      rw
        (
          l.of_int (codes "messages") (pos 0) (s.privacy.messages) (privacy_json s.privacy) a refl,
          l.of_int (codes "files") (pos 0) (s.privacy.files) (privacy_json s.privacy) b refl,
          l.of_int (codes "calls") (pos 0) (s.privacy.calls) (privacy_json s.privacy) c refl,
          l.of_int (codes "voice") (pos 0) (s.privacy.voice) (privacy_json s.privacy) d refl,
          l.of_int (codes "avatar") (pos 0) (s.privacy.avatar) (privacy_json s.privacy) e refl,
          l.of_int (codes "shell") (pos 1) (s.privacy.shell) (privacy_json s.privacy) f refl,
        )
        refl

  from_json-to_json : (d : LinkedDevice) → from_json r (object (to_json d)) ≡ some d
  unfolding from_json read_device to_json find_field text_eq
  from_json-to_json d =
      rw
        (
          l.of_text (codes "uuid") [] (d.uuid) (to_json d) refl,
          l.of_text (codes "name") [] (d.name) (to_json d) refl,
          l.of_flag (codes "isPrimary") false (d.is_primary) (to_json d) refl,
          l.of_long (codes "linkedAt") (pos 0) (d.linked_at) (to_json d) refl,
        )
        refl

  read_devices-devices_json : (ds : List LinkedDevice) → read_devices r (devices_json ds) ≡ some ds
  unfolding read_devices devices_json
  read_devices-devices_json [] = refl
  read_devices-devices_json (d ∷ ds) = rw (from_json-to_json d, read_devices-devices_json ds) refl

  read_settings-root :
      (version saved_at : Text) (s s' : Settings)
      → IsTyped s
      → read_settings r (root version saved_at s) s' ≡ some s
  unfolding read_settings root section items read_security find_field text_eq
  read_settings-root version saved_at s s' t =
      let security = field (codes "remoteShell") (flag s.remote_shell_enabled) no_fields in
      rw
        (
          read_own-own_json s.own s'.own,
          read_net-net_json s s'.net t,
          read_ui-ui_json s s'.ui t,
          read_updates-updates_json s.updates s'.updates,
          l.of_flag (codes "remoteShell") false s.remote_shell_enabled security refl,
          read_privacy-privacy_json s s'.privacy t,
          read_devices-devices_json s.linked_devices,
        )
        refl

generate_identity_id : (fresh : Text) (s : Settings) → IsTyped s → generate_identity fresh s ≡ s
unfolding generate_identity
generate_identity_id fresh s t = rw (t.named.0, t.named.1) refl

-- Settings in the ranges of their types, with a UUID and a name, are saved to a file that can be
-- written, with texts that dump prints and parse reads back, and a reader as it is documented. Then save returns, and load, in any later
-- session that finds this file, gives every setting back, linked devices included, and saves nothing.
pub load-save :
    (env env' : Env) (fresh content : Text) (s s' : Session)
    → IsReader env'.reader
    → IsTyped s.settings
    → env.is_writable ≡ true
    → env.dump (object (root env.version env.saved_at s.settings)) ≡ some content
    → env'.parse content ≡ some (object (root env.version env.saved_at s.settings))
    → s'.file ≡ some content
    → (save env s ≡ returned (record s { file = some content }))
      × (load env' fresh s' ≡ returned (record s' { settings = s.settings }))
unfolding save save_of load load_of load_json take_settings
load-save env env' fresh content s s' l typed writable dumped parsed found = (
  rw (writable, dumped) refl,
  rw
      (
        found,
        parsed,
        read_settings-root env'.reader l env.version env.saved_at s.settings s'.settings typed,
        generate_identity_id fresh s.settings typed,
      )
      refl,
)
