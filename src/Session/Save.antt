-- ===== src/Session/Save.antt =====
-- save of src/storage/sessionmanager.cpp, and LinkedDevice::toJson.
use naleystogramm_core.Prelude.{Bool, true, false, Option, none, some, List, [], ◌∷◌}
use naleystogramm_core.Prelude.Text.{Text, codes}
use naleystogramm_core.Prelude.Int.{pos}
use naleystogramm_core.Session.{
  LinkedDevice, Own, Net, Ui, Updates, Privacy, Settings, Session, Env, Outcome, returned, thrown,
}
use naleystogramm_core.Session.Values.{
  flag, number, text, array, object, Items, no_items, item, Fields, no_fields, field,
}

unfoldable pub to_json : LinkedDevice → Fields
to_json d = field (codes "uuid") (text d.uuid) (
    field (codes "name") (text d.name) (
      field (codes "isPrimary") (flag d.is_primary)
        (field (codes "linkedAt") (number d.linked_at) no_fields)))

unfoldable pub devices_json : List LinkedDevice → Items
devices_json [] = no_items
devices_json (d ∷ ds) = item (object (to_json d)) (devices_json ds)

unfoldable pub own_json : Own → Fields
own_json o = field (codes "uuid") (text o.uuid) (
    field (codes "name") (text o.display_name) (
      field (codes "bio") (text o.bio) (
        field (codes "birthday") (text o.birthday)
          (field (codes "avatarPath") (text o.avatar_path) no_fields))))

unfoldable pub net_json : Net → Fields
net_json n = field (codes "port") (number (pos n.port)) (
    field (codes "bindIp") (text n.bind_ip) (
      field (codes "portForwardingMode") (number n.port_forwarding_mode) (
        field (codes "manualPublicIp") (text n.manual_public_ip) (
          field (codes "manualPublicPort") (number (pos n.manual_public_port)) (
            field (codes "relayServerIp") (text n.relay_server_ip) (
              field (codes "relayTcpPort") (number (pos n.relay_tcp_port))
                (field (codes "relayUdpPort") (number (pos n.relay_udp_port)) no_fields)))))))

unfoldable pub ui_json : Ui → Fields
ui_json u = field (codes "theme") (text u.theme) (
    field (codes "language") (text u.language) (
      field (codes "demoMode") (flag u.demo_mode) (
        field (codes "leftPanelWidth") (number u.left_panel_width)
          (field (codes "enterSends") (flag u.enter_sends) no_fields))))

unfoldable pub updates_json : Updates → Fields
updates_json u =
    field (codes "lastChecked") (text u.last_update_check)
      (field (codes "autoCheck") (flag u.auto_check_updates) no_fields)

unfoldable pub privacy_json : Privacy → Fields
privacy_json p = field (codes "messages") (number p.messages) (
    field (codes "files") (number p.files) (
      field (codes "calls") (number p.calls) (
        field (codes "voice") (number p.voice) (
          field (codes "avatar") (number p.avatar)
            (field (codes "shell") (number p.shell) no_fields)))))

-- The document that save writes.
unfoldable pub root : (version saved_at : Text) → Settings → Fields
root version saved_at s = field (codes "identity") (object (own_json s.own)) (
    field (codes "network") (object (net_json s.net)) (
      field (codes "ui") (object (ui_json s.ui)) (
        field (codes "updates") (object (updates_json s.updates)) (
          field (codes "security")
            (object (field (codes "remoteShell") (flag s.remote_shell_enabled) no_fields))
            (field (codes "privacy") (object (privacy_json s.privacy)) (
              field (codes "meta")
                (object (
                  field (codes "version") (text version)
                    (field (codes "savedAt") (text saved_at) no_fields)))
                (field (codes "linkedDevices") (array (devices_json s.linked_devices))
                  no_fields)))))))

-- The file is opened, and so emptied, before the document is printed.
unfoldable pub save_of : Bool → Option Text → Session → Outcome
save_of false doc s = returned s
save_of true none s = thrown (record s { file = some [] })
save_of true (some t) s = returned (record s { file = some t })

unfoldable pub save : Env → Session → Outcome
unfolding save_of
save env s =
    save_of env.is_writable (env.dump (object (root env.version env.saved_at s.settings))) s
