-- ===== src/Session/Examples.antt =====
-- src/storage/sessionmanager.cpp on concrete input.
use naleystogramm_core.Prelude.{
  ◌≡◌, refl, ap, Bool, true, false, Option, none, some, [], ◌∷◌, ◌++◌, replicate, if◌then◌else◌,
  arith,
}
use naleystogramm_core.Prelude.Text.{Text, codes, text_eq}
use naleystogramm_core.Prelude.Int.{ℤ, pos}
use naleystogramm_core.Session.Values.{
  Json, Reader, IsReader, flag, number, text, object, no_fields, field, find_field, section,
}
use naleystogramm_core.Network.Wire.{sanitize_ctrl}
use naleystogramm_core.Network.Printable.{are_printable}
use naleystogramm_core.Session.{LinkedDevice, Settings, Session, Env, returned, thrown, defaults}
use naleystogramm_core.Session.Save.{root, save}
use naleystogramm_core.Session.Load.{
  generate_identity, read_own, read_settings, take_settings, load_json, load_of, load,
}
use naleystogramm_core.Session.Methods.{add_linked_device, remove_linked_device, linked_device}
use naleystogramm_core.Session.RoundTrip.{load-save}
use naleystogramm_core.Session.Devices.{AreDistinct, session_of, linked_devices_lem}

abbrev bob : Text
bob = codes "fedcba98-7654-4321-8fed-cba987654321"

abbrev started : Settings
started = generate_identity bob defaults

abbrev phone : LinkedDevice
phone = record { uuid = codes "p"; name = codes "phone"; is_primary = false; linked_at = pos 7 }

abbrev used : Session
used = record { settings = record started { linked_devices = phone ∷ [] }; file = none }

-- A reader of texts, flags and integers.
as_text : (default : Text) → Option Json → Option Text
as_text d none = some d
as_text d (some (text t)) = some t
as_text d (some j) = none

as_flag : (default : Bool) → Option Json → Option Bool
as_flag d none = some d
as_flag d (some (flag b)) = some b
as_flag d (some j) = none

as_number : (default : ℤ) → Option Json → Option ℤ
as_number d none = some d
as_number d (some (number z)) = some z
as_number d (some j) = none

abbrev plain : Reader
plain = record {
  value_text = λ key d f. as_text d (find_field key f);
  value_flag = λ key d f. as_flag d (find_field key f);
  value_int = λ key d f. as_number d (find_field key f);
  value_long = λ key d f. as_number d (find_field key f);
}

plain-IsReader : IsReader plain
unfolding as_text as_flag as_number
plain-IsReader = record {
  of_text = λ key d t f e. ap (as_text d) e;
  of_flag = λ key d b f e. ap (as_flag d) e;
  of_int = λ key d z f h e. ap (as_number d) e;
  of_long = λ key d z f e. ap (as_number d) e;
}

-- One document is printed and read.
abbrev paper : Json → Env
paper j = record {
  reader = plain;
  parse = λ t. some j;
  dump = λ d. some (codes "{}");
  is_writable = true;
  version = codes "0.9.0";
  saved_at = codes "2026-01-01T00:00:00";
}

abbrev document : Json
document = object (root (codes "0.9.0") (codes "2026-01-01T00:00:00") used.settings)

-- A member of another type makes load throw.
mistyped :
    load
      (paper (
        object (
          field
            (codes "identity")
            (object (field (codes "uuid") (object no_fields) no_fields))
            no_fields)))
      bob
      (record used { file = some [] })
    ≡ thrown (record used { file = some [] })
unfolding load load_of load_json read_settings take_settings read_own section as_text find_field
    text_eq
mistyped = refl

load-save_example :
    (save (paper document) used ≡ returned (record used { file = some (codes "{}") }))
    × (load (paper document) [] (record { settings = defaults; file = some (codes "{}") })
        ≡ returned (record { settings = used.settings; file = some (codes "{}") }))
unfolding defaults generate_identity
load-save_example =
    load-save (paper document) (paper document) [] (codes "{}") used
      (record { settings = defaults; file = some (codes "{}") }) plain-IsReader
      (record {
        ports = (omega arith, omega arith, omega arith, omega arith);
        mode = omega arith;
        width = omega arith;
        levels = (omega arith, omega arith, omega arith, omega arith, omega arith, omega arith);
        named = (refl, refl);
      })
      refl refl refl refl

linked_devices_lem_example :
    let added = session_of (add_linked_device (paper document) phone used) in
    let removed = session_of (remove_linked_device (paper document) (codes "q") used) in
    (linked_device (codes "p") added
      ≡ (if text_eq (codes "p") (codes "p") then some phone else linked_device (codes "p") used))
    × (linked_device (codes "p") removed
        ≡ (if text_eq (codes "q") (codes "p") then none else linked_device (codes "p") used))
    × (AreDistinct (phone ∷ [])
        → AreDistinct added.settings.linked_devices × AreDistinct removed.settings.linked_devices)
linked_devices_lem_example = linked_devices_lem (paper document) phone (codes "p") (codes "q") used

-- 255 letters, and the two bytes of an accented one.
abbrev pad : Text
pad = replicate 255 b'a'

abbrev cut_off : LinkedDevice
cut_off = record phone { name = sanitize_ctrl (pad ++ 195 ∷ 169 ∷ []) }

abbrev strict : Env
strict = record (paper document) { dump = λ d. none }

pad_printable : are_printable pad ≡ true
unfolding are_printable
pad_printable = refl
