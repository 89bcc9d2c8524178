-- ===== src/Session/Failure.antt =====
-- What becomes of session.json (src/storage/sessionmanager.cpp) when its document cannot be printed, as by
-- the name of a device that sanitizeCtrl of src/net/network.cpp cut within a character.
use naleystogramm_core.Prelude.{
  ℕ, suc, ◌≤◌, ◌≡◌, refl, sym, ap, ◌∙◌, true, false, none, some, [], ◌∷◌, ◌++◌, length, arith,
}
use naleystogramm_core.Prelude.Text.{Text, is_empty}
use naleystogramm_core.Network.Wire.{keep_printable, trim_spaces, sanitize_ctrl}
use naleystogramm_core.Network.Printable.{are_printable}
use naleystogramm_core.Session.{LinkedDevice, Session, Env, returned, thrown, defaults}
use naleystogramm_core.Session.Values.{object}
use naleystogramm_core.Session.Save.{root, save_of, save}
use naleystogramm_core.Session.Load.{generate_identity, reset, load_json, load_of, load}
use naleystogramm_core.Session.Methods.{put_device, with_devices, add_linked_device}

-- Bytes of 128 and more are kept, up to the 256th.
keep_cut :
    (pad rest : Text) (c : ℕ)
    → are_printable pad ≡ true
    → 128 ≤ c
    → keep_printable (suc (length pad)) (pad ++ c ∷ rest) ≡ pad ++ c ∷ []
unfolding keep_printable are_printable
keep_cut [] rest c p h = ground arith
keep_cut (d ∷ pad) rest c p h = ground (arith, keep_cut pad rest c)

not_empty : (pad : Text) (c : ℕ) → is_empty (pad ++ c ∷ []) ≡ false
not_empty [] c = refl
not_empty (d ∷ pad) c = refl

trim_cut : (pad : Text) (c : ℕ) → 128 ≤ c → trim_spaces (pad ++ c ∷ []) ≡ pad ++ c ∷ []
unfolding trim_spaces
trim_cut [] c h = ground arith
trim_cut (d ∷ pad) c h = rw (trim_cut pad c h, not_empty pad c) refl

-- Saving a document that cannot be printed empties the file, and throws. A session that starts then,
-- with the empty text not parsed as JSON, is given a new UUID, and the name and settings of a first start.
pub failed_save :
    (env env' : Env) (fresh content : Text) (s s' : Session)
    → env.is_writable ≡ true
    → env.dump (object (root env.version env.saved_at s.settings)) ≡ none
    → env'.parse [] ≡ none
    → env'.is_writable ≡ true
    → env'.dump (object (root env'.version env'.saved_at (generate_identity fresh defaults)))
      ≡ some content
    → s'.settings ≡ defaults
    → s'.file ≡ some []
    → (save env s ≡ thrown (record s { file = some [] }))
      × (load env' fresh s'
          ≡ returned (record { settings = generate_identity fresh defaults; file = some content }))
unfolding save save_of load load_of load_json reset
failed_save env env' fresh content s s' writable undumped unparsed writable' dumped first empty =
    (rw (writable, undumped) refl, rw (empty, unparsed, first, writable', dumped) refl)

-- A device whose name is 255 printable bytes and a character of two bytes or more, the first of which is
-- c, is linked, and dump throws as a text that ends within a character is not UTF-8: what sanitizeCtrl
-- leaves of the name is such a text, and adding the device empties session.json and throws.
pub cut_name_empties :
    (env : Env) (dev : LinkedDevice) (pad rest : Text) (c : ℕ) (s : Session)
    → length pad ≡ 255
    → are_printable pad ≡ true
    → 128 ≤ c
    → dev.name ≡ sanitize_ctrl (pad ++ c ∷ rest)
    → env.is_writable ≡ true
    → (dev.name ≡ pad ++ c ∷ []
        → env.dump (
            object (
              root env.version env.saved_at
                (with_devices (put_device dev s.settings.linked_devices) s).settings))
          ≡ none)
    → (dev.name ≡ pad ++ c ∷ [])
      × (add_linked_device env dev s
          ≡ thrown (record (with_devices (put_device dev s.settings.linked_devices) s) {
            file = some [];
          }))
unfolding add_linked_device save save_of sanitize_ctrl
cut_name_empties env dev pad rest c s long printable lead named writable undumped =
    let cut : dev.name ≡ pad ++ c ∷ [] =
      named
      ∙ ap (λ n. trim_spaces (keep_printable (suc n) (pad ++ c ∷ rest))) (sym long)
      ∙ ap trim_spaces (keep_cut pad rest c printable lead)
      ∙ trim_cut pad c lead in
    (cut, rw (writable, undumped cut) refl)
