-- ===== src/Session/Devices.antt =====
-- The linked devices of src/storage/sessionmanager.cpp.
use mathlib.Core.Path.{subst}
use naleystogramm_core.Prelude.{
  ◌≡◌, refl, sym, ap, ◌∙◌, Bool, true, false, Bool-cases, inl, inr, Option, none, some, List, [],
  ◌∷◌, length, ◌==◌, arith, if◌then◌else◌,
}
use naleystogramm_core.Prelude.Text.{Text, text_eq, text_eq_iff}
use naleystogramm_core.Session.{LinkedDevice, Session, Env, Outcome, returned, thrown}
use naleystogramm_core.Session.Save.{save_of, save}
use naleystogramm_core.Session.Methods.{
  put_device, drop_device, find_device, with_devices, add_linked_device, remove_linked_device,
  linked_device,
}

-- The state that a method leaves, also where it throws.
abbrev pub session_of : Outcome → Session
session_of (returned s) = s
session_of (thrown s) = s

save_keeps : (env : Env) (s : Session) → (session_of (save env s)).settings ≡ s.settings
unfolding save save_of
save_keeps env s = kept env.is_writable (env.dump _)
  where
    kept : (b : Bool) (o : Option Text) → (session_of (save_of b o s)).settings ≡ s.settings
    kept false o = refl
    kept true none = refl
    kept true (some t) = refl

find_device-put_device :
    (dev : LinkedDevice) (u : Text) (ds : List LinkedDevice)
    → find_device u (put_device dev ds)
      ≡ (if text_eq dev.uuid u then some dev else find_device u ds)
unfolding find_device put_device
find_device-put_device dev u [] = refl
find_device-put_device dev u (d ∷ ds) = ground (
  arith,
  find_device-put_device dev u ds,
  text_eq_iff d.uuid dev.uuid,
  text_eq_iff d.uuid u,
  text_eq_iff dev.uuid u,
)

find_device-drop_device :
    (v u : Text) (ds : List LinkedDevice)
    → find_device u (drop_device v ds) ≡ (if text_eq v u then none else find_device u ds)
unfolding find_device drop_device
find_device-drop_device v u [] = ground arith
find_device-drop_device v u (d ∷ ds) = ground (
  arith,
  find_device-drop_device v u ds,
  text_eq_iff d.uuid v,
  text_eq_iff d.uuid u,
  text_eq_iff v u,
)

-- No two devices have one UUID.
pub AreDistinct : List LinkedDevice → Type 0
AreDistinct [] = Unit
AreDistinct (d ∷ ds) = (find_device d.uuid ds ≡ none) × AreDistinct ds

put_device-AreDistinct :
    (dev : LinkedDevice) (ds : List LinkedDevice) → AreDistinct ds → AreDistinct (put_device dev ds)
unfolding AreDistinct put_device find_device
put_device-AreDistinct dev [] h = (refl, tt)
put_device-AreDistinct dev (d ∷ ds) h = elim (Bool-cases (text_eq d.uuid dev.uuid)) [
  | inl e ↦
      let same : d.uuid ≡ dev.uuid = (text_eq_iff d.uuid dev.uuid).0 e in
      rw e (ap (λ u. find_device u ds) (sym same) ∙ h.0, h.1)
  | inr e ↦ rw e (
    find_device-put_device dev d.uuid ds
        ∙ ground (arith, h.0, text_eq_iff d.uuid dev.uuid, text_eq_iff dev.uuid d.uuid),
    put_device-AreDistinct dev ds h.1,
  )
]

drop_device-AreDistinct :
    (u : Text) (ds : List LinkedDevice) → AreDistinct ds → AreDistinct (drop_device u ds)
unfolding AreDistinct drop_device find_device
drop_device-AreDistinct u [] h = tt
drop_device-AreDistinct u (d ∷ ds) h = elim (Bool-cases (text_eq d.uuid u)) [
  | inl e ↦ rw e (drop_device-AreDistinct u ds h.1)
  | inr e ↦ rw e (
    find_device-drop_device u d.uuid ds
        ∙ ground (arith, h.0, text_eq_iff d.uuid u, text_eq_iff u d.uuid),
    drop_device-AreDistinct u ds h.1,
  )
]

remove_keeps :
    (env : Env) (v : Text) (s : Session)
    → (session_of (remove_linked_device env v s)).settings
      ≡ (with_devices (drop_device v s.settings.linked_devices) s).settings
unfolding remove_linked_device
remove_keeps env v s = kept (length ds == length s.settings.linked_devices)
  where
    ds : List LinkedDevice
    ds = drop_device v s.settings.linked_devices

    kept :
        (b : Bool)
        → (session_of
            (if b then returned (with_devices ds s) else save env (with_devices ds s))).settings
          ≡ (with_devices ds s).settings
    kept true = refl
    kept false = save_keeps env (with_devices ds s)

-- What addLinkedDevice and removeLinkedDevice do to the devices, whether the file can be saved or not:
-- a device that was added is found under its UUID, one that was removed is not, the others are found as
-- before. Where no two devices had one UUID, it stays so.
pub linked_devices_lem :
    (env : Env) (dev : LinkedDevice) (u v : Text) (s : Session)
    → let added = session_of (add_linked_device env dev s) in
      let removed = session_of (remove_linked_device env v s) in
      (linked_device u added ≡ (if text_eq dev.uuid u then some dev else linked_device u s))
      × (linked_device u removed ≡ (if text_eq v u then none else linked_device u s))
      × (AreDistinct s.settings.linked_devices
          → AreDistinct added.settings.linked_devices × AreDistinct removed.settings.linked_devices)
unfolding add_linked_device linked_device
linked_devices_lem env dev u v s =
    let ds = s.settings.linked_devices in
    let a = save_keeps env (with_devices (put_device dev ds) s) in
    let r = remove_keeps env v s in
    (
      ap (λ t. find_device u t.linked_devices) a ∙ find_device-put_device dev u ds,
      ap (λ t. find_device u t.linked_devices) r ∙ find_device-drop_device v u ds,
      λ h. (
        subst (λ t. AreDistinct t.linked_devices) (sym a) (put_device-AreDistinct dev ds h),
        subst (λ t. AreDistinct t.linked_devices) (sym r) (drop_device-AreDistinct v ds h),
      ),
    )
