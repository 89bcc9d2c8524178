-- ===== src/Updates/Choice.antt =====
-- The file that pickAsset of src/diag/updatechecker.cpp chooses.
use naleystogramm_core.Prelude.{
  ◌≡◌, refl, ap, sym, ◌∙◌, ◌⊎◌, inl, inr, Bool, true, not, ◌&&◌, ◌||◌, some, Option-cases, List, [],
  arith, Bool-cases,
}
use naleystogramm_core.Prelude.Text.{Text, codes, is_empty}
use naleystogramm_core.Session.Values.{Json, array, Items, no_items, item, Reader}
use naleystogramm_core.Updates.Families.{arch_family, debian_family, rpm_family}
use naleystogramm_core.Updates.Assets.{
  detect_os_release, in_family, ends_with, Asset, Found, note_asset, read_asset, read_assets,
  nothing_found, choose, elements, pick_asset,
}

-- Is an item read as this url and name?
abbrev pub Offers : Reader → Asset → Items → Type 0
Offers r a no_items = ⊥
Offers r a (item j js) = (read_asset r j ≡ some a) ⊎ Offers r a js

-- A kind of package that the system takes.
unfoldable pub fits : (id id_like name : Text) → Bool
fits id id_like name =
    in_family id id_like arch_family && ends_with name (codes ".pkg.tar.zst")
    || in_family id id_like debian_family && ends_with name (codes ".deb")
    || in_family id id_like rpm_family && ends_with name (codes ".rpm")
    || ends_with name (codes ".AppImage")

-- A slot holds what it did, or an asset with its ending.
abbrev Slot : Reader → Items → (ending : Text) → (old new : Asset) → Type 0
Slot r js ending old new = (new ≡ old) ⊎ ((ends_with new.1 ending ≡ true) × Offers r new js)

record Slots (r : Reader) (js : Items) (f g : Found) : Type 0 where
  app : Slot r js (codes ".AppImage") f.app g.app
  deb : Slot r js (codes ".deb") f.deb g.deb
  rpm : Slot r js (codes ".rpm") f.rpm g.rpm
  pkg : Slot r js (codes ".pkg.tar.zst") f.pkg g.pkg

-- The same for one asset.
abbrev Noted : Reader → Json → (ending : Text) → (old new : Asset) → Type 0
Noted r j ending old new =
    (new ≡ old) ⊎ ((ends_with new.1 ending ≡ true) × (read_asset r j ≡ some new))

record NotedAll (r : Reader) (j : Json) (f g : Found) : Type 0 where
  app : Noted r j (codes ".AppImage") f.app g.app
  deb : Noted r j (codes ".deb") f.deb g.deb
  rpm : Noted r j (codes ".rpm") f.rpm g.rpm
  pkg : Noted r j (codes ".pkg.tar.zst") f.pkg g.pkg

note_asset-NotedAll :
    (r : Reader) (j : Json) (url name : Text) (f : Found)
    → read_asset r j ≡ some (url, name)
    → NotedAll r j f (note_asset name url f)
unfolding note_asset
note_asset-NotedAll r j url name f o = elim (Bool-cases (ends_with name (codes ".AppImage"))) [
  | inl e ↦ rw e (record { app = inr (e, o); deb = inl refl; rpm = inl refl; pkg = inl refl })
  | inr e ↦ rw e (elim (Bool-cases (ends_with name (codes ".deb"))) [
    | inl d ↦ rw d (record { app = inl refl; deb = inr (d, o); rpm = inl refl; pkg = inl refl })
    | inr d ↦ rw d (elim (Bool-cases (ends_with name (codes ".rpm"))) [
      | inl m ↦ rw m (record { app = inl refl; deb = inl refl; rpm = inr (m, o); pkg = inl refl })
      | inr m ↦ rw m (elim (Bool-cases (ends_with name (codes ".pkg.tar.zst"))) [
        | inl p ↦ rw p (record { app = inl refl; deb = inl refl; rpm = inl refl; pkg = inr (p, o) })
        | inr p ↦ rw p (record { app = inl refl; deb = inl refl; rpm = inl refl; pkg = inl refl })
      ])
    ])
  ])
]

then_Slot :
    (r : Reader) (j : Json) (js : Items) (ending : Text) (a b c : Asset)
    → Noted r j ending a b
    → Slot r js ending b c
    → Slot r (item j js) ending a c
then_Slot r j js ending a b c h (inr (e, o)) = inr (e, inr o)
then_Slot r j js ending a b c (inl h) (inl k) = inl (k ∙ h)
then_Slot r j js ending a b c (inr (e, o)) (inl k) =
    inr (ap (λ (x : Asset). ends_with x.1 ending) k ∙ e, inl (o ∙ ap some (sym k)))

read_assets-Slots :
    (r : Reader) (js : Items) (f g : Found) → read_assets r js f ≡ some g → Slots r js f g
unfolding read_assets
read_assets-Slots r no_items f g h =
    let e : g ≡ f = cc in
    record {
      app = inl (ap (λ (x : Found). x.app) e);
      deb = inl (ap (λ (x : Found). x.deb) e);
      rpm = inl (ap (λ (x : Found). x.rpm) e);
      pkg = inl (ap (λ (x : Found). x.pkg) e);
    }
read_assets-Slots r (item j js) f g h = elim (Option-cases (read_asset r j)) [
  | inl e ↦ cc
  | inr (a, e) ↦
      let f' = note_asset a.1 a.0 f in
      let one = note_asset-NotedAll r j a.0 a.1 f e in
      let more = read_assets-Slots r js f' g (sym (rw e refl) ∙ h) in
      record {
        app = then_Slot r j js (codes ".AppImage") f.app f'.app g.app one.app more.app;
        deb = then_Slot r j js (codes ".deb") f.deb f'.deb g.deb one.deb more.deb;
        rpm = then_Slot r j js (codes ".rpm") f.rpm f'.rpm g.rpm one.rpm more.rpm;
        pkg = then_Slot r j js (codes ".pkg.tar.zst") f.pkg f'.pkg g.pkg one.pkg more.pkg;
      }
]

-- A choice that is not empty.
abbrev pub Chosen : Reader → Items → (id id_like : Text) → Asset → Type 0
Chosen r js id id_like a = (a ≡ ([], [])) ⊎ ((fits id id_like a.1 ≡ true) × Offers r a js)

fitting :
    (r : Reader) (js : Items) (id id_like ending : Text) (a : Asset)
    → Slot r js ending ([], []) a
    → (ends_with a.1 ending ≡ true → fits id id_like a.1 ≡ true)
    → Chosen r js id id_like a
fitting r js id id_like ending a (inl e) f = inl e
fitting r js id id_like ending a (inr (e, o)) f = inr (f e, o)

choose-Chosen :
    (r : Reader) (js : Items) (id id_like : Text) (g : Found)
    → Slots r js nothing_found g
    → Chosen r js id id_like (choose id id_like g)
unfolding choose fits
choose-Chosen r js id id_like g h =
    elim (Bool-cases (in_family id id_like arch_family && not (is_empty g.pkg.0))) [
      | inl e ↦
          rw e (fitting r js id id_like (codes ".pkg.tar.zst") g.pkg h.pkg (λ k. ground arith))
      | inr e ↦
          rw e (elim (Bool-cases (in_family id id_like debian_family && not (is_empty g.deb.0))) [
            | inl d ↦ rw d (fitting r js id id_like (codes ".deb") g.deb h.deb (λ k. ground arith))
            | inr d ↦
                rw d
                  (elim (Bool-cases (in_family id id_like rpm_family && not (is_empty g.rpm.0))) [
                    | inl m ↦
                        rw m
                          (fitting r js id id_like (codes ".rpm") g.rpm h.rpm (λ k. ground arith))
                    | inr m ↦ rw m (
                        fitting r js id id_like (codes ".AppImage") g.app h.app (λ k. ground arith))
                  ])
          ])
    ]

-- Where every entry of a release can be read, the file that is chosen for the system of an os-release is
-- none, or one that the release offers, its url and its name of the same entry, and then a package of the
-- system's family or an AppImage.
pub pick_asset-Chosen :
    (r : Reader) (os_release : List Text) (xs : Items) (f : Found)
    → read_assets r xs nothing_found ≡ some f
    → (a : Asset) × (pick_asset r os_release (some (array xs)) ≡ some a)
      × Chosen r xs (detect_os_release os_release [] []).0 (detect_os_release os_release [] []).1 a
unfolding pick_asset elements
pick_asset-Chosen r os_release xs f h =
    let ids = detect_os_release os_release [] [] in
    (
      choose ids.0 ids.1 f,
      rw h refl,
      choose-Chosen r xs ids.0 ids.1 f (read_assets-Slots r xs nothing_found f h),
    )
