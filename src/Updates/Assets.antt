-- ===== src/Updates/Assets.antt =====
-- pickAsset of src/diag/updatechecker.cpp: which file of a release fits this system.
use naleystogramm_core.Prelude.{
  ℕ, ◌+◌, ◌-◌, Bool, true, false, not, ◌&&◌, ◌||◌, Option, none, some, List, [], ◌∷◌, ◌++◌, length,
  drop, leb, ◌==◌, if◌then◌else◌, ◌>>=◌,
}
use naleystogramm_core.Prelude.Text.{Text, codes, text_eq, is_empty}
use naleystogramm_core.Session.Values.{
  Json, object, array, null, Items, no_items, item, Fields, no_fields, field, Reader,
}
use naleystogramm_core.Storage.Sql.{contains}
use naleystogramm_core.Updates.Families.{arch_family, debian_family, rpm_family}

unfoldable pub starts_with : (prefix s : Text) → Bool
starts_with [] s = true
starts_with (c ∷ p) [] = false
starts_with (c ∷ p) (d ∷ s) = c == d && starts_with p s

unfoldable pub without_last_quote : Text → Text
without_last_quote [] = []
without_last_quote (c ∷ []) = if c == b'"' then [] else c ∷ []
without_last_quote (c ∷ d ∷ s) = c ∷ without_last_quote (d ∷ s)

unfoldable pub without_first_quote : Text → Text
without_first_quote [] = []
without_first_quote (c ∷ s) = if c == b'"' then s else c ∷ s

abbrev pub to_lower : ℕ → ℕ
to_lower c = if leb b'A' c && leb c b'Z' then c + 32 else c

unfoldable pub lower : Text → Text
lower [] = []
lower (c ∷ s) = to_lower c ∷ lower s

unfoldable pub unquoted : Text → Text
unfolding without_last_quote without_first_quote lower
unquoted v = lower (without_last_quote (without_first_quote v))

-- The value of a field in a line KEY=value; the empty text if it is another line.
field_of : Text → Text
unfolding unquoted
field_of [] = []
field_of (c ∷ v) = if c == b'=' then unquoted v else []

unfoldable pub parse_field : (key line : Text) → Text
unfolding starts_with field_of
parse_field key line =
    if not (starts_with key line) || leb (length line) (length key + 1)
    then []
    else field_of (drop (length key) line)

abbrev pub or_old : (new old : Text) → Text
or_old [] old = old
or_old (c ∷ s) old = c ∷ s

unfoldable pub detect_os_release : (lines : List Text) → (id id_like : Text) → Text × Text
unfolding parse_field
detect_os_release [] id id_like = (id, id_like)
detect_os_release (line ∷ lines) id id_like =
    detect_os_release lines (or_old (parse_field (codes "ID") line) id)
      (or_old (parse_field (codes "ID_LIKE") line) id_like)

-- std::getline with the delimiter ' '.
unfoldable pub words : Text → (tok : Text) → List Text
words [] [] = []
words [] (c ∷ tok) = (c ∷ tok) ∷ []
words (c ∷ s) tok = elim (c == 32) [ true ↦ tok ∷ words s [] | false ↦ words s (tok ++ c ∷ []) ]

unfoldable pub any_word : List Text → (family : List Text) → Bool
any_word [] family = false
any_word (w ∷ ws) family = not (is_empty w) && contains w family || any_word ws family

unfoldable pub in_family : (id id_like : Text) → (family : List Text) → Bool
unfolding words any_word
in_family id id_like family = contains id family || any_word (words id_like []) family

unfoldable pub ends_with : (s suffix : Text) → Bool
ends_with s suffix =
    leb (length suffix) (length s) && text_eq (drop (length s - length suffix) s) suffix

-- The url and the name of a file.
abbrev pub Asset : Type 0
Asset = Text × Text

pub record Found : Type 0 where
  pub app : Asset
  pub deb : Asset
  pub rpm : Asset
  pub pkg : Asset

unfoldable pub note_asset : (name url : Text) → Found → Found
unfolding ends_with
note_asset name url f =
    if ends_with name (codes ".AppImage")
    then record f { app = (url, name) }
    else if ends_with name (codes ".deb")
    then record f { deb = (url, name) }
    else if ends_with name (codes ".rpm")
    then record f { rpm = (url, name) }
    else if ends_with name (codes ".pkg.tar.zst")
    then record f { pkg = (url, name) }
    else f

-- `value` throws on what is no object.
unfoldable pub read_asset : Reader → Json → Option Asset
read_asset r (object f) = do
  name ← r.value_text (codes "name") [] f
  url ← r.value_text (codes "browser_download_url") [] f
  some (url, name)
read_asset r j = none

unfoldable pub read_assets : Reader → Items → Found → Option Found
unfolding note_asset read_asset
read_assets r no_items f = some f
read_assets r (item j js) f = do a ← read_asset r j; read_assets r js (note_asset a.1 a.0 f)

abbrev pub nothing_found : Found
nothing_found = record { app = ([], []); deb = ([], []); rpm = ([], []); pkg = ([], []) }

unfoldable pub choose : (id id_like : Text) → Found → Asset
unfolding in_family
choose id id_like f =
    if in_family id id_like arch_family && not (is_empty f.pkg.0)
    then f.pkg
    else if in_family id id_like debian_family && not (is_empty f.deb.0)
    then f.deb
    else if in_family id id_like rpm_family && not (is_empty f.rpm.0)
    then f.rpm
    else f.app

-- What a range-based for goes over.
unfoldable pub field_values : Fields → Items
field_values no_fields = no_items
field_values (field k j f) = item j (field_values f)

unfoldable pub elements : Option Json → Items
unfolding field_values
elements none = no_items
elements (some null) = no_items
elements (some (array xs)) = xs
elements (some (object f)) = field_values f
elements (some j) = item j no_items

unfoldable pub pick_asset : Reader → (os_release : List Text) → Option Json → Option Asset
unfolding detect_os_release choose read_assets elements
pick_asset r os_release assets = do
  let ids = detect_os_release os_release [] []
  f ← read_assets r (elements assets) nothing_found
  some (choose ids.0 ids.1 f)
