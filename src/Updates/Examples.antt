-- ===== src/Updates/Examples.antt =====
-- src/diag/updatechecker.cpp on concrete input.
use naleystogramm_core.Prelude.{
  ◌+◌, ◌≤◌, ◌≡◌, refl, true, false, Option, none, some, List, [], ◌∷◌, ◌++◌, arith, String,
}
use naleystogramm_core.Prelude.Text.{Text, codes, text_eq}
use naleystogramm_core.Prelude.Int.{pos}
use naleystogramm_core.Prelude.Decimal.{stoi}
use naleystogramm_core.Session.Values.{
  Json, text, array, object, Items, no_items, item, no_fields, field, Reader, find_field,
}
use naleystogramm_core.Storage.Sql.{contains}
use naleystogramm_core.Version.Hotfix.{render}
use naleystogramm_core.Version.{is_newer_than}
use naleystogramm_core.Updates.{is_newer_version, parse_semver}
use naleystogramm_core.Updates.Assets.{detect_os_release, pick_asset, read_assets, nothing_found}
use naleystogramm_core.Updates.Listeners.{Checker, told_started, unsubscribe}
use naleystogramm_core.Updates.Check.{Env, no_answer}
use naleystogramm_core.Updates.Agreement.{is_newer_version-is_newer_than}
use naleystogramm_core.Updates.Choice.{Chosen, pick_asset-Chosen}
use naleystogramm_core.Updates.Events.{now_clicked, called, reply, run, calls}
use naleystogramm_core.Updates.Tokens.{unsubscribed_silent}

text_or : Text → Option Json → Option Text
text_or d none = some d
text_or d (some (text t)) = some t
text_or d (some j) = none

abbrev reader : Reader
reader = record {
  value_text = λ key d f. text_or d (find_field key f);
  value_flag = λ key d f. some d;
  value_int = λ key d f. some d;
  value_long = λ key d f. some d;
}

abbrev file : (name : String) → Json
file name = object (
    field (codes "name") (text (codes name))
      (field (codes "browser_download_url") (text (codes name ++ codes "?dl")) no_fields))

abbrev files : Items
files = item (file "app.deb") (item (file "app.AppImage") no_items)

abbrev mint : List Text
mint = codes "NAME=\"Mint\"" ∷ codes "ID=linuxmint" ∷ codes "ID_LIKE=\"Ubuntu debian\"" ∷ []

abbrev idle : Checker
idle = record {
  cached = record {
    version = [];
    url = [];
    notes = [];
    download_url = [];
    asset_name = [];
    available = false;
  };
  alive = true;
  next_token = 2;
  on_available = [];
  on_no_update = 1 ∷ [];
  on_failed = [];
  on_started = 0 ∷ [];
  last_check = [];
  requests = 0;
  pending = told_started 0 ∷ [];
  trace = told_started 0 ∷ [];
}

abbrev env : Env
env = record {
  reader = reader;
  current_version = codes "0.8.0";
  os_release = mint;
  read_local = λ t. none;
}

-- A 'v' in front and what follows a '-' are cut off.
beta : parse_semver (codes "v1.20-beta.3") ≡ pos 1 ∷ pos 20 ∷ []
unfolding parse_semver
beta = refl

-- VersionUtils takes a part with a 'v' for 0.
with_v : is_newer_than (codes "v1.0.0") (codes "0.9.0") ≡ false
unfolding is_newer_than stoi
with_v = refl

mint_ids : detect_os_release mint [] [] ≡ (codes "linuxmint", codes "ubuntu debian")
unfolding detect_os_release
mint_ids = refl

mint_file : pick_asset reader mint (some (array files)) ≡ some (codes "app.deb?dl", codes "app.deb")
unfolding pick_asset text_or find_field text_eq contains
mint_file = refl

is_newer_version-is_newer_than_example :
    is_newer_version (render 1 (10 ∷ [])) (render 1 (9 ∷ 3 ∷ 1 ∷ []))
    ≡ is_newer_than (render 1 (10 ∷ [])) (render 1 (9 ∷ 3 ∷ 1 ∷ []))
is_newer_version-is_newer_than_example =
    is_newer_version-is_newer_than 1 1 (10 ∷ []) (9 ∷ 3 ∷ 1 ∷ []) (omega arith) (omega arith)
      (omega arith) (omega arith)

pick_asset-Chosen_example :
    (a : Text × Text) × (pick_asset reader mint (some (array files)) ≡ some a)
    × Chosen reader files (detect_os_release mint [] []).0 (detect_os_release mint [] []).1 a
unfolding read_assets text_or find_field text_eq
pick_asset-Chosen_example =
    pick_asset-Chosen reader mint files
      (record nothing_found {
        app = (codes "app.AppImage?dl", codes "app.AppImage");
        deb = (codes "app.deb?dl", codes "app.deb");
      })
      refl

unsubscribed_silent_example :
    let s' =
      run env
        (now_clicked ∷ called 0 ∷ reply (codes "t") (no_answer (codes "timeout")) ∷ [])
        (unsubscribe 0 idle) in
    (calls 0 s'.trace ≤ calls 0 idle.trace + calls 0 idle.pending)
    × (calls 0 s'.trace + calls 0 s'.pending ≡ calls 0 idle.trace + calls 0 idle.pending)
unsubscribed_silent_example =
    unsubscribed_silent 0 env
      (now_clicked ∷ called 0 ∷ reply (codes "t") (no_answer (codes "timeout")) ∷ []) idle
      (omega arith) (omega arith)
