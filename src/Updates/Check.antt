-- ===== src/Updates/Check.antt =====
-- The check for updates of src/diag/updatechecker.cpp. `doCheck` is in two parts: what it does at once,
-- and what its thread does with the reply.
use naleystogramm_core.Prelude.{
  ℕ, ◌+◌, ◌*◌, Bool, false, not, ◌&&◌, Option, none, some, List, [], ◌∷◌, ◌++◌, length, take, ltb,
  if◌then◌else◌, ◌>>=◌,
}
use naleystogramm_core.Prelude.Text.{Text, codes, is_empty}
use naleystogramm_core.Prelude.Int.{ℤ, pos, negsuc, ◌+ℤ◌, ltb_ℤ}
use naleystogramm_core.Session.Values.{Json, object, Fields, Reader, find_field}
use naleystogramm_core.Updates.{differ, is_newer_version}
use naleystogramm_core.Updates.Assets.{pick_asset}
use naleystogramm_core.Updates.Listeners.{
  UpdateInfo, Checker, notify_available, notify_no_update, notify_failed, notify_started,
}

-- The reply of libcurl: its error, or a body, which may be no JSON.
pub data Reply : Type 0 where
  no_answer : (error : Text) → Reply
  answer : Option Json → Reply

-- What stands outside: the version that is built, /etc/os-release, and sscanf with mktime.
pub record Env : Type 0 where
  pub reader : Reader
  pub current_version : Text
  pub os_release : List Text
  pub read_local : Text → Option ℤ

-- "…" takes three bytes.
unfoldable pub cut_notes : Text → Text
cut_notes t = if ltb 280 (length t) then take 280 t ++ 226 ∷ 128 ∷ 166 ∷ [] else t

unfoldable pub announce : Env → UpdateInfo → Checker → Checker
announce env info s =
    if not s.alive
    then s
    else if info.available
    then notify_available info s
    else notify_no_update env.current_version s

-- A release; a value of another type than is asked for throws.
unfoldable pub on_release : Env → Fields → Checker → Option Checker
unfolding announce cut_notes
on_release env f s = do
  tag ← env.reader.value_text (codes "tag_name") [] f
  url ← env.reader.value_text (codes "html_url") [] f
  notes ← env.reader.value_text (codes "body") [] f
  if is_empty tag then some (notify_failed (codes "Релизы не найдены") s) else do
    a ← pick_asset env.reader env.os_release (find_field (codes "assets") f)
    some (
        announce env
          (record {
            version = tag;
            url = url;
            notes = cut_notes notes;
            download_url = a.0;
            asset_name = a.1;
            available = is_newer_version tag env.current_version;
          })
          s)

unfoldable pub on_body : Env → Option Json → Checker → Option Checker
unfolding on_release
on_body env (some (object f)) s = on_release env f s
on_body env j s = some (notify_failed (codes "Неверный ответ от GitHub API") s)

-- The rest of the thread, at the time `now_iso`.
unfoldable pub on_reply : Env → (now_iso : Text) → Reply → Checker → Option Checker
unfolding on_body
on_reply env now_iso (no_answer err) s = some (if not s.alive then s else notify_failed err s)
on_reply env now_iso (answer j) s =
    if not s.alive then some s else on_body env j (record s { last_check = now_iso })

unfoldable pub do_check : Checker → Checker
do_check s = let s' = notify_started s in record s' { requests = s'.requests + 1 }

unfoldable pub check_now : Checker → Checker
unfolding do_check
check_now s = do_check s

-- The time of the last check; -1 stands for none.
unfoldable pub parse_iso_timestamp : Env → Text → ℤ
parse_iso_timestamp env iso =
    if is_empty iso then negsuc 0 else elim (env.read_local iso) [ none ↦ negsuc 0 | some t ↦ t ]

unfoldable pub check_in_background : Env → (auto_check : Bool) → (now : ℕ) → Checker → Checker
unfolding do_check parse_iso_timestamp
check_in_background env auto_check now s =
    let last = parse_iso_timestamp env s.last_check in
    if not auto_check
    then s
    else if differ last (negsuc 0) && ltb_ℤ (pos now) (last +ℤ pos (6 * 3600))
    then s
    else do_check s

-- The destructor.
unfoldable pub destroy : Checker → Checker
destroy s = record s { alive = false }
