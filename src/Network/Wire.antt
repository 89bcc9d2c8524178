-- ===== src/Network/Wire.antt =====
-- The frames that handleFrame of src/net/network.cpp knows, as the fields that it reads, and what it
-- does with the texts in them: sanitizeCtrl, the least version, and the reasons of a refusal.
use naleystogramm_core.Prelude.{
  ℕ, zero, suc, ◌==◌, ◌!=◌, Bool, true, false, ◌&&◌, [], ◌∷◌, ◌++◌, leb, ltb, if◌then◌else◌,
}
use naleystogramm_core.Prelude.Text.{Text, codes, text_eq, is_empty}
use naleystogramm_core.Prelude.Int.{pos, ltb_ℤ}
use naleystogramm_core.Version.{compare}

pub data Frame : Type 0 where
  client_hello : (version name : Text) → (is_device : Bool) → Frame
  server_hello : (version name : Text) → Frame
  version_reject : (min_version : Text) → Frame
  pair_request : (code uuid name : Text) → Frame
  pair_accept : (uuid name : Text) → Frame
  pair_reject : (reason : Text) → Frame
  uuid_challenge : (uuid : Text) → Frame
  uuid_response : (confirmed : Bool) → Frame
  handshake : (uuid version name : Text) → (port : ℕ) → Frame
  handshake_ack : (uuid version name : Text) → Frame
  handshake_nack ping pong : Frame
  profile_update : (name : Text) → Frame
  other : (msg : Text) → Frame

abbrev pub min_peer_version : Text
min_peer_version = codes "0.8.1.1"

-- VersionUtils::compare(version, kMinPeerVersion) < 0
unfoldable pub is_old : (version : Text) → Bool
is_old version = ltb_ℤ (compare version min_peer_version) (pos 0)

abbrev pub is_printable : ℕ → Bool
is_printable c = leb 32 c && c != 127

-- The printable bytes, as many as there is room for.
unfoldable pub keep_printable : (room : ℕ) → Text → Text
keep_printable zero s = []
keep_printable (suc r) [] = []
keep_printable (suc r) (c ∷ s) =
    let kept = keep_printable r s in
    let skipped = keep_printable (suc r) s in if is_printable c then c ∷ kept else skipped

unfoldable pub trim_spaces : Text → Text
trim_spaces [] = []
trim_spaces (c ∷ s) = let rest = trim_spaces s in if is_empty rest && c == 32 then [] else c ∷ rest

-- With the length that every call leaves at its default.
unfoldable pub sanitize_ctrl : Text → Text
sanitize_ctrl s = trim_spaces (keep_printable 256 s)

-- std::string's `<`
unfoldable pub text_lt : Text → Text → Bool
text_lt s [] = false
text_lt [] (d ∷ t) = true
text_lt (c ∷ s) (d ∷ t) = let rest = text_lt s t in if c == d then rest else ltb c d

unfoldable pub reject_text : (reason : Text) → Text
reject_text reason =
    if text_eq reason (codes "invalid_code")
    then codes "Привязка отклонена: неверный код"
    else if text_eq reason (codes "expired")
    then codes "Привязка отклонена: код устарел"
    else if text_eq reason (codes "invalid_uuid")
    then codes "Привязка отклонена: невалидный UUID"
    else codes "Привязка отклонена: " ++ reason
