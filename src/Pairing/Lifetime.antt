-- ===== src/Pairing/Lifetime.antt =====
-- How long a code of src/identity/device_pairing.cpp can be used.
use naleystogramm_core.Prelude.{
  ℕ, ◌+◌, ◌≤◌, ◌<◌, ◌≡◌, ◌≢◌, ◌↔◌, refl, true, false, List, [], ◌∷◌, arith, if◌then◌else◌,
}
use naleystogramm_core.Prelude.Text.{Text}
use naleystogramm_core.Prelude.Compare.{same_bytes_iff}
use naleystogramm_core.Pairing.{Pairing, cleared, current_code, validate_and_consume}

-- A code is accepted exactly while it is there and has not expired, and if it is the same text;
-- then it is cleared. A wrong code leaves an unexpired one as it was, and an expired one is cleared.
pub validate_and_consume_lem :
    (now : ℕ) (code : Text) (s : Pairing)
    → (((validate_and_consume now code s).1 ≡ true)
        ↔ ((s.code ≢ []) × (now ≤ s.expiry) × (code ≡ s.code)))
      × ((validate_and_consume now code s).1 ≡ true → (validate_and_consume now code s).0 ≡ cleared)
      × (now ≤ s.expiry → code ≢ s.code → (validate_and_consume now code s).0 ≡ s)
      × (s.code ≢ [] → s.expiry < now → validate_and_consume now code s ≡ (cleared, false))
unfolding validate_and_consume
validate_and_consume_lem now code s = ground (arith, same_bytes_iff code s.code)

pub data Use : Type 0 where
  validate : (now : ℕ) → (code : Text) → Use
  look : (now : ℕ) → Use

-- How often a code is accepted.
abbrev pub accepted : List Use → Pairing → ℕ
accepted [] s = 0
accepted (validate now code ∷ us) s =
    let (s', ok) = validate_and_consume now code s in
    let rest = accepted us s' in if ok then rest + 1 else rest
accepted (look now ∷ us) s = accepted us (current_code now s).0

accepted-none : (us : List Use) (s : Pairing) → s.code ≡ [] → accepted us s ≡ 0
unfolding validate_and_consume current_code
accepted-none [] s h = refl
accepted-none (validate now code ∷ us) s h = ground (arith, accepted-none us s)
accepted-none (look now ∷ us) s h = ground (arith, accepted-none us s)

-- One code is accepted at most once, whatever is entered, and whenever.
pub accepted_once : (us : List Use) (s : Pairing) → accepted us s ≤ 1
unfolding validate_and_consume current_code
accepted_once [] s = omega arith
accepted_once (validate now code ∷ us) s =
    ground (arith, accepted_once us s, accepted-none us cleared)
accepted_once (look now ∷ us) s = ground (arith, accepted_once us s, accepted_once us cleared)
