-- ===== src/Pairing/Examples.antt =====
-- Pairing codes (src/identity/device_pairing.cpp) on concrete input.
use naleystogramm_core.Prelude.{◌≡◌, refl, true, some, [], ◌∷◌, arith}
use naleystogramm_core.Prelude.Text.{codes}
use naleystogramm_core.Prelude.Decimal.{to_string}
use naleystogramm_core.Pairing.{Pairing, draw, generate_code, pad_six, validate_and_consume}
use naleystogramm_core.Pairing.Lifetime.{validate_and_consume_lem}

abbrev made : Pairing
made = record { code = codes "000042"; expiry = 61000 }

generated : generate_code 1000 (4294967295 ∷ 7000042 ∷ []) ≡ some made
unfolding generate_code draw pad_six to_string
generated = refl

validate_and_consume_lem_example : (validate_and_consume 2000 (codes "000042") made).1 ≡ true
validate_and_consume_lem_example =
    (validate_and_consume_lem 2000 (codes "000042") made).0.1 ((cc), omega arith, refl)
