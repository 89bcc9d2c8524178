-- ===== src/Pairing.antt =====
-- src/identity/device_pairing.cpp: the one-time code by which a secondary device is paired. The two
-- static members are a record; the clock of each call is an argument in milliseconds; RAND_bytes is
-- the list of the 32-bit words that it will give.
pub mod Code
pub mod Lifetime
mod Examples
use naleystogramm_core.Prelude.{
  ℕ, ◌+◌, ◌-◌, ◌*◌, ◌%◌, Bool, true, false, Option, none, some, List, [], ◌∷◌, ◌++◌, ltb, leb,
  length, replicate, if◌then◌else◌,
}
use naleystogramm_core.Prelude.Text.{Text, is_empty}
use naleystogramm_core.Prelude.Decimal.{to_string}
use naleystogramm_core.Prelude.Compare.{same_bytes}

pub record Pairing : Type 0 where
  pub code : Text
  pub expiry : ℕ

abbrev pub code_length : ℕ
code_length = 6

abbrev pub code_ttl_secs : ℕ
code_ttl_secs = 60

-- The loop of rejection sampling; `none` when the words run out, which RAND_bytes never does.
unfoldable pub draw : List ℕ → Option ℕ
draw [] = none
draw (val ∷ words) = let rest = draw words in if leb 4000000000 val then rest else some val

-- "%06u"
unfoldable pub pad_six : ℕ → Text
pad_six n = let s = to_string n in replicate (code_length - length s) b'0' ++ s

-- The code that is made of the word that was drawn.
issue : (now : ℕ) → Option ℕ → Option Pairing
issue now none = none
issue now (some val) =
    some (record { code = pad_six (val % 1000000); expiry = now + code_ttl_secs * 1000 })

unfoldable pub generate_code : (now : ℕ) → List ℕ → Option Pairing
unfolding issue
generate_code now words = issue now (draw words)

abbrev pub cleared : Pairing
cleared = record { code = []; expiry = 0 }

unfoldable pub current_code : (now : ℕ) → Pairing → Pairing × Text
current_code now s =
    if is_empty s.code then (s, []) else if ltb s.expiry now then (cleared, []) else (s, s.code)

unfoldable pub validate_and_consume : (now : ℕ) → Text → Pairing → Pairing × Bool
validate_and_consume now code s =
    if is_empty s.code
    then (s, false)
    else if ltb s.expiry now
    then (cleared, false)
    else if same_bytes code s.code
    then (cleared, true)
    else (s, false)
