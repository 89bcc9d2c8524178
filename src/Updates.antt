-- ===== src/Updates.antt =====
-- src/diag/updatechecker.cpp (UpdateChecker): the versions, the choice of a package, the check and the
-- listeners.
--   A listener is its token: `trace` records, newest first, which one is called with what. The reply of
-- the server, the lines of /etc/os-release and the times are arguments; nlohmann::json's parse and value
-- are those of Session.Values. What throws in the thread of a check ends the program, `none`.
pub mod Families
pub mod Listeners
pub mod Assets
pub mod Check
pub mod Agreement
pub mod Choice
pub mod Events
pub mod Silence
pub mod Tokens
mod Examples
use naleystogramm_core.Prelude.{
  ℕ, zero, suc, ◌-◌, Bool, true, false, not, ◌||◌, Option, none, some, List, [], ◌∷◌, ◌==◌, ◌!=◌,
  if◌then◌else◌,
}
use naleystogramm_core.Prelude.Text.{Text}
use naleystogramm_core.Prelude.Int.{ℤ, pos, sub_ℕ, ltb_ℤ}
use naleystogramm_core.Prelude.Scan.{split_first}
use naleystogramm_core.Prelude.Decimal.{is_digit, value, skip_space}

-- What stands behind the digits at the front.
unfoldable pub after_digits : Text → Text
after_digits [] = []
after_digits (c ∷ s) = let rest = after_digits s in if is_digit c then rest else c ∷ s

-- "%d" of sscanf: blanks, a sign, digits. C leaves open what an int too large becomes; here it is
-- the number itself.
unfoldable pub scan_digits : (neg : Bool) → Text → Option (ℤ × Text)
unfolding after_digits value
scan_digits neg [] = none
scan_digits neg (c ∷ s) =
    let n = value (c ∷ s) 0 in
    if is_digit c then some ((if neg then sub_ℕ 0 n else pos n), after_digits (c ∷ s)) else none

unfoldable pub scan_sign : Text → Option (ℤ × Text)
unfolding scan_digits
scan_sign [] = none
scan_sign (c ∷ s) =
    if c == b'-'
    then scan_digits true s
    else if c == b'+'
    then scan_digits false s
    else scan_digits false (c ∷ s)

unfoldable pub scan_int : Text → Option (ℤ × Text)
unfolding skip_space scan_sign
scan_int s = scan_sign (skip_space s)

-- "%d.%d.…" with so many conversions: the ones that succeed.
unfoldable pub scan_parts : ℕ → Text → List ℤ
unfolding scan_int
scan_parts zero s = []
scan_parts (suc k) s = elim (scan_int s) [
  | none ↦ []
  | some (z, rest) ↦
      z ∷ elim rest [ [] ↦ [] | c ∷ r ↦ elim (c == b'.') [ true ↦ scan_parts k r | false ↦ [] ] ]
]

unfoldable pub without_v : Text → Text
without_v [] = []
without_v (c ∷ s) = if c == b'v' || c == b'V' then s else c ∷ s

unfoldable pub before_dash : Text → Text
unfolding split_first
before_dash s = elim (split_first b'-' s) [ none ↦ s | some (a, b) ↦ a ]

unfoldable pub parse_semver : Text → List ℤ
unfolding scan_parts without_v before_dash
parse_semver v = scan_parts 4 (before_dash (without_v v))

-- The variable of a conversion, 0 where it is not reached.
abbrev pub part : List ℤ → ℕ → ℤ
part [] i = pos 0
part (z ∷ zs) zero = z
part (z ∷ zs) (suc i) = part zs i

abbrev pub differ : ℤ → ℤ → Bool
differ a b = ltb_ℤ a b || ltb_ℤ b a

unfoldable pub is_newer_version : (remote current : Text) → Bool
unfolding parse_semver
is_newer_version remote current =
    let r = parse_semver remote in
    let l = parse_semver current in
    if differ (part r 0) (part l 0)
    then ltb_ℤ (part l 0) (part r 0)
    else if differ (part r 1) (part l 1)
    then ltb_ℤ (part l 1) (part r 1)
    else if differ (part r 2) (part l 2)
    then ltb_ℤ (part l 2) (part r 2)
    else ltb_ℤ (part l 3) (part r 3)
