-- ===== src/Version.antt =====
-- include/naleystogramm-core/diag/versionutils.h: versions "major.minor.patch[.hotfix]".
pub mod Order
pub mod Hotfix
mod Examples
use naleystogramm_core.Prelude.{
  ℕ, Bool, true, false, Option, none, some, List, [], ◌∷◌, ◌++◌, ◌==◌, if◌then◌else◌,
}
use naleystogramm_core.Prelude.Text.{Text, codes}
use naleystogramm_core.Prelude.Int.{ℤ, pos, negsuc, ltb_ℤ}
use naleystogramm_core.Prelude.Decimal.{stoi}

-- What std::getline with the delimiter '.' reads; `tok` is what it holds so far. At the end of the
-- text a token is handed out only if it has a byte.
tokens : Text → (tok : Text) → List Text
tokens [] [] = []
tokens [] (c ∷ tok) = (c ∷ tok) ∷ []
tokens (c ∷ s) tok = elim (c == b'.') [
  | true ↦ tok ∷ tokens s []
  | false ↦ tokens s (tok ++ c ∷ [])
]

-- The catch clause: a token that stoi refuses counts as 0.
or_zero : Option ℤ → ℤ
or_zero none = pos 0
or_zero (some n) = n

numbers : List Text → List ℤ
unfolding or_zero
numbers [] = []
numbers (tok ∷ toks) = or_zero (stoi tok) ∷ numbers toks

pub parts : Text → List ℤ
unfolding tokens numbers
parts v = numbers (tokens v [])

-- The loop over the parts; the one that runs out first is continued by zeros.
unfoldable pub compare_parts : List ℤ → List ℤ → ℤ
compare_parts [] [] = pos 0
compare_parts (a ∷ p) [] =
    let rest = compare_parts p [] in
    if ltb_ℤ a (pos 0) then negsuc 0 else if ltb_ℤ (pos 0) a then pos 1 else rest
compare_parts [] (b ∷ q) =
    let rest = compare_parts [] q in
    if ltb_ℤ (pos 0) b then negsuc 0 else if ltb_ℤ b (pos 0) then pos 1 else rest
compare_parts (a ∷ p) (b ∷ q) =
    let rest = compare_parts p q in
    if ltb_ℤ a b then negsuc 0 else if ltb_ℤ b a then pos 1 else rest

unfoldable pub compare : Text → Text → ℤ
unfolding parts compare_parts
compare v w = compare_parts (parts v) (parts w)

unfoldable pub is_newer_than : Text → Text → Bool
unfolding compare
is_newer_than v w = ltb_ℤ (pos 0) (compare v w)

pub normalize : Text → Text
normalize [] = codes "0.1.0"
normalize (c ∷ v) = c ∷ v
