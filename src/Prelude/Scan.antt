-- ===== src/Prelude/Scan.antt =====
-- find, rfind, substr and trimming on std::string.
use Prim.Native.Nat.{ℕ}
use mathlib.Core.Path.{◌≡◌, refl}
use mathlib.Core.Bool.{Bool, true, not, ◌||◌}
use mathlib.Core.Option.{Option, none, some}
use mathlib.Core.List.{[], ◌∷◌, ◌++◌}
use native.Mathlib.Omega.{arith}
use naleystogramm_core.Prelude.Tests.{◌==◌, ◌!=◌, if◌then◌else◌}
use naleystogramm_core.Prelude.Text.{Text, all_bytes}

-- The parts before and behind the first byte c: find, and substr twice.
unfoldable pub split_first : ℕ → Text → Option (Text × Text)
split_first c [] = none
split_first c (x ∷ s) =
    let rest = split_first c s in
    if x == c then some ([], s) else elim rest [ none ↦ none | some (a, b) ↦ some (x ∷ a, b) ]

-- The same for the last byte c: rfind.
unfoldable pub split_last : ℕ → Text → Option (Text × Text)
split_last c [] = none
split_last c (x ∷ s) = elim (split_last c s) [
  | some (a, b) ↦ some (x ∷ a, b)
  | none ↦ if x == c then some ([], s) else none
]

abbrev pub lacks : ℕ → Text → Bool
lacks c = all_bytes (λ x. x != c)

pub split_first-append :
    (c : ℕ) (a b : Text) → lacks c a ≡ true → split_first c (a ++ c ∷ b) ≡ some (a, b)
unfolding split_first
split_first-append c [] b h = ground arith
split_first-append c (x ∷ a) b h = ground (arith, split_first-append c a b)

pub split_first-lacks : (c : ℕ) (s : Text) → lacks c s ≡ true → split_first c s ≡ none
unfolding split_first
split_first-lacks c [] h = refl
split_first-lacks c (x ∷ s) h = ground (arith, split_first-lacks c s)

pub split_last-lacks : (c : ℕ) (s : Text) → lacks c s ≡ true → split_last c s ≡ none
unfolding split_last
split_last-lacks c [] h = refl
split_last-lacks c (x ∷ s) h = ground (arith, split_last-lacks c s)

pub split_last-append :
    (c : ℕ) (a b : Text) → lacks c b ≡ true → split_last c (a ++ c ∷ b) ≡ some (a, b)
unfolding split_last
split_last-append c [] b h = ground (arith, split_last-lacks c b)
split_last-append c (x ∷ a) b h = ground (arith, split_last-append c a b)

-- " \t\r\n"
abbrev pub is_blank : ℕ → Bool
is_blank c = c == 32 || c == 9 || c == 13 || c == 10

abbrev trim_start : Text → Text
trim_start [] = []
trim_start (c ∷ s) = let rest = trim_start s in if is_blank c then rest else c ∷ s

abbrev push_front : ℕ → Text → Text
push_front c [] = if is_blank c then [] else c ∷ []
push_front c (d ∷ t) = c ∷ d ∷ t

abbrev trim_end : Text → Text
trim_end [] = []
trim_end (c ∷ s) = push_front c (trim_end s)

-- find_first_not_of, find_last_not_of and substr between them.
unfoldable pub trim : Text → Text
trim s = trim_end (trim_start s)

trim_end_idem : (s : Text) → trim_end (trim_end s) ≡ trim_end s
trim_end_idem [] = refl
trim_end_idem (c ∷ s) = ground (arith, trim_end_idem s)

starts_inked : Text → Bool
starts_inked [] = true
starts_inked (c ∷ s) = not (is_blank c)

trim_start-inked : (s : Text) → starts_inked (trim_start s) ≡ true
unfolding starts_inked
trim_start-inked [] = refl
trim_start-inked (c ∷ s) = ground (arith, trim_start-inked s)

trim_end-inked : (s : Text) → starts_inked s ≡ true → starts_inked (trim_end s) ≡ true
unfolding starts_inked
trim_end-inked [] h = refl
trim_end-inked (c ∷ s) h = ground arith

trim_start_of_inked : (s : Text) → starts_inked s ≡ true → trim_start s ≡ s
unfolding starts_inked
trim_start_of_inked [] h = refl
trim_start_of_inked (c ∷ s) h = ground arith

-- Trimming twice is trimming once.
pub trim_idem : (s : Text) → trim (trim s) ≡ trim s
unfolding trim
trim_idem s =
    rw (trim_start_of_inked (trim_end (trim_start s)) (trim_end-inked _ (trim_start-inked s)))
      (trim_end_idem (trim_start s))
