-- ===== src/Version/Order.antt =====
-- VersionUtils::compare (include/naleystogramm-core/diag/versionutils.h) orders the versions.
use naleystogramm_core.Prelude.{◌≡◌, refl, ◌⊎◌, true, false, List, [], ◌∷◌, arith}
use naleystogramm_core.Prelude.Text.{Text}
use naleystogramm_core.Prelude.Int.{ℤ, pos, negsuc, negate}
use naleystogramm_core.Version.{compare_parts, compare, parts, is_newer_than}

flip : (p q : List ℤ) → compare_parts q p ≡ negate (compare_parts p q)
unfolding compare_parts
flip [] [] = refl
flip (a ∷ p) [] = ground (arith, flip p [])
flip [] (b ∷ q) = ground (arith, flip [] q)
flip (a ∷ p) (b ∷ q) = ground (arith, flip p q)

-- Comparing in the other order gives the opposite sign.
pub compare_flip : (v w : Text) → compare w v ≡ negate (compare v w)
unfolding compare
compare_flip v w = flip (parts v) (parts w)

-- p is not newer than q.
abbrev Le : List ℤ → List ℤ → Type 0
Le p q = (compare_parts p q ≡ negsuc 0) ⊎ (compare_parts p q ≡ pos 0)

trans : (p q r : List ℤ) → Le p q → Le q r → Le p r
unfolding compare_parts
trans [] [] [] h k = ground arith
trans [] [] (c ∷ r) h k = ground (arith, trans [] [] r)
trans [] (b ∷ q) [] h k = ground (arith, trans [] q [])
trans [] (b ∷ q) (c ∷ r) h k = ground (arith, trans [] q r)
trans (a ∷ p) [] [] h k = ground (arith, trans p [] [])
trans (a ∷ p) [] (c ∷ r) h k = ground (arith, trans p [] r)
trans (a ∷ p) (b ∷ q) [] h k = ground (arith, trans p q [])
trans (a ∷ p) (b ∷ q) (c ∷ r) h k = ground (arith, trans p q r)

strict :
    (p q r : List ℤ)
    → compare_parts p q ≡ pos 1
    → compare_parts q r ≡ pos 1
    → compare_parts p r ≡ pos 1
unfolding compare_parts
strict [] [] r h k = cc
strict [] (b ∷ q) [] h k = ground (arith, strict [] q [])
strict [] (b ∷ q) (c ∷ r) h k = ground (arith, strict [] q r)
strict (a ∷ p) [] [] h k = cc
strict (a ∷ p) [] (c ∷ r) h k = ground (arith, strict p [] r)
strict (a ∷ p) (b ∷ q) [] h k = ground (arith, strict p q [])
strict (a ∷ p) (b ∷ q) (c ∷ r) h k = ground (arith, strict p q r)

sign : (p q : List ℤ) → Le p q ⊎ (compare_parts p q ≡ pos 1)
unfolding compare_parts
sign [] [] = ground arith
sign (a ∷ p) [] = ground (arith, sign p [])
sign [] (b ∷ q) = ground (arith, sign [] q)
sign (a ∷ p) (b ∷ q) = ground (arith, sign p q)

self : (p : List ℤ) → compare_parts p p ≡ pos 0
unfolding compare_parts
self [] = refl
self (a ∷ p) = ground (arith, self p)

-- isNewerThan is a strict weak order on all strings: no version is newer than itself, newer is
-- transitive, and so is not being newer.
pub is_newer_than_order :
    (u v w : Text)
    → (is_newer_than v v ≡ false)
      × (is_newer_than u v ≡ true → is_newer_than v w ≡ true → is_newer_than u w ≡ true)
      × (is_newer_than u v ≡ false → is_newer_than v w ≡ false → is_newer_than u w ≡ false)
unfolding is_newer_than
is_newer_than_order u v w = (
  ground (arith, self (parts v)),
  λ h k. ground (
    arith,
    sign (parts u) (parts v),
    sign (parts v) (parts w),
    strict (parts u) (parts v) (parts w),
  ),
  λ h k. ground (
    arith,
    sign (parts u) (parts v),
    sign (parts v) (parts w),
    trans (parts u) (parts v) (parts w),
  ),
)
