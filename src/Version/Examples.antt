-- ===== src/Version/Examples.antt =====
-- Versions (include/naleystogramm-core/diag/versionutils.h) on concrete input.
use naleystogramm_core.Prelude.{◌≡◌, refl, [], ◌∷◌, arith}
use naleystogramm_core.Prelude.Text.{codes}
use naleystogramm_core.Prelude.Int.{pos, negsuc}
use naleystogramm_core.Prelude.Decimal.{stoi}
use naleystogramm_core.Version.{compare}
use naleystogramm_core.Version.Hotfix.{render, hotfix_order}

minimum : compare (codes "0.8.1") (codes "0.8.1.1") ≡ negsuc 0
unfolding compare stoi
minimum = refl

garbage : compare (codes "x.8") (codes "0.8") ≡ pos 0
unfolding compare stoi
garbage = refl

hotfix_order_example : compare (render 0 (8 ∷ 1 ∷ 1 ∷ [])) (render 0 (8 ∷ 1 ∷ [])) ≡ pos 1
hotfix_order_example =
    (hotfix_order 0 (8 ∷ []) 1 1 (omega arith) (omega arith) (omega arith) (omega arith)).0
