-- ===== src/Storage/Keys.antt =====
-- The key columns of the tables of src/storage/storage.cpp under DELETE and INSERT.
use naleystogramm_core.Prelude.{◌≡◌, refl, ap, List, [], ◌∷◌, ◌++◌, map, Bool-cases, inl, inr}
use naleystogramm_core.Prelude.Text.{Text, text_eq}
use naleystogramm_core.Storage.Sql.{where_rows, delete_rows, without}

module _ {A : Type 0} (k : A → Text) where
  pub map-delete_rows :
      (u : Text) (xs : List A)
      → map k (delete_rows (λ x. text_eq (k x) u) xs) ≡ without u (map k xs)
  unfolding delete_rows where_rows without
  map-delete_rows u [] = refl
  map-delete_rows u (x ∷ xs) = elim (Bool-cases (text_eq (k x) u)) [
    | inl e ↦ rw (e, map-delete_rows u xs) refl
    | inr e ↦ rw (e, map-delete_rows u xs) refl
  ]

  pub map-last : (xs : List A) (y : A) → map k (xs ++ y ∷ []) ≡ map k xs ++ k y ∷ []
  map-last [] y = refl
  map-last (x ∷ xs) y = ap (λ r. k x ∷ r) (map-last xs y)
