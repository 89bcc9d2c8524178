-- ===== src/Storage/Upgrade.antt =====
-- What migrate makes of a schema (src/storage/storage.cpp).
use mathlib.Core.Bool.{false≢true}
use naleystogramm_core.Prelude.{
  ◌≡◌, refl, ap, sym, ◌∙◌, ◌⊎◌, true, false, none, Option-cases, List, [], ◌∷◌, ◌++◌, arith,
  Bool-cases, inl, inr,
}
use naleystogramm_core.Prelude.Text.{Text, text_eq, text_eq_iff, text_eq_refl}
use naleystogramm_core.Prelude.Map.{get, put, get-put, get-put_self}
use naleystogramm_core.Storage.Sql.{All, contains, contains-last}
use naleystogramm_core.Storage.Schema.{
  Schema, has_column, has_column_of, create_table, add_col, add_cols,
}

-- Every column of a list is in the table.
abbrev pub HasAll : Schema → Text → List Text → Type 0
HasAll s table cols = All (λ c. has_column s table c ≡ true) cols

-- A table that is created is new, or is left as it is.
pub has_column-create_table :
    (t u c : Text) (cols : List Text) (s : Schema)
    → has_column s u c ≡ true
    → has_column (create_table t cols s) u c ≡ true
unfolding has_column create_table
has_column-create_table t u c cols s h = elim (Option-cases (get t s)) [
  | inr (old, e) ↦ rw e h
  | inl e ↦ rw e (elim (Bool-cases (text_eq t u)) [
    | inl same ↦ absurd (ground (arith, ap (λ k. get k s) ((text_eq_iff t u).0 same)))
    | inr other ↦ ground (arith, get-put t u cols s)
  ])
]

has_column-add_col :
    (t u c d : Text) (s : Schema) → has_column s u c ≡ true → has_column (add_col t d s) u c ≡ true
unfolding has_column add_col
has_column-add_col t u c d s h = elim (Bool-cases (has_column s t d)) [
  | inl e ↦ rw e h
  | inr e ↦ rw e (elim (Option-cases (get t s)) [
    | inl none_there ↦ rw none_there h
    | inr (old, there) ↦ rw there (elim (Bool-cases (text_eq t u)) [
      | inl same ↦ ground (
        arith,
        get-put t u (old ++ d ∷ []) s,
        ap (λ k. get k s) ((text_eq_iff t u).0 same),
        contains-last d c old,
      )
      | inr other ↦ ground (arith, get-put t u (old ++ d ∷ []) s)
    ])
  ])
]

pub has_column-add_cols :
    (t u c : Text) (ds : List Text) (s : Schema)
    → has_column s u c ≡ true
    → has_column (add_cols t ds s) u c ≡ true
unfolding add_cols
has_column-add_cols t u c [] s h = h
has_column-add_cols t u c (d ∷ ds) s h =
    has_column-add_cols t u c ds (add_col t d s) (has_column-add_col t u c d s h)

-- A column that is added to a table that is there, which has some column.
added_col :
    (t c d : Text) (s : Schema) → has_column s t c ≡ true → has_column (add_col t d s) t d ≡ true
unfolding has_column add_col
added_col t c d s h = elim (Bool-cases (has_column s t d)) [
  | inl e ↦ rw e e
  | inr e ↦ rw e (elim (Option-cases (get t s)) [
    | inl none_there ↦ absurd (false≢true (ap (λ o. has_column_of o c) (sym none_there) ∙ h))
    | inr (old, there) ↦
        rw there
          (ground (arith, get-put_self t (old ++ d ∷ []) s, contains-last d d old, text_eq_refl d))
  ])
]

pub added_cols :
    (t c : Text) (ds : List Text) (s : Schema)
    → has_column s t c ≡ true
    → HasAll (add_cols t ds s) t ds
unfolding add_cols
added_cols t c [] s h = tt
added_cols t c (d ∷ ds) s h = (
  has_column-add_cols t t d ds (add_col t d s) (added_col t c d s h),
  added_cols t c ds (add_col t d s) (has_column-add_col t t c d s h),
)

-- A table that is not there, or has the columns that it is created with.
abbrev pub Base : Schema → Text → List Text → Type 0
Base s t cols = (get t s ≡ none) ⊎ HasAll s t cols

longer :
    (d : Text) (cs ks : List Text)
    → All (λ c. contains c ks ≡ true) cs
    → All (λ c. contains c (d ∷ ks) ≡ true) cs
unfolding contains
longer d [] ks h = tt
longer d (c ∷ cs) ks h = (ground arith, longer d cs ks h.1)

contains_own : (cs : List Text) → All (λ c. contains c cs ≡ true) cs
unfolding contains
contains_own [] = tt
contains_own (c ∷ cs) = (ground (arith, text_eq_refl c), longer c cs cs (contains_own cs))

put-HasAll :
    (t : Text) (cs ks : List Text) (s : Schema)
    → All (λ c. contains c ks ≡ true) cs
    → HasAll (put t ks s) t cs
unfolding has_column
put-HasAll t [] ks s h = tt
put-HasAll t (c ∷ cs) ks s h = (rw (get-put_self t ks s) h.0, put-HasAll t cs ks s h.1)

pub create_table-HasAll :
    (t : Text) (cols : List Text) (s : Schema)
    → Base s t cols
    → HasAll (create_table t cols s) t cols
unfolding create_table
create_table-HasAll t cols s (inl e) = rw e (put-HasAll t cols cols s (contains_own cols))
create_table-HasAll t cols s (inr h) = elim (Option-cases (get t s)) [
  | inl e ↦ rw e (put-HasAll t cols cols s (contains_own cols))
  | inr (old, e) ↦ rw e h
]

-- The other tables are left.
pub get-create_table :
    (t u : Text) (cols : List Text) (s : Schema)
    → text_eq t u ≡ false
    → get u (create_table t cols s) ≡ get u s
unfolding create_table
get-create_table t u cols s h = elim (Option-cases (get t s)) [
  | inl e ↦ rw e (ground (arith, get-put t u cols s))
  | inr (old, e) ↦ rw e refl
]

get-add_col : (t u d : Text) (s : Schema) → text_eq t u ≡ false → get u (add_col t d s) ≡ get u s
unfolding add_col
get-add_col t u d s h = elim (Bool-cases (has_column s t d)) [
  | inl e ↦ rw e refl
  | inr e ↦ rw e (elim (Option-cases (get t s)) [
    | inl f ↦ rw f refl
    | inr (old, f) ↦ rw f (ground (arith, get-put t u (old ++ d ∷ []) s))
  ])
]

pub get-add_cols :
    (t u : Text) (ds : List Text) (s : Schema)
    → text_eq t u ≡ false
    → get u (add_cols t ds s) ≡ get u s
unfolding add_cols
get-add_cols t u [] s h = refl
get-add_cols t u (d ∷ ds) s h = get-add_cols t u ds (add_col t d s) h ∙ get-add_col t u d s h

pub Base-of_get :
    (u : Text) (cols : List Text) (s s' : Schema)
    → get u s' ≡ get u s
    → Base s u cols
    → Base s' u cols
Base-of_get u cols s s' e (inl h) = inl (e ∙ h)
Base-of_get u cols s s' e (inr h) = inr (same cols h)
  where
    same : (cs : List Text) → HasAll s u cs → HasAll s' u cs
    same [] k = tt
    same (c ∷ cs) k = (unfold has_column in ap (λ o. has_column_of o c) e ∙ k.0, same cs k.1)

-- A table that has its columns is left by what would create it or add them.
pub create_table_again :
    (t c : Text) (cols : List Text) (s : Schema)
    → has_column s t c ≡ true
    → create_table t cols s ≡ s
unfolding create_table has_column
create_table_again t c cols s h = elim (Option-cases (get t s)) [
  | inl e ↦ absurd (false≢true (ap (λ o. has_column_of o c) (sym e) ∙ h))
  | inr (old, e) ↦ rw e refl
]

pub add_cols_again : (t : Text) (ds : List Text) (s : Schema) → HasAll s t ds → add_cols t ds s ≡ s
unfolding add_cols add_col
add_cols_again t [] s h = refl
add_cols_again t (d ∷ ds) s h = rw h.0 (add_cols_again t ds s h.1)
