-- ===== src/Storage/Sql.antt =====
-- The statements of SQL that src/storage/storage.cpp writes, over a table as the list of its rows:
-- WHERE, UPDATE, DELETE, ORDER BY, LIMIT and OFFSET.
use naleystogramm_core.Prelude.{
  ◌≡◌, Bool, false, not, ◌&&◌, ◌||◌, List, [], ◌∷◌, ◌++◌, take, drop, arith, if◌then◌else◌,
}
use naleystogramm_core.Prelude.Int.{ℤ, pos, negsuc, pos_part}
use naleystogramm_core.Prelude.Text.{Text, text_eq, text_eq_iff}

module _ {ℓ} {A : Type ℓ} where
  -- A predicate on every row.
  abbrev pub All {κ} : (A → Type κ) → List A → Type κ
  All P [] = Unit
  All P (x ∷ xs) = P x × All P xs

  -- WHERE
  unfoldable pub where_rows : (A → Bool) → List A → List A
  where_rows p [] = []
  where_rows p (x ∷ xs) = let rest = where_rows p xs in if p x then x ∷ rest else rest

  -- DELETE … WHERE
  unfoldable pub delete_rows : (A → Bool) → List A → List A
  unfolding where_rows
  delete_rows p xs = where_rows (λ x. not (p x)) xs

  -- UPDATE … SET … WHERE
  unfoldable pub update_rows : (A → Bool) → (A → A) → List A → List A
  update_rows p f [] = []
  update_rows p f (x ∷ xs) = (if p x then f x else x) ∷ update_rows p f xs

  -- The first row of a query.
  unfoldable pub first_row {κ} : {B : Type κ} → B → (A → B) → List A → B
  first_row d f [] = d
  first_row d f (x ∷ xs) = f x

  -- ORDER BY, where `before` is the strict order of the rows; rows that it leaves together, the
  -- order of which SQL leaves open, keep the order of the table.
  unfoldable pub insert_row : (A → A → Bool) → A → List A → List A
  insert_row before x [] = x ∷ []
  insert_row before x (y ∷ ys) = if before y x then y ∷ insert_row before x ys else x ∷ y ∷ ys

  unfoldable pub order_by : (A → A → Bool) → List A → List A
  unfolding insert_row
  order_by before [] = []
  order_by before (x ∷ xs) = insert_row before x (order_by before xs)

  -- LIMIT; one below 0 is none.
  unfoldable pub limit_rows : ℤ → List A → List A
  limit_rows (pos n) xs = take n xs
  limit_rows (negsuc n) xs = xs

  -- LIMIT … OFFSET; an offset below 0 is 0.
  unfoldable pub page : (limit offset : ℤ) → List A → List A
  unfolding limit_rows
  page limit offset xs = limit_rows limit (drop (pos_part offset) xs)

  unfoldable pub reversed : List A → List A
  reversed [] = []
  reversed (x ∷ xs) = reversed xs ++ x ∷ []

-- A value of a key column, and the keys that are left without one.
unfoldable pub contains : Text → List Text → Bool
contains k [] = false
contains k (j ∷ js) = text_eq j k || contains k js

unfoldable pub without : Text → List Text → List Text
without k [] = []
without k (j ∷ js) = let rest = without k js in if text_eq j k then rest else j ∷ rest

-- What SQLite documents of the constraints of migrate's CREATE TABLE. PRIMARY KEY: an INSERT of a key
-- that is there fails.
abbrev pub is_new : Text → List Text → Bool
is_new k keys = not (contains k keys)

-- FOREIGN KEY, which is enforced while foreign_keys is on: an INSERT of a reference to a key that is not
-- there fails, and so does a DELETE of a key that is referred to.
abbrev pub has_parent : (foreign_keys : Bool) → Text → List Text → Bool
has_parent on k keys = contains k keys || not on

abbrev pub is_unreferenced : (foreign_keys : Bool) → Text → List Text → Bool
is_unreferenced on k references = not (contains k references && on)

pub contains-without :
    (k j : Text) (ks : List Text)
    → contains j (without k ks) ≡ (if text_eq k j then false else contains j ks)
unfolding contains without
contains-without k j [] = ground arith
contains-without k j (i ∷ ks) =
    ground (arith, contains-without k j ks, text_eq_iff i k, text_eq_iff i j, text_eq_iff k j)

-- A key added at the end.
pub contains-last :
    (k j : Text) (ks : List Text) → contains j (ks ++ k ∷ []) ≡ (contains j ks || text_eq k j)
unfolding contains
contains-last k j [] = ground arith
contains-last k j (i ∷ ks) = ground (arith, contains-last k j ks)
