-- ===== src/Storage/Order.antt =====
-- ORDER BY on a table whose rows stand in the order that is asked for, or in the opposite one.
use naleystogramm_core.Prelude.{
  ℕ, zero, suc, ◌+◌, ◌≡◌, refl, ap, sym, ◌∙◌, Bool, true, List, [], ◌∷◌, ◌++◌, append-nil,
  append_assoc, take, drop, arith, Bool-cases, inl, inr,
}
use native.Mathlib.Nat.{zero-add}
use naleystogramm_core.Storage.Sql.{All, where_rows, insert_row, order_by, reversed}

module _ {ℓ} {A : Type ℓ} where
  -- Every row comes before all that follow it.
  abbrev pub Ordered : (A → A → Bool) → List A → Type 0
  Ordered before [] = Unit
  Ordered before (x ∷ xs) = All (λ y. before x y ≡ true) xs × Ordered before xs

  abbrev pub opposite : (A → A → Bool) → A → A → Bool
  opposite before x y = before y x

  pub All-append : (P : A → Type 0) (xs : List A) (y : A) → All P xs → P y → All P (xs ++ y ∷ [])
  All-append P [] y h p = (p, tt)
  All-append P (x ∷ xs) y h p = (h.0, All-append P xs y h.1 p)

  All-reversed : (P : A → Type 0) (xs : List A) → All P xs → All P (reversed xs)
  unfolding reversed
  All-reversed P [] h = tt
  All-reversed P (x ∷ xs) h = All-append P (reversed xs) x (All-reversed P xs h.1) h.0

  insert_row_last :
      (before : A → A → Bool) (x : A) (ys : List A)
      → All (λ y. before y x ≡ true) ys
      → insert_row before x ys ≡ ys ++ x ∷ []
  unfolding insert_row
  insert_row_last before x [] h = refl
  insert_row_last before x (y ∷ ys) h = rw h.0 (ap (λ r. y ∷ r) (insert_row_last before x ys h.1))

  -- A table in the opposite order is turned round.
  pub order_by-eq-reversed :
      (before : A → A → Bool) (xs : List A)
      → Ordered (opposite before) xs
      → order_by before xs ≡ reversed xs
  unfolding order_by reversed
  order_by-eq-reversed before [] h = refl
  order_by-eq-reversed before (x ∷ xs) h =
      ap (insert_row before x) (order_by-eq-reversed before xs h.1)
      ∙ insert_row_last before x (reversed xs) (All-reversed (λ y. before y x ≡ true) xs h.0)

  pub append-Ordered :
      (before : A → A → Bool) (xs : List A) (y : A)
      → Ordered before xs
      → All (λ x. before x y ≡ true) xs
      → Ordered before (xs ++ y ∷ [])
  append-Ordered before [] y o h = (tt, tt)
  append-Ordered before (x ∷ xs) y o h =
      (All-append (λ z. before x z ≡ true) xs y o.0 h.0, append-Ordered before xs y o.1 h.1)

  pub reversed-Ordered :
      (before : A → A → Bool) (xs : List A)
      → Ordered before xs
      → Ordered (opposite before) (reversed xs)
  unfolding reversed
  reversed-Ordered before [] h = tt
  reversed-Ordered before (x ∷ xs) h =
      append-Ordered (opposite before) (reversed xs) x (reversed-Ordered before xs h.1)
        (All-reversed (λ y. before x y ≡ true) xs h.0)

  All-take : (P : A → Type 0) (n : ℕ) (xs : List A) → All P xs → All P (take n xs)
  All-take P zero xs h = tt
  All-take P (suc n) [] h = tt
  All-take P (suc n) (x ∷ xs) h = (h.0, All-take P n xs h.1)

  pub take-Ordered :
      (before : A → A → Bool) (n : ℕ) (xs : List A) → Ordered before xs → Ordered before (take n xs)
  take-Ordered before zero xs h = tt
  take-Ordered before (suc n) [] h = tt
  take-Ordered before (suc n) (x ∷ xs) h =
      (All-take (λ y. before x y ≡ true) n xs h.0, take-Ordered before n xs h.1)

  pub drop-Ordered :
      (before : A → A → Bool) (n : ℕ) (xs : List A) → Ordered before xs → Ordered before (drop n xs)
  drop-Ordered before zero xs h = h
  drop-Ordered before (suc n) [] h = tt
  drop-Ordered before (suc n) (x ∷ xs) h = drop-Ordered before n xs h.1

  pub All-where_rows :
      (P : A → Type 0) (p : A → Bool) (xs : List A) → All P xs → All P (where_rows p xs)
  unfolding where_rows
  All-where_rows P p [] h = tt
  All-where_rows P p (x ∷ xs) h = elim (Bool-cases (p x)) [
    | inl e ↦ rw e (h.0, All-where_rows P p xs h.1)
    | inr e ↦ rw e (All-where_rows P p xs h.1)
  ]

  pub where_rows-Ordered :
      (before : A → A → Bool) (p : A → Bool) (xs : List A)
      → Ordered before xs
      → Ordered before (where_rows p xs)
  unfolding where_rows
  where_rows-Ordered before p [] h = tt
  where_rows-Ordered before p (x ∷ xs) h = elim (Bool-cases (p x)) [
    | inl e ↦
        rw e (All-where_rows (λ y. before x y ≡ true) p xs h.0, where_rows-Ordered before p xs h.1)
    | inr e ↦ rw e (where_rows-Ordered before p xs h.1)
  ]

  pub reversed-append : (xs ys : List A) → reversed (xs ++ ys) ≡ reversed ys ++ reversed xs
  unfolding reversed
  reversed-append [] ys = sym (append-nil (reversed ys))
  reversed-append (x ∷ xs) ys =
      ap (λ r. r ++ x ∷ []) (reversed-append xs ys)
      ∙ append_assoc (reversed ys) (reversed xs) (x ∷ [])

  pub reversed-reversed : (xs : List A) → reversed (reversed xs) ≡ xs
  unfolding reversed
  reversed-reversed [] = refl
  reversed-reversed (x ∷ xs) =
      reversed-append (reversed xs) (x ∷ []) ∙ ap (λ r. x ∷ r) (reversed-reversed xs)

  pub take-nil : (n : ℕ) → take {A = A} n [] ≡ []
  take-nil zero = refl
  take-nil (suc n) = refl

  pub take-add : (a b : ℕ) (xs : List A) → take (a + b) xs ≡ take a xs ++ take b (drop a xs)
  take-add zero b xs = rw (zero-add b) refl
  take-add (suc a) b [] = take-nil (suc a + b) ∙ sym (take-nil b)
  take-add (suc a) b (x ∷ xs) =
      let e : suc a + b ≡ suc (a + b) = omega arith in rw e (ap (λ r. x ∷ r) (take-add a b xs))

  pub where_rows-append :
      (p : A → Bool) (xs ys : List A) → where_rows p (xs ++ ys) ≡ where_rows p xs ++ where_rows p ys
  unfolding where_rows
  where_rows-append p [] ys = refl
  where_rows-append p (x ∷ xs) ys = elim (Bool-cases (p x)) [
    | inl e ↦ rw e (ap (λ r. x ∷ r) (where_rows-append p xs ys))
    | inr e ↦ rw e (where_rows-append p xs ys)
  ]
