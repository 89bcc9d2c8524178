-- ===== src/Network/Framing.antt =====
-- The framing of src/net/network.cpp does not depend on how the bytes arrive.
use mathlib.Core.List.{append_assoc}
use naleystogramm_core.Prelude.{
  ℕ, zero, suc, ◌≤◌, ◌<◌, ◌≡◌, refl, sym, ap, ◌∙◌, true, Option, none, some, List, [], ◌∷◌, ◌++◌,
  length, arith, inl, inr, Option-cases,
}
use naleystogramm_core.Prelude.Text.{Text}
use naleystogramm_core.Prelude.Scan.{split_first, lacks, split_first-append}
use naleystogramm_core.Network.{max_frame_size, take_frame, before, go_on, frames, try_parse_frames}

shorter : (x raw rest : Text) → split_first b'\n' x ≡ some (raw, rest) → length rest < length x
unfolding split_first
shorter [] raw rest h = cc
shorter (c ∷ x) raw rest h = elim (Option-cases (split_first b'\n' x)) [
  | inl e ↦ ground arith
  | inr ((p, q), e) ↦ ground (arith, shorter x p q e)
]

extend :
    (x y raw rest : Text)
    → split_first b'\n' x ≡ some (raw, rest)
    → split_first b'\n' (x ++ y) ≡ some (raw, rest ++ y)
unfolding split_first
extend [] y raw rest h = cc
extend (c ∷ x) y raw rest h = elim (Option-cases (split_first b'\n' x)) [
  | inl e ↦ ground arith
  | inr ((p, q), e) ↦ ground (arith, extend x y p q e)
]

none-lacks : (x : Text) → split_first b'\n' x ≡ none → lacks b'\n' x ≡ true
unfolding split_first
none-lacks [] h = refl
none-lacks (c ∷ x) h = elim (Option-cases (split_first b'\n' x)) [
  | inl e ↦ ground (arith, none-lacks x e)
  | inr ((p, q), e) ↦ ground (arith, e)
]

module _ {J : Type 0} (parse : Text → Option J) where
  -- Any fuel that reaches the length gives the same.
  frames_fuel :
      (n m : ℕ) (x : Text) → length x ≤ n → length x ≤ m → frames parse n x ≡ frames parse m x
  unfolding frames go_on split_first
  frames_fuel zero zero x p q = refl
  frames_fuel zero (suc m) [] p q = refl
  frames_fuel zero (suc m) (c ∷ x) p q = absurd (omega arith)
  frames_fuel (suc n) zero [] p q = refl
  frames_fuel (suc n) zero (c ∷ x) p q = absurd (omega arith)
  frames_fuel (suc n) (suc m) x p q = elim (Option-cases (split_first b'\n' x)) [
    | inl e ↦ rw e refl
    | inr ((raw, rest), e) ↦ rw e (
        ap (before (take_frame parse raw)) (
          frames_fuel n m rest (omega (arith, shorter x raw rest e))
            (omega (arith, shorter x raw rest e))))
  ]

  parse_none : (x : Text) → split_first b'\n' x ≡ none → try_parse_frames parse x ≡ ([], x)
  unfolding try_parse_frames frames go_on
  parse_none [] e = refl
  parse_none (c ∷ x) e = rw e refl

  parse_some :
      (x raw rest : Text)
      → split_first b'\n' x ≡ some (raw, rest)
      → try_parse_frames parse x ≡ before (take_frame parse raw) (try_parse_frames parse rest)
  unfolding try_parse_frames frames go_on
  parse_some [] raw rest e = absurd (omega (arith, shorter [] raw rest e))
  parse_some (c ∷ x) raw rest e =
      let k = shorter (c ∷ x) raw rest e in
      rw e (
        ap (before (take_frame parse raw))
          (frames_fuel (length x) (length rest) rest (omega (arith, k)) (omega arith)))

  -- Going on with more bytes.
  abbrev pub and_then : List J × Text → Text → List J × Text
  and_then (fs, rest) y = before fs (try_parse_frames parse (rest ++ y))

  before_twice :
      (fs gs : List J) (r : List J × Text) → before fs (before gs r) ≡ before (fs ++ gs) r
  before_twice fs gs (hs, rest) = ap (λ l. (l, rest)) (sym (append_assoc fs gs hs))

  frames_append :
      (n : ℕ) (x y : Text)
      → length x ≤ n
      → try_parse_frames parse (x ++ y) ≡ and_then (try_parse_frames parse x) y
  unfolding try_parse_frames frames
  frames_append zero [] y h = refl
  frames_append zero (c ∷ x) y h = absurd (omega arith)
  frames_append (suc n) x y h = elim (Option-cases (split_first b'\n' x)) [
    | inl e ↦ rw (parse_none x e) refl
    | inr ((raw, rest), e) ↦
        parse_some (x ++ y) raw (rest ++ y) (extend x y raw rest e)
        ∙ ap (before (take_frame parse raw))
            (frames_append n rest y (omega (arith, shorter x raw rest e)))
        ∙ before_twice (take_frame parse raw) (try_parse_frames parse rest).0
            (try_parse_frames parse ((try_parse_frames parse rest).1 ++ y))
        ∙ sym (ap (λ r. and_then r y) (parse_some x raw rest e))
  ]

  rest-lacks : (n : ℕ) (x : Text) → length x ≤ n → lacks b'\n' (try_parse_frames parse x).1 ≡ true
  unfolding try_parse_frames frames
  rest-lacks zero [] h = refl
  rest-lacks zero (c ∷ x) h = absurd (omega arith)
  rest-lacks (suc n) x h = elim (Option-cases (split_first b'\n' x)) [
    | inl e ↦ ap (λ r. lacks b'\n' r.1) (parse_none x e) ∙ none-lacks x e
    | inr ((raw, rest), e) ↦
        ap (λ r. lacks b'\n' r.1) (parse_some x raw rest e)
        ∙ rest-lacks n rest (omega (arith, shorter x raw rest e))
  ]

  -- However TCP cuts the bytes: reading `x` and then `y` handles the frames of `x ++ y`, in their
  -- order, and leaves the same in the buffer, which holds no newline; and a line of at most 1 MiB that
  -- parses to an object is handled, followed by the frames of what comes behind it.
  pub try_parse_frames_append :
      (x y line rest : Text) (j : J)
      → (try_parse_frames parse (x ++ y) ≡ and_then (try_parse_frames parse x) y)
        × (lacks b'\n' (try_parse_frames parse x).1 ≡ true)
        × (lacks b'\n' line ≡ true
            → length line ≤ max_frame_size
            → parse line ≡ some j
            → try_parse_frames parse (line ++ b'\n' ∷ rest)
              ≡ before (j ∷ []) (try_parse_frames parse rest))
  unfolding take_frame
  try_parse_frames_append x y line rest j = (
    frames_append (length x) x y (omega arith),
    rest-lacks (length x) x (omega arith),
    λ l k e.
        parse_some (line ++ b'\n' ∷ rest) line rest (split_first-append b'\n' line rest l)
        ∙ ap (λ f. before f (try_parse_frames parse rest)) (taken k e),
  )
    where
      taken : length line ≤ max_frame_size → parse line ≡ some j → take_frame parse line ≡ j ∷ []
      taken k e = rw e (ground arith)
