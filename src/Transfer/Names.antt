-- ===== src/Transfer/Names.antt =====
-- The names and ids that a peer sends (src/transfer/filetransfer.cpp) are safe in paths.
use naleystogramm_core.Prelude.{
  ℕ, zero, suc, ◌≤◌, ◌<◌, ◌≡◌, inl, inr, refl, ap, Bool, true, false, not, ◌&&◌, ◌||◌, none, some,
  [], ◌∷◌, ◌==◌, length, take, arith, Option-cases,
}
use naleystogramm_core.Prelude.Text.{Text, is_empty, all_bytes}
use naleystogramm_core.Transfer.{
  is_separator, last_component, remove_if, erase_dots, drop_dots, or_unnamed, strip_name,
  sanitize_file_name,
}

-- Does it hold ".."?
abbrev pub has_dots : Text → Bool
has_dots [] = false
has_dots (c ∷ []) = false
has_dots (c ∷ d ∷ s) = (c == b'.' && d == b'.') || has_dots (d ∷ s)

abbrev pub is_plain : ℕ → Bool
is_plain c = not (is_separator c)

-- A byte other than a dot.
abbrev pub is_solid : Text → Bool
is_solid s = not (all_bytes (λ c. c == b'.') s)

all_plain-remove_if : (s : Text) → all_bytes is_plain (remove_if is_separator s) ≡ true
unfolding remove_if
all_plain-remove_if [] = refl
all_plain-remove_if (c ∷ s) = ground (arith, all_plain-remove_if s)

remove_if_self : (s : Text) → all_bytes is_plain s ≡ true → remove_if is_separator s ≡ s
unfolding remove_if
remove_if_self [] h = refl
remove_if_self (c ∷ s) h = ground (arith, remove_if_self s)

erase_none : (s : Text) → erase_dots s ≡ none → has_dots s ≡ false
unfolding erase_dots
erase_none [] h = refl
erase_none (c ∷ []) h = refl
erase_none (c ∷ d ∷ s) h = ground (arith, erase_none (d ∷ s))

erase_shorter : (s t : Text) → erase_dots s ≡ some t → length t < length s
unfolding erase_dots
erase_shorter [] t h = cc
erase_shorter (c ∷ []) t h = cc
erase_shorter (c ∷ d ∷ s) t h = elim (Option-cases (erase_dots (d ∷ s))) [
  | inl e ↦ ground arith
  | inr (r, e) ↦ ground (arith, erase_shorter (d ∷ s) r e)
]

erase_plain :
    (s t : Text) → all_bytes is_plain s ≡ true → erase_dots s ≡ some t → all_bytes is_plain t ≡ true
unfolding erase_dots
erase_plain [] t p h = cc
erase_plain (c ∷ []) t p h = cc
erase_plain (c ∷ d ∷ s) t p h = elim (Option-cases (erase_dots (d ∷ s))) [
  | inl e ↦ ground arith
  | inr (r, e) ↦ ground (arith, erase_plain (d ∷ s) r (ground arith) e)
]

-- With a fuel of the name's length, the loop of sanitizeFileName ends with no ".." left.
drop_dots_lem :
    (fuel : ℕ) (s : Text)
    → length s ≤ fuel
    → all_bytes is_plain s ≡ true
    → (has_dots (drop_dots fuel s) ≡ false) × (all_bytes is_plain (drop_dots fuel s) ≡ true)
unfolding drop_dots
drop_dots_lem zero [] h p = (refl, refl)
drop_dots_lem zero (c ∷ s) h p = absurd (omega arith)
drop_dots_lem (suc fuel) s h p = elim (Option-cases (erase_dots s)) [
  | inl e ↦ rw e (erase_none s e, p)
  | inr (t, e) ↦
      rw e (drop_dots_lem fuel t (omega (arith, erase_shorter s t e)) (erase_plain s t p e))
]

take_dots : (n : ℕ) (s : Text) → has_dots s ≡ false → has_dots (take n s) ≡ false
take_dots zero s h = refl
take_dots (suc n) [] h = refl
take_dots (suc zero) (c ∷ s) h = refl
take_dots (suc (suc n)) (c ∷ []) h = refl
take_dots (suc (suc n)) (c ∷ d ∷ s) h = ground (arith, take_dots (suc n) (d ∷ s))

take_plain : (n : ℕ) (s : Text) → all_bytes is_plain s ≡ true → all_bytes is_plain (take n s) ≡ true
take_plain zero s h = refl
take_plain (suc n) [] h = refl
take_plain (suc n) (c ∷ s) h = ground (arith, take_plain n s)

length-take_le : (n : ℕ) (s : Text) → length (take n s) ≤ n
length-take_le zero s = omega arith
length-take_le (suc n) [] = omega arith
length-take_le (suc n) (c ∷ s) = omega (arith, length-take_le n s)

-- What strip_name gives.
abbrev Stripped : Text → Type 0
Stripped s = (all_bytes is_plain s ≡ true) × (has_dots s ≡ false) × (length s ≤ 200)

strip_name-Stripped : (s : Text) → Stripped (strip_name s)
unfolding strip_name
strip_name-Stripped s =
    let t = remove_if is_separator s in
    let d = drop_dots_lem (length t) t (omega arith) (all_plain-remove_if s) in
    (
      take_plain 200 (drop_dots (length t) t) d.1,
      take_dots 200 (drop_dots (length t) t) d.0,
      length-take_le 200 _,
    )

is_solid-remove_if : (s : Text) → is_empty (remove_if (λ c. c == b'.') s) ≡ not (is_solid s)
unfolding remove_if
is_solid-remove_if [] = refl
is_solid-remove_if (c ∷ s) = ground (arith, is_solid-remove_if s)

or_unnamed-Stripped :
    (s : Text) → Stripped s → Stripped (or_unnamed s) × (is_solid (or_unnamed s) ≡ true)
unfolding or_unnamed remove_if
or_unnamed-Stripped s h = ground (arith, is_solid-remove_if s)

-- Whatever a peer calls a file, the name it gets here has 1 … 200 bytes, no '/', '\' or NUL, no
-- "..", and a byte other than a dot.
pub sanitize_file_name_safe :
    (name : Text)
    → (all_bytes is_plain (sanitize_file_name name) ≡ true)
      × (has_dots (sanitize_file_name name) ≡ false)
      × (is_solid (sanitize_file_name name) ≡ true)
      × (0 < length (sanitize_file_name name))
      × (length (sanitize_file_name name) ≤ 200)
unfolding sanitize_file_name
sanitize_file_name_safe name =
    let s = strip_name (last_component name) in
    let h = or_unnamed-Stripped s (strip_name-Stripped (last_component name)) in
    (h.0.0, h.0.1, h.1, solid_long (or_unnamed s) h.1, h.0.2)
  where
    solid_long : (t : Text) → is_solid t ≡ true → 0 < length t
    solid_long [] h = cc
    solid_long (c ∷ t) h = omega arith

last_component_self : (s : Text) → all_bytes is_plain s ≡ true → last_component s ≡ s
unfolding last_component
last_component_self [] h = refl
last_component_self (c ∷ s) h = rw (no_slash (c ∷ s) h) refl
  where
    no_slash : (t : Text) → all_bytes is_plain t ≡ true → all_bytes (λ x. not (x == b'/')) t ≡ true
    no_slash [] h = refl
    no_slash (x ∷ t) h = ground (arith, no_slash t)

erase_dots-none : (s : Text) → has_dots s ≡ false → erase_dots s ≡ none
unfolding erase_dots
erase_dots-none [] h = refl
erase_dots-none (c ∷ []) h = refl
erase_dots-none (c ∷ d ∷ s) h = ground (arith, erase_dots-none (d ∷ s))

drop_dots_self : (fuel : ℕ) (s : Text) → has_dots s ≡ false → drop_dots fuel s ≡ s
unfolding drop_dots
drop_dots_self zero s h = refl
drop_dots_self (suc fuel) s h = rw (erase_dots-none s h) refl

take_self : (n : ℕ) (s : Text) → length s ≤ n → take n s ≡ s
take_self zero [] h = refl
take_self zero (c ∷ s) h = absurd (omega arith)
take_self (suc n) [] h = refl
take_self (suc n) (c ∷ s) h = ap (λ t. c ∷ t) (take_self n s (omega arith))

strip_name_self : (s : Text) → Stripped s → strip_name s ≡ s
unfolding strip_name
strip_name_self s h =
    rw (remove_if_self s h.0, drop_dots_self (length s) s h.1) (take_self 200 s h.2)

or_unnamed_self : (s : Text) → is_solid s ≡ true → or_unnamed s ≡ s
unfolding or_unnamed
or_unnamed_self [] h = cc
or_unnamed_self (c ∷ s) h = rw (is_solid-remove_if (c ∷ s), h) refl

safe_self :
    (s : Text)
    → (all_bytes is_plain s ≡ true)
      × (has_dots s ≡ false)
      × (is_solid s ≡ true)
      × (0 < length s)
      × (length s ≤ 200)
    → sanitize_file_name s ≡ s
unfolding sanitize_file_name
safe_self s h =
    rw (last_component_self s h.0, strip_name_self s (h.0, h.1, h.4)) (or_unnamed_self s h.2)

-- A name that was made safe is left as it is, as where safeDownloadPath makes it safe once more.
pub sanitize_file_name_idem :
    (name : Text) → sanitize_file_name (sanitize_file_name name) ≡ sanitize_file_name name
sanitize_file_name_idem name = safe_self (sanitize_file_name name) (sanitize_file_name_safe name)
