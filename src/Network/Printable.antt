-- ===== src/Network/Printable.antt =====
-- sanitizeCtrl of src/net/network.cpp, which every name that a peer gives goes through.
use naleystogramm_core.Prelude.{
  ℕ, zero, suc, ◌≤◌, ◌≡◌, refl, ap, ◌∙◌, Bool, true, ◌&&◌, [], ◌∷◌, length, arith,
}
use naleystogramm_core.Prelude.Text.{Text}
use naleystogramm_core.Network.Wire.{is_printable, keep_printable, trim_spaces, sanitize_ctrl}

unfoldable pub are_printable : Text → Bool
are_printable [] = true
are_printable (c ∷ s) = is_printable c && are_printable s

keep_printable_lem :
    (room : ℕ) (s : Text)
    → (are_printable (keep_printable room s) ≡ true) × (length (keep_printable room s) ≤ room)
unfolding keep_printable are_printable
keep_printable_lem zero s = ground arith
keep_printable_lem (suc r) [] = ground arith
keep_printable_lem (suc r) (c ∷ s) =
    ground (arith, keep_printable_lem r s, keep_printable_lem (suc r) s)

-- What is printable and short is kept as it is.
keep_printable_id :
    (room : ℕ) (s : Text) → are_printable s ≡ true → length s ≤ room → keep_printable room s ≡ s
unfolding keep_printable are_printable
keep_printable_id zero [] h k = refl
keep_printable_id zero (c ∷ s) h k = absurd (omega arith)
keep_printable_id (suc r) [] h k = refl
keep_printable_id (suc r) (c ∷ s) h k = ground (arith, keep_printable_id r s)

trim_spaces_lem :
    (s : Text)
    → (are_printable s ≡ true → are_printable (trim_spaces s) ≡ true)
      × (length (trim_spaces s) ≤ length s)
      × (trim_spaces (trim_spaces s) ≡ trim_spaces s)
unfolding trim_spaces are_printable
trim_spaces_lem [] = (λ h. refl, omega arith, refl)
trim_spaces_lem (c ∷ s) = ground (arith, trim_spaces_lem s)

-- A name that went through sanitizeCtrl has printable bytes only, at most 256 of them, and does not end
-- with a space, and going through it again does not change it; a name that is like this is unchanged.
pub sanitize_ctrl_lem :
    (s : Text)
    → (are_printable (sanitize_ctrl s) ≡ true)
      × (length (sanitize_ctrl s) ≤ 256)
      × (trim_spaces (sanitize_ctrl s) ≡ sanitize_ctrl s)
      × (sanitize_ctrl (sanitize_ctrl s) ≡ sanitize_ctrl s)
      × (are_printable s ≡ true → length s ≤ 256 → trim_spaces s ≡ s → sanitize_ctrl s ≡ s)
unfolding sanitize_ctrl
sanitize_ctrl_lem s =
    let (printable, short) = keep_printable_lem 256 s in
    let (kept, shorter, trimmed) = trim_spaces_lem (keep_printable 256 s) in
    let fits : length (trim_spaces (keep_printable 256 s)) ≤ 256 = omega arith in
    (
      kept printable,
      fits,
      trimmed,
      ap trim_spaces
            (keep_printable_id 256 (trim_spaces (keep_printable 256 s)) (kept printable) fits)
          ∙ trimmed,
      λ p l t. ap trim_spaces (keep_printable_id 256 s p l) ∙ t,
    )
