-- ===== src/Session/Uuid.antt =====
-- generateUuid of src/storage/sessionmanager.cpp.
use naleystogramm_core.Prelude.{
  ℕ, ◌/◌, ◌%◌, ◌≡◌, refl, ap, true, ◌⊎◌, inl, inr, Option, some, get_elem?, arith,
}
use naleystogramm_core.Identity.{is_xdigit, is_valid_uuid}
use naleystogramm_core.Session.Methods.{hex_digit, versioned, varied, generate_uuid}

hex_digit_lem : (n : ℕ) → is_xdigit (hex_digit (n % 16)) ≡ true
hex_digit_lem n = ground arith

variant_lem :
    (b : ℕ)
    → let d = hex_digit (varied b / 16 % 16) in (d ≡ b'8') ⊎ (d ≡ b'9') ⊎ (d ≡ b'a') ⊎ (d ≡ b'b')
variant_lem b = ground arith

-- generateUuid gives a UUID that isValidUuid takes, whatever bytes it draws, with the version 4 in its
-- place, and a variant that is one of 8, 9, a and b.
pub generate_uuid_lem :
    (b : ℕ → ℕ)
    → (is_valid_uuid (generate_uuid b) ≡ true)
      × (get_elem? (generate_uuid b) 14 ≡ some b'4')
      × ((get_elem? (generate_uuid b) 19 ≡ some b'8')
          ⊎ (get_elem? (generate_uuid b) 19 ≡ some b'9')
          ⊎ (get_elem? (generate_uuid b) 19 ≡ some b'a')
          ⊎ (get_elem? (generate_uuid b) 19 ≡ some b'b'))
unfolding generate_uuid is_valid_uuid
generate_uuid_lem b =
    let v : versioned (b 6) / 16 % 16 ≡ 4 = omega arith in
    (simp (hex_digit_lem) refl, rw v refl, variants (variant_lem (b 8)))
  where
    variants :
        {d : ℕ}
        → (d ≡ b'8') ⊎ (d ≡ b'9') ⊎ (d ≡ b'a') ⊎ (d ≡ b'b')
        → (◌≡◌ {A = Option ℕ} (some d) (some b'8'))
          ⊎ (◌≡◌ {A = Option ℕ} (some d) (some b'9'))
          ⊎ (◌≡◌ {A = Option ℕ} (some d) (some b'a'))
          ⊎ (◌≡◌ {A = Option ℕ} (some d) (some b'b'))
    variants (inl e) = inl (ap some e)
    variants (inr (inl e)) = inr (inl (ap some e))
    variants (inr (inr (inl e))) = inr (inr (inl (ap some e)))
    variants (inr (inr (inr e))) = inr (inr (inr (ap some e)))
