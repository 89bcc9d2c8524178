-- ===== src/Shell/Otp.antt =====
-- The one-time passwords of src/shell/remoteshellmanager.cpp (generateOtp).
use mathlib.Core.Option
use naleystogramm_core.Prelude.{
  ℕ, zero, suc, ◌%◌, ◌<◌, ◌≡◌, refl, Bool, true, false, not, Option, none, some, [], ◌∷◌, length,
  get_or, arith, ==_iff, dec_lt,
}
use naleystogramm_core.Prelude.Text.{Text, all_bytes}
use naleystogramm_core.Prelude.Scan.{lacks}
use naleystogramm_core.Shell.{otp_chars, draw_otp, generate_otp}

abbrev pub is_otp_char : ℕ → Bool
is_otp_char c = not (lacks c otp_chars)

get_or-lacks : (s : Text) (i : ℕ) → i < length s → lacks (get_or s i 0) s ≡ false
get_or-lacks [] i h = absurd (omega arith)
get_or-lacks (c ∷ s) zero h = ground (arith, ==_iff c c)
get_or-lacks (c ∷ s) (suc i) h = ground (arith, get_or-lacks s i)

take_form :
    (n c : ℕ) (o : Option Text) (otp : Text)
    → is_otp_char c ≡ true
    → ((rest : Text) → o ≡ some rest → (length rest ≡ n) × (all_bytes is_otp_char rest ≡ true))
    → Option.map (λ rest. c ∷ rest) o ≡ some otp
    → (length otp ≡ suc n) × (all_bytes is_otp_char otp ≡ true)
take_form n c none otp k f h = cc
take_form n c (some rest) otp k f h = ground (arith, f rest refl)

draw_otp_form :
    (n : ℕ) (bytes otp : Text)
    → draw_otp n bytes ≡ some otp
    → (length otp ≡ n) × (all_bytes is_otp_char otp ≡ true)
unfolding draw_otp
draw_otp_form zero bytes otp h = ground arith
draw_otp_form (suc n) [] otp h = cc
draw_otp_form (suc n) (b ∷ bytes) otp h = elim (dec_lt b 232) [
  | yes p ↦
      take_form n (get_or otp_chars (b % length otp_chars) 0) (draw_otp n bytes) otp
        (ground (arith, get_or-lacks otp_chars (b % length otp_chars))) (draw_otp_form n bytes)
        (ground arith)
  | no p ↦ draw_otp_form (suc n) bytes otp (ground arith)
]

-- A generated password is six characters of kOtpChars, which leaves out the ones that look alike.
pub generate_otp_form :
    (bytes otp : Text)
    → generate_otp bytes ≡ some otp
    → (length otp ≡ 6) × (all_bytes is_otp_char otp ≡ true)
unfolding generate_otp
generate_otp_form bytes otp h = draw_otp_form 6 bytes otp h
