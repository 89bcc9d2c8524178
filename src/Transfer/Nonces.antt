-- ===== src/Transfer/Nonces.antt =====
-- The nonces of the chunks of src/transfer/filetransfer.cpp (encryptChunk and decryptChunk).
use mathlib.Core.List.{reverse, reverse_aux, reverse-reverse}
use native.Mathlib.Nat.{pow-suc}
use naleystogramm_core.Prelude.{
  ℕ, zero, suc, ◌+◌, ◌/◌, ◌%◌, ◌^◌, ◌≤◌, ◌<◌, ◌≡◌, sym, ap, ◌∙◌, [], ◌∷◌, length, arith,
}
use naleystogramm_core.Prelude.Text.{Text}
use naleystogramm_core.Prelude.Compare.{bit_xor_cancel}
use naleystogramm_core.Transfer.{xor_low, chunk_nonce}

head_of : (a b : ℕ) (s t : Text) → ◌≡◌ {A = Text} (a ∷ s) (b ∷ t) → a ≡ b
head_of a b s t e = cc

tail_of : (a b : ℕ) (s t : Text) → ◌≡◌ {A = Text} (a ∷ s) (b ∷ t) → s ≡ t
tail_of a b s t e = cc

xor_low_cancel :
    (n : ℕ) (bytes : Text) (x y : ℕ)
    → n ≤ length bytes
    → x < 256 ^ n
    → y < 256 ^ n
    → xor_low n bytes x ≡ xor_low n bytes y
    → x ≡ y
unfolding xor_low
xor_low_cancel zero bytes x y h p q e = omega arith
xor_low_cancel (suc n) [] x y h p q e = absurd (omega arith)
xor_low_cancel (suc n) (b ∷ bytes) x y h p q e =
    let same = bit_xor_cancel b (x % 256) (y % 256) (head_of _ _ _ _ e) in
    let rest =
      xor_low_cancel n bytes (x / 256) (y / 256) (omega arith) (omega (arith, pow-suc 256 n))
        (omega (arith, pow-suc 256 n)) (tail_of _ _ _ _ e) in
    omega arith

length-reverse_aux : (s t : Text) → length (reverse_aux s t) ≡ length s + length t
length-reverse_aux [] t = omega arith
length-reverse_aux (c ∷ s) t = omega (arith, length-reverse_aux s (c ∷ t))

-- Two chunks of a transfer, with numbers that fit 64 bits, do not share a nonce, where the base nonce
-- has 8 bytes or more.
pub chunk_nonce_cancel :
    (base : Text) (x y : ℕ)
    → 8 ≤ length base
    → x < 2 ^ 64
    → y < 2 ^ 64
    → chunk_nonce base x ≡ chunk_nonce base y
    → x ≡ y
unfolding chunk_nonce
chunk_nonce_cancel base x y h p q e =
    xor_low_cancel 8 (reverse base) x y (omega (arith, length-reverse_aux base [])) p q
      (sym (reverse-reverse _) ∙ ap reverse e ∙ reverse-reverse _)
