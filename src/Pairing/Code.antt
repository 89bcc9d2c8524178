-- ===== src/Pairing/Code.antt =====
-- The codes of src/identity/device_pairing.cpp: their form, and that every code is as likely.
use native.Mathlib.Nat.{pow-suc}
use naleystogramm_core.Prelude.{
  ℕ, zero, suc, ◌+◌, ◌-◌, ◌*◌, ◌/◌, ◌%◌, ◌^◌, ◌≤◌, ◌<◌, ◌≡◌, refl, true, false, leb, Option, none,
  some, List, [], ◌∷◌, ◌++◌, length, length-append, length-replicate, replicate, arith, ◌∙◌, ap,
  sym,
}
use naleystogramm_core.Prelude.Text.{Text, all_bytes}
use naleystogramm_core.Prelude.Decimal.{
  digits, to_string, is_digit, value, all_digits-to_string, value-to_string,
}
use naleystogramm_core.Pairing.{Pairing, code_length, draw, pad_six, issue, generate_code}

-- A number below 10 ^ k has at most k digits, and one at least.
length-digits : (k f n : ℕ) → n < 10 ^ suc k → length (digits f n) ≤ suc k
unfolding digits
length-digits k zero n h = omega arith
length-digits zero (suc f) n h = ground arith
length-digits (suc k) (suc f) n h = ground (
  arith,
  length-digits k f (n / 10),
  pow-suc 10 (suc k),
  length-append (digits f (n / 10)) ((b'0' + n % 10) ∷ []),
)

all_zeros :
    (k : ℕ) (s : Text)
    → all_bytes is_digit s ≡ true
    → all_bytes is_digit (replicate k b'0' ++ s) ≡ true
all_zeros zero s h = h
all_zeros (suc k) s h = all_zeros k s h

value-zeros : (k : ℕ) (s : Text) → value (replicate k b'0' ++ s) 0 ≡ value s 0
unfolding value
value-zeros zero s = refl
value-zeros (suc k) s = value-zeros k s

length-pad_six : (n : ℕ) → n < 1000000 → length (pad_six n) ≡ 6
unfolding pad_six to_string
length-pad_six n h = omega (
  arith,
  length-append {A = ℕ} (replicate (code_length - length (digits (suc n) n)) b'0')
      (digits (suc n) n),
  length-replicate {A = ℕ} (code_length - length (digits (suc n) n)) b'0',
  length-digits 5 (suc n) n h,
)

all_digits-pad_six : (n : ℕ) → all_bytes is_digit (pad_six n) ≡ true
unfolding pad_six
all_digits-pad_six n =
    all_zeros (code_length - length (to_string n)) (to_string n) (all_digits-to_string n)

value-pad_six : (n : ℕ) → value (pad_six n) 0 ≡ n
unfolding pad_six
value-pad_six n = value-zeros (code_length - length (to_string n)) (to_string n) ∙ value-to_string n

-- A generated code is six decimal digits, and expires 60 s after it was made.
pub generate_code_form :
    (now : ℕ) (words : List ℕ) (s : Pairing)
    → generate_code now words ≡ some s
    → (length s.code ≡ 6) × (all_bytes is_digit s.code ≡ true) × (s.expiry ≡ now + 60000)
unfolding generate_code
generate_code_form now words s h = issued (draw words) h
  where
    issued :
        (o : Option ℕ)
        → issue now o ≡ some s
        → (length s.code ≡ 6) × (all_bytes is_digit s.code ≡ true) × (s.expiry ≡ now + 60000)
    issued none e = cc
    issued (some val) e =
        ground
          (arith, length-pad_six (val % 1000000) (omega arith), all_digits-pad_six (val % 1000000))

below_limit : (c k : ℕ) → c < 1000000 → k < 4000 → leb 4000000000 (c + k * 1000000) ≡ false
below_limit c k h p = ground arith

draw-small : (val : ℕ) (words : List ℕ) → leb 4000000000 val ≡ false → draw (val ∷ words) ≡ some val
unfolding draw
draw-small val words h = ground arith

draw-large : (val : ℕ) (words : List ℕ) → 4000000000 ≤ val → draw (val ∷ words) ≡ draw words
unfolding draw
draw-large val words h = ground arith

residue : (c k : ℕ) → c < 1000000 → (c + k * 1000000) % 1000000 ≡ c
residue c k h = omega arith

-- Every code c below 1000000 comes from exactly 4000 random words, the words c + k * 1000000 with
-- k < 4000; a word from 4000000000 on is thrown away; and two numbers do not share a code.
pub generate_code_fair :
    (now : ℕ) (words : List ℕ) (c k : ℕ)
    → c < 1000000
    → (k < 4000
        → generate_code now ((c + k * 1000000) ∷ words)
          ≡ some (record { code = pad_six c; expiry = now + 60000 }))
      × (4000 ≤ k → generate_code now ((c + k * 1000000) ∷ words) ≡ generate_code now words)
      × ((d : ℕ) → pad_six c ≡ pad_six d → c ≡ d)
unfolding generate_code
generate_code_fair now words c k h = (
  λ p. rw (draw-small (c + k * 1000000) words (below_limit c k h p), residue c k h) refl,
  λ p. rw (draw-large (c + k * 1000000) words (omega arith)) refl,
  λ d e. sym (value-pad_six c) ∙ ap (λ s. value s 0) e ∙ value-pad_six d,
)
