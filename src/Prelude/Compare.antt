-- ===== src/Prelude/Compare.antt =====
-- The comparison that takes the same time for all texts of one length: every difference is gathered
-- by `|=` of `^`. The laws of the two operations come from the recursion on digits.
use Prim.Native.Nat.{
  ℕ, zero, suc, ◌+◌, ◌-◌, ◌*◌, ◌/◌, ◌%◌, ◌≤◌, ◌<◌, max, digits, bitwise, differ, bit_or, bit_xor,
  bit_or-bitwise, bit_xor-bitwise,
}
use mathlib.Core.Path.{◌≡◌, refl, sym, ap, ◌∙◌, subst}
use mathlib.Core.Logic.{◌↔◌}
use mathlib.Core.Bool.{Bool, true, ◌&&◌}
use mathlib.Core.List.{[], ◌∷◌}
use native.Mathlib.Omega.{arith}
use native.Mathlib.Nat.{le_refl}
use naleystogramm_core.Prelude.Tests.{◌==◌}
use naleystogramm_core.Prelude.Lists.{length}
use naleystogramm_core.Prelude.Text.{Text}

-- A number a has at most a binary digits, so the recursion on digits with a fuel of a or more
-- sees all of them.
one_more :
    (z : ℕ → ℕ) (f : ℕ → ℕ → ℕ) (fuel x y : ℕ)
    → x ≤ fuel
    → digits z f (suc fuel) x y ≡ digits z f fuel x y
one_more z f fuel zero y h = refl_at fuel
  where
    refl_at : (n : ℕ) → digits z f (suc n) 0 y ≡ digits z f n 0 y
    refl_at zero = refl
    refl_at (suc n) = refl
one_more z f zero (suc x) y h = absurd (omega arith)
one_more z f (suc fuel) (suc x) y h =
    ap (λ r. r * 2 + f (suc x % 2) (y % 2)) (one_more z f fuel (suc x / 2) (y / 2) (omega arith))

spare :
    (z : ℕ → ℕ) (f : ℕ → ℕ → ℕ) (extra fuel x y : ℕ)
    → fuel ≡ extra + x
    → digits z f fuel x y ≡ digits z f x x y
spare z f zero fuel x y e = ap (λ n. digits z f n x y) (omega arith)
spare z f (suc extra) fuel x y e =
    let less : fuel ≡ suc (extra + x) = omega arith in
    ap (λ n. digits z f n x y) less
    ∙ one_more z f (extra + x) x y (omega arith)
    ∙ spare z f extra (extra + x) x y refl

lowest :
    (z : ℕ → ℕ) (f : ℕ → ℕ → ℕ) (x y : ℕ)
    → bitwise z f (suc x) y ≡ bitwise z f (suc x / 2) (y / 2) * 2 + f (suc x % 2) (y % 2)
lowest z f x y =
    ap (λ r. r * 2 + f (suc x % 2) (y % 2))
      (spare z f (x - suc x / 2) x (suc x / 2) (y / 2) (omega arith))

differ_sound : (a b : ℕ) → differ a b ≡ 0 → a ≡ b
differ_sound zero b h = omega arith
differ_sound (suc a) zero h = h
differ_sound (suc a) (suc b) h = omega (arith, differ_sound a b h)

differ_self : (a : ℕ) → differ a a ≡ 0
differ_self zero = refl
differ_self (suc a) = differ_self a

-- Digits below 2 can be told from their difference to a third.
differ_cancel : (x a b : ℕ) → x < 2 → a < 2 → b < 2 → differ x a ≡ differ x b → a ≡ b
differ_cancel zero a b p q r h = h
differ_cancel (suc zero) zero zero p q r h = refl
differ_cancel (suc zero) zero (suc b) p q r h = omega arith
differ_cancel (suc zero) (suc a) zero p q r h = omega arith
differ_cancel (suc zero) (suc a) (suc b) p q r h = omega arith
differ_cancel (suc (suc x)) a b p q r h = omega arith

differ-lt : (a b : ℕ) → a < 2 → b < 2 → differ a b < 2
differ-lt zero b p q = q
differ-lt (suc zero) zero p q = p
differ-lt (suc zero) (suc b) p q = omega arith
differ-lt (suc (suc a)) b p q = omega arith

pub bit_or_step : (x y : ℕ) → bit_or x y ≡ bit_or (x / 2) (y / 2) * 2 + max (x % 2) (y % 2)
bit_or_step zero y = simp bit_or-bitwise (omega arith)
bit_or_step (suc x) y = simp bit_or-bitwise (lowest (λ n. n) max x y)

pub bit_xor_step : (a b : ℕ) → bit_xor a b ≡ bit_xor (a / 2) (b / 2) * 2 + differ (a % 2) (b % 2)
bit_xor_step zero b = simp bit_xor-bitwise (omega arith)
bit_xor_step (suc a) b = simp bit_xor-bitwise (lowest (λ y. y) differ a b)

bit_or-eq-zero_fuel : (n a b : ℕ) → a ≤ n → bit_or a b ≡ 0 → (a ≡ 0) × (b ≡ 0)
bit_or-eq-zero_fuel n zero b p h = (refl, rw bit_or-bitwise at h)
bit_or-eq-zero_fuel zero (suc a) b p h = absurd (omega arith)
bit_or-eq-zero_fuel (suc n) (suc a) b p h = omega (
  arith,
  bit_or_step (suc a) b,
  bit_or-eq-zero_fuel n (suc a / 2) (b / 2) (omega arith) (omega (arith, bit_or_step (suc a) b)),
)

bit_xor_sound_fuel : (n a b : ℕ) → a ≤ n → bit_xor a b ≡ 0 → a ≡ b
bit_xor_sound_fuel n zero b p h = sym (rw bit_xor-bitwise at h)
bit_xor_sound_fuel zero (suc a) b p h = absurd (omega arith)
bit_xor_sound_fuel (suc n) (suc a) b p h = omega (
  arith,
  bit_xor_sound_fuel n (suc a / 2) (b / 2) (omega arith) (omega (arith, bit_xor_step (suc a) b)),
  differ_sound (suc a % 2) (b % 2) (omega (arith, bit_xor_step (suc a) b)),
)

bit_xor_self_fuel : (n a : ℕ) → a ≤ n → bit_xor a a ≡ 0
bit_xor_self_fuel n zero p = refl
bit_xor_self_fuel zero (suc a) p = absurd (omega arith)
bit_xor_self_fuel (suc n) (suc a) p = omega (
  arith,
  bit_xor_step (suc a) (suc a),
  bit_xor_self_fuel n (suc a / 2) (omega arith),
  differ_self (suc a % 2),
)

bit_xor_cancel_fuel : (n x a b : ℕ) → x ≤ n → bit_xor x a ≡ bit_xor x b → a ≡ b
bit_xor_cancel_fuel n zero a b p h = rw (bit_xor-bitwise 0 a, bit_xor-bitwise 0 b) at h
bit_xor_cancel_fuel zero (suc x) a b p h = absurd (omega arith)
bit_xor_cancel_fuel (suc n) (suc x) a b p h =
    let below : differ (suc x % 2) (a % 2) < 2 =
      differ-lt (suc x % 2) (a % 2) (omega arith) (omega arith) in
    let below' : differ (suc x % 2) (b % 2) < 2 =
      differ-lt (suc x % 2) (b % 2) (omega arith) (omega arith) in
    let low : a % 2 ≡ b % 2 =
      differ_cancel (suc x % 2) (a % 2) (b % 2) (omega arith) (omega arith) (omega arith)
        (omega (arith, bit_xor_step (suc x) a, bit_xor_step (suc x) b)) in
    let high : a / 2 ≡ b / 2 =
      bit_xor_cancel_fuel n (suc x / 2) (a / 2) (b / 2) (omega arith)
        (omega (arith, bit_xor_step (suc x) a, bit_xor_step (suc x) b)) in
    omega arith

-- x ^ a determines a.
pub bit_xor_cancel : (x a b : ℕ) → bit_xor x a ≡ bit_xor x b → a ≡ b
bit_xor_cancel x a b h = bit_xor_cancel_fuel x x a b (le_refl x) h

-- The loop: `diff |= s[i] ^ t[i]`.
gather : ℕ → Text → Text → ℕ
gather diff [] t = diff
gather diff (c ∷ s) [] = diff
gather diff (c ∷ s) (d ∷ t) = gather (bit_or diff (bit_xor c d)) s t

unfoldable pub same_bytes : Text → Text → Bool
unfolding gather
same_bytes s t = length s == length t && gather 0 s t == 0

gather-grows : (diff : ℕ) (s t : Text) → gather diff s t ≡ 0 → diff ≡ 0
unfolding gather
gather-grows diff [] t h = h
gather-grows diff (c ∷ s) [] h = h
gather-grows diff (c ∷ s) (d ∷ t) h =
    (bit_or-eq-zero_fuel diff diff (bit_xor c d) (le_refl diff)
      (gather-grows (bit_or diff (bit_xor c d)) s t h)).0

gather_sound : (diff : ℕ) (s t : Text) → length s ≡ length t → gather diff s t ≡ 0 → s ≡ t
unfolding gather
gather_sound diff [] [] e h = refl
gather_sound diff [] (d ∷ t) e h = absurd (omega arith)
gather_sound diff (c ∷ s) [] e h = absurd (omega arith)
gather_sound diff (c ∷ s) (d ∷ t) e h =
    let x =
      (bit_or-eq-zero_fuel diff diff (bit_xor c d) (le_refl diff)
        (gather-grows (bit_or diff (bit_xor c d)) s t h)).1 in
    cc (
      bit_xor_sound_fuel c c d (le_refl c) x,
      gather_sound (bit_or diff (bit_xor c d)) s t (omega arith) h,
    )

gather_self : (s : Text) → gather 0 s s ≡ 0
unfolding gather
gather_self [] = refl
gather_self (c ∷ s) = rw (bit_xor_self_fuel c c (le_refl c)) (gather_self s)

-- The comparison decides equality.
pub same_bytes_iff : (s t : Text) → (same_bytes s t ≡ true) ↔ (s ≡ t)
unfolding same_bytes
same_bytes_iff s t = (
  λ h. gather_sound 0 s t (ground arith) (ground arith),
  λ e.
      subst (λ u. (length s == length u && gather 0 s u == 0) ≡ true) e
        (ground (arith, gather_self s)),
)
