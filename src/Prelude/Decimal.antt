-- ===== src/Prelude/Decimal.antt =====
-- std::to_string of an unsigned number, and std::stoi.
use Prim.Native.Nat.{ℕ, zero, suc, ◌+◌, ◌-◌, ◌*◌, ◌/◌, ◌%◌, ◌^◌, ◌≤◌, ◌<◌}
use mathlib.Core.Path.{◌≡◌, refl, ap, ◌∙◌}
use mathlib.Core.Logic.{◌≢◌}
use mathlib.Core.Bool.{Bool, true, false, ◌&&◌, ◌||◌}
use mathlib.Core.Option.{Option, none, some}
use mathlib.Core.List.{[], ◌∷◌, ◌++◌, concat-ne-nil}
use native.Mathlib.Omega.{arith}
use naleystogramm_core.Prelude.Tests.{◌==◌, ltb, leb, if◌then◌else◌}
use naleystogramm_core.Prelude.Text.{Text, all_bytes}
use naleystogramm_core.Prelude.Int.{ℤ, pos, sub_ℕ}
use naleystogramm_core.Prelude.Scan.{lacks}

abbrev pub is_digit : ℕ → Bool
is_digit c = leb b'0' c && leb c b'9'

-- The digits of n; a fuel above n is enough.
unfoldable pub digits : ℕ → ℕ → Text
digits zero n = []
digits (suc f) n =
    let rest = digits f (n / 10) in
    if ltb n 10 then (b'0' + n) ∷ [] else rest ++ (b'0' + n % 10) ∷ []

unfoldable pub to_string : ℕ → Text
unfolding digits
to_string n = digits (suc n) n

-- What the longest run of digits at the front stands for.
unfoldable pub value : Text → ℕ → ℕ
value [] n = n
value (c ∷ s) n = let rest = value s (n * 10 + (c - b'0')) in if is_digit c then rest else n

abbrev pub is_space : ℕ → Bool
is_space c = c == 32 || (leb 9 c && leb c 13)

unfoldable pub skip_space : Text → Text
skip_space [] = []
skip_space (c ∷ s) = let rest = skip_space s in if is_space c then rest else c ∷ s

abbrev pub max_int : ℕ
max_int = 2 ^ 31 - 1

-- The number behind the sign; `none` where stoi throws invalid_argument or out_of_range.
read_number : Bool → Text → Option ℤ
unfolding value
read_number neg [] = none
read_number neg (c ∷ s) =
    let n = value (c ∷ s) 0 in
    if is_digit c
    then if neg
      then if leb n (max_int + 1) then some (sub_ℕ 0 n) else none
      else if leb n max_int
      then some (pos n)
      else none
    else none

read_sign : Text → Option ℤ
unfolding read_number
read_sign [] = none
read_sign (c ∷ s) =
    if c == b'-'
    then read_number true s
    else if c == b'+'
    then read_number false s
    else read_number false (c ∷ s)

unfoldable pub stoi : Text → Option ℤ
unfolding skip_space read_sign
stoi s = read_sign (skip_space s)

pub digits-append_value :
    (s t : Text) (n : ℕ) → all_bytes is_digit s ≡ true → value (s ++ t) n ≡ value t (value s n)
unfolding value
digits-append_value [] t n h = refl
digits-append_value (c ∷ s) t n h = ground (arith, digits-append_value s t (n * 10 + (c - b'0')))

pub all_bytes-append :
    (p : ℕ → Bool) (s t : Text)
    → all_bytes p s ≡ true
    → all_bytes p t ≡ true
    → all_bytes p (s ++ t) ≡ true
all_bytes-append p [] t hs ht = ht
all_bytes-append p (c ∷ s) t hs ht = ground (arith, all_bytes-append p s t)

pub all_digits-digits : (f n : ℕ) → all_bytes is_digit (digits f n) ≡ true
unfolding digits
all_digits-digits zero n = refl
all_digits-digits (suc f) n = ground (
  arith,
  all_digits-digits f (n / 10),
  all_bytes-append is_digit (digits f (n / 10)) ((b'0' + n % 10) ∷ []),
)

value-digits : (f n : ℕ) → n < f → value (digits f n) 0 ≡ n
unfolding value digits
value-digits zero n h = absurd (omega arith)
value-digits (suc f) n h = ground (
  arith,
  value-digits f (n / 10),
  digits-append_value (digits f (n / 10)) ((b'0' + n % 10) ∷ []) 0,
  all_digits-digits f (n / 10),
)

pub value-to_string : (n : ℕ) → value (to_string n) 0 ≡ n
unfolding to_string
value-to_string n = value-digits (suc n) n (omega arith)

pub all_digits-to_string : (n : ℕ) → all_bytes is_digit (to_string n) ≡ true
unfolding to_string
all_digits-to_string n = all_digits-digits (suc n) n

-- Digits have a front that is a digit.
stoi-digits :
    (c : ℕ) (s : Text)
    → is_digit c ≡ true
    → value (c ∷ s) 0 ≤ max_int
    → stoi (c ∷ s) ≡ some (pos (value (c ∷ s) 0))
unfolding stoi
stoi-digits c s h k = ground arith

digits-ne-nil : (f n : ℕ) → digits (suc f) n ≢ []
unfolding digits
digits-ne-nil f n h = ground (arith, concat-ne-nil (b'0' + n % 10) (digits f (n / 10)))

stoi-all_digits :
    (s : Text)
    → s ≢ []
    → all_bytes is_digit s ≡ true
    → value s 0 ≤ max_int
    → stoi s ≡ some (pos (value s 0))
stoi-all_digits [] n h k = absurd (n refl)
stoi-all_digits (c ∷ s) n h k = stoi-digits c s (ground arith) k

-- Reading a printed number that is an int gives the number back.
pub stoi-to_string : (n : ℕ) → n ≤ max_int → stoi (to_string n) ≡ some (pos n)
unfolding to_string
stoi-to_string n h =
    let v = value-digits (suc n) n (omega arith) in
    stoi-all_digits (digits (suc n) n) (digits-ne-nil n n) (all_digits-digits (suc n) n)
      (omega (arith, v))
    ∙ ap (λ k. some (pos k)) v

pub to_string-ne-nil : (n : ℕ) → to_string n ≢ []
unfolding to_string
to_string-ne-nil n = digits-ne-nil n n

-- Digits hold no other byte.
pub all_digits-lacks :
    (c : ℕ) (s : Text) → is_digit c ≡ false → all_bytes is_digit s ≡ true → lacks c s ≡ true
all_digits-lacks c [] n h = refl
all_digits-lacks c (x ∷ s) n h = ground (arith, all_digits-lacks c s)
