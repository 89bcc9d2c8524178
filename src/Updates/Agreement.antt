-- ===== src/Updates/Agreement.antt =====
-- isNewerVersion of src/diag/updatechecker.cpp against VersionUtils::isNewerThan of
-- include/naleystogramm-core/diag/versionutils.h.
use naleystogramm_core.Prelude.{
  ℕ, zero, suc, ◌≤◌, ◌≡◌, ◌≢◌, refl, ap, sym, ◌∙◌, Bool, true, false, some, List, [], ◌∷◌, ◌++◌,
  map, length, take, ◌==◌, ◌!=◌, ltb, arith, append-nil, if◌then◌else◌,
}
use naleystogramm_core.Prelude.Text.{Text, all_bytes}
use naleystogramm_core.Prelude.Int.{pos, ltb_ℤ}
use naleystogramm_core.Prelude.Scan.{split_first-lacks, lacks}
use naleystogramm_core.Prelude.Decimal.{
  is_digit, value, to_string, to_string-ne-nil, value-to_string, all_digits-to_string,
  all_digits-lacks, digits-append_value, all_bytes-append,
}
use naleystogramm_core.Version.{compare_parts, compare, is_newer_than}
use naleystogramm_core.Version.Hotfix.{render, AllInts, parts-render}
use naleystogramm_core.Updates.{
  after_digits, scan_int, scan_parts, without_v, before_dash, parse_semver, part, is_newer_version,
}

-- Does a text begin with a digit?
abbrev leads : Text → Bool
leads [] = false
leads (c ∷ s) = is_digit c

after_digits-append :
    (s rest : Text)
    → all_bytes is_digit s ≡ true
    → leads rest ≡ false
    → after_digits (s ++ rest) ≡ rest
unfolding after_digits
after_digits-append [] [] h k = refl
after_digits-append [] (d ∷ rest) h k = rw k refl
after_digits-append (c ∷ s) rest h k = ground (arith, after_digits-append s rest)

value_stops : (rest : Text) (n : ℕ) → leads rest ≡ false → value rest n ≡ n
unfolding value
value_stops [] n h = refl
value_stops (d ∷ rest) n h = rw h refl

scan_int-digits :
    (s rest : Text)
    → s ≢ []
    → all_bytes is_digit s ≡ true
    → leads rest ≡ false
    → scan_int (s ++ rest) ≡ some (pos (value s 0), rest)
unfolding scan_int
scan_int-digits [] rest n h k = absurd (n refl)
scan_int-digits (c ∷ s) rest n h k = ground (
  arith,
  after_digits-append (c ∷ s) rest h k,
  digits-append_value (c ∷ s) rest 0 h,
  value_stops rest (value (c ∷ s) 0) k,
)

scan_int-to_string :
    (n : ℕ) (rest : Text) → leads rest ≡ false → scan_int (to_string n ++ rest) ≡ some (pos n, rest)
scan_int-to_string n rest h =
    scan_int-digits (to_string n) rest (to_string-ne-nil n) (all_digits-to_string n) h
    ∙ ap (λ k. some (pos k, rest)) (value-to_string n)

alone : (n : ℕ) → scan_int (to_string n) ≡ some (pos n, [])
alone n = ap scan_int (sym (append-nil (to_string n))) ∙ scan_int-to_string n [] refl

-- Of a version that is written out, sscanf reads as many numbers as it has conversions.
scan_parts-render :
    (k n : ℕ) (ks : List ℕ) → scan_parts (suc k) (render n ks) ≡ map pos (take (suc k) (n ∷ ks))
unfolding scan_parts
scan_parts-render zero n [] = rw (scan_parts, alone n) refl
scan_parts-render (suc k) n [] = rw (scan_parts, alone n) refl
scan_parts-render zero n (m ∷ ks) =
    rw (scan_parts, scan_int-to_string n (b'.' ∷ render m ks) refl) refl
scan_parts-render (suc k) n (m ∷ ks) =
    rw (scan_parts, scan_int-to_string n (b'.' ∷ render m ks) refl)
      (ap (λ r. pos n ∷ r) (scan_parts-render k m ks))

digits_kept :
    (s rest : Text) → s ≢ [] → all_bytes is_digit s ≡ true → without_v (s ++ rest) ≡ s ++ rest
unfolding without_v
digits_kept [] rest n h = absurd (n refl)
digits_kept (c ∷ s) rest n h = ground arith

-- Nothing of it is a 'v' in front or a '-'.
without_v-render : (n : ℕ) (ks : List ℕ) → without_v (render n ks) ≡ render n ks
without_v-render n [] =
    ap without_v (sym (append-nil (to_string n)))
    ∙ digits_kept (to_string n) [] (to_string-ne-nil n) (all_digits-to_string n)
    ∙ append-nil (to_string n)
without_v-render n (m ∷ ks) =
    digits_kept (to_string n) (b'.' ∷ render m ks) (to_string-ne-nil n) (all_digits-to_string n)

render-lacks : (n : ℕ) (ks : List ℕ) → lacks b'-' (render n ks) ≡ true
render-lacks n [] = all_digits-lacks b'-' (to_string n) refl (all_digits-to_string n)
render-lacks n (m ∷ ks) =
    all_bytes-append (λ x. x != b'-') (to_string n) (b'.' ∷ render m ks)
      (all_digits-lacks b'-' (to_string n) refl (all_digits-to_string n)) (render-lacks m ks)

before_dash-lacks : (s : Text) → lacks b'-' s ≡ true → before_dash s ≡ s
unfolding before_dash
before_dash-lacks s h = rw (before_dash, split_first-lacks b'-' s h) refl

parse_semver-render : (n : ℕ) (ks : List ℕ) → parse_semver (render n ks) ≡ map pos (take 4 (n ∷ ks))
unfolding parse_semver
parse_semver-render n ks =
    ap (λ t. scan_parts 4 (before_dash t)) (without_v-render n ks)
    ∙ ap (scan_parts 4) (before_dash-lacks (render n ks) (render-lacks n ks))
    ∙ scan_parts-render 3 n ks

-- Both compare number by number, those that are missing being 0.
abbrev head_or_zero : List ℕ → ℕ
head_or_zero [] = 0
head_or_zero (k ∷ ks) = k

abbrev rest_of : List ℕ → List ℕ
rest_of [] = []
rest_of (k ∷ ks) = ks

newer_by : ℕ → List ℕ → List ℕ → Bool
newer_by zero ks js = false
newer_by (suc f) ks js =
    let rest = newer_by f (rest_of ks) (rest_of js) in
    if head_or_zero ks == head_or_zero js then rest else ltb (head_or_zero js) (head_or_zero ks)

compare_parts-newer_by :
    (f : ℕ) (ks js : List ℕ)
    → length ks ≤ f
    → length js ≤ f
    → ltb_ℤ (pos 0) (compare_parts (map pos ks) (map pos js)) ≡ newer_by f ks js
unfolding compare_parts newer_by
compare_parts-newer_by zero [] [] h k = refl
compare_parts-newer_by zero [] (b ∷ js) h k = absurd (omega arith)
compare_parts-newer_by zero (a ∷ ks) js h k = absurd (omega arith)
compare_parts-newer_by (suc f) [] [] h k = ground (arith, compare_parts-newer_by f [] [])
compare_parts-newer_by (suc f) (a ∷ ks) [] h k =
    ground (arith, compare_parts-newer_by f ks [] (omega arith) (omega arith))
compare_parts-newer_by (suc f) [] (b ∷ js) h k =
    ground (arith, compare_parts-newer_by f [] js (omega arith) (omega arith))
compare_parts-newer_by (suc f) (a ∷ ks) (b ∷ js) h k =
    ground (arith, compare_parts-newer_by f ks js (omega arith) (omega arith))

abbrev nth_or_zero : List ℕ → ℕ → ℕ
nth_or_zero ks zero = head_or_zero ks
nth_or_zero ks (suc i) = nth_or_zero (rest_of ks) i

part-take :
    (f i : ℕ) (ks : List ℕ) → suc i ≤ f → part (map pos (take f ks)) i ≡ pos (nth_or_zero ks i)
part-take zero i ks h = absurd (omega arith)
part-take (suc f) zero [] h = refl
part-take (suc f) (suc i) [] h = missing i
  where
    missing : (j : ℕ) → pos 0 ≡ pos (nth_or_zero [] j)
    missing zero = refl
    missing (suc j) = missing j
part-take (suc f) zero (k ∷ ks) h = refl
part-take (suc f) (suc i) (k ∷ ks) h = part-take f i ks (omega arith)

is_newer_version-newer_by :
    (n m : ℕ) (ks js : List ℕ)
    → is_newer_version (render n ks) (render m js) ≡ newer_by 4 (n ∷ ks) (m ∷ js)
unfolding is_newer_version newer_by
is_newer_version-newer_by n m ks js =
    let a = n ∷ ks in
    let b = m ∷ js in
    rw
      (
        parse_semver-render n ks,
        parse_semver-render m js,
        part-take 4 1 a (omega arith),
        part-take 4 2 a (omega arith),
        part-take 4 3 a (omega arith),
        part-take 4 1 b (omega arith),
        part-take 4 2 b (omega arith),
        part-take 4 3 b (omega arith),
      )
      (ground arith)

-- The two comparisons of versions in the program agree on versions that are written out, each of one to four
-- numbers that are ints.
pub is_newer_version-is_newer_than :
    (n m : ℕ) (ks js : List ℕ)
    → length ks ≤ 3
    → length js ≤ 3
    → AllInts (n ∷ ks)
    → AllInts (m ∷ js)
    → is_newer_version (render n ks) (render m js) ≡ is_newer_than (render n ks) (render m js)
unfolding is_newer_than compare
is_newer_version-is_newer_than n m ks js h k hn hm =
    is_newer_version-newer_by n m ks js
    ∙ sym (
        rw (parts-render n ks hn, parts-render m js hm)
          (compare_parts-newer_by 4 (n ∷ ks) (m ∷ js) (omega arith) (omega arith)))
