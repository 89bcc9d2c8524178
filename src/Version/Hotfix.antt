-- ===== src/Version/Hotfix.antt =====
-- Versions that are written out (include/naleystogramm-core/diag/versionutils.h): what compare reads
-- of them, and where a hotfix stands.
use naleystogramm_core.Prelude.{
  ℕ, ◌+◌, ◌≤◌, ◌<◌, ◌≡◌, ◌≢◌, refl, ◌∙◌, true, List, [], ◌∷◌, ◌++◌, map, arith, append-nil,
  append_assoc,
}
use naleystogramm_core.Prelude.Text.{Text}
use naleystogramm_core.Prelude.Int.{pos, negsuc}
use naleystogramm_core.Prelude.Scan.{lacks}
use naleystogramm_core.Prelude.Decimal.{
  to_string, max_int, stoi-to_string, to_string-ne-nil, all_digits-to_string, all_digits-lacks,
}
use naleystogramm_core.Version.{tokens, parts, compare_parts, compare}

-- A version with the given parts.
abbrev pub render : ℕ → List ℕ → Text
render n [] = to_string n
render n (k ∷ ks) = to_string n ++ b'.' ∷ render k ks

abbrev pub AllInts : List ℕ → Type 0
AllInts [] = Unit
AllInts (n ∷ ns) = (n ≤ max_int) × AllInts ns

tokens_at_dot :
    (a s cur : Text) → lacks b'.' a ≡ true → tokens (a ++ b'.' ∷ s) cur ≡ (cur ++ a) ∷ tokens s []
unfolding tokens
tokens_at_dot [] s cur h = rw append-nil
tokens_at_dot (c ∷ a) s cur h =
    ground (arith, tokens_at_dot a s (cur ++ c ∷ []), append_assoc cur (c ∷ []) a)

tokens_at_end :
    (a cur : Text) → lacks b'.' a ≡ true → cur ++ a ≢ [] → tokens a cur ≡ (cur ++ a) ∷ []
unfolding tokens
tokens_at_end [] [] h n = absurd (n refl)
tokens_at_end [] (d ∷ cur) h n = rw append-nil
tokens_at_end (c ∷ a) cur h n =
    ground (arith, tokens_at_end a (cur ++ c ∷ []), append_assoc cur (c ∷ []) a)

to_string-lacks : (n : ℕ) → lacks b'.' (to_string n) ≡ true
to_string-lacks n = all_digits-lacks b'.' (to_string n) refl (all_digits-to_string n)

-- compare reads back the numbers of a version that is written out.
pub parts-render : (n : ℕ) (ks : List ℕ) → AllInts (n ∷ ks) → parts (render n ks) ≡ map pos (n ∷ ks)
unfolding parts
parts-render n [] h =
    rw (tokens_at_end (to_string n) [] (to_string-lacks n) (to_string-ne-nil n))
      (ground (arith, stoi-to_string n))
parts-render n (k ∷ ks) h =
    rw (tokens_at_dot (to_string n) (render k ks) [] (to_string-lacks n))
      (ground (arith, stoi-to_string n, parts-render k ks))

below_prefix :
    (ks js ls : List ℕ)
    → compare_parts (map pos (ks ++ js)) (map pos (ks ++ ls))
      ≡ compare_parts (map pos js) (map pos ls)
unfolding compare_parts
below_prefix [] js ls = refl
below_prefix (k ∷ ks) js ls = ground (arith, below_prefix ks js ls)

AllInts-append : (ks js : List ℕ) → AllInts ks → AllInts js → AllInts (ks ++ js)
AllInts-append [] js h g = g
AllInts-append (k ∷ ks) js h g = (h.0, AllInts-append ks js h.1 g)

-- Two versions that begin with the same numbers compare as what follows.
compare-render :
    (n : ℕ) (ks js ls : List ℕ)
    → AllInts (n ∷ ks)
    → AllInts js
    → AllInts ls
    → compare (render n (ks ++ js)) (render n (ks ++ ls)) ≡ compare_parts (map pos js) (map pos ls)
unfolding compare
compare-render n ks js ls h hj hl =
    rw
      (
        parts-render n (ks ++ js) (h.0, AllInts-append ks js h.1 hj),
        parts-render n (ks ++ ls) (h.0, AllInts-append ks ls h.1 hl),
      )
      (below_prefix (n ∷ ks) js ls)

-- A hotfix y > 0 of the release n.ks.x is newer than the release and older than n.ks.(x + 1), and a
-- hotfix 0 is the release itself; every part is an int.
pub hotfix_order :
    (n : ℕ) (ks : List ℕ) (x y : ℕ)
    → AllInts (n ∷ ks)
    → x < max_int
    → y ≤ max_int
    → 0 < y
    → (compare (render n (ks ++ x ∷ y ∷ [])) (render n (ks ++ x ∷ [])) ≡ pos 1)
      × (compare (render n (ks ++ x ∷ y ∷ [])) (render n (ks ++ (x + 1) ∷ [])) ≡ negsuc 0)
      × (compare (render n (ks ++ x ∷ 0 ∷ [])) (render n (ks ++ x ∷ [])) ≡ pos 0)
hotfix_order n ks x y h hx hy p = (
  compare-render n ks (x ∷ y ∷ []) (x ∷ []) h (omega arith) (omega arith)
      ∙ unfold compare_parts in ground arith,
  compare-render n ks (x ∷ y ∷ []) ((x + 1) ∷ []) h (omega arith) (omega arith)
      ∙ unfold compare_parts in ground arith,
  compare-render n ks (x ∷ 0 ∷ []) (x ∷ []) h (omega arith) (omega arith)
      ∙ unfold compare_parts in ground arith,
)
