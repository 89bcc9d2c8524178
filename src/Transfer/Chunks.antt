-- ===== src/Transfer/Chunks.antt =====
-- The chunks that sendNextChunk of src/transfer/filetransfer.cpp reads, one behind the other.
use naleystogramm_core.Prelude.{
  ℕ, zero, suc, ◌+◌, ◌≤◌, ◌<◌, ◌≡◌, refl, sym, ap, ◌∙◌, [], ◌∷◌, ◌++◌, length, take, arith,
}
use naleystogramm_core.Prelude.Text.{Text}
use naleystogramm_core.Transfer.Receive.{drop}

take_lem :
    (c : ℕ) (s : Text) → (length (take c s) ≤ length s) × (take c s ≡ take (length (take c s)) s)
take_lem zero s = (omega arith, refl)
take_lem (suc c) [] = (omega arith, refl)
take_lem (suc c) (d ∷ s) = (omega (arith, take_lem c s), ap (λ t. d ∷ t) (take_lem c s).1)

take_all : (s : Text) → take (length s) s ≡ s
take_all [] = refl
take_all (d ∷ s) = ap (λ t. d ∷ t) (take_all s)

take_some : (c : ℕ) (s : Text) → 0 < c → 0 < length s → 0 < length (take c s)
take_some zero s h k = absurd (omega arith)
take_some (suc c) [] h k = absurd (omega arith)
take_some (suc c) (d ∷ s) h k = omega arith

-- A chunk of at most c bytes from position p on, where something is left, is not empty, does not go
-- beyond the end, and goes on with what was read before.
pub chunk_lem :
    (p c : ℕ) (s : Text)
    → p < length s
    → 0 < c
    → let x = take c (drop p s) in
      (0 < length x) × (p + length x ≤ length s) × (take p s ++ x ≡ take (p + length x) s)
chunk_lem zero c s h k =
    let (short, same) = take_lem c s in
    (take_some c s k h, omega (arith, short), same ∙ ap (λ n. take n s) (omega arith))
chunk_lem (suc p) c [] h k = absurd (omega arith)
chunk_lem (suc p) c (d ∷ s) h k =
    let (some_left, inside, joined) = chunk_lem p c s (omega arith) k in
    let x = take c (drop p s) in
    let e : suc p + length x ≡ suc (p + length x) = omega arith in
    (some_left, omega (arith, inside), ap (λ t. d ∷ t) joined ∙ ap (λ n. take n (d ∷ s)) (sym e))

-- What is read in all, once the end is reached.
pub take_end : (p : ℕ) (s : Text) → p ≡ length s → take p s ≡ s
take_end p s h = ap (λ n. take n s) h ∙ take_all s
