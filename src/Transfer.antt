-- ===== src/Transfer.antt =====
-- src/transfer/filetransfer.cpp: the names and ids that come from a peer, and the nonces of the chunks.
-- The two sides of a transfer are in Transfer/Receive and Frames, and in Transfer/Send.
--   std::filesystem::path(name).filename() is what follows the last '/', as on POSIX.
pub mod Receive
pub mod Frames
pub mod Send
pub mod Writing
pub mod Bounds
pub mod Chunks
pub mod Streaming
pub mod Taking
pub mod Delivery
pub mod Resume
pub mod Consent
pub mod Names
pub mod Nonces
mod Examples
use mathlib.Core.Option
use mathlib.Core.List.{reverse}
use Prim.Native.Nat.{bit_xor}
use naleystogramm_core.Prelude.{
  ℕ, zero, suc, ◌/◌, ◌%◌, Bool, true, false, not, ◌&&◌, ◌||◌, Option, none, some, List, [], ◌∷◌,
  ◌==◌, leb, ltb, length, take, if◌then◌else◌,
}
use naleystogramm_core.Prelude.Text.{Text, codes, is_empty, all_bytes}

abbrev pub is_id_char : ℕ → Bool
is_id_char c =
    (leb b'0' c && leb c b'9')
    || (leb b'a' c && leb c b'f')
    || (leb b'A' c && leb c b'F')
    || c == b'-'

unfoldable pub is_valid_transfer_id : Text → Bool
is_valid_transfer_id id =
    if is_empty id || ltb 64 (length id) then false else all_bytes is_id_char id

-- filename().string()
unfoldable pub last_component : Text → Text
last_component [] = []
last_component (c ∷ s) =
    let rest = last_component s in if all_bytes (λ x. not (x == b'/')) (c ∷ s) then c ∷ s else rest

-- erase and remove_if
unfoldable pub remove_if : (ℕ → Bool) → Text → Text
remove_if p [] = []
remove_if p (c ∷ s) = let rest = remove_if p s in if p c then rest else c ∷ rest

abbrev pub is_separator : ℕ → Bool
is_separator c = c == b'/' || c == b'\\' || c == 0

-- find("..") and erase(pos, 2); `none` where there is none.
unfoldable pub erase_dots : Text → Option Text
erase_dots [] = none
erase_dots (c ∷ []) = none
erase_dots (c ∷ d ∷ s) =
    let rest = erase_dots (d ∷ s) in
    if c == b'.' && d == b'.' then some s else Option.map (λ t. c ∷ t) rest

abbrev pub or_self : Option Text → Text → Text
or_self none s = s
or_self (some t) s = t

-- The loop, on fuel; each round shortens the name, so its length is enough.
unfoldable pub drop_dots : ℕ → Text → Text
drop_dots zero s = s
drop_dots (suc fuel) s = or_self (Option.map (drop_dots fuel) (erase_dots s)) s

unfoldable pub or_unnamed : Text → Text
or_unnamed s =
    if is_empty s || is_empty (remove_if (λ c. c == b'.') s) then codes "unnamed_file" else s

-- Behind the choice of the last component.
unfoldable pub strip_name : Text → Text
strip_name s = let t = remove_if is_separator s in take 200 (drop_dots (length t) t)

unfoldable pub sanitize_file_name : Text → Text
sanitize_file_name name = or_unnamed (strip_name (last_component name))

-- `^=` with the low bytes of the chunk's number, from the end of the nonce on.
unfoldable pub xor_low : ℕ → Text → (seq : ℕ) → Text
xor_low zero bytes seq = bytes
xor_low (suc n) [] seq = []
xor_low (suc n) (b ∷ bytes) seq = bit_xor b (seq % 256) ∷ xor_low n bytes (seq / 256)

unfoldable pub chunk_nonce : (base : Text) → (seq : ℕ) → Text
chunk_nonce base seq = reverse (xor_low 8 (reverse base) seq)
