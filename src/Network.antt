-- ===== src/Network.antt =====
-- src/net/network.cpp (NetworkManager): the peers, in the modules below, and here the framing of
-- startAsyncRead and tryParseFrames.
--   What comes from a peer is cut at newlines into frames of JSON. `parse` is nlohmann::json::parse,
-- with `none` for text that is discarded or no object. The frames handled are given in their order.
pub mod Framing
pub mod Limits
pub mod Bounds
pub mod Peers
pub mod Queue
pub mod Delivery
pub mod Reconnect
pub mod Keepalive
pub mod Wire
pub mod Handshake
pub mod Incoming
pub mod Relay
pub mod Accept
pub mod Guesses
pub mod Trust
pub mod Welcome
pub mod Retry
pub mod Printable
mod Examples
use naleystogramm_core.Prelude.{
  ℕ, zero, suc, ◌+◌, ◌*◌, Option, none, some, List, [], ◌∷◌, ◌++◌, ltb, length, if◌then◌else◌,
}
use naleystogramm_core.Prelude.Text.{Text}
use naleystogramm_core.Prelude.Scan.{split_first}

abbrev pub max_frame_size : ℕ
max_frame_size = 1048576

abbrev pub before : {J : Type 0} → List J → List J × Text → List J × Text
before fs (gs, rest) = (fs ++ gs, rest)

module _ {J : Type 0} (parse : Text → Option J) where
  parsed : Option J → List J
  parsed none = []
  parsed (some j) = j ∷ []

  unfoldable pub take_frame : Text → List J
  unfolding parsed
  take_frame raw = if ltb max_frame_size (length raw) then [] else parsed (parse raw)

  unfoldable pub go_on : (Text → List J × Text) → Text → Option (Text × Text) → List J × Text
  go_on next buf none = ([], buf)
  go_on next buf (some (raw, rest)) = before (take_frame raw) (next rest)

  -- The loop, on fuel; each round takes a newline away.
  unfoldable pub frames : ℕ → Text → List J × Text
  frames zero buf = ([], buf)
  frames (suc fuel) buf = go_on (frames fuel) buf (split_first b'\n' buf)

  -- The frames that are handled, and what stays in the buffer.
  unfoldable pub try_parse_frames : Text → List J × Text
  try_parse_frames buf = frames (length buf) buf

  -- What the callback of a read does with the buffer and the bytes that came; `none` where the
  -- connection is closed.
  unfoldable pub on_read : (max_buffer_size : ℕ) → (buf bytes : Text) → Option (List J × Text)
  on_read max buf bytes =
      if ltb max (length buf + length bytes) then none else some (try_parse_frames (buf ++ bytes))
