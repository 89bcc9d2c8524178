-- ===== src/Transfer/Receive.antt =====
-- The receiving side of src/transfer/filetransfer.cpp: the incoming transfers, and what the frames
-- of the sender and the calls of the user do to them.
--   `Env` is what comes from elsewhere: E2E sessions and their decryption, AES-256-GCM with a nonce,
-- SHA-256, whether the temporary file could be made and moved, and how many bytes of a write come to the
-- file, as a full disk may take fewer; the source does not look. A transfer's open file is its contents,
-- `hashed` what its hasher was given. Counts of chunks are ℕ: a negative `seq` or `resume_from`
-- is not modelled. Log lines, speeds and paths are left out. `trace` records, newest first, frames
-- sent, callbacks fired, files removed, and `saved`: a temporary file that was moved to its place.
use naleystogramm_core.Prelude.{
  ℕ, zero, suc, ◌+◌, Bool, not, Option, none, some, List, [], ◌∷◌, ◌++◌, ltb, length, take,
  if◌then◌else◌,
}
use naleystogramm_core.Prelude.Int.{ℤ, pos, negsuc}
use naleystogramm_core.Prelude.Text.{Text, codes, text_eq, is_empty}
use naleystogramm_core.Prelude.Map.{Map, get, put, erase}
use naleystogramm_core.Transfer.{sanitize_file_name}

pub data TransferState : Type 0 where
  pending active paused completed failed cancelled : TransferState

pub record Incoming : Type 0 where
  pub peer_uuid : Text
  pub file_name : Text
  pub file_size : ℕ
  pub expected_hash : Text
  pub key : Text
  pub nonce : Text
  pub bytes_received : ℕ
  pub chunks_received : ℕ
  pub file : Option Text
  pub hashed : Text
  pub state : TransferState
  pub duration_ms : ℕ

-- The key fields of an offer: enc_key_env, or enc_key and enc_nonce.
pub record OfferKey : Type 0 where
  pub enc_key_env : Option Text
  pub enc_key : Text
  pub enc_nonce : Text

pub data Frame : Type 0 where
  file_offer : (id name : Text) → (size : ℤ) → (hash : Text) → (duration_ms : ℕ) → OfferKey → Frame
  file_accept file_reject file_cancel file_pause file_complete : (id : Text) → Frame
  file_chunk : (id : Text) → (seq : ℕ) → (data_bytes tag : Text) → (last : Bool) → Frame
  file_resume_request file_resume_ack : (id : Text) → ℕ → Frame

pub data Effect : Type 0 where
  sent : (peer : Text) → Frame → Effect
  offered : (from name : Text) → (size : ℕ) → (id : Text) → (duration_ms : ℕ) → Effect
  started progressed completed cancelled : (id : Text) → Effect
  failed : (id error : Text) → Effect
  received : (peer name : Text) → Effect
  saved : (id : Text) → Incoming → (content : Text) → Effect
  removed_temp saved_state removed_state : (id : Text) → Effect

pub record Env : Type 0 where
  pub has_session : Text → Bool
  pub decrypt : (peer envelope : Text) → Option Text
  pub open_gcm : (key nonce data_bytes tag : Text) → Text
  pub sha256 : Text → Text
  pub creates_temp : Text → Bool
  pub saves : Text → Bool
  pub written : (id old plain : Text) → ℕ

pub record Store : Type 0 where
  pub incoming : Map Incoming
  pub trace : List Effect

abbrev pub aes_key_size : ℕ
aes_key_size = 32

abbrev pub gcm_nonce_size : ℕ
gcm_nonce_size = 12

abbrev pub emit : Effect → Store → Store
emit e s = record s { trace = e ∷ s.trace }

abbrev pub set_incoming : Text → Incoming → Store → Store
set_incoming id t s = record s { incoming = put id t s.incoming }

abbrev pub drop_incoming : Text → Store → Store
drop_incoming id s = record s { incoming = erase id s.incoming }

abbrev pub drop : ℕ → Text → Text
drop zero s = s
drop (suc n) [] = []
drop (suc n) (c ∷ s) = drop n s

split_key : Option Text → Option (Text × Text)
split_key none = none
split_key (some k) =
    if ltb (length k) (aes_key_size + gcm_nonce_size)
    then none
    else some (take aes_key_size k, take gcm_nonce_size (drop aes_key_size k))

decrypted_key : Env → (from : Text) → Option Text → (plain : Text × Text) → Option (Text × Text)
unfolding split_key
decrypted_key env from none plain = some plain
decrypted_key env from (some e) plain =
    if env.has_session from then split_key (env.decrypt from e) else some plain

-- The key and the nonce of an offer; `none` where the offer is dropped.
offer_key : Env → (from : Text) → OfferKey → Option (Text × Text)
unfolding decrypted_key
offer_key env from k = decrypted_key env from k.enc_key_env (k.enc_key, k.enc_nonce)

unfoldable pub admit :
    (from id name : Text)
    → (size : ℕ) → (hash : Text) → (duration_ms : ℕ) → Option (Text × Text)
    → Store
    → Store
admit from id name size hash d none s = s
admit from id name size hash d (some (k, n)) s =
    emit (offered from (sanitize_file_name name) size id d) (
      set_incoming id
        (record {
          peer_uuid = from;
          file_name = sanitize_file_name name;
          file_size = size;
          expected_hash = hash;
          key = k;
          nonce = n;
          bytes_received = 0;
          chunks_received = 0;
          file = none;
          hashed = [];
          state = pending;
          duration_ms = d;
        })
        s)

unfoldable pub on_offer :
    Env
    → (from id name : Text) → (size : ℤ) → (hash : Text) → (duration_ms : ℕ) → OfferKey
    → Store
    → Store
unfolding offer_key
on_offer env from id name (negsuc n) hash d k s = s
on_offer env from id name (pos size) hash d k s =
    admit from id name size hash d (offer_key env from k) s

-- Failures of a transfer whose file is closed, removed and forgotten.
unfoldable pub abort : (id error : Text) → Store → Store
abort id error s = drop_incoming id (emit (removed_temp id) (emit (failed id error) s))

abbrev pub content_of : Option Text → Text
content_of none = []
content_of (some c) = c

unfoldable pub finish_of : Env → Option Incoming → (id : Text) → Store → Store
unfolding abort
finish_of env none id s = s
finish_of env (some t) id s =
    if not (text_eq (env.sha256 t.hashed) t.expected_hash)
    then abort id (codes "File hash mismatch — corrupted") s
    else if not (env.saves id)
    then abort id (codes "Cannot save file") s
    else drop_incoming id (
        emit (removed_state id) (
          emit (received t.peer_uuid t.file_name)
            (emit (Effect.completed id) (emit (saved id t (content_of t.file)) s))))

unfoldable pub finish_receiving : Env → (id : Text) → Store → Store
finish_receiving env id s = finish_of env (get id s.incoming) id s

-- A chunk for a transfer whose file is open, with the contents `old`.
unfoldable pub write_chunk :
    Env → (id : Text) → (plain : Text) → (last : Bool) → Incoming → (old : Text) → Store → Store
unfolding abort
write_chunk env id plain last t old s =
    let s' = emit (progressed id) (
      set_incoming id
        (record t {
          file = some (old ++ take (env.written id old plain) plain);
          hashed = t.hashed ++ plain;
          bytes_received = t.bytes_received + length plain;
          chunks_received = t.chunks_received + 1;
        })
        s) in
    if is_empty plain
    then abort id (codes "Decryption failed — data corrupted") s
    else if ltb t.file_size (t.bytes_received + length plain)
    then abort id (codes "Transfer exceeded announced size") s
    else if last
    then finish_receiving env id s'
    else s'
