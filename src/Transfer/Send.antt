-- ===== src/Transfer/Send.antt =====
-- The sending side of src/transfer/filetransfer.cpp: sendFileOffer, startStreaming, sendNextChunk,
-- handleResumeRequest, and the frames and calls that concern an outgoing transfer.
--   `Env` is what comes from elsewhere: E2E sessions and their encryption, what a file holds, where it
-- can be opened, AES-256-GCM with a nonce, and loadTransferState. An open file is its read position;
-- the fail bit that a short read leaves is not modelled. A posted call is the effect `posted`. A
-- restored transfer has no file hash, as loadTransferState gives none.
use naleystogramm_core.Prelude.{
  ℕ, ◌+◌, ◌*◌, Bool, not, Option, none, some, List, [], ◌∷◌, ◌++◌, leb, length, take, if◌then◌else◌,
}
use naleystogramm_core.Prelude.Text.{Text, codes, is_empty}
use naleystogramm_core.Prelude.Map.{Map, get, put, erase, is_some}
use naleystogramm_core.Transfer.{chunk_nonce}
use naleystogramm_core.Transfer.Receive.{TransferState, active, paused, drop}
use naleystogramm_core.Transfer.Frames.{is_stopped}

pub record Outgoing : Type 0 where
  pub peer_uuid : Text
  pub file_path : Text
  pub file_name : Text
  pub file_size : ℕ
  pub file_hash : Text
  pub key : Text
  pub nonce : Text
  pub bytes_sent : ℕ
  pub chunks_sent : ℕ
  pub file : Option ℕ
  pub state : TransferState

pub data Frame : Type 0 where
  file_offer : (id name : Text) → (size : ℕ) → (hash envelope : Text) → Frame
  file_chunk : (id : Text) → (seq : ℕ) → (data_bytes tag : Text) → (last : Bool) → Frame
  file_complete : (id hash : Text) → Frame
  file_cancel file_pause : (id : Text) → Frame
  file_resume_ack : (id : Text) → (resume_from : ℕ) → Frame

pub data Effect : Type 0 where
  sent : (peer : Text) → Frame → Effect
  started progressed completed cancelled posted : (id : Text) → Effect
  failed : (id error : Text) → Effect
  saved_state removed_state : (id : Text) → Effect

pub record Env : Type 0 where
  pub has_session : Text → Bool
  pub encrypt : (peer plain : Text) → Text
  pub contents : (path : Text) → Option Text
  pub seal_gcm : (key nonce plain : Text) → Text × Text
  pub load_state : (id : Text) → Option Outgoing

pub record Store : Type 0 where
  pub outgoing : Map Outgoing
  pub trace : List Effect

abbrev pub chunk_size : ℕ
chunk_size = 65536

abbrev pub emit : Effect → Store → Store
emit e s = record s { trace = e ∷ s.trace }

abbrev pub set_outgoing : Text → Outgoing → Store → Store
set_outgoing id t s = record s { outgoing = put id t s.outgoing }

abbrev pub drop_outgoing : Text → Store → Store
drop_outgoing id s = record s { outgoing = erase id s.outgoing }

unfoldable pub offer_of : Env → Option Outgoing → (id : Text) → Store → Store
offer_of env none id s = s
offer_of env (some t) id s =
    if not (env.has_session t.peer_uuid)
    then drop_outgoing id
        (emit (Effect.failed id (codes "Нет E2E-сессии — ключ файла нельзя передать безопасно")) s)
    else emit
        (sent t.peer_uuid (
          file_offer id t.file_name t.file_size t.file_hash
            (env.encrypt t.peer_uuid (t.key ++ t.nonce))))
        s

unfoldable pub send_file_offer : Env → (id : Text) → Store → Store
send_file_offer env id s = offer_of env (get id s.outgoing) id s

text_of : Option Text → Text
text_of none = []
text_of (some c) = c

-- read, of up to kChunkSize bytes from a position on.
unfoldable pub read_chunk : Env → (path : Text) → (position : ℕ) → Text
unfolding text_of
read_chunk env path position = take chunk_size (drop position (text_of (env.contents path)))

unfoldable pub send_chunk :
    (id : Text) → Outgoing → (position : ℕ) → (plain : Text) → (Text × Text) → Store → Store
send_chunk id t position plain (c, tag) s =
    let t' = record t {
      bytes_sent = t.bytes_sent + length plain;
      chunks_sent = t.chunks_sent + 1;
      file = some (position + length plain);
    } in
    if is_empty c
    then drop_outgoing id (emit (Effect.failed id (codes "Encryption failed")) s)
    else emit (posted id) (
        emit (progressed id) (
          emit
            (sent t.peer_uuid
              (file_chunk id t.chunks_sent c tag (leb t.file_size (t.bytes_sent + length plain))))
            (set_outgoing id t' s)))

unfoldable pub complete : (id : Text) → Outgoing → Store → Store
complete id t s = drop_outgoing id (
    emit (removed_state id)
      (emit (Effect.completed id) (emit (sent t.peer_uuid (file_complete id t.file_hash)) s)))

unfoldable pub next_of : Env → Outgoing → Option ℕ → (id : Text) → Store → Store
unfolding send_chunk complete
next_of env t none id s = complete id t s
next_of env t (some position) id s =
    let plain = read_chunk env t.file_path position in
    if leb t.file_size t.bytes_sent
    then complete id t s
    else if is_empty plain
    then s
    else send_chunk id t position plain
        (env.seal_gcm t.key (chunk_nonce t.nonce t.chunks_sent) plain) s

unfoldable pub send_of : Env → Option Outgoing → (id : Text) → Store → Store
unfolding next_of
send_of env none id s = s
send_of env (some t) id s = if is_stopped t.state then s else next_of env t t.file id s

unfoldable pub send_next_chunk : Env → (id : Text) → Store → Store
send_next_chunk env id s = send_of env (get id s.outgoing) id s

unfoldable pub start_of : Env → Option Outgoing → (id : Text) → Store → Store
start_of env none id s = s
start_of env (some t) id s =
    if not (is_some (env.contents t.file_path))
    then drop_outgoing id (emit (Effect.failed id (codes "Cannot open file")) s)
    else send_next_chunk env id
        (emit (started id) (set_outgoing id (record t { file = some 0; state = active }) s))

-- FILE_ACCEPT
unfoldable pub start_streaming : Env → (id : Text) → Store → Store
start_streaming env id s = start_of env (get id s.outgoing) id s

seek : Option ℕ → ℕ → Option ℕ
seek none n = none
seek (some p) n = some n

-- A transfer that is in memory goes on behind the chunk that the receiver names.
unfoldable pub resumed : (last_chunk : ℕ) → Outgoing → Outgoing
unfolding seek
resumed last t = record t {
  state = active;
  chunks_sent = last + 1;
  file = seek t.file ((last + 1) * chunk_size);
}

-- One that loadTransferState restores.
unfoldable pub restored : (last_chunk : ℕ) → Outgoing → Outgoing
restored last t = record t {
  file_hash = [];
  state = active;
  bytes_sent = last * chunk_size;
  chunks_sent = last + 1;
  file = some ((last + 1) * chunk_size);
}

reload : Env → (id : Text) → (last_chunk : ℕ) → Option Outgoing → Option Outgoing
reload env id last none = none
reload env id last (some t) =
    if is_some (env.contents t.file_path) then some (restored last t) else none

resume_to : Env → Option Outgoing → (id : Text) → (last_chunk : ℕ) → Option Outgoing
unfolding reload
resume_to env none id last = reload env id last (env.load_state id)
resume_to env (some t) id last = some (resumed last t)

unfoldable pub resume_with :
    Env → (from id : Text) → (last_chunk : ℕ) → Option Outgoing → Store → Store
resume_with env from id last none s = s
resume_with env from id last (some t) s =
    send_next_chunk env id (emit (sent from (file_resume_ack id (last + 1))) (set_outgoing id t s))

unfoldable pub handle_resume_request : Env → (from id : Text) → (last_chunk : ℕ) → Store → Store
unfolding resume_to
handle_resume_request env from id last s =
    resume_with env from id last (resume_to env (get id s.outgoing) id last) s

-- FILE_REJECT
unfoldable pub on_reject : (id : Text) → Store → Store
on_reject id s = drop_outgoing id s

unfoldable pub pause_of : (told : Bool) → Option Outgoing → (id : Text) → Store → Store
pause_of told none id s = s
pause_of told (some t) id s =
    let s' = set_outgoing id (record t { state = paused }) s in
    if told then emit (sent t.peer_uuid (file_pause id)) (emit (saved_state id) s') else s'

-- FILE_PAUSE, and pauseTransfer, which tells the peer.
unfoldable pub pause_outgoing : (told : Bool) → (id : Text) → Store → Store
pause_outgoing told id s = pause_of told (get id s.outgoing) id s

unfoldable pub cancel_of : (told : Bool) → Option Outgoing → (id : Text) → Store → Store
cancel_of told none id s = s
cancel_of told (some t) id s =
    drop_outgoing id
      (emit (Effect.cancelled id) (if told then emit (sent t.peer_uuid (file_cancel id)) s else s))

-- FILE_CANCEL, and cancelTransfer, which tells the peer.
unfoldable pub cancel_outgoing : (told : Bool) → (id : Text) → Store → Store
cancel_outgoing told id s = emit (removed_state id) (cancel_of told (get id s.outgoing) id s)
