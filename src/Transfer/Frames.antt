-- ===== src/Transfer/Frames.antt =====
-- The frames that src/transfer/filetransfer.cpp takes on the receiving side (handleMessage and
-- handleFileChunk), and the calls of its user there.
use naleystogramm_core.Prelude.{
  ℕ, Bool, true, false, not, Option, none, some, List, [], ◌∷◌, ◌==◌, if◌then◌else◌,
}
use naleystogramm_core.Prelude.Text.{Text, codes}
use naleystogramm_core.Prelude.Map.{get, is_some}
use naleystogramm_core.Transfer.{is_valid_transfer_id, chunk_nonce}
use naleystogramm_core.Transfer.Receive.{
  TransferState, active, paused, cancelled, Incoming, Frame, file_offer, file_accept, file_reject,
  file_cancel, file_pause, file_chunk, file_resume_request, file_resume_ack, sent, Env, Store, emit,
  set_incoming, drop_incoming, on_offer, write_chunk, Effect,
}

abbrev pub is_stopped : TransferState → Bool
is_stopped paused = true
is_stopped cancelled = true
is_stopped st = false

-- A chunk in turn: the file is made for the first.
unfoldable pub take_chunk :
    Env → (id : Text) → (plain : Text) → (last : Bool) → Incoming → Option Text → Store → Store
unfolding write_chunk
take_chunk env id plain last t (some old) s = write_chunk env id plain last t old s
take_chunk env id plain last t none s =
    let t' = record t { file = some []; hashed = []; state = active } in
    if not (env.creates_temp id)
    then drop_incoming id (emit (Effect.failed id (codes "Cannot create temp file")) s)
    else write_chunk env id plain last t' [] (emit (Effect.started id) (set_incoming id t' s))

unfoldable pub chunk_of :
    Env
    → Option Incoming
    → (id : Text) → (seq : ℕ) → (data_bytes tag : Text) → (last : Bool) → Store
    → Store
chunk_of env none id seq d tag last s = s
chunk_of env (some t) id seq d tag last s =
    if is_stopped t.state
    then s
    else if not (seq == t.chunks_received)
    then s
    else take_chunk env id (env.open_gcm t.key (chunk_nonce t.nonce seq) d tag) last t t.file s

unfoldable pub handle_file_chunk :
    Env → (id : Text) → (seq : ℕ) → (data_bytes tag : Text) → (last : Bool) → Store → Store
handle_file_chunk env id seq d tag last s = chunk_of env (get id s.incoming) id seq d tag last s

-- `told` is whether the peer is told: cancelTransfer does, FILE_CANCEL does not.
unfoldable pub cancel_of : (told : Bool) → Option Incoming → (id : Text) → Store → Store
cancel_of told none id s = s
cancel_of told (some t) id s =
    let s' = if told then emit (sent t.peer_uuid (file_cancel id)) s else s in
    drop_incoming id
      (emit (Effect.cancelled id) (if is_some t.file then emit (Effect.removed_temp id) s' else s'))

unfoldable pub cancel_incoming : (told : Bool) → (id : Text) → Store → Store
cancel_incoming told id s = emit (Effect.removed_state id) (cancel_of told (get id s.incoming) id s)

unfoldable pub ack_of : Option Incoming → (id : Text) → (resume_from : ℕ) → Store → Store
ack_of none id n s = s
ack_of (some t) id n s = set_incoming id (record t { state = active; chunks_received = n }) s

-- The receiving side's frames; the others concern the sender.
unfoldable pub handle_frame : Env → (from : Text) → Frame → Store → Store
unfolding on_offer
handle_frame env from (file_offer id name size hash d k) s =
    on_offer env from id name size hash d k s
handle_frame env from (file_chunk id seq d tag last) s = handle_file_chunk env id seq d tag last s
handle_frame env from (file_cancel id) s = cancel_incoming false id s
handle_frame env from (file_resume_ack id n) s = ack_of (get id s.incoming) id n s
handle_frame env from f s = s

abbrev id_of : Frame → Text
id_of (file_offer id name size hash d k) = id
id_of (file_accept id) = id
id_of (file_reject id) = id
id_of (file_cancel id) = id
id_of (file_pause id) = id
id_of (Frame.file_complete id) = id
id_of (file_chunk id seq d tag last) = id
id_of (file_resume_request id n) = id
id_of (file_resume_ack id n) = id

unfoldable pub handle_message : Env → (from : Text) → Frame → Store → Store
unfolding handle_frame
handle_message env from f s =
    if not (is_valid_transfer_id (id_of f)) then s else handle_frame env from f s

unfoldable pub accept_offer : (from id : Text) → Store → Store
accept_offer from id s =
    if is_some (get id s.incoming) then emit (sent from (file_accept id)) s else s

unfoldable pub reject_offer : (from id : Text) → Store → Store
reject_offer from id s = drop_incoming id (emit (sent from (file_reject id)) s)

unfoldable pub pause_of : Option Incoming → (id : Text) → Store → Store
pause_of none id s = s
pause_of (some t) id s =
    emit (sent t.peer_uuid (file_pause id))
      (emit (Effect.saved_state id) (set_incoming id (record t { state = paused }) s))

unfoldable pub pause_transfer : (id : Text) → Store → Store
pause_transfer id s = pause_of (get id s.incoming) id s

unfoldable pub resume_of : Option Incoming → (id : Text) → Store → Store
resume_of none id s = s
resume_of (some t) id s = emit (sent t.peer_uuid (file_resume_request id t.chunks_received)) s

unfoldable pub resume_transfer : (id : Text) → Store → Store
resume_transfer id s = resume_of (get id s.incoming) id s

pub data Event : Type 0 where
  message : (from : Text) → Frame → Event
  accept reject : (from id : Text) → Event
  cancel pause resume : (id : Text) → Event

module _ (env : Env) where
  unfoldable pub step : Event → Store → Store
  step (message from f) s = handle_message env from f s
  step (accept from id) s = accept_offer from id s
  step (reject from id) s = reject_offer from id s
  step (cancel id) s = cancel_incoming true id s
  step (pause id) s = pause_transfer id s
  step (resume id) s = resume_transfer id s

  unfoldable pub run : List Event → Store → Store
  run [] s = s
  run (e ∷ es) s = run es (step e s)
