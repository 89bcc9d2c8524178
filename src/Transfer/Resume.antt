-- ===== src/Transfer/Resume.antt =====
-- Both sides of a transfer (src/transfer/filetransfer.cpp) together.
use naleystogramm_core.Prelude.{
  ℕ, ◌<◌, leb, length, true, false, ◌+◌, ◌*◌, ◌≡◌, ap, ◌∙◌, refl, Bool, none, some, ◌∷◌, arith,
}
use naleystogramm_core.Prelude.Text.{Text, is_empty}
use naleystogramm_core.Transfer.{is_valid_transfer_id, chunk_nonce}
use naleystogramm_core.Prelude.Map.{get, put, get-put_self, get-erase_self}
use naleystogramm_core.Transfer.Receive.{
  Incoming, Env, Store, file_resume_request, sent, active, Frame,
}
use naleystogramm_core.Transfer.Frames.{
  chunk_of, handle_file_chunk, ack_of, take_chunk, resume_of, resume_transfer, handle_frame,
  handle_message,
}
use naleystogramm_core.Transfer.Send
use naleystogramm_core.Transfer.Send.{
  Outgoing, chunk_size, read_chunk, handle_resume_request, resume_with, send_chunk, resumed,
  file_complete, start_streaming, start_of, send_next_chunk, send_of, next_of, complete,
  set_outgoing, Effect,
}

-- The chunk that the sender goes on with.
abbrev pub chunk_at : (env : Send.Env) → Outgoing → (n : ℕ) → Text
chunk_at env o n = read_chunk env o.file_path (n * chunk_size)

abbrev pub sealed_at : (env : Send.Env) → Outgoing → (n : ℕ) → Text × Text
sealed_at env o n = env.seal_gcm o.key (chunk_nonce o.nonce n) (chunk_at env o n)

sender_goes_on :
    (env : Send.Env) (from id : Text) (o : Outgoing) (position n : ℕ) (s : Send.Store)
    → get id s.outgoing ≡ some o
    → o.file ≡ some position
    → o.bytes_sent < o.file_size
    → is_empty (chunk_at env o (n + 1)) ≡ false
    → is_empty (sealed_at env o (n + 1)).0 ≡ false
    → (handle_resume_request env from id n s).trace
      ≡ Effect.posted id
        ∷ Effect.progressed id
        ∷ Effect.sent o.peer_uuid (
            Send.Frame.file_chunk id
              (n + 1)
              (sealed_at env o (n + 1)).0
              (sealed_at env o (n + 1)).1
              (leb o.file_size (o.bytes_sent + length (chunk_at env o (n + 1)))))
        ∷ Effect.sent from (Send.Frame.file_resume_ack id (n + 1))
        ∷ s.trace
unfolding handle_resume_request resume_with resumed send_next_chunk send_of next_of send_chunk
sender_goes_on env from id o position n s e f less full sealed =
    let unfinished : leb o.file_size o.bytes_sent ≡ false = ground arith in
    rw (e, get-put_self id (resumed n o) s.outgoing, f, unfinished, full, sealed) refl

-- A receiver that holds n chunks, and so waits for chunk n, asks to resume with n. A sender that has the
-- transfer, and its file open, and has not sent all of it, answers with n + 1 and sends chunk n + 1, read at
-- that chunk's place in the file; chunk n it does not send. The answer makes the receiver wait for n + 1:
-- it would ignore chunk n, and takes the chunk n + 1 behind the n chunks that it holds. The conditions on the
-- sender: there are bytes at that place, and they can be sealed.
pub resume_gap :
    (env : Send.Env) (env' : Env) (id from to d tag : Text) (last : Bool) (o : Outgoing)
    (position : ℕ) (s : Send.Store) (t : Incoming) (r : Store)
    → is_valid_transfer_id id ≡ true
    → get id r.incoming ≡ some t
    → get id s.outgoing ≡ some o
    → o.file ≡ some position
    → o.bytes_sent < o.file_size
    → is_empty (chunk_at env o (t.chunks_received + 1)) ≡ false
    → is_empty (sealed_at env o (t.chunks_received + 1)).0 ≡ false
    → let n = t.chunks_received in
      let r' = handle_message env' to (Frame.file_resume_ack id (n + 1)) r in
      ((resume_transfer id r).trace ≡ sent t.peer_uuid (file_resume_request id n) ∷ r.trace)
      × ((handle_resume_request env from id n s).trace
          ≡ Effect.posted id
            ∷ Effect.progressed id
            ∷ Effect.sent o.peer_uuid (
                Send.Frame.file_chunk id
                  (n + 1)
                  (sealed_at env o (n + 1)).0
                  (sealed_at env o (n + 1)).1
                  (leb o.file_size (o.bytes_sent + length (chunk_at env o (n + 1)))))
            ∷ Effect.sent from (Send.Frame.file_resume_ack id (n + 1))
            ∷ s.trace)
      × (handle_message env' to (Frame.file_chunk id n d tag last) r' ≡ r')
      × (handle_message env' to (Frame.file_chunk id (n + 1) d tag last) r'
          ≡ take_chunk env' id
              (env'.open_gcm t.key (chunk_nonce t.nonce (n + 1)) d tag)
              last
              (record t { state = active; chunks_received = n + 1 })
              t.file
              r')
unfolding resume_transfer resume_of handle_message handle_frame handle_file_chunk chunk_of ack_of
resume_gap env env' id from to d tag last o position s t r valid e found f less full sealed = (
  rw e refl,
  sender_goes_on env from id o position t.chunks_received s found f less full sealed,
  rw (valid, e, get-put_self id waiting r.incoming) (ground arith),
  rw (valid, e, get-put_self id waiting r.incoming) (ground arith),
)
  where
    waiting : Incoming
    waiting = record t { state = active; chunks_received = t.chunks_received + 1 }

begun : Outgoing → Outgoing
begun o = record o { file = some 0; state = active }

next_empty :
    (env : Send.Env) (o : Outgoing) (p : ℕ) (id : Text) (s : Send.Store)
    → o.file_size ≡ 0
    → next_of env o (some p) id s ≡ complete id o s
unfolding next_of
next_empty env o p id s z = ground arith

start_empty :
    (env : Send.Env) (id : Text) (o : Outgoing) (content : Text) (s : Send.Store)
    → get id s.outgoing ≡ some o
    → o.file_size ≡ 0
    → env.contents o.file_path ≡ some content
    → start_streaming env id s
      ≡ complete id (begun o) (Send.emit (Effect.started id) (Send.set_outgoing id (begun o) s))
unfolding start_streaming start_of send_next_chunk send_of begun
start_empty env id o content s e z c =
    rw (e, c, get-put_self id (begun o) s.outgoing) (next_empty env (begun o) 0 id _ z)

-- When the offer of an empty file is accepted, the sender sends FILE_COMPLETE and no chunk, reports
-- success and forgets the transfer; the receiver does nothing with FILE_COMPLETE, so that its side is
-- never finished.
pub empty_file :
    (env : Send.Env) (env' : Env) (id from : Text) (o : Outgoing) (content : Text) (s : Send.Store)
    (r : Store)
    → get id s.outgoing ≡ some o
    → o.file_size ≡ 0
    → env.contents o.file_path ≡ some content
    → ((start_streaming env id s).trace
        ≡ Effect.removed_state id
          ∷ Effect.completed id
          ∷ Effect.sent o.peer_uuid (file_complete id o.file_hash)
          ∷ Effect.started id
          ∷ s.trace)
      × (get id (start_streaming env id s).outgoing ≡ none)
      × (handle_message env' from (Frame.file_complete id) r ≡ r)
unfolding complete begun handle_message handle_frame
empty_file env env' id from o content s r e z c = (
  ap (λ x. x.trace) (start_empty env id o content s e z c),
  ap (λ x. get id x.outgoing) (start_empty env id o content s e z c)
      ∙ get-erase_self id (put id (begun o) s.outgoing),
  ground arith,
)
