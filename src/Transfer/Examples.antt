-- ===== src/Transfer/Examples.antt =====
-- Transfers (src/transfer/filetransfer.cpp) on concrete input.
use naleystogramm_core.Prelude.{
  ℕ, zero, suc, ap, ◌∙◌, leb, ◌+◌, ◌*◌, ◌≤◌, ◌<◌, ◌≡◌, refl, true, false, none, some, [], ◌∷◌,
  length, arith,
}
use naleystogramm_core.Prelude.Text.{Text, is_empty, codes, all_bytes, text_eq}
use naleystogramm_core.Prelude.Int.{pos}
use naleystogramm_core.Prelude.Map.{get}
use naleystogramm_core.Transfer.{
  is_valid_transfer_id, last_component, remove_if, erase_dots, drop_dots, strip_name, or_unnamed,
  sanitize_file_name, xor_low, chunk_nonce,
}
use naleystogramm_core.Transfer.Names.{is_plain, has_dots, is_solid, sanitize_file_name_safe}
use naleystogramm_core.Transfer.Nonces.{chunk_nonce_cancel}
use naleystogramm_core.Transfer.Receive
use naleystogramm_core.Transfer.Receive.{
  Incoming, Frame, Effect, file_offer, file_chunk, file_resume_request, sent, file_resume_ack,
  active, Env, Store,
}
use naleystogramm_core.Transfer.Frames.{message, take_chunk, handle_message, resume_transfer, run}
use naleystogramm_core.Transfer.Writing.{IsBounded}
use naleystogramm_core.Transfer.Bounds.{run-IsBounded}
use naleystogramm_core.Transfer.Send
use naleystogramm_core.Transfer.Send.{Outgoing, chunk_size, handle_resume_request, start_streaming}
use naleystogramm_core.Transfer.Streaming.{stream, next_chunk, read_chunk-next_chunk}
use naleystogramm_core.Transfer.Chunks.{chunk_lem}
use naleystogramm_core.Transfer.Taking.{Saved, receive}
use naleystogramm_core.Transfer.Delivery.{IsSealing, file_delivered}
use naleystogramm_core.Transfer.Resume.{chunk_at, sealed_at, resume_gap}
use naleystogramm_core.Transfer.Consent.{offer_made, all_received, unasked_file}

traversal : sanitize_file_name (codes "../../etc/pass..wd") ≡ codes "passwd"
unfolding sanitize_file_name strip_name or_unnamed last_component remove_if erase_dots drop_dots
traversal = refl

dots_only : sanitize_file_name (codes "a/...") ≡ codes "unnamed_file"
unfolding sanitize_file_name strip_name or_unnamed last_component remove_if erase_dots drop_dots
dots_only = refl

sanitize_file_name_safe_example :
    (all_bytes is_plain (sanitize_file_name (codes "../../etc/pass..wd")) ≡ true)
    × (has_dots (sanitize_file_name (codes "../../etc/pass..wd")) ≡ false)
    × (is_solid (sanitize_file_name (codes "../../etc/pass..wd")) ≡ true)
    × (0 < length (sanitize_file_name (codes "../../etc/pass..wd")))
    × (length (sanitize_file_name (codes "../../etc/pass..wd")) ≤ 200)
sanitize_file_name_safe_example = sanitize_file_name_safe (codes "../../etc/pass..wd")

abbrev base : Text
base = 1 ∷ 2 ∷ 3 ∷ 4 ∷ 5 ∷ 6 ∷ 7 ∷ 8 ∷ 9 ∷ 10 ∷ 11 ∷ 12 ∷ []

nonce_of_256 : chunk_nonce base 256 ≡ 1 ∷ 2 ∷ 3 ∷ 4 ∷ 5 ∷ 6 ∷ 7 ∷ 8 ∷ 9 ∷ 10 ∷ 10 ∷ 12 ∷ []
unfolding chunk_nonce xor_low
nonce_of_256 = refl

chunk_nonce_cancel_example : 2 + 1 ≡ 3
chunk_nonce_cancel_example =
    chunk_nonce_cancel base (2 + 1) 3 (omega arith) (omega arith) (omega arith) refl

-- No encryption: what is sealed is opened.
abbrev env : Env
env = record {
  has_session = λ peer. false;
  decrypt = λ peer e. none;
  open_gcm = λ key nonce d tag. d;
  sha256 = λ content. content;
  creates_temp = λ id. true;
  saves = λ id. true;
  written = λ id old plain. length plain;
}

abbrev send_env : Send.Env
send_env = record {
  has_session = λ peer. true;
  encrypt = λ peer plain. plain;
  contents = λ path. some [];
  seal_gcm = λ key nonce plain. (plain, []);
  load_state = λ id. none;
}

abbrev empty : Store
empty = record { incoming = []; trace = [] }

abbrev id : Text
id = codes "a-1"

unasked_file_example :
    (handle_message env (codes "eve") (file_chunk id 0 (codes "hi") [] true) (
      handle_message env
        (codes "bob")
        (file_offer id
          (codes "a/b")
          (pos 2)
          (codes "hi")
          0
          (record { enc_key_env = none; enc_key = []; enc_nonce = base }))
        empty)).trace
    ≡ Effect.removed_state id
      ∷ Effect.received (codes "bob") (sanitize_file_name (codes "a/b"))
      ∷ Effect.completed id
      ∷ Effect.saved id
          (all_received
            (offer_made (codes "bob") (codes "a/b") 2 (codes "hi") 0 [] base)
            (codes "hi"))
          (codes "hi")
      ∷ Effect.progressed id
      ∷ Effect.started id
      ∷ Effect.offered (codes "bob") (sanitize_file_name (codes "a/b")) 2 id 0
      ∷ []
unfolding is_valid_transfer_id
unasked_file_example =
    unasked_file env (codes "bob") (codes "eve") id (codes "a/b") 2 (codes "hi") 0 [] base
      (codes "hi") [] empty refl (cc) (omega arith) refl refl refl (omega arith)

run-IsBounded_example : IsBounded env (
    run env
      (message (codes "bob") (
          file_offer id
            (codes "a/b")
            (pos 2)
            (codes "hi")
            0
            (record { enc_key_env = none; enc_key = []; enc_nonce = base }))
        ∷ message (codes "bob") (file_chunk id 0 (codes "hi") [] true)
        ∷ [])
      empty)
run-IsBounded_example = run-IsBounded env _ empty (record { sound = tt; verified = tt })

abbrev leaving : Outgoing
leaving = record {
  peer_uuid = codes "ann";
  file_path = codes "b";
  file_name = codes "b";
  file_size = 0;
  file_hash = [];
  key = [];
  nonce = base;
  bytes_sent = 0;
  chunks_sent = 0;
  file = some 0;
  state = Receive.pending;
}

-- A file of 70000 bytes.
zeros : ℕ → Text
zeros zero = []
zeros (suc k) = 0 ∷ zeros k

length-zeros : (k : ℕ) → length (zeros k) ≡ k
unfolding zeros
length-zeros zero = refl
length-zeros (suc k) = ap suc (length-zeros k)

abbrev long_env : Send.Env
long_env = record send_env { contents = λ path. some (zeros 70000) }

abbrev long_file : Outgoing
long_file = record leaving { file_size = 70000; file = some 0; state = active }

abbrev long_source : Send.Store
long_source = record { outgoing = (id, long_file) ∷ []; trace = [] }

filled : (x : Text) → 0 < length x → is_empty x ≡ false
filled [] h = absurd (omega arith)
filled (c ∷ x) h = refl

-- There is a second chunk.
second_chunk : is_empty (chunk_at long_env long_file (0 + 1)) ≡ false
unfolding next_chunk
second_chunk =
    ap is_empty
      (read_chunk-next_chunk long_env (codes "b") (zeros 70000) ((0 + 1) * chunk_size) refl)
    ∙ filled _
        (chunk_lem ((0 + 1) * chunk_size) chunk_size (zeros 70000)
          (omega (arith, length-zeros 70000)) (omega arith)).0

abbrev waiting_offer : Incoming
waiting_offer = offer_made (codes "bob") (codes "b") 70000 [] 0 [] base

abbrev receiving : Store
receiving = record { incoming = (id, waiting_offer) ∷ []; trace = [] }

abbrev acked : Store
acked = handle_message env (codes "bob") (file_resume_ack id (0 + 1)) receiving

resume_gap_example :
    ((resume_transfer id receiving).trace ≡ sent (codes "bob") (file_resume_request id 0) ∷ [])
    × ((handle_resume_request long_env (codes "ann") id 0 long_source).trace
        ≡ Send.Effect.posted id
          ∷ Send.Effect.progressed id
          ∷ Send.Effect.sent (codes "ann") (
              Send.Frame.file_chunk id
                (0 + 1)
                (sealed_at long_env long_file (0 + 1)).0
                (sealed_at long_env long_file (0 + 1)).1
                (leb 70000 (0 + length (chunk_at long_env long_file (0 + 1)))))
          ∷ Send.Effect.sent (codes "ann") (Send.Frame.file_resume_ack id (0 + 1))
          ∷ [])
    × (handle_message env (codes "bob") (file_chunk id 0 (codes "x") [] true) acked ≡ acked)
    × (handle_message env (codes "bob") (file_chunk id (0 + 1) (codes "x") [] true) acked
        ≡ take_chunk env id
            (codes "x")
            true
            (record waiting_offer { state = active; chunks_received = 0 + 1 })
            none
            acked)
unfolding get text_eq is_valid_transfer_id
resume_gap_example =
    resume_gap long_env env id (codes "ann") (codes "bob") (codes "x") [] true long_file 0
      long_source waiting_offer receiving refl refl refl refl (omega arith) second_chunk
      second_chunk

-- A file of two bytes.
abbrev two_bytes : Text
two_bytes = codes "hi"

abbrev plain_env : Send.Env
plain_env = record send_env { contents = λ path. some two_bytes }

abbrev begun_file : Outgoing
begun_file = record leaving { file_size = 2; file_hash = two_bytes; state = active }

abbrev taken_offer : Incoming
taken_offer = offer_made (codes "bob") (codes "b") 2 two_bytes 0 [] base

abbrev source : Send.Store
source = record { outgoing = (id, begun_file) ∷ []; trace = [] }

abbrev target : Store
target = record { incoming = (id, taken_offer) ∷ []; trace = [] }

file_delivered_example :
    (k : ℕ) × (k ≤ 2)
    × Saved id two_bytes (receive env (codes "bob") (stream plain_env id k source) target).trace
unfolding get text_eq is_valid_transfer_id IsSealing
file_delivered_example =
    file_delivered plain_env env id (codes "bob") two_bytes [] base begun_file source taken_offer
      target (λ n x h. (h, refl)) refl refl refl (λ i old x. omega arith) (omega arith)
      (record {
        found = refl;
        opened = refl;
        size = refl;
        bytes = refl;
        chunks = refl;
        place = refl;
        key_is = refl;
        nonce_is = refl;
        going = refl;
      })
      (record {
        found = refl;
        size = refl;
        hash = refl;
        bytes = refl;
        chunks = refl;
        held = refl;
        fed = refl;
        key_is = refl;
        nonce_is = refl;
        going = refl;
      })
