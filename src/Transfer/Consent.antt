-- ===== src/Transfer/Consent.antt =====
-- What an offer leads to without its acceptance (src/transfer/filetransfer.cpp, handleMessage).
use naleystogramm_core.Prelude.{
  ℕ, ◌+◌, ◌≤◌, ◌≡◌, ◌≢◌, refl, true, false, none, some, [], ◌∷◌, length, arith, ltb,
}
use naleystogramm_core.Prelude.Text.{Text, text_eq_iff, is_empty}
use naleystogramm_core.Prelude.Int.{pos}
use naleystogramm_core.Prelude.Map.{get, get-put_self}
use naleystogramm_core.Transfer.{is_valid_transfer_id, chunk_nonce, sanitize_file_name}
use naleystogramm_core.Transfer.Receive.{
  Incoming, file_offer, file_chunk, Env, Store, admit, on_offer, write_chunk, finish_receiving,
  finish_of, pending, active, saved, received, offered, started, progressed, removed_state,
  completed,
}
use naleystogramm_core.Transfer.Writing.{take-all}
use naleystogramm_core.Transfer.Frames.{
  take_chunk, chunk_of, handle_file_chunk, handle_frame, handle_message,
}

-- The transfer that an offer with a plain key makes.
abbrev pub offer_made :
    (from name : Text)
    → (size : ℕ) → (hash : Text) → (duration_ms : ℕ) → (key nonce : Text) → Incoming
offer_made from name size hash d k n = record {
  peer_uuid = from;
  file_name = sanitize_file_name name;
  file_size = size;
  expected_hash = hash;
  key = k;
  nonce = n;
  bytes_received = 0;
  chunks_received = 0;
  file = none;
  hashed = [];
  state = pending;
  duration_ms = d;
}

-- The same, when all of the file has come in one chunk.
abbrev pub all_received : Incoming → (content : Text) → Incoming
all_received t content = record t {
  file = some content;
  hashed = content;
  state = active;
  bytes_received = 0 + length content;
  chunks_received = 0 + 1;
}

finish_good :
    (env : Env) (t : Incoming) (content id : Text) (s : Store)
    → get id s.incoming ≡ some (all_received t content)
    → env.sha256 content ≡ t.expected_hash
    → env.saves id ≡ true
    → (finish_receiving env id s).trace
      ≡ removed_state id
        ∷ received t.peer_uuid t.file_name
        ∷ completed id
        ∷ saved id (all_received t content) content
        ∷ s.trace
unfolding finish_receiving finish_of
finish_good env t content id s e h w =
    rw (e, (text_eq_iff (env.sha256 content) t.expected_hash).1 h, w) refl

write_good :
    (env : Env) (from name : Text) (size : ℕ) (hash : Text) (dur : ℕ) (key nonce content id : Text)
    (s : Store)
    → content ≢ []
    → length content ≤ size
    → env.sha256 content ≡ hash
    → env.saves id ≡ true
    → length content ≤ env.written id [] content
    → (write_chunk env id content true
        (record (offer_made from name size hash dur key nonce) {
          file = some [];
          hashed = [];
          state = active;
        })
        []
        s).trace
      ≡ removed_state id
        ∷ received from (sanitize_file_name name)
        ∷ completed id
        ∷ saved id (all_received (offer_made from name size hash dur key nonce) content) content
        ∷ progressed id
        ∷ s.trace
unfolding write_chunk
write_good env from name size hash dur key nonce content id s c l h w all =
    let t = offer_made from name size hash dur key nonce in
    rw (not_empty content c, fits content l, take-all (env.written id [] content) content all)
      (finish_good env t content id _ (get-put_self id (all_received t content) s.incoming) h w)
  where
    not_empty : (x : Text) → x ≢ [] → is_empty x ≡ false
    not_empty [] e = absurd (e refl)
    not_empty (b ∷ x) e = refl

    fits : (x : Text) → length x ≤ size → ltb size (0 + length x) ≡ false
    fits x e = ground arith

-- An offer with a plain key and one chunk, from any two peers, put a file in its place: nobody has to
-- accept the offer. The chunk holds the whole file, and the disk takes it.
pub unasked_file :
    (env : Env) (from peer id name : Text) (size : ℕ) (hash : Text) (dur : ℕ)
    (key nonce d tag : Text) (s : Store)
    → is_valid_transfer_id id ≡ true
    → env.open_gcm key (chunk_nonce nonce 0) d tag ≢ []
    → length (env.open_gcm key (chunk_nonce nonce 0) d tag) ≤ size
    → env.sha256 (env.open_gcm key (chunk_nonce nonce 0) d tag) ≡ hash
    → env.creates_temp id ≡ true
    → env.saves id ≡ true
    → length (env.open_gcm key (chunk_nonce nonce 0) d tag)
      ≤ env.written id [] (env.open_gcm key (chunk_nonce nonce 0) d tag)
    → let content = env.open_gcm key (chunk_nonce nonce 0) d tag in
      (handle_message env peer (file_chunk id 0 d tag true) (
        handle_message env from
          (file_offer id name
            (pos size)
            hash
            dur
            (record { enc_key_env = none; enc_key = key; enc_nonce = nonce }))
          s)).trace
      ≡ removed_state id
        ∷ received from (sanitize_file_name name)
        ∷ completed id
        ∷ saved id (all_received (offer_made from name size hash dur key nonce) content) content
        ∷ progressed id
        ∷ started id
        ∷ offered from (sanitize_file_name name) size id dur
        ∷ s.trace
unfolding handle_message handle_frame on_offer admit handle_file_chunk chunk_of take_chunk
unasked_file env from peer id name size hash dur key nonce d tag s v c l h k w all =
    rw (v, get-put_self id (offer_made from name size hash dur key nonce) s.incoming, k)
      (write_good env from name size hash dur key nonce
        (env.open_gcm key (chunk_nonce nonce 0) d tag) id _ c l h w all)
