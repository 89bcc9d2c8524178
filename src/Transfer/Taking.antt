-- ===== src/Transfer/Taking.antt =====
-- One chunk at the receiver of src/transfer/filetransfer.cpp in the midst of a transfer.
use naleystogramm_core.Prelude.{
  ℕ, ◌+◌, ◌≤◌, ◌≡◌, refl, sym, ap, ◌∙◌, Bool, true, false, Option, none, some, List, [], ◌∷◌, ◌++◌,
  ltb, ◌==◌, length, take, arith,
}
use naleystogramm_core.Prelude.Text.{Text, text_eq, text_eq_refl, is_empty}
use naleystogramm_core.Prelude.Map.{get, get-put_self}
use naleystogramm_core.Transfer.{is_valid_transfer_id, chunk_nonce}
use naleystogramm_core.Transfer.Receive.{
  active, drop, Incoming, Env, Store, content_of, finish_of, finish_receiving, write_chunk,
  set_incoming, emit,
}
use naleystogramm_core.Transfer.Receive
use naleystogramm_core.Transfer.Writing.{take-all}
use naleystogramm_core.Transfer.Frames.{
  is_stopped, take_chunk, chunk_of, handle_file_chunk, handle_frame, handle_message,
}

unfoldable pub receive : Env → (from : Text) → List Receive.Frame → Store → Store
receive env from [] r = r
receive env from (f ∷ fs) r = receive env from fs (handle_message env from f r)

-- The receiver holds the first p bytes, in n chunks.
pub record IsReceiving (env : Env) (id content key nonce : Text) (p n : ℕ) (t : Incoming)
    (r : Store) : Type 0 where
  pub found : get id r.incoming ≡ some t
  pub size : t.file_size ≡ length content
  pub hash : t.expected_hash ≡ env.sha256 content
  pub bytes : t.bytes_received ≡ p
  pub chunks : t.chunks_received ≡ n
  pub held : content_of t.file ≡ take p content
  pub fed : t.hashed ≡ take p content
  pub key_is : t.key ≡ key
  pub nonce_is : t.nonce ≡ nonce
  pub going : is_stopped t.state ≡ false

-- The receiver's transfer with the chunk x behind the contents `old`.
abbrev pub grown : (old x : Text) → Incoming → Incoming
grown old x t = record t {
  file = some (old ++ x);
  hashed = t.hashed ++ x;
  bytes_received = t.bytes_received + length x;
  chunks_received = t.chunks_received + 1;
}

abbrev pub Saved : (id content : Text) → List Receive.Effect → Type 0
Saved id content tr =
    (t : Incoming) × (es : List Receive.Effect) × (tr
      ≡ Receive.Effect.removed_state id
        ∷ Receive.Effect.received t.peer_uuid t.file_name
        ∷ Receive.Effect.completed id
        ∷ Receive.Effect.saved id t content
        ∷ es)

-- The disk takes every byte that is written.
abbrev pub IsRoomy : Env → Type 0
IsRoomy env = (id old plain : Text) → length plain ≤ env.written id old plain

module _ (env : Env) (id content key nonce : Text) (p n : ℕ) (t : Incoming) where
  pub write_more :
      (r : Store) (x : Text)
      → IsReceiving env id content key nonce p n t r
      → is_empty x ≡ false
      → p + length x ≤ length content
      → take p content ++ x ≡ take (p + length x) content
      → IsRoomy env
      → IsReceiving env id content key nonce
          (p + length x)
          (n + 1)
          (grown (content_of t.file) x t)
          (write_chunk env id x false t (content_of t.file) r)
  unfolding write_chunk
  write_more r x v full fits joined roomy =
      let inside : ltb t.file_size (t.bytes_received + length x) ≡ false =
        ground (arith, v.size, v.bytes) in
      let all =
        take-all (env.written id (content_of t.file) x) x (roomy id (content_of t.file) x) in
      rw (full, inside, all)
        (record {
          found = get-put_self id (grown (content_of t.file) x t) r.incoming;
          size = v.size;
          hash = v.hash;
          bytes = ap (λ b. b + length x) v.bytes;
          chunks = ap (λ m. m + 1) v.chunks;
          held = ap (λ c. c ++ x) v.held ∙ joined;
          fed = ap (λ c. c ++ x) v.fed ∙ joined;
          key_is = v.key_is;
          nonce_is = v.nonce_is;
          going = v.going;
        })

  pub write_last :
      (r : Store) (x : Text)
      → IsReceiving env id content key nonce p n t r
      → is_empty x ≡ false
      → p + length x ≡ length content
      → take p content ++ x ≡ content
      → env.saves id ≡ true
      → IsRoomy env
      → Saved id content (write_chunk env id x true t (content_of t.file) r).trace
  unfolding write_chunk finish_receiving finish_of
  write_last r x v full fits joined saves roomy =
      let inside : ltb t.file_size (t.bytes_received + length x) ≡ false =
        ground (arith, v.size, v.bytes) in
      let all =
        take-all (env.written id (content_of t.file) x) x (roomy id (content_of t.file) x) in
      rw (full, inside, all)
        (let t' = grown (content_of t.file) x t in
          let whole : content_of t.file ++ x ≡ content = ap (λ c. c ++ x) v.held ∙ joined in
          let fed : t.hashed ++ x ≡ content = ap (λ c. c ++ x) v.fed ∙ joined in
          let sound : text_eq (env.sha256 (t.hashed ++ x)) t.expected_hash ≡ true =
            ap (λ h. text_eq (env.sha256 (t.hashed ++ x)) h) v.hash
            ∙ ap (λ c. text_eq (env.sha256 c) (env.sha256 content)) fed
            ∙ text_eq_refl (env.sha256 content) in
          let older = Receive.Effect.progressed id ∷ r.trace in
          (
            t',
            older,
            rw (get-put_self id t' r.incoming, sound, saves)
                (ap
                  (λ c.
                    Receive.Effect.removed_state id
                    ∷ Receive.Effect.received t.peer_uuid t.file_name
                    ∷ Receive.Effect.completed id
                    ∷ Receive.Effect.saved id t' c
                    ∷ older)
                  whole),
          ))

  -- Where the chunk is written, and that the transfer is ready for it.
  unfoldable pub Written : (x : Text) → (last : Bool) → (r' : Store) → Type 0
  Written x last r' =
      (t1 : Incoming) × (r1 : Store) × IsReceiving env id content key nonce p n t1 r1
      × (r' ≡ write_chunk env id x last t1 (content_of t1.file) r1)

  pub take_chunk-Written :
      (r : Store) (x : Text) (last : Bool) (o : Option Text)
      → IsReceiving env id content key nonce p n t r
      → env.creates_temp id ≡ true
      → t.file ≡ o
      → Written x last (take_chunk env id x last t o r)
  unfolding take_chunk Written
  take_chunk-Written r x last (some old) v creates e =
      (t, r, v, ap (λ o. write_chunk env id x last t (content_of o) r) (sym e))
  take_chunk-Written r x last none v creates e =
      let t1 = record t { file = some []; hashed = []; state = active } in
      (
        t1,
        emit (Receive.Effect.started id) (set_incoming id t1 r),
        record {
          found = get-put_self id t1 r.incoming;
          size = v.size;
          hash = v.hash;
          bytes = v.bytes;
          chunks = v.chunks;
          held = ap content_of (sym e) ∙ v.held;
          fed = ap content_of (sym e) ∙ v.held;
          key_is = v.key_is;
          nonce_is = v.nonce_is;
          going = refl;
        },
        rw creates refl,
      )

  -- A chunk that comes in turn and can be decrypted.
  pub receive_one :
      (r : Store) (from x d tag : Text) (last : Bool)
      → IsReceiving env id content key nonce p n t r
      → is_valid_transfer_id id ≡ true
      → env.creates_temp id ≡ true
      → env.open_gcm key (chunk_nonce nonce n) d tag ≡ x
      → Written x last (handle_message env from (Receive.Frame.file_chunk id n d tag last) r)
  unfolding handle_message handle_frame handle_file_chunk chunk_of
  receive_one r from x d tag last v valid creates opens =
      let turn : (n == t.chunks_received) ≡ true = ground (arith, v.chunks) in
      let plain : env.open_gcm t.key (chunk_nonce t.nonce n) d tag ≡ x =
        ap (λ k. env.open_gcm k (chunk_nonce t.nonce n) d tag) v.key_is
        ∙ ap (λ m. env.open_gcm key (chunk_nonce m n) d tag) v.nonce_is
        ∙ opens in
      rw (valid, v.found, v.going, turn, plain) (take_chunk-Written r x last t.file v creates refl)
