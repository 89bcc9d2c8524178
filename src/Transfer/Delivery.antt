-- ===== src/Transfer/Delivery.antt =====
-- A whole file, from sendNextChunk of the sender to finishReceiving of the receiver
-- (src/transfer/filetransfer.cpp).
use mathlib.Core.Path.{subst}
use naleystogramm_core.Prelude.{
  ℕ, zero, suc, ◌+◌, ◌≤◌, ◌<◌, ◌≡◌, refl, sym, ap, ◌∙◌, true, false, Bool-cases, inl, inr, [], ◌∷◌,
  ◌++◌, leb, length, arith,
}
use naleystogramm_core.Prelude.Text.{Text, is_empty}
use naleystogramm_core.Transfer.{is_valid_transfer_id, chunk_nonce}
use naleystogramm_core.Transfer.Receive.{
  active, drop, Incoming, Env, Store, content_of, finish_of, finish_receiving, write_chunk,
  set_incoming, emit,
}
use naleystogramm_core.Transfer.Receive
use naleystogramm_core.Transfer.Frames.{handle_message}
use naleystogramm_core.Transfer.Send
use naleystogramm_core.Transfer.Send.{
  Outgoing, chunk_size, read_chunk, send_chunk, next_of, send_of, send_next_chunk, file_chunk,
}
use naleystogramm_core.Transfer.Chunks.{chunk_lem, take_end}
use naleystogramm_core.Transfer.Streaming.{
  chunks_in, stream, IsSending, next_chunk, onward, send_one, onward-IsSending,
}
use naleystogramm_core.Transfer.Taking.{
  receive, IsReceiving, IsRoomy, grown, Saved, write_more, write_last, Written, receive_one,
}

-- What AES-256-GCM promises to the two sides: what one seals is not empty, and the other opens it.
unfoldable pub IsSealing : Send.Env → Env → (key nonce : Text) → Type 0
IsSealing env env' key nonce =
    (n : ℕ) (x : Text)
    → is_empty x ≡ false
    → let c = env.seal_gcm key (chunk_nonce nonce n) x in
      (is_empty c.0 ≡ false) × (env'.open_gcm key (chunk_nonce nonce n) c.0 c.1 ≡ x)

module _ (env : Send.Env) (env' : Env) (id from content key nonce : Text)
    (seals : IsSealing env env' key nonce) (valid : is_valid_transfer_id id ≡ true)
    (creates : env'.creates_temp id ≡ true) (saves : env'.saves id ≡ true)
    (roomy : IsRoomy env') where
  -- The frame of the next chunk, and the sender behind it.
  frame_of : (p n : ℕ) → Receive.Frame
  frame_of p n =
      let x = next_chunk p content in
      let c = env.seal_gcm key (chunk_nonce nonce n) x in
      Receive.Frame.file_chunk id n c.0 c.1 (leb (length content) (p + length x))

  stream_step :
      (p n : ℕ) (o : Outgoing) (s : Send.Store)
      → IsSending env id content key nonce p n o s
      → p < length content
      → is_empty (next_chunk p content) ≡ false
      → (o1 : Outgoing) × (s1 : Send.Store) × IsSending env id content key nonce
          (p + length (next_chunk p content))
          (n + 1)
          o1
          s1
        × ((k : ℕ) → stream env id (suc k) s ≡ frame_of p n ∷ stream env id k s1)
  unfolding stream IsSealing frame_of
  stream_step p n o s so going full =
      let x = next_chunk p content in
      let s0 = record s { trace = [] } in
      let so0 : IsSending env id content key nonce p n o s0 = record {
        found = so.found;
        opened = so.opened;
        size = so.size;
        bytes = so.bytes;
        chunks = so.chunks;
        place = so.place;
        key_is = so.key_is;
        nonce_is = so.nonce_is;
        going = so.going;
      } in
      (
        onward p n x o,
        _,
        onward-IsSending env id content key nonce p n x o s0 _ so0,
        λ k.
            ap (λ s'. chunks_in s'.trace ++ stream env id k s')
              (send_one env id content key nonce p n o s0 so0 going full (seals n x full).0),
      )

  received_one :
      (p n : ℕ) (t : Incoming) (r : Store)
      → IsReceiving env' id content key nonce p n t r
      → is_empty (next_chunk p content) ≡ false
      → Written env' id content key nonce p n t
          (next_chunk p content)
          (leb (length content) (p + length (next_chunk p content)))
          (handle_message env' from (frame_of p n) r)
  unfolding IsSealing frame_of
  received_one p n t r re full =
      let x = next_chunk p content in
      let c = env.seal_gcm key (chunk_nonce nonce n) x in
      receive_one env' id content key nonce p n t r from x c.0 c.1
        (leb (length content) (p + length x)) re valid creates (seals n x full).1

  filled : (x : Text) → 0 < length x → is_empty x ≡ false
  filled [] h = absurd (omega arith)
  filled (c ∷ x) h = refl

  -- By induction on what is left.
  deliver_rest :
      (left p n : ℕ) (o : Outgoing) (s : Send.Store) (t : Incoming) (r : Store)
      → length content ≤ p + left
      → p < length content
      → IsSending env id content key nonce p n o s
      → IsReceiving env' id content key nonce p n t r
      → (k : ℕ) × (k ≤ left) × Saved id content (receive env' from (stream env id k s) r).trace
  unfolding receive Written next_chunk stream
  deliver_rest zero p n o s t r bound going so re = absurd (omega arith)
  deliver_rest (suc left) p n o s t r bound going so re =
      let x = next_chunk p content in
      let (full, fits, joined) = chunk_lem p chunk_size content going (omega arith) in
      let nonempty : is_empty x ≡ false = filled x full in
      let (o1, s1, so1, streamed) = stream_step p n o s so going nonempty in
      let (t1, r1, re1, got) = received_one p n t r re nonempty in
      elim (Bool-cases (leb (length content) (p + length x))) [
        | inl e ↦
            let end : p + length x ≡ length content = ground (arith, fits) in
            let run : receive env' from (stream env id 1 s) r
                ≡ write_chunk env' id x true t1 (content_of t1.file) r1 =
              ap (λ fs. receive env' from fs r) (streamed 0)
              ∙ got
              ∙ ap (λ b. write_chunk env' id x b t1 (content_of t1.file) r1) e in
            (
              1,
              omega arith,
              subst (λ z. Saved id content z.trace) (sym run)
                  (write_last env' id content key nonce p n t1 r1 x re1 nonempty end
                    (joined ∙ take_end (p + length x) content end) saves roomy),
            )
        | inr e ↦
            let further : p + length x < length content = ground arith in
            let t2 = grown (content_of t1.file) x t1 in
            let r2 = write_chunk env' id x false t1 (content_of t1.file) r1 in
            let re2 =
              write_more env' id content key nonce p n t1 r1 x re1 nonempty fits joined roomy in
            let (k, few, saved_at) =
              deliver_rest left (p + length x) (n + 1) o1 s1 t2 r2 (omega (arith, full)) further so1
                re2 in
            let run : receive env' from (stream env id (suc k) s) r
                ≡ receive env' from (stream env id k s1) r2 =
              ap (λ fs. receive env' from fs r) (streamed k)
              ∙ ap (λ z. receive env' from (stream env id k s1) z)
                  (got ∙ ap (λ b. write_chunk env' id x b t1 (content_of t1.file) r1) e) in
            (suc k, omega (arith, few), subst (λ z. Saved id content z.trace) (sym run) saved_at)
      ]

-- A sender that begins to stream the file, and a receiver with the offer's size, hash, key and nonce; the
-- file is not empty, AES-256-GCM opens what it sealed, the receiver can make and move the file,
-- and its disk takes every byte that is written. When
-- the sender's frames come in order and none else does, then after at most as many calls of
-- sendNextChunk as the file has bytes, the receiver has saved a file with exactly the sender's contents,
-- and reported it.
pub file_delivered :
    (env : Send.Env) (env' : Env) (id from content key nonce : Text) (o : Outgoing) (s : Send.Store)
    (t : Incoming) (r : Store)
    → IsSealing env env' key nonce
    → is_valid_transfer_id id ≡ true
    → env'.creates_temp id ≡ true
    → env'.saves id ≡ true
    → IsRoomy env'
    → 0 < length content
    → IsSending env id content key nonce 0 0 o s
    → IsReceiving env' id content key nonce 0 0 t r
    → (k : ℕ) × (k ≤ length content)
      × Saved id content (receive env' from (stream env id k s) r).trace
file_delivered env env' id from content key nonce o s t r seals valid creates saves roomy filled_up
      so re =
    deliver_rest env env' id from content key nonce seals valid creates saves roomy (length content)
      0 0 o s t r (omega arith) filled_up so re
