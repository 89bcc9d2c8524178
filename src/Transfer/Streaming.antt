-- ===== src/Transfer/Streaming.antt =====
-- One call of sendNextChunk (src/transfer/filetransfer.cpp) in the midst of a transfer.
use naleystogramm_core.Prelude.{
  ℕ, zero, suc, ◌+◌, ◌<◌, ◌≡◌, refl, false, some, List, [], ◌∷◌, ◌++◌, leb, length, take, arith,
}
use naleystogramm_core.Prelude.Text.{Text, is_empty}
use naleystogramm_core.Prelude.Map.{get, get-put_self}
use naleystogramm_core.Transfer.{chunk_nonce}
use naleystogramm_core.Transfer.Receive.{
  active, drop, Incoming, Env, Store, content_of, finish_of, finish_receiving, write_chunk,
  set_incoming, emit,
}
use naleystogramm_core.Transfer.Receive
use naleystogramm_core.Transfer.Frames.{is_stopped}
use naleystogramm_core.Transfer.Send
use naleystogramm_core.Transfer.Send.{
  Outgoing, chunk_size, read_chunk, send_chunk, next_of, send_of, send_next_chunk, file_chunk,
}

-- The chunks that a trace holds, oldest first.
abbrev pub chunks_in : List Send.Effect → List Receive.Frame
chunks_in [] = []
chunks_in (Send.Effect.sent peer (file_chunk id seq d tag last) ∷ es) =
    chunks_in es ++ Receive.Frame.file_chunk id seq d tag last ∷ []
chunks_in (e ∷ es) = chunks_in es

-- What the sender sends in k calls of sendNextChunk.
unfoldable pub stream : Send.Env → (id : Text) → (k : ℕ) → Send.Store → List Receive.Frame
stream env id zero s = []
stream env id (suc k) s =
    let s' = send_next_chunk env id (record s { trace = [] }) in
    chunks_in s'.trace ++ stream env id k s'

-- The sender has sent the first p bytes, in n chunks.
pub record IsSending (env : Send.Env) (id content key nonce : Text) (p n : ℕ) (o : Outgoing)
    (s : Send.Store) : Type 0 where
  pub found : get id s.outgoing ≡ some o
  pub opened : env.contents o.file_path ≡ some content
  pub size : o.file_size ≡ length content
  pub bytes : o.bytes_sent ≡ p
  pub chunks : o.chunks_sent ≡ n
  pub place : o.file ≡ some p
  pub key_is : o.key ≡ key
  pub nonce_is : o.nonce ≡ nonce
  pub going : is_stopped o.state ≡ false

unfoldable pub next_chunk : (p : ℕ) → (content : Text) → Text
next_chunk p content = take chunk_size (drop p content)

pub read_chunk-next_chunk :
    (env : Send.Env) (path content : Text) (p : ℕ)
    → env.contents path ≡ some content
    → read_chunk env path p ≡ next_chunk p content
unfolding read_chunk next_chunk
read_chunk-next_chunk env path content p e = rw e refl

-- The transfer behind the chunk x.
abbrev pub onward : (p n : ℕ) → (x : Text) → Outgoing → Outgoing
onward p n x o = record o {
  bytes_sent = p + length x;
  chunks_sent = n + 1;
  file = some (p + length x);
}

-- One call of sendNextChunk sends the next chunk.
pub send_one :
    (env : Send.Env) (id content key nonce : Text) (p n : ℕ) (o : Outgoing) (s : Send.Store)
    → IsSending env id content key nonce p n o s
    → p < length content
    → let x = next_chunk p content in
      let c = env.seal_gcm key (chunk_nonce nonce n) x in
      is_empty x ≡ false
      → is_empty c.0 ≡ false
      → send_next_chunk env id s
        ≡ Send.emit (Send.Effect.posted id) (
            Send.emit (Send.Effect.progressed id) (
              Send.emit
                (Send.Effect.sent o.peer_uuid
                  (file_chunk id n c.0 c.1 (leb (length content) (p + length x))))
                (Send.set_outgoing id (onward p n x o) s)))
unfolding send_next_chunk send_of next_of send_chunk
send_one env id content key nonce p n o s v h full sealed =
    let unfinished : leb (length content) p ≡ false = ground arith in
    rw
      (
        v.found,
        v.going,
        v.place,
        v.size,
        v.bytes,
        unfinished,
        read_chunk-next_chunk env o.file_path content p v.opened,
        full,
        v.chunks,
        v.key_is,
        v.nonce_is,
        sealed,
      )
      refl

pub onward-IsSending :
    (env : Send.Env) (id content key nonce : Text) (p n : ℕ) (x : Text) (o : Outgoing)
    (s : Send.Store) (es : List Send.Effect)
    → IsSending env id content key nonce p n o s
    → IsSending env id content key nonce
        (p + length x)
        (n + 1)
        (onward p n x o)
        (record (Send.set_outgoing id (onward p n x o) s) { trace = es })
onward-IsSending env id content key nonce p n x o s es v = record {
  found = get-put_self id (onward p n x o) s.outgoing;
  opened = v.opened;
  size = v.size;
  bytes = refl;
  chunks = refl;
  place = refl;
  key_is = v.key_is;
  nonce_is = v.nonce_is;
  going = v.going;
}
