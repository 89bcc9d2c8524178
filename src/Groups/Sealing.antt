-- ===== src/Groups/Sealing.antt =====
-- Messages of a group (src/net/groupmanager.cpp) from one member's sendMessage to another's handleWsFrame.
use naleystogramm_core.Prelude.{
  ℕ, zero, suc, ◌+◌, ◌-◌, ◌≡◌, refl, ap, ◌∙◌, true, false, ◌!=◌, some, [], ◌∷◌, ◌++◌, append_assoc,
  length, length-append, take, drop, ltb, arith,
}
use naleystogramm_core.Prelude.Text.{Text, is_empty}
use naleystogramm_core.Prelude.Map.{get}
use naleystogramm_core.Groups.{
  Conn, Entry, msg, sent, stored, received, Groups, Env, emit, encrypt_group_msg, open_blob,
  decrypt_group_msg, message_of, on_frame, handle_ws_frame, send_of, send_message,
}

take-append : (n : ℕ) (xs ys : Text) → length xs ≡ n → take n (xs ++ ys) ≡ xs
take-append zero [] ys h = refl
take-append zero (x ∷ xs) ys h = absurd (omega arith)
take-append (suc n) [] ys h = absurd (omega arith)
take-append (suc n) (x ∷ xs) ys h = ap (λ t. x ∷ t) (take-append n xs ys (omega arith))

drop-append : (n : ℕ) (xs ys : Text) → length xs ≡ n → drop n (xs ++ ys) ≡ ys
drop-append zero [] ys h = refl
drop-append zero (x ∷ xs) ys h = absurd (omega arith)
drop-append (suc n) [] ys h = absurd (omega arith)
drop-append (suc n) (x ∷ xs) ys h = drop-append n xs ys (omega arith)

-- What the layout nonce, sealed text, tag gives back.
open_blob-append :
    (env : Env) (key nonce ct tag text : Text)
    → length nonce ≡ 12
    → length tag ≡ 16
    → env.unseal key nonce ct tag ≡ some text
    → open_blob env key (nonce ++ ct ++ tag) ≡ text
unfolding open_blob
open_blob-append env key nonce ct tag text n t opens =
    let blob = nonce ++ ct ++ tag in
    let size : length blob ≡ 12 + (length ct + 16) =
      omega (arith, length-append {A = ℕ} (nonce ++ ct) tag, length-append {A = ℕ} nonce ct) in
    let shape : blob ≡ nonce ++ (ct ++ tag) = append_assoc nonce ct tag in
    let head : take 12 blob ≡ nonce =
      ap (λ b. take 12 b) shape ∙ take-append 12 nonce (ct ++ tag) n in
    let middle : take (length blob - 12 - 16) (drop 12 blob) ≡ ct =
      ap (λ b. take (length blob - 12 - 16) b)
        (ap (λ b. drop 12 b) shape ∙ drop-append 12 nonce (ct ++ tag) n)
      ∙ take-append (length blob - 12 - 16) ct tag (omega (arith, size)) in
    let end : drop (length blob - 16) blob ≡ tag =
      drop-append (length blob - 16) (nonce ++ ct) tag
        (omega (arith, size, length-append {A = ℕ} nonce ct)) in
    let long : ltb (length blob) (12 + 16) ≡ false = ground (arith, size) in
    rw (long, head, middle, end, opens) refl

-- Two members have the group's key, of 32 bytes; the nonce has 12 bytes and the tag 16, AES-256-GCM opens
-- what it sealed, base64 decodes what it encoded, to a text that is not empty. A text that one of them, who
-- is connected, sends is written, and handed on to the other and stored there, under the name that the
-- server gives for its sender; it counts as the receiver's own where that is their name.
pub message_sent :
    (env : Env) (nonce ct tag text sender : Text) (ts : ℕ) (id : Text) (c d : Conn) (g h : Groups)
    → get id g.conns ≡ some c
    → get id h.conns ≡ some d
    → c.connected ≡ true
    → d.info.group_key ≡ c.info.group_key
    → length c.info.group_key ≡ 32
    → length nonce ≡ 12
    → length tag ≡ 16
    → env.seal c.info.group_key nonce text ≡ some (ct, tag)
    → env.unseal c.info.group_key nonce ct tag ≡ some text
    → ((t : Text) → env.from_base64 (env.to_base64 t) ≡ t)
    → is_empty (env.to_base64 (nonce ++ ct ++ tag)) ≡ false
    → is_empty text ≡ false
    → let payload = env.to_base64 (nonce ++ ct ++ tag) in
      let e : Entry = record { sender = sender; payload = payload; ts = ts } in
      let m = message_of id d.info.username e text in
      (send_message env nonce true id text g ≡ (emit (sent id payload) g, true))
      × (handle_ws_frame env id (msg e) h ≡ emit (received m) (emit (stored m) h))
unfolding send_message send_of encrypt_group_msg handle_ws_frame on_frame decrypt_group_msg
message_sent env nonce ct tag text sender ts id c d g h here there up same key n t seals opens
      decodes coded full =
    let long : (length c.info.group_key != 32) ≡ false = ground arith in
    let payload = env.to_base64 (nonce ++ ct ++ tag) in
    let plain : decrypt_group_msg env d.info.group_key payload ≡ text =
      ap (λ k. decrypt_group_msg env k payload) same
      ∙ rw (long, decodes (nonce ++ ct ++ tag))
          (open_blob-append env c.info.group_key nonce ct tag text n t opens) in
    (rw (here, up, long, seals, coded) refl, rw (there, plain, full) refl)
