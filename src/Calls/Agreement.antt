-- ===== src/Calls/Agreement.antt =====
-- Two call managers (src/calls/callmanager.cpp), one placing a call and one taking it.
use naleystogramm_core.Prelude.{ℕ, ◌≡◌, ◌≢◌, true, false, some, [], ◌∷◌, arith, ◌∙◌, replicate}
use naleystogramm_core.Prelude.Text.{Text, text_eq_refl, codes, is_empty}
use naleystogramm_core.Calls.{
  idle, calling, ringing, in_call, call_invite, call_accept, call_reject, sent, fired, accepted,
  rejected_by_timeout, state_changed, Env, Calls, on_call_timeout, uint16, cancel_timers,
}
use naleystogramm_core.Calls.Methods.{
  relayed, start_media, initiate_call, accept_call, handle_signaling,
}
use naleystogramm_core.Calls.Shape.{IsValid}

-- A side on which calls succeed: it has a session with every peer, derives a key for every call,
-- and its media engine starts and reports so.
pub record IsWorking {M : Type 0} (env : Env M) : Type 0 where
  pub session : (p : Text) → env.has_session p ≡ true
  pub key : (p id salt : Text) → is_empty (env.snapshot_media_key p id salt) ≡ false
  pub starts : (m : M) (ip : Text) (port : ℕ) (key : Text) → (env.start_call m ip port key).1 ≡ true
  pub runs :
      (m : M) (ip : Text) (port : ℕ) (key : Text)
      → env.is_in_call (env.start_call m ip port key).0 ≡ true

module _ {M : Type 0} (env : Env M) (w : IsWorking env) where
  -- The engine after a start with the key of a call.
  abbrev pub started : M → (peer ip : Text) → ℕ → (id salt : Text) → M
  started m peer ip port id salt =
      (env.start_call (relayed env peer m) ip port (env.snapshot_media_key peer id salt)).0

  start_media-works :
      (m : M) (ip : Text) (port : ℕ) (id salt : Text) (s : Calls M)
      → s.media ≡ some m
      → start_media env ip port id salt s
        ≡ record s { media = some (started m s.peer_uuid ip port id salt) }
  unfolding start_media
  start_media-works m ip port id salt s e = ground (
    arith,
    w.session s.peer_uuid,
    w.key s.peer_uuid id salt,
    w.starts (relayed env s.peer_uuid m) ip port (env.snapshot_media_key s.peer_uuid id salt),
  )

  -- What a placed call leaves, and the frame that it sends.
  record IsPlaced (salt id peer ip : Text) (port : ℕ) (m : M) (before s : Calls M) : Type 0 where
    is_calling : s.state ≡ calling
    has_id : s.call_id ≡ id
    has_peer : s.peer_uuid ≡ peer
    has_ip : s.peer_ip ≡ ip
    has_salt : s.pending_media_salt ≡ salt
    has_media :
        s.media ≡ some (env.end_call (env.start_call m (codes "127.0.0.1") 0 (replicate 32 0)).0)
    told :
        s.trace
        ≡ sent peer (call_invite id (uint16 port) (env.to_hex salt))
          ∷ fired (state_changed calling)
          ∷ before.trace

  initiate_call-works :
      (salt id peer ip : Text) (port : ℕ) (m : M) (s : Calls M)
      → s.state ≡ idle
      → s.media ≡ some m
      → IsPlaced salt id peer ip port m s (initiate_call env salt id (some port) peer ip s)
  unfolding initiate_call
  initiate_call-works salt id peer ip port m s i e =
      ground (arith, w.session peer, w.starts m (codes "127.0.0.1") 0 (replicate 32 0))

  on_accept-works :
      (from id peer ip salt : Text) (port : ℕ) (m : M) (s : Calls M)
      → s.state ≡ calling
      → s.call_id ≡ id
      → s.peer_uuid ≡ peer
      → s.peer_ip ≡ ip
      → s.pending_media_salt ≡ salt
      → s.media ≡ some m
      → let t = handle_signaling env from (call_accept id port) s in
        (t.state ≡ in_call)
        × (t.call_id ≡ id)
        × (t.peer_uuid ≡ peer)
        × (t.media ≡ some (started m peer ip (uint16 port) id salt))
  unfolding handle_signaling cancel_timers
  on_accept-works from id peer ip salt port m s c hid hp hip hs e = ground (
    arith,
    text_eq_refl id,
    start_media-works m s.peer_ip (uint16 port) id s.pending_media_salt (cancel_timers s),
    w.runs (relayed env peer m) ip (uint16 port) (env.snapshot_media_key peer id salt),
  )

  accept_call-works :
      (id peer ip salt : Text) (port : ℕ) (m : M) (s : Calls M)
      → peer ≢ []
      → s.state ≡ ringing
      → s.call_id ≡ id
      → s.peer_uuid ≡ peer
      → s.peer_ip ≡ ip
      → s.pending_caller_udp_port ≡ port
      → s.pending_media_salt ≡ salt
      → s.media ≡ some m
      → let t = accept_call env id s in
        let m' = started m peer ip port id salt in
        (t.state ≡ in_call)
        × (t.call_id ≡ id)
        × (t.peer_uuid ≡ peer)
        × (t.media ≡ some m')
        × (t.trace
            ≡ fired (accepted peer)
              ∷ fired (state_changed in_call)
              ∷ sent peer (call_accept id (env.local_udp_port m'))
              ∷ s.trace)
  unfolding accept_call
  accept_call-works id peer ip salt port m s n r hid hp hip hport hs e = ground (
    arith,
    text_eq_refl id,
    start_media-works m s.peer_ip s.pending_caller_udp_port id s.pending_media_salt s,
    w.runs (relayed env peer m) ip port (env.snapshot_media_key peer id salt),
  )

module _ {A B : Type 0} (ea : Env A) (eb : Env B) (wa : IsWorking ea) (wb : IsWorking eb)
    (hex : (b : Text) → eb.from_hex (ea.to_hex b) ≡ b) where
  -- Two idle managers, of alice and bob, whose environments work and whose hexadecimal codings agree:
  -- alice calls bob, bob's manager gets the CALL_INVITE that alice's sent, bob accepts, and alice's
  -- manager gets the CALL_ACCEPT that bob's sent. Then both are InCall, in the same call and with one
  -- another, and each engine was started with the media key derived from this call's id and from the
  -- one salt that alice drew, bob's towards the port that alice bound, alice's towards bob's port.
  pub call_agreed :
      (alice bob salt id ip : Text) (port : ℕ) (ma : A) (mb : B) (a : Calls A) (b : Calls B)
      → alice ≢ []
      → a.state ≡ idle
      → b.state ≡ idle
      → a.media ≡ some ma
      → b.media ≡ some mb
      → let placed = initiate_call ea salt id (some port) bob ip a in
        let rung = handle_signaling eb alice (call_invite id (uint16 port) (ea.to_hex salt)) b in
        let taken = accept_call eb id rung in
        let trial = ea.end_call (ea.start_call ma (codes "127.0.0.1") 0 (replicate 32 0)).0 in
        let b_media = started eb wb mb alice (eb.peer_ip alice) (uint16 (uint16 port)) id salt in
        let b_port = eb.local_udp_port b_media in
        let met = handle_signaling ea bob (call_accept id b_port) placed in
        (placed.trace
          ≡ sent bob (call_invite id (uint16 port) (ea.to_hex salt))
            ∷ fired (state_changed calling)
            ∷ a.trace)
        × (taken.trace
            ≡ fired (accepted alice)
              ∷ fired (state_changed in_call)
              ∷ sent alice (call_accept id b_port)
              ∷ rung.trace)
        × (met.state ≡ in_call)
        × (taken.state ≡ in_call)
        × (met.call_id ≡ id)
        × (taken.call_id ≡ id)
        × (met.peer_uuid ≡ bob)
        × (taken.peer_uuid ≡ alice)
        × (met.media ≡ some (started ea wa trial bob ip (uint16 b_port) id salt))
        × (taken.media ≡ some b_media)
  call_agreed alice bob salt id ip port ma mb a b n ia ib ha hb =
      let p = initiate_call-works ea wa salt id bob ip port ma a ia ha in
      let placed = initiate_call ea salt id (some port) bob ip a in
      let rung = handle_signaling eb alice (call_invite id (uint16 port) (ea.to_hex salt)) b in
      let trial = ea.end_call (ea.start_call ma (codes "127.0.0.1") 0 (replicate 32 0)).0 in
      let r = invited alice id (ea.to_hex salt) (uint16 port) b ib in
      let t =
        accept_call-works eb wb id alice (eb.peer_ip alice) salt (uint16 (uint16 port)) mb rung n
          r.0 r.1 r.2 r.3 r.4 (r.5 ∙ hex salt) (r.6 ∙ hb) in
      let b_media = started eb wb mb alice (eb.peer_ip alice) (uint16 (uint16 port)) id salt in
      let u =
        on_accept-works ea wa bob id bob ip salt (eb.local_udp_port b_media) trial placed
          p.is_calling p.has_id p.has_peer p.has_ip p.has_salt p.has_media in
      (p.told, t.4, u.0, t.0, u.1, t.1, u.2, t.2, u.3, t.3)
    where
      invited :
          (from id salt : Text) (port : ℕ) (s : Calls B)
          → s.state ≡ idle
          → let t = handle_signaling eb from (call_invite id port salt) s in
            (t.state ≡ ringing)
            × (t.call_id ≡ id)
            × (t.peer_uuid ≡ from)
            × (t.peer_ip ≡ eb.peer_ip from)
            × (t.pending_caller_udp_port ≡ uint16 port)
            × (t.pending_media_salt ≡ eb.from_hex salt)
            × (t.media ≡ s.media)
      invited from id salt port s i = unfold handle_signaling in ground arith

module _ {A B : Type 0} (eb : Env B) where
  -- The 30 s timer brings the caller back to Idle by callbacks alone: it sends no frame, so a callee
  -- that is still ringing answers the caller's next CALL_INVITE, and anybody else's, with busy.
  pub redial_is_busy :
      (a : Calls A) (b : Calls B) (g : ℕ) (from id salt : Text) (port : ℕ)
      → IsValid a
      → a.call_timeout ≡ some g
      → b.state ≡ ringing
      → ((on_call_timeout g a).state ≡ idle)
        × ((on_call_timeout g a).trace
            ≡ fired (rejected_by_timeout a.peer_uuid) ∷ fired (state_changed idle) ∷ a.trace)
        × (handle_signaling eb from (call_invite id port salt) b
            ≡ record b { trace = sent from (call_reject id (codes "busy")) ∷ b.trace })
  unfolding on_call_timeout handle_signaling
  redial_is_busy a b g from id salt port v e r =
      (ground (arith, v.timeout_current g), ground (arith, v.timeout_current g), ground arith)
