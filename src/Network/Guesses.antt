-- ===== src/Network/Guesses.antt =====
-- How often the code of a pairing can be guessed (handleFrame of src/net/network.cpp).
use mathlib.Core.Path.{subst}
use naleystogramm_core.Prelude.{
  ℕ, ◌+◌, ◌-◌, ◌≤◌, ◌<◌, ◌≡◌, ◌⊎◌, inl, inr, refl, sym, ap, ◌∙◌, Bool, false, Option, none, some,
  List, [], ◌∷◌, map, arith, if◌then◌else◌, Bool-cases,
}
use naleystogramm_core.Prelude.Text.{Text, codes, text_eq}
use naleystogramm_core.Prelude.Map.{get, put, get-put_self}
use naleystogramm_core.Pairing.{validate_and_consume, current_code}
use naleystogramm_core.Network.Limits.{
  Clock, Ban, clean, count_frame, is_banned, record_failure, ban_duration_ms,
}
use naleystogramm_core.Network.Peers.{
  PeerConnection, Out, pair_reject, Effect, wrote, Network, close, write, emit,
}
use naleystogramm_core.Network.Reconnect.{Env}
use naleystogramm_core.Network.Bounds.{Between}
use naleystogramm_core.Network.Handshake.{
  ban_of, record_uuid_failure, refuse_code, on_pair_request, dispatch, handle_frame,
}
use naleystogramm_core.Network.Wire.{Frame, sanitize_ctrl}

-- A DEVICE_PAIR_REQUEST that arrives on a connection.
pub record Guess : Type 0 where
  pub now : Clock
  pub from : PeerConnection
  pub code : Text
  pub uuid : Text
  pub name : Text

abbrev pub handled : Env → Guess → Network → Network
handled env g n = (handle_frame env g.now (Frame.pair_request g.code g.uuid g.name) g.from n).1

abbrev pub handle_all : Env → List Guess → Network → Network
handle_all env [] n = n
handle_all env (g ∷ gs) n = handle_all env gs (handled env g n)

-- All from one address, by whatever connections.
abbrev pub AllFrom : (ip : Text) → List Guess → Type 0
AllFrom ip [] = Unit
AllFrom ip (g ∷ gs) = (g.from.ip ≡ ip) × AllFrom ip gs

abbrev pub times : List Guess → List ℕ
times gs = map (λ g. g.now.system) gs

-- The answer that a code was looked at, while there was one, and was wrong.
abbrev pub says_wrong : Effect → Bool
says_wrong (wrote s (pair_reject reason)) = text_eq reason (codes "invalid_code")
says_wrong e = false

abbrev pub refusals : List Effect → ℕ
refusals [] = 0
refusals (e ∷ es) = (if says_wrong e then 1 else 0) + refusals es

abbrev record_of : (ip : Text) → Network → Ban
record_of ip n = ban_of (get ip n.ban_records)

-- A guess is refused unseen, or answered otherwise; or it is refused, and is a failure of its address.
abbrev Judged : (ip : Text) → (now : ℕ) → (n n' : Network) → Type 0
Judged ip now n n' =
    ((refusals n'.trace ≡ refusals n.trace) × (n'.ban_records ≡ n.ban_records))
    ⊎ ((is_banned now (record_of ip n) ≡ false)
        × (refusals n'.trace ≤ refusals n.trace + 1)
        × (n'.ban_records ≡ put ip (record_failure now (record_of ip n)) n.ban_records))

closed_quietly :
    (o : Option ℕ) (n : Network)
    → (refusals (close o n).trace ≡ refusals n.trace) × ((close o n).ban_records ≡ n.ban_records)
closed_quietly none n = (refl, refl)
closed_quietly (some s) n = (omega arith, refl)

written_quietly :
    (o : Option ℕ) (out : Out) (n : Network)
    → ((s : ℕ) → says_wrong (wrote s out) ≡ false)
    → (refusals (write o out n).trace ≡ refusals n.trace)
      × ((write o out n).ban_records ≡ n.ban_records)
written_quietly none out n quiet = (refl, refl)
written_quietly (some s) out n quiet = (rw (quiet s) (omega arith), refl)

refused_aloud :
    (o : Option ℕ) (n : Network)
    → (refusals (write o (pair_reject (codes "invalid_code")) n).trace ≤ refusals n.trace + 1)
      × ((write o (pair_reject (codes "invalid_code")) n).ban_records ≡ n.ban_records)
unfolding text_eq
refused_aloud none n = (omega arith, refl)
refused_aloud (some s) n = (omega arith, refl)

-- The connection as the handler of the frame gets it.
abbrev counted : Guess → PeerConnection
counted g = record g.from {
  rate = (count_frame g.now.steady g.from.rate).0;
  last_activity = g.now.system;
}

handle_frame_cases :
    (env : Env) (now : Clock) (f : Frame) (c : PeerConnection) (n : Network)
    → let c' = record c { rate = (count_frame now.steady c.rate).0 } in
      (handle_frame env now f c n ≡ (c', close c.socket n))
      ⊎ ((is_banned now.system (record_of c.ip n) ≡ false)
          × (handle_frame env now f c n
              ≡ dispatch env now f (record c' { last_activity = now.system }) n))
unfolding handle_frame
handle_frame_cases env now f c n = elim (Bool-cases (count_frame now.steady c.rate).1) [
  | inr many ↦ inl (rw many refl)
  | inl few ↦ elim (Bool-cases (is_banned now.system (record_of c.ip n))) [
    | inl banned ↦ inl (rw (few, banned) refl)
    | inr free ↦ inr (free, rw (few, free) refl)
  ]
]

refuse_code-Judged :
    (now : ℕ) (live : Text) (c : PeerConnection) (n : Network)
    → is_banned now (record_of c.ip n) ≡ false
    → Judged c.ip now n (refuse_code now live c n)
unfolding refuse_code record_uuid_failure text_eq
refuse_code-Judged now [] c n free =
    inl (written_quietly c.socket (Out.pair_reject (codes "expired")) n (λ s. refl))
refuse_code-Judged now (x ∷ live) c n free =
    let (few, same) =
      refused_aloud c.socket (record n {
        ban_records = put c.ip (record_failure now (record_of c.ip n)) n.ban_records;
      }) in
    inr (free, few, same)

request-Judged :
    (env : Env) (now : ℕ) (code uuid name : Text) (c : PeerConnection) (n : Network)
    → is_banned now (record_of c.ip n) ≡ false
    → Judged c.ip now n (on_pair_request env now code uuid name c n).1
unfolding on_pair_request text_eq
request-Judged env now code [] name c n free =
    inl (written_quietly c.socket (Out.pair_reject (codes "invalid_uuid")) n (λ s. refl))
request-Judged env now code (x ∷ uuid) name c n free =
    elim (Bool-cases (validate_and_consume now code n.pairing).1) [
      | inl right ↦
          let m : Network =
            emit (Effect.linked (x ∷ uuid) (sanitize_ctrl name) false)
              (record n { pairing = (validate_and_consume now code n.pairing).0 }) in
          let (few, same) =
            written_quietly c.socket (Out.pair_accept env.own_uuid env.own_name) m (λ s. refl) in
          rw right (inl (omega (arith, few), same))
      | inr wrong ↦
          let s = current_code now (validate_and_consume now code n.pairing).0 in
          rw wrong (refuse_code-Judged now s.1 c (record n { pairing = s.0 }) free)
    ]

handled-Judged :
    (env : Env) (g : Guess) (n : Network) → Judged g.from.ip g.now.system n (handled env g n)
unfolding dispatch
handled-Judged env g n =
    let frame = Frame.pair_request g.code g.uuid g.name in
    elim (handle_frame_cases env g.now frame g.from n) [
      | inl e ↦
          subst (λ p. Judged g.from.ip g.now.system n p.1) (sym e)
            (inl (closed_quietly g.from.socket n))
      | inr (free, e) ↦
          subst (λ p. Judged g.from.ip g.now.system n p.1) (sym e)
            (request-Judged env g.now.system g.code g.uuid g.name (counted g) n free)
    ]

-- A ban record with a ban that outlasts `end`, or without any.
abbrev Pending : (end : ℕ) → Ban → Type 0
Pending end b = ((b.banned_until ≡ 0) × (b.failures ≤ 4)) ⊎ (end ≤ b.banned_until)

failure-Pending :
    (now end : ℕ) (b : Ban)
    → now < end
    → end ≤ now + ban_duration_ms
    → is_banned now b ≡ false
    → Pending end b
    → Pending end (record_failure now b)
      × (1 + (5 - (record_failure now b).failures) ≤ 5 - b.failures)
unfolding record_failure is_banned
failure-Pending now end b before short free v = ground arith

-- After one guess, and what is left for the others.
one_less :
    (ip : Text) (now end last : ℕ) (n n' : Network)
    → now < end
    → end ≤ now + ban_duration_ms
    → Pending end (record_of ip n)
    → Judged ip now n n'
    → (Pending end (record_of ip n') → last ≤ refusals n'.trace + (5 - (record_of ip n').failures))
    → last ≤ refusals n.trace + (5 - (record_of ip n).failures)
one_less ip now end last n n' before short v (inl (few, same)) rest =
    let b : record_of ip n' ≡ record_of ip n = ap (λ m. ban_of (get ip m)) same in
    let k = rest (subst (Pending end) (sym b) v) in
    let f = ap (λ x. x.failures) b in omega (arith, k, f, few)
one_less ip now end last n n' before short v (inr (free, few, same)) rest =
    let b : record_of ip n' ≡ record_failure now (record_of ip n) =
      ap (λ m. ban_of (get ip m)) same ∙ ap ban_of (get-put_self ip _ n.ban_records) in
    let (v', less) = failure-Pending now end (record_of ip n) before short free v in
    let k = rest (subst (Pending end) (sym b) v') in
    let f = ap (λ x. x.failures) b in omega (arith, k, f, few, less)

refusals_left :
    (env : Env) (ip : Text) (gs : List Guess) (a end : ℕ) (n : Network)
    → AllFrom ip gs
    → end ≤ a + ban_duration_ms
    → Between a end (times gs)
    → Pending end (record_of ip n)
    → refusals (handle_all env gs n).trace ≤ refusals n.trace + (5 - (record_of ip n).failures)
refusals_left env ip [] a end n own h w v = omega arith
refusals_left env ip (g ∷ gs) a end n (at, own) h (from, before, w) v =
    one_less ip g.now.system end (refusals (handle_all env gs (handled env g n)).trace) n
      (handled env g n) before (omega (arith, h, from)) v
      (subst (λ i. Judged i g.now.system n (handled env g n)) at (handled-Judged env g n))
      (refusals_left env ip gs g.now.system end (handled env g n) own (omega (arith, h, from)) w)

-- The guesses of an address without failures, by any connections: of those that come within 30
-- minutes at most five are answered "invalid_code", so at most five of the codes that they bring were compared
-- with the code that stood and found wrong, where the connections can be written to.
pub guesses_bound :
    (env : Env) (ip : Text) (gs : List Guess) (a : ℕ) (n : Network)
    → AllFrom ip gs
    → Between a (a + ban_duration_ms) (times gs)
    → get ip n.ban_records ≡ none
    → refusals (handle_all env gs n).trace ≤ refusals n.trace + 5
guesses_bound env ip gs a n own w new =
    let b : record_of ip n ≡ clean = ap ban_of new in
    let f = ap (λ x. x.failures) b in
    let k =
      refusals_left env ip gs a (a + ban_duration_ms) n own (omega arith) w
        (inl (ap (λ x. x.banned_until) b, omega (arith, f))) in
    omega (arith, k, f)
