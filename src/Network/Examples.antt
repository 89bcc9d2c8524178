-- ===== src/Network/Examples.antt =====
-- src/net/network.cpp on concrete input.
use naleystogramm_core.Prelude.{
  ◌+◌, ℕ, zero, suc, ap, ◌≡◌, refl, ◌≤◌, ◌<◌, ◌⊎◌, true, false, Option, some, [], ◌∷◌, ◌++◌, length,
  arith,
}
use naleystogramm_core.Prelude.Text.{Text, codes, text_eq}
use naleystogramm_core.Prelude.Decimal.{stoi}
use naleystogramm_core.Prelude.Map.{get, put, erase, is_some, get-put_self}
use naleystogramm_core.Identity.{is_valid_uuid}
use naleystogramm_core.Version.{compare}
use naleystogramm_core.Prelude.Scan.{split_first, lacks}
use naleystogramm_core.Network.{before, max_frame_size, take_frame, go_on, frames, try_parse_frames}
use naleystogramm_core.Network.Framing.{and_then, try_parse_frames_append}
use naleystogramm_core.Network.Limits.{Clock, count_frame, is_banned}
use naleystogramm_core.Network.Guesses.{Guess, refusals, handle_all, guesses_bound}
use naleystogramm_core.Network.Peers.{
  connected, disconnected, PeerConnection, ReconnectInfo, in_pending, in_peers, wrote, payload,
  fired, message, incoming_request, Network, put_in, set_peer, close,
}
use naleystogramm_core.Network.Queue.{drain_message_queue, run_posted}
use naleystogramm_core.Network.Delivery.{send_all, queued_in_order}
use naleystogramm_core.Network.Reconnect.{Env, new_peer}
use naleystogramm_core.Network.Retry.{round, rounds, IsRetrying, IsForgotten, gives_up}
use naleystogramm_core.Network.Handshake.{
  on_uuid_challenge, record_uuid_failure, on_handshake_ack, dispatch, handle_frame, deliver_of,
  deliver,
}
use naleystogramm_core.Network.Wire.{Frame, is_old, sanitize_ctrl}
use naleystogramm_core.Network.Trust.{find_in-put_in, claimed_identity}
use naleystogramm_core.Network.Welcome.{IsWelcome, Entered, on_handshake_ack_lem}

-- Every line parses, to itself.
abbrev echo : Text → Option Text
echo line = some line

two_lines : try_parse_frames echo (codes "a\nbc\nd") ≡ (codes "a" ∷ codes "bc" ∷ [], codes "d")
unfolding try_parse_frames frames go_on take_frame split_first
two_lines = refl

try_parse_frames_append_example :
    (try_parse_frames echo (codes "a\nb" ++ codes "c\nd")
      ≡ and_then echo (try_parse_frames echo (codes "a\nb")) (codes "c\nd"))
    × (lacks b'\n' (try_parse_frames echo (codes "a\nb")).1 ≡ true)
    × (lacks b'\n' (codes "bc") ≡ true
        → length (codes "bc") ≤ max_frame_size
        → echo (codes "bc") ≡ some (codes "bc")
        → try_parse_frames echo (codes "bc" ++ b'\n' ∷ codes "d")
          ≡ before (codes "bc" ∷ []) (try_parse_frames echo (codes "d")))
try_parse_frames_append_example =
    try_parse_frames_append echo (codes "a\nb") (codes "c\nd") (codes "bc") (codes "d") (codes "bc")

-- A peer, its connection, and the manager before anything happened.
abbrev ann : Text
ann = codes "01234567-89ab-4def-8123-456789abcdef"

abbrev home : Env
home = record {
  client_server = false;
  valid_address = λ ip. true;
  own_uuid = codes "fedcba98-7654-4321-8fed-cba987654321";
  own_name = codes "bob";
  acting_as_device = false;
  app_version = codes "0.9.0";
  advertised_port = 0;
  local_port = 47821;
  relay_ip = codes "10.0.0.9";
}

abbrev idle : Network
idle = record {
  peers = [];
  pending = [];
  reconnect_info = [];
  ban_records = [];
  reconnect_attempts = [];
  timers = [];
  next_timer = 1;
  queues = [];
  relay_peers = [];
  relay_ready = false;
  closed = [];
  posted = [];
  pairing = record { code = []; expiry = 0 };
  trace = [];
}

abbrev at : ℕ → Clock
at t = record { steady = t; system = t }

-- A connection from 10.0.0.7 by socket 3, and one that says it is ann.
abbrev caller : PeerConnection
caller = new_peer (codes "tmp") [] (codes "10.0.0.7") (some 3) disconnected 0 []

abbrev waiting : PeerConnection
waiting = record caller { uuid = ann; name = codes "ann" }

abbrev with_caller : Network
with_caller = put_in in_pending (codes "tmp") caller idle

-- A wrong answer to a challenge is a failure of the address, and the connection is closed.
wrong_challenge :
    (deliver home (at 5) in_pending (codes "tmp") (Frame.uuid_challenge ann) with_caller).closed
    ≡ 3 ∷ []
unfolding deliver deliver_of handle_frame count_frame is_banned dispatch on_uuid_challenge get put
    erase text_eq record_uuid_failure
wrong_challenge = refl

-- A code stands, and the caller guesses twice.
abbrev guarded : Network
guarded = record idle { pairing = record { code = codes "123456"; expiry = 100 } }

abbrev guess_at : ℕ → Guess
guess_at t = record {
  now = at t;
  from = caller;
  code = codes "000000";
  uuid = ann;
  name = codes "ann";
}

guesses_bound_example :
    refusals (handle_all home (guess_at 1 ∷ guess_at 2 ∷ []) guarded).trace ≤ 0 + 5
unfolding get
guesses_bound_example =
    guesses_bound home (codes "10.0.0.7") (guess_at 1 ∷ guess_at 2 ∷ []) 1 guarded
      (refl, (refl, tt)) (omega arith, omega arith, (omega arith, omega arith, tt)) refl

queued_in_order_example :
    let n' =
      drain_message_queue ann
        (set_peer ann waiting (send_all true 5 ann (codes "hi" ∷ codes "you" ∷ []) idle)) in
    (run_posted 2 true 9 n').trace
    ≡ wrote 3 (payload (codes "you")) ∷ wrote 3 (payload (codes "hi")) ∷ []
unfolding get
queued_in_order_example =
    queued_in_order true 5 9 ann (codes "hi" ∷ codes "you" ∷ []) waiting 3 idle
      (record { unrelayed = refl; unreached = λ c e. absurd (cc) }) refl refl refl refl

-- A peer in use, by socket 3.
abbrev in_use : PeerConnection
in_use = record caller { uuid = codes "eve"; state = connected }

abbrev with_peer : Network
with_peer = put_in in_peers (codes "eve") in_use idle

claimed_identity_example :
    (deliver home (at 6) in_peers (codes "eve") (Frame.other (codes "{}")) (
      deliver home
        (at 6)
        in_peers
        (codes "eve")
        (Frame.handshake ann (codes "0.9.0") (codes "ann") 1)
        with_peer)).trace
    ≡ fired (message ann (codes "{}"))
      ∷ fired (incoming_request ann (sanitize_ctrl (codes "ann")) (codes "10.0.0.7"))
      ∷ []
unfolding is_old compare is_valid_uuid get is_banned stoi
claimed_identity_example =
    claimed_identity home (at 6) in_peers (codes "eve") ann (codes "0.9.0") (codes "ann")
      (codes "{}") 1 in_use with_peer (find_in-put_in in_peers (codes "eve") in_use idle) refl refl
      refl refl refl

on_handshake_ack_lem_example :
    let r =
      dispatch home (at 6) (Frame.handshake_ack ann (codes "0.9.0") (codes "ann")) caller idle in
    (IsWelcome ann (codes "0.9.0") caller idle × Entered home ann (codes "ann") caller idle r)
    ⊎ ((¬ (IsWelcome ann (codes "0.9.0") caller idle)) × (r ≡ (caller, close (some 3) idle)))
on_handshake_ack_lem_example =
    on_handshake_ack_lem home (at 6) ann (codes "0.9.0") (codes "ann") caller idle

-- A UUID that was expected, and another one: the connection is closed.
another :
    (dispatch home
      (at 6)
      (Frame.handshake_ack ann (codes "0.9.0") (codes "ann"))
      (record caller { expected_uuid = codes "eve" })
      idle).1.closed
    ≡ 3 ∷ []
unfolding dispatch on_handshake_ack is_old compare stoi is_valid_uuid text_eq
another = refl

abbrev with_waiting : Network
with_waiting = put_in in_pending (codes "tmp") waiting idle

abbrev address : ReconnectInfo
address = record { name = codes "ann"; ip = codes "10.0.0.7"; port = 47821 }

abbrev lost : Network
lost = record idle { reconnect_info = put ann address []; timers = put ann 0 [] }

lost-IsRetrying : IsRetrying ann address 0 lost
unfolding get
lost-IsRetrying = record { wanted = get-put_self ann address []; attempts = refl; unlinked = refl }

gives_up_example :
    (3 < 50
      → IsRetrying ann address 3 (round home 9 ann (rounds 2 home 9 ann lost))
        × (is_some (get ann (round home 9 ann (rounds 2 home 9 ann lost)).timers) ≡ true))
    × IsForgotten ann (round home 9 ann (rounds 49 home 9 ann lost))
gives_up_example = gives_up home 9 ann address 2 lost refl refl lost-IsRetrying

-- Bytes that fill a buffer.
zeros : ℕ → Text
zeros zero = []
zeros (suc k) = 0 ∷ zeros k

length-zeros : (k : ℕ) → length (zeros k) ≡ k
unfolding zeros
length-zeros zero = refl
length-zeros (suc k) = ap suc (length-zeros k)

-- A peer that is connected, and a read that gives a byte more than there is room for.
abbrev flooder : PeerConnection
flooder = record waiting { state = connected }

abbrev flooded : Network
flooded = set_peer ann flooder idle
