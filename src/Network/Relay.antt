-- ===== src/Network/Relay.antt =====
-- The connection to the relay in src/net/network.cpp: connectToRelay and startRelayRead.
--   `reads` is whether a read is outstanding, `waits` whether the timer that connects again is armed.
-- The members of the Network that the frames change are there; its `relay_ready` is kept as what
-- sendViaRelay asks for, an open socket and a registration.
use naleystogramm_core.Prelude.{
  ℕ, zero, suc, ◌+◌, Bool, true, false, not, ◌&&◌, ◌≡◌, refl, Option, none, some, [], ◌++◌, ltb,
  length, if◌then◌else◌,
}
use naleystogramm_core.Prelude.Text.{Text, is_empty}
use naleystogramm_core.Prelude.Scan.{split_first}
use naleystogramm_core.Network.Peers.{
  Network, emit, notify, registering, relay_connected, relay_disconnected,
}
use naleystogramm_core.Network.Reconnect.{Env}
use naleystogramm_core.Network.Wire.{Frame}
use naleystogramm_core.Network.Limits.{Clock}
use naleystogramm_core.Network.Incoming.{max_buffer_size, handle_relay_frame, on_relay_offline}

pub record Relay : Type 0 where
  pub is_open : Bool
  pub registered : Bool
  pub read_buf : Text
  pub reads : Bool
  pub waits : Bool
  pub dials : Bool

pub data RelayFrame : Type 0 where
  relay_registered relay_error : RelayFrame
  relay_msg : (from : Text) → Option Frame → RelayFrame
  relay_peer_offline : (uuid : Text) → RelayFrame

abbrev pub ready : Relay → Network → Network
ready r n = record n { relay_ready = r.is_open && r.registered }

-- The address of the relay is in `env`.
unfoldable pub connect_to_relay : Env → Relay → Network → Relay × Network
connect_to_relay env r n =
    let fresh : Relay = record {
      is_open = false;
      registered = false;
      read_buf = [];
      reads = false;
      waits = false;
      dials = env.valid_address env.relay_ip;
    } in
    if is_empty env.relay_ip then (r, n) else (fresh, ready fresh n)

-- The callback of async_connect, and of a read that failed.
unfoldable pub on_relay_connected : Env → (ok : Bool) → Relay → Network → Relay × Network
on_relay_connected env false r n = (record r { dials = false; waits = true }, n)
on_relay_connected env true r n =
    let r' = record r { dials = false; is_open = true; reads = true } in
    (r', emit (registering env.own_uuid) (ready r' n))

unfoldable pub on_relay_error : Relay → Network → Relay × Network
on_relay_error r n =
    let r' = record r { registered = false; reads = false; waits = true } in
    (r', notify relay_disconnected (ready r' n))

unfoldable pub on_relay_frame : Env → (now : Clock) → RelayFrame → Relay → Network → Relay × Network
on_relay_frame env now relay_registered r n =
    let r' = record r { registered = true } in (r', notify relay_connected (ready r' n))
on_relay_frame env now relay_error r n = (r, n)
on_relay_frame env now (relay_msg from none) r n = (r, n)
on_relay_frame env now (relay_msg from (some f)) r n =
    (r, if is_empty from then n else handle_relay_frame env now from f n)
on_relay_frame env now (relay_peer_offline uuid) r n = (r, on_relay_offline uuid n)

-- The loop over the lines, on fuel; each round takes a newline away. No line is too long here.
module _ (parse : Text → Option RelayFrame) (env : Env) (now : Clock) where
  parsed_line : Option RelayFrame → Relay → Network → Relay × Network
  parsed_line none r n = (r, n)
  parsed_line (some f) r n = on_relay_frame env now f r n

  unfoldable pub run_lines : (fuel : ℕ) → Option (Text × Text) → Relay → Network → Relay × Network
  unfolding parsed_line
  run_lines zero o r n = (r, n)
  run_lines (suc fuel) none r n = (r, n)
  run_lines (suc fuel) (some (raw, rest)) r n =
      let (r', n') = parsed_line (parse raw) (record r { read_buf = rest }) n in
      run_lines fuel (split_first b'\n' rest) r' n'

  -- The callback of a read that gave bytes.
  unfoldable pub on_relay_bytes : (bytes : Text) → Relay → Network → Relay × Network
  on_relay_bytes bytes r n =
      let buf = r.read_buf ++ bytes in
      let over = record r { read_buf = []; is_open = false; reads = false } in
      let (r', n') =
        run_lines (length buf) (split_first b'\n' buf) (record r { read_buf = buf; reads = false })
          n in
      if ltb max_buffer_size (length r.read_buf + length bytes)
      then (over, ready over n)
      else (record r' { reads = r'.is_open }, n')

-- Nothing is under way: no read, no connection, no timer.
abbrev pub is_stranded : Relay → Bool
is_stranded r = not r.reads && not r.waits && not r.dials

-- A connection that fails or breaks arms the timer, one that succeeds is read from; but when the buffer
-- overflows nothing is under way any more.
pub relay_goes_on :
    (parse : Text → Option RelayFrame) (env : Env) (now : Clock) (ok : Bool) (bytes : Text)
    (r : Relay) (n : Network)
    → (is_stranded (on_relay_connected env ok r n).0 ≡ false)
      × (is_stranded (on_relay_error r n).0 ≡ false)
      × (r.waits ≡ false
          → r.dials ≡ false
          → ltb max_buffer_size (length r.read_buf + length bytes) ≡ true
          → is_stranded (on_relay_bytes parse env now bytes r n).0 ≡ true)
unfolding on_relay_connected on_relay_error on_relay_bytes
relay_goes_on parse env now ok bytes r n =
    (connects ok, refl, λ idle undialled over. rw over (rw (idle, undialled) refl))
  where
    waiting : (b : Bool) → (b && false && true) ≡ false
    waiting true = refl
    waiting false = refl

    connects : (b : Bool) → is_stranded (on_relay_connected env b r n).0 ≡ false
    connects true = refl
    connects false = waiting (not r.reads)
