-- ===== src/Network/Limits.antt =====
-- The limits of src/net/network.cpp: how many frames a peer may send in a second (handleFrame), the
-- ban of an address (recordUuidFailure), and the pauses before a reconnection (calculateBackoffMs).
--   Times are milliseconds of the clock that the code reads. A rate counter that is not valid yet is
-- `none`; the uint32_t counter is ℕ, as a connection never lives to count so far.
use naleystogramm_core.Prelude.{
  ℕ, ◌+◌, ◌-◌, ◌*◌, ◌^◌, min, Bool, ◌&&◌, Option, none, some, leb, ltb, ◌==◌, if◌then◌else◌,
}

abbrev pub max_frames_per_second : ℕ
max_frames_per_second = 200

abbrev pub max_uuid_failures : ℕ
max_uuid_failures = 5

abbrev pub ban_duration_ms : ℕ
ban_duration_ms = 30 * 60 * 1000

abbrev pub max_reconnect_delay : ℕ
max_reconnect_delay = 30000

-- A moment by the two clocks, steady_clock and system_clock.
pub record Clock : Type 0 where
  pub steady : ℕ
  pub system : ℕ

pub record Rate : Type 0 where
  pub window_start : Option ℕ
  pub count : ℕ

abbrev pub fresh_rate : Rate
fresh_rate = record { window_start = none; count = 0 }

window_of : (now : ℕ) → Option ℕ → (count : ℕ) → Rate
window_of now none count = record { window_start = some now; count = 0 }
window_of now (some t) count =
    if leb 1000 (now - t)
    then record { window_start = some now; count = 0 }
    else record { window_start = some t; count = count }

-- A frame is counted; does it pass?
unfoldable pub count_frame : (now : ℕ) → Rate → Rate × Bool
unfolding window_of
count_frame now r =
    let w = window_of now r.window_start r.count in
    (record w { count = w.count + 1 }, leb (w.count + 1) max_frames_per_second)

pub record Ban : Type 0 where
  pub failures : ℕ
  pub first_fail_ms : ℕ
  pub banned_until : ℕ

abbrev pub clean : Ban
clean = record { failures = 0; first_fail_ms = 0; banned_until = 0 }

unfoldable pub is_banned : (now : ℕ) → Ban → Bool
is_banned now b = ltb now b.banned_until

-- A ban that has run out starts the count anew.
unfoldable pub lapse : (now : ℕ) → Ban → Ban
lapse now b = if ltb 0 b.banned_until && leb b.banned_until now then clean else b

unfoldable pub record_failure : (now : ℕ) → Ban → Ban
unfolding lapse
record_failure now b =
    let c = lapse now b in
    record {
      failures = c.failures + 1;
      first_fail_ms = if c.first_fail_ms == 0 then now else c.first_fail_ms;
      banned_until =
          if leb max_uuid_failures (c.failures + 1) then now + ban_duration_ms else c.banned_until;
    }

unfoldable pub calculate_backoff_ms : (attempts : ℕ) → ℕ
calculate_backoff_ms attempts = min (1000 * 2 ^ min attempts 5) max_reconnect_delay
