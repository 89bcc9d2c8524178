-- ===== src/Updates/Listeners.antt =====
-- The state of an UpdateChecker and its listeners (src/diag/updatechecker.cpp).
use naleystogramm_core.Prelude.{
  ℕ, zero, suc, ◌+◌, ◌%◌, ◌^◌, ◌==◌, Bool, List, [], ◌∷◌, ◌++◌, if◌then◌else◌,
}
use naleystogramm_core.Prelude.Text.{Text}

pub record UpdateInfo : Type 0 where
  pub version : Text
  pub url : Text
  pub notes : Text
  pub download_url : Text
  pub asset_name : Text
  pub available : Bool

pub data Call : Type 0 where
  told_available : (token : ℕ) → UpdateInfo → Call
  told_no_update : (token : ℕ) → (version : Text) → Call
  told_failed : (token : ℕ) → (error : Text) → Call
  told_started : (token : ℕ) → Call

-- `requests` counts the requests that were sent, `last_check` is what SessionManager keeps. A notification
-- copies its listeners under the lock, and calls them when the lock is free again: `pending` has, newest
-- first, the calls of such copies that are still to be made, `trace` those that were made.
pub record Checker : Type 0 where
  pub cached : UpdateInfo
  pub alive : Bool
  pub next_token : ℕ
  pub on_available : List ℕ
  pub on_no_update : List ℕ
  pub on_failed : List ℕ
  pub on_started : List ℕ
  pub last_check : Text
  pub requests : ℕ
  pub pending : List Call
  pub trace : List Call

abbrev pub after : ℕ → ℕ
after t = (t + 1) % 2 ^ 32

unfoldable pub subscribe_update_available : Checker → Checker × ℕ
subscribe_update_available s = (
  record s { on_available = s.on_available ++ s.next_token ∷ []; next_token = after s.next_token },
  s.next_token,
)

unfoldable pub subscribe_no_update : Checker → Checker × ℕ
subscribe_no_update s = (
  record s { on_no_update = s.on_no_update ++ s.next_token ∷ []; next_token = after s.next_token },
  s.next_token,
)

unfoldable pub subscribe_check_failed : Checker → Checker × ℕ
subscribe_check_failed s = (
  record s { on_failed = s.on_failed ++ s.next_token ∷ []; next_token = after s.next_token },
  s.next_token,
)

unfoldable pub subscribe_check_started : Checker → Checker × ℕ
subscribe_check_started s = (
  record s { on_started = s.on_started ++ s.next_token ∷ []; next_token = after s.next_token },
  s.next_token,
)

unfoldable pub drop_token : ℕ → List ℕ → List ℕ
drop_token t [] = []
drop_token t (u ∷ us) = let rest = drop_token t us in if u == t then rest else u ∷ rest

unfoldable pub unsubscribe : ℕ → Checker → Checker
unfolding drop_token
unsubscribe t s = record s {
  on_available = drop_token t s.on_available;
  on_no_update = drop_token t s.on_no_update;
  on_failed = drop_token t s.on_failed;
  on_started = drop_token t s.on_started;
}

-- The copy of a list of listeners: what its thread is going to call, one after the other.
unfoldable pub call_all : (ℕ → Call) → List ℕ → List Call → List Call
call_all f [] tr = tr
call_all f (t ∷ ts) tr = call_all f ts (f t ∷ tr)

unfoldable pub notify_available : UpdateInfo → Checker → Checker
unfolding call_all
notify_available info s = record s {
  cached = info;
  pending = call_all (λ t. told_available t info) s.on_available s.pending;
}

unfoldable pub notify_no_update : Text → Checker → Checker
unfolding call_all
notify_no_update ver s = record s {
  pending = call_all (λ t. told_no_update t ver) s.on_no_update s.pending;
}

unfoldable pub notify_failed : Text → Checker → Checker
unfolding call_all
notify_failed err s = record s { pending = call_all (λ t. told_failed t err) s.on_failed s.pending }

unfoldable pub notify_started : Checker → Checker
unfolding call_all
notify_started s = record s { pending = call_all told_started s.on_started s.pending }

-- A thread makes one of its calls; which one comes next is left open.
unfoldable pub make_call : (k : ℕ) → (later earlier : List Call) → Checker → Checker
make_call k later [] s = s
make_call zero later (c ∷ cs) s = record s { pending = later ++ cs; trace = c ∷ s.trace }
make_call (suc k) later (c ∷ cs) s = make_call k (later ++ c ∷ []) cs s

unfoldable pub call_pending : (k : ℕ) → Checker → Checker
unfolding make_call
call_pending k s = make_call k [] s.pending s
