-- ===== src/Discovery/Listeners.antt =====
-- The listeners of src/net/discoveryclient.cpp. A listener is its token. `fire` copies the listeners under
-- the lock and calls them when it is free again: `trace` has, newest first, whom these copies name and what
-- they are told, so that one who is removed before its call is still in it.
use naleystogramm_core.Prelude.{ℕ, ◌+◌, ◌%◌, ◌^◌, List, [], ◌∷◌, ◌++◌, ◌==◌, if◌then◌else◌}
use naleystogramm_core.Discovery.{Event}

pub record Client : Type 0 where
  pub listeners : List ℕ
  pub next_token : ℕ
  pub trace : List (ℕ × Event)

unfoldable pub add_listener : Client → Client × ℕ
add_listener c = (
  record c {
    listeners = c.listeners ++ c.next_token ∷ [];
    next_token = (c.next_token + 1) % 2 ^ 32;
  },
  c.next_token,
)

unfoldable pub drop_listener : ℕ → List ℕ → List ℕ
drop_listener t [] = []
drop_listener t (u ∷ us) = let rest = drop_listener t us in if u == t then rest else u ∷ rest

unfoldable pub remove_listener : ℕ → Client → Client
unfolding drop_listener
remove_listener t c = record c { listeners = drop_listener t c.listeners }

unfoldable pub tell : Event → List ℕ → List (ℕ × Event) → List (ℕ × Event)
tell e [] tr = tr
tell e (t ∷ ts) tr = tell e ts ((t, e) ∷ tr)

unfoldable pub fire : Event → Client → Client
unfolding tell
fire e c = record c { trace = tell e c.listeners c.trace }
