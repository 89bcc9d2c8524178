-- ===== src/Groups/Retry.antt =====
-- The reconnections of a group's thread (wsThreadFunc of src/net/groupmanager.cpp).
use mathlib.Core.Path.{subst}
use naleystogramm_core.Prelude.{
  ℕ, zero, suc, ◌+◌, ◌*◌, ◌^◌, min, ◌≤◌, ◌≡◌, refl, sym, ap, Bool, true, false, not, ◌&&◌, ◌||◌,
  some, ltb, arith, if◌then◌else◌,
}
use naleystogramm_core.Prelude.Text.{Text, is_empty}
use naleystogramm_core.Prelude.Map.{get, get-put_self}
use naleystogramm_core.Groups.{
  max_reconn_attempts, reconn_base_ms, slept, ws_connected, sent, encrypt_group_msg, Group, Conn,
  Groups, Env, emit, set_conn, back_off, on_dial_failed, on_dialled, connect_of, connect_group,
  send_of, send_message,
}

unfoldable pub fail_times : (k : ℕ) → (id : Text) → Groups → Groups
fail_times zero id g = g
fail_times (suc k) id g = let g' = fail_times k id g in on_dial_failed id (get id g'.conns) g'

-- The thread of the group runs, or has ended, after k attempts in a row.
pub record IsAfter (id : Text) (running : Bool) (k : ℕ) (g : Groups) : Type 0 where
  pub conn : Conn
  pub found : get id g.conns ≡ some conn
  pub runs : conn.running ≡ running
  pub up : conn.connected ≡ false
  pub tried : conn.attempts ≡ k

back_off-IsAfter :
    (id : Text) (c : Conn) (g : Groups)
    → c.running ≡ true
    → c.connected ≡ false
    → IsAfter id (not (ltb max_reconn_attempts (c.attempts + 1))) (c.attempts + 1) (back_off id c g)
unfolding back_off
back_off-IsAfter id c g r u = kept (ltb max_reconn_attempts (c.attempts + 1))
  where
    kept :
        (b : Bool)
        → IsAfter id (not b) (c.attempts + 1) (
            if b
            then set_conn id (record c { attempts = c.attempts + 1; running = false }) g
            else emit
                (slept (reconn_base_ms * 2 ^ min (c.attempts + 1) 5))
                (set_conn id (record c { attempts = c.attempts + 1 }) g))
    kept true = record {
      conn = record c { attempts = c.attempts + 1; running = false };
      found = get-put_self id (record c { attempts = c.attempts + 1; running = false }) g.conns;
      runs = refl;
      up = u;
      tried = refl;
    }
    kept false = record {
      conn = record c { attempts = c.attempts + 1 };
      found = get-put_self id (record c { attempts = c.attempts + 1 }) g.conns;
      runs = r;
      up = u;
      tried = refl;
    }

dial_failed_lem :
    (id : Text) (k : ℕ) (g : Groups)
    → IsAfter id true k g
    → IsAfter id
        (not (ltb max_reconn_attempts (suc k)))
        (suc k)
        (on_dial_failed id (get id g.conns) g)
unfolding on_dial_failed
dial_failed_lem id k g v =
    let c = v.conn in
    let e : c.attempts + 1 ≡ suc k = omega (arith, v.tried) in
    subst (λ o. IsAfter id (not (ltb max_reconn_attempts (suc k))) (suc k) (on_dial_failed id o g))
      (sym v.found)
      (subst
        (λ b.
          IsAfter id (not (ltb max_reconn_attempts (suc k))) (suc k)
            (if b then back_off id c g else g))
        (sym v.runs)
        (subst (λ m. IsAfter id (not (ltb max_reconn_attempts m)) m (back_off id c g)) e
          (back_off-IsAfter id c g v.runs v.up)))

fail_times-IsAfter :
    (id : Text) (k : ℕ) (g : Groups)
    → IsAfter id true 0 g
    → k ≤ 10
    → IsAfter id true k (fail_times k id g)
unfolding fail_times
fail_times-IsAfter id zero g v h = v
fail_times-IsAfter id (suc k) g v h =
    let below : not (ltb max_reconn_attempts (suc k)) ≡ true = ground arith in
    subst (λ b. IsAfter id b (suc k) (fail_times (suc k) id g)) below
      (dial_failed_lem id k (fail_times k id g) (fail_times-IsAfter id k g v (omega arith)))

connect_group-IsAfter :
    (info : Group) (b : Bool) (k : ℕ) (g : Groups)
    → IsAfter info.id b k g
    → IsAfter info.id b k (connect_group info g)
unfolding connect_group
connect_group-IsAfter info b k g v =
    let c = record v.conn { info = info } in
    subst (λ o. IsAfter info.id b k (connect_of o info g)) (sym v.found)
      (record {
        conn = c;
        found = get-put_self info.id c g.conns;
        runs = v.runs;
        up = v.up;
        tried = v.tried;
      })

-- Without a thread no connection comes up, and nothing is sent.
ended_lem :
    (env : Env) (id nonce text : Text) (k : ℕ) (g : Groups)
    → IsAfter id false k g
    → (on_dialled id (get id g.conns) g ≡ g) × (send_message env nonce true id text g ≡ (g, false))
unfolding on_dialled send_message send_of
ended_lem env id nonce text k g v = (
  rw v.found (ap (λ b. if b && not v.conn.connected then dialled else g) v.runs),
  rw v.found (
      ap (λ b. if not b || is_empty payload then (g, false) else (emit (sent id payload) g, true))
        v.up),
)
  where
    dialled : Groups
    dialled =
        emit (ws_connected id) (set_conn id (record v.conn { attempts = 0; connected = true }) g)

    payload : Text
    payload = encrypt_group_msg env v.conn.info.group_key nonce text

-- A group whose thread has begun, where every connection fails: after k ≤ 10 failures the thread runs
-- on, with the eleventh it ends. The group is kept then, but it stays without a thread: connecting it
-- again only replaces what is known of it, no connection comes up, and sending to it fails.
pub given_up_stays :
    (env : Env) (nonce text : Text) (k : ℕ) (info : Group) (g : Groups)
    → IsAfter info.id true 0 g
    → (k ≤ 10 → IsAfter info.id true k (fail_times k info.id g))
      × (let g' = connect_group info (fail_times 11 info.id g) in
          IsAfter info.id false 11 g'
          × (on_dialled info.id (get info.id g'.conns) g' ≡ g')
          × (send_message env nonce true info.id text g' ≡ (g', false)))
unfolding fail_times
given_up_stays env nonce text k info g v =
    let ended : IsAfter info.id false 11 (fail_times 11 info.id g) =
      dial_failed_lem info.id 10 (fail_times 10 info.id g)
        (fail_times-IsAfter info.id 10 g v (omega arith)) in
    let again = connect_group-IsAfter info false 11 (fail_times 11 info.id g) ended in
    let (unreached, unsent) =
      ended_lem env info.id nonce text 11 (connect_group info (fail_times 11 info.id g)) again in
    (fail_times-IsAfter info.id k g v, (again, unreached, unsent))
