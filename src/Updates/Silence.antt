-- ===== src/Updates/Silence.antt =====
-- A token in no list is not called by the methods of src/diag/updatechecker.cpp, nor by the threads
-- of its checks.
use naleystogramm_core.Prelude.{
  ℕ, ◌+◌, ◌<◌, ◌≤◌, ◌≡◌, refl, sym, ap, ◌∙◌, zero, suc, append_assoc, ◌==◌, Bool, true, false, not,
  ◌||◌, Option, none, some, List, [], ◌∷◌, ◌++◌, arith, if◌then◌else◌, ◌>>=◌,
}
use naleystogramm_core.Prelude.Text.{Text, codes, is_empty}
use naleystogramm_core.Session.Values.{
  Json, null, flag, number, fraction, text, array, object, Fields, find_field,
}
use naleystogramm_core.Updates.Assets.{pick_asset}
use naleystogramm_core.Updates.Listeners.{
  UpdateInfo, Call, told_available, told_no_update, told_failed, told_started, Checker, drop_token,
  call_all, notify_available, notify_no_update, notify_failed, notify_started, make_call,
  call_pending,
}
use naleystogramm_core.Updates.Check.{
  Reply, no_answer, answer, Env, announce, on_release, on_body, on_reply, do_check,
  check_in_background,
}
use naleystogramm_core.Updates.Events.{or_last, listed, token_of, calls, heard}

-- A token that is given out and stands in no list.
pub record IsOut (t : ℕ) (s : Checker) : Type 0 where
  pub given : t < s.next_token
  pub not_available : listed t s.on_available ≡ false
  pub not_none : listed t s.on_no_update ≡ false
  pub not_failed : listed t s.on_failed ≡ false
  pub not_started : listed t s.on_started ≡ false

pub listed-drop_token :
    (t u : ℕ) (us : List ℕ) → listed t (drop_token u us) ≡ (if t == u then false else listed t us)
unfolding listed drop_token
listed-drop_token t u [] = ground arith
listed-drop_token t u (v ∷ us) = ground (arith, listed-drop_token t u us)

pub listed-last : (t u : ℕ) (us : List ℕ) → listed t (us ++ u ∷ []) ≡ (listed t us || u == t)
unfolding listed
listed-last t u [] = ground arith
listed-last t u (v ∷ us) = ground (arith, listed-last t u us)

calls-call_all :
    (t : ℕ) (f : ℕ → Call) (ts : List ℕ) (tr : List Call)
    → ((u : ℕ) → token_of (f u) ≡ u)
    → listed t ts ≡ false
    → calls t (call_all f ts tr) ≡ calls t tr
unfolding listed calls call_all
calls-call_all t f [] tr own h = refl
calls-call_all t f (u ∷ ts) tr own h =
    calls-call_all t f ts (f u ∷ tr) own (ground arith) ∙ ground (arith, own u)

-- The token stays out and no more calls of it are made or to be made, and at most one token is given out.
abbrev pub Silent : ℕ → (s s' : Checker) → Type 0
Silent t s s' = IsOut t s' × (heard t s' ≡ heard t s) × (s'.next_token ≤ s.next_token + 1)

-- The lists are left.
pub still-IsOut :
    (t : ℕ) (s : Checker) (info : UpdateInfo) (alive : Bool) (last : Text) (n : ℕ) (tr : List Call)
    → IsOut t s
    → IsOut t
        (record s { cached = info; alive = alive; last_check = last; requests = n; pending = tr })
still-IsOut t s info alive last n tr o = record {
  given = o.given;
  not_available = o.not_available;
  not_none = o.not_none;
  not_failed = o.not_failed;
  not_started = o.not_started;
}

notify-Silent :
    (t : ℕ) (s : Checker) (f : ℕ → Call) (ts : List ℕ) (info : UpdateInfo) (alive : Bool)
    (last : Text) (n : ℕ)
    → ((u : ℕ) → token_of (f u) ≡ u)
    → listed t ts ≡ false
    → IsOut t s
    → Silent t s (record s {
      cached = info;
      alive = alive;
      last_check = last;
      requests = n;
      pending = call_all f ts s.pending;
    })
notify-Silent t s f ts info alive last n own h o = (
  still-IsOut t s info alive last n (call_all f ts s.pending) o,
  ap (λ k. calls t s.trace + k) (calls-call_all t f ts s.pending own h),
  omega arith,
)

pub do_check-Silent : (t : ℕ) (s : Checker) → IsOut t s → Silent t s (do_check s)
unfolding do_check notify_started
do_check-Silent t s o =
    notify-Silent t s told_started s.on_started s.cached s.alive s.last_check (s.requests + 1)
      (λ u. refl) o.not_started o

failed-Silent : (t : ℕ) (err : Text) (s : Checker) → IsOut t s → Silent t s (notify_failed err s)
unfolding notify_failed
failed-Silent t err s o =
    notify-Silent t s (λ u. told_failed u err) s.on_failed s.cached s.alive s.last_check s.requests
      (λ u. refl) o.not_failed o

announce-Silent :
    (t : ℕ) (env : Env) (info : UpdateInfo) (s : Checker)
    → IsOut t s
    → Silent t s (announce env info s)
unfolding announce
announce-Silent t env info s o = told s.alive info.available
  where
    told :
        (alive newer : Bool)
        → Silent t s (
            if not alive
            then s
            else if newer
            then notify_available info s
            else notify_no_update env.current_version s)
    told false newer = (o, refl, omega arith)
    told true true =
        unfold notify_available in
        notify-Silent t s (λ u. told_available u info) s.on_available info s.alive s.last_check
          s.requests (λ u. refl) o.not_available o
    told true false =
        unfold notify_no_update in
        notify-Silent t s (λ u. told_no_update u env.current_version) s.on_no_update s.cached
          s.alive s.last_check s.requests (λ u. refl) o.not_none o

-- Of a chain that may throw: what holds of its result.
abbrev Every : (Checker → Type 0) → Option Checker → Type 0
Every P none = Unit
Every P (some s) = P s

>>=-Every :
    {A : Type 0} (P : Checker → Type 0) (m : Option A) (f : A → Option Checker)
    → ((a : A) → Every P (f a))
    → Every P (m >>= f)
>>=-Every P none f h = tt
>>=-Every P (some a) f h = h a

if-Every :
    (P : Checker → Type 0) (b : Bool) (m k : Option Checker)
    → Every P m
    → Every P k
    → Every P (if b then m else k)
if-Every P true m k h g = h
if-Every P false m k h g = g

on_release-Silent :
    (t : ℕ) (env : Env) (f : Fields) (s : Checker)
    → IsOut t s
    → Every (Silent t s) (on_release env f s)
unfolding on_release
on_release-Silent t env f s o =
    >>=-Every (Silent t s) (env.reader.value_text (codes "tag_name") [] f) _ λ tag.
      >>=-Every (Silent t s) (env.reader.value_text (codes "html_url") [] f) _ λ url.
        >>=-Every (Silent t s) (env.reader.value_text (codes "body") [] f) _ λ notes.
          if-Every (Silent t s) (is_empty tag) _ _ (failed-Silent t (codes "Релизы не найдены") s o)
            (>>=-Every (Silent t s)
              (pick_asset env.reader env.os_release (find_field (codes "assets") f)) _
              λ a. announce-Silent t env _ s o)

on_body-Silent :
    (t : ℕ) (env : Env) (j : Option Json) (s : Checker)
    → IsOut t s
    → Every (Silent t s) (on_body env j s)
unfolding on_body
on_body-Silent t env none s o = failed-Silent t (codes "Неверный ответ от GitHub API") s o
on_body-Silent t env (some (object f)) s o = on_release-Silent t env f s o
on_body-Silent t env (some null) s o = failed-Silent t (codes "Неверный ответ от GitHub API") s o
on_body-Silent t env (some (flag b)) s o =
    failed-Silent t (codes "Неверный ответ от GitHub API") s o
on_body-Silent t env (some (number z)) s o =
    failed-Silent t (codes "Неверный ответ от GitHub API") s o
on_body-Silent t env (some (fraction z)) s o =
    failed-Silent t (codes "Неверный ответ от GitHub API") s o
on_body-Silent t env (some (text x)) s o =
    failed-Silent t (codes "Неверный ответ от GitHub API") s o
on_body-Silent t env (some (array xs)) s o =
    failed-Silent t (codes "Неверный ответ от GitHub API") s o

or_last-Silent :
    (t : ℕ) (m : Option Checker) (s : Checker)
    → IsOut t s
    → Every (Silent t s) m
    → Silent t s (or_last m s)
or_last-Silent t none s o h = (o, refl, omega arith)
or_last-Silent t (some s') s o h = h

pub reply-Silent :
    (t : ℕ) (env : Env) (now_iso : Text) (r : Reply) (s : Checker)
    → IsOut t s
    → Silent t s (or_last (on_reply env now_iso r s) s)
unfolding on_reply
reply-Silent t env now_iso (no_answer err) s o = told s.alive
  where
    told : (b : Bool) → Silent t s (if not b then s else notify_failed err s)
    told true = failed-Silent t err s o
    told false = (o, refl, omega arith)
reply-Silent t env now_iso (answer j) s o = or_last-Silent t _ s o (told s.alive)
  where
    told :
        (b : Bool)
        → Every
            (Silent t s)
            (if not b then some s else on_body env j (record s { last_check = now_iso }))
    told true =
        on_body-Silent t env j (record s { last_check = now_iso })
          (still-IsOut t s s.cached s.alive now_iso s.requests s.pending o)
    told false = (o, refl, omega arith)

pub background-Silent :
    (t : ℕ) (env : Env) (auto_check : Bool) (now : ℕ) (s : Checker)
    → IsOut t s
    → Silent t s (check_in_background env auto_check now s)
unfolding check_in_background
background-Silent t env false now s o = (o, refl, omega arith)
background-Silent t env true now s o = checked _
  where
    checked : (b : Bool) → Silent t s (if b then s else do_check s)
    checked true = (o, refl, omega arith)
    checked false = do_check-Silent t s o

calls-append : (t : ℕ) (a b : List Call) → calls t (a ++ b) ≡ calls t a + calls t b
unfolding calls
calls-append t [] b = omega arith
calls-append t (c ∷ a) b = omega (arith, calls-append t a b)

-- A call that is made is no longer to be made.
make_call-Silent :
    (t k : ℕ) (later earlier : List Call) (s : Checker)
    → later ++ earlier ≡ s.pending
    → IsOut t s
    → Silent t s (make_call k later earlier s)
unfolding make_call calls
make_call-Silent t k later [] s e o = (o, refl, omega arith)
make_call-Silent t zero later (c ∷ cs) s e o = (
  record {
    given = o.given;
    not_available = o.not_available;
    not_none = o.not_none;
    not_failed = o.not_failed;
    not_started = o.not_started;
  },
  moved (calls t later) (calls t cs) (if token_of c == t then 1 else 0) (calls t s.trace)
      (calls-append t later cs) (sym (ap (calls t) e) ∙ calls-append t later (c ∷ cs)),
  omega arith,
)
  where
    moved : (a b x y : ℕ) {left all : ℕ} → left ≡ a + b → all ≡ a + (x + b) → x + y + left ≡ y + all
    moved a b x y h g = omega arith
make_call-Silent t (suc k) later (c ∷ cs) s e o =
    make_call-Silent t k (later ++ c ∷ []) cs s (append_assoc later (c ∷ []) cs ∙ e) o

pub call_pending-Silent : (t k : ℕ) (s : Checker) → IsOut t s → Silent t s (call_pending k s)
unfolding call_pending
call_pending-Silent t k s o = make_call-Silent t k [] s.pending s refl o
