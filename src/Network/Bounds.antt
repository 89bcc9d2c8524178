-- ===== src/Network/Bounds.antt =====
-- What the limits of src/net/network.cpp bound.
use naleystogramm_core.Prelude.{
  ℕ, zero, suc, ◌+◌, ◌-◌, ◌*◌, ◌≤◌, ◌<◌, ◌≡◌, refl, min, false, Option, none, some, List, [], ◌∷◌,
  length, ltb, dec_lt, arith, if◌then◌else◌,
}
use naleystogramm_core.Network.Limits.{
  Rate, fresh_rate, count_frame, Ban, clean, is_banned, record_failure, calculate_backoff_ms,
  ban_duration_ms,
}

-- How many of the frames that come at the given times pass.
abbrev pub passes : List ℕ → Rate → ℕ
passes [] r = 0
passes (t ∷ ts) r =
    let (r', ok) = count_frame t r in let rest = passes ts r' in if ok then rest + 1 else rest

-- Times in order, from a on and before b.
abbrev pub Between : (a b : ℕ) → List ℕ → Type 0
Between a b [] = Unit
Between a b (t ∷ ts) = (a ≤ t) × (t < b) × Between t b ts

-- In a window that has begun, what is left of 200.
passes_window :
    (ts : List ℕ) (a start count : ℕ)
    → start ≤ a
    → Between a (start + 1000) ts
    → passes ts (record { window_start = some start; count = count }) ≤ 200 - count
unfolding count_frame
passes_window [] a start count h b = omega arith
passes_window (t ∷ ts) a start count h b = ground (arith, passes_window ts t start (count + 1))

Between-weaken : (a b c : ℕ) (ts : List ℕ) → b ≤ c → Between a b ts → Between a c ts
Between-weaken a b c [] h w = tt
Between-weaken a b c (t ∷ ts) h w = (w.0, omega arith, Between-weaken t b c ts h w.2)

-- A window that began before can end at most once in 1000 ms.
passes_old :
    (ts : List ℕ) (a end start count : ℕ)
    → start ≤ a
    → end ≤ a + 1000
    → Between a end ts
    → passes ts (record { window_start = some start; count = count }) ≤ 200 - count + 200
unfolding count_frame
passes_old [] a end start count h k b = omega arith
passes_old (t ∷ ts) a end start count h k b = ground (
  arith,
  passes_old ts t end start (count + 1),
  passes_window ts t t 1,
  Between-weaken t end (t + 1000) ts,
)

passes_fresh :
    (ts : List ℕ) (a n : ℕ)
    → Between a (a + 1000) ts
    → passes ts (record { window_start = none; count = n }) ≤ 200
unfolding count_frame
passes_fresh [] a n b = omega arith
passes_fresh (t ∷ ts) a n b =
    ground (arith, passes_window ts t t 1, Between-weaken t (a + 1000) (t + 1000) ts)

-- In any 1000 ms at most 400 frames of a connection pass, whatever came before, and at most 200 of a
-- new connection.
pub passes_bound :
    (ts : List ℕ) (a : ℕ) (r : Rate)
    → Between a (a + 1000) ts
    → ((start : ℕ) → r.window_start ≡ some start → start ≤ a)
    → (passes ts r ≤ 400) × (passes ts fresh_rate ≤ 200)
passes_bound ts a r b h = (any_window r.window_start h, passes_fresh ts a 0 b)
  where
    any_window :
        (w : Option ℕ)
        → ((start : ℕ) → w ≡ some start → start ≤ a)
        → passes ts (record { window_start = w; count = r.count }) ≤ 400
    any_window none k = omega (arith, passes_fresh ts a r.count b)
    any_window (some start) k =
        omega (arith, passes_old ts a (a + 1000) start r.count (k start refl) (omega arith) b)

-- Failures at the given times.
abbrev pub fail_at : List ℕ → Ban → Ban
fail_at [] b = b
fail_at (t ∷ ts) b = fail_at ts (record_failure t b)

-- Before the fifth failure there is no ban.
fail_count :
    (ts : List ℕ) (b : Ban)
    → b.banned_until ≡ 0
    → b.failures + length ts ≤ 4
    → ((fail_at ts b).failures ≡ b.failures + length ts) × ((fail_at ts b).banned_until ≡ 0)
unfolding record_failure
fail_count [] b h k = (omega arith, h)
fail_count (t ∷ ts) b h k = ground (arith, fail_count ts (record_failure t b))

-- An address without failures: up to four of them, at any times, do not ban it; the fifth, at t, bans
-- it for 30 minutes, and a failure after these counts as the first.
pub record_failure_lem :
    (ts : List ℕ) (t now : ℕ)
    → ((length ts ≤ 4) → is_banned now (fail_at ts clean) ≡ false)
      × (length ts ≡ 4
          → is_banned now (record_failure t (fail_at ts clean)) ≡ ltb now (t + ban_duration_ms))
      × (length ts ≡ 4
          → t + ban_duration_ms ≤ now
          → ((record_failure now (record_failure t (fail_at ts clean))).failures ≡ 1)
            × ((later : ℕ)
                → is_banned later (record_failure now (record_failure t (fail_at ts clean)))
                  ≡ false))
unfolding record_failure is_banned
record_failure_lem ts t now = ground (arith, fail_count ts clean refl)

-- The pauses before the reconnections are between 1 s and 30 s; they double up to the fifth, which
-- and all later ones are 30 s.
pub calculate_backoff_ms_lem :
    (n : ℕ)
    → (1000 ≤ calculate_backoff_ms n)
      × (calculate_backoff_ms n ≤ 30000)
      × (n < 4 → calculate_backoff_ms (n + 1) ≡ 2 * calculate_backoff_ms n)
      × (5 ≤ n → calculate_backoff_ms n ≡ 30000)
unfolding calculate_backoff_ms
calculate_backoff_ms_lem zero = (omega arith, omega arith, λ h. refl, λ h. absurd (omega arith))
calculate_backoff_ms_lem (suc zero) =
    (omega arith, omega arith, λ h. refl, λ h. absurd (omega arith))
calculate_backoff_ms_lem (suc (suc zero)) =
    (omega arith, omega arith, λ h. refl, λ h. absurd (omega arith))
calculate_backoff_ms_lem (suc (suc (suc zero))) =
    (omega arith, omega arith, λ h. refl, λ h. absurd (omega arith))
calculate_backoff_ms_lem (suc (suc (suc (suc n)))) = later (suc (suc (suc (suc n)))) (omega arith)
  where
    later :
        (k : ℕ)
        → 4 ≤ k
        → (1000 ≤ calculate_backoff_ms k)
          × (calculate_backoff_ms k ≤ 30000)
          × (k < 4 → calculate_backoff_ms (k + 1) ≡ 2 * calculate_backoff_ms k)
          × (5 ≤ k → calculate_backoff_ms k ≡ 30000)
    later k h = elim (dec_lt 4 k) [
      | yes p ↦
          let e : min k 5 ≡ 5 = omega arith in
          rw e (omega arith, omega arith, λ q. absurd (omega arith), λ q. refl)
      | no p ↦
          let e : min k 5 ≡ 4 = omega arith in
          rw e (omega arith, omega arith, λ q. absurd (omega arith), λ q. absurd (omega arith))
    ]
