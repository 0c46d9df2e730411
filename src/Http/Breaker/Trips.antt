-- ===== src/Http/Breaker/Trips.antt =====
-- When a circuit breaker (src/infrastructure/http/circuit-breaker.ts) trips, refuses and recovers.
use nestjs_ddd.Prelude.{
  ℕ, ◌+◌, ◌≤◌, ◌<◌, ◌≡◌, refl, ◌≢◌, ◌↔◌, ◌⊎◌, true, false, List, [], ◌∷◌, none, arith, length,
  is_some, if◌then◌else◌, All,
}
use nestjs_ddd.Http.Breaker.{
  CircuitBreakerOptions, CircuitBreaker, closed, opened, half_open, new_breaker, blocked_for_ms,
  record_success, record_failure,
}

module _ (o : CircuitBreakerOptions) where
  -- A breaker that has seen failures only, at the given times.
  pub failures_at : List ℕ → CircuitBreaker → CircuitBreaker
  failures_at [] b = b
  failures_at (t ∷ ts) b = failures_at ts (record_failure o t b)

  -- How many of a row of calls are let through, when none of them has ended yet.
  pub passes : List ℕ → CircuitBreaker → ℕ
  passes [] b = 0
  passes (t ∷ ts) b =
      let rest = passes ts (blocked_for_ms o t b).1 in
      if is_some (blocked_for_ms o t b).0 then rest else rest + 1

  opened_stays :
      (ts : List ℕ) (b : CircuitBreaker) → b.state ≡ opened → (failures_at ts b).state ≡ opened
  unfolding failures_at record_failure
  opened_stays [] b e = e
  opened_stays (t ∷ ts) b e = opened_stays ts (record_failure o t b) (ground arith)

  failures_at-opened_iff :
      (ts : List ℕ) (b : CircuitBreaker)
      → b.state ≡ closed
      → b.failures < o.failure_threshold
      → ((failures_at ts b).state ≡ opened) ↔ (o.failure_threshold ≤ b.failures + length ts)
  unfolding failures_at record_failure
  failures_at-opened_iff [] b c f = ground arith
  failures_at-opened_iff (t ∷ ts) b c f = ground (
    arith,
    opened_stays ts (record_failure o t b),
    failures_at-opened_iff ts (record_failure o t b),
  )

  -- Failures alone open a new breaker exactly when there are as many as the threshold.
  pub new_breaker-opened_iff :
      (ts : List ℕ)
      → 0 < o.failure_threshold
      → ((failures_at ts new_breaker).state ≡ opened) ↔ (o.failure_threshold ≤ length ts)
  new_breaker-opened_iff ts p = ground (arith, failures_at-opened_iff ts new_breaker refl p)

  -- A call passes exactly when the breaker is closed, or its time is up, or it is half-open and
  -- no trial is in flight; in the last two cases the call is the trial.
  pub blocked_for_ms-none_iff :
      (now : ℕ) (b : CircuitBreaker)
      → ((blocked_for_ms o now b).0 ≡ none) ↔ (
          (b.state ≡ closed)
          ⊎ ((b.state ≡ opened) × (b.opened_at + o.reset_ms ≤ now)
              ⊎ ((b.state ≡ half_open) × (b.trial_in_flight ≡ false))))
  unfolding blocked_for_ms
  blocked_for_ms-none_iff now b = ground arith

  in_trial-passes :
      (ts : List ℕ) (b : CircuitBreaker)
      → b.state ≡ half_open
      → b.trial_in_flight ≡ true
      → passes ts b ≡ 0
  unfolding passes blocked_for_ms
  in_trial-passes [] b s t = refl
  in_trial-passes (now ∷ ts) b s t = ground (arith, in_trial-passes ts b s t)

  -- While no call ends, a breaker that is not closed lets at most one of any row of calls through.
  pub passes-le-one : (ts : List ℕ) (b : CircuitBreaker) → b.state ≢ closed → passes ts b ≤ 1
  unfolding passes blocked_for_ms
  passes-le-one [] b ne = omega arith
  passes-le-one (now ∷ ts) b ne = ground (
    arith,
    passes-le-one ts (blocked_for_ms o now b).1,
    in_trial-passes ts (blocked_for_ms o now b).1,
  )

  early_refused :
      (until : ℕ) (ts : List ℕ) (b : CircuitBreaker)
      → b.state ≡ opened
      → b.opened_at + o.reset_ms ≡ until
      → All (λ t. t < until) ts
      → passes ts b ≡ 0
  unfolding passes blocked_for_ms
  early_refused until [] b s e h = refl
  early_refused until (now ∷ ts) b s e (early, h) = ground (arith, early_refused until ts b s e h)

  -- A failed trial opens the breaker again: no call passes before the reset time has gone by once
  -- more, and a successful trial closes it with no failure counted.
  pub trial_decides :
      (now : ℕ) (ts : List ℕ) (b : CircuitBreaker)
      → b.state ≡ half_open
      → All (λ t. t < now + o.reset_ms) ts
      → (passes ts (record_failure o now b) ≡ 0)
        × ((record_failure o now b).state ≡ opened)
        × ((record_success o b).state ≡ closed)
        × ((record_success o b).failures ≡ 0)
  unfolding record_failure record_success
  trial_decides now ts b s h = (
    early_refused (now + o.reset_ms) ts (record_failure o now b) (ground arith) (ground arith) h,
    ground arith,
    refl,
    refl,
  )
