-- ===== src/Http/Breaker/Invariant.antt =====
-- What holds of a circuit breaker (src/infrastructure/http/circuit-breaker.ts) after any calls.
use nestjs_ddd.Prelude.{ℕ, ◌<◌, ◌≡◌, true, List, [], ◌∷◌, arith}
use nestjs_ddd.Http.Breaker.{
  CircuitBreakerOptions, CircuitBreaker, half_open, new_breaker, blocked_for_ms, record_success,
  record_failure,
}

pub record IsValid (o : CircuitBreakerOptions) (b : CircuitBreaker) : Type 0 where
  pub below_threshold : b.failures < o.failure_threshold
  pub trial_is_half_open : b.trial_in_flight ≡ true → b.state ≡ half_open

-- A method call, with the time that `now()` reads in it.
pub data Call : Type 0 where
  blocked : ℕ → Call
  succeeded : Call
  failed : ℕ → Call

module _ (o : CircuitBreakerOptions) where
  unfoldable pub apply : Call → CircuitBreaker → CircuitBreaker
  apply (blocked now) b = (blocked_for_ms o now b).1
  apply succeeded b = record_success o b
  apply (failed now) b = record_failure o now b

  unfoldable pub run : List Call → CircuitBreaker → CircuitBreaker
  run [] b = b
  run (c ∷ cs) b = run cs (apply c b)

  pub apply-IsValid :
      (c : Call) (b : CircuitBreaker)
      → 0 < o.failure_threshold
      → IsValid o b
      → IsValid o (apply c b)
  unfolding apply blocked_for_ms record_success record_failure
  apply-IsValid (blocked now) b p v = ground arith
  apply-IsValid succeeded b p v = ground arith
  apply-IsValid (failed now) b p v = ground arith

  run-IsValid :
      (cs : List Call) (b : CircuitBreaker)
      → 0 < o.failure_threshold
      → IsValid o b
      → IsValid o (run cs b)
  unfolding run
  run-IsValid [] b p v = v
  run-IsValid (c ∷ cs) b p v = run-IsValid cs (apply c b) p (apply-IsValid c b p v)

  -- Whatever calls a breaker has seen, in whatever order and at whatever times, its count of
  -- failures stays below a positive threshold, and a trial is in flight only while it is half-open.
  pub run-new_breaker-IsValid :
      (cs : List Call) → 0 < o.failure_threshold → IsValid o (run cs new_breaker)
  run-new_breaker-IsValid cs p = run-IsValid cs new_breaker p (ground arith)
