-- ===== src/Http/Breaker.antt =====
-- src/infrastructure/http/circuit-breaker.ts: one breaker per upstream origin. A method takes the
-- value that `now()` returns and gives back the new breaker.
pub mod Invariant
pub mod Trips
use nestjs_ddd.Prelude.{
  ℕ, ◌+◌, ◌-◌, Bool, true, false, ◌&&◌, Option, none, some, leb, if◌then◌else◌,
}

pub record CircuitBreakerOptions : Type 0 where
  pub failure_threshold : ℕ
  pub reset_ms : ℕ

-- 'closed' | 'open' | 'half-open'
pub data CircuitState : Type 0 where
  closed opened half_open : CircuitState

pub record CircuitBreaker : Type 0 where
  pub state : CircuitState
  pub failures : ℕ
  pub opened_at : ℕ
  pub trial_in_flight : Bool

abbrev pub new_breaker : CircuitBreaker
new_breaker = record { state = closed; failures = 0; opened_at = 0; trial_in_flight = false }

abbrev pub is_opened : CircuitState → Bool
is_opened opened = true
is_opened _ = false

module _ (options : CircuitBreakerOptions) where
  -- The part of `blockedForMs` that follows the move to half-open.
  half_open_or_wait : ℕ → CircuitBreaker → CircuitState → Option ℕ × CircuitBreaker
  half_open_or_wait now b half_open =
      if b.trial_in_flight
      then (some options.reset_ms, b)
      else (none, record b { trial_in_flight = true })
  half_open_or_wait now b _ = (some (b.opened_at + options.reset_ms - now), b)

  -- `now - openedAt >= resetMs`, and `max(0, resetMs - (now - openedAt))`, with the terms moved
  -- so that no difference is negative.
  blocked_by_state : ℕ → CircuitBreaker → CircuitState → Option ℕ × CircuitBreaker
  unfolding half_open_or_wait
  blocked_by_state now b closed = (none, b)
  blocked_by_state now b s =
      let due = is_opened s && leb (b.opened_at + options.reset_ms) now in
      let b' = if due then record b { state = half_open; trial_in_flight = false } else b in
      half_open_or_wait now b' b'.state

  unfoldable pub blocked_for_ms : ℕ → CircuitBreaker → Option ℕ × CircuitBreaker
  unfolding blocked_by_state
  blocked_for_ms now b = blocked_by_state now b b.state

  unfoldable pub record_success : CircuitBreaker → CircuitBreaker
  record_success b = record b { state = closed; failures = 0; trial_in_flight = false }

  trip : ℕ → CircuitBreaker → CircuitBreaker
  trip now b = record b { state = opened; opened_at = now; failures = 0 }

  count_failure : ℕ → CircuitBreaker → CircuitState → CircuitBreaker
  unfolding trip
  count_failure now b half_open = trip now b
  count_failure now b _ =
      let b' = record b { failures = b.failures + 1 } in
      if leb options.failure_threshold b'.failures then trip now b' else b'

  unfoldable pub record_failure : ℕ → CircuitBreaker → CircuitBreaker
  unfolding count_failure
  record_failure now b = count_failure now (record b { trial_in_flight = false }) b.state
