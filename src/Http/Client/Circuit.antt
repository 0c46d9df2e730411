-- ===== src/Http/Client/Circuit.antt =====
-- How a request of `FetchHttpClient` (src/infrastructure/http/fetch-http.client.ts) and the circuit
-- breaker of its target act on each other.
use native.Mathlib.Numerals.{add-one}
use nestjs_ddd.Prelude.{
  ℕ, zero, suc, ◌+◌, ◌-◌, ◌<◌, ◌≡◌, refl, inl, inr, Bool, true, false, Option, none, some, List, [],
  ◌∷◌, arith, lookup, insert, lookup-insert_self, count_if, String, Option-cases,
}
use nestjs_ddd.Http.Breaker.{CircuitBreaker, opened, blocked_for_ms, record_success, record_failure}
use nestjs_ddd.Http.Client.Events.{
  HttpClientConfig, HttpRequest, answered, failed, circuit_open, AttemptOutcome, Surroundings,
  Event, warn_circuit_open, count_circuit_open, is_sent,
}
use nestjs_ddd.Http.Client.Loop.{
  Platform, Finished, done, Breakers, prefix, target, retries, turn, rounds, run_request,
  breaker_for, breaker_options, attempt, check_circuit, after_attempt, update_breaker,
}
use nestjs_ddd.Http.Client.Laws.{turn-cases}

abbrev pub is_refused : AttemptOutcome → Bool
is_refused (failed (circuit_open t ms)) = true
is_refused _ = false

-- Whether a trial of the breaker of `key` is in flight.
abbrev pub trial_of : String → Breakers → Bool
trial_of key m = elim (lookup key m) [ none ↦ false | some b ↦ b.trial_in_flight ]

module _ (js : Platform) (config : HttpClientConfig) (request : HttpRequest) where
  update_breaker_trial :
      (g : CircuitBreaker → CircuitBreaker) (m : Breakers)
      → ((b : CircuitBreaker) → (g b).trial_in_flight ≡ false)
      → config.circuit_enabled ≡ true
      → trial_of (target js config request) (update_breaker js config request g m) ≡ false
  unfolding update_breaker
  update_breaker_trial g m off on = elim (Option-cases (lookup (target js config request) m)) [
    | inl e ↦ ground arith
    | inr (b, e) ↦ ground (arith, lookup-insert_self (target js config request) (g b) m, off b)
  ]

  after_attempt_trial :
      (env : Surroundings) (k : ℕ) (m : Breakers) (a : AttemptOutcome) (f : Finished)
      → config.circuit_enabled ≡ true
      → after_attempt js config request env k m a ≡ done f
      → trial_of (target js config request) f.breakers ≡ false
  unfolding after_attempt record_failure record_success
  after_attempt_trial env k m (answered r) f on e = ground (
    arith,
    update_breaker_trial (record_failure (breaker_options js config request) env.recorded_at) m
        (λ b. ground arith) on,
    update_breaker_trial (record_success (breaker_options js config request)) m (λ b. ground arith)
        on,
  )
  after_attempt_trial env k m (failed x) f on e = ground (
    arith,
    update_breaker_trial (record_failure (breaker_options js config request) env.recorded_at) m
        (λ b. ground arith) on,
  )

  -- How the last round of a request leaves the breaker, if the request was not refused.
  abbrev LastTrial : Option Finished → Type 0
  LastTrial none = Unit
  LastTrial (some f) =
      is_refused f.outcome ≡ false → trial_of (target js config request) f.breakers ≡ false

  turn-done_trial :
      (env : Surroundings) (k : ℕ) (m : Breakers) (f : Finished)
      → config.circuit_enabled ≡ true
      → turn js config request env k m ≡ done f
      → is_refused f.outcome ≡ false
      → trial_of (target js config request) f.breakers ≡ false
  unfolding turn
  turn-done_trial env k m f on e open_not =
      elim (Option-cases (check_circuit js config request env.checked_at m).0) [
        | inl free ↦
            after_attempt_trial env k
              (env.during_fetch (check_circuit js config request env.checked_at m).1)
              (attempt js config request env) f on (rw (free, turn) at e)
        | inr (ms, blocked) ↦ ground arith
      ]

  LastTrial-prefix : (es : List Event) (r : Option Finished) → LastTrial r → LastTrial (prefix es r)
  LastTrial-prefix es none h = tt
  LastTrial-prefix es (some f) h = h

  rounds-LastTrial :
      (env : ℕ → Surroundings) (fuel k : ℕ) (m : Breakers)
      → config.circuit_enabled ≡ true
      → LastTrial (rounds js config request env fuel k m)
  unfolding rounds
  rounds-LastTrial env zero k m on = tt
  rounds-LastTrial env (suc fuel) k m on = elim (turn-cases js config request (env k) k m) [
    | inl (f, d) ↦ rw (d, rounds) (turn-done_trial (env k) k m f on d)
    | inr (m', es, a) ↦
        rw (a, rounds) (LastTrial-prefix es _ (rounds-LastTrial env fuel (k + 1) m' on))
  ]

  -- A request that was not refused by the circuit leaves no trial of its target in flight, however
  -- it ended and whatever other requests did to the breakers meanwhile.
  pub run_request_ends_trial :
      (env : ℕ → Surroundings) (m : Breakers) (f : Finished)
      → config.circuit_enabled ≡ true
      → run_request js config request env m ≡ some f
      → is_refused f.outcome ≡ false
      → trial_of (target js config request) f.breakers ≡ false
  unfolding run_request
  run_request_ends_trial env m f on e free =
      (rw e at (
          rounds-LastTrial env (retries js config request + 1) 0 (breaker_for js config request m)
            on))
        free

  -- While the breaker of the target is open and its time is not up, a request makes no attempt: it
  -- fails at once, with the time that is left.
  pub open_circuit_refuses :
      (env : ℕ → Surroundings) (m : Breakers) (b : CircuitBreaker)
      → config.circuit_enabled ≡ true
      → lookup (target js config request) m ≡ some b
      → b.state ≡ opened
      → (env 0).checked_at < b.opened_at + config.circuit_reset_ms
      → (f : Finished) × (run_request js config request env m ≡ some f)
        × (f.outcome
            ≡ failed (
                circuit_open
                  (target js config request)
                  (b.opened_at + config.circuit_reset_ms - (env 0).checked_at)))
        × (count_if is_sent f.events ≡ 0)
  unfolding run_request rounds breaker_for turn check_circuit blocked_for_ms
  open_circuit_refuses env m b on known is_open early = (
    record {
      outcome = failed (
          circuit_open (target js config request)
            (b.opened_at + config.circuit_reset_ms - (env 0).checked_at));
      breakers = insert (target js config request) b m;
      events =
          warn_circuit_open (target js config request)
            (b.opened_at + config.circuit_reset_ms - (env 0).checked_at)
          ∷ count_circuit_open (target js config request)
          ∷ [];
    },
    rw add-one (ground arith),
    refl,
    refl,
  )
