-- ===== src/Http/Client/Loop.antt =====
-- `request`, `attempt`, `readResponse`, `breakerFor`, `waitBeforeRetry`, `record` and `log` of
-- src/infrastructure/http/fetch-http.client.ts.
use nestjs_ddd.Prelude.{
  ℕ, zero, suc, ◌+◌, ◌-◌, Bool, not, ◌&&◌, ◌||◌, Option, none, some, String, List, [], ◌∷◌, ◌++◌,
  Map, lookup, insert, ltb, leb, or_else, str_eq, if◌then◌else◌,
}
use nestjs_ddd.Http.Retry.{
  HeaderReading, is_idempotent, is_retryable_status, parse_retry_after, retry_delay_ms,
}
use nestjs_ddd.Http.Breaker.{
  CircuitBreakerOptions, CircuitBreaker, new_breaker, blocked_for_ms, record_success,
  record_failure,
}
use nestjs_ddd.Http.Client.Events.{
  HttpClientConfig, HttpRequest, as_text, as_json, HttpResponse, HttpError, circuit_open,
  upstream_timeout, upstream_unavailable, AttemptOutcome, answered, failed, fetched, rejected,
  Surroundings, Cause, by_status, by_transport, RequestOutcome, status_outcome, timeout_outcome,
  transport_outcome, Event, warn_circuit_open, count_circuit_open, sent, debug_response,
  error_response, error_failed, count_request, observe_duration, count_retry, warn_retry, wait,
}

abbrev pub Breakers : Type 0
Breakers = Map CircuitBreaker

-- Documented platform behaviour that the client calls: what `URL` says of the origin, what
-- `toLowerCase` and `includes('json')` say of a header, and which texts `JSON.parse` accepts.
pub record Platform : Type 0 where
  pub header_reading : HeaderReading
  pub origin : String → String
  pub lower : String → String
  pub includes_json : String → Bool
  pub parses : String → Bool

-- A request that has ended: with a response or an error.
pub record Finished : Type 0 where
  pub outcome : AttemptOutcome
  pub breakers : Breakers
  pub events : List Event

-- One round of the loop ends the request, or has waited and goes round again.
pub data Turn : Type 0 where
  done : Finished → Turn
  again : Breakers → List Event → Turn

abbrev pub prefix : List Event → Option Finished → Option Finished
prefix es none = none
prefix es (some f) = some (record f { events = es ++ f.events })

module _ (js : Platform) (config : HttpClientConfig) (request : HttpRequest) where
  abbrev pub target : String
  target = js.origin request.url

  abbrev pub retries : ℕ
  retries = or_else request.retries config.retries

  abbrev pub timeout_ms : ℕ
  timeout_ms = or_else request.timeout_ms config.timeout_ms

  abbrev pub retryable : Bool
  retryable = is_idempotent request.method request.idempotent

  abbrev pub breaker_options : CircuitBreakerOptions
  breaker_options = record {
    failure_threshold = config.circuit_failure_threshold;
    reset_ms = config.circuit_reset_ms;
  }

  -- `breakerFor`, as its effect on the map.
  unfoldable pub breaker_for : Breakers → Breakers
  breaker_for m =
      if config.circuit_enabled
      then elim (lookup target m) [ some b ↦ m | none ↦ insert target new_breaker m ]
      else m

  -- `breaker?.blockedForMs()`
  unfoldable pub check_circuit : ℕ → Breakers → Option ℕ × Breakers
  check_circuit now m =
      if config.circuit_enabled
      then elim (lookup target m) [
        | none ↦ (none, m)
        | some b ↦
            let (blocked, b') = blocked_for_ms breaker_options now b in
            (blocked, insert target b' m)
      ]
      else (none, m)

  -- `breaker?.recordSuccess()`, `breaker?.recordFailure()`
  unfoldable pub update_breaker : (CircuitBreaker → CircuitBreaker) → Breakers → Breakers
  update_breaker f m =
      if config.circuit_enabled
      then elim (lookup target m) [ none ↦ m | some b ↦ insert target (f b) m ]
      else m

  lower_keys : Map String → Map String → Map String
  lower_keys kept [] = kept
  lower_keys kept ((k, v) ∷ hs) = lower_keys (insert (js.lower k) v kept) hs

  -- `readResponse`: `none` where `JSON.parse` throws.
  read_response : ℕ → Map String → String → Option HttpResponse
  unfolding lower_keys
  read_response status raw text =
      let headers = lower_keys [] raw in
      let json =
        js.includes_json (or_else (lookup "content-type" headers) "") && not (str_eq text "") in
      if json
      then (if js.parses text
          then some (record { status = status; headers = headers; body = as_json text })
          else none)
      else some (record { status = status; headers = headers; body = as_text text })

  attempt_error : Surroundings → HttpError
  attempt_error env =
      if env.aborted
      then upstream_timeout request.tag timeout_ms
      else upstream_unavailable request.tag

  -- `attempt`: the errors of `fetch`, of `text()` and of `JSON.parse` all end in its `catch`.
  unfoldable pub attempt : Surroundings → AttemptOutcome
  unfolding attempt_error read_response
  attempt env = elim env.fetch [
    | rejected ↦ failed (attempt_error env)
    | fetched status raw text ↦ elim (read_response status raw text) [
      | none ↦ failed (attempt_error env)
      | some response ↦ answered response
    ]
  ]

  -- `record`
  record_request : RequestOutcome → ℕ → List Event
  record_request outcome duration = count_request outcome ∷ observe_duration duration ∷ []

  -- `log`
  log_response : ℕ → ℕ → ℕ → List Event
  log_response status duration k =
      if leb 500 status
      then error_response status duration (k + 1) ∷ []
      else debug_response status duration (k + 1) ∷ []

  -- `waitBeforeRetry`
  wait_before_retry : Surroundings → ℕ → Cause → Option ℕ → List Event
  wait_before_retry env k cause retry_after =
      let wait_ms = retry_delay_ms env.jitter (record {
        attempt = k;
        base_ms = config.retry_base_ms;
        jitter_ms = config.retry_jitter_ms;
        max_delay_ms = config.retry_max_delay_ms;
        retry_after_ms = retry_after;
      }) in
      count_retry ∷ warn_retry (k + 1) wait_ms cause ∷ wait wait_ms ∷ []

  failure_reason : HttpError → RequestOutcome
  failure_reason (upstream_timeout tag ms) = timeout_outcome
  failure_reason _ = transport_outcome

  -- The part of the round that follows the attempt; `m` is the map as the await left it.
  unfoldable pub after_attempt : Surroundings → ℕ → Breakers → AttemptOutcome → Turn
  unfolding record_request log_response wait_before_retry failure_reason
  after_attempt env k m (answered response) =
      let duration = env.ended_at - env.started_at in
      let m' =
        update_breaker
          (if leb 500 response.status
            then record_failure breaker_options env.recorded_at
            else record_success breaker_options)
          m in
      if retryable && ltb k retries && is_retryable_status response.status
      then again (env.during_wait m') (
          sent k
          ∷ wait_before_retry env k (by_status response.status) (
              parse_retry_after js.header_reading env.recorded_at
                (lookup "retry-after" response.headers)))
      else done (record {
        outcome = answered response;
        breakers = m';
        events =
            sent k ∷ log_response response.status duration k
            ++ record_request (status_outcome response.status) duration;
      })
  after_attempt env k m (failed error) =
      let duration = env.ended_at - env.started_at in
      let m' = update_breaker (record_failure breaker_options env.recorded_at) m in
      if not retryable || leb retries k
      then done (record {
        outcome = failed error;
        breakers = m';
        events =
            sent k
            ∷ error_failed duration (k + 1) (failure_reason error)
            ∷ record_request (failure_reason error) duration;
      })
      else again (env.during_wait m') (sent k ∷ wait_before_retry env k by_transport none)

  -- One round: the circuit check, then the attempt and what follows.
  unfoldable pub turn : Surroundings → ℕ → Breakers → Turn
  turn env k m =
      let (blocked, m') = check_circuit env.checked_at m in
      elim blocked [
        | some ms ↦ done (record {
          outcome = failed (circuit_open target ms);
          breakers = m';
          events = warn_circuit_open target ms ∷ count_circuit_open target ∷ [];
        })
        | none ↦ after_attempt env k (env.during_fetch m') (attempt env)
      ]

  -- `for (let attempt = 0; ; attempt++)`; `none` means that the fuel ran out.
  unfoldable pub rounds : (ℕ → Surroundings) → ℕ → ℕ → Breakers → Option Finished
  rounds env zero k m = none
  rounds env (suc fuel) k m = elim (turn (env k) k m) [
    | done f ↦ some f
    | again m' es ↦ prefix es (rounds env fuel (k + 1) m')
  ]

  -- `request`: with as much fuel as there are attempts.
  unfoldable pub run_request : (ℕ → Surroundings) → Breakers → Option Finished
  unfolding rounds breaker_for
  run_request env m = rounds env (retries + 1) 0 (breaker_for m)
