-- ===== src/Http/Client/Tests.antt =====
-- The theorems on the HTTP client, the breaker and the retry policy (src/infrastructure/http) at
-- concrete requests.
use nestjs_ddd.Prelude.{
  ℕ, ◌≡◌, refl, ◌+◌, ◌-◌, ◌*◌, ◌==◌, ◌≤◌, true, false, Option, none, some, String, [], ◌∷◌, lookup,
  insert, arith, count_if, if◌then◌else◌, str_eq, ◌≢◌,
}
use nestjs_ddd.Shared.Correlation.{codes}
use nestjs_ddd.Shared.Text.{Text, trim}
use nestjs_ddd.Shared.Trace.{skip_spaces, drop_spaces_after}
use nestjs_ddd.Legacy.Prefix.{same_text}
use nestjs_ddd.Config.Env.{env_string, env_bool}
use nestjs_ddd.Config.Fields.{◌>>=◌, refined}
use nestjs_ddd.Config.Sections.{http_client_section, from_or, within_or, flag_or, text_or}
use nestjs_ddd.Config.Sections.Composed.{loaded_request_ends}
use nestjs_ddd.Http.Breaker.{
  CircuitBreakerOptions, CircuitBreaker, closed, opened, new_breaker, record_failure,
  record_success, blocked_for_ms,
}
use nestjs_ddd.Http.Breaker.Trips.{passes, passes-le-one}
use nestjs_ddd.Http.Retry.{
  get, HeaderReading, RetryDelayOptions, retry_delay_ms, parse_retry_after, from_zero, below_zero,
  is_retryable_status, is_idempotent,
}
use nestjs_ddd.Http.Client.Events.{
  HttpClientConfig, HttpRequest, answered, failed, as_text, fetched, rejected, Surroundings,
  is_sent, waited, circuit_open, sent, count_retry, warn_retry, by_transport, wait, debug_response,
  count_request, status_outcome, observe_duration,
}
use nestjs_ddd.Http.Client.Loop.{
  Platform, Finished, retries, retryable, run_request, attempt, rounds, turn, check_circuit,
  after_attempt, update_breaker, breaker_for,
}
use nestjs_ddd.Http.Client.Laws.{run_request_ends}
use nestjs_ddd.Http.Client.Circuit.{trial_of, run_request_ends_trial, open_circuit_refuses}

abbrev options : CircuitBreakerOptions
options = record { failure_threshold = 2; reset_ms = 100 }

abbrev tripped : CircuitBreaker
tripped = record { state = opened; failures = 0; opened_at = 50; trial_in_flight = false }

opened-ne-closed : opened ≢ closed
opened-ne-closed e = cc

passes-le-one_example : passes options (60 ∷ 150 ∷ 151 ∷ 400 ∷ []) tripped ≤ 1
passes-le-one_example = passes-le-one options (60 ∷ 150 ∷ 151 ∷ 400 ∷ []) tripped opened-ne-closed

abbrev delay_options : RetryDelayOptions
delay_options = record {
  attempt = 1;
  base_ms = 200;
  jitter_ms = 150;
  max_delay_ms = 5000;
  retry_after_ms = none;
}

-- Only "2" and "-1" are numbers, and no text is a date.
abbrev reading : HeaderReading
reading = record {
  seconds = λ s.
      if str_eq s "2"
      then some (from_zero 2000)
      else if str_eq s "-1"
      then some (below_zero 1000)
      else none;
  date = λ now s. none;
}

abbrev platform : Platform
platform = record {
  header_reading = reading;
  origin = λ url. "https://up";
  lower = λ s. s;
  includes_json = λ s. str_eq s "application/json";
  parses = λ s. true;
}

abbrev config : HttpClientConfig
config = record {
  timeout_ms = 5000;
  retries = 2;
  retry_base_ms = 200;
  retry_jitter_ms = 150;
  retry_max_delay_ms = 5000;
  circuit_enabled = true;
  circuit_failure_threshold = 2;
  circuit_reset_ms = 30000;
  user_agent = "svc";
  request_id_header = "x-request-id";
}

abbrev ask : HttpRequest
ask = record {
  method = get;
  url = "https://up/items";
  headers = ("accept", "text/plain") ∷ [];
  body = none;
  timeout_ms = none;
  retries = none;
  idempotent = none;
  tag = "items";
}

-- The upstream answers every attempt with 503 after 40 ms.
abbrev busy : ℕ → Surroundings
busy k = record {
  checked_at = 1000;
  started_at = 1000;
  ended_at = 1040;
  recorded_at = 1040;
  fetch = fetched 503 [] "busy";
  aborted = false;
  jitter = 9;
  during_fetch = λ m. m;
  during_wait = λ m. m;
}

-- The upstream answers at the second attempt.
abbrev recovering : ℕ → Surroundings
recovering k = record (busy k) { fetch = if k == 0 then rejected else fetched 200 [] "ok" }

abbrev ended : Finished
ended = record {
  outcome = answered (record { status = 200; headers = []; body = as_text "ok" });
  breakers = ("https://up", new_breaker) ∷ [];
  events =
      sent 0
      ∷ count_retry
      ∷ warn_retry 1 209 by_transport
      ∷ wait 209
      ∷ sent 1
      ∷ debug_response 200 40 2
      ∷ count_request (status_outcome 200)
      ∷ observe_duration 40
      ∷ [];
}

run_test : run_request platform config ask recovering [] ≡ some ended
unfolding run_request rounds turn check_circuit after_attempt attempt update_breaker lookup insert
    is_idempotent is_retryable_status parse_retry_after retry_delay_ms record_success record_failure
    blocked_for_ms breaker_for
run_test = refl

-- Two failures open the circuit, so the third attempt is refused.
circuit_test :
    (f : Finished) × (run_request platform config ask busy [] ≡ some f)
    × (f.outcome ≡ failed (circuit_open "https://up" 30040))
    × (count_if is_sent f.events ≡ 2)
unfolding run_request rounds turn check_circuit after_attempt attempt update_breaker lookup insert
    is_idempotent is_retryable_status parse_retry_after retry_delay_ms record_success record_failure
    blocked_for_ms breaker_for
circuit_test = (_, refl, refl, refl)

run_request_ends_example :
    (f : Finished) × (run_request platform config ask busy [] ≡ some f)
    × (count_if is_sent f.events
        ≤ (if retryable platform config ask then retries platform config ask + 1 else 1))
    × (waited f.events ≤ retries platform config ask * 5000)
run_request_ends_example = run_request_ends platform config ask busy []

run_request_ends_trial_example : trial_of "https://up" ended.breakers ≡ false
run_request_ends_trial_example =
    run_request_ends_trial platform config ask recovering [] ended refl run_test refl

open_circuit_refuses_example :
    (f : Finished) × (run_request platform config ask busy (("https://up", tripped) ∷ []) ≡ some f)
    × (f.outcome ≡ failed (circuit_open "https://up" (50 + 30000 - 1000)))
    × (count_if is_sent f.events ≡ 0)
unfolding lookup
open_circuit_refuses_example =
    open_circuit_refuses platform config ask busy (("https://up", tripped) ∷ []) tripped refl refl
      refl (omega arith)

-- An environment in which the configuration of the client is `config`.
abbrev set : String → Option Text
set name =
    if str_eq name "HTTP_CLIENT_CIRCUIT_FAILURE_THRESHOLD"
    then some (codes " 2 ")
    else if str_eq name "HTTP_CLIENT_USER_AGENT"
    then some (codes "svc")
    else none

abbrev two : Text → Option ℕ
two t = if same_text (codes "2") t then some 2 else none

abbrev text_of : Text → String
text_of t = if same_text (codes "svc") t then "svc" else "x-request-id"

config_accepted : http_client_section two text_of set ≡ some config
unfolding http_client_section ◌>>=◌ from_or env_string within_or flag_or env_bool trim
    drop_spaces_after skip_spaces same_text refined text_or
config_accepted = refl

loaded_request_ends_example :
    (f : Finished) × (run_request platform config ask busy [] ≡ some f)
    × (count_if is_sent f.events ≤ (if retryable platform config ask then 11 else 1))
    × (waited f.events ≤ 10 * 5000)
loaded_request_ends_example =
    loaded_request_ends two text_of set platform config ask busy [] config_accepted refl
