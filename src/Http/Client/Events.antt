-- ===== src/Http/Client/Events.antt =====
-- The data of src/infrastructure/http/fetch-http.client.ts: requests, responses, errors, the
-- configuration slice, and the log lines, metrics, attempts and waits of a request as events.
use nestjs_ddd.Prelude.{ℕ, Bool, true, false, Option, String, Map, ◌+◌, List, [], ◌∷◌}
use nestjs_ddd.Http.Retry.{HttpMethod}
use nestjs_ddd.Http.Breaker.{CircuitBreaker}

-- The keys of `httpClient.*` and `logging.requestIdHeader` that the client reads.
pub record HttpClientConfig : Type 0 where
  pub timeout_ms : ℕ
  pub retries : ℕ
  pub retry_base_ms : ℕ
  pub retry_jitter_ms : ℕ
  pub retry_max_delay_ms : ℕ
  pub circuit_enabled : Bool
  pub circuit_failure_threshold : ℕ
  pub circuit_reset_ms : ℕ
  pub user_agent : String
  pub request_id_header : String

-- `body` is the text that is sent: the string given, or `JSON.stringify` of the value given.
pub record HttpRequest : Type 0 where
  pub method : HttpMethod
  pub url : String
  pub headers : Map String
  pub body : Option String
  pub timeout_ms : Option ℕ
  pub retries : Option ℕ
  pub idempotent : Option Bool
  pub tag : String

-- A body as the caller gets it: the text, or the value that `JSON.parse` makes of it.
pub data ResponseBody : Type 0 where
  as_text : String → ResponseBody
  as_json : String → ResponseBody

pub record HttpResponse : Type 0 where
  pub status : ℕ
  pub headers : Map String
  pub body : ResponseBody

pub data HttpError : Type 0 where
  circuit_open : String → ℕ → HttpError
  upstream_timeout : String → ℕ → HttpError
  upstream_unavailable : String → HttpError

-- `{ ok: true; response } | { ok: false; error }`
pub data AttemptOutcome : Type 0 where
  answered : HttpResponse → AttemptOutcome
  failed : HttpError → AttemptOutcome

-- What `fetch` gives: a response with its text, or a rejection, be it of `fetch` or of `text()`.
pub data FetchResult : Type 0 where
  fetched : ℕ → Map String → String → FetchResult
  rejected : FetchResult

-- The facts of one attempt. The four times are those of `Date.now()` at the circuit check, at the
-- start, at the end, and where the breaker or `parseRetryAfter` reads the clock.
pub record Surroundings : Type 0 where
  pub checked_at : ℕ
  pub started_at : ℕ
  pub ended_at : ℕ
  pub recorded_at : ℕ
  pub fetch : FetchResult
  pub aborted : Bool
  pub jitter : ℕ
  pub during_fetch : Map CircuitBreaker → Map CircuitBreaker
  pub during_wait : Map CircuitBreaker → Map CircuitBreaker

pub data Cause : Type 0 where
  by_status : ℕ → Cause
  by_transport : Cause

pub data RequestOutcome : Type 0 where
  status_outcome : ℕ → RequestOutcome
  timeout_outcome transport_outcome : RequestOutcome

pub data Event : Type 0 where
  warn_circuit_open : String → ℕ → Event
  count_circuit_open : String → Event
  sent : ℕ → Event
  debug_response : ℕ → ℕ → ℕ → Event
  error_response : ℕ → ℕ → ℕ → Event
  error_failed : ℕ → ℕ → RequestOutcome → Event
  count_request : RequestOutcome → Event
  observe_duration : ℕ → Event
  count_retry : Event
  warn_retry : ℕ → ℕ → Cause → Event
  wait : ℕ → Event

abbrev pub wait_of : Event → ℕ
wait_of (wait ms) = ms
wait_of _ = 0

abbrev pub is_sent : Event → Bool
is_sent (sent attempt) = true
is_sent _ = false

-- How long a request has waited between its attempts.
abbrev pub waited : List Event → ℕ
waited [] = 0
waited (e ∷ es) = wait_of e + waited es
