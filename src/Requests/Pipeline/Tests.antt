-- ===== src/Requests/Pipeline/Tests.antt =====
-- The theorems on the pipeline at concrete requests.
use nestjs_ddd.Prelude.{
  ℕ, ◌≡◌, refl, true, false, Option, none, some, String, [], ◌∷◌, arith, eq_iff, str_eq,
  if◌then◌else◌, ◌≢◌, lookup, map,
}
use nestjs_ddd.Shared.Values.{
  Value, undefined, string, get, is_err_result, no_members, object, member, array, element,
  no_elements,
}
use nestjs_ddd.Shared.Correlation.{is_safe_correlation_id}
use nestjs_ddd.Idempotency.Port.{claimed}
use nestjs_ddd.Idempotency.Memory.{IdempotencyConfig, Records, claim, memory_store}
use nestjs_ddd.Idempotency.Interceptor.{InterceptedRequest, single, returned, answered, first_value}
use nestjs_ddd.Errors.Filter.{http_exception}
use nestjs_ddd.Errors.Formatter.Success.{sent_status}
use nestjs_ddd.Requests.Guards.{Request, is_given, is_state_changing, csrf_guard, run_guards}
use nestjs_ddd.Requests.Guards.Foreign.{is_foreign}
use nestjs_ddd.Requests.Pipeline.{Incoming, Surroundings, answer_reply, handle_request, handle_all}
use nestjs_ddd.Requests.Validation.{
  Parsed, success, failure, ZodHttpSchema, Inputs, zod_http, validate_parts, first_failure,
  format_zod_error,
}
use nestjs_ddd.Requests.Validation as Validation
use nestjs_ddd.Requests.Validation.Stored.{validate_parts-stored}
use nestjs_ddd.Requests.Pipeline.Refused.{foreign_write_answer}
use nestjs_ddd.Requests.Pipeline.Replayed.{reaches, replayed_answers}

abbrev config : IdempotencyConfig
config = record { ttl_ms = 1000; in_progress_ttl_ms = 100 }

abbrev nothing : Records Value
nothing = []

abbrev around : Surroundings
around = record {
  url_origin = λ url. none;
  bearer = λ header. none;
  verify =
      λ token. if str_eq token "t1" then some (record { username = "ann"; roles = none }) else none;
  csrf = record { enabled = true; trusted_origins = "https://app.example" ∷ [] };
  framework_response = λ status. string "refused";
  status_name = λ status. none;
  to_text = λ v. "";
  as_error = λ v. none;
  idempotency_header = "idempotency-key";
}

abbrev post : (origin : String) → Request
post origin = record {
  method = "POST";
  auth_cookie = some "t1";
  authorization = none;
  fetch_site = none;
  origin = some origin;
  referer = none;
  protocol = "https";
  host = some "api.example";
}

-- A marked call at a time, whose handler creates something.
abbrev call_at : ℕ → String → InterceptedRequest
call_at now key = record {
  marked = true;
  header = single key;
  fingerprint = "f";
  handler = returned 201 (string "made");
  now = now;
}

-- The body is read, and a query is refused by the strict schema.
abbrev checks : Option (Value → Parsed) → ZodHttpSchema
checks query = record {
  body = some (λ v. success (string "read"));
  query = query;
  params = none;
  headers = none;
}

abbrev strict : ZodHttpSchema
strict = checks (some (λ v. failure (record { path = "page" ∷ []; message = "bad" } ∷ [])))

abbrev raw : Inputs
raw = record {
  body = string "b";
  query = string "q";
  params = undefined;
  headers = undefined;
  validated = no_members;
}

abbrev sent_from : String → ℕ → String → Incoming
sent_from origin now key = record {
  request = post origin;
  guarded = record { is_public = false; roles = none };
  throttled = false;
  deprecated = none;
  schema = some (checks none);
  inputs = raw;
  formatted = record { skip_header = false; raw_response = false; headers_sent = false };
  call = call_at now key;
  thrown = http_exception 500 (string "");
  meta = no_members;
  error_meta = no_members;
}

abbrev order : ℕ → String → Incoming
order now key = sent_from "https://app.example" now key

abbrev forged : Incoming
forged = sent_from "https://evil.example" 5 "k"

is_write : is_state_changing "POST" ≡ true
unfolding is_state_changing
is_write = refl

is_forged : is_foreign around.url_origin around.csrf (post "https://evil.example") ≡ true
unfolding csrf_guard
is_forged = refl

foreign_write_answer_example :
    let o = handle_request around (memory_store config) forged nothing in
    (o.runs ≡ 0)
    × (o.store ≡ nothing)
    × (sent_status o.sent ≡ (if false then 429 else if is_given (some "t1") then 403 else 401))
foreign_write_answer_example =
    foreign_write_answer around (memory_store config) forged nothing
      (handle_request around (memory_store config) forged nothing) refl refl is_write is_forged refl

let_through_test :
    (now : ℕ) (key : String) → reaches around (memory_store config) (order now key) ≡ true
unfolding run_guards zod_http
let_through_test now key = refl

safe_test : is_safe_correlation_id (some "k") ≡ true
unfolding is_safe_correlation_id
safe_test = refl

granted_test : (claim config 5 "k" "f" nothing).0 ≡ claimed
unfolding claim lookup
granted_test = refl

made_test : is_err_result (string "made") ≡ false
unfolding is_err_result
made_test = refl

other_key : first_value (single "a") ≢ some "k"
other_key e = ground (arith, eq_iff "a" "k")

replayed_answers_example :
    let one = handle_request around (memory_store config) (order 5 "k") nothing in
    let repeats = order 6 "k" ∷ order 800 "k" ∷ [] in
    let later =
      handle_all around
        (memory_store config)
        repeats
        (handle_all around (memory_store config) (order 7 "a" ∷ []) one.store).2 in
    (one.sent ≡ answer_reply around (order 5 "k") (answered 201 (string "made")))
    × (one.runs ≡ 1)
    × (later.0
        ≡ map (λ (p : Incoming). answer_reply around p (answered 201 (string "made"))) repeats)
    × (later.1 ≡ 0)
replayed_answers_example =
    let st = memory_store config in
    let one = handle_request around st (order 5 "k") nothing in
    replayed_answers around config "k" (order 5 "k") (order 7 "a" ∷ [])
      (order 6 "k" ∷ order 800 "k" ∷ []) nothing 201 (string "made") one
      (handle_all around st (order 6 "k" ∷ order 800 "k" ∷ [])
        (handle_all around st (order 7 "a" ∷ []) one.store).2)
      (let_through_test 5 "k") refl refl safe_test granted_test refl made_test (other_key, tt)
      (let_through_test 6 "k", (let_through_test 800 "k", tt))
      (
        record { marked = refl; header = refl; same = refl; early = omega arith },
        (record { marked = refl; header = refl; same = refl; early = omega arith }, tt),
      )
      refl refl

validate_parts-stored_example :
    (get "body" (validate_parts strict raw).1.validated ≡ string "read")
    × ((validate_parts strict raw).1.body ≡ string "read")
    × ((validate_parts strict raw).0
        ≡ some (
            format_zod_error Validation.query
              (record { path = "page" ∷ []; message = "bad" } ∷ [])))
validate_parts-stored_example = validate_parts-stored strict raw Validation.body

told :
    format_zod_error Validation.query (record { path = "page" ∷ []; message = "bad" } ∷ [])
    ≡ object (
        member "message"
          (string "Validation failed")
          (member "details" (array (element (string "query.page: bad") no_elements)) no_members))
unfolding format_zod_error
told = refl
