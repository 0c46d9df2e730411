-- ===== src/Requests/Pipeline.antt =====
-- A request through what src/interface/interface.module.ts registers, in its order: the guards, the
-- validation of the input, the interceptors that format the answer and run an idempotent handler once,
-- and the exception filter. `framework_response` is the response of an exception of the framework.
pub mod Refused
pub mod Replayed
mod Tests
use nestjs_ddd.Prelude.{
  ℕ, ◌+◌, Bool, true, false, Option, none, some, String, List, [], ◌∷◌, str_append,
}
use nestjs_ddd.Shared.Values.{Value, undefined, string, Members}
use nestjs_ddd.Idempotency.Port.{IdempotencyStore}
use nestjs_ddd.Idempotency.Interceptor.{
  Reply, answered, missing_idempotency_key, idempotency_key_reused, idempotency_in_progress,
  handler_error, InterceptedRequest, intercept,
}
use nestjs_ddd.Errors.Presenter.{Problem}
use nestjs_ddd.Errors.Filter.{Exception, http_exception, other}
use nestjs_ddd.Errors.Formatter.{PresentableError, Handled, raised, Sent, answer_exception, respond}
use nestjs_ddd.Errors.Formatter
use nestjs_ddd.Errors.Raised.{
  app_error, forbidden_problem, unauthorized_problem, csrf_rejected_problem,
  missing_idempotency_key_problem, idempotency_key_reused_problem, idempotency_in_progress_problem,
}
use nestjs_ddd.Requests.Guards.{
  JwtPayload, Request, CsrfConfig, Refusal, too_many, csrf_rejected, invalid_token, no_user,
  forbidden, Passage, refused, passed, run_guards,
}
use nestjs_ddd.Requests.Guards
use nestjs_ddd.Requests.Deprecation.{DeprecationHeaders, set_headers}
use nestjs_ddd.Requests.Validation.{ZodHttpSchema, Inputs, zod_http}

module _ (framework_response : ℕ → Value) where
  -- What the guards throw.
  unfoldable pub refusal_exception : Refusal → Exception
  unfolding app_error
  refusal_exception too_many = http_exception 429 (framework_response 429)
  refusal_exception invalid_token = http_exception 401 (framework_response 401)
  refusal_exception csrf_rejected = app_error csrf_rejected_problem
  refusal_exception no_user = app_error (unauthorized_problem "Authentication required")
  refusal_exception forbidden = app_error (forbidden_problem "Insufficient privileges")

-- What the idempotency interceptor hands on: the status that it leaves, and the body or the error.
-- `thrown` is the error of the handler, `header` the name of the header.
unfoldable pub reply_status : Reply → ℕ
reply_status (answered status body) = status
reply_status reply = 200

unfoldable pub reply_handled : (header : String) → (thrown : Exception) → Reply → Handled
unfolding app_error
reply_handled header thrown (answered status body) = Formatter.returned body
reply_handled header thrown handler_error = raised thrown
reply_handled header thrown missing_idempotency_key =
    raised (app_error (missing_idempotency_key_problem header))
reply_handled header thrown idempotency_key_reused =
    raised (app_error idempotency_key_reused_problem)
reply_handled header thrown idempotency_in_progress =
    raised (app_error idempotency_in_progress_problem)

pub record Incoming : Type 0 where
  pub request : Request
  pub guarded : Guards.Route
  pub throttled : Bool
  pub schema : Option ZodHttpSchema
  pub inputs : Inputs
  pub formatted : Formatter.Route
  pub deprecated : Option DeprecationHeaders
  pub call : InterceptedRequest
  pub thrown : Exception
  pub meta : Members
  pub error_meta : Members

-- The response of the exception that the validation throws, if it throws.
abbrev pub invalid_input : Incoming → Option Value
invalid_input p = (zod_http p.schema p.inputs).0

-- What is outside the code, and the configuration.
pub record Surroundings : Type 0 where
  pub url_origin : String → Option String
  pub bearer : String → Option String
  pub verify : String → Option JwtPayload
  pub csrf : CsrfConfig
  pub framework_response : ℕ → Value
  pub status_name : ℕ → Option String
  pub to_text : Value → String
  pub as_error : Value → Option PresentableError
  pub idempotency_header : String

pub record Outcome (S : Type 0) : Type 0 where
  pub sent : Sent
  -- The headers that the deprecation interceptor sets.
  pub headers : List (String × String)
  pub runs : ℕ
  pub store : S

module _ (e : Surroundings) where
  -- The answer to what the idempotency interceptor hands on.
  unfoldable pub answer_reply : Incoming → Reply → Sent
  unfolding reply_status reply_handled
  answer_reply p reply =
      respond e.status_name e.to_text e.as_error p.formatted (reply_status reply) p.meta
        p.error_meta (reply_handled e.idempotency_header p.thrown reply)

module _ (e : Surroundings) (store : IdempotencyStore Value) where
  open store use {State}

  abbrev pub stopped : List (String × String) → Incoming → Exception → State → Outcome State
  stopped headers p thrown s = record {
    headers = headers;
    sent = answer_exception e.status_name e.to_text p.error_meta thrown;
    runs = 0;
    store = s;
  }

  unfoldable pub run_interceptors : Incoming → State → Outcome State
  unfolding answer_reply
  run_interceptors p s =
      let done = intercept store p.call s in
      record {
        sent = answer_reply e p done.reply;
        headers = set_headers p.deprecated;
        runs = done.runs;
        store = done.store;
      }

  -- `ZodHttpInterceptor` throws before the inner interceptors run.
  unfoldable pub after_validation : Option Value → Incoming → State → Outcome State
  unfolding run_interceptors
  after_validation (some response) p s =
      stopped (set_headers p.deprecated) p (http_exception 400 response) s
  after_validation none p s = run_interceptors p s

  unfoldable pub after_guards : Passage → Incoming → State → Outcome State
  unfolding after_validation refusal_exception
  after_guards (refused r) p s = stopped [] p (refusal_exception e.framework_response r) s
  after_guards (passed user) p s = after_validation (invalid_input p) p s

  abbrev pub passage : Incoming → Passage
  passage p = run_guards e.url_origin e.bearer e.verify e.csrf p.guarded p.throttled p.request

  unfoldable pub handle_request : Incoming → State → Outcome State
  unfolding after_guards
  handle_request p s = after_guards (passage p) p s

  -- Requests one after the other: what is sent, how often a handler ran, and the store.
  unfoldable pub handle_all : List Incoming → State → List Sent × ℕ × State
  unfolding handle_request
  handle_all [] s = ([], 0, s)
  handle_all (p ∷ ps) s =
      let done = handle_request p s in
      let (sents, runs, s') = handle_all ps done.store in (done.sent ∷ sents, done.runs + runs, s')
