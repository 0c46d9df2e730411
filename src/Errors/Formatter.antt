-- ===== src/Errors/Formatter.antt =====
-- src/interface/http/common/interceptors/response-formatter.interceptor.ts, and what the client reads of
-- what src/interface/http/global-exception.filter.ts answers. `as_error` is the `Error` that an object
-- is an instance of, if it has one that `isPresentableError` accepts; the status of an answer that
-- is not an error is the framework's.
pub mod Envelope
pub mod Success
mod Tests
use nestjs_ddd.Prelude.{ℕ, Bool, true, false, ◌||◌, Option, none, some, String, if◌then◌else◌}
use nestjs_ddd.Shared.Values.{
  Value, undefined, null, boolean, string, object, Members, no_members, member, get, put, spread,
  members_of, is_envelope, is_record, is_result_like, not_ok,
}
use nestjs_ddd.Errors.Presenter.{ThrownValue}
use nestjs_ddd.Errors.Filter.{
  Exception, http_exception, other, ErrorBody, kept_envelope, failure, Answer, coalesce,
  catch_exception,
}

-- An `Error` with `toProblem`: its members `expose`, `status`, `message` and `type`, and what
-- the presenter asks of it.
pub record PresentableError : Type 0 where
  pub expose : Bool
  pub status : Option ℕ
  pub message : Value
  pub type : Value
  pub thrown : ThrownValue

abbrev pub as_exception : PresentableError → Exception
as_exception e = other e.expose e.status e.message e.type e.thrown

-- What a handler gives: it throws, or it returns a `Buffer`, a `StreamableFile` or a `Readable`, or
-- another value.
pub data Handled : Type 0 where
  raised : Exception → Handled
  streamed : Handled
  returned : Value → Handled

-- What the interceptor looks at before the handler runs.
pub record Route : Type 0 where
  pub skip_header : Bool
  pub raw_response : Bool
  pub headers_sent : Bool

-- `Meta`
unfoldable pub meta_of : (timestamp path : String) → (request_id : Option String) → Members
meta_of timestamp path request_id = member "timestamp" (string timestamp) (
    member "path" (string path)
      (member "requestId" (elim request_id [ none ↦ null | some id ↦ string id ]) no_members))

-- `{ ...body, meta: { ...meta, ...body.meta } }`
unfoldable pub with_meta : Members → Members → Value
unfolding put spread
with_meta meta fs = object (put "meta" (object (spread meta (members_of (get "meta" fs)))) fs)

-- `{ success: true, data, meta }`
unfoldable pub success_body : Members → Value → Value
success_body meta payload = object (
    member "success" (boolean true)
      (member "data" payload (member "meta" (object meta) no_members)))

-- `code` of the `UnprocessableEntityException`.
unfoldable pub error_code : Value → Value
error_code (string s) = string s
error_code v = get "code" (members_of v)

-- The response of the `UnprocessableEntityException`.
unfoldable pub failed_operation : Value → Value
unfolding error_code
failed_operation error = object (
    member "message" (coalesce (get "message" (members_of error)) (string "Operation failed")) (
      member "code" (error_code error)
        (member "details" (get "details" (members_of error)) no_members)))

-- What is thrown for the error of a failed `Result`.
unfoldable pub failed_result : Option PresentableError → Value → Exception
unfolding failed_operation
failed_result (some e) error = as_exception e
failed_result none error = http_exception 422 (failed_operation error)

module _ (as_error : Value → Option PresentableError) where
  -- The function that `map` runs on the body.
  unfoldable pub format_body : Members → Value → Handled
  unfolding is_envelope is_result_like with_meta success_body failed_result
  format_body meta body =
      if is_envelope body
      then returned (with_meta meta (members_of body))
      else if is_result_like body
      then (if not_ok (get "ok" (members_of body))
          then (let error = get "error" (members_of body) in
              raised (failed_result (as_error error) error))
          else returned (success_body meta (get "value" (members_of body))))
      else returned (success_body meta body)

  -- `map` leaves an error of the handler and a stream alone.
  unfoldable pub format_handled : Members → Handled → Handled
  unfolding format_body
  format_handled meta (returned body) = format_body meta body
  format_handled meta h = h

  -- `intercept`
  unfoldable pub format_response : Route → Members → Handled → Handled
  unfolding format_handled
  format_response route meta handled =
      if route.skip_header || route.raw_response || route.headers_sent
      then handled
      else format_handled meta handled

-- A member that is undefined is not in the JSON text.
unfoldable pub written : String → Value → Members → Members
written k undefined fs = fs
written k v fs = member k v fs

-- The body that the filter gives to `json`.
unfoldable pub error_json : Members → ErrorBody → Value
unfolding with_meta written
error_json meta (kept_envelope body) = with_meta meta (members_of body)
error_json meta (failure message code details type) = object (
    member "success" (boolean false) (
      member "error"
        (object (
          written "message" message
            (written "code" code (written "details" details (written "type" type no_members)))))
        (member "meta" (object meta) no_members)))

-- `requestId` of the filter: `req.id`, the header, or a constant, each only if it is a string.
unfoldable pub filter_request_id : Value → Value → String
filter_request_id (string id) header = id
filter_request_id id (string header) = header
filter_request_id id header = "no-id"

-- What the client is sent.
pub data Sent : Type 0 where
  stream : Sent
  json : (status : ℕ) → Value → Sent

module _ (status_name : ℕ → Option String) (to_text : Value → String) where
  -- The filter's part: `res.status(status).json(body)`.
  unfoldable pub answer_exception : Members → Exception → Sent
  unfolding error_json
  answer_exception meta thrown =
      let a = catch_exception status_name to_text thrown in json a.status (error_json meta a.body)

  unfoldable pub send : (status : ℕ) → Members → Handled → Sent
  unfolding answer_exception
  send status meta (raised thrown) = answer_exception meta thrown
  send status meta streamed = stream
  send status meta (returned body) = json status body

  -- A request through the interceptor and the filter: what the handler threw and what the
  -- interceptor throws reach the same filter.
  unfoldable pub respond :
      (as_error : Value → Option PresentableError)
      → Route
      → (status : ℕ) → (meta error_meta : Members) → Handled
      → Sent
  unfolding format_response send
  respond as_error route status meta error_meta handled =
      send status error_meta (format_response as_error route meta handled)
