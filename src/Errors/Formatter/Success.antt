-- ===== src/Errors/Formatter/Success.antt =====
-- When a client is told of success (response-formatter.interceptor.ts with global-exception.filter.ts).
use nestjs_ddd.Prelude.{
  ℕ, ◌≡◌, ◌≤◌, refl, Bool, true, false, not, ◌&&◌, ◌||◌, Option, none, some, String, leb, ◌==◌,
  arith, Bool-cases, inl, inr, if◌then◌else◌,
}
use nestjs_ddd.Shared.Values.{
  Value, boolean, object, Members, get, members_of, is_envelope, is_err_result, is_result_like,
  get-put, spread, not_ok,
}
use nestjs_ddd.Errors.Filter.{catch_exception, is_exposed}
use nestjs_ddd.Errors.Formatter.{
  PresentableError, Handled, raised, streamed, returned, Route, with_meta, success_body,
  format_body, format_handled, format_response, Sent, stream, json, respond, error_json,
  answer_exception, meta_of, send, failed_result, failed_operation,
}
use nestjs_ddd.Errors.Safe.{present-status}

abbrev is_true : Value → Bool
is_true (boolean b) = b
is_true _ = false

-- `body.success`
abbrev pub says_success : Value → Bool
says_success v = is_true (get "success" (members_of v))

abbrev pub succeeded : Sent → Bool
succeeded stream = true
succeeded (json status body) = says_success body

abbrev pub sent_status : Sent → ℕ
sent_status stream = 0
sent_status (json status body) = status

-- A returned value that reports a failure: a failed `Result`, or an envelope with `success: false`.
abbrev pub reports_failure : Value → Bool
reports_failure v = if is_envelope v then not (says_success v) else is_err_result v

with_meta-says_success :
    (meta : Members) (v : Value) → says_success (with_meta meta (members_of v)) ≡ says_success v
unfolding with_meta
with_meta-says_success meta v =
    let fs = members_of v in
    let w = object (spread meta (members_of (get "meta" fs))) in
    ground (arith, get-put "meta" "success" w fs)

abbrev pub is_enveloped_already : Handled → Bool
is_enveloped_already (returned v) = is_envelope v
is_enveloped_already _ = false

-- A success that is formatted again keeps its metadata, since both have the same members.
format_body-success_body :
    (as_error : Value → Option PresentableError) (payload : Value)
    (timestamp path timestamp' path' : String) (id id' : Option String)
    → format_body as_error
        (meta_of timestamp' path' id')
        (success_body (meta_of timestamp path id) payload)
      ≡ returned (success_body (meta_of timestamp path id) payload)
unfolding format_body success_body meta_of is_envelope with_meta
format_body-success_body as_error payload timestamp path timestamp' path' id id' = refl

err_result_lem :
    (v : Value) → is_err_result v ≡ is_result_like v && not_ok (get "ok" (members_of v))
unfolding is_err_result is_result_like
err_result_lem (object fs) = refl
err_result_lem v = refl

module _ (status_name : ℕ → Option String) (to_text : Value → String) where
  -- The filter's answer to the error of a failed `Result`.
  failed_result_fails :
      (meta : Members) (presented : Option PresentableError) (error : Value)
      → (succeeded (answer_exception status_name to_text meta (failed_result presented error))
          ≡ false)
        × (400
            ≤ sent_status
                (answer_exception status_name to_text meta (failed_result presented error)))
  unfolding answer_exception failed_result catch_exception error_json is_exposed
  failed_result_fails meta none error = (unfold failed_operation is_envelope in refl, omega arith)
  failed_result_fails meta (some e) error =
      let known = present-status e.thrown in (ground arith, ground arith)

  module _ (as_error : Value → Option PresentableError) (status : ℕ)
      (meta error_meta : Members) where
    abbrev answer : Value → Sent
    answer v = send status_name to_text status error_meta (format_body as_error meta v)

    answer_by :
        (v : Value)
        → (succeeded (answer v) ≡ not (reports_failure v))
          × ((if is_err_result v && not (is_envelope v)
                then leb 400 (sent_status (answer v))
                else sent_status (answer v) == status)
              ≡ true)
    unfolding send format_body
    answer_by v = elim (Bool-cases (is_envelope v)) [
      | inl e ↦ rw (e, with_meta-says_success meta v) (ground arith, ground arith)
      | inr e ↦ elim (Bool-cases (is_result_like v)) [
        | inl r ↦ elim (Bool-cases (not_ok (get "ok" (members_of v)))) [
          | inl o ↦
              rw (e, err_result_lem v, r, o)
                (let error = get "error" (members_of v) in
                  let fails = failed_result_fails error_meta (as_error error) error in
                  (fails.0, unfold answer_exception in ground arith))
          | inr o ↦ rw (e, err_result_lem v, r, o) (refl, ground arith)
        ]
        | inr r ↦ rw (e, err_result_lem v, r) (refl, ground arith)
      ]
    ]

-- On a route that the interceptor formats, a returned value is answered with `success: true` exactly
-- when it reports no failure: an envelope keeps its own `success`, a failed `Result` becomes a
-- failure with a status from 400 on, and anything else is a success. All but failed results are
-- answered with the status of the handler.
pub respond-succeeded :
    (status_name : ℕ → Option String) (to_text : Value → String)
    (as_error : Value → Option PresentableError) (route : Route) (status : ℕ)
    (meta error_meta : Members) (v : Value) (r : Sent)
    → route.skip_header || route.raw_response || route.headers_sent ≡ false
    → respond status_name to_text as_error route status meta error_meta (returned v) ≡ r
    → (succeeded r ≡ not (reports_failure v))
      × ((if is_err_result v && not (is_envelope v)
            then leb 400 (sent_status r)
            else sent_status r == status)
          ≡ true)
unfolding respond format_response format_handled
respond-succeeded status_name to_text as_error route status meta error_meta v r formatted e =
    rw (← e) (rw formatted (answer_by status_name to_text as_error status meta error_meta v))

format_body_twice :
    (as_error : Value → Option PresentableError) (v : Value)
    (timestamp path timestamp' path' : String) (id id' : Option String)
    → is_envelope v ≡ false
    → format_handled as_error
        (meta_of timestamp' path' id')
        (format_body as_error (meta_of timestamp path id) v)
      ≡ format_body as_error (meta_of timestamp path id) v
unfolding format_body format_handled
format_body_twice as_error v timestamp path timestamp' path' id id' h =
    let again = λ (payload : Value).
      format_body-success_body as_error payload timestamp path timestamp' path' id id' in
    elim (Bool-cases (is_result_like v)) [
      | inl r ↦ elim (Bool-cases (not_ok (get "ok" (members_of v)))) [
        | inl o ↦ rw (h, r, o) refl
        | inr o ↦ rw (h, r, o) (again (get "value" (members_of v)))
      ]
      | inr r ↦ rw (h, r) (again v)
    ]

handled_twice :
    (as_error : Value → Option PresentableError) (h : Handled)
    (timestamp path timestamp' path' : String) (id id' : Option String)
    → is_enveloped_already h ≡ false
    → format_handled as_error
        (meta_of timestamp' path' id')
        (format_handled as_error (meta_of timestamp path id) h)
      ≡ format_handled as_error (meta_of timestamp path id) h
unfolding format_handled
handled_twice as_error (raised e) timestamp path timestamp' path' id id' h = refl
handled_twice as_error streamed timestamp path timestamp' path' id id' h = refl
handled_twice as_error (returned v) timestamp path timestamp' path' id id' h =
    format_body_twice as_error v timestamp path timestamp' path' id id' h

-- An answer that the interceptor made is not wrapped again: a second interceptor, at another time,
-- leaves it as it is, whatever the handler gave, unless that was an envelope already.
pub format_twice :
    (as_error : Value → Option PresentableError) (route : Route) (h : Handled)
    (timestamp path timestamp' path' : String) (id id' : Option String)
    → is_enveloped_already h ≡ false
    → format_response as_error route
        (meta_of timestamp' path' id')
        (format_response as_error route (meta_of timestamp path id) h)
      ≡ format_response as_error route (meta_of timestamp path id) h
unfolding format_response
format_twice as_error route h timestamp path timestamp' path' id id' plain =
    elim (Bool-cases (route.skip_header || route.raw_response || route.headers_sent)) [
      | inl skipped ↦ rw skipped refl
      | inr formatted ↦
          rw formatted (handled_twice as_error h timestamp path timestamp' path' id id' plain)
    ]
