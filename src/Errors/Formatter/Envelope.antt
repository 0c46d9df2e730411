-- ===== src/Errors/Formatter/Envelope.antt =====
-- The shape of what a client is sent (response-formatter.interceptor.ts with global-exception.filter.ts).
use nestjs_ddd.Prelude.{ℕ, ◌≡◌, refl, Bool, true, false, ◌||◌, Option, String, arith}
use nestjs_ddd.Shared.Values.{
  Value, object, Members, get, members_of, is_envelope, get-put, has_key-put, spread,
}
use nestjs_ddd.Errors.Filter.{
  Exception, http_exception, other, catch_exception, ErrorBody, kept_envelope, failure,
}
use nestjs_ddd.Errors.Formatter.{
  PresentableError, Handled, raised, streamed, returned, Route, with_meta, success_body,
  format_body, format_handled, format_response, Sent, stream, json, respond, error_json,
  answer_exception, send,
}

abbrev pub is_enveloped : Sent → Bool
is_enveloped stream = false
is_enveloped (json status body) = is_envelope body

pub with_meta-is_envelope :
    (meta fs : Members) → is_envelope (object fs) ≡ true → is_envelope (with_meta meta fs) ≡ true
unfolding is_envelope with_meta
with_meta-is_envelope meta fs h =
    let w = object (spread meta (members_of (get "meta" fs))) in
    ground (
      arith,
      get-put "meta" "meta" w fs,
      get-put "meta" "success" w fs,
      has_key-put "meta" "meta" w fs,
      has_key-put "meta" "success" w fs,
    )

-- What the filter keeps as it is was an envelope.
abbrev keeps_envelope : ErrorBody → Bool
keeps_envelope (kept_envelope v) = is_envelope v
keeps_envelope _ = true

error_json-is_envelope :
    (meta : Members) (body : ErrorBody)
    → keeps_envelope body ≡ true
    → is_envelope (error_json meta body) ≡ true
unfolding error_json
error_json-is_envelope meta (kept_envelope (object fs)) h = with_meta-is_envelope meta fs h
error_json-is_envelope meta (kept_envelope v) h = unfold is_envelope in ground arith
error_json-is_envelope meta (failure m c d t) h = unfold is_envelope in refl

catch_exception-keeps_envelope :
    (status_name : ℕ → Option String) (to_text : Value → String) (e : Exception)
    → keeps_envelope (catch_exception status_name to_text e).body ≡ true
unfolding catch_exception
catch_exception-keeps_envelope status_name to_text (http_exception status response) = ground arith
catch_exception-keeps_envelope status_name to_text (other expose status message type thrown) =
    ground arith

-- What the interceptor passes on is an envelope, unless it is a stream.
abbrev passes_envelope : Handled → Bool
passes_envelope (returned v) = is_envelope v
passes_envelope streamed = false
passes_envelope (raised e) = true

success_body-is_envelope :
    (meta : Members) (payload : Value) → is_envelope (success_body meta payload) ≡ true
unfolding is_envelope success_body
success_body-is_envelope meta payload = refl

envelope-members :
    (meta : Members) (v : Value)
    → is_envelope v ≡ true
    → is_envelope (with_meta meta (members_of v)) ≡ true
envelope-members meta (object fs) h = with_meta-is_envelope meta fs h
envelope-members meta v h = unfold is_envelope in ground arith

format_body-is_envelope :
    (as_error : Value → Option PresentableError) (meta : Members) (v : Value)
    → passes_envelope (format_body as_error meta v) ≡ true
unfolding format_body
format_body-is_envelope as_error meta v = ground (
  arith,
  envelope-members meta v,
  success_body-is_envelope meta v,
  success_body-is_envelope meta (get "value" (members_of v)),
)

send-is_enveloped :
    (status_name : ℕ → Option String) (to_text : Value → String) (status : ℕ) (meta : Members)
    (h : Handled)
    → passes_envelope h ≡ true
    → is_enveloped (send status_name to_text status meta h) ≡ true
unfolding send answer_exception
send-is_enveloped status_name to_text status meta (raised e) h =
    error_json-is_envelope meta (catch_exception status_name to_text e).body
      (catch_exception-keeps_envelope status_name to_text e)
send-is_enveloped status_name to_text status meta streamed h = absurd (ground arith)
send-is_enveloped status_name to_text status meta (returned v) h = h

abbrev pub is_streamed : Handled → Bool
is_streamed streamed = true
is_streamed _ = false

-- On a route that the interceptor formats, whatever the handler returns or throws, except a stream,
-- reaches the client as an envelope: with a Boolean `success` and a record `meta`.
pub respond-is_enveloped :
    (status_name : ℕ → Option String) (to_text : Value → String)
    (as_error : Value → Option PresentableError) (route : Route) (status : ℕ)
    (meta error_meta : Members) (h : Handled)
    → route.skip_header || route.raw_response || route.headers_sent ≡ false
    → is_streamed h ≡ false
    → is_enveloped (respond status_name to_text as_error route status meta error_meta h) ≡ true
unfolding respond format_response format_handled
respond-is_enveloped status_name to_text as_error route status meta error_meta (raised e) formatted
      h =
    rw formatted (send-is_enveloped status_name to_text status error_meta (raised e) refl)
respond-is_enveloped status_name to_text as_error route status meta error_meta streamed formatted
      h =
    absurd (ground arith)
respond-is_enveloped status_name to_text as_error route status meta error_meta (returned v)
      formatted h =
    rw formatted (
      send-is_enveloped status_name to_text status error_meta (format_body as_error meta v)
        (format_body-is_envelope as_error meta v))
