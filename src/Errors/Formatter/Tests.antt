-- ===== src/Errors/Formatter/Tests.antt =====
-- The theorems on what a client is sent, at a failed Result and at a plain value.
use nestjs_ddd.Prelude.{
  ℕ, ◌≡◌, refl, true, false, not, ◌&&◌, Option, none, some, String, leb, ◌==◌, if◌then◌else◌,
}
use nestjs_ddd.Shared.Values.{
  Value, boolean, string, object, Members, no_members, member, is_envelope, is_err_result,
}
use nestjs_ddd.Errors.Filter.{catch_exception}
use nestjs_ddd.Errors.Formatter.{PresentableError, returned, Route, meta_of, Sent, json, respond}
use nestjs_ddd.Errors.Formatter.Envelope.{is_enveloped, respond-is_enveloped}
use nestjs_ddd.Errors.Formatter.Success.{succeeded, sent_status, reports_failure, respond-succeeded}

abbrev no_names : ℕ → Option String
no_names status = none

abbrev no_text : Value → String
no_text v = ""

abbrev no_errors : Value → Option PresentableError
no_errors v = none

abbrev plain_route : Route
plain_route = record { skip_header = false; raw_response = false; headers_sent = false }

abbrev meta : Members
meta = meta_of "2026-01-01T00:00:00.000Z" "/orders" (some "r1")

-- `Result.err('out_of_stock')`
abbrev sold_out : Value
sold_out = object (member "ok" (boolean false) (member "error" (string "out_of_stock") no_members))

-- The answer of a handler that returns it.
abbrev refused : Sent
refused = json 422 (
    object (
      member "success" (boolean false) (
        member "error"
          (object (
            member "message" (string "Operation failed")
              (member "code" (string "out_of_stock") no_members)))
          (member "meta" (object meta) no_members))))

answered :
    respond no_names no_text no_errors plain_route 201 meta meta (returned sold_out) ≡ refused
unfolding respond catch_exception
answered = refl

respond-is_enveloped_example :
    is_enveloped (respond no_names no_text no_errors plain_route 201 meta meta (returned sold_out))
    ≡ true
respond-is_enveloped_example =
    respond-is_enveloped no_names no_text no_errors plain_route 201 meta meta (returned sold_out)
      refl refl

respond-succeeded_example :
    (succeeded refused ≡ not (reports_failure sold_out))
    × ((if is_err_result sold_out && not (is_envelope sold_out)
          then leb 400 (sent_status refused)
          else sent_status refused == 201)
        ≡ true)
respond-succeeded_example =
    respond-succeeded no_names no_text no_errors plain_route 201 meta meta sold_out refused refl
      answered
