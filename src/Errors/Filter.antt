-- ===== src/Errors/Filter.antt =====
-- src/interface/http/global-exception.filter.ts. `status_name` is the enumeration `HttpStatus` of the
-- framework, and `to_text` is `String`.
use Prim.Native.String.{◌++◌ as text_append}
use nestjs_ddd.Prelude.{
  ℕ, Bool, true, false, ◌&&◌, Option, none, some, String, List, [], ◌∷◌, leb, ltb, or_else,
  if◌then◌else◌,
}
use nestjs_ddd.Shared.Values.{
  Value, undefined, null, string, array, object, Members, no_members, member, Elements, no_elements,
  element, get, is_envelope, is_string,
}
use nestjs_ddd.Errors.Presenter.{ThrownValue, present}

-- The exceptions: an `HttpException`, an error with the fields of `http-errors`, or another.
pub data Exception : Type 0 where
  http_exception : ℕ → Value → Exception
  other :
      (expose : Bool)
      → (status : Option ℕ) → (message : Value) → (type : Value) → ThrownValue
      → Exception

pub data LogLine : Type 0 where
  log_error log_warn : ℕ → LogLine

pub data ErrorBody : Type 0 where
  kept_envelope : Value → ErrorBody
  failure : (message : Value) → (code : Value) → (details : Value) → (type : Value) → ErrorBody

pub record Answer : Type 0 where
  pub status : ℕ
  pub body : ErrorBody
  pub logged : List LogLine

-- `log`
unfoldable pub log_exception : ℕ → List LogLine
log_exception status =
    if ltb status 400
    then []
    else if leb 500 status
    then log_error status ∷ []
    else log_warn status ∷ []

-- `a ?? b`
abbrev pub coalesce : Value → Value → Value
coalesce undefined b = b
coalesce null b = b
coalesce v b = v

abbrev pub text_or_undefined : Option String → Value
text_or_undefined none = undefined
text_or_undefined (some s) = string s

all_strings : Elements → Bool
all_strings no_elements = true
all_strings (element v vs) = is_string v && all_strings vs

-- `exposed`: the `http-errors` shape, a client error whose message is safe.
unfoldable pub is_exposed : Bool → Option ℕ → Bool
is_exposed expose none = false
is_exposed expose (some status) = expose && leb 400 status && ltb status 500

module _ (status_name : ℕ → Option String) (to_text : Value → String) where
  -- `items.join('; ')`, where `undefined` and `null` read as nothing.
  join_items : Elements → String
  join_items no_elements = ""
  join_items (element v no_elements) = to_text v
  join_items (element v (element w vs)) =
      text_append (to_text v) (text_append "; " (join_items (element w vs)))

  -- `toMessage`
  to_message : Value → Value
  unfolding all_strings join_items
  to_message (string s) = string s
  to_message (array vs) = if all_strings vs then string (join_items vs) else undefined
  to_message v = undefined

  -- `HttpStatus[status] ?? 'Error'`
  abbrev pub status_text : ℕ → Value
  status_text status = string (or_else (status_name status) "Error")

  message_of : Value → Value
  unfolding join_items
  message_of (array vs) = string (join_items vs)
  message_of v = v

  abbrev body_of : Value → Members
  body_of (object ms) = ms
  body_of v = member "message" (to_message v) no_members

  abbrev pub exposed_message : ℕ → Value → Value
  exposed_message status (string s) = string s
  exposed_message status v = status_text status

  abbrev pub only_string : Value → Value
  only_string (string s) = string s
  only_string v = undefined

  -- `catch`
  unfoldable pub catch_exception : Exception → Answer
  unfolding to_message message_of
  catch_exception (http_exception status response) = record {
    status = status;
    body =
        if is_envelope response
        then kept_envelope response
        else failure (coalesce (message_of (get "message" (body_of response))) (status_text status))
            (coalesce (get "code" (body_of response)) undefined) (get "details" (body_of response))
            undefined;
    logged = log_exception status;
  }
  catch_exception (other expose status message type thrown) =
      if is_exposed expose status
      then record {
        status = or_else status 500;
        body =
            failure (exposed_message (or_else status 500) message) (only_string type) undefined
              undefined;
        logged = log_exception (or_else status 500);
      }
      else (let presented = present thrown in
          record {
            status = presented.status;
            body =
                failure
                  (coalesce (text_or_undefined presented.problem.detail)
                    (string presented.problem.title))
                  (text_or_undefined presented.problem.code) presented.problem.errors
                  (string presented.problem.type);
            logged = log_exception presented.status;
          })
