-- ===== src/Requests/Validation.antt =====
-- The validation of a request's input: src/interface/http/interceptors/zod-http.interceptor.ts with
-- src/interface/http/common/format-zod-error.util.ts. A schema is what zod's `safeParse` answers.
pub mod Steps
pub mod Stored
use nestjs_ddd.Prelude.{
  ◌≡◌, Bool, true, false, Option, none, some, String, List, [], ◌∷◌, str_eq, str_append,
  if◌then◌else◌,
}
use nestjs_ddd.Shared.Values.{
  Value, string, array, object, Members, no_members, member, Elements, no_elements, element, put,
}

-- `ZodIssue`
pub record Issue : Type 0 where
  pub path : List String
  pub message : String

pub data Parsed : Type 0 where
  success : Value → Parsed
  failure : List Issue → Parsed

pub data Part : Type 0 where
  body query params headers : Part

abbrev pub part_name : Part → String
part_name body = "body"
part_name query = "query"
part_name params = "params"
part_name headers = "headers"

pub record ZodHttpSchema : Type 0 where
  pub body : Option (Value → Parsed)
  pub query : Option (Value → Parsed)
  pub params : Option (Value → Parsed)
  pub headers : Option (Value → Parsed)

-- The parts of a request that are validated, and `req.validated`.
pub record Inputs : Type 0 where
  pub body : Value
  pub query : Value
  pub params : Value
  pub headers : Value
  pub validated : Members

-- `req[part]`
abbrev pub input : Part → Inputs → Value
input body r = r.body
input query r = r.query
input params r = r.params
input headers r = r.headers

unfoldable pub store : Part → Value → Inputs → Inputs
store body v r = record r { body = v; validated = put "body" v r.validated }
store query v r = record r { validated = put "query" v r.validated }
store params v r = record r { params = v; validated = put "params" v r.validated }
store headers v r = record r { validated = put "headers" v r.validated }

-- `path.filter(Boolean).join('.')`
unfoldable pub after_dot : List String → String
after_dot [] = ""
after_dot (s ∷ ss) =
    let rest = after_dot ss in if str_eq s "" then rest else str_append "." (str_append s rest)

unfoldable pub dotted : List String → String
unfolding after_dot
dotted [] = ""
dotted (s ∷ ss) = let rest = dotted ss in if str_eq s "" then rest else str_append s (after_dot ss)

unfoldable pub detail_of : Part → Issue → String
unfolding dotted
detail_of part i =
    let path = dotted (part_name part ∷ i.path) in
    if str_eq path "" then i.message else str_append path (str_append ": " i.message)

unfoldable pub details_of : Part → List Issue → Elements
unfolding detail_of
details_of part [] = no_elements
details_of part (i ∷ is) = element (string (detail_of part i)) (details_of part is)

unfoldable pub format_zod_error : Part → List Issue → Value
unfolding details_of
format_zod_error part issues = object (
    member "message" (string "Validation failed")
      (member "details" (array (details_of part issues)) no_members))

-- `validate`: the response of the exception that it throws, if any, and the request.
unfoldable pub settle_part : Part → Parsed → Inputs → Option Value × Inputs
unfolding store format_zod_error
settle_part part (success v) r = (none, store part v r)
settle_part part (failure issues) r = (some (format_zod_error part issues), r)

unfoldable pub validate : Part → Option (Value → Parsed) → Inputs → Option Value × Inputs
unfolding settle_part
validate part none r = (none, r)
validate part (some zod) r = settle_part part (zod (input part r)) r

-- `Promise.all`: each part is validated, and the first exception is the one that is thrown.
abbrev pub first_failure : Option Value → Option Value → Option Value
first_failure (some v) other = some v
first_failure none other = other

unfoldable pub validate_parts : ZodHttpSchema → Inputs → Option Value × Inputs
unfolding validate
validate_parts schema r =
    let (failed_body, r1) = validate body schema.body r in
    let (failed_query, r2) = validate query schema.query r1 in
    let (failed_params, r3) = validate params schema.params r2 in
    let (failed_headers, r4) = validate headers schema.headers r3 in
    (
      first_failure failed_body
          (first_failure failed_query (first_failure failed_params failed_headers)),
      r4,
    )

-- A route without a schema is not validated.
unfoldable pub zod_http : Option ZodHttpSchema → Inputs → Option Value × Inputs
unfolding validate_parts
zod_http none r = (none, r)
zod_http (some schema) r = validate_parts schema r
