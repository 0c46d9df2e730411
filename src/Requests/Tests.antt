-- ===== src/Requests/Tests.antt =====
-- The theorems on guards and contexts at concrete requests.
use nestjs_ddd.Prelude.{
  ℕ, ◌≡◌, ◌≤◌, refl, true, false, not, ◌&&◌, ◌||◌, Option, none, some, String, List, [], ◌∷◌, ◌++◌,
  length, All, is_some, str_eq, if◌then◌else◌,
}
use nestjs_ddd.Shared.Correlation.{codes, matches_safe, IsPlain}
use nestjs_ddd.Shared.Trace.{
  parse_traceparent, format_traceparent, trace_context_from, check_groups, exec_traceparent,
  cleaned,
}
use nestjs_ddd.Requests.Context.{Incoming, single, Opened, open_context}
use nestjs_ddd.Requests.Context.Agreed.{open_context-agrees}
use nestjs_ddd.Requests.Guards.{
  JwtPayload, Request, CsrfConfig, Route, passed, csrf_guard, run_guards,
}
use nestjs_ddd.Requests.Guards.Passed.{user_at, is_entitled, Reached, run_guards-Reached}

abbrev no_origin : String → Option String
no_origin url = none

-- One token is valid.
abbrev verify : String → Option JwtPayload
verify token =
    if str_eq token "t1"
    then some (record { username = "ann"; roles = some ("editor" ∷ []) })
    else none

abbrev config : CsrfConfig
config = record { enabled = true; trusted_origins = "https://app.example" ∷ [] }

abbrev route : Route
route = record { is_public = false; roles = some ("editor" ∷ []) }

-- A form that another site posts with the cookie of the user.
abbrev forged : Request
forged = record {
  method = "POST";
  auth_cookie = some "t1";
  authorization = none;
  fetch_site = some "cross-site";
  origin = some "https://evil.example";
  referer = none;
  protocol = "https";
  host = some "api.example";
}

abbrev genuine : Request
genuine = record forged { origin = some "https://app.example" }

ann : user_at no_origin verify route genuine ≡ verify "t1"
unfolding run_guards
ann = refl

run_guards-Reached_example :
    Reached (run_guards no_origin no_origin verify config route false genuine) (verify "t1") (
      not false
      && csrf_guard no_origin config genuine
      && (false || is_some (verify "t1"))
      && is_entitled (some ("editor" ∷ [])) (verify "t1"))
run_guards-Reached_example =
    run_guards-Reached no_origin no_origin verify config route false genuine (verify "t1") ann

genuine_passes :
    run_guards no_origin no_origin verify config route false genuine ≡ passed (verify "t1")
unfolding run_guards
genuine_passes = refl

abbrev eight : List ℕ → List ℕ
eight rest = codes "01234567" ++ rest

-- An id with a line break, and a broken trace.
abbrev incoming : Incoming
incoming = record {
  id = some (codes "a" ++ 10 ∷ codes "forged line");
  id_header = single (codes "req-7");
  traceparent = some (codes "00-zz");
}

abbrev new_trace : List ℕ
new_trace = eight (eight (eight (eight [])))

abbrev new_span : List ℕ
new_span = eight (eight [])

abbrev opened : Opened
opened = record {
  request_header = codes "req-7";
  request_id = codes "req-7";
  response_header = codes "req-7";
  response_traceparent = codes "00-01234567012345670123456701234567-0123456701234567-01";
  context_request_id = codes "req-7";
  context_trace = record { trace_id = new_trace; span_id = new_span; sampled = true };
}

opens : open_context (codes "uuid") new_trace new_span incoming ≡ opened
unfolding open_context matches_safe format_traceparent trace_context_from parse_traceparent
    check_groups exec_traceparent cleaned
opens = refl

safe_uuid : matches_safe (codes "uuid") ≡ true
unfolding matches_safe
safe_uuid = refl

open_context-agrees_example :
    (codes "req-7" ≡ codes "req-7")
    × (codes "req-7" ≡ codes "req-7")
    × (codes "req-7" ≡ codes "req-7")
    × ((1 ≤ length (codes "req-7")) × (length (codes "req-7") ≤ 128) × All IsPlain (codes "req-7"))
    × (parse_traceparent (some opened.response_traceparent) ≡ some opened.context_trace)
open_context-agrees_example =
    open_context-agrees (codes "uuid") new_trace new_span incoming opened safe_uuid refl refl opens
