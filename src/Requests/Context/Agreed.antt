-- ===== src/Requests/Context/Agreed.antt =====
-- One correlation id and one trace for a request (request-context.middleware.ts).
use nestjs_ddd.Prelude.{ℕ, ◌≡◌, ◌≤◌, refl, true, Option, none, some, List, length, All, arith}
use nestjs_ddd.Shared.Correlation.{matches_safe, matches_safe_bounds, IsPlain}
use nestjs_ddd.Shared.Trace.{parse_traceparent, trace_context_from}
use nestjs_ddd.Shared.Trace.Roundtrip.{is_id, parse_traceparent-format}
use nestjs_ddd.Shared.Trace.Parsed.{trace_context_from-is_id}
use nestjs_ddd.Requests.Context.{Incoming, Opened, candidate, safe_or, request_id_for, open_context}

safe_or-matches_safe :
    (s : Option (List ℕ)) (next : List ℕ)
    → matches_safe next ≡ true
    → matches_safe (safe_or s next) ≡ true
safe_or-matches_safe none next h = h
safe_or-matches_safe (some s) next h = ground arith

-- Whatever the client sends, the request, the response and the context of the handler carry the same
-- correlation id, of 1 to 128 printable characters that are safe in a log line; and the `traceparent` of
-- the response is read back as the trace of the context, if the new ids are of the required form.
pub open_context-agrees :
    (uuid trace span : List ℕ) (r : Incoming) (o : Opened)
    → matches_safe uuid ≡ true
    → is_id 32 trace ≡ true
    → is_id 16 span ≡ true
    → open_context uuid trace span r ≡ o
    → (o.request_header ≡ o.context_request_id)
      × (o.request_id ≡ o.context_request_id)
      × (o.response_header ≡ o.context_request_id)
      × ((1 ≤ length o.context_request_id)
          × (length o.context_request_id ≤ 128)
          × All IsPlain o.context_request_id)
      × (parse_traceparent (some o.response_traceparent) ≡ some o.context_trace)
unfolding open_context
open_context-agrees uuid trace span r o u t s e =
    let safe = safe_or-matches_safe r.id _ (safe_or-matches_safe (candidate r.id_header) uuid u) in
    let ids = trace_context_from-is_id trace span r.traceparent t s in
    rw (← e) (
      refl,
      refl,
      refl,
      matches_safe_bounds (request_id_for uuid trace span r) safe,
      parse_traceparent-format (trace_context_from trace span r.traceparent) ids.0 ids.1,
    )
