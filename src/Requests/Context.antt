-- ===== src/Requests/Context.antt =====
-- src/interface/http/middleware/request-context.middleware.ts, over code points. `uuid` is what
-- `randomUUID` returns, `trace` and `span` what `newTraceId` and `newSpanId` return.
pub mod Agreed
use nestjs_ddd.Prelude.{
  ℕ, Bool, true, false, ◌&&◌, Option, none, some, List, [], ◌∷◌, if◌then◌else◌,
}
use nestjs_ddd.Shared.Correlation.{matches_safe}
use nestjs_ddd.Shared.Trace.{TraceContext, trace_context_from, format_traceparent}

-- A header as express keeps it.
pub data Header : Type 0 where
  absent : Header
  single : List ℕ → Header
  several : List (List ℕ) → Header

pub record Incoming : Type 0 where
  -- `req.id`, if it is a text.
  pub id : Option (List ℕ)
  pub id_header : Header
  pub traceparent : Option (List ℕ)

-- What the middleware leaves: in the request, in the response, and in the context of the handler.
pub record Opened : Type 0 where
  pub request_header : List ℕ
  pub request_id : List ℕ
  pub response_header : List ℕ
  pub response_traceparent : List ℕ
  pub context_request_id : List ℕ
  pub context_trace : TraceContext

-- `Array.isArray(header) ? header[0] : header`
abbrev pub candidate : Header → Option (List ℕ)
candidate absent = none
candidate (single s) = some s
candidate (several []) = none
candidate (several (s ∷ others)) = some s

-- The text if it is a correlation id that may be logged, otherwise `next`.
abbrev pub safe_or : Option (List ℕ) → List ℕ → List ℕ
safe_or none next = next
safe_or (some s) next = if matches_safe s then s else next

module _ (uuid trace span : List ℕ) where
  -- `requestIdFor`
  unfoldable pub request_id_for : Incoming → List ℕ
  request_id_for r = safe_or r.id (safe_or (candidate r.id_header) uuid)

  -- `use`
  unfoldable pub open_context : Incoming → Opened
  unfolding request_id_for
  open_context r =
      let id = request_id_for r in
      let context = trace_context_from trace span r.traceparent in
      record {
        request_header = id;
        request_id = id;
        response_header = id;
        response_traceparent = format_traceparent context;
        context_request_id = id;
        context_trace = context;
      }
