-- ===== src/Http/Client/Headers.antt =====
-- `buildHeaders` and `buildBody` of src/infrastructure/http/fetch-http.client.ts.
use nestjs_ddd.Prelude.{
  ◌≡◌, inl, inr, refl, Bool, true, false, not, ◌&&◌, Option, none, some, String, [], ◌∷◌, Map,
  lookup, insert, lookup-insert, is_some, or_else, str_eq, eq_iff, if◌then◌else◌, arith,
  Option-cases,
}
use nestjs_ddd.Http.Retry.{HttpMethod, get, head}
use nestjs_ddd.Http.Client.Events.{HttpClientConfig, HttpRequest}

-- The request context of the incoming request (src/application/ports/request-context.port.ts).
pub record RequestContext : Type 0 where
  pub request_id : Option String
  pub trace_id : Option String
  pub sampled : Option Bool

-- `NO_BODY_METHODS.has(method)`
abbrev pub no_body_method : HttpMethod → Bool
no_body_method get = true
no_body_method head = true
no_body_method _ = false

-- `headers[k] ??= v`
abbrev pub set_default : String → String → Map String → Map String
set_default k v m = elim (lookup k m) [ none ↦ insert k v m | some w ↦ m ]

-- `{ ...kept, ...given }`
unfoldable pub spread : Map String → Map String → Map String
spread kept [] = kept
spread kept ((k, v) ∷ given) = spread (insert k v kept) given

-- A text that a test such as `if (context?.traceId)` lets through.
abbrev pub truthy : Option String → Option String
truthy none = none
truthy (some s) = if str_eq s "" then none else some s

-- `traceparent` builds the header of a trace id and a sampling flag, with a new span id in it.
module _ (traceparent : String → Bool → String) (config : HttpClientConfig) where
  default_headers : Map String
  default_headers = ("accept", "application/json") ∷ ("user-agent", config.user_agent) ∷ []

  with_content_type : HttpRequest → Map String → Map String
  with_content_type r m =
      if is_some r.body && not (no_body_method r.method)
      then set_default "content-type" "application/json" m
      else m

  with_request_id : Option RequestContext → Map String → Map String
  with_request_id none m = m
  with_request_id (some c) m = elim (truthy c.request_id) [
    | none ↦ m
    | some id ↦ set_default config.request_id_header id m
  ]

  with_traceparent : Option RequestContext → Map String → Map String
  with_traceparent none m = m
  with_traceparent (some c) m = elim (truthy c.trace_id) [
    | none ↦ m
    | some t ↦ set_default "traceparent" (traceparent t (or_else c.sampled true)) m
  ]

  unfoldable pub build_headers : Option RequestContext → HttpRequest → Map String
  unfolding default_headers with_content_type with_request_id with_traceparent
  build_headers context r =
      with_traceparent context
        (with_request_id context (with_content_type r (spread default_headers r.headers)))

unfoldable pub build_body : HttpRequest → Option String
build_body r = if no_body_method r.method then none else r.body

lookup-set_default :
    (k j v : String) (m : Map String) {w : String}
    → lookup j m ≡ some w
    → lookup j (set_default k v m) ≡ some w
lookup-set_default k j v m e = ground (arith, lookup-insert k j v m, eq_iff k j)

lookup-set_default_self :
    (k v : String) (m : Map String) → lookup k m ≡ none → lookup k (set_default k v m) ≡ some v
lookup-set_default_self k v m e = ground (arith, lookup-insert k k v m, eq_iff k k)

-- The keys of an object are different from each other.
abbrev pub UniqueKeys : Map String → Type 0
UniqueKeys [] = Unit
UniqueKeys ((k, v) ∷ m) = (lookup k m ≡ none) × UniqueKeys m

lookup-spread_kept :
    (k : String) (kept given : Map String)
    → lookup k given ≡ none
    → lookup k (spread kept given) ≡ lookup k kept
unfolding spread lookup
lookup-spread_kept k kept [] e = refl
lookup-spread_kept k kept ((j, w) ∷ given) e =
    ground
      (arith, eq_iff j k, lookup-insert j k w kept, lookup-spread_kept k (insert j w kept) given)

lookup-spread_given :
    (k v : String) (kept given : Map String)
    → UniqueKeys given
    → lookup k given ≡ some v
    → lookup k (spread kept given) ≡ some v
unfolding spread lookup
lookup-spread_given k v kept [] u e = cc
lookup-spread_given k v kept ((j, w) ∷ given) (fresh, u) e = ground (
  arith,
  eq_iff j k,
  lookup-insert j k w kept,
  lookup-spread_kept k (insert j w kept) given,
  lookup-spread_given k v (insert j w kept) given u,
)

module _ (traceparent : String → Bool → String) (config : HttpClientConfig) where
  with_content_type_keeps :
      (r : HttpRequest) (k v : String) (m : Map String)
      → lookup k m ≡ some v
      → lookup k (with_content_type traceparent config r m) ≡ some v
  unfolding with_content_type
  with_content_type_keeps r k v m e =
      ground (arith, lookup-set_default "content-type" k "application/json" m e)

  with_request_id_keeps :
      (context : Option RequestContext) (k v : String) (m : Map String)
      → lookup k m ≡ some v
      → lookup k (with_request_id traceparent config context m) ≡ some v
  unfolding with_request_id
  with_request_id_keeps none k v m e = e
  with_request_id_keeps (some c) k v m e = elim (Option-cases (truthy c.request_id)) [
    | inl out ↦ ground arith
    | inr (id, some_id) ↦ ground (arith, lookup-set_default config.request_id_header k id m e)
  ]

  with_traceparent_keeps :
      (context : Option RequestContext) (k v : String) (m : Map String)
      → lookup k m ≡ some v
      → lookup k (with_traceparent traceparent config context m) ≡ some v
  unfolding with_traceparent
  with_traceparent_keeps none k v m e = e
  with_traceparent_keeps (some c) k v m e = elim (Option-cases (truthy c.trace_id)) [
    | inl out ↦ ground arith
    | inr (t, some_trace) ↦
        ground
          (arith, lookup-set_default "traceparent" k (traceparent t (or_else c.sampled true)) m e)
  ]

  -- A header that the caller gives is sent with the caller's value, whatever the defaults, the
  -- request id and the trace of the context are.
  pub build_headers-given :
      (context : Option RequestContext) (r : HttpRequest) (k v : String)
      → UniqueKeys r.headers
      → lookup k r.headers ≡ some v
      → lookup k (build_headers traceparent config context r) ≡ some v
  unfolding build_headers
  build_headers-given context r k v u e = with_traceparent_keeps context k v _ (
      with_request_id_keeps context k v _
        (with_content_type_keeps r k v _ (lookup-spread_given k v _ r.headers u e)))
