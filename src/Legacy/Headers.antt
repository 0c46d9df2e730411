-- ===== src/Legacy/Headers.antt =====
-- src/infrastructure/legacy/forward-headers.util.ts. `lower` is `toLowerCase`.
pub mod Passed
use Prim.Native.String.{◌++◌ as text_append}
use nestjs_ddd.Prelude.{
  ℕ, Bool, true, false, ◌||◌, Option, none, some, String, List, [], ◌∷◌, any, str_eq, or_else, Map,
  lookup, insert, if◌then◌else◌,
}
use nestjs_ddd.Idempotency.Interceptor.{HeaderValue, absent, single, multiple}

abbrev pub hop_by_hop_headers : List String
hop_by_hop_headers =
    "connection" ∷ "keep-alive" ∷ "transfer-encoding" ∷ "upgrade" ∷ "proxy-authenticate"
    ∷ "proxy-authorization" ∷ "te" ∷ "trailer" ∷ []

-- `HOP_BY_HOP_HEADERS.has(name)`
unfoldable pub is_hop_by_hop : String → Bool
is_hop_by_hop name = any (λ h. str_eq h name) hop_by_hop_headers

abbrev pub is_absent : HeaderValue → Bool
is_absent absent = true
is_absent _ = false

pub record ForwardHeadersInput : Type 0 where
  pub headers : Map HeaderValue
  pub remote_address : String
  pub protocol : String
  pub host_header : Option String
  pub target_host : String
  pub preserve_host_header : Bool
  pub request_id_header : String
  pub request_id_value : String

-- `values.join(', ')`
join : List String → String
join [] = ""
join (s ∷ []) = s
join (s ∷ t ∷ ts) = text_append s (text_append ", " (join (t ∷ ts)))

unfoldable pub forwarded_for_value : Option HeaderValue → String → String
unfolding join
forwarded_for_value none remote = remote
forwarded_for_value (some absent) remote = remote
forwarded_for_value (some (single s)) remote =
    if str_eq s "" then remote else text_append s (text_append ", " remote)
forwarded_for_value (some (multiple vs)) remote = text_append (join vs) (text_append ", " remote)

module _ (lower : String → String) where
  -- `stripHopByHopHeaders`, and the loop of `buildForwardHeaders`. An object has each name once.
  unfoldable pub strip_hop_by_hop_headers : Map HeaderValue → Map HeaderValue
  strip_hop_by_hop_headers [] = []
  strip_hop_by_hop_headers ((name, value) ∷ headers) =
      let kept = strip_hop_by_hop_headers headers in
      if is_absent value || is_hop_by_hop (lower name) then kept else (name, value) ∷ kept

  unfoldable pub build_forward_headers : ForwardHeadersInput → Map HeaderValue
  build_forward_headers i =
      let kept = strip_hop_by_hop_headers i.headers in
      let h1 =
        insert "x-forwarded-for"
          (single (forwarded_for_value (lookup "x-forwarded-for" i.headers) i.remote_address))
          kept in
      let h2 = insert "x-forwarded-proto" (single i.protocol) h1 in
      let h3 = insert "x-forwarded-host" (single (or_else i.host_header "")) h2 in
      let host =
        if i.preserve_host_header then or_else i.host_header i.target_host else i.target_host in
      let h4 = insert "host" (single host) h3 in
      insert i.request_id_header (single i.request_id_value) h4
