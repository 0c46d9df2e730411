-- ===== src/Legacy/Tests.antt =====
-- The theorems on the legacy forwarder at concrete requests.
use nestjs_ddd.Prelude.{ℕ, ◌≡◌, false, some, String, List, [], ◌∷◌, any}
use nestjs_ddd.Idempotency.Interceptor.{single}
use nestjs_ddd.Legacy.Prefix.{matches_legacy_prefix, normalize}
use nestjs_ddd.Legacy.Prefix.Segments.{segments, begins, matches_legacy_prefix-segments}
use nestjs_ddd.Legacy.Headers.{ForwardHeadersInput}
use nestjs_ddd.Legacy.Forward.{OutboundEvent, on_timeout, on_error, on_response}

-- "/a/b" under "/a", and "/ab", which is not.
abbrev nested : List ℕ
nested = b'/' ∷ b'a' ∷ b'/' ∷ b'b' ∷ []

abbrev prefixes : List (List ℕ)
prefixes = (b'/' ∷ b'a' ∷ b'b' ∷ []) ∷ (b'/' ∷ b'a' ∷ b'/' ∷ []) ∷ []

matches_legacy_prefix-segments_example :
    matches_legacy_prefix nested prefixes
    ≡ any (λ prefix. begins (segments (normalize prefix)) (segments (normalize nested))) prefixes
matches_legacy_prefix-segments_example = matches_legacy_prefix-segments nested prefixes

abbrev input : ForwardHeadersInput
input = record {
  headers = ("connection", single "close") ∷ ("authorization", single "Bearer t") ∷ [];
  remote_address = "10.0.0.1";
  protocol = "https";
  host_header = some "api.example";
  target_host = "legacy:8080";
  preserve_host_header = false;
  request_id_header = "x-request-id";
  request_id_value = "r-1";
}

-- The names are in lower case.
abbrev as_given : String → String
as_given name = name

abbrev slow : List OutboundEvent
slow = on_response (some 200) ∷ on_timeout ∷ on_error ∷ []
