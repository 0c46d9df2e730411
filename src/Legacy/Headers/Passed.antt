-- ===== src/Legacy/Headers/Passed.antt =====
-- Which headers reach the legacy service (src/infrastructure/legacy/forward-headers.util.ts).
use nestjs_ddd.Prelude.{Bool, ◌||◌, String, str_eq}
use nestjs_ddd.Legacy.Headers.{ForwardHeadersInput}

-- The names that the forwarder sets itself.
abbrev pub is_set_here : ForwardHeadersInput → String → Bool
is_set_here i name =
    str_eq i.request_id_header name
    || str_eq "host" name
    || str_eq "x-forwarded-host" name
    || str_eq "x-forwarded-proto" name
    || str_eq "x-forwarded-for" name
