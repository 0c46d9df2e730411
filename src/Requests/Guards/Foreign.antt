-- ===== src/Requests/Guards/Foreign.antt =====
-- The guards against a page of another site (src/interface/http/guards/csrf.guard.ts with jwt.guard.ts).
use nestjs_ddd.Prelude.{
  ◌≡◌, Bool, true, false, not, ◌&&◌, Option, none, some, String, arith, if◌then◌else◌,
}
use nestjs_ddd.Requests.Guards.{
  is_given, JwtPayload, Request, CsrfConfig, Route, csrf_rejected, invalid_token, refused,
  is_state_changing, request_origin, own_origin, is_trusted, same_site_fetch, csrf_guard,
  bearer_token, jwt_from_request, verified, jwt_guard, run_guards,
}

-- A request that a browser sends for a page of another site: it cannot add `Authorization`, the browser
-- does not say that it comes from the same site, and its origin is neither the program's nor trusted.
abbrev pub is_foreign : (String → Option String) → CsrfConfig → Request → Bool
is_foreign url_origin c r =
    not (is_given r.authorization)
    && not (same_site_fetch r.fetch_site)
    && not (is_trusted (own_origin r) c.trusted_origins (request_origin url_origin r))

bearer_token_absent :
    (bearer : String → Option String) (header : Option String)
    → is_given header ≡ false
    → bearer_token bearer header ≡ none
unfolding bearer_token
bearer_token_absent bearer none h = ground arith
bearer_token_absent bearer (some s) h = ground arith

-- A request that a page of another site makes a browser send never reaches a handler that is not
-- public, if it is one that changes state and the guard is on: with the cookie it is refused as
-- a cross-site request, without it for want of a token, whatever the roles are and the tokens say.
pub foreign_write_refused :
    (url_origin bearer : String → Option String) (verify : String → Option JwtPayload)
    (c : CsrfConfig) (route : Route) (r : Request)
    → c.enabled ≡ true
    → route.is_public ≡ false
    → is_state_changing r.method ≡ true
    → is_foreign url_origin c r ≡ true
    → run_guards url_origin bearer verify c route false r
      ≡ refused (if is_given r.auth_cookie then csrf_rejected else invalid_token)
unfolding run_guards csrf_guard jwt_guard jwt_from_request verified
foreign_write_refused url_origin bearer verify c route r on private write foreign =
    let absent = bearer_token_absent bearer r.authorization (ground arith) in ground arith
