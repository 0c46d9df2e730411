-- ===== src/Requests/Guards.antt =====
-- src/interface/http/guards: csrf.guard.ts, jwt.guard.ts, roles.guard.ts and current-user.util.ts, with the
-- extractors of src/infrastructure/auth/strategies/jwt.strategy.ts, in the order of
-- src/interface/interface.module.ts. `url_origin` is `new URL(url).origin` (none where it throws), `bearer`
-- the extractor of `Authorization: Bearer`, `verify` the check of a token by passport-jwt: its payload, or
-- none for a token that is refused. The library takes the first extractor that gives a token.
pub mod Foreign
pub mod Passed
use Prim.Native.String.{◌++◌ as text_append}
use nestjs_ddd.Prelude.{
  Bool, true, false, not, ◌&&◌, ◌||◌, Option, none, some, String, List, [], ◌∷◌, any, str_eq,
  or_else, is_some, if◌then◌else◌,
}

-- A text that is there and not empty.
abbrev pub is_given : Option String → Bool
is_given none = false
is_given (some s) = not (str_eq s "")

-- `list.includes(s)`, `set.has(s)`
abbrev pub has : String → List String → Bool
has s texts = any (λ t. str_eq t s) texts

pub record JwtPayload : Type 0 where
  pub username : String
  pub roles : Option (List String)

pub record Request : Type 0 where
  pub method : String
  -- `req.cookies[cookieName]`
  pub auth_cookie : Option String
  pub authorization : Option String
  pub fetch_site : Option String
  pub origin : Option String
  pub referer : Option String
  pub protocol : String
  pub host : Option String

pub record CsrfConfig : Type 0 where
  pub enabled : Bool
  pub trusted_origins : List String

-- What the decorators of the handler, or of its class, say.
pub record Route : Type 0 where
  pub is_public : Bool
  pub roles : Option (List String)

-- `too_many` is the refusal of the throttler, and `invalid_token` that of the passport guard of the
-- framework; `no_user` is thrown by `getAuthenticatedUser`.
pub data Refusal : Type 0 where
  too_many csrf_rejected invalid_token no_user forbidden : Refusal

pub data Passage : Type 0 where
  refused : Refusal → Passage
  -- The handler runs, with `req.user`.
  passed : Option JwtPayload → Passage

abbrev state_changing : List String
state_changing = "POST" ∷ "PUT" ∷ "PATCH" ∷ "DELETE" ∷ []

unfoldable pub is_state_changing : String → Bool
is_state_changing method = has method state_changing

module _ (url_origin : String → Option String) where
  -- `originOf`
  unfoldable pub origin_of : Option String → Option String
  origin_of none = none
  origin_of (some url) = if str_eq url "" then none else url_origin url

  -- `req.get('origin') ?? originOf(req.get('referer'))`
  unfoldable pub request_origin : Request → Option String
  unfolding origin_of
  request_origin r = elim r.origin [ some o ↦ some o | none ↦ origin_of r.referer ]

-- An absent header reads `undefined` in the template.
unfoldable pub own_origin : Request → String
own_origin r = text_append r.protocol (text_append "://" (or_else r.host "undefined"))

-- `origin && (origin === ownOrigin || trustedOrigins.has(origin))`
unfoldable pub is_trusted : String → List String → Option String → Bool
is_trusted own trusted none = false
is_trusted own trusted (some o) = not (str_eq o "") && (str_eq o own || has o trusted)

abbrev pub same_site_fetch : Option String → Bool
same_site_fetch none = false
same_site_fetch (some s) = str_eq s "same-origin" || str_eq s "none"

-- `CsrfGuard.canActivate`: false where it throws.
unfoldable pub csrf_guard : (String → Option String) → CsrfConfig → Request → Bool
unfolding is_state_changing request_origin own_origin is_trusted
csrf_guard url_origin c r =
    if not c.enabled
    then true
    else if not (is_state_changing r.method)
    then true
    else if not (is_given r.auth_cookie)
    then true
    else if is_given r.authorization
    then true
    else if same_site_fetch r.fetch_site
    then true
    else is_trusted (own_origin r) c.trusted_origins (request_origin url_origin r)

-- A header is read by the extractor only if it is there.
unfoldable pub bearer_token : (String → Option String) → Option String → Option String
bearer_token bearer none = none
bearer_token bearer (some header) = if str_eq header "" then none else bearer header

-- `jwtFromRequest`
unfoldable pub jwt_from_request : (String → Option String) → Request → Option String
unfolding bearer_token
jwt_from_request bearer r =
    if is_given r.auth_cookie then r.auth_cookie else bearer_token bearer r.authorization

-- A payload becomes `req.user`; no payload is an `UnauthorizedException`.
abbrev pub authenticated : Option JwtPayload → Passage
authenticated none = refused invalid_token
authenticated (some payload) = passed (some payload)

unfoldable pub verified : (String → Option JwtPayload) → Option String → Passage
verified verify none = refused invalid_token
verified verify (some token) = authenticated (verify token)

-- `JwtGuard.canActivate`
unfoldable pub jwt_guard :
    (bearer : String → Option String)
    → (verify : String → Option JwtPayload) → Route
    → Request
    → Passage
unfolding jwt_from_request verified
jwt_guard bearer verify route r =
    if route.is_public then passed none else verified verify (jwt_from_request bearer r)

-- `getAuthenticatedUser`: none where it throws.
unfoldable pub get_authenticated_user : Option JwtPayload → Option JwtPayload
get_authenticated_user none = none
get_authenticated_user (some user) = if str_eq user.username "" then none else some user

-- `required.some((role) => held.includes(role))`
unfoldable pub holds_one : List String → List String → Bool
holds_one required held = any (λ role. has role held) required

unfoldable pub check_roles : List String → Option JwtPayload → Passage → Passage
unfolding holds_one
check_roles required none through = refused no_user
check_roles required (some user) through =
    if holds_one required (or_else user.roles []) then through else refused forbidden

-- `RolesGuard.canActivate`, for the roles that the route asks for, on what the guard before it left in
-- the request.
unfoldable pub roles_guard : (required : Option (List String)) → Option JwtPayload → Passage
unfolding get_authenticated_user check_roles
roles_guard none user = passed user
roles_guard (some []) user = passed user
roles_guard (some (role ∷ others)) user =
    check_roles (role ∷ others) (get_authenticated_user user) (passed user)

abbrev pub and_then : Passage → (Option JwtPayload → Passage) → Passage
and_then (refused r) next = refused r
and_then (passed user) next = next user

-- The guards in the order of their registration. `throttled` is the decision of `ThrottlerGuard`.
unfoldable pub run_guards :
    (url_origin bearer : String → Option String)
    → (verify : String → Option JwtPayload) → CsrfConfig
    → Route
    → (throttled : Bool) → Request
    → Passage
unfolding csrf_guard jwt_guard roles_guard
run_guards url_origin bearer verify c route throttled r =
    if throttled
    then refused too_many
    else if not (csrf_guard url_origin c r)
    then refused csrf_rejected
    else and_then (jwt_guard bearer verify route r) (roles_guard route.roles)
