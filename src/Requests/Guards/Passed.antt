-- ===== src/Requests/Guards/Passed.antt =====
-- Which requests all the guards let on (src/interface/interface.module.ts).
use nestjs_ddd.Prelude.{
  ◌≡◌, refl, Bool, true, false, not, ◌&&◌, ◌||◌, Option, none, some, String, List, [], ◌∷◌, str_eq,
  or_else, is_some, Bool-cases, inl, inr, if◌then◌else◌,
}
use nestjs_ddd.Requests.Guards.{
  JwtPayload, Request, CsrfConfig, Route, Passage, refused, passed, csrf_guard, jwt_from_request,
  verified, authenticated, jwt_guard, roles_guard, run_guards, and_then, holds_one, check_roles,
  get_authenticated_user,
}

-- The user that the token of a request stands for.
abbrev pub token_user : (String → Option JwtPayload) → Option String → Option JwtPayload
token_user verify none = none
token_user verify (some token) = verify token

-- The user of a request at a route: a public one is not looked at.
abbrev pub user_at :
    (bearer : String → Option String)
    → (verify : String → Option JwtPayload) → Route
    → Request
    → Option JwtPayload
user_at bearer verify route r =
    if route.is_public then none else token_user verify (jwt_from_request bearer r)

-- A user with a name that has one of the roles.
abbrev pub has_role : List String → Option JwtPayload → Bool
has_role required none = false
has_role required (some user) =
    not (str_eq user.username "") && holds_one required (or_else user.roles [])

-- A route that names no role asks for none.
abbrev pub is_entitled : Option (List String) → Option JwtPayload → Bool
is_entitled none user = true
is_entitled (some []) user = true
is_entitled (some (role ∷ others)) user = has_role (role ∷ others) user

-- The guards let the request on, for this user.
abbrev pub Reached : Passage → Option JwtPayload → Bool → Type 0
Reached (refused r) user runs = runs ≡ false
Reached (passed u) user runs = (u ≡ user) × (runs ≡ true)

roles_guard-Reached :
    (required : Option (List String)) (user : Option JwtPayload)
    → Reached (roles_guard required user) user (is_entitled required user)
unfolding roles_guard get_authenticated_user check_roles
roles_guard-Reached none user = (refl, refl)
roles_guard-Reached (some []) user = (refl, refl)
roles_guard-Reached (some (role ∷ others)) none = refl
roles_guard-Reached (some (role ∷ others)) (some user) =
    elim (Bool-cases (str_eq user.username "")) [
      | inl empty ↦ rw empty refl
      | inr named ↦ elim (Bool-cases (holds_one (role ∷ others) (or_else user.roles []))) [
        | inl holds ↦ rw (named, holds) (refl, refl)
        | inr lacks ↦ rw (named, lacks) refl
      ]
    ]

authenticated-Reached :
    (required : Option (List String)) (user : Option JwtPayload)
    → Reached
        (and_then (authenticated user) (roles_guard required))
        user
        (is_some user && is_entitled required user)
authenticated-Reached required none = refl
authenticated-Reached required (some user) = roles_guard-Reached required (some user)

verified-Reached :
    (verify : String → Option JwtPayload) (token : Option String) (required : Option (List String))
    → Reached
        (and_then (verified verify token) (roles_guard required))
        (token_user verify token)
        (is_some (token_user verify token) && is_entitled required (token_user verify token))
unfolding verified
verified-Reached verify none required = refl
verified-Reached verify (some token) required = authenticated-Reached required (verify token)

-- The guards let a request on exactly when it is not throttled, passes the check of its origin, has a
-- valid token unless the route is public, and is entitled where the route names roles: its user has a
-- name and one of them. The request then carries the user of the token, on a public route none.
pub run_guards-Reached :
    (url_origin bearer : String → Option String) (verify : String → Option JwtPayload)
    (c : CsrfConfig) (route : Route) (throttled : Bool) (r : Request) (user : Option JwtPayload)
    → user_at bearer verify route r ≡ user
    → Reached (run_guards url_origin bearer verify c route throttled r) user (
        not throttled
        && csrf_guard url_origin c r
        && (route.is_public || is_some user)
        && is_entitled route.roles user)
unfolding run_guards jwt_guard
run_guards-Reached url_origin bearer verify c route true r user e = refl
run_guards-Reached url_origin bearer verify c route false r user e =
    rw (← e) (elim (Bool-cases (csrf_guard url_origin c r)) [
      | inr foreign ↦ rw foreign refl
      | inl own ↦ elim (Bool-cases route.is_public) [
        | inl open_route ↦ rw (own, open_route) (roles_guard-Reached route.roles none)
        | inr closed ↦
            rw (own, closed) (verified-Reached verify (jwt_from_request bearer r) route.roles)
      ]
    ])
