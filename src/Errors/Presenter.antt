-- ===== src/Errors/Presenter.antt =====
-- src/interface/http/error-presenter.ts.
use nestjs_ddd.Prelude.{
  ℕ, Bool, Option, none, some, String, [], ◌∷◌, Map, lookup, or_else, if◌then◌else◌,
}
use nestjs_ddd.Shared.Values.{Value, undefined}

pub record Problem : Type 0 where
  pub kind : String
  pub type : String
  pub title : String
  pub detail : Option String
  pub code : Option String
  pub errors : Value

-- What the presenter asks of a thrown value: `to_problem` is the problem that its `toProblem` returns,
-- `none` if there is no such method, it throws, or what it returns is no problem.
pub record ThrownValue : Type 0 where
  pub to_problem : Option Problem
  pub is_domain_error : Bool
  pub is_app_error : Bool
  pub message : Option String

abbrev pub kind_to_status : Map ℕ
kind_to_status =
    ("validation", 422)
    ∷ ("not_found", 404)
    ∷ ("conflict", 409)
    ∷ ("unauthorized", 401)
    ∷ ("forbidden", 403)
    ∷ ("service_unavailable", 503)
    ∷ ("bad_request", 400)
    ∷ ("internal", 500)
    ∷ ("not_implemented", 501)
    ∷ []

-- `KIND_TO_STATUS[kind] ?? HttpStatus.INTERNAL_SERVER_ERROR`
unfoldable pub status_of_kind : String → ℕ
unfolding lookup
status_of_kind kind = or_else (lookup kind kind_to_status) 500

pub record PresentedError : Type 0 where
  pub status : ℕ
  pub problem : Problem

abbrev fallback : String → String → String → String → Problem
fallback kind type title detail = record {
  kind = kind;
  type = type;
  title = title;
  detail = some detail;
  code = none;
  errors = undefined;
}

-- `present`
unfoldable pub present : ThrownValue → PresentedError
present error = elim error.to_problem [
  | some p ↦ record { status = status_of_kind p.kind; problem = p }
  | none ↦
      if error.is_domain_error
      then record {
        status = 422;
        problem =
            fallback "validation" "urn:nestjs-ddd:problem:validation" "Domain Error"
              (or_else error.message "Domain rule violated");
      }
      else if error.is_app_error
      then record {
        status = 500;
        problem =
            fallback "internal" "urn:nestjs-ddd:problem:internal" "Application Error"
              "Application failure";
      }
      else record {
        status = 500;
        problem =
            fallback "internal" "urn:nestjs-ddd:problem:internal" "Internal Error"
              "Unexpected error";
      }
]
