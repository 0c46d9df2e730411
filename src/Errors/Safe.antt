-- ===== src/Errors/Safe.antt =====
-- What an error lets the client know (src/interface/http/global-exception.filter.ts).
use nestjs_ddd.Prelude.{
  ℕ, ◌≤◌, ◌≡◌, Bool, false, Option, none, String, [], ◌∷◌, leb, Option-cases, inl, inr, arith,
  if◌then◌else◌,
}
use nestjs_ddd.Shared.Values.{Value}
use nestjs_ddd.Errors.Presenter.{ThrownValue, present, status_of_kind}
use nestjs_ddd.Errors.Filter.{
  other, log_error, log_warn, Answer, log_exception, is_exposed, catch_exception,
}

status_of_kind_bounds : (kind : String) → (400 ≤ status_of_kind kind) × (status_of_kind kind ≤ 503)
unfolding status_of_kind
status_of_kind_bounds kind = (ground arith, ground arith)

pub present-status :
    (thrown : ThrownValue) → (400 ≤ (present thrown).status) × ((present thrown).status ≤ 503)
unfolding present
present-status thrown = elim (Option-cases thrown.to_problem) [
  | inl nothing ↦ (ground arith, ground arith)
  | inr (p, found) ↦ (let known = status_of_kind_bounds p.kind in (ground arith, ground arith))
]

-- Whatever is thrown other than an `HttpException` is answered with a status from 400 to 503, and
-- logged once: as an error from 500 on, as a warning below.
pub catch_exception-status :
    (status_name : ℕ → Option String) (to_text : Value → String) (expose : Bool) (status : Option ℕ)
    (message type : Value) (thrown : ThrownValue) (a : Answer)
    → catch_exception status_name to_text (other expose status message type thrown) ≡ a
    → (400 ≤ a.status)
      × (a.status ≤ 503)
      × (a.logged ≡ (if leb 500 a.status then log_error a.status else log_warn a.status) ∷ [])
unfolding catch_exception is_exposed log_exception
catch_exception-status status_name to_text expose status message type thrown a e =
    let known = present-status thrown in (ground arith, ground arith, ground arith)

-- The text of an error that is no `HttpException` and is neither exposed, nor a domain error, nor
-- presents a problem of its own never reaches the client: two such errors, exposed alike and both or
-- neither an `AppError`, are answered alike, whatever their texts.
pub catch_exception-hides :
    (status_name : ℕ → Option String) (to_text : Value → String) (expose : Bool) (status : Option ℕ)
    (message message' type type' : Value) (thrown thrown' : ThrownValue)
    → is_exposed expose status ≡ false
    → thrown.to_problem ≡ none
    → thrown'.to_problem ≡ none
    → thrown.is_domain_error ≡ false
    → thrown'.is_domain_error ≡ false
    → thrown.is_app_error ≡ thrown'.is_app_error
    → catch_exception status_name to_text (other expose status message type thrown)
      ≡ catch_exception status_name to_text (other expose status message' type' thrown')
unfolding catch_exception present
catch_exception-hides status_name to_text expose status message message' type type' thrown thrown'
      hidden p p' d d' a =
    ground arith
