-- ===== src/Errors/Raised.antt =====
-- The errors that the application and its interface raise: src/application/errors and
-- src/interface/http/errors, by what their `toProblem` returns.
use nestjs_ddd.Prelude.{true, false, none, some, String, str_append}
use nestjs_ddd.Shared.Values.{undefined}
use nestjs_ddd.Errors.Presenter.{Problem}
use nestjs_ddd.Errors.Filter.{Exception, other}

-- An `AppError` with what its `toProblem` returns.
unfoldable pub app_error : Problem → Exception
app_error p = other false none undefined undefined (record {
  to_problem = some p;
  is_domain_error = false;
  is_app_error = true;
  message = p.detail;
})

abbrev pub problem : (kind type title detail : String) → Problem
problem kind type title detail = record {
  kind = kind;
  type = type;
  title = title;
  detail = some detail;
  code = none;
  errors = undefined;
}

-- `{ ...super.toProblem(), code }`
abbrev pub with_code : String → Problem → Problem
with_code code p = record p { code = some code }

abbrev pub bad_request_problem : String → Problem
bad_request_problem message =
    problem "bad_request" "urn:nestjs-ddd:problem:bad-request" "Bad Request" message

abbrev pub conflict_problem : String → Problem
conflict_problem message = problem "conflict" "urn:nestjs-ddd:problem:conflict" "Conflict" message

abbrev pub forbidden_problem : String → Problem
forbidden_problem message =
    problem "forbidden" "urn:nestjs-ddd:problem:forbidden" "Forbidden" message

abbrev pub unauthorized_problem : String → Problem
unauthorized_problem message =
    problem "unauthorized" "urn:nestjs-ddd:problem:unauthorized" "Unauthorized" message

abbrev pub csrf_rejected_problem : Problem
csrf_rejected_problem = with_code "CSRF_REJECTED" (forbidden_problem "Cross-site request rejected")

abbrev pub missing_idempotency_key_problem : String → Problem
missing_idempotency_key_problem header =
    with_code "MISSING_IDEMPOTENCY_KEY"
      (bad_request_problem (str_append "Missing required \"" (str_append header "\" header")))

abbrev pub idempotency_key_reused_problem : Problem
idempotency_key_reused_problem = with_code "IDEMPOTENCY_KEY_REUSED" (
    problem "validation" "urn:nestjs-ddd:problem:validation" "Idempotency key reused"
      "This Idempotency-Key was already used with a different request body")

abbrev pub idempotency_in_progress_problem : Problem
idempotency_in_progress_problem =
    with_code "IDEMPOTENCY_IN_PROGRESS"
      (conflict_problem "A request with this Idempotency-Key is still in progress")
