-- ===== src/Errors/Tests.antt =====
-- The theorems on the exception filter at concrete errors.
use nestjs_ddd.Prelude.{ℕ, ◌≡◌, refl, true, false, Option, none, some, String, [], ◌∷◌}
use nestjs_ddd.Shared.Values.{Value, undefined, string}
use nestjs_ddd.Errors.Presenter.{ThrownValue, present}
use nestjs_ddd.Errors.Filter.{
  other, log_error, failure, Answer, catch_exception, is_exposed, log_exception,
}
use nestjs_ddd.Errors.Safe.{catch_exception-hides}

abbrev no_names : ℕ → Option String
no_names status = none

abbrev no_text : Value → String
no_text v = ""

-- An error with a secret in its text.
abbrev crash : String → ThrownValue
crash text = record {
  to_problem = none;
  is_domain_error = false;
  is_app_error = false;
  message = some text;
}

abbrev answer : Answer
answer = record {
  status = 500;
  body =
      failure (string "Unexpected error") undefined undefined
        (string "urn:nestjs-ddd:problem:internal");
  logged = log_error 500 ∷ [];
}

answered :
    catch_exception no_names no_text (other false none (string "secret") undefined (crash "secret"))
    ≡ answer
unfolding catch_exception is_exposed present log_exception
answered = refl

hidden : is_exposed true (some 500) ≡ false
unfolding is_exposed
hidden = refl

catch_exception-hides_example :
    catch_exception no_names no_text
      (other true (some 500) (string "secret") undefined (crash "secret"))
    ≡ catch_exception no_names no_text
        (other true (some 500) (string "other") undefined (crash "other"))
catch_exception-hides_example =
    catch_exception-hides no_names no_text true (some 500) (string "secret") (string "other")
      undefined undefined (crash "secret") (crash "other") hidden refl refl refl refl refl
