-- ===== src/Requests/Pipeline/Refused.antt =====
-- A request that the guards refuse (src/interface/http/guards with src/interface/http/global-exception.filter.ts).
use nestjs_ddd.Prelude.{
  ℕ, ◌≡◌, refl, ◌∙◌, Bool, true, false, if◌then◌else◌, Bool-cases, inl, inr, String, Option,
}
use nestjs_ddd.Shared.Values.{Value}
use nestjs_ddd.Idempotency.Port.{IdempotencyStore}
use nestjs_ddd.Errors.Presenter.{present, status_of_kind}
use nestjs_ddd.Errors.Filter.{catch_exception, is_exposed}
use nestjs_ddd.Errors.Formatter.{answer_exception}
use nestjs_ddd.Errors.Raised.{app_error}
use nestjs_ddd.Errors.Formatter.Success.{sent_status}
use nestjs_ddd.Requests.Guards.{
  run_guards, JwtPayload, Request, CsrfConfig, Route, Refusal, too_many, csrf_rejected,
  invalid_token, no_user, forbidden, refused, is_given, is_state_changing,
}
use nestjs_ddd.Requests.Guards.Foreign.{is_foreign, foreign_write_refused}
use nestjs_ddd.Requests.Pipeline.{
  refusal_exception, Incoming, Surroundings, Outcome, passage, after_guards, handle_request,
}

-- The status of a refusal.
abbrev pub refusal_status : Refusal → ℕ
refusal_status too_many = 429
refusal_status csrf_rejected = 403
refusal_status invalid_token = 401
refusal_status no_user = 401
refusal_status forbidden = 403

foreign_status :
    (cookie : Bool)
    → refusal_status (if cookie then csrf_rejected else invalid_token)
      ≡ (if cookie then 403 else 401)
foreign_status true = refl
foreign_status false = refl

throttled_refused :
    (url_origin bearer : String → Option String) (verify : String → Option JwtPayload)
    (c : CsrfConfig) (route : Route) (r : Request)
    → run_guards url_origin bearer verify c route true r ≡ refused too_many
unfolding run_guards
throttled_refused url_origin bearer verify c route r = refl

module _ (e : Surroundings) (store : IdempotencyStore Value) where
  open store use {State}

  refused_status :
      (p : Incoming) (r : Refusal) (s : State)
      → sent_status (after_guards e store (refused r) p s).sent ≡ refusal_status r
  unfolding after_guards refusal_exception app_error answer_exception catch_exception is_exposed
      present status_of_kind
  refused_status p too_many s = refl
  refused_status p csrf_rejected s = refl
  refused_status p invalid_token s = refl
  refused_status p no_user s = refl
  refused_status p forbidden s = refl

  after_refusal :
      (p : Incoming) (r : Refusal) (s : State)
      → ((after_guards e store (refused r) p s).runs ≡ 0)
        × ((after_guards e store (refused r) p s).store ≡ s)
        × (sent_status (after_guards e store (refused r) p s).sent ≡ refusal_status r)
  after_refusal p r s =
      (unfold after_guards in refl, unfold after_guards in refl, refused_status p r s)

  -- While the guard against cross-site requests is on, a request that changes state, that a page of
  -- another site makes a browser send, and that goes to a route that is not public: no handler runs,
  -- the store of the idempotency keys stays as it is, and the answer is a 429 if the request is
  -- throttled, otherwise a 403 if it carries the cookie and a 401 if it does not.
  pub foreign_write_answer :
      (p : Incoming) (s : State) (o : Outcome State)
      → e.csrf.enabled ≡ true
      → p.guarded.is_public ≡ false
      → is_state_changing p.request.method ≡ true
      → is_foreign e.url_origin e.csrf p.request ≡ true
      → handle_request e store p s ≡ o
      → (o.runs ≡ 0)
        × (o.store ≡ s)
        × (sent_status o.sent
            ≡ (if p.throttled then 429 else if is_given p.request.auth_cookie then 403 else 401))
  unfolding handle_request
  foreign_write_answer p s o on private write foreign ran =
      let refusal = if is_given p.request.auth_cookie then csrf_rejected else invalid_token in
      elim (Bool-cases p.throttled) [
        | inl busy ↦
            let stop : passage e store p ≡ refused too_many =
              rw busy
                (throttled_refused e.url_origin e.bearer e.verify e.csrf p.guarded p.request) in
            rw (← ran) (rw (stop, busy) (after_refusal p too_many s))
        | inr calm ↦
            let stop : passage e store p ≡ refused refusal = rw calm (
              foreign_write_refused e.url_origin e.bearer e.verify e.csrf p.guarded p.request on
                private write foreign) in
            let (no_runs, same, status) = after_refusal p refusal s in
            rw (← ran) (
              rw (stop, calm)
                (no_runs, same, status ∙ foreign_status (is_given p.request.auth_cookie)))
      ]
